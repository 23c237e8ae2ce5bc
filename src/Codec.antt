-- ===== src/Codec.antt =====
-- ntied/src/audio/codec/traits.rs, manager.rs and mod.rs: the codecs, what a peer says that it can
-- do, what two peers agree on, and the manager that calls use.
pub mod Negotiation
pub mod Order
pub mod Choice
pub mod Accepted
pub mod Adaptive
pub mod Raw
pub mod Factory
use ntied.Common.{
  ℕ, Bool, true, false, List, [], ◌∷◌, Result, ok, err, ltb, ◌==◌, ◌||◌, if◌then◌else◌,
}

pub data CodecType : Type 0 where
  raw adpcm : CodecType

unfoldable pub CodecType-discrete : Discrete CodecType
CodecType-discrete = hlevel

unfoldable pub priority : CodecType → ℕ
priority adpcm = 80
priority raw = 20

unfoldable pub typical_bitrate : CodecType → ℕ
typical_bitrate adpcm = 32
typical_bitrate raw = 768

unfoldable pub supports_fec : CodecType → Bool
supports_fec codec = false

unfoldable pub supports_dtx : CodecType → Bool
supports_dtx codec = false

pub record CodecParams : Type 0 where
  pub sample_rate : ℕ
  pub channels : ℕ
  pub bitrate : ℕ
  pub fec : Bool
  pub dtx : Bool
  pub expected_packet_loss : ℕ
  pub complexity : ℕ

-- `CodecParams::default`.
unfoldable pub default_params : CodecParams
default_params = record {
  sample_rate = 48000;
  channels = 1;
  bitrate = 32000;
  fec = true;
  dtx = true;
  expected_packet_loss = 5;
  complexity = 10;
}

-- `CodecParams::adpcm`.
unfoldable pub adpcm_params : CodecParams
adpcm_params = record {
  sample_rate = 16000;
  channels = 1;
  bitrate = 32000;
  fec = false;
  dtx = false;
  expected_packet_loss = 5;
  complexity = 10;
}

pub record NegotiatedCodec : Type 0 where
  pub codec : CodecType
  pub params : CodecParams
  pub is_offerer : Bool

pub record CodecCapabilities : Type 0 where
  pub codecs : List CodecType
  pub sample_rates : List ℕ
  pub max_channels : ℕ
  pub max_bitrate : ℕ
  pub supports_fec : Bool
  pub supports_dtx : Bool

-- `CodecCapabilities::default`.
unfoldable pub default_capabilities : CodecCapabilities
default_capabilities = record {
  codecs = adpcm ∷ raw ∷ [];
  sample_rates = 48000 ∷ 44100 ∷ 32000 ∷ 24000 ∷ 16000 ∷ 8000 ∷ [];
  max_channels = 2;
  max_bitrate = 510000;
  supports_fec = false;
  supports_dtx = false;
}

pub data CodecError : Type 0 where
  no_common_codec : CodecError
  unsupported_codec unsupported_sample_rate too_many_channels : CodecError
  unsupported_channels too_short : CodecError

-- `CodecManager`, whose offers and answers do not look at the capabilities.
pub record CodecManager : Type 0 where
  pub capabilities : CodecCapabilities

unfoldable pub new : CodecManager
new = record { capabilities = default_capabilities }

unfoldable pub create_offer : CodecManager → NegotiatedCodec
create_offer m = record { codec = adpcm; params = adpcm_params; is_offerer = true }

unfoldable pub create_answer : CodecManager → CodecCapabilities → Result CodecError NegotiatedCodec
create_answer m peer = ok (record { codec = adpcm; params = adpcm_params; is_offerer = false })

-- The check at the start of every constructor of an encoder or a decoder.
unfoldable pub check_channels : ℕ → Result CodecError ℕ
check_channels n = if (n == 0) || ltb 2 n then err unsupported_channels else ok n
