-- ===== src/Codec/Raw.antt =====
-- ntied/src/audio/codec/raw.rs: the codec without compression. A sample is the 32 bits of its f32.
use ntied.Common.{
  ℕ, ◌+◌, ◌*◌, ◌/◌, ◌%◌, ◌^◌, ◌<◌, ◌≡◌, refl, ap, ◌∙◌, List, [], ◌∷◌, Result, ok, err, replicate,
  length, All, arith,
}
use ntied.ByteIo.{Bytes}
use ntied.Codec.{CodecError, check_channels}

pub record RawEncoder : Type 0 where
  pub channels : ℕ

pub record RawDecoder : Type 0 where
  pub channels : ℕ
  pub last_frame : List ℕ

unfoldable pub new_encoder : ℕ → Result CodecError RawEncoder
unfolding check_channels
new_encoder n = elim (check_channels n) [
  | err e ↦ err e
  | ok channels ↦ ok (record { channels = channels })
]

-- `reset` of the decoder: 960 zeros for each channel.
unfoldable pub reset_decoder : RawDecoder → RawDecoder
reset_decoder d = record d { last_frame = replicate (960 * d.channels) 0 }

unfoldable pub new_decoder : ℕ → Result CodecError RawDecoder
unfolding check_channels
new_decoder n = elim (check_channels n) [
  | err e ↦ err e
  | ok channels ↦ ok (record { channels = channels; last_frame = replicate (960 * channels) 0 })
]

-- `to_le_bytes` of each sample.
unfoldable pub encode : List ℕ → Bytes
encode [] = []
encode (s ∷ rest) = s % 256 ∷ s / 256 % 256 ∷ s / 65536 % 256 ∷ s / 16777216 % 256 ∷ encode rest

-- `chunks_exact(4)` and `from_le_bytes`: fewer than four bytes at the end are dropped.
unfoldable pub samples_of : Bytes → List ℕ
samples_of (a ∷ b ∷ c ∷ d ∷ rest) = (a + 256 * b + 65536 * c + 16777216 * d) ∷ samples_of rest
samples_of _ = []

unfoldable pub decode : Bytes → RawDecoder → RawDecoder × List ℕ
decode bytes d = let samples = samples_of bytes in (record d { last_frame = samples }, samples)

-- The multiplication of sample `i` of `len` with its fade is an argument.
unfoldable pub fade_from : (ℕ → ℕ → ℕ → ℕ) → ℕ → ℕ → List ℕ → List ℕ
fade_from fade i len [] = []
fade_from fade i len (s ∷ rest) = fade i len s ∷ fade_from fade (i + 1) len rest

unfoldable pub conceal_packet_loss : (ℕ → ℕ → ℕ → ℕ) → RawDecoder → List ℕ
conceal_packet_loss fade d = fade_from fade 0 (length d.last_frame) d.last_frame

samples_of-encode :
    (samples : List ℕ) → All (λ s. s < 2 ^ 32) samples → samples_of (encode samples) ≡ samples
unfolding samples_of encode
samples_of-encode [] small = refl
samples_of-encode (s ∷ rest) (first, small) = ground (arith, samples_of-encode rest small)

length-encode : (samples : List ℕ) → length (encode samples) ≡ 4 * length samples
unfolding encode
length-encode [] = refl
length-encode (s ∷ rest) = omega (arith, length-encode rest)

length-fade_from :
    (fade : ℕ → ℕ → ℕ → ℕ) (i len : ℕ) (samples : List ℕ)
    → length (fade_from fade i len samples) ≡ length samples
unfolding fade_from
length-fade_from fade i len [] = refl
length-fade_from fade i len (s ∷ rest) = omega (arith, length-fade_from fade (i + 1) len rest)

-- For samples of 32 bits and any decoder, whatever the concealment does to a sample: the decoder
-- gives back the samples, the packet has four bytes for each, and a packet that is lost after it is
-- concealed by as many samples.
pub raw-decode-encode :
    (fade : ℕ → ℕ → ℕ → ℕ) (samples : List ℕ) (d : RawDecoder)
    → All (λ s. s < 2 ^ 32) samples
    → ((decode (encode samples) d).1 ≡ samples)
      × (length (encode samples) ≡ 4 * length samples)
      × (length (conceal_packet_loss fade (decode (encode samples) d).0) ≡ length samples)
unfolding decode conceal_packet_loss
raw-decode-encode fade samples d small = (
  samples_of-encode samples small,
  length-encode samples,
  length-fade_from fade 0 (length (samples_of (encode samples))) (samples_of (encode samples))
      ∙ ap length (samples_of-encode samples small),
)
