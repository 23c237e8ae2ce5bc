-- ===== src/Adpcm/Frame.antt =====
-- ntied/src/audio/codec/adpcm.rs: packets of samples, with the state in front of them, for one or
-- two channels. The conversion of floating-point samples is a parameter.
use ntied.Common.{
  ℕ, ◌+◌, ◌*◌, ◌/◌, ◌%◌, List, [], ◌∷◌, ◌++◌, map, Result, ok, err, replicate, ◌==◌, if◌then◌else◌,
}
use ntied.ByteIo.{Bytes}
use ntied.Adpcm.{Channel, at_most, encode_sample, decode_nibble}
use ntied.Codec.{CodecError, too_short, check_channels}

-- The samples of `f32`: `to_i16` and `of_i16` convert, with 16-bit samples by their distance from
-- -32768, and `fade n` is the multiplication with the factor of the nth lost packet.
pub record SampleFloat : Type 1 where
  pub F32 : Type 0
  pub silence : F32
  pub to_i16 : F32 → ℕ
  pub of_i16 : ℕ → F32
  pub fade : ℕ → F32 → F32

pub record Voices : Type 0 where
  pub left : Channel
  pub right : Channel

pub record Encoder : Type 0 where
  pub channels : ℕ
  pub voices : Voices

abbrev pub silent : Channel
silent = record { predictor = 32768; step_index = 0 }

abbrev pub silent_voices : Voices
silent_voices = record { left = silent; right = silent }

unfoldable pub new_encoder : ℕ → Result CodecError Encoder
new_encoder n = elim (check_channels n) [
  | err e ↦ err e
  | ok channels ↦ ok (record { channels = channels; voices = silent_voices })
]

unfoldable pub reset_encoder : Encoder → Encoder
reset_encoder e = record e { voices = silent_voices }

-- The channel of sample `i`.
unfoldable pub channel_of : ℕ → ℕ → ℕ
channel_of channels i = if channels == 2 then i % 2 else 0

-- `encode_sample` and `decode_nibble` on the state of the channel that they are given.
unfoldable pub encode_on : ℕ → ℕ → Voices → Voices × ℕ
encode_on channel sample v =
    if channel == 0
    then (record v { left = (encode_sample sample v.left).0 }, (encode_sample sample v.left).1)
    else (record v { right = (encode_sample sample v.right).0 }, (encode_sample sample v.right).1)

unfoldable pub decode_on : ℕ → ℕ → Voices → Voices × ℕ
decode_on channel nibble v =
    if channel == 0
    then (record v { left = (decode_nibble nibble v.left).0 }, (decode_nibble nibble v.left).1)
    else (record v { right = (decode_nibble nibble v.right).0 }, (decode_nibble nibble v.right).1)

-- `predictor.to_le_bytes()[0..2]` in two's complement, the index, and a reserved byte.
unfoldable pub header_of : Channel → Bytes
header_of c =
    let word = (c.predictor + 32768) % 65536 in
    word % 256 ∷ word / 256 ∷ c.step_index % 256 ∷ 0 ∷ []

unfoldable pub read_header : ℕ → ℕ → ℕ → Channel
read_header low high index = record {
  predictor = (low + 256 * high + 32768) % 65536;
  step_index = at_most 88 index;
}

unfoldable pub headers : ℕ → Voices → Bytes
headers channels v = header_of v.left ++ (if channels == 2 then header_of v.right else [])

-- The loop over the samples from number `i`, with the nibble that waits for a second one. Both are
-- below 16, so that `|` and `<<` are a sum.
unfoldable pub encode_from : ℕ → ℕ → ℕ → List ℕ → Voices → Voices × Bytes
encode_from channels i waiting [] v = (v, if i % 2 == 0 then [] else waiting ∷ [])
encode_from channels i waiting (s ∷ rest) v =
    let (v', nibble) = encode_on (channel_of channels i) s v in
    let (v'', bytes) = encode_from channels (i + 1) (if i % 2 == 0 then nibble else 0) rest v' in
    (v'', if i % 2 == 0 then bytes else (waiting + 16 * nibble) ∷ bytes)

-- The loop over the bytes, with the number of samples so far.
unfoldable pub decode_from : ℕ → ℕ → Bytes → Voices → Voices × List ℕ
decode_from channels n [] v = (v, [])
decode_from channels n (b ∷ rest) v =
    let (v', low) = decode_on (channel_of channels n) (b % 16) v in
    let (v'', high) = decode_on (channel_of channels (n + 1)) (b / 16) v' in
    let (v''', samples) = decode_from channels (n + 1 + 1) rest v'' in (v''', low ∷ high ∷ samples)

module _ (float : SampleFloat) where
  open float use {F32, silence, to_i16, of_i16, fade}

  pub record Decoder : Type 0 where
    pub channels : ℕ
    pub voices : Voices
    pub last_frame : List F32
    pub plc_count : ℕ

  unfoldable pub new_decoder : ℕ → Result CodecError Decoder
  new_decoder n = elim (check_channels n) [
    | err e ↦ err e
    | ok channels ↦ ok (record {
      channels = channels;
      voices = silent_voices;
      last_frame = replicate (960 * channels) silence;
      plc_count = 0;
    })
  ]

  unfoldable pub reset_decoder : Decoder → Decoder
  reset_decoder d = record d {
    voices = silent_voices;
    last_frame = replicate (960 * d.channels) silence;
    plc_count = 0;
  }

  unfoldable pub encode : List F32 → Encoder → Encoder × Bytes
  encode samples e =
      let (v, bytes) = encode_from e.channels 0 0 (map to_i16 samples) e.voices in
      (record e { voices = v }, headers e.channels e.voices ++ bytes)

  -- After the headers.
  unfoldable pub decode_data : Voices → Bytes → Decoder → Decoder × List F32
  decode_data v bytes d =
      let (v', heard) = decode_from d.channels 0 bytes v in
      (record d { voices = v'; last_frame = map of_i16 heard; plc_count = 0 }, map of_i16 heard)

  unfoldable pub decode_mono : Bytes → Decoder → Result CodecError (Decoder × List F32)
  decode_mono (a ∷ b ∷ c ∷ r ∷ rest) d =
      ok (decode_data (record d.voices { left = read_header a b c }) rest d)
  decode_mono _ d = err too_short

  unfoldable pub decode_stereo : Bytes → Decoder → Result CodecError (Decoder × List F32)
  decode_stereo (a ∷ b ∷ c ∷ r ∷ a' ∷ b' ∷ c' ∷ r' ∷ rest) d =
      ok (decode_data (record { left = read_header a b c; right = read_header a' b' c' }) rest d)
  decode_stereo _ d = err too_short

  unfoldable pub decode : Bytes → Decoder → Result CodecError (Decoder × List F32)
  decode bytes d = if d.channels == 2 then decode_stereo bytes d else decode_mono bytes d

  unfoldable pub conceal_packet_loss : Decoder → Decoder × List F32
  conceal_packet_loss d =
      (record d { plc_count = d.plc_count + 1 }, map (fade (d.plc_count + 1)) d.last_frame)
