-- ===== src/Codec/Factory.antt =====
-- ntied/src/audio/codec/mod.rs: the encoder and the decoder of a codec.
use ntied.Common.{ℕ, Result, ok, err}
use ntied.Codec.{CodecType, raw, adpcm, CodecError, check_channels}
use ntied.Codec.Raw
use ntied.Adpcm.Frame

pub data AudioEncoder : Type 0 where
  adpcm_encoder : Frame.Encoder → AudioEncoder
  raw_encoder : Raw.RawEncoder → AudioEncoder

pub data AudioDecoder (float : Frame.SampleFloat) : Type 1 where
  adpcm_decoder : Frame.Decoder float → AudioDecoder float
  raw_decoder : Raw.RawDecoder → AudioDecoder float

unfoldable pub create_encoder : CodecType → ℕ → Result CodecError AudioEncoder
create_encoder adpcm channels = elim (check_channels channels) [
  | err e ↦ err e
  | ok n ↦ elim (Frame.new_encoder n) [ err e ↦ err e | ok encoder ↦ ok (adpcm_encoder encoder) ]
]
create_encoder raw channels = elim (Raw.new_encoder channels) [
  | err e ↦ err e
  | ok encoder ↦ ok (raw_encoder encoder)
]

unfoldable pub create_decoder :
    (float : Frame.SampleFloat) → CodecType → ℕ → Result CodecError (AudioDecoder float)
create_decoder float adpcm channels = elim (check_channels channels) [
  | err e ↦ err e
  | ok n ↦ elim (Frame.new_decoder float n) [
    | err e ↦ err e
    | ok decoder ↦ ok (adpcm_decoder decoder)
  ]
]
create_decoder float raw channels = elim (Raw.new_decoder channels) [
  | err e ↦ err e
  | ok decoder ↦ ok (raw_decoder decoder)
]
