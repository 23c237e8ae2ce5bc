-- ===== src/Codec/Adaptive.antt =====
-- ntied/src/audio/codec/negotiation.rs: `AdaptiveCodecManager`. The floating-point measurements
-- stand behind the two operations that are made of them.
use ntied.Common.{
  ℕ, ◌-◌, ◌≤◌, ◌≡◌, refl, Bool, true, ◌||◌, Option, none, some, ltb, if◌then◌else◌, arith,
}
use ntied.Codec.{CodecParams, NegotiatedCodec, CodecCapabilities}

-- `f32`: the comparison with a number and `as u8`.
pub record Float32 : Type 1 where
  pub F32 : Type 0
  pub gt : F32 → ℕ → Bool
  pub as_u8 : F32 → ℕ

module _ (float : Float32) where
  open float use {F32, gt, as_u8}

  pub record NetworkQuality : Type 0 where
    pub packet_loss : F32
    pub rtt : F32
    pub bandwidth : ℕ
    pub jitter : F32

  pub record AdaptiveCodecManager : Type 0 where
    pub negotiator : CodecCapabilities
    pub current_codec : Option NegotiatedCodec
    pub network_quality : NetworkQuality

  unfoldable pub update_network_quality :
      NetworkQuality → AdaptiveCodecManager → AdaptiveCodecManager
  update_network_quality quality m = record m { network_quality = quality }

  unfoldable pub set_current_codec : NegotiatedCodec → AdaptiveCodecManager → AdaptiveCodecManager
  set_current_codec codec m = record m { current_codec = some codec }

  -- The base bitrate, by bandwidth.
  unfoldable pub by_bandwidth : ℕ → CodecParams → CodecParams
  by_bandwidth bandwidth params =
      if ltb bandwidth 50
      then record params { bitrate = 16000; complexity = 5 }
      else if ltb bandwidth 100
      then record params { bitrate = 24000; complexity = 8 }
      else if ltb bandwidth 200
      then record params { bitrate = 32000 }
      else record params { bitrate = 48000 }

  unfoldable pub by_packet_loss : F32 → CodecParams → CodecParams
  by_packet_loss loss params =
      if gt loss 10
      then record params {
        fec = true;
        expected_packet_loss = as_u8 loss;
        bitrate = params.bitrate - 8000;
      }
      else if gt loss 5
      then record params { fec = true; expected_packet_loss = as_u8 loss }
      else params

  unfoldable pub adapt : NetworkQuality → CodecParams → CodecParams
  adapt quality params =
      let adapted = by_packet_loss quality.packet_loss (by_bandwidth quality.bandwidth params) in
      if gt quality.rtt 200 || ltb quality.bandwidth 100
      then record adapted { dtx = true }
      else adapted

  unfoldable pub get_adaptive_params : AdaptiveCodecManager → Option CodecParams
  get_adaptive_params m = elim m.current_codec [
    | none ↦ none
    | some codec ↦ some (adapt m.network_quality codec.params)
  ]

  -- The rate and the channels stay, and the bitrate is between 8000 and 48000.
  abbrev pub IsAdapted : CodecParams → CodecParams → Type 0
  IsAdapted old new =
      (new.sample_rate ≡ old.sample_rate)
      × (new.channels ≡ old.channels)
      × (8000 ≤ new.bitrate)
      × (new.bitrate ≤ 48000)

  -- For any codec and any measurements: once the codec is set there are parameters for it, whose
  -- sample rate and channels are its own, and whose bitrate is between 8000 and 48000.
  pub get_adaptive_params-IsAdapted :
      (codec : NegotiatedCodec) (quality : NetworkQuality) (m : AdaptiveCodecManager)
      → (new : CodecParams) × (get_adaptive_params
            (update_network_quality quality (set_current_codec codec m))
          ≡ some new)
        × IsAdapted codec.params new
  unfolding get_adaptive_params adapt by_packet_loss by_bandwidth update_network_quality
      set_current_codec
  get_adaptive_params-IsAdapted codec quality m = (adapt quality codec.params, refl, ground arith)
