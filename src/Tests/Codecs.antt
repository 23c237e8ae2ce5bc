-- ===== src/Tests/Codecs.antt =====
-- Two peers agree on a codec, and packets go through the codecs.
use ntied.Common.{
  ◌≡◌, refl, ℕ, false, List, [], ◌∷◌, none, some, ok, map, length, arith, ltb, if◌then◌else◌, ◌*◌,
  ◌<◌,
}
use ntied.Codec.{
  CodecCapabilities, CodecParams, NegotiatedCodec, raw, adpcm, adpcm_params, default_capabilities,
}
use ntied.Codec.Negotiation
use ntied.Codec.Choice.{ChoosesBest, create_answer-ChoosesBest}
use ntied.Codec.Accepted.{process_answer-create_answer}
use ntied.Codec.Adaptive.{
  Float32, NetworkQuality, AdaptiveCodecManager, IsAdapted, get_adaptive_params,
  update_network_quality, set_current_codec, get_adaptive_params-IsAdapted,
}
use ntied.Codec.Raw
use ntied.Adpcm.Frame
use ntied.Adpcm.Nibbles.{Heard, AreChannels}
use ntied.Adpcm.Recovery.{frame-decode-encode}

-- A peer that prefers the raw codec.
abbrev frugal : CodecCapabilities
frugal = record default_capabilities {
  codecs = raw ∷ adpcm ∷ [];
  sample_rates = 16000 ∷ [];
  max_channels = 1;
}

abbrev agreed : NegotiatedCodec
agreed = record {
  codec = adpcm;
  params = record adpcm_params { bitrate = 32000 };
  is_offerer = false;
}

create_answer-ChoosesBest_example :
    ChoosesBest default_capabilities frugal (Negotiation.create_answer default_capabilities frugal)
create_answer-ChoosesBest_example = create_answer-ChoosesBest default_capabilities frugal

process_answer-create_answer_example :
    Negotiation.process_answer frugal (Negotiation.create_offer frugal) agreed ≡ ok agreed
unfolding Negotiation.has_rate default_capabilities Negotiation.create_answer
    Negotiation.find_common_codec Negotiation.first Negotiation.sort Negotiation.candidates_from
    Negotiation.index_from ntied.Codec.CodecType-discrete Negotiation.insert_sorted
    Negotiation.before ntied.Codec.priority Negotiation.answer_params adpcm_params
    Negotiation.or_else Negotiation.min ntied.Codec.typical_bitrate
    Negotiation.find_common_sample_rate Negotiation.first_common
process_answer-create_answer_example =
    process_answer-create_answer frugal default_capabilities (Negotiation.create_offer frugal)
      agreed 16000 refl refl refl

abbrev toy_float : Float32
toy_float = record { F32 = ℕ; gt = λ x n. ltb n x; as_u8 = λ x. x }

abbrev lossy : NetworkQuality toy_float
lossy = record { packet_loss = 15; rtt = 100; bandwidth = 200; jitter = 10 }

abbrev adaptive : AdaptiveCodecManager toy_float
adaptive = record { negotiator = frugal; current_codec = none; network_quality = lossy }

get_adaptive_params-IsAdapted_example :
    (new : CodecParams) × (get_adaptive_params toy_float
        (update_network_quality toy_float lossy (set_current_codec toy_float agreed adaptive))
      ≡ some new)
    × IsAdapted toy_float agreed.params new
get_adaptive_params-IsAdapted_example =
    get_adaptive_params-IsAdapted toy_float agreed lossy adaptive

abbrev raw_decoder : Raw.RawDecoder
raw_decoder = record { channels = 1; last_frame = [] }

abbrev tones : List ℕ
tones = 1056964608 ∷ 3204448256 ∷ []

raw-decode-encode_example :
    ((Raw.decode (Raw.encode tones) raw_decoder).1 ≡ tones)
    × (length (Raw.encode tones) ≡ 4 * length tones)
    × (length (Raw.conceal_packet_loss (λ i len s. s) (Raw.decode (Raw.encode tones) raw_decoder).0)
        ≡ length tones)
raw-decode-encode_example =
    Raw.raw-decode-encode (λ i len s. s) tones raw_decoder (omega arith, (omega arith, tt))

abbrev toy_samples : Frame.SampleFloat
toy_samples = record {
  F32 = ℕ;
  silence = 32768;
  to_i16 = λ x. if ltb x 65536 then x else 65535;
  of_i16 = λ x. x;
  fade = λ n x. x;
}

to_i16_lt : (x : ℕ) → (if ltb x 65536 then x else 65535) < 65536
to_i16_lt x = ground arith

abbrev speaker : Frame.Encoder
speaker = record { channels = 2; voices = Frame.silent_voices }

-- A decoder that heard something else before.
abbrev listener : Frame.Decoder toy_samples
listener = record {
  channels = 2;
  voices = record Frame.silent_voices { left = record { predictor = 5; step_index = 40 } };
  last_frame = 7 ∷ [];
  plc_count = 3;
}

abbrev stereo : List ℕ
stereo = 32770 ∷ 32780 ∷ 32760 ∷ 32000 ∷ 32761 ∷ []

frame-decode-encode_example :
    (d' : Frame.Decoder toy_samples) × (heard : List ℕ) × (Frame.decode toy_samples
        (Frame.encode toy_samples stereo speaker).1
        listener
      ≡ ok (d', map (λ x. x) heard))
    × Heard 2 0 Frame.silent_voices (map toy_samples.to_i16 stereo) heard
    × AreChannels (Frame.encode toy_samples stereo speaker).0.voices
frame-decode-encode_example =
    frame-decode-encode toy_samples speaker listener stereo to_i16_lt refl
      ((omega arith, omega arith), (omega arith, omega arith))
