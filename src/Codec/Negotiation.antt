-- ===== src/Codec/Negotiation.antt =====
-- ntied/src/audio/codec/negotiation.rs: `CodecNegotiator`, given by its local capabilities.
use ntied.Common.{
  ℕ, suc, ◌+◌, ◌*◌, Bool, true, false, ◌&&◌, ◌||◌, not, List, [], ◌∷◌, Option, none, some, Result,
  ok, err, ltb, leb, ◌==◌, if◌then◌else◌,
}
use ntied.Codec.{
  CodecType, raw, adpcm, CodecType-discrete, priority, typical_bitrate, supports_fec, supports_dtx,
  CodecParams, default_params, NegotiatedCodec, CodecCapabilities, CodecError, no_common_codec,
  unsupported_codec, unsupported_sample_rate, too_many_channels,
}
use mathlib.Core.Logic.{ite}

module _ {A : Type 0} where
  -- `first` of a slice.
  unfoldable pub first : List A → Option A
  first [] = none
  first (x ∷ xs) = some x

unfoldable pub or_else : {A : Type 0} → Option A → A → A
or_else none d = d
or_else (some a) d = a

unfoldable pub min : ℕ → ℕ → ℕ
min m n = if leb m n then m else n

unfoldable pub has_codec : CodecType → List CodecType → Bool
has_codec c [] = false
has_codec c (d ∷ ds) = ite (CodecType-discrete d c) true (has_codec c ds)

unfoldable pub has_rate : ℕ → List ℕ → Bool
has_rate r [] = false
has_rate r (q ∷ qs) = (q == r) || has_rate r qs

-- `remote_priority`: the map from a codec to its index, in which a later entry replaces an earlier.
unfoldable pub index_from : ℕ → CodecType → List CodecType → Option ℕ
index_from i c [] = none
index_from i c (d ∷ ds) =
    let later = index_from (suc i) c ds in
    elim later [ some j ↦ some j | none ↦ ite (CodecType-discrete d c) (some i) none ]

-- The local codecs that the remote has, with the sum of both indices.
unfoldable pub candidates_from : ℕ → List CodecType → List CodecType → List (CodecType × ℕ)
candidates_from i [] remote = []
candidates_from i (c ∷ cs) remote =
    let rest = candidates_from (suc i) cs remote in
    elim (index_from 0 c remote) [ none ↦ rest | some j ↦ (c, i + j) ∷ rest ]

-- The order of the keys `(combined_priority, Reverse(priority))`.
unfoldable pub before : CodecType × ℕ → CodecType × ℕ → Bool
before (c, m) (d, n) = ltb m n || ((m == n) && ltb (priority d) (priority c))

-- `sort_by_key`, which is stable.
unfoldable pub insert_sorted : CodecType × ℕ → List (CodecType × ℕ) → List (CodecType × ℕ)
insert_sorted e [] = e ∷ []
insert_sorted e (d ∷ ds) = if before d e then d ∷ insert_sorted e ds else e ∷ d ∷ ds

unfoldable pub sort : List (CodecType × ℕ) → List (CodecType × ℕ)
sort [] = []
sort (e ∷ es) = insert_sorted e (sort es)

unfoldable pub find_common_codec : CodecCapabilities → CodecCapabilities → Option CodecType
find_common_codec local remote =
    elim (first (sort (candidates_from 0 local.codecs remote.codecs))) [
      | none ↦ none
      | some (c, n) ↦ some c
    ]

-- The first rate of the list that both sides have.
unfoldable pub first_common : List ℕ → List ℕ → List ℕ → Option ℕ
first_common [] local remote = none
first_common (r ∷ rs) local remote =
    if has_rate r local && has_rate r remote then some r else first_common rs local remote

abbrev pub preferred_rates : List ℕ
preferred_rates = 48000 ∷ 44100 ∷ 32000 ∷ 24000 ∷ 16000 ∷ 8000 ∷ []

-- `iter().find(...)`.
unfoldable pub find_rate : List ℕ → List ℕ → Option ℕ
find_rate [] remote = none
find_rate (r ∷ rs) remote = if has_rate r remote then some r else find_rate rs remote

unfoldable pub find_common_sample_rate : CodecCapabilities → CodecCapabilities → Option ℕ
find_common_sample_rate local remote =
    elim (first_common preferred_rates local.sample_rates remote.sample_rates) [
      | some r ↦ some r
      | none ↦ find_rate local.sample_rates remote.sample_rates
    ]

unfoldable pub create_params_for_codec : CodecCapabilities → CodecType → CodecParams
create_params_for_codec local raw = record {
  sample_rate = or_else (first local.sample_rates) 48000;
  channels = 1;
  bitrate = 0;
  fec = false;
  dtx = false;
  expected_packet_loss = 0;
  complexity = 0;
}
create_params_for_codec local adpcm = default_params

unfoldable pub create_offer : CodecCapabilities → NegotiatedCodec
create_offer local =
    let codec = or_else (first local.codecs) raw in
    record { codec = codec; params = create_params_for_codec local codec; is_offerer = true }

unfoldable pub answer_params : CodecCapabilities → CodecCapabilities → CodecType → CodecParams
answer_params local remote codec = record {
  sample_rate = or_else (find_common_sample_rate local remote) 48000;
  channels = min (min local.max_channels remote.max_channels) 2;
  bitrate = typical_bitrate codec * 1000;
  fec = local.supports_fec && remote.supports_fec && supports_fec codec;
  dtx = local.supports_dtx && remote.supports_dtx && supports_dtx codec;
  expected_packet_loss = 5;
  complexity = 10;
}

unfoldable pub create_answer :
    CodecCapabilities → CodecCapabilities → Result CodecError NegotiatedCodec
create_answer local remote = elim (find_common_codec local remote) [
  | none ↦ err no_common_codec
  | some codec ↦
      ok (record { codec = codec; params = answer_params local remote codec; is_offerer = false })
]

unfoldable pub process_answer :
    CodecCapabilities → NegotiatedCodec → NegotiatedCodec → Result CodecError NegotiatedCodec
process_answer local offer answer =
    if not (has_codec answer.codec local.codecs)
    then err unsupported_codec
    else if not (has_rate answer.params.sample_rate local.sample_rates)
    then err unsupported_sample_rate
    else if ltb local.max_channels answer.params.channels
    then err too_many_channels
    else ok answer
