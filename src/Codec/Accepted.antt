-- ===== src/Codec/Accepted.antt =====
-- The offerer's `process_answer` on the answer that the other side's `create_answer` gave.
use ntied.Common.{
  zero, ℕ, suc, ◌≡◌, refl, true, false, List, [], ◌∷◌, none, some, ok, Option-cases, inl, inr, ltb,
  arith, subst,
}
use ntied.Codec.{CodecType, NegotiatedCodec, CodecCapabilities}
use ntied.Codec.Negotiation.{
  has_codec, has_rate, first_common, find_rate, find_common_sample_rate, preferred_rates, or_else,
  min, answer_params, create_answer, process_answer,
}
use ntied.Codec.Choice.{StandsAt, create_answer-ChoosesBest, ChoosesBest}

has_codec_at :
    (j : ℕ) (c : CodecType) (ds : List CodecType) → StandsAt j c ds → has_codec c ds ≡ true
unfolding has_codec
has_codec_at j c [] at = absurd at
has_codec_at zero c (d ∷ ds) at = ground (arith, at)
has_codec_at (suc j) c (d ∷ ds) at = ground (arith, has_codec_at j c ds at)

first_common-some :
    (r : ℕ) (rs local remote : List ℕ)
    → first_common rs local remote ≡ some r
    → has_rate r remote ≡ true
unfolding first_common
first_common-some r [] local remote h = ground (arith, h)
first_common-some r (q ∷ qs) local remote h = ground (arith, h, first_common-some r qs local remote)

find_rate-some :
    (r : ℕ) (rs remote : List ℕ) → find_rate rs remote ≡ some r → has_rate r remote ≡ true
unfolding find_rate
find_rate-some r [] remote h = ground (arith, h)
find_rate-some r (q ∷ qs) remote h = ground (arith, h, find_rate-some r qs remote)

-- A rate that both have is found, or another one is.
find_rate-none :
    (r : ℕ) (rs remote : List ℕ)
    → has_rate r rs ≡ true
    → has_rate r remote ≡ true
    → find_rate rs remote ≡ none
    → ⊥
unfolding find_rate has_rate
find_rate-none r [] remote here there h = ground (arith, here)
find_rate-none r (q ∷ qs) remote here there h =
    ground (arith, here, there, h, find_rate-none r qs remote)

sample_rate_common :
    (r : ℕ) (local remote : CodecCapabilities)
    → has_rate r local.sample_rates ≡ true
    → has_rate r remote.sample_rates ≡ true
    → has_rate (or_else (find_common_sample_rate local remote) 48000) remote.sample_rates ≡ true
unfolding find_common_sample_rate or_else
sample_rate_common r local remote here there =
    elim (Option-cases (first_common preferred_rates local.sample_rates remote.sample_rates)) [
      | inr (q, e) ↦
          rw (e, find_common_sample_rate)
            (first_common-some q preferred_rates local.sample_rates remote.sample_rates e)
      | inl n ↦ elim (Option-cases (find_rate local.sample_rates remote.sample_rates)) [
        | inr (q, e) ↦
            rw (n, find_common_sample_rate, e)
              (find_rate-some q local.sample_rates remote.sample_rates e)
        | inl e ↦ absurd (find_rate-none r local.sample_rates remote.sample_rates here there e)
      ]
    ]

min_channels : (m n : ℕ) → ltb n (min (min m n) 2) ≡ false
unfolding min
min_channels m n = ground arith

-- Of an answer: its parameters are those for its codec.
answer_params_of :
    (local remote : CodecCapabilities) (answer : NegotiatedCodec)
    → create_answer local remote ≡ ok answer
    → answer.params ≡ answer_params local remote answer.codec
unfolding create_answer
answer_params_of local remote answer h = ground (arith, h)

answer-has_rate :
    (rate : ℕ) (local remote : CodecCapabilities) (codec : CodecType)
    → has_rate rate local.sample_rates ≡ true
    → has_rate rate remote.sample_rates ≡ true
    → has_rate (answer_params local remote codec).sample_rate remote.sample_rates ≡ true
unfolding answer_params
answer-has_rate rate local remote codec here there = sample_rate_common rate local remote here there

answer_channels :
    (local remote : CodecCapabilities) (codec : CodecType)
    → ltb remote.max_channels (answer_params local remote codec).channels ≡ false
unfolding answer_params
answer_channels local remote codec = min_channels local.max_channels remote.max_channels

-- For any offer, if the two sides have a sample rate in common: the answer that the other side
-- creates is accepted as it is.
pub process_answer-create_answer :
    (offerer answerer : CodecCapabilities) (offer answer : NegotiatedCodec) (rate : ℕ)
    → has_rate rate answerer.sample_rates ≡ true
    → has_rate rate offerer.sample_rates ≡ true
    → create_answer answerer offerer ≡ ok answer
    → process_answer offerer offer answer ≡ ok answer
unfolding process_answer
process_answer-create_answer offerer answerer offer answer rate here there h =
    let (n, (i, j, at, found, sum), best) =
      subst (ChoosesBest answerer offerer) h (create_answer-ChoosesBest answerer offerer) in
    rw
      (
        has_codec_at j answer.codec offerer.codecs found.0,
        answer_params_of answerer offerer answer h,
        answer-has_rate rate answerer offerer answer.codec here there,
        answer_channels answerer offerer answer.codec,
      )
      refl
