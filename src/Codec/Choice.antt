-- ===== src/Codec/Choice.antt =====
-- What the negotiation chooses: the best common codec, and an answer that the offerer takes.
use ntied.Common.{
  ◌≤◌, ◌∙◌, ap, ℕ, zero, suc, ◌+◌, ◌≡◌, refl, sym, false, inl, inr, List, [], ◌∷◌, none, some,
  Result, ok, err, Option-cases, All, arith, subst,
}
use ntied.Codec.{
  CodecType, CodecType-discrete, priority, NegotiatedCodec, CodecCapabilities, CodecError,
  no_common_codec,
}
use ntied.Codec.Negotiation.{
  first, index_from, candidates_from, before, sort, find_common_codec, answer_params, create_answer,
}
use ntied.Codec.Order.{All-weaken, first-sort-none, first-sort, first-All, sort-All}

-- `c` stands at index `i` of the list.
abbrev pub StandsAt : ℕ → CodecType → List CodecType → Type 0
StandsAt i c [] = ⊥
StandsAt zero c (d ∷ ds) = d ≡ c
StandsAt (suc i) c (d ∷ ds) = StandsAt i c ds

-- It stands at `j`, and nowhere later.
abbrev pub StandsLastAt : ℕ → CodecType → List CodecType → Type 0
StandsLastAt j c ds = StandsAt j c ds × ((k : ℕ) → StandsAt k c ds → k ≤ j)

-- A codec that both sides have, and the sum of an index here and its last index there.
abbrev pub Shared : List CodecType → List CodecType → CodecType → ℕ → Type 0
Shared cs remote c n = (i : ℕ) × (j : ℕ) × StandsAt i c cs × StandsLastAt j c remote × (n ≡ i + j)

-- What the map from a codec to its index has.
index_none :
    (i k : ℕ) (c : CodecType) (ds : List CodecType) → index_from i c ds ≡ none → StandsAt k c ds → ⊥
unfolding index_from
index_none i k c [] e at = absurd at
index_none i zero c (d ∷ ds) e at = elim (Option-cases (index_from (suc i) c ds)) [
  | inl l ↦ absurd (ground (arith, e, l, at))
  | inr (j, l) ↦ absurd (ground (arith, e, l))
]
index_none i (suc k) c (d ∷ ds) e at = elim (Option-cases (index_from (suc i) c ds)) [
  | inl l ↦ index_none (suc i) k c ds l at
  | inr (j, l) ↦ absurd (ground (arith, e, l))
]

last_behind :
    (j : ℕ) (c d : CodecType) (ds : List CodecType)
    → ((k : ℕ) → StandsAt k c ds → k ≤ j)
    → (k : ℕ) → StandsAt k c (d ∷ ds)
    → k ≤ suc j
last_behind j c d ds last zero at = omega arith
last_behind j c d ds last (suc k) at = let below = last k at in omega (arith, below)

last_here :
    (c d : CodecType) (ds : List CodecType)
    → ((k : ℕ) → StandsAt k c ds → ⊥)
    → (k : ℕ) → StandsAt k c (d ∷ ds)
    → k ≤ 0
last_here c d ds never zero at = omega arith
last_here c d ds never (suc k) at = absurd (never k at)

index_some :
    (i j : ℕ) (c : CodecType) (ds : List CodecType)
    → index_from i c ds ≡ some j
    → (k : ℕ) × (j ≡ i + k) × StandsLastAt k c ds
unfolding index_from
index_some i j c [] e = absurd (ground (arith, e))
index_some i j c (d ∷ ds) e = elim (Option-cases (index_from (suc i) c ds)) [
  | inr (l, later) ↦
      let (k, sum, (at, last)) = index_some (suc i) l c ds later in
      (suc k, ground (arith, e, later, sum), (at, last_behind k c d ds last))
  | inl gone ↦ elim (CodecType-discrete d c) [
    | yes same ↦ (
      0,
      ground (arith, e, gone, same),
      (same, last_here c d ds (λ k at. index_none (suc i) k c ds gone at)),
    )
    | no other ↦ absurd (ground (arith, e, gone, other))
  ]
]

-- The last index is what the map has.
index_last :
    (j : ℕ) (c : CodecType) (ds : List CodecType) → StandsLastAt j c ds → index_from 0 c ds ≡ some j
index_last j c ds (at, last) = elim (Option-cases (index_from 0 c ds)) [
  | inl gone ↦ absurd (index_none 0 j c ds gone at)
  | inr (l, found) ↦
      let (k, sum, (there, latest)) = index_some 0 l c ds found in
      let below = last k there in
      let above = latest j at in found ∙ ap some (omega (arith, sum, below, above))
]

-- `Shared` for the rest of a list, of which `k` codecs were seen.
abbrev From : ℕ → List CodecType → List CodecType → CodecType × ℕ → Type 0
From k cs remote e =
    (i : ℕ) × (j : ℕ) × StandsAt i e.0 cs × (index_from 0 e.0 remote ≡ some j) × (e.1 ≡ k + i + j)

module _ (remote : List CodecType) where
  candidates_none :
      (k : ℕ) (c : CodecType) (cs : List CodecType)
      → index_from 0 c remote ≡ none
      → candidates_from k (c ∷ cs) remote ≡ candidates_from (suc k) cs remote
  unfolding candidates_from
  candidates_none k c cs e = rw (e, candidates_from)

  candidates_some :
      (k j : ℕ) (c : CodecType) (cs : List CodecType)
      → index_from 0 c remote ≡ some j
      → candidates_from k (c ∷ cs) remote ≡ (c, k + j) ∷ candidates_from (suc k) cs remote
  unfolding candidates_from
  candidates_some k j c cs e = rw (e, candidates_from)

  From-later :
      (k : ℕ) (c : CodecType) (cs : List CodecType) (e : CodecType × ℕ)
      → From (suc k) cs remote e
      → From k (c ∷ cs) remote e
  From-later k c cs e (i, j, at, found, sum) = (suc i, j, at, found, omega (arith, sum))

  candidates-From :
      (k : ℕ) (cs : List CodecType) → All (From k cs remote) (candidates_from k cs remote)
  unfolding candidates_from
  candidates-From k [] = tt
  candidates-From k (c ∷ cs) =
      let later =
        All-weaken (From (suc k) cs remote) (From k (c ∷ cs) remote)
          (candidates_from (suc k) cs remote) (From-later k c cs) (candidates-From (suc k) cs) in
      elim (Option-cases (index_from 0 c remote)) [
        | inl e ↦ subst (All (From k (c ∷ cs) remote)) (sym (candidates_none k c cs e)) later
        | inr (j, e) ↦
            subst (All (From k (c ∷ cs) remote)) (sym (candidates_some k j c cs e))
              ((0, j, refl, e, omega arith), later)
      ]

  All-candidates_later :
      (P : CodecType × ℕ → Type 0) (k : ℕ) (c : CodecType) (cs : List CodecType)
      → All P (candidates_from k (c ∷ cs) remote)
      → All P (candidates_from (suc k) cs remote)
  All-candidates_later P k c cs h = elim (Option-cases (index_from 0 c remote)) [
    | inl e ↦ subst (All P) (candidates_none k c cs e) h
    | inr (j, e) ↦ (subst (All P) (candidates_some k j c cs e) h).1
  ]

  All-candidates_at :
      (P : CodecType × ℕ → Type 0) (k i j : ℕ) (c : CodecType) (cs : List CodecType)
      → All P (candidates_from k cs remote)
      → StandsAt i c cs
      → index_from 0 c remote ≡ some j
      → P (c, k + i + j)
  All-candidates_at P k i j c [] h at e = absurd at
  All-candidates_at P k zero j c (d ∷ cs) h at e =
      subst (λ n. P (c, n)) (omega arith)
        (subst (All P) (candidates_some k j c cs e)
          (subst (λ x. All P (candidates_from k (x ∷ cs) remote)) at h)).0
  All-candidates_at P k (suc i) j c (d ∷ cs) h at e =
      subst (λ n. P (c, n)) (omega arith)
        (All-candidates_at P (suc k) i j c cs (All-candidates_later P k d cs h) at e)

-- A shared codec, such that none has a less sum of indices, nor the same one and a higher priority.
abbrev pub IsBest : List CodecType → List CodecType → CodecType → Type 0
IsBest cs remote c =
    (n : ℕ) × Shared cs remote c n
    × ((d : CodecType) (m : ℕ) → Shared cs remote d m → (n ≤ m) × (m ≡ n → priority d ≤ priority c))

-- What `sort_by_key` does not put before is no better.
not_before :
    (d c : CodecType) (m n : ℕ)
    → before (d, m) (c, n) ≡ false
    → (n ≤ m) × (m ≡ n → priority d ≤ priority c)
unfolding before
not_before d c m n h = (ground (arith, h), λ e. ground (arith, h, e))

abbrev pub ChoosesBest :
    CodecCapabilities → CodecCapabilities → Result CodecError NegotiatedCodec → Type 0
ChoosesBest local remote (err e) =
    (c : CodecType) (n : ℕ) → Shared local.codecs remote.codecs c n → ⊥
ChoosesBest local remote (ok answer) = IsBest local.codecs remote.codecs answer.codec

From-Shared :
    (cs remote : List CodecType) (c : CodecType) (n : ℕ)
    → From 0 cs remote (c, n)
    → Shared cs remote c n
From-Shared cs remote c n (i, j, at, found, sum) =
    let (k, same, last) = index_some 0 j c remote found in
    (i, k, at, last, omega (arith, sum, same))

find_none :
    (local remote : CodecCapabilities)
    → first (sort (candidates_from 0 local.codecs remote.codecs)) ≡ none
    → create_answer local remote ≡ err no_common_codec
unfolding create_answer find_common_codec
find_none local remote e = rw (e, create_answer, find_common_codec)

find_some :
    (local remote : CodecCapabilities) (codec : CodecType) (n : ℕ)
    → first (sort (candidates_from 0 local.codecs remote.codecs)) ≡ some (codec, n)
    → create_answer local remote
      ≡ ok (record { codec = codec; params = answer_params local remote codec; is_offerer = false })
unfolding create_answer find_common_codec
find_some local remote codec n e = rw (e, create_answer, find_common_codec)

-- For any capabilities of the two sides: an answer names a codec that both have, for which the sum
-- of an index in the local list and its last index in the remote one is least among all codecs that
-- both have, and whose priority is the highest among those of the same sum; and there is an error
-- only if they have no codec in common.
pub create_answer-ChoosesBest :
    (local remote : CodecCapabilities) → ChoosesBest local remote (create_answer local remote)
create_answer-ChoosesBest local remote =
    elim (Option-cases (first (sort (candidates_from 0 local.codecs remote.codecs)))) [
      | inl e ↦ rw (find_none local remote e) (λ c n (i, j, at, last, sum).
          All-candidates_at remote.codecs (λ d. ⊥) 0 i j c local.codecs
            (subst (All (λ d. ⊥)) (sym (first-sort-none _ e)) tt) at
            (index_last j c remote.codecs last))
      | inr ((codec, n), e) ↦ rw (find_some local remote codec n e) (
        n,
        From-Shared local.codecs remote.codecs codec n (
            first-All (From 0 local.codecs remote.codecs) _ (codec, n) e
              (sort-All (From 0 local.codecs remote.codecs) _
                (candidates-From remote.codecs 0 local.codecs))),
        λ d m (i, j, at, last, sum). not_before d codec m n (
            subst (λ k. before (d, k) (codec, n) ≡ false) (omega (arith, sum))
              (All-candidates_at remote.codecs (λ c. before c (codec, n) ≡ false) 0 i j d
                local.codecs (first-sort _ (codec, n) e) at (index_last j d remote.codecs last))),
      )
    ]
