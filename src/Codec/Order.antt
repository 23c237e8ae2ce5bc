-- ===== src/Codec/Order.antt =====
-- `sort_by_key` and `first` in find_common_codec: what comes first after sorting.
use ntied.Common.{
  some_inj, ℕ, ◌≡◌, refl, ◌∙◌, sym, true, false, inl, inr, List, [], ◌∷◌, none, some, Option-cases,
  Bool-cases, All, arith, subst,
}
use ntied.Codec.{CodecType}
use ntied.Codec.Negotiation.{first, before, insert_sorted, sort}

abbrev pub Scored : Type 0
Scored = CodecType × ℕ

-- The order of the keys is a total preorder.
before_irrefl : (e : Scored) → before e e ≡ false
unfolding before
before_irrefl (c, n) = ground arith

before_asymm : (d e : Scored) → before d e ≡ true → before e d ≡ false
unfolding before
before_asymm (c, m) (d, n) h = ground arith

before_trans : (x y z : Scored) → before x y ≡ false → before y z ≡ false → before x z ≡ false
unfolding before
before_trans (b, l) (c, m) (d, n) h k = ground arith

-- What is first after an insertion.
insert_alone :
    (e : Scored) (ds : List Scored) → first ds ≡ none → first (insert_sorted e ds) ≡ some e
unfolding first insert_sorted
insert_alone e [] h = refl
insert_alone e (d ∷ ds) h = absurd (ground (arith, h))

insert_behind :
    (e d : Scored) (ds : List Scored)
    → first ds ≡ some d
    → before d e ≡ true
    → first (insert_sorted e ds) ≡ some d
unfolding first insert_sorted
insert_behind e d [] h lt = absurd (ground (arith, h))
insert_behind e d (c ∷ ds) h lt = ground (arith, h, lt)

insert_ahead :
    (e d : Scored) (ds : List Scored)
    → first ds ≡ some d
    → before d e ≡ false
    → first (insert_sorted e ds) ≡ some e
unfolding first insert_sorted
insert_ahead e d [] h ge = absurd (ground (arith, h))
insert_ahead e d (c ∷ ds) h ge = ground (arith, h, ge)

pub All-weaken :
    (P Q : Scored → Type 0) (es : List Scored) → ((e : Scored) → P e → Q e) → All P es → All Q es
All-weaken P Q [] f h = tt
All-weaken P Q (e ∷ es) f h = (f e h.0, All-weaken P Q es f h.1)

-- Only the empty list has no first element after sorting.
pub first-sort-none : (es : List Scored) → first (sort es) ≡ none → es ≡ []
unfolding sort
first-sort-none [] h = refl
first-sort-none (e ∷ es) h = elim (Option-cases (first (sort es))) [
  | inl n ↦ absurd (ground (arith, h, insert_alone e (sort es) n))
  | inr (d, s) ↦ elim (Bool-cases (before d e)) [
    | inl lt ↦ absurd (ground (arith, h, insert_behind e d (sort es) s lt))
    | inr ge ↦ absurd (ground (arith, h, insert_ahead e d (sort es) s ge))
  ]
]

-- What sorting puts first, no element comes before.
pub first-sort :
    (es : List Scored) (e : Scored) → first (sort es) ≡ some e → All (λ d. before d e ≡ false) es
unfolding sort
first-sort [] e h = tt
first-sort (x ∷ es) e h = elim (Option-cases (first (sort es))) [
  | inl n ↦
      let same = some_inj (sym (insert_alone x (sort es) n) ∙ h) in
      subst (λ z. All (λ c. before c z ≡ false) (x ∷ es)) same
        (before_irrefl x, subst (All (λ c. before c x ≡ false)) (sym (first-sort-none es n)) tt)
  | inr (d, s) ↦ elim (Bool-cases (before d x)) [
    | inl lt ↦
        let same = some_inj (sym (insert_behind x d (sort es) s lt) ∙ h) in
        subst (λ z. All (λ c. before c z ≡ false) (x ∷ es)) same
          (before_asymm d x lt, first-sort es d s)
    | inr ge ↦
        let same = some_inj (sym (insert_ahead x d (sort es) s ge) ∙ h) in
        subst (λ z. All (λ c. before c z ≡ false) (x ∷ es)) same
          (
            before_irrefl x,
            All-weaken (λ c. before c d ≡ false) (λ c. before c x ≡ false) es
                (λ c k. before_trans c d x k ge) (first-sort es d s),
          )
  ]
]

pub first-All :
    {A : Type 0} (P : A → Type 0) (xs : List A) (x : A) → first xs ≡ some x → All P xs → P x
unfolding first
first-All P [] x h all = absurd (ground (arith, h))
first-All P (y ∷ ys) x h all = subst P (some_inj h) all.0

insert_sorted-All :
    (P : Scored → Type 0) (e : Scored) (ds : List Scored)
    → P e
    → All P ds
    → All P (insert_sorted e ds)
unfolding insert_sorted
insert_sorted-All P e [] h all = (h, tt)
insert_sorted-All P e (d ∷ ds) h all = elim (Bool-cases (before d e)) [
  | inl lt ↦ rw (lt, insert_sorted) (all.0, insert_sorted-All P e ds h all.1)
  | inr ge ↦ rw (ge, insert_sorted) (h, all)
]

pub sort-All : (P : Scored → Type 0) (es : List Scored) → All P es → All P (sort es)
unfolding sort
sort-All P [] all = tt
sort-All P (e ∷ es) all = insert_sorted-All P e (sort es) all.0 (sort-All P es all.1)
