-- ===== src/JitterBuffer/Pop.antt =====
-- What `pop` does on each path, and that it always returns.
use ntied.Common.{
  ◌%◌, subst, sym, ◌∙◌, ℕ, ◌+◌, ◌-◌, ◌^◌, ◌<◌, ◌≡◌, refl, ◌⊎◌, true, false, Option, none, some,
  arith, Option-cases, Bool-cases, inl, inr,
}
use mathlib.Core.Option.{some-injective}
use ntied.Common.Map.{remove-IsSorted, remove-All, lookup, remove, first, first-IsSorted}
use ntied.JitterBuffer.{
  Float32, BufferedFrame, Buffer, pop, pop_within, skip_to, should_skip, count_lost, wrap32,
  wrapping_sub,
}
use ntied.JitterBuffer.Invariant.{IsKey, IsValid, lookup-IsKey}

module _ (fl : Float32) (Frame : Type 0) where
  -- The oldest frame waited longer than the delay, or more than ten frames are missing before it
  -- and it waited more than 100ms.
  abbrev pub IsOverdue : ℕ → Buffer fl Frame → ℕ × BufferedFrame Frame → Type 0
  IsOverdue now jb (seq, b) =
      (jb.max_delay < now - b.received_at)
      ⊎ ((jb.next_sequence + 10 < seq) × (100000000 < now - b.received_at))

  should_skip-IsOverdue :
      (now : ℕ) (jb : Buffer fl Frame) (seq : ℕ) (b : BufferedFrame Frame)
      → jb.next_sequence < 2 ^ 32
      → seq < 2 ^ 32
      → should_skip fl Frame now jb seq b.received_at ≡ true
      → IsOverdue now jb (seq, b)
  unfolding should_skip
  should_skip-IsOverdue now jb seq b hn hs e = ground arith

  not-IsOverdue :
      (now : ℕ) (jb : Buffer fl Frame) (seq : ℕ) (b : BufferedFrame Frame)
      → jb.next_sequence < 2 ^ 32
      → seq < 2 ^ 32
      → should_skip fl Frame now jb seq b.received_at ≡ false
      → ¬ IsOverdue now jb (seq, b)
  unfolding should_skip
  not-IsOverdue now jb seq b hn hs e (inl late) = ground arith
  not-IsOverdue now jb seq b hn hs e (inr gap) = ground arith

  -- The buffer after the frame `seq` went out.
  abbrev pub delivered : ℕ → Buffer fl Frame → Buffer fl Frame
  delivered seq jb = record jb { buffer = remove seq jb.buffer; next_sequence = wrap32 (seq + 1) }

  -- The same after a skip: what lies between the next number and `seq`, modulo 2 ^ 32, is lost.
  abbrev pub skipped : ℕ → Buffer fl Frame → Buffer fl Frame
  skipped seq jb =
      let stats = jb.stats in
      record jb {
        buffer = remove seq jb.buffer;
        next_sequence = (seq + 1) % 2 ^ 32;
        stats = record stats {
          packets_lost = (stats.packets_lost + (seq + 2 ^ 32 - jb.next_sequence) % 2 ^ 32) % 2 ^ 64;
        };
      }

  -- The three things that `pop` may do.
  pub data Popped (now : ℕ) (jb : Buffer fl Frame) (r : Buffer fl Frame × Option Frame)
      : Type 0 where
    in_order :
        (b : BufferedFrame Frame)
        → lookup jb.next_sequence jb.buffer ≡ some b
        → r ≡ (delivered jb.next_sequence jb, some b.frame)
        → Popped now jb r
    waits :
        lookup jb.next_sequence jb.buffer ≡ none
        → ((e : ℕ × BufferedFrame Frame) → first jb.buffer ≡ some e → ¬ IsOverdue now jb e)
        → r ≡ (jb, none)
        → Popped now jb r
    skips :
        (seq : ℕ) (b : BufferedFrame Frame)
        → lookup jb.next_sequence jb.buffer ≡ none
        → first jb.buffer ≡ some (seq, b)
        → IsOverdue now jb (seq, b)
        → r ≡ (skipped seq jb, some b.frame)
        → Popped now jb r

  -- After a skip the frame is found at once.
  pub pop_after_skip :
      (now seq : ℕ) (b : BufferedFrame Frame) (jb : Buffer fl Frame)
      → lookup seq jb.buffer ≡ some b
      → pop_within fl Frame 1 now (skip_to fl Frame seq jb)
        ≡ some (
          delivered seq (count_lost fl Frame (wrapping_sub seq jb.next_sequence) jb),
          some b.frame,
        )
  unfolding pop_within count_lost
  pop_after_skip now seq b jb e = rw (e, pop_within)

  -- `pop` returns on every valid buffer, without running out of fuel: it delivers the next frame if
  -- it is there; else the oldest one if that is overdue, and adds to the lost packets, modulo 2 ^ 64,
  -- the distance modulo 2 ^ 32 from the next number to that frame's, which is nearly 2 ^ 32 for a
  -- frame before the next one; else it changes nothing. The frame it delivers leaves the buffer, and
  -- the next number is the one after it, modulo 2 ^ 32.
  pub pop-Popped :
      (now : ℕ) (jb : Buffer fl Frame)
      → IsValid fl Frame jb
      → (r : Buffer fl Frame × Option Frame) × (pop fl Frame now jb ≡ some r) × Popped now jb r
  unfolding pop count_lost
  pop-Popped now jb v = elim (Option-cases (lookup jb.next_sequence jb.buffer)) [
    | inr (b, e) ↦
        ((delivered jb.next_sequence jb, some b.frame), rw (e, pop_within), in_order b e refl)
    | inl miss ↦ elim (Option-cases (first jb.buffer)) [
      | inl empty ↦ ((jb, none), rw (miss, pop_within, empty), waits miss (λ e h. cc) refl)
      | inr ((seq, b), oldest) ↦
          let held = first-IsSorted 0 seq b jb.buffer v.sorted oldest in
          let small = lookup-IsKey fl Frame seq b jb.buffer v.keys held.0 in
          elim (Bool-cases (should_skip fl Frame now jb seq b.received_at)) [
            | inl over ↦ (
              (skipped seq jb, some b.frame),
              rw (miss, pop_within, oldest, over) (pop_after_skip now seq b jb held.0),
              skips seq b miss oldest (should_skip-IsOverdue now jb seq b v.next small over) refl,
            )
            | inr patient ↦ (
              (jb, none),
              rw (miss, pop_within, oldest, patient),
              waits miss
                  (λ e h.
                    subst (λ x. ¬ IsOverdue now jb x) (some-injective _ _ (sym oldest ∙ h))
                      (not-IsOverdue now jb seq b v.next small patient))
                  refl,
            )
          ]
    ]
  ]

  delivered-IsValid :
      (seq : ℕ) (jb : Buffer fl Frame) → IsValid fl Frame jb → IsValid fl Frame (delivered seq jb)
  delivered-IsValid seq jb v = record {
    sorted = remove-IsSorted seq 0 jb.buffer v.sorted;
    keys = remove-All (IsKey fl Frame) seq jb.buffer v.keys;
    next = omega arith;
  }

  skipped-IsValid :
      (seq : ℕ) (jb : Buffer fl Frame) → IsValid fl Frame jb → IsValid fl Frame (skipped seq jb)
  skipped-IsValid seq jb v = record {
    sorted = remove-IsSorted seq 0 jb.buffer v.sorted;
    keys = remove-All (IsKey fl Frame) seq jb.buffer v.keys;
    next = omega arith;
  }

  Popped-IsValid :
      (now : ℕ) (jb : Buffer fl Frame) (r : Buffer fl Frame × Option Frame)
      → Popped now jb r
      → IsValid fl Frame jb
      → IsValid fl Frame r.0
  Popped-IsValid now jb r (in_order b e q) v = rw q (delivered-IsValid jb.next_sequence jb v)
  Popped-IsValid now jb r (waits e h q) v = rw q v
  Popped-IsValid now jb r (skips seq b e h o q) v = rw q (skipped-IsValid seq jb v)

  -- `pop` keeps a valid buffer valid.
  pub pop-IsValid :
      (now : ℕ) (jb : Buffer fl Frame) (r : Buffer fl Frame × Option Frame)
      → IsValid fl Frame jb
      → pop fl Frame now jb ≡ some r
      → IsValid fl Frame r.0
  pop-IsValid now jb r v e =
      let (s, popped, spec) = pop-Popped now jb v in
      subst (λ x. IsValid fl Frame x.0) (some-injective _ _ (sym popped ∙ e))
        (Popped-IsValid now jb s spec v)
