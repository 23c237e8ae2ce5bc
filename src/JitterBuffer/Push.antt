-- ===== src/JitterBuffer/Push.antt =====
-- What `push` does with a frame, by its sequence number.
use ntied.Common.{
  inl, inr, ◌<◌, Option-cases, Bool-cases, ◌⊎◌, Bool, ◌==◌, ℕ, ◌+◌, ◌%◌, ◌^◌, ◌≤◌, ◌≡◌, ◌≢◌, true,
  false, none, some, arith, ltb, if◌then◌else◌,
}
use ntied.Common.Map.{lookup, insert, lookup-insert}
use ntied.JitterBuffer.{Float32, BufferedFrame, Buffer, push}

compare_cases : (a b : ℕ) → (a < b) ⊎ ((a ≡ b) ⊎ (b < a))
compare_cases a b = elim (Bool-cases (ltb a b)) [
  | inl h ↦ inl (ground arith)
  | inr h ↦ elim (Bool-cases (ltb b a)) [
    | inl k ↦ inr (inr (ground arith))
    | inr k ↦ inr (inl (ground arith))
  ]
]

le_cases : (a b : ℕ) → (a ≤ b) ⊎ (b < a)
le_cases a b = elim (Bool-cases (ltb b a)) [
  | inl h ↦ inr (ground arith)
  | inr h ↦ inl (ground arith)
]

module _ (fl : Float32) (Frame : Type 0) where
  -- The frame stands under its number, with the time, and no other frame changes.
  pub record Stored (now sequence : ℕ) (frame : Frame) (jb jb' : Buffer fl Frame) : Type 0 where
    pub here : lookup sequence jb'.buffer ≡ some (record { frame = frame; received_at = now })
    pub others : (k : ℕ) → sequence ≢ k → lookup k jb'.buffer ≡ lookup k jb.buffer

  -- One more, as `u64`, or the same.
  abbrev pub more : Bool → ℕ → ℕ
  more true n = (n + 1) % 2 ^ 64
  more false n = n

  -- The frame is counted as received, and as a duplicate, late or out of order by the three flags.
  pub record Counted (duplicate late early : Bool) (jb jb' : Buffer fl Frame) : Type 0 where
    pub received : jb'.stats.packets_received ≡ more true jb.stats.packets_received
    pub duplicates : jb'.stats.packets_duplicate ≡ more duplicate jb.stats.packets_duplicate
    pub late_ones : jb'.stats.packets_late ≡ more late jb.stats.packets_late
    pub early_ones : jb'.stats.packets_out_of_order ≡ more early jb.stats.packets_out_of_order
    pub lost : jb'.stats.packets_lost ≡ jb.stats.packets_lost
    pub next : jb'.next_sequence ≡ jb.next_sequence

  -- The five things that `push` may do: two that leave the buffer as it was, and three that store.
  pub data Pushed (now sequence : ℕ) (frame : Frame) (jb : Buffer fl Frame)
      (r : Buffer fl Frame × Bool) : Type 0 where
    is_duplicate :
        (held : BufferedFrame Frame)
        → lookup sequence jb.buffer ≡ some held
        → r.1 ≡ false
        → r.0.buffer ≡ jb.buffer
        → Counted true false false jb r.0
        → Pushed now sequence frame jb r
    is_too_old :
        lookup sequence jb.buffer ≡ none
        → sequence + 100 < jb.next_sequence
        → r.1 ≡ false
        → r.0.buffer ≡ jb.buffer
        → Counted false true false jb r.0
        → Pushed now sequence frame jb r
    is_late :
        lookup sequence jb.buffer ≡ none
        → sequence < jb.next_sequence
        → jb.next_sequence ≤ sequence + 100
        → r.1 ≡ true
        → Stored now sequence frame jb r.0
        → Counted false true false jb r.0
        → Pushed now sequence frame jb r
    is_next :
        lookup sequence jb.buffer ≡ none
        → sequence ≡ jb.next_sequence
        → r.1 ≡ true
        → Stored now sequence frame jb r.0
        → Counted false false false jb r.0
        → Pushed now sequence frame jb r
    is_early :
        lookup sequence jb.buffer ≡ none
        → jb.next_sequence < sequence
        → r.1 ≡ true
        → Stored now sequence frame jb r.0
        → Counted false false true jb r.0
        → Pushed now sequence frame jb r

  put :
      (now sequence k : ℕ) (frame : Frame) (jb : Buffer fl Frame)
      → lookup k (insert sequence (record { frame = frame; received_at = now }) jb.buffer) ≡ (
          if sequence == k
          then some (record { frame = frame; received_at = now })
          else lookup k jb.buffer)
  put now sequence k frame jb =
      lookup-insert sequence k (record { frame = frame; received_at = now }) jb.buffer

  stored :
      (now sequence : ℕ) (frame : Frame) (jb : Buffer fl Frame)
      → lookup sequence jb.buffer ≡ none
      → jb.next_sequence ≤ sequence + 100
      → Stored now sequence frame jb (push fl Frame now sequence frame jb).0
  unfolding push
  stored now sequence frame jb new near = record {
    here = ground (arith, new, near, put now sequence sequence frame jb);
    others = λ k other. ground (arith, new, near, put now sequence k frame jb, other);
  }

  -- `push` refuses a frame whose number is in the buffer, which counts as a duplicate, and a new one
  -- more than 100 before the next number, which counts as late; the buffer then stays as it was. It
  -- takes any other one: a frame before the next number counts as late and one after it as out of
  -- order. A frame that it takes stands under its number with the time, and no other one changes.
  -- The result tells whether it took the frame. In each case the frame counts as received, the
  -- counters are modulo 2 ^ 64, no other one of them moves, and the next number stays.
  pub push-Pushed :
      (now sequence : ℕ) (frame : Frame) (jb : Buffer fl Frame)
      → Pushed now sequence frame jb (push fl Frame now sequence frame jb)
  unfolding push
  push-Pushed now sequence frame jb = elim (Option-cases (lookup sequence jb.buffer)) [
    | inr (held, h) ↦
        is_duplicate held h (ground (arith, h)) (ground (arith, h)) (ground (arith, h))
    | inl new ↦ elim (compare_cases sequence jb.next_sequence) [
      | inl below ↦ elim (le_cases jb.next_sequence (sequence + 100)) [
        | inl near ↦
            is_late new below near (ground (arith, new, below, near))
              (stored now sequence frame jb new near) (ground (arith, new, below, near))
        | inr far ↦
            is_too_old new far (ground (arith, new, far)) (ground (arith, new, far))
              (ground (arith, new, far))
      ]
      | inr (inl same) ↦
          is_next new same (ground (arith, new, same))
            (stored now sequence frame jb new (omega (arith, same))) (ground (arith, new, same))
      | inr (inr above) ↦
          is_early new above (ground (arith, new, above))
            (stored now sequence frame jb new (omega (arith, above))) (ground (arith, new, above))
    ]
  ]
