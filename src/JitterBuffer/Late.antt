-- ===== src/JitterBuffer/Late.antt =====
-- A late frame in the buffer turns playback back.
use ntied.Common.{ap, [], ◌∷◌, true, ℕ, ◌+◌, ◌-◌, ◌^◌, ◌≤◌, ◌<◌, ◌≡◌, none, some, arith}
use ntied.Common.Map.{insert, lookup, first, first-IsSorted}
use ntied.JitterBuffer.{
  push, Float32, BufferedFrame, Buffer, pop, pop_within, should_skip, count_lost, wrapping_sub,
  wrap64,
}
use ntied.JitterBuffer.Invariant.{push-IsValid, IsValid}
use ntied.JitterBuffer.Pop.{delivered, pop_after_skip}

module _ (fl : Float32) (Frame : Type 0) where
  overdue_lem :
      (now seq : ℕ) (b : BufferedFrame Frame) (jb : Buffer fl Frame)
      → jb.max_delay < now - b.received_at
      → should_skip fl Frame now jb seq b.received_at ≡ true
  unfolding should_skip
  overdue_lem now seq b jb over = ground arith

  -- If the oldest frame in a valid buffer comes before the next sequence number, which is missing,
  -- and it waited longer than the delay, then `pop` delivers that late frame, sets the next
  -- sequence number back behind it, and adds 2 ^ 32 less the step back to the lost packets.
  pub pop_late :
      (now seq : ℕ) (b : BufferedFrame Frame) (jb : Buffer fl Frame)
      → IsValid fl Frame jb
      → lookup jb.next_sequence jb.buffer ≡ none
      → first jb.buffer ≡ some (seq, b)
      → seq < jb.next_sequence
      → jb.max_delay < now - b.received_at
      → (jb' : Buffer fl Frame) × (pop fl Frame now jb ≡ some (jb', some b.frame))
        × (jb'.next_sequence ≡ seq + 1)
        × (jb'.next_sequence ≤ jb.next_sequence)
        × (jb'.stats.packets_lost
            ≡ wrap64 (jb.stats.packets_lost + (2 ^ 32 - (jb.next_sequence - seq))))
  unfolding pop
  pop_late now seq b jb v miss oldest late over =
      let held = first-IsSorted 0 seq b jb.buffer v.sorted oldest in
      let small = v.next in
      (
        delivered fl Frame seq (count_lost fl Frame (wrapping_sub seq jb.next_sequence) jb),
        rw (miss, pop_within, oldest, overdue_lem now seq b jb over)
            (pop_after_skip fl Frame now seq b jb held.0),
        unfold count_lost in omega arith,
        unfold count_lost in omega arith,
        unfold count_lost in omega arith,
      )

  -- A push of a late frame into an empty buffer stores it.
  push_late :
      (now seq : ℕ) (frame : Frame) (jb : Buffer fl Frame)
      → jb.buffer ≡ []
      → seq < jb.next_sequence
      → jb.next_sequence ≤ seq + 100
      → ((push fl Frame now seq frame jb).1 ≡ true)
        × ((push fl Frame now seq frame jb).0.buffer
            ≡ (seq, record { frame = frame; received_at = now }) ∷ [])
        × ((push fl Frame now seq frame jb).0.next_sequence ≡ jb.next_sequence)
        × ((push fl Frame now seq frame jb).0.max_delay ≡ jb.max_delay)
  unfolding push lookup insert
  push_late now seq frame jb empty late near =
      let miss : lookup seq jb.buffer ≡ none = ap (lookup seq) empty in
      let b : BufferedFrame Frame = record { frame = frame; received_at = now } in
      let stored : insert seq b jb.buffer ≡ (seq, b) ∷ [] = ap (insert seq b) empty in
      ground (arith, miss, stored)

  -- After playback passed `seq`, by at most 100 frames, and emptied a valid buffer, a frame with
  -- that number, be it a copy of the one that was played, is taken by `push`; once it waited longer
  -- than the delay, `pop` plays it and expects the numbers from `seq + 1` on again.
  pub push-pop_late :
      (now later seq : ℕ) (frame : Frame) (jb : Buffer fl Frame)
      → IsValid fl Frame jb
      → jb.buffer ≡ []
      → seq < jb.next_sequence
      → jb.next_sequence ≤ seq + 100
      → jb.max_delay < later - now
      → ((push fl Frame now seq frame jb).1 ≡ true)
        × ((jb' : Buffer fl Frame) × (pop fl Frame later (push fl Frame now seq frame jb).0
              ≡ some (jb', some frame))
            × (jb'.next_sequence ≡ seq + 1))
  push-pop_late now later seq frame jb v empty late near over =
      let (taken, stored, next, delay) = push_late now seq frame jb empty late near in
      let b : BufferedFrame Frame = record { frame = frame; received_at = now } in
      let r = push fl Frame now seq frame jb in
      let (jb', popped, back, ahead, lost) =
        pop_late later seq b r.0 (push-IsValid fl Frame now seq frame jb (omega (arith, v.next)) v)
          (unfold lookup in ground arith) (unfold first in ground arith) (omega arith)
          (omega arith) in
      (taken, (jb', popped, back))
