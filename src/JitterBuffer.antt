-- ===== src/JitterBuffer.antt =====
-- ntied/src/audio/jitter_buffer.rs: audio frames that arrive out of order, late or not at all.
-- Times are nanoseconds of the monotonic clock, an argument of each call; `u32` sequence numbers
-- and `u64` counters wrap. The two `f32` statistics go through the operations of `Float32`; the
-- type of a frame is a parameter.
pub mod Invariant
pub mod Push
pub mod Pop
pub mod Order
pub mod Late
use ntied.Common.{
  ℕ, zero, suc, ◌+◌, ◌-◌, ◌*◌, ◌/◌, ◌%◌, ◌^◌, max, Bool, true, false, not, ◌&&◌, ◌||◌, List, [],
  ◌∷◌, Option, none, some, length, ltb, leb, if◌then◌else◌,
}
use ntied.Common.Map.{lookup, insert, remove, first}

-- What the statistics use of `f32`.
pub record Float32 : Type 1 where
  pub F : Type 0
  -- `as f32`, which is also how the literals 0.0, 20.0 and 1.0 are given.
  pub from_nat : ℕ → F
  -- The literal 0.125.
  pub eighth : F
  pub add : F → F → F
  pub sub : F → F → F
  pub mul : F → F → F
  pub abs : F → F
  pub eq : F → F → Bool

abbrev pub wrap32 : ℕ → ℕ
wrap32 n = n % 2 ^ 32

abbrev pub wrap64 : ℕ → ℕ
wrap64 n = n % 2 ^ 64

-- `u32::wrapping_sub`.
abbrev pub wrapping_sub : ℕ → ℕ → ℕ
wrapping_sub a b = wrap32 (a + 2 ^ 32 - b)

-- `Duration::from_millis`.
abbrev pub from_millis : ℕ → ℕ
from_millis n = n * 1000000

pub record BufferedFrame (Frame : Type 0) : Type 0 where
  pub frame : Frame
  pub received_at : ℕ

pub record JitterBufferStats (F : Type 0) : Type 0 where
  pub packets_received : ℕ
  pub packets_lost : ℕ
  pub packets_late : ℕ
  pub packets_duplicate : ℕ
  pub packets_out_of_order : ℕ
  pub current_delay_ms : F
  pub average_jitter_ms : F

pub record JitterBuffer (F Frame : Type 0) : Type 0 where
  pub buffer : List (ℕ × BufferedFrame Frame)
  pub next_sequence : ℕ
  pub max_delay : ℕ
  pub target_buffer_ms : ℕ
  pub stats : JitterBufferStats F

module _ (fl : Float32) (Frame : Type 0) where
  open fl use {F, from_nat}

  abbrev pub Buffer : Type 0
  Buffer = JitterBuffer F Frame

  no_stats : JitterBufferStats F
  no_stats = record {
    packets_received = 0;
    packets_lost = 0;
    packets_late = 0;
    packets_duplicate = 0;
    packets_out_of_order = 0;
    current_delay_ms = from_nat 0;
    average_jitter_ms = from_nat 0;
  }

  unfoldable pub with_config : ℕ → ℕ → Buffer
  unfolding no_stats
  with_config target_buffer_ms max_delay_ms = record {
    buffer = [];
    next_sequence = 0;
    max_delay = from_millis max_delay_ms;
    target_buffer_ms = target_buffer_ms;
    stats = no_stats;
  }

  -- 60ms target, 300ms delay.
  unfoldable pub new : Buffer
  unfolding with_config
  new = with_config 60 300

  estimate_buffer_depth_ms : Buffer → F
  estimate_buffer_depth_ms jb = elim jb.buffer [
    | [] ↦ from_nat 0
    | e ∷ rest ↦ fl.mul (from_nat (length (e ∷ rest))) (from_nat 20)
  ]

  -- The moving average, from the depth and the average so far.
  average_jitter : F → F → F
  average_jitter current_jitter average =
      if fl.eq average (from_nat 0)
      then current_jitter
      else fl.add (fl.mul fl.eighth current_jitter) (fl.mul (fl.sub (from_nat 1) fl.eighth) average)

  update_stats : Buffer → Buffer
  unfolding estimate_buffer_depth_ms average_jitter
  update_stats jb =
      let delay = estimate_buffer_depth_ms jb in
      let current_jitter = fl.abs (fl.sub delay (from_nat jb.target_buffer_ms)) in
      let stats = jb.stats in
      record jb {
        stats = record stats {
          current_delay_ms = delay;
          average_jitter_ms = average_jitter current_jitter stats.average_jitter_ms;
        };
      }

  count_received : Buffer → Buffer
  count_received jb =
      let stats = jb.stats in
      record jb { stats = record stats { packets_received = wrap64 (stats.packets_received + 1) } }

  count_duplicate : Buffer → Buffer
  count_duplicate jb =
      let stats = jb.stats in
      record jb {
        stats = record stats { packets_duplicate = wrap64 (stats.packets_duplicate + 1) };
      }

  count_late : Buffer → Buffer
  count_late jb =
      let stats = jb.stats in
      record jb { stats = record stats { packets_late = wrap64 (stats.packets_late + 1) } }

  count_out_of_order : Buffer → Buffer
  count_out_of_order jb =
      let stats = jb.stats in
      record jb {
        stats = record stats { packets_out_of_order = wrap64 (stats.packets_out_of_order + 1) };
      }

  unfoldable pub count_lost : ℕ → Buffer → Buffer
  count_lost n jb =
      let stats = jb.stats in
      record jb { stats = record stats { packets_lost = wrap64 (stats.packets_lost + n) } }

  -- The end of `push`: the frame goes in, and the statistics are renewed.
  store : ℕ → ℕ → Frame → Buffer → Buffer
  unfolding update_stats
  store now sequence frame jb = update_stats (record jb {
    buffer = insert sequence (record { frame = frame; received_at = now }) jb.buffer;
  })

  -- `push` of a sequence number that is not in the buffer.
  push_new : ℕ → ℕ → Frame → Buffer → Buffer × Bool
  unfolding count_late count_out_of_order store
  push_new now sequence frame jb =
      if ltb sequence jb.next_sequence
      then (if ltb 100 (jb.next_sequence - sequence)
          then (count_late jb, false)
          else (store now sequence frame (count_late jb), true))
      else (if ltb jb.next_sequence sequence
          then (store now sequence frame (count_out_of_order jb), true)
          else (store now sequence frame jb, true))

  unfoldable pub push : ℕ → ℕ → Frame → Buffer → Buffer × Bool
  unfolding count_received count_duplicate push_new
  push now sequence frame jb = elim (lookup sequence jb.buffer) [
    | some _ ↦ (count_duplicate (count_received jb), false)
    | none ↦ push_new now sequence frame (count_received jb)
  ]

  -- More than ten frames are missing before the target.
  should_skip_to : Buffer → ℕ → Bool
  should_skip_to jb target =
      if leb target jb.next_sequence then false else ltb 10 (wrapping_sub target jb.next_sequence)

  unfoldable pub should_skip : ℕ → Buffer → ℕ → ℕ → Bool
  unfolding should_skip_to
  should_skip now jb seq received_at =
      let wait_time = now - received_at in
      ltb jb.max_delay wait_time || (should_skip_to jb seq && ltb (from_millis 100) wait_time)

  -- The frame with the next sequence number.
  take_next : BufferedFrame Frame → Buffer → Buffer × Option Frame
  take_next buffered jb = (
    record jb {
      buffer = remove jb.next_sequence jb.buffer;
      next_sequence = wrap32 (jb.next_sequence + 1);
    },
    some buffered.frame,
  )

  unfoldable pub skip_to : ℕ → Buffer → Buffer
  unfolding count_lost
  skip_to seq jb = record (count_lost (wrapping_sub seq jb.next_sequence) jb) {
    next_sequence = seq;
  }

  -- `pop` calls itself, at a later instant, after a skip; `none` means that the fuel ran out.
  unfoldable pub pop_within : ℕ → ℕ → Buffer → Option (Buffer × Option Frame)
  unfolding take_next skip_to should_skip
  pop_within zero now jb = none
  pop_within (suc fuel) now jb = elim (lookup jb.next_sequence jb.buffer) [
    | some buffered ↦ some (take_next buffered jb)
    | none ↦ elim (first jb.buffer) [
      | none ↦ some (jb, none)
      | some (seq, oldest) ↦ elim (should_skip now jb seq oldest.received_at) [
        | true ↦ pop_within fuel now (skip_to seq jb)
        | false ↦ some (jb, none)
      ]
    ]
  ]

  unfoldable pub pop : ℕ → Buffer → Option (Buffer × Option Frame)
  unfolding pop_within
  pop now jb = pop_within 2 now jb

  unfoldable pub is_ready : Buffer → Bool
  is_ready jb = leb (max (jb.target_buffer_ms / 20) 2) (length jb.buffer)

  unfoldable pub reset : Buffer → Buffer
  unfolding no_stats
  reset jb = record jb { buffer = []; next_sequence = 0; stats = no_stats }

  unfoldable pub set_sequence : ℕ → Buffer → Buffer
  set_sequence sequence jb = record jb { buffer = []; next_sequence = sequence }

  -- The sequence numbers of the frames that waited more than twice the delay.
  old_sequences : ℕ → ℕ → List (ℕ × BufferedFrame Frame) → List ℕ
  old_sequences timeout now [] = []
  old_sequences timeout now ((seq, buffered) ∷ rest) =
      let old = old_sequences timeout now rest in
      if ltb timeout (now - buffered.received_at) then seq ∷ old else old

  discard : List ℕ → Buffer → Buffer
  unfolding count_lost
  discard [] jb = jb
  discard (seq ∷ rest) jb = discard rest (
      let jb' = record jb { buffer = remove seq jb.buffer } in
      if leb jb.next_sequence seq then count_lost 1 jb' else jb')

  unfoldable pub cleanup_old_packets : ℕ → Buffer → Buffer
  unfolding old_sequences discard
  cleanup_old_packets now jb = discard (old_sequences (jb.max_delay * 2) now jb.buffer) jb
