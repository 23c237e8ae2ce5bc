-- ===== src/Tests/Frames.antt =====
-- A jitter buffer with frames that arrive out of order and late.
use ntied.Common.{
  ◌≡◌, ℕ, ◌+◌, ◌-◌, ◌*◌, ◌^◌, ◌≤◌, ◌<◌, List, [], ◌∷◌, ◌++◌, refl, arith, true, false, ◌==◌, Option,
  some, none,
}
use ntied.Common.Map.{lookup}
use ntied.JitterBuffer.{Float32, BufferedFrame, Buffer, with_config, push, pop, wrap64}
use ntied.JitterBuffer.Invariant.{IsValid}
use ntied.JitterBuffer.Push.{Pushed, push-Pushed}
use ntied.JitterBuffer.Pop.{Popped, pop-Popped}
use ntied.JitterBuffer.Order.{Forward, pop-Forward}
use ntied.JitterBuffer.Late.{pop_late, push-pop_late}

abbrev whole : Float32
whole = record {
  F = ℕ;
  from_nat = λ n. n;
  eighth = 0;
  add = λ a b. a + b;
  sub = λ a b. a - b;
  mul = λ a b. a * b;
  abs = λ a. a;
  eq = λ a b. a == b;
}

abbrev empty : Buffer whole ℕ
empty = with_config whole ℕ 60 300

abbrev frame_of : ℕ → BufferedFrame ℕ
frame_of n = record { frame = n; received_at = 0 }

-- The frames 3 and 4, of which 1 and 2 are missing; a frame is a number.
abbrev waiting : Buffer whole ℕ
waiting = record empty { buffer = (3, frame_of 33) ∷ (4, frame_of 44) ∷ []; next_sequence = 1 }

waiting-IsValid : IsValid whole ℕ waiting
waiting-IsValid = record {
  sorted = (omega arith, (omega arith, tt));
  keys = (omega arith, (omega arith, tt));
  next = omega arith;
}

pop-Popped_example :
    (r : Buffer whole ℕ × Option ℕ) × (pop whole ℕ (10 ^ 9) waiting ≡ some r)
    × Popped whole ℕ (10 ^ 9) waiting r
pop-Popped_example = pop-Popped whole ℕ (10 ^ 9) waiting waiting-IsValid

-- The buffer after the frame 3 was played.
abbrev played : Buffer whole ℕ
played = record waiting {
  buffer = (4, frame_of 44) ∷ [];
  next_sequence = 4;
  stats = record {
    packets_received = 0;
    packets_lost = 2;
    packets_late = 0;
    packets_duplicate = 0;
    packets_out_of_order = 0;
    current_delay_ms = 0;
    average_jitter_ms = 0;
  };
}

only_small : (k : ℕ) (b : BufferedFrame ℕ) → lookup k waiting.buffer ≡ some b → k + 1 < 2 ^ 32
unfolding lookup
only_small k b e = ground arith

pop-Forward_example : Forward whole ℕ waiting played 33
unfolding with_config pop lookup ntied.Common.Map.first ntied.Common.Map.remove
pop-Forward_example =
    pop-Forward whole ℕ (10 ^ 9) waiting played 33 waiting-IsValid (omega arith, (omega arith, tt))
      only_small (omega arith) refl

-- The frames up to 9 were played; the frame 8 comes again.
abbrev drained : Buffer whole ℕ
drained = record empty { next_sequence = 10 }

push-pop_late_example :
    ((push whole ℕ 5 8 88 drained).1 ≡ true)
    × ((jb' : Buffer whole ℕ) × (pop whole ℕ (10 ^ 9) (push whole ℕ 5 8 88 drained).0
          ≡ some (jb', some 88))
        × (jb'.next_sequence ≡ 9))
unfolding with_config
push-pop_late_example =
    push-pop_late whole ℕ 5 (10 ^ 9) 8 88 drained
      (record { sorted = tt; keys = tt; next = omega arith }) refl (omega arith) (omega arith)
      (omega arith)

-- The frame 3 comes after the frame 4 was played.
abbrev late : Buffer whole ℕ
late = record waiting { next_sequence = 5 }

pop_late_example :
    (jb' : Buffer whole ℕ) × (pop whole ℕ (10 ^ 9) late ≡ some (jb', some 33))
    × (jb'.next_sequence ≡ 4)
    × (jb'.next_sequence ≤ 5)
    × (jb'.stats.packets_lost ≡ wrap64 (0 + (2 ^ 32 - (5 - 3))))
unfolding lookup ntied.Common.Map.first with_config
pop_late_example =
    pop_late whole ℕ (10 ^ 9) 3 (frame_of 33) late
      (record {
        sorted = (omega arith, (omega arith, tt));
        keys = (omega arith, (omega arith, tt));
        next = omega arith;
      })
      refl refl (omega arith) (omega arith)

push-Pushed_example : Pushed whole ℕ 5 2 22 waiting (push whole ℕ 5 2 22 waiting)
push-Pushed_example = push-Pushed whole ℕ 5 2 22 waiting
