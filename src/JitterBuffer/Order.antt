-- ===== src/JitterBuffer/Order.antt =====
-- Without late frames in the buffer, playback goes forward.
use ntied.Common.{ap, ℕ, suc, ◌+◌, ◌-◌, ◌^◌, ◌≤◌, ◌<◌, ◌≡◌, refl, some, arith, subst, sym, ◌∙◌}
use ntied.Common.Map.{
  first_lower, lookup, remove, first, IsSorted, first-IsSorted, remove_first-IsSorted,
}
use ntied.JitterBuffer.{Float32, BufferedFrame, Buffer, pop, wrap64}
use ntied.JitterBuffer.Invariant.{IsValid}
use ntied.JitterBuffer.Pop.{Popped, in_order, waits, skips, delivered, skipped, pop-Popped}
use mathlib.Core.Option.{Option, some-injective}

module _ (fl : Float32) (Frame : Type 0) where
  -- What one delivery means: the frame `seq` of the buffer went out, no earlier than the next one
  -- expected; all that is left comes after it; and exactly the numbers passed over count as lost.
  pub record Forward (jb jb' : Buffer fl Frame) (f : Frame) : Type 0 where
    pub seq : ℕ
    pub buffered : BufferedFrame Frame
    pub held : lookup seq jb.buffer ≡ some buffered
    pub frame : buffered.frame ≡ f
    pub forward : jb.next_sequence ≤ seq
    pub next : jb'.next_sequence ≡ seq + 1
    pub left : IsSorted jb'.next_sequence jb'.buffer
    pub lost : jb'.stats.packets_lost ≡ wrap64 (jb.stats.packets_lost + (seq - jb.next_sequence))

  in_order-Forward :
      (jb : Buffer fl Frame) (b : BufferedFrame Frame)
      → IsSorted jb.next_sequence jb.buffer
      → jb.next_sequence + 1 < 2 ^ 32
      → jb.stats.packets_lost < 2 ^ 64
      → lookup jb.next_sequence jb.buffer ≡ some b
      → Forward jb (delivered fl Frame jb.next_sequence jb) b.frame
  in_order-Forward jb b s small u64 e =
      let n = jb.next_sequence in
      record {
        seq = n;
        buffered = b;
        held = e;
        frame = refl;
        forward = omega arith;
        next = omega arith;
        left =
            subst (λ (k : ℕ). IsSorted k (remove n jb.buffer)) {x = suc n} (omega arith)
              (remove_first-IsSorted n jb.buffer s);
        lost = omega arith;
      }

  skips-Forward :
      (jb : Buffer fl Frame) (seq : ℕ) (b : BufferedFrame Frame)
      → IsSorted jb.next_sequence jb.buffer
      → seq + 1 < 2 ^ 32
      → first jb.buffer ≡ some (seq, b)
      → Forward jb (skipped fl Frame seq jb) b.frame
  skips-Forward jb seq b s small e =
      let held = first-IsSorted jb.next_sequence seq b jb.buffer s e in
      let ahead = first_lower jb.next_sequence seq b jb.buffer s e in
      record {
        seq = seq;
        buffered = b;
        held = held.0;
        frame = refl;
        forward = ahead;
        next = omega arith;
        left =
            subst (λ (k : ℕ). IsSorted k (remove seq jb.buffer)) {x = suc seq} (omega arith)
              (remove_first-IsSorted seq jb.buffer held.1);
        lost = omega arith;
      }

  -- The two results of a delivery agree with their description.
  same_delivery :
      (jb jb' out : Buffer fl Frame) (f g : Frame)
      → ◌≡◌ {A = Buffer fl Frame × Option Frame} (jb', some f) (out, some g)
      → Forward jb out g
      → Forward jb jb' f
  same_delivery jb jb' out f g q h =
      subst (λ x. Forward jb x f) (sym (ap (λ x. x.0) q))
        (subst (Forward jb out) (sym (some-injective f g (ap (λ x. x.1) q))) h)

  Popped-Forward :
      (now : ℕ) (jb jb' : Buffer fl Frame) (f : Frame)
      → IsSorted jb.next_sequence jb.buffer
      → ((k : ℕ) (b : BufferedFrame Frame) → lookup k jb.buffer ≡ some b → k + 1 < 2 ^ 32)
      → jb.stats.packets_lost < 2 ^ 64
      → Popped fl Frame now jb (jb', some f)
      → Forward jb jb' f
  Popped-Forward now jb jb' f s small u64 (in_order b e q) =
      same_delivery jb jb' _ f b.frame q (in_order-Forward jb b s (small _ b e) u64 e)
  Popped-Forward now jb jb' f s small u64 (waits e h q) = cc
  Popped-Forward now jb jb' f s small u64 (skips seq b e h o q) =
      same_delivery jb jb' _ f b.frame q (
        skips-Forward jb seq b s
          (small seq b (first-IsSorted jb.next_sequence seq b jb.buffer s h).0) h)

  -- Where the buffer holds no frame before the next sequence number, and none with the last `u32`,
  -- each frame that `pop` delivers is held, comes no earlier than the next one, leaves only later
  -- ones, and exactly the sequence numbers passed over are added to the lost packets.
  pub pop-Forward :
      (now : ℕ) (jb jb' : Buffer fl Frame) (f : Frame)
      → IsValid fl Frame jb
      → IsSorted jb.next_sequence jb.buffer
      → ((k : ℕ) (b : BufferedFrame Frame) → lookup k jb.buffer ≡ some b → k + 1 < 2 ^ 32)
      → jb.stats.packets_lost < 2 ^ 64
      → pop fl Frame now jb ≡ some (jb', some f)
      → Forward jb jb' f
  pop-Forward now jb jb' f v s small u64 e =
      let (r, popped, spec) = pop-Popped fl Frame now jb v in
      Popped-Forward now jb jb' f s small u64
        (subst (Popped fl Frame now jb) (some-injective _ _ (sym popped ∙ e)) spec)
