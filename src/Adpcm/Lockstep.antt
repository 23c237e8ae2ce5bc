-- ===== src/Adpcm/Lockstep.antt =====
-- The decoder follows the encoder, and both stay close to the samples.
use ntied.Common.{
  ltb→lt, ℕ, ◌+◌, ◌-◌, ◌*◌, ◌/◌, ◌≤◌, ◌<◌, ◌≡◌, refl, List, [], ◌∷◌, true, false, All, arith, ltb,
  Bool-cases, inl, inr,
}
use ntied.Adpcm.{
  Channel, step_at, next_index, has_bit, step_diff, moved, decode_nibble, magnitude, quantize,
  encode_sample,
}

-- The encoder over the samples of a channel.
unfoldable pub encode : Channel → List ℕ → Channel × List ℕ
encode c [] = (c, [])
encode c (sample ∷ rest) =
    let (c', nibble) = encode_sample sample c in
    let (c'', nibbles) = encode c' rest in (c'', nibble ∷ nibbles)

unfoldable pub decode : Channel → List ℕ → Channel × List ℕ
decode c [] = (c, [])
decode c (nibble ∷ rest) =
    let (c', sample) = decode_nibble nibble c in
    let (c'', samples) = decode c' rest in (c'', sample ∷ samples)

-- The range of a channel's state.
abbrev pub IsChannel : Channel → Type 0
IsChannel c = (c.predictor < 65536) × (c.step_index ≤ 88)

magnitude_lt : (step diff : ℕ) → magnitude step diff < 8
unfolding magnitude
magnitude_lt step diff = ground arith

-- Without the clamp, the difference that the bits stand for misses the true one by at most an
-- eighth of the step and 2, if the true one is below two steps.
step_diff-magnitude :
    (step diff : ℕ)
    → diff < 2 * step
    → (diff ≤ step_diff step (magnitude step diff) + (step / 8 + 2))
      × (step_diff step (magnitude step diff) ≤ diff + (step / 8 + 2))
unfolding magnitude step_diff has_bit
step_diff-magnitude step diff lt = ground arith

-- The sign's bit does not change the others.
step_diff_sign : (step m : ℕ) → m < 8 → step_diff step (8 + m) ≡ step_diff step m
unfolding step_diff has_bit
step_diff_sign step m lt = ground arith

sign_set : (m : ℕ) → m < 8 → has_bit 8 (8 + m) ≡ true
unfolding has_bit
sign_set m lt = ground arith

sign_clear : (m : ℕ) → m < 8 → has_bit 8 m ≡ false
unfolding has_bit
sign_clear m lt = ground arith

pub quantize_lt : (step sample predictor : ℕ) → quantize step sample predictor < 16
unfolding quantize
quantize_lt step sample predictor =
    ground (arith, magnitude_lt step (predictor - sample), magnitude_lt step (sample - predictor))

-- The predictor after a sample, if the sample was less than two steps away.
moved-quantize :
    (step sample predictor : ℕ)
    → sample < 65536
    → predictor < sample + 2 * step
    → sample < predictor + 2 * step
    → (moved predictor
          (quantize step sample predictor)
          (step_diff step (quantize step sample predictor))
        ≤ sample + (step / 8 + 2))
      × (sample
          ≤ moved predictor
              (quantize step sample predictor)
              (step_diff step (quantize step sample predictor))
            + (step / 8 + 2))
unfolding moved quantize
moved-quantize step sample predictor small below above =
    let down = predictor - sample in
    let up = sample - predictor in
    elim (Bool-cases (ltb sample predictor)) [
      | inl e ↦
          rw
            (
              e,
              quantize,
              sign_set (magnitude step down) (magnitude_lt step down),
              step_diff_sign step (magnitude step down) (magnitude_lt step down),
            )
            (ground
              (arith, step_diff-magnitude step down (omega (arith, ltb→lt sample predictor e))))
      | inr e ↦
          rw (e, quantize, sign_clear (magnitude step up) (magnitude_lt step up))
            (ground (arith, step_diff-magnitude step up (omega arith)))
    ]

-- Two samples at most an eighth of the step and 2 apart.
abbrev pub IsClose : ℕ → ℕ → ℕ → Type 0
IsClose step s t = (t ≤ s + (step / 8 + 2)) × (s ≤ t + (step / 8 + 2))

-- The samples that come out, one for each that went in: close to it wherever it was less than two
-- steps away from the predictor of that time.
abbrev pub Tracks : Channel → List ℕ → List ℕ → Type 0
Tracks c [] [] = Unit
Tracks c (s ∷ ss) (t ∷ ts) =
    (c.predictor < s + 2 * step_at c.step_index
      → s < c.predictor + 2 * step_at c.step_index
      → IsClose (step_at c.step_index) s t)
    × Tracks (encode_sample s c).0 ss ts
Tracks c _ _ = ⊥

pub encode_sample-IsChannel :
    (sample : ℕ) (c : Channel) → IsChannel c → IsChannel (encode_sample sample c).0
unfolding encode_sample moved next_index
encode_sample-IsChannel sample c v = ground arith

pub encode_sample-IsClose :
    (sample : ℕ) (c : Channel)
    → sample < 65536
    → c.predictor < sample + 2 * step_at c.step_index
    → sample < c.predictor + 2 * step_at c.step_index
    → IsClose (step_at c.step_index) sample (encode_sample sample c).0.predictor
unfolding encode_sample
encode_sample-IsClose sample c small below above =
    moved-quantize (step_at c.step_index) sample c.predictor small below above

-- From a channel state in range and for 16-bit samples: the decoder, started in the encoder's
-- state, ends in the state in which the encoder ends, which is in range again; it puts out as many
-- samples as went in, and each is within an eighth of the step and 2 of its original if that was
-- less than two steps away from the predictor.
pub decode-encode :
    (c : Channel) (samples : List ℕ)
    → IsChannel c
    → All (λ s. s < 65536) samples
    → ((decode c (encode c samples).1).0 ≡ (encode c samples).0)
      × IsChannel (encode c samples).0
      × Tracks c samples (decode c (encode c samples).1).1
unfolding decode encode decode_nibble encode_sample
decode-encode c [] v small = (refl, v, tt)
decode-encode c (s ∷ ss) v (first, small) =
    let (same, valid, rest) =
      decode-encode (encode_sample s c).0 ss (encode_sample-IsChannel s c v) small in
    (same, valid, (encode_sample-IsClose s c first, rest))
