-- ===== src/Adpcm/Nibbles.antt =====
-- The decoder's loop over the bytes that the encoder's loop packed.
use ntied.Common.{
  ℕ, ◌+◌, ◌*◌, ◌/◌, ◌%◌, ◌<◌, ◌≡◌, refl, sym, Bool-cases, inl, inr, true, false, List, [], ◌∷◌,
  length, All, ◌==◌, if◌then◌else◌, arith, subst,
}
use ntied.Adpcm.{Channel, step_at, encode_sample, decode_nibble}
use ntied.Adpcm.Lockstep.{
  IsChannel, IsClose, quantize_lt, encode_sample-IsChannel, encode_sample-IsClose,
}
use ntied.Adpcm.Frame.{Voices, channel_of, encode_on, decode_on, encode_from, decode_from}

abbrev pub AreChannels : Voices → Type 0
AreChannels v = IsChannel v.left × IsChannel v.right

-- The state of a channel.
abbrev pub voice : ℕ → Voices → Channel
voice channel v = if channel == 0 then v.left else v.right

-- What is heard is close to what was spoken wherever that was less than two steps away from the
-- predictor of its channel, and is longer by one sample at most, to fill the last byte.
abbrev pub Heard : ℕ → ℕ → Voices → List ℕ → List ℕ → Type 0
Heard channels i v [] ts = length ts ≡ i % 2
Heard channels i v (s ∷ ss) [] = ⊥
Heard channels i v (s ∷ ss) (t ∷ ts) =
    let c = voice (channel_of channels i) v in
    (c.predictor < s + 2 * step_at c.step_index
      → s < c.predictor + 2 * step_at c.step_index
      → IsClose (step_at c.step_index) s t)
    × Heard channels (i + 1) (encode_on (channel_of channels i) s v).0 ss ts

encode_on_lt : (channel s : ℕ) (v : Voices) → (encode_on channel s v).1 < 16
unfolding encode_on encode_sample
encode_on_lt channel s v = elim (Bool-cases (channel == 0)) [
  | inl e ↦ rw (e, encode_on) (quantize_lt _ s v.left.predictor)
  | inr e ↦ rw (e, encode_on) (quantize_lt _ s v.right.predictor)
]

encode_on-AreChannels :
    (channel s : ℕ) (v : Voices) → AreChannels v → AreChannels (encode_on channel s v).0
unfolding encode_on
encode_on-AreChannels channel s v (l, r) = elim (Bool-cases (channel == 0)) [
  | inl e ↦ rw (e, encode_on) (encode_sample-IsChannel s v.left l, r)
  | inr e ↦ rw (e, encode_on) (l, encode_sample-IsChannel s v.right r)
]

decode_on-encode_on :
    (channel s : ℕ) (v : Voices)
    → (decode_on channel (encode_on channel s v).1 v).0 ≡ (encode_on channel s v).0
unfolding decode_on encode_on decode_nibble encode_sample
decode_on-encode_on channel s v = elim (Bool-cases (channel == 0)) [
  | inl e ↦ rw (e, encode_on) refl
  | inr e ↦ rw (e, encode_on) refl
]

decode_on-IsClose :
    (channel s : ℕ) (v : Voices)
    → s < 65536
    → (voice channel v).predictor < s + 2 * step_at (voice channel v).step_index
    → s < (voice channel v).predictor + 2 * step_at (voice channel v).step_index
    → IsClose
        (step_at (voice channel v).step_index)
        s
        (decode_on channel (encode_on channel s v).1 v).1
unfolding decode_on encode_on decode_nibble encode_sample
decode_on-IsClose channel s v small = elim (Bool-cases (channel == 0)) [
  | inl e ↦ rw (e, encode_on) (encode_sample-IsClose s v.left small)
  | inr e ↦ rw (e, encode_on) (encode_sample-IsClose s v.right small)
]

even_test : (n : ℕ) → n % 2 ≡ 0 → (n % 2 == 0) ≡ true
even_test n even = ground (arith, even)

odd_test : (n : ℕ) → n % 2 ≡ 0 → ((n + 1) % 2 == 0) ≡ false
odd_test n even = ground (arith, even)

module _ (channels : ℕ) where
  encode_pair :
      (n s s' : ℕ) (rest : List ℕ) (v : Voices)
      → n % 2 ≡ 0
      → let first = encode_on (channel_of channels n) s v in
        let second = encode_on (channel_of channels (n + 1)) s' first.0 in
        (encode_from channels n 0 (s ∷ s' ∷ rest) v).1
        ≡ (first.1 + 16 * second.1) ∷ (encode_from channels (n + 1 + 1) 0 rest second.0).1
  unfolding encode_from
  encode_pair n s s' rest v even = rw (even_test n even, odd_test n even) refl

  encode_last :
      (n s : ℕ) (v : Voices)
      → n % 2 ≡ 0
      → (encode_from channels n 0 (s ∷ []) v).1 ≡ (encode_on (channel_of channels n) s v).1 ∷ []
  unfolding encode_from
  encode_last n s v even = rw (even_test n even, odd_test n even) refl

  decode_pair :
      (n x y : ℕ) (rest : List ℕ) (v : Voices)
      → x < 16
      → let first = decode_on (channel_of channels n) x v in
        let second = decode_on (channel_of channels (n + 1)) y first.0 in
        (decode_from channels n ((x + 16 * y) ∷ rest) v).1
        ≡ first.1 ∷ second.1 ∷ (decode_from channels (n + 1 + 1) rest second.0).1
  unfolding decode_from
  decode_pair n x y rest v small =
      let low : ((x + 16 * y) % 16) ≡ x = omega arith in
      let high : ((x + 16 * y) / 16) ≡ y = omega arith in rw (low, high) refl

  -- Two samples through both loops.
  decode-encode_pair :
      (n s s' : ℕ) (rest : List ℕ) (v : Voices)
      → n % 2 ≡ 0
      → let first = encode_on (channel_of channels n) s v in
        let second = encode_on (channel_of channels (n + 1)) s' first.0 in
        (decode_from channels n (encode_from channels n 0 (s ∷ s' ∷ rest) v).1 v).1
        ≡ (decode_on (channel_of channels n) first.1 v).1
          ∷ (decode_on (channel_of channels (n + 1)) second.1 first.0).1
          ∷ (decode_from channels
              (n + 1 + 1)
              (encode_from channels (n + 1 + 1) 0 rest second.0).1
              second.0).1
  decode-encode_pair n s s' rest v even =
      let first = encode_on (channel_of channels n) s v in
      let second = encode_on (channel_of channels (n + 1)) s' first.0 in
      rw
        (
          encode_pair n s s' rest v even,
          decode_pair n first.1 second.1 (encode_from channels (n + 1 + 1) 0 rest second.0).1 v
              (encode_on_lt _ s v),
          decode_on-encode_on (channel_of channels n) s v,
          decode_on-encode_on (channel_of channels (n + 1)) s' first.0,
        )
        refl

  decode-encode_last :
      (n s : ℕ) (v : Voices)
      → n % 2 ≡ 0
      → (t : ℕ) × ((decode_from channels n (encode_from channels n 0 (s ∷ []) v).1 v).1
          ≡ (decode_on (channel_of channels n) (encode_on (channel_of channels n) s v).1 v).1
            ∷ t
            ∷ [])
  unfolding decode_from
  decode-encode_last n s v even =
      let nibble = (encode_on (channel_of channels n) s v).1 in
      let low : nibble % 16 ≡ nibble = omega (arith, encode_on_lt (channel_of channels n) s v) in
      (
        (decode_on (channel_of channels (n + 1)) (nibble / 16)
            (decode_on (channel_of channels n) nibble v).0).1,
        rw (encode_last n s v even, decode_from, low) refl,
      )

  pub decode_from-Heard :
      (n : ℕ) (samples : List ℕ) (v : Voices)
      → n % 2 ≡ 0
      → All (λ s. s < 65536) samples
      → Heard channels n v samples
          (decode_from channels n (encode_from channels n 0 samples v).1 v).1
  unfolding encode_from decode_from
  decode_from-Heard n [] v even small = rw (even_test n even) (sym even)
  decode_from-Heard n (s ∷ []) v even (small, u) =
      let (t, e) = decode-encode_last n s v even in
      subst (Heard channels n v (s ∷ [])) (sym e)
        (decode_on-IsClose (channel_of channels n) s v small, omega (arith, even))
  decode_from-Heard n (s ∷ s' ∷ rest) v even (small, (small', others)) =
      let first = encode_on (channel_of channels n) s v in
      let second = encode_on (channel_of channels (n + 1)) s' first.0 in
      subst (Heard channels n v (s ∷ s' ∷ rest)) (sym (decode-encode_pair n s s' rest v even)) (
        decode_on-IsClose (channel_of channels n) s v small,
        (
          decode_on-IsClose (channel_of channels (n + 1)) s' first.0 small',
          decode_from-Heard (n + 1 + 1) rest second.0 (omega (arith, even)) others,
        ),
      )

  pub encode_from-AreChannels :
      (n waiting : ℕ) (samples : List ℕ) (v : Voices)
      → AreChannels v
      → AreChannels (encode_from channels n waiting samples v).0
  unfolding encode_from
  encode_from-AreChannels n waiting [] v valid = valid
  encode_from-AreChannels n waiting (s ∷ rest) v valid =
      encode_from-AreChannels (n + 1) _ rest (encode_on (channel_of channels n) s v).0
        (encode_on-AreChannels (channel_of channels n) s v valid)
