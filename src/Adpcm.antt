-- ===== src/Adpcm.antt =====
-- ntied/src/audio/codec/adpcm.rs: one sample of the ADPCM encoder and decoder.
-- Samples and predictors, from -32768 to 32767, are given by their distance from -32768; then a
-- clamp at the lower end is subtraction that stops at zero. The floating-point samples and the
-- frames around this are not part of it.
pub mod Lockstep
pub mod Frame
pub mod Nibbles
pub mod Recovery
use ntied.Common.{
  ℕ, ◌+◌, ◌-◌, ◌*◌, ◌/◌, ◌%◌, Bool, true, false, List, [], ◌∷◌, get_or, ltb, leb, ◌==◌,
  if◌then◌else◌,
}

-- `STEP_TABLE`.
abbrev pub step_table : List ℕ
step_table =
    7 ∷ 8 ∷ 9 ∷ 10 ∷ 11 ∷ 12 ∷ 13 ∷ 14 ∷ 16 ∷ 17 ∷ 19 ∷ 21 ∷ 23 ∷ 25 ∷ 28 ∷ 31 ∷ 34 ∷ 37 ∷ 41 ∷ 45
    ∷ 50 ∷ 55 ∷ 60 ∷ 66 ∷ 73 ∷ 80 ∷ 88 ∷ 97 ∷ 107 ∷ 118 ∷ 130 ∷ 143 ∷ 157 ∷ 173 ∷ 190 ∷ 209 ∷ 230
    ∷ 253 ∷ 279 ∷ 307 ∷ 337 ∷ 371 ∷ 408 ∷ 449 ∷ 494 ∷ 544 ∷ 598 ∷ 658 ∷ 724 ∷ 796 ∷ 876 ∷ 963 ∷ 1060
    ∷ 1166 ∷ 1282 ∷ 1411 ∷ 1552 ∷ 1707 ∷ 1878 ∷ 2066 ∷ 2272 ∷ 2499 ∷ 2749 ∷ 3024 ∷ 3327 ∷ 3660
    ∷ 4026 ∷ 4428 ∷ 4871 ∷ 5358 ∷ 5894 ∷ 6484 ∷ 7132 ∷ 7845 ∷ 8630 ∷ 9493 ∷ 10442 ∷ 11487 ∷ 12635
    ∷ 13899 ∷ 15289 ∷ 16818 ∷ 18500 ∷ 20350 ∷ 22385 ∷ 24623 ∷ 27086 ∷ 29794 ∷ 32767 ∷ []

-- `INDEX_TABLE`, each entry one more than in the source, where -1 is the least.
abbrev pub index_table : List ℕ
index_table = 0 ∷ 0 ∷ 0 ∷ 0 ∷ 3 ∷ 5 ∷ 7 ∷ 9 ∷ 0 ∷ 0 ∷ 0 ∷ 0 ∷ 3 ∷ 5 ∷ 7 ∷ 9 ∷ []

-- What encoder and decoder keep of a channel.
pub record Channel : Type 0 where
  pub predictor : ℕ
  pub step_index : ℕ

-- The upper end of a clamp.
abbrev pub at_most : ℕ → ℕ → ℕ
at_most high n = if ltb high n then high else n

unfoldable pub step_at : ℕ → ℕ
step_at i = get_or step_table i 0

-- `clamp(0, 88)` of the sum with the table's entry.
unfoldable pub next_index : ℕ → ℕ → ℕ
next_index index nibble = at_most 88 (index + get_or index_table nibble 0 - 1)

-- `n & 4 != 0` and so on, by the weight of the bit.
unfoldable pub has_bit : ℕ → ℕ → Bool
has_bit weight n = n / weight % 2 == 1

unfoldable pub step_diff : ℕ → ℕ → ℕ
step_diff step nibble =
    step / 8
    + (if has_bit 4 nibble then step else 0)
    + (if has_bit 2 nibble then step / 2 else 0)
    + (if has_bit 1 nibble then step / 4 else 0)

-- The predictor moves by the difference and is clamped.
unfoldable pub moved : ℕ → ℕ → ℕ → ℕ
moved predictor nibble diff =
    if has_bit 8 nibble then predictor - diff else at_most 65535 (predictor + diff)

unfoldable pub decode_nibble : ℕ → Channel → Channel × ℕ
decode_nibble nibble c =
    let predictor = moved c.predictor nibble (step_diff (step_at c.step_index) nibble) in
    (record { predictor = predictor; step_index = next_index c.step_index nibble }, predictor)

-- The three bits of the difference's size: each that is set takes its part of the step away.
unfoldable pub magnitude : ℕ → ℕ → ℕ
magnitude step diff =
    let high = leb step diff in
    let rest = if high then diff - step else diff in
    let middle = leb (step / 2) rest in
    let rest' = if middle then rest - step / 2 else rest in
    (if high then 4 else 0)
    + (if middle then 2 else 0)
    + (if leb (step / 2 / 2) rest' then 1 else 0)

unfoldable pub quantize : ℕ → ℕ → ℕ → ℕ
quantize step sample predictor =
    if ltb sample predictor
    then 8 + magnitude step (predictor - sample)
    else magnitude step (sample - predictor)

unfoldable pub encode_sample : ℕ → Channel → Channel × ℕ
encode_sample sample c =
    let step = step_at c.step_index in
    let nibble = quantize step sample c.predictor in
    (
      record {
        predictor = moved c.predictor nibble (step_diff step nibble);
        step_index = next_index c.step_index nibble;
      },
      nibble,
    )
