-- ===== src/ByteIo/Utf8.antt =====
-- The well-formed UTF-8 sequences that `String::from_utf8` accepts (Unicode, table 3-7).
use ntied.Common.{
  ℕ, zero, suc, Bool, true, false, ◌&&◌, Option, none, some, List, [], ◌∷◌, leb, ltb, ◌==◌,
  if◌then◌else◌,
}

-- How many bytes follow a first byte, and the range of the next one.
leading : ℕ → Option (ℕ × ℕ × ℕ)
leading a =
    if ltb a 0x80
    then some (0, 0, 0)
    else if ltb a 0xc2
    then none
    else if ltb a 0xe0
    then some (1, 0x80, 0xbf)
    else if a == 0xe0
    then some (2, 0xa0, 0xbf)
    else if a == 0xed
    then some (2, 0x80, 0x9f)
    else if ltb a 0xf0
    then some (2, 0x80, 0xbf)
    else if a == 0xf0
    then some (3, 0x90, 0xbf)
    else if ltb a 0xf4
    then some (3, 0x80, 0xbf)
    else if a == 0xf4
    then some (3, 0x80, 0x8f)
    else none

-- `n` more bytes belong to the current character, the next of them between `lo` and `hi`.
continues : ℕ → ℕ → ℕ → List ℕ → Bool
unfolding leading
continues zero lo hi [] = true
continues (suc n) lo hi [] = false
continues zero lo hi (a ∷ rest) = elim (leading a) [
  | none ↦ false
  | some (n, lo, hi) ↦ continues n lo hi rest
]
continues (suc n) lo hi (a ∷ rest) = leb lo a && leb a hi && continues n 0x80 0xbf rest

unfoldable pub is_utf8 : List ℕ → Bool
unfolding continues
is_utf8 text = continues 0 0 0 text
