-- ===== src/Common/Map.antt =====
-- `BTreeMap` over numbers: an association list in the order of its keys.
use Prim.Native.Nat.{ℕ, suc, ◌≤◌, ◌<◌}
use mathlib.Core.Path.{◌≡◌, refl}
use mathlib.Core.List.{List, [], ◌∷◌}
use mathlib.Core.Option.{Option, none, some}
use native.Mathlib.Omega.{arith}
use ntied.Common.Tests.{ltb, ◌==◌, if◌then◌else◌}
use ntied.Common.Lists.{All}

module _ {V : Type 0} where
  unfoldable pub lookup : ℕ → List (ℕ × V) → Option V
  lookup k [] = none
  lookup k ((j, v) ∷ rest) = if j == k then some v else lookup k rest

  unfoldable pub insert : ℕ → V → List (ℕ × V) → List (ℕ × V)
  insert k v [] = (k, v) ∷ []
  insert k v ((j, w) ∷ rest) =
      if ltb k j
      then (k, v) ∷ (j, w) ∷ rest
      else if j == k
      then (k, v) ∷ rest
      else (j, w) ∷ insert k v rest

  unfoldable pub remove : ℕ → List (ℕ × V) → List (ℕ × V)
  remove k [] = []
  remove k ((j, v) ∷ rest) = if j == k then rest else (j, v) ∷ remove k rest

  unfoldable pub first : List (ℕ × V) → Option (ℕ × V)
  first [] = none
  first (e ∷ rest) = some e

  -- Keys rise from `lo` on, each once.
  abbrev pub IsSorted : ℕ → List (ℕ × V) → Type 0
  IsSorted lo [] = Unit
  IsSorted lo ((k, v) ∷ rest) = (lo ≤ k) × IsSorted (suc k) rest

module _ {V : Type 0} where
  pub IsSorted-mono : (lo hi : ℕ) (m : List (ℕ × V)) → lo ≤ hi → IsSorted hi m → IsSorted lo m
  IsSorted-mono lo hi [] h s = tt
  IsSorted-mono lo hi ((k, v) ∷ rest) h s = (omega arith, s.1)

  -- Below the first key there is nothing.
  pub lookup_below : (k lo : ℕ) (m : List (ℕ × V)) → IsSorted lo m → k < lo → lookup k m ≡ none
  unfolding lookup
  lookup_below k lo [] s h = refl
  lookup_below k lo ((j, v) ∷ rest) s h = ground (arith, lookup_below k (suc j) rest s.1)

  pub lookup-insert :
      (key k : ℕ) (new : V) (m : List (ℕ × V))
      → lookup k (insert key new m) ≡ (if key == k then some new else lookup k m)
  unfolding lookup insert
  lookup-insert key k new [] = refl
  lookup-insert key k new ((i, w) ∷ rest) = ground (arith, lookup-insert key k new rest)

  pub insert-IsSorted :
      (k lo : ℕ) (v : V) (m : List (ℕ × V)) → lo ≤ k → IsSorted lo m → IsSorted lo (insert k v m)
  unfolding insert
  insert-IsSorted k lo v [] h s = (h, tt)
  insert-IsSorted k lo v ((j, w) ∷ rest) h s = ground (arith, insert-IsSorted k (suc j) v rest)

  pub lookup-remove :
      (k j lo : ℕ) (m : List (ℕ × V))
      → IsSorted lo m
      → lookup j (remove k m) ≡ (if k == j then none else lookup j m)
  unfolding lookup remove
  lookup-remove k j lo [] s = ground arith
  lookup-remove k j lo ((i, w) ∷ rest) s =
      ground (arith, lookup-remove k j (suc i) rest s.1, lookup_below k (suc i) rest s.1)

  pub remove-IsSorted : (k lo : ℕ) (m : List (ℕ × V)) → IsSorted lo m → IsSorted lo (remove k m)
  unfolding remove
  remove-IsSorted k lo [] s = tt
  remove-IsSorted k lo ((j, w) ∷ rest) s =
      ground (arith, remove-IsSorted k (suc j) rest s.1, IsSorted-mono lo (suc j) rest)

  -- The first key is in the map, and the map starts there.
  pub first-IsSorted :
      (lo k : ℕ) (v : V) (m : List (ℕ × V))
      → IsSorted lo m
      → first m ≡ some (k, v)
      → (lookup k m ≡ some v) × IsSorted k m
  unfolding first lookup
  first-IsSorted lo k v [] s e = cc
  first-IsSorted lo k v ((j, w) ∷ rest) s e = ground arith

  pub first_lower :
      (lo k : ℕ) (v : V) (m : List (ℕ × V)) → IsSorted lo m → first m ≡ some (k, v) → lo ≤ k
  unfolding first
  first_lower lo k v [] s e = cc
  first_lower lo k v ((j, w) ∷ rest) s e = ground arith

  -- Without its first key a map starts above it.
  pub remove_first-IsSorted :
      (k : ℕ) (m : List (ℕ × V)) → IsSorted k m → IsSorted (suc k) (remove k m)
  unfolding remove
  remove_first-IsSorted k [] s = tt
  remove_first-IsSorted k ((j, w) ∷ rest) s =
      ground (arith, remove-IsSorted k (suc j) rest s.1, IsSorted-mono (suc k) (suc j) rest)

  pub insert-All :
      (P : ℕ × V → Type 0) (k : ℕ) (v : V) (m : List (ℕ × V))
      → P (k, v)
      → All P m
      → All P (insert k v m)
  unfolding insert
  insert-All P k v [] p h = (p, tt)
  insert-All P k v ((j, w) ∷ rest) p h = ground (arith, insert-All P k v rest p h.1)

  pub remove-All : (P : ℕ × V → Type 0) (k : ℕ) (m : List (ℕ × V)) → All P m → All P (remove k m)
  unfolding remove
  remove-All P k [] h = tt
  remove-All P k ((j, w) ∷ rest) h = ground (arith, remove-All P k rest h.1)
