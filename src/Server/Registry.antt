-- ===== src/Server/Registry.antt =====
-- The table of registered clients, a `HashMap<Address, ClientInfo>`.
-- A hash map has no order that a program may rely on, so the search of `values_mut()` is given by
-- which of the matching clients it meets first (`Iteration`).
use ntied.Common.{
  All, subst, Bool-cases, inl, inr, ℕ, ◌-◌, ◌≡◌, ◌≢◌, refl, Option, none, some, List, [], ◌∷◌, ltb,
  arith, if◌then◌else◌,
}
use ntied.ByteIo.{Bytes, SocketAddr}
use ntied.Address.{Address, Address-discrete}
use mathlib.Core.Logic.{ite, if_pos, if_neg}
use mathlib.Core.Option

pub record ClientInfo : Type 0 where
  pub addr : SocketAddr
  pub public_key : Bytes
  pub address : Address
  -- Milliseconds of the monotonic clock.
  pub last_seen : ℕ

abbrev pub Clients : Type 0
Clients = List (Address × ClientInfo)

-- `clients.get`.
unfoldable pub lookup : Address → Clients → Option ClientInfo
lookup a [] = none
lookup a ((k, c) ∷ rest) = ite (Address-discrete k a) (some c) (lookup a rest)

-- `clients.insert`: the old entry of the key is replaced.
unfoldable pub insert : Address → ClientInfo → Clients → Clients
insert a c [] = (a, c) ∷ []
insert a c ((k, d) ∷ rest) = ite (Address-discrete k a) ((a, c) ∷ rest) ((k, d) ∷ insert a c rest)

-- `client.last_seen = now`, through the reference that the search returned.
unfoldable pub touch : Address → ℕ → Clients → Clients
touch a now [] = []
touch a now ((k, c) ∷ rest) =
    ite (Address-discrete k a) ((k, record c { last_seen = now }) ∷ rest)
      ((k, c) ∷ touch a now rest)

-- `clients.retain`, with the test of the cleanup task: `duration_since` stops at zero.
unfoldable pub retain_active : ℕ → ℕ → Clients → Clients
retain_active timeout now [] = []
retain_active timeout now ((k, c) ∷ rest) =
    let kept = retain_active timeout now rest in
    if ltb (now - c.last_seen) timeout then (k, c) ∷ kept else kept

-- `values_mut().find(|c| c.addr == addr)`: a client at the socket address, if there is one.
pub record Iteration : Type 0 where
  pub find : SocketAddr → Clients → Option Address
  pub find_some :
      (addr : SocketAddr) (cs : Clients) (a : Address)
      → find addr cs ≡ some a
      → (c : ClientInfo) × (lookup a cs ≡ some c) × (c.addr ≡ addr)
  pub find_none :
      (addr : SocketAddr) (cs : Clients) (a : Address) (c : ClientInfo)
      → find addr cs ≡ none
      → lookup a cs ≡ some c
      → c.addr ≢ addr

pub lookup-insert :
    (a k : Address) (c : ClientInfo) (cs : Clients)
    → lookup k (insert a c cs) ≡ ite (Address-discrete a k) (some c) (lookup k cs)
unfolding lookup insert
lookup-insert a k c [] = refl
lookup-insert a k c ((j, d) ∷ rest) = ground (arith, lookup-insert a k c rest)

abbrev pub seen_at : ℕ → ClientInfo → ClientInfo
seen_at now c = record c { last_seen = now }

pub lookup-touch :
    (a k : Address) (now : ℕ) (cs : Clients)
    → lookup k (touch a now cs)
      ≡ ite (Address-discrete a k) (Option.map (seen_at now) (lookup k cs)) (lookup k cs)
unfolding lookup touch
lookup-touch a k now [] = ground arith
lookup-touch a k now ((j, d) ∷ rest) = ground (arith, lookup-touch a k now rest)

-- No key twice, as in a hash map.
abbrev pub IsDistinct : Clients → Type 0
IsDistinct [] = Unit
IsDistinct ((k, c) ∷ rest) = (lookup k rest ≡ none) × IsDistinct rest

pub insert-IsDistinct :
    (a : Address) (c : ClientInfo) (cs : Clients) → IsDistinct cs → IsDistinct (insert a c cs)
unfolding insert lookup
insert-IsDistinct a c [] h = (refl, tt)
insert-IsDistinct a c ((k, d) ∷ rest) h =
    ground (arith, insert-IsDistinct a c rest h.1, lookup-insert a k c rest)

pub touch-IsDistinct :
    (a : Address) (now : ℕ) (cs : Clients) → IsDistinct cs → IsDistinct (touch a now cs)
unfolding touch
touch-IsDistinct a now [] h = tt
touch-IsDistinct a now ((k, d) ∷ rest) h =
    ground (arith, touch-IsDistinct a now rest h.1, lookup-touch a k now rest)

abbrev pub if_active : ℕ → ℕ → Option ClientInfo → Option ClientInfo
if_active timeout now none = none
if_active timeout now (some c) = if ltb (now - c.last_seen) timeout then some c else none

-- Of a registry without double keys, the cleanup keeps a client, unchanged, exactly if it was seen
-- within the timeout.
pub lookup-retain_active :
    (timeout now : ℕ) (k : Address) (cs : Clients)
    → IsDistinct cs
    → lookup k (retain_active timeout now cs) ≡ if_active timeout now (lookup k cs)
unfolding lookup retain_active
lookup-retain_active timeout now k [] h = refl
lookup-retain_active timeout now k ((j, d) ∷ rest) h =
    ground (arith, lookup-retain_active timeout now k rest h.1)

pub retain_active-IsDistinct :
    (timeout now : ℕ) (cs : Clients) → IsDistinct cs → IsDistinct (retain_active timeout now cs)
unfolding retain_active
retain_active-IsDistinct timeout now [] h = tt
retain_active-IsDistinct timeout now ((k, d) ∷ rest) h = ground (
  arith,
  retain_active-IsDistinct timeout now rest h.1,
  lookup-retain_active timeout now k rest h.1,
)

-- Properties of every entry.
module _ {ℓ} (P : Address × ClientInfo → Type ℓ) where
  pub lookup-All :
      (k : Address) (c : ClientInfo) (cs : Clients) → All P cs → lookup k cs ≡ some c → P (k, c)
  unfolding lookup
  lookup-All k c [] h e = cc
  lookup-All k c ((j, d) ∷ rest) h e = elim (Address-discrete j k) [
    | yes same ↦ subst (λ x. P (k, x)) (ground arith) (subst (λ x. P (x, d)) same h.0)
    | no other ↦ lookup-All k c rest h.1 (ground arith)
  ]

  pub insert-All :
      (k : Address) (c : ClientInfo) (cs : Clients) → P (k, c) → All P cs → All P (insert k c cs)
  unfolding insert
  insert-All k c [] e h = (e, tt)
  insert-All k c ((j, d) ∷ rest) e h = elim (Address-discrete j k) [
    | yes same ↦ rw (if_pos _ same) (e, h.1)
    | no other ↦ rw (if_neg _ other) (h.0, insert-All k c rest e h.1)
  ]

  pub touch-All :
      ((k : Address) (now : ℕ) (c : ClientInfo) → P (k, c) → P (k, seen_at now c))
      → (k : Address) (now : ℕ) (cs : Clients) → All P cs
      → All P (touch k now cs)
  unfolding touch
  touch-All keep k now [] h = tt
  touch-All keep k now ((j, d) ∷ rest) h = elim (Address-discrete j k) [
    | yes same ↦ rw (if_pos _ same) (keep j now d h.0, h.1)
    | no other ↦ rw (if_neg _ other) (h.0, touch-All keep k now rest h.1)
  ]

  pub retain_active-All :
      (timeout now : ℕ) (cs : Clients) → All P cs → All P (retain_active timeout now cs)
  unfolding retain_active
  retain_active-All timeout now [] h = tt
  retain_active-All timeout now ((j, d) ∷ rest) h =
      elim (Bool-cases (ltb (now - d.last_seen) timeout)) [
        | inl e ↦ rw e (h.0, retain_active-All timeout now rest h.1)
        | inr e ↦ rw e (retain_active-All timeout now rest h.1)
      ]
