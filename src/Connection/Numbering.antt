-- ===== src/Connection/Numbering.antt =====
-- Packets numbered by the counters in their nonces.
use native.Mathlib.Nat.{pow-suc}
use ntied.Common.{
  get_or, drop, ℕ, zero, suc, ◌/◌, ◌^◌, ◌≤◌, ◌<◌, ◌≡◌, ◌≢◌, ap, sym, ◌∙◌, List, [], ◌∷◌, ◌++◌,
  arith, take, All,
}
use ntied.ByteIo.{Bytes, SocketAddr}
use ntied.Packet.Encrypted.{EncryptedPacket}
use ntied.Connection.State.{to_le_bytes}

pub to_le_bytes-injective :
    (n a b : ℕ) → a < 256 ^ n → b < 256 ^ n → to_le_bytes n a ≡ to_le_bytes n b → a ≡ b
unfolding to_le_bytes
to_le_bytes-injective zero a b ha hb e = omega arith
to_le_bytes-injective (suc n) a b ha hb e = omega (
  arith,
  ap (λ (l : Bytes). get_or l 0 0) e,
  to_le_bytes-injective n (a / 256) (b / 256) (omega (arith, pow-suc 256 n))
      (omega (arith, pow-suc 256 n)) (ap (drop 1) e),
)

abbrev pub Sent : Type 0
Sent = SocketAddr × EncryptedPacket

-- The counter that a packet's nonce begins with.
abbrev pub Carries : ℕ → Sent → Type 0
Carries k d = take 8 d.1.nonce ≡ to_le_bytes 8 k

-- The packets carry counters that rise along the list, from `lo` on and below `hi`.
abbrev pub Numbered : ℕ → ℕ → List Sent → Type 0
Numbered lo hi [] = lo ≤ hi
Numbered lo hi (d ∷ rest) = (k : ℕ) × (lo ≤ k) × Carries k d × Numbered (suc k) hi rest

pub Numbered-append :
    (lo hi : ℕ) (ds : List Sent) (d : Sent)
    → Carries hi d
    → Numbered lo hi ds
    → Numbered lo (suc hi) (ds ++ d ∷ [])
Numbered-append lo hi [] d c h = (hi, h, c, omega arith)
Numbered-append lo hi (e ∷ ds) d c (k, le, ck, rest) =
    (k, le, ck, Numbered-append (suc k) hi ds d c rest)

Numbered-le : (lo hi : ℕ) (ds : List Sent) → Numbered lo hi ds → lo ≤ hi
Numbered-le lo hi [] h = h
Numbered-le lo hi (d ∷ ds) (k, le, ck, rest) = omega (arith, Numbered-le (suc k) hi ds rest)

pub Numbered-mono :
    (lo hi hi' : ℕ) (ds : List Sent) → hi ≤ hi' → Numbered lo hi ds → Numbered lo hi' ds
Numbered-mono lo hi hi' [] le h = omega arith
Numbered-mono lo hi hi' (d ∷ ds) le (k, lk, ck, rest) =
    (k, lk, ck, Numbered-mono (suc k) hi hi' ds le rest)

-- Each packet has another nonce than all after it.
abbrev pub NoncesDiffer : List (SocketAddr × EncryptedPacket) → Type 0
NoncesDiffer [] = Unit
NoncesDiffer (d ∷ rest) = All (λ e. d.1.nonce ≢ e.1.nonce) rest × NoncesDiffer rest

Numbered-ne :
    (k lo hi : ℕ) (d : Sent) (ds : List Sent)
    → hi ≤ 2 ^ 64
    → k < lo
    → Carries k d
    → Numbered lo hi ds
    → All (λ e. d.1.nonce ≢ e.1.nonce) ds
Numbered-ne k lo hi d [] bound lt c h = tt
Numbered-ne k lo hi d (e ∷ ds) bound lt c (j, le, cj, rest) = (
  λ same. absurd (
      omega (
        arith,
        Numbered-le (suc j) hi ds rest,
        to_le_bytes-injective 8 k j (omega (arith, Numbered-le (suc j) hi ds rest))
            (omega (arith, Numbered-le (suc j) hi ds rest)) (sym c ∙ ap (take 8) same ∙ cj),
      )),
  Numbered-ne k (suc j) hi d ds bound (omega arith) c rest,
)

pub Numbered-NoncesDiffer :
    (lo hi : ℕ) (ds : List Sent) → hi ≤ 2 ^ 64 → Numbered lo hi ds → NoncesDiffer ds
Numbered-NoncesDiffer lo hi [] bound h = tt
Numbered-NoncesDiffer lo hi (d ∷ ds) bound (k, le, c, rest) = (
  Numbered-ne k (suc k) hi d ds bound (omega arith) c rest,
  Numbered-NoncesDiffer (suc k) hi ds bound rest,
)
