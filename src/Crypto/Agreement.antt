-- ===== src/Crypto/Agreement.antt =====
-- Both ends of a key exchange derive one key.
use ntied.Common.{◌≡◌, refl, [], ◌∷◌, some, true, false, ok, arith}
use ntied.ByteIo.{Bytes}
use ntied.Crypto.{
  SharedSecret, Primitives, lex_lt, hash_input, public_key_bytes, compute_shared_secret,
}

-- Of two byte strings that are not below one another, each is the other.
lex_lt_antisymm : (xs ys : Bytes) → lex_lt xs ys ≡ false → lex_lt ys xs ≡ false → xs ≡ ys
unfolding lex_lt
lex_lt_antisymm [] [] h k = refl
lex_lt_antisymm [] (y ∷ ys) h k = cc
lex_lt_antisymm (x ∷ xs) [] h k = cc
lex_lt_antisymm (x ∷ xs) (y ∷ ys) h k = ground (arith, lex_lt_antisymm xs ys)

lex_lt_asymm : (xs ys : Bytes) → lex_lt xs ys ≡ true → lex_lt ys xs ≡ false
unfolding lex_lt
lex_lt_asymm [] [] h = cc
lex_lt_asymm [] (y ∷ ys) h = refl
lex_lt_asymm (x ∷ xs) [] h = cc
lex_lt_asymm (x ∷ xs) (y ∷ ys) h = ground (arith, lex_lt_asymm xs ys)

module _ (p : Primitives) where
  open p use {EphemeralSecret, PublicKey}

  -- What p256 documents of ECDH: a SEC1 encoding decodes to the point of the secret, and the
  -- product of one secret with the other's point does not depend on the side.
  pub record DhLaws (point : EphemeralSecret → PublicKey) : Type 0 where
    pub decodes : (a : EphemeralSecret) → p.from_sec1_bytes (p.to_sec1_bytes a) ≡ some (point a)
    pub commutes :
        (a b : EphemeralSecret) → p.diffie_hellman a (point b) ≡ p.diffie_hellman b (point a)

  -- The order of the keys in the hash does not depend on the side.
  hash_input_comm :
      (point own other : Bytes) → hash_input p point own other ≡ hash_input p point other own
  unfolding hash_input
  hash_input_comm point own other =
      ground (arith, lex_lt_antisymm own other, lex_lt_asymm own other, lex_lt_asymm other own)

  -- Under the laws of ECDH, two parties that exchange their ephemeral public keys compute the same
  -- shared secret, and neither computation fails.
  pub compute_shared_secret-agree :
      (point : EphemeralSecret → PublicKey)
      → DhLaws point
      → (a b : EphemeralSecret)
      → (s : SharedSecret) × (compute_shared_secret p a (public_key_bytes p b) ≡ ok s)
        × (compute_shared_secret p b (public_key_bytes p a) ≡ ok s)
  unfolding compute_shared_secret public_key_bytes
  compute_shared_secret-agree point laws a b = (
    record {
      key =
          p.sha256
            (hash_input p (p.diffie_hellman a (point b)) (p.to_sec1_bytes a) (p.to_sec1_bytes b));
    },
    rw (laws.decodes b, compute_shared_secret),
    rw (
      laws.decodes a,
      compute_shared_secret,
      laws.commutes b a,
      hash_input_comm (p.diffie_hellman a (point b)) (p.to_sec1_bytes b) (p.to_sec1_bytes a),
    ),
  )
