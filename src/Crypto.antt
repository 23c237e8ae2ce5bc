-- ===== src/Crypto.antt =====
-- ntied-crypto/src/lib.rs: signatures, and the shared secret of two ephemeral keys.
-- The p256, sha2 and aes-gcm crates are the record `Primitives`; key generation is an argument of
-- the operations that use it. `none` is an error of the crate that is called.
pub mod Agreement
use ntied.Common.{
  Bool, true, false, ◌++◌, [], ◌∷◌, Option, none, some, Result, ok, err, ltb, if◌then◌else◌,
}
use ntied.ByteIo.{Bytes, Error, crypto}

pub record Primitives : Type 1 where
  -- p256: points, DER and SEC1 encodings, ECDSA.
  pub PublicKey : Type 0
  pub SecretKey : Type 0
  pub public_of : SecretKey → PublicKey
  pub to_public_key_der : PublicKey → Option Bytes
  pub from_public_key_der : Bytes → Option PublicKey
  pub ecdsa_sign : SecretKey → Bytes → Bytes
  -- `none`: the signature does not parse.
  pub ecdsa_verify : PublicKey → Bytes → Bytes → Option Bool
  -- p256::ecdh.
  pub EphemeralSecret : Type 0
  pub to_sec1_bytes : EphemeralSecret → Bytes
  pub from_sec1_bytes : Bytes → Option PublicKey
  pub diffie_hellman : EphemeralSecret → PublicKey → Bytes
  -- sha2.
  pub sha256 : Bytes → Bytes
  -- Aes256Gcm under a key, with a nonce and a text.
  pub aes_encrypt : Bytes → Bytes → Bytes → Option Bytes
  pub aes_decrypt : Bytes → Bytes → Bytes → Option Bytes

abbrev or_crypto : {A : Type 0} → Option A → Result Error A
or_crypto none = err crypto
or_crypto (some a) = ok a

-- `<` on byte slices.
unfoldable pub lex_lt : Bytes → Bytes → Bool
lex_lt [] [] = false
lex_lt [] (y ∷ ys) = true
lex_lt (x ∷ xs) [] = false
lex_lt (x ∷ xs) (y ∷ ys) =
    let rest = lex_lt xs ys in if ltb x y then true else if ltb y x then false else rest

-- The cipher is given by its key.
pub record SharedSecret : Type 0 where
  pub key : Bytes

module _ (p : Primitives) where
  open p use {PublicKey, SecretKey, EphemeralSecret}

  -- `PublicKey::verify`.
  unfoldable pub verify : PublicKey → Bytes → Bytes → Result Error Bool
  verify key message signature = or_crypto (p.ecdsa_verify key message signature)

  unfoldable pub public_key_to_bytes : PublicKey → Result Error Bytes
  public_key_to_bytes key = or_crypto (p.to_public_key_der key)

  unfoldable pub public_key_from_bytes : Bytes → Result Error PublicKey
  public_key_from_bytes bytes = or_crypto (p.from_public_key_der bytes)

  unfoldable pub sign : SecretKey → Bytes → Bytes
  sign key message = p.ecdsa_sign key message

  unfoldable pub encrypt_nonce : SharedSecret → Bytes → Bytes → Result Error Bytes
  encrypt_nonce secret nonce plaintext = or_crypto (p.aes_encrypt secret.key nonce plaintext)

  unfoldable pub decrypt_nonce : SharedSecret → Bytes → Bytes → Result Error Bytes
  decrypt_nonce secret nonce ciphertext = or_crypto (p.aes_decrypt secret.key nonce ciphertext)

  unfoldable pub public_key_bytes : EphemeralSecret → Bytes
  public_key_bytes pair = p.to_sec1_bytes pair

  -- What goes into the hash: the point, then both keys in their order.
  hash_input : Bytes → Bytes → Bytes → Bytes
  hash_input point own other =
      if lex_lt own other then point ++ (own ++ other) else point ++ (other ++ own)

  unfoldable pub compute_shared_secret : EphemeralSecret → Bytes → Result Error SharedSecret
  unfolding public_key_bytes hash_input
  compute_shared_secret pair other = elim (p.from_sec1_bytes other) [
    | none ↦ err crypto
    | some other_public ↦ ok (record {
      key =
          p.sha256 (hash_input (p.diffie_hellman pair other_public) (public_key_bytes pair) other);
    })
  ]
