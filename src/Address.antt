-- ===== src/Address.antt =====
-- ntied-transport/src/address.rs: a peer's address, 33 bytes: a version byte and the SHA-256 of
-- its public key. `Display` and `FromStr` are the base64 crate's, a parameter.
pub mod Text
use ntied.Common.{
  ℕ, zero, suc, ◌≡◌, refl, ap, List, [], ◌∷◌, Result, ok, err, Option, none, some, length, ◌==◌,
  if◌then◌else◌,
}
use ntied.ByteIo.{Bytes, Error, crypto, invalid_address_length, address_decoding}
use ntied.Crypto.{Primitives, public_key_to_bytes}
use native.Mathlib.Decide.{ℕ_discrete}

pub record Address : Type 0 where
  pub bytes : Bytes

-- `Address::LEN`.
abbrev pub address_len : ℕ
address_len = 33

unfoldable pub from_bytes : Bytes → Address
from_bytes hash = record { bytes = hash }

unfoldable pub as_bytes : Address → Bytes
as_bytes address = address.bytes

-- `TryFrom<&[u8]>`: the slice must have the length of the array.
unfoldable pub try_from : Bytes → Result Error Address
unfolding from_bytes
try_from hash =
    if length hash == address_len then ok (from_bytes hash) else err invalid_address_length

abbrev pub IsAddress : Address → Type 0
IsAddress address = length address.bytes ≡ address_len

unfoldable pub Address-discrete : Discrete Address
Address-discrete = hlevel ℕ_discrete

-- `ToAddress for PublicKey`. `copy_from_slice` wants the 32 bytes that SHA-256 has.
module _ (p : Primitives) where
  unfoldable pub to_address : p.PublicKey → Result Error Address
  to_address key = elim (public_key_to_bytes p key) [
    | err e ↦ err e
    | ok der ↦ ok (from_bytes (1 ∷ p.sha256 der))
  ]
