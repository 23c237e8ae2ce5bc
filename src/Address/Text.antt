-- ===== src/Address/Text.antt =====
-- `Display` and `FromStr` of an address, over the base64 crate's URL_SAFE engine.
use ntied.Common.{◌≡◌, Result, ok, err, Option, none, some, length, ◌==◌, if◌then◌else◌, arith}
use ntied.ByteIo.{Bytes, Error, invalid_address_length, address_decoding}
use ntied.Address.{Address, address_len, from_bytes, as_bytes, IsAddress}

-- The engine, and what it documents: decoding takes encoding back.
pub record Base64 : Type 0 where
  pub encode : Bytes → Bytes
  pub decode : Bytes → Option Bytes
  pub decode-encode : (bytes : Bytes) → decode (encode bytes) ≡ some bytes

module _ (engine : Base64) where
  -- `Display::fmt`.
  unfoldable pub to_string : Address → Bytes
  unfolding as_bytes
  to_string address = engine.encode (as_bytes address)

  sized : Bytes → Result Error Address
  unfolding from_bytes
  sized bytes =
      if length bytes == address_len then ok (from_bytes bytes) else err invalid_address_length

  unfoldable pub from_str : Bytes → Result Error Address
  unfolding sized
  from_str text = elim (engine.decode text) [ none ↦ err address_decoding | some b ↦ sized b ]

  -- An address of 33 bytes is read back from its text.
  pub from_str-to_string :
      (address : Address) → IsAddress address → from_str (to_string address) ≡ ok address
  unfolding from_str to_string
  from_str-to_string address h = rw (engine.decode-encode address.bytes, from_str) (ground arith)

  -- A text that is accepted gives an address of 33 bytes.
  pub from_str-IsAddress :
      (text : Bytes) (address : Address) → from_str text ≡ ok address → IsAddress address
  unfolding from_str
  from_str-IsAddress text address e = ground arith
