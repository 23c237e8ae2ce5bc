-- ===== src/Packet/Encrypted.antt =====
-- `EncryptedPacket` of ntied-transport/src/packet.rs.
use ntied.Common.{ℕ, ◌+◌, ◌%◌, Result, ok, err}
use ntied.ByteIo.{
  Bytes, Error, Reader, Writer, ◌>>=◌, ◌>>◌, return, read_u32, read_bytes, read_array, write_u8,
  write_u32, write_bytes, write_array,
}
use ntied.Packet.Epoch.{EncryptionEpoch, reserved, as_u8}
use ntied.Packet.Decrypted.{DecryptedPacket}
use ntied.Packet.Decrypted
use ntied.Crypto.{Primitives, SharedSecret, encrypt_nonce, decrypt_nonce}

pub record EncryptedPacket : Type 0 where
  pub target_id : ℕ
  pub epoch : EncryptionEpoch
  pub payload : Bytes
  pub nonce : Bytes

-- The type byte carries the epoch, 128 above the types of the other packets.
unfoldable pub serialize_to : EncryptedPacket → Writer
serialize_to v = do
  write_u8 ((as_u8 v.epoch + reserved) % 256)
  write_u32 v.target_id
  write_bytes v.payload
  write_array v.nonce

unfoldable pub deserialize_from : EncryptionEpoch → Reader EncryptedPacket
deserialize_from epoch = do
  target_id ← read_u32
  payload ← read_bytes
  nonce ← read_array 12
  return (record { target_id = target_id; epoch = epoch; payload = payload; nonce = nonce })

module _ (p : Primitives) where
  unfoldable pub encrypt :
      ℕ → DecryptedPacket → EncryptionEpoch → SharedSecret → Bytes → Result Error EncryptedPacket
  encrypt target_id message epoch shared_secret nonce =
      elim (encrypt_nonce p shared_secret nonce (Decrypted.serialize message)) [
        | err e ↦ err e
        | ok payload ↦
            ok (record { target_id = target_id; epoch = epoch; payload = payload; nonce = nonce })
      ]

  unfoldable pub decrypt : EncryptedPacket → SharedSecret → Result Error DecryptedPacket
  decrypt v shared_secret = elim (decrypt_nonce p shared_secret v.nonce v.payload) [
    | err e ↦ err e
    | ok decrypted_payload ↦ Decrypted.deserialize decrypted_payload
  ]
