-- ===== src/Packet/Rotate.antt =====
-- `RotatePacket` of ntied-transport/src/packet.rs.
use ntied.ByteIo.{Bytes, Reader, Writer, ◌>>=◌, ◌>>◌, return, read_bytes, write_bytes}

pub record RotatePacket : Type 0 where
  pub ephemeral_public_key : Bytes
  pub signature : Bytes

unfoldable pub serialize_to : RotatePacket → Writer
serialize_to v = do write_bytes v.ephemeral_public_key; write_bytes v.signature

unfoldable pub deserialize_from : Reader RotatePacket
deserialize_from = do
  ephemeral_public_key ← read_bytes
  signature ← read_bytes
  return (record { ephemeral_public_key = ephemeral_public_key; signature = signature })
