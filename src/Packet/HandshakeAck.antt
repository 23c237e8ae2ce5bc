-- ===== src/Packet/HandshakeAck.antt =====
-- `HandshakeAckPacket` of ntied-transport/src/packet.rs.
use ntied.Common.{ℕ}
use ntied.ByteIo.{
  Bytes, Reader, Writer, ◌>>=◌, ◌>>◌, return, read_u32, read_bytes, write_u32, write_bytes,
}
use ntied.Address.{Address}
use ntied.Packet.Fields.{write_address, read_address}

pub record HandshakeAckPacket : Type 0 where
  pub target_id : ℕ
  pub source_id : ℕ
  pub peer_address : Address
  pub address : Address
  pub public_key : Bytes
  pub ephemeral_public_key : Bytes
  pub signature : Bytes

unfoldable pub serialize_to : HandshakeAckPacket → Writer
serialize_to v = do
  write_u32 v.target_id
  write_u32 v.source_id
  write_address v.peer_address
  write_address v.address
  write_bytes v.public_key
  write_bytes v.ephemeral_public_key
  write_bytes v.signature

unfoldable pub deserialize_from : Reader HandshakeAckPacket
deserialize_from = do
  target_id ← read_u32
  source_id ← read_u32
  peer_address ← read_address
  address ← read_address
  public_key ← read_bytes
  ephemeral_public_key ← read_bytes
  signature ← read_bytes
  return (record {
    target_id = target_id;
    source_id = source_id;
    peer_address = peer_address;
    address = address;
    public_key = public_key;
    ephemeral_public_key = ephemeral_public_key;
    signature = signature;
  })
