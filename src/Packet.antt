-- ===== src/Packet.antt =====
-- ntied-transport/src/packet.rs: the datagrams between two peers.
pub mod Epoch
pub mod Fields
pub mod Handshake
pub mod HandshakeAck
pub mod Rotate
pub mod Content
pub mod Decrypted
pub mod Encrypted
pub mod RoundTrip
use ntied.Common.{ℕ, ◌+◌, ◌-◌, ◌%◌, Result, ok, err, [], ltb, ◌==◌, if◌then◌else◌}
use ntied.ByteIo.{
  Bytes, Error, incorrect_packet_type, unknown_message_type, Reader, Writer, ◌>>=◌, ◌>>◌, return,
  fail, read_u8, read_u32, read_bytes, read_array, write_u8, write_u32, write_bytes, write_array,
}
use Fields.{decode}
use Epoch.{EncryptionEpoch, reserved, from_u8}
use Handshake.{HandshakePacket}
use Handshake
use HandshakeAck.{HandshakeAckPacket}
use HandshakeAck
use Encrypted.{EncryptedPacket}
use Encrypted

pub data Packet : Type 0 where
  handshake : HandshakePacket → Packet
  handshake_ack : HandshakeAckPacket → Packet
  encrypted : EncryptedPacket → Packet

unfoldable pub write_packet : Packet → Writer
write_packet (handshake v) = do write_u8 1; Handshake.serialize_to v
write_packet (handshake_ack v) = do write_u8 2; HandshakeAck.serialize_to v
write_packet (encrypted v) = Encrypted.serialize_to v

-- `Packet::serialize`.
unfoldable pub serialize : Packet → Bytes
serialize packet = write_packet packet []

with_epoch : Result Error EncryptionEpoch → Reader Packet
with_epoch (err e) = fail e
with_epoch (ok epoch) = do v ← Encrypted.deserialize_from epoch; return (encrypted v)

read_packet_of_type : ℕ → Reader Packet
unfolding with_epoch
read_packet_of_type packet_type =
    if packet_type == 1
    then (do v ← Handshake.deserialize_from; return (handshake v))
    else if packet_type == 2
    then (do v ← HandshakeAck.deserialize_from; return (handshake_ack v))
    else if ltb packet_type reserved
    then fail incorrect_packet_type
    else with_epoch (from_u8 (packet_type - reserved))

unfoldable pub read_packet : Reader Packet
unfolding read_packet_of_type
read_packet = do packet_type ← read_u8; read_packet_of_type packet_type

-- `Packet::deserialize`.
unfoldable pub deserialize : Bytes → Result Error Packet
deserialize bytes = decode read_packet bytes
