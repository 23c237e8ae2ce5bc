-- ===== src/Packet/Decrypted.antt =====
-- `DecryptedPacket` of ntied-transport/src/packet.rs: what an encrypted packet carries.
use ntied.Common.{ℕ, Result, [], ◌==◌, if◌then◌else◌}
use ntied.ByteIo.{
  Bytes, Error, unknown_message_type, Reader, Writer, ◌>>=◌, ◌>>◌, return, fail, read_u8, write_u8,
}
use ntied.Packet.Fields.{decode}
use ntied.Packet.Content.{DataPacket}
use ntied.Packet.Content
use ntied.Packet.Rotate.{RotatePacket}
use ntied.Packet.Rotate

pub data DecryptedPacket : Type 0 where
  heartbeat heartbeat_ack : DecryptedPacket
  content : DataPacket → DecryptedPacket
  rotate rotate_ack : RotatePacket → DecryptedPacket

unfoldable pub write_packet : DecryptedPacket → Writer
write_packet heartbeat = write_u8 1
write_packet heartbeat_ack = write_u8 2
write_packet (content v) = do write_u8 3; Content.serialize_to v
write_packet (rotate v) = do write_u8 4; Rotate.serialize_to v
write_packet (rotate_ack v) = do write_u8 5; Rotate.serialize_to v

-- `DecryptedPacket::serialize`.
unfoldable pub serialize : DecryptedPacket → Bytes
serialize packet = write_packet packet []

read_packet_of_type : ℕ → Reader DecryptedPacket
read_packet_of_type message_type =
    if message_type == 1
    then return heartbeat
    else if message_type == 2
    then return heartbeat_ack
    else if message_type == 3
    then (do v ← Content.deserialize_from; return (content v))
    else if message_type == 4
    then (do v ← Rotate.deserialize_from; return (rotate v))
    else if message_type == 5
    then (do v ← Rotate.deserialize_from; return (rotate_ack v))
    else fail unknown_message_type

unfoldable pub read_packet : Reader DecryptedPacket
unfolding read_packet_of_type
read_packet = do message_type ← read_u8; read_packet_of_type message_type

-- `DecryptedPacket::deserialize`.
unfoldable pub deserialize : Bytes → Result Error DecryptedPacket
deserialize bytes = decode read_packet bytes
