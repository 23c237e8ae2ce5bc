-- ===== src/Packet/Content.antt =====
-- `DataPacket` of ntied-transport/src/packet.rs.
use ntied.ByteIo.{Bytes, Reader, Writer, ◌>>=◌, return, read_bytes, write_bytes}

pub record DataPacket : Type 0 where
  pub content : Bytes

unfoldable pub serialize_to : DataPacket → Writer
serialize_to v = write_bytes v.content

unfoldable pub deserialize_from : Reader DataPacket
deserialize_from = do bytes ← read_bytes; return (record { content = bytes })
