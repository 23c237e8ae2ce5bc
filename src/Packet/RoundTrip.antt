-- ===== src/Packet/RoundTrip.antt =====
-- Every packet that fits the format is read back as it was written.
use ntied.Common.{◌+◌, ◌%◌, ◌≡◌, refl, ◌++◌, ok, length, arith}
use ntied.ByteIo.{Bytes, ◌>>◌, return, write_u32, write_bytes, write_array}
use ntied.ByteIo.Trip.{Trip, Trip-bind, Trip-last}
use ntied.ByteIo.Fields.{IsU32, IsShort, Trip-u8, Trip-u32, Trip-array, Trip-bytes}
use ntied.Address.{IsAddress}
use ntied.Packet.Fields.{Trip-address, decode-Trip}
use ntied.Packet.Epoch.{as_u8, reserved, IsEpoch, from_u8}
use ntied.Packet.Handshake.{HandshakePacket}
use ntied.Packet.Handshake
use ntied.Packet.HandshakeAck.{HandshakeAckPacket}
use ntied.Packet.HandshakeAck
use ntied.Packet.Rotate.{RotatePacket}
use ntied.Packet.Rotate
use ntied.Packet.Content.{DataPacket}
use ntied.Packet.Content
use ntied.Packet.Encrypted.{EncryptedPacket}
use ntied.Packet.Encrypted
use ntied.Packet.Decrypted.{DecryptedPacket, heartbeat, heartbeat_ack, content, rotate, rotate_ack}
use ntied.Packet.Decrypted
use ntied.Packet.{
  read_packet_of_type, with_epoch, Packet, handshake, handshake_ack, encrypted, write_packet,
  read_packet, serialize, deserialize,
}

pub record IsHandshake (v : HandshakePacket) : Type 0 where
  pub source_id : IsU32 v.source_id
  pub peer_address : IsAddress v.peer_address
  pub address : IsAddress v.address
  pub public_key : IsShort v.public_key
  pub ephemeral_public_key : IsShort v.ephemeral_public_key
  pub signature : IsShort v.signature

pub record IsHandshakeAck (v : HandshakeAckPacket) : Type 0 where
  pub target_id : IsU32 v.target_id
  pub source_id : IsU32 v.source_id
  pub peer_address : IsAddress v.peer_address
  pub address : IsAddress v.address
  pub public_key : IsShort v.public_key
  pub ephemeral_public_key : IsShort v.ephemeral_public_key
  pub signature : IsShort v.signature

pub record IsEncrypted (v : EncryptedPacket) : Type 0 where
  pub target_id : IsU32 v.target_id
  pub epoch : IsEpoch v.epoch
  pub payload : IsShort v.payload
  pub nonce : length v.nonce ≡ 12

pub record IsRotate (v : RotatePacket) : Type 0 where
  pub ephemeral_public_key : IsShort v.ephemeral_public_key
  pub signature : IsShort v.signature

-- The values of the Rust types whose byte strings the 16-bit length prefixes can count.
abbrev pub Fits : Packet → Type 0
Fits (handshake v) = IsHandshake v
Fits (handshake_ack v) = IsHandshakeAck v
Fits (encrypted v) = IsEncrypted v

Trip-handshake :
    (v : HandshakePacket)
    → IsHandshake v
    → Trip (Handshake.serialize_to v) Handshake.deserialize_from v
unfolding Handshake.serialize_to Handshake.deserialize_from return
Trip-handshake v h = Trip-bind _ (Trip-u32 v.source_id h.source_id) (
    Trip-bind _ (Trip-address v.peer_address h.peer_address) (
      Trip-bind _ (Trip-address v.address h.address) (
        Trip-bind _ (Trip-bytes v.public_key h.public_key) (
          Trip-bind _ (Trip-bytes v.ephemeral_public_key h.ephemeral_public_key)
            (Trip-last _ (Trip-bytes v.signature h.signature) (λ rest. refl))))))

Trip-handshake_ack :
    (v : HandshakeAckPacket)
    → IsHandshakeAck v
    → Trip (HandshakeAck.serialize_to v) HandshakeAck.deserialize_from v
unfolding HandshakeAck.serialize_to HandshakeAck.deserialize_from return
Trip-handshake_ack v h = Trip-bind _ (Trip-u32 v.target_id h.target_id) (
    Trip-bind _ (Trip-u32 v.source_id h.source_id) (
      Trip-bind _ (Trip-address v.peer_address h.peer_address) (
        Trip-bind _ (Trip-address v.address h.address) (
          Trip-bind _ (Trip-bytes v.public_key h.public_key) (
            Trip-bind _ (Trip-bytes v.ephemeral_public_key h.ephemeral_public_key)
              (Trip-last _ (Trip-bytes v.signature h.signature) (λ rest. refl)))))))

Trip-rotate :
    (v : RotatePacket) → IsRotate v → Trip (Rotate.serialize_to v) Rotate.deserialize_from v
unfolding Rotate.serialize_to Rotate.deserialize_from return
Trip-rotate v h =
    Trip-bind _ (Trip-bytes v.ephemeral_public_key h.ephemeral_public_key)
      (Trip-last _ (Trip-bytes v.signature h.signature) (λ rest. refl))

Trip-content :
    (v : DataPacket) → IsShort v.content → Trip (Content.serialize_to v) Content.deserialize_from v
unfolding Content.serialize_to Content.deserialize_from return
Trip-content v h = Trip-last _ (Trip-bytes v.content h) (λ rest. refl)

-- The fields behind the type byte.
Trip-encrypted :
    (v : EncryptedPacket)
    → IsEncrypted v
    → Trip
        (do write_u32 v.target_id; write_bytes v.payload; write_array v.nonce)
        (Encrypted.deserialize_from v.epoch)
        v
unfolding Encrypted.deserialize_from return
Trip-encrypted v h = Trip-bind _ (Trip-u32 v.target_id h.target_id) (
    Trip-bind _ (Trip-bytes v.payload h.payload)
      (Trip-last _ (Trip-array v.nonce 12 h.nonce) (λ rest. refl)))

-- The type byte of an encrypted packet is no other packet's, and gives the epoch back.
type_byte :
    (v : EncryptedPacket)
    → IsEpoch v.epoch
    → read_packet_of_type ((as_u8 v.epoch + reserved) % 256) ≡ with_epoch (ok v.epoch)
unfolding read_packet_of_type from_u8 as_u8
type_byte v h = ground arith

Trip-packet : (v : Packet) → Fits v → Trip (write_packet v) read_packet v
unfolding write_packet read_packet
Trip-packet (handshake v) h =
    Trip-bind _ (Trip-u8 1) (Trip-last _ (Trip-handshake v h) (λ rest. unfold return in refl))
Trip-packet (handshake_ack v) h =
    Trip-bind _ (Trip-u8 2) (Trip-last _ (Trip-handshake_ack v h) (λ rest. unfold return in refl))
Trip-packet (encrypted v) h =
    unfold Encrypted.serialize_to in
    Trip-bind _ (Trip-u8 ((as_u8 v.epoch + reserved) % 256))
      (rw (type_byte v h.epoch) (Trip-last _ (Trip-encrypted v h) (λ rest. unfold return in refl)))

-- `deserialize` gives back every packet that `serialize` was given and the format can hold, also
-- where more bytes follow it.
pub deserialize-serialize :
    (v : Packet) (rest : Bytes) → Fits v → deserialize (serialize v ++ rest) ≡ ok v
unfolding deserialize serialize
deserialize-serialize v rest h = decode-Trip (Trip-packet v h) rest

-- The messages that an encrypted packet can carry.
abbrev pub DecryptedFits : DecryptedPacket → Type 0
DecryptedFits heartbeat = Unit
DecryptedFits heartbeat_ack = Unit
DecryptedFits (content v) = IsShort v.content
DecryptedFits (rotate v) = IsRotate v
DecryptedFits (rotate_ack v) = IsRotate v

Trip-decrypted :
    (v : DecryptedPacket)
    → DecryptedFits v
    → Trip (Decrypted.write_packet v) Decrypted.read_packet v
unfolding Decrypted.write_packet Decrypted.read_packet
Trip-decrypted heartbeat h = Trip-last _ (Trip-u8 1) (λ rest. unfold return in refl)
Trip-decrypted heartbeat_ack h = Trip-last _ (Trip-u8 2) (λ rest. unfold return in refl)
Trip-decrypted (content v) h =
    Trip-bind _ (Trip-u8 3) (Trip-last _ (Trip-content v h) (λ rest. unfold return in refl))
Trip-decrypted (rotate v) h =
    Trip-bind _ (Trip-u8 4) (Trip-last _ (Trip-rotate v h) (λ rest. unfold return in refl))
Trip-decrypted (rotate_ack v) h =
    Trip-bind _ (Trip-u8 5) (Trip-last _ (Trip-rotate v h) (λ rest. unfold return in refl))

-- The plaintext of a message that the format can hold is read back as that message, also where
-- more bytes follow it.
pub decrypted-deserialize-serialize :
    (v : DecryptedPacket) (rest : Bytes)
    → DecryptedFits v
    → Decrypted.deserialize (Decrypted.serialize v ++ rest) ≡ ok v
unfolding Decrypted.deserialize Decrypted.serialize
decrypted-deserialize-serialize v rest h = decode-Trip (Trip-decrypted v h) rest
