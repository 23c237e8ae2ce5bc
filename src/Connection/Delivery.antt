-- ===== src/Connection/Delivery.antt =====
-- What one end sends, the other end receives, by way of the bytes of a datagram.
use ntied.Common.{
  ◌^◌, subst, ◌+◌, ℕ, ◌<◌, ◌≡◌, ◌≢◌, refl, ap, sym, ◌∙◌, [], ◌∷◌, ◌++◌, length, none, some, ok,
  arith,
}
use ntied.ByteIo.{Bytes, SocketAddr}
use ntied.ByteIo.Fields.{IsU32}
use ntied.Crypto.{Primitives, SharedSecret}
use ntied.Packet.Epoch.{IsEpoch, next, IsLive, next-ne}
use ntied.Packet.Decrypted.{content}
use ntied.Packet.Encrypted.{EncryptedPacket, decrypt}
use ntied.Packet.{deserialize, Packet, encrypted}
use ntied.Connection.State.{Identity, Entropy, Link, sending_key, current_key, transmit}
use ntied.Connection.Loop.{
  on_datagram, complete_rotation, open_packet, on_encrypted, on_packet, on_decrypted, on_content,
  send, send_under,
}
use ntied.Connection.Rotation.{rotated, complete_rotation-rotated, encrypt-epoch, send_next}
use ntied.Connection.Sealing.{
  AesLaws, decrypt-encrypt, transmit-datagram, sealed-deserialize, next-IsEpoch,
}
use mathlib.Core.Logic.{if_pos, if_neg}

module _ (p : Primitives) where
  -- What `recv` of the receiving end gets to see.
  abbrev pub received_data : ℕ → SocketAddr → Bytes → Link p → Link p
  received_data now from bytes link = record link {
    last_heartbeat = now;
    peer_addr = from;
    inbox = link.inbox ++ bytes ∷ [];
  }

  module _ (id : Identity p) (en : Entropy p) where
    -- A packet of the current epoch with data inside.
    open_data :
        (now : ℕ) (from : SocketAddr) (v : EncryptedPacket) (bytes : Bytes) (link : Link p)
        (secret : SharedSecret)
        → v.epoch ≡ link.crypto.epoch
        → link.crypto.shared_secret ≡ some secret
        → decrypt p v secret ≡ ok (content (record { content = bytes }))
        → length link.inbox < 4
        → open_packet p id en now from v link ≡ some (received_data now from bytes link)
    unfolding open_packet on_decrypted on_content
    open_data now from v bytes link secret same hs opened room =
        rw (if_pos _ same) (ground (arith, hs, opened))

    complete_rotation_same :
        (now : ℕ) (v : EncryptedPacket) (link : Link p)
        → v.epoch ≢ next link.crypto.epoch
        → complete_rotation p id en now v link ≡ some link
    unfolding complete_rotation
    complete_rotation_same now v link other = rw (if_neg _ other)

    -- The data of a packet under the current secret.
    receive_current :
        (now : ℕ) (from : SocketAddr) (v : EncryptedPacket) (bytes : Bytes) (link : Link p)
        (secret : SharedSecret)
        → IsLive link.crypto.epoch
        → v.epoch ≡ link.crypto.epoch
        → link.crypto.shared_secret ≡ some secret
        → decrypt p v secret ≡ ok (content (record { content = bytes }))
        → length link.inbox < 4
        → on_packet p id en now from (encrypted v) link ≡ some (received_data now from bytes link)
    unfolding on_packet on_encrypted
    receive_current now from v bytes link secret live same hs opened room =
        rw
          (
            complete_rotation_same now v link (λ e. next-ne link.crypto.epoch live (sym e ∙ same)),
            on_encrypted,
          )
          (open_data now from v bytes link secret same hs opened room)

    -- The data of a packet under the next one, which completes the rotation.
    receive_next :
        (now : ℕ) (from : SocketAddr) (v : EncryptedPacket) (bytes : Bytes) (link : Link p)
        (secret : SharedSecret) (keypair : p.EphemeralSecret)
        → v.epoch ≡ next link.crypto.epoch
        → link.crypto.next_shared_secret ≡ some secret
        → link.crypto.next_ephemeral_keypair ≡ some keypair
        → decrypt p v secret ≡ ok (content (record { content = bytes }))
        → length link.inbox < 4
        → on_packet p id en now from (encrypted v) link
          ≡ some (
              received_data now from bytes (record link {
                crypto = rotated p id en link.crypto keypair secret;
                rotate_reset = now;
              }))
    unfolding on_packet on_encrypted
    receive_next now from v bytes link secret keypair same hs hk opened room =
        rw (complete_rotation-rotated p id en now v link secret keypair same hs hk, on_encrypted)
          (open_data now from v bytes _ secret same refl opened room)

  send_current :
      (id : Identity p) (en : Entropy p) (bytes : Bytes) (link : Link p) (secret : SharedSecret)
      → link.crypto.shared_secret ≡ some secret
      → link.crypto.next_shared_secret ≡ none
      → send p id en bytes link
        ≡ transmit p id en link.peer_addr
            (content (record { content = bytes }))
            (link.crypto.epoch, secret)
            link
  unfolding send send_under sending_key current_key
  send_current id en bytes link secret hs hn = ground arith

  sent_by :
      (x y link : Link p) (d : SocketAddr × Bytes)
      → x ≡ y
      → x.datagrams ≡ link.datagrams ++ d ∷ []
      → y.datagrams ≡ link.datagrams ++ d ∷ []
  sent_by x y link d same e = ap (λ (l : Link p). l.datagrams) (sym same) ∙ e

  -- A datagram that is read back as a packet is handled as that packet.
  on_datagram-on_packet :
      (id : Identity p) (en : Entropy p) (now : ℕ) (from : SocketAddr) (datagram : Bytes)
      (packet : Packet) (link : Link p)
      → deserialize datagram ≡ ok packet
      → on_datagram p id en now from datagram link ≡ on_packet p id en now from packet link
  unfolding on_datagram
  on_datagram-on_packet id en now from datagram packet link e = rw (e, on_datagram)

  -- Given that aes-gcm opens what it sealed and adds 16 bytes to it, a sender with a 32-bit target id
  -- and four random bytes for its nonce, and two ends in one epoch of 1 to 127 with one secret and no
  -- next secret at the sender: data of at most 2 ^ 16 - 20 bytes whose datagram `send` handed to the
  -- socket is, when that datagram arrives, parsed and put into the inbox of the receiver, if fewer
  -- than four wait there. Nothing else changes but the time of the last sign of life and the address
  -- that the datagram came from.
  pub send-on_datagram :
      (alice bob : Identity p) (ea eb : Entropy p) (a b : Link p) (secret : SharedSecret)
      (bytes : Bytes) (to from : SocketAddr) (datagram : Bytes) (now : ℕ)
      → AesLaws p
      → IsU32 alice.target_id
      → length ea.random ≡ 4
      → length bytes + 19 < 2 ^ 16
      → a.crypto.epoch ≡ b.crypto.epoch
      → IsLive b.crypto.epoch
      → a.crypto.shared_secret ≡ some secret
      → b.crypto.shared_secret ≡ some secret
      → a.crypto.next_shared_secret ≡ none
      → length b.inbox < 4
      → (send p alice ea bytes a).datagrams ≡ a.datagrams ++ (to, datagram) ∷ []
      → on_datagram p bob eb now from datagram b ≡ some (received_data now from bytes b)
  send-on_datagram alice bob ea eb a b secret bytes to from datagram now laws small four short same
        live ha hb hn room e =
      let m = content (record { content = bytes }) in
      let (v, sealed, wire) =
        transmit-datagram p alice ea a.peer_addr to m a.crypto.epoch secret a datagram
          (sent_by _ _ a (to, datagram) (send_current alice ea bytes a secret ha hn) e) in
      let valid = subst IsEpoch (sym same) live.1 in
      on_datagram-on_packet bob eb now from datagram (encrypted v) b (
        ap deserialize (sym wire)
        ∙ sealed-deserialize p alice ea bytes a.crypto.epoch secret a v laws small valid four short
            sealed)
      ∙ receive_current bob eb now from v bytes b secret live
          (encrypt-epoch p alice ea _ m _ secret _ v sealed ∙ same) hb
          (decrypt-encrypt p _ m _ secret _ v laws (omega (arith, short)) sealed) room

  -- Given that aes-gcm opens what it sealed and adds 16 bytes to it, a sender with a 32-bit
  -- target id and four random bytes for its nonce, and two ends in one epoch that both hold the
  -- secret of the next one, the sender with a current secret too and the receiver with the key
  -- pair of the next one: `send` of data of at most 2 ^ 16 - 20 bytes seals under the next
  -- secret, and the datagram that it handed to the socket is parsed and completes the rotation
  -- at the receiver when it arrives, which takes the data if fewer than four wait in its inbox.
  pub send-on_datagram_next :
      (alice bob : Identity p) (ea eb : Entropy p) (a b : Link p) (current secret : SharedSecret)
      (keypair : p.EphemeralSecret) (bytes : Bytes) (to from : SocketAddr) (datagram : Bytes)
      (now : ℕ)
      → AesLaws p
      → IsU32 alice.target_id
      → length ea.random ≡ 4
      → length bytes + 19 < 2 ^ 16
      → a.crypto.epoch ≡ b.crypto.epoch
      → a.crypto.shared_secret ≡ some current
      → a.crypto.next_shared_secret ≡ some secret
      → b.crypto.next_shared_secret ≡ some secret
      → b.crypto.next_ephemeral_keypair ≡ some keypair
      → length b.inbox < 4
      → (send p alice ea bytes a).datagrams ≡ a.datagrams ++ (to, datagram) ∷ []
      → on_datagram p bob eb now from datagram b
        ≡ some (
            received_data now from bytes
              (record b { crypto = rotated p bob eb b.crypto keypair secret; rotate_reset = now }))
  send-on_datagram_next alice bob ea eb a b current secret keypair bytes to from datagram now laws
        small four short same hc ha hb hk room e =
      let m = content (record { content = bytes }) in
      let (v, sealed, wire) =
        transmit-datagram p alice ea a.peer_addr to m (next a.crypto.epoch) secret a datagram
          (sent_by _ _ a (to, datagram) (send_next p alice ea bytes a current secret hc ha) e) in
      on_datagram-on_packet bob eb now from datagram (encrypted v) b (
        ap deserialize (sym wire)
        ∙ sealed-deserialize p alice ea bytes (next a.crypto.epoch) secret a v laws small
            (next-IsEpoch a.crypto.epoch) four short sealed)
      ∙ receive_next bob eb now from v bytes b secret keypair
          (encrypt-epoch p alice ea _ m _ secret _ v sealed ∙ ap next same) hb hk
          (decrypt-encrypt p _ m _ secret _ v laws (omega (arith, short)) sealed) room
