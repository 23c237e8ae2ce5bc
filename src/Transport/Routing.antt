-- ===== src/Transport/Routing.antt =====
-- Where packets end up.
use ntied.Common.{
  ◌+◌, ◌%◌, ◌^◌, ℕ, ◌<◌, ◌≡◌, ◌≢◌, refl, ap, ◌∙◌, sym, [], ◌∷◌, ◌++◌, append-nil, none, some, ok,
  false, length, arith,
}
use ntied.ByteIo.{SocketAddr}
use ntied.Address.{Address, Address-discrete}
use ntied.Packet.Handshake.{HandshakePacket}
use ntied.Packet.HandshakeAck.{HandshakeAckPacket}
use ntied.Packet.Encrypted.{EncryptedPacket}
use ntied.Packet.{Packet, handshake, handshake_ack, encrypted, serialize, deserialize}
use ntied.Packet.RoundTrip.{Fits, deserialize-serialize}
use ntied.Transport.{
  Channel, Inbound, Transport, try_send, set_connection, set_handshake, target_id, send_to, route,
  route_packet, allocate, begin_accept,
}
use mathlib.Core.Logic.{if_pos, if_neg}
use native.Mathlib.Decide.{ℕ_discrete}

-- A channel that takes one more packet.
pub record HasRoom (ch : Channel Inbound) : Type 0 where
  pub alive : ch.closed ≡ false
  pub room : length ch.queue < 4

-- What a delivery changes: the channel has one more packet at its end, and all other ones are the
-- same.
pub record Delivered (id : ℕ) (ch : Channel Inbound) (d : Inbound) (s s' : Transport) : Type 0 where
  pub appended : s'.connections id ≡ some (record ch { queue = ch.queue ++ d ∷ [] })
  pub others : (j : ℕ) → id ≢ j → s'.connections j ≡ s.connections j

send_to-Delivered :
    (d : Inbound) (id : ℕ) (ch : Channel Inbound) (s : Transport)
    → s.connections id ≡ some ch
    → HasRoom ch
    → Delivered id ch d s (send_to d (some id) s)
unfolding send_to set_connection try_send
send_to-Delivered d id ch s found r =
    rw (found, send_to)
      (record {
        appended = rw (if_pos (ℕ_discrete id id) refl) (ground (arith, r.alive, r.room));
        others = λ j other. rw (if_neg (ℕ_discrete id j) other);
      })

-- Whom a packet names: an encrypted packet and the answer to a handshake carry the id of their
-- receiver; a handshake carries its sender's address and id, for which `accept` has noted one.
pub data Names (s : Transport) : Packet → ℕ → Type 0 where
  by_encrypted : (v : EncryptedPacket) → Names s (encrypted v) v.target_id
  by_answer : (v : HandshakeAckPacket) → Names s (handshake_ack v) v.target_id
  by_handshake :
      (v : HandshakePacket) (id : ℕ)
      → s.handshakes v.address v.source_id ≡ some id
      → Names s (handshake v) id

Names-target_id :
    {s : Transport} {packet : Packet} {id : ℕ} → Names s packet id → target_id s packet ≡ some id
unfolding target_id
Names-target_id (by_encrypted v) = refl
Names-target_id (by_answer v) = refl
Names-target_id (by_handshake v id noted) = noted

-- A serialized packet that the format can hold, from an address without a raw connection, is put at
-- the end of the channel of the connection that it names, if that has room, and no other
-- connection's channel changes. An encrypted packet and the answer to a handshake name their target
-- id, a handshake the id that is noted for its sender's address and source id.
pub route-serialize :
    (addr : SocketAddr) (packet : Packet) (id : ℕ) (ch : Channel Inbound) (s : Transport)
    → Fits packet
    → s.raw_connections addr ≡ none
    → Names s packet id
    → s.connections id ≡ some ch
    → HasRoom ch
    → Delivered id ch (addr, packet) s (route addr (serialize packet) s)
unfolding route route_packet
route-serialize addr packet id ch s fits raw named found room =
    let parsed : deserialize (serialize packet) ≡ ok packet =
      ap deserialize (sym (append-nil (serialize packet))) ∙ deserialize-serialize packet [] fits in
    let target = Names-target_id named in
    rw (raw, route)
      (rw (parsed, route_packet) (rw target (send_to-Delivered (addr, packet) id ch s found room)))

abbrev pub empty_channel : Channel Inbound
empty_channel = record { closed = false; queue = [] }

-- The state after an id was found for a peer.
abbrev registered : Address → ℕ → Transport → Transport
registered address target s = set_handshake address target (some s.source_counter) (
    set_connection s.source_counter (some empty_channel)
      (record s { source_counter = (s.source_counter + 1) % 2 ^ 32 }))

pub allocate_free :
    (s : Transport)
    → s.connections s.source_counter ≡ none
    → allocate s ≡ (
      set_connection s.source_counter
          (some empty_channel)
          (record s { source_counter = (s.source_counter + 1) % 2 ^ 32 }),
      some s.source_counter,
    )
unfolding allocate
allocate_free s free = rw (free, allocate)

begin_accept_free :
    (address : Address) (target : ℕ) (s : Transport)
    → s.connections s.source_counter ≡ none
    → s.handshakes address target ≡ none
    → begin_accept address target s ≡ (registered address target s, some s.source_counter)
unfolding begin_accept set_connection
begin_accept_free address target s free new =
    let made = allocate_free s free in
    let kept : (allocate s).0.handshakes address target ≡ none = rw made new in
    rw (made, begin_accept, kept, made)

-- If the next id is free and the peer's source id has no handshake under way, `accept` takes that
-- id; then a handshake of that peer with that source id, if the format can hold it and it comes
-- from an address without a raw connection, is the first packet in the channel of the new
-- connection and in no other one.
pub begin_accept-route :
    (addr : SocketAddr) (v : HandshakePacket) (s : Transport)
    → Fits (handshake v)
    → s.raw_connections addr ≡ none
    → s.connections s.source_counter ≡ none
    → s.handshakes v.address v.source_id ≡ none
    → ((begin_accept v.address v.source_id s).1 ≡ some s.source_counter)
      × Delivered s.source_counter
          (record { closed = false; queue = [] })
          (addr, handshake v)
          (begin_accept v.address v.source_id s).0
          (route addr (serialize (handshake v)) (begin_accept v.address v.source_id s).0)
unfolding set_connection set_handshake
begin_accept-route addr v s fits raw free new =
    rw (begin_accept_free v.address v.source_id s free new) (
      refl,
      route-serialize addr (handshake v) s.source_counter empty_channel
          (registered v.address v.source_id s) fits raw
          (by_handshake v s.source_counter (
            rw (if_pos (Address-discrete v.address v.address) refl)
              (rw (if_pos (ℕ_discrete v.source_id v.source_id) refl))))
          (rw (if_pos (ℕ_discrete s.source_counter s.source_counter) refl))
          (record { alive = refl; room = omega arith }),
    )
