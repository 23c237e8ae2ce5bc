-- ===== src/Transport.antt =====
-- ntied-transport/src/transport.rs: which connection a datagram is for, and the ids of connections.
-- The hash maps are functions. A channel is its queue, and whether its receiver is gone.
pub mod Routing
pub mod Ids
use ntied.Common.{
  ℕ, ◌+◌, ◌%◌, ◌^◌, Bool, true, false, List, [], ◌∷◌, ◌++◌, Option, none, some, ok, err, length,
  ltb, if◌then◌else◌,
}
use ntied.ByteIo.{Bytes, SocketAddr}
use ntied.Address.{Address, Address-discrete}
use ntied.Packet.{Packet, handshake, handshake_ack, encrypted, deserialize}
use ntied.Server.Handlers.{SocketAddr-discrete}
use mathlib.Core.Logic.{ite}
use mathlib.Core.Option
use native.Mathlib.Decide.{ℕ_discrete}

pub record Channel (A : Type 0) : Type 0 where
  pub closed : Bool
  pub queue : List A

-- `MAX_PACKETS` of the transport.
abbrev pub max_packets : ℕ
max_packets = 4

abbrev pub Inbound : Type 0
Inbound = SocketAddr × Packet

pub record Transport : Type 0 where
  pub source_counter : ℕ
  pub raw_connections : SocketAddr → Option (Channel Bytes)
  pub connections : ℕ → Option (Channel Inbound)
  pub handshakes : Address → ℕ → Option ℕ

-- `try_send`: what does not fit, or has no receiver, is lost.
unfoldable pub try_send : {A : Type 0} → A → Channel A → Channel A
try_send a ch =
    if ch.closed
    then ch
    else if ltb (length ch.queue) max_packets
    then record ch { queue = ch.queue ++ a ∷ [] }
    else ch

unfoldable pub set_connection : ℕ → Option (Channel Inbound) → Transport → Transport
set_connection id ch s = record s { connections = λ j. ite (ℕ_discrete id j) ch (s.connections j) }

unfoldable pub set_handshake : Address → ℕ → Option ℕ → Transport → Transport
set_handshake address source id s = record s {
  handshakes = λ a n.
      ite (Address-discrete address a) (ite (ℕ_discrete source n) id (s.handshakes a n))
        (s.handshakes a n);
}

set_raw : SocketAddr → Option (Channel Bytes) → Transport → Transport
set_raw addr ch s = record s {
  raw_connections = λ a. ite (SocketAddr-discrete addr a) ch (s.raw_connections a);
}

-- The id of the connection that a packet is for.
unfoldable pub target_id : Transport → Packet → Option ℕ
target_id s (encrypted v) = some v.target_id
target_id s (handshake_ack v) = some v.target_id
target_id s (handshake v) = s.handshakes v.address v.source_id

unfoldable pub send_to : Inbound → Option ℕ → Transport → Transport
send_to d none s = s
send_to d (some id) s = elim (s.connections id) [
  | none ↦ s
  | some ch ↦ set_connection id (some (try_send d ch)) s
]

unfoldable pub route_packet : SocketAddr → Bytes → Transport → Transport
route_packet addr bytes s = elim (deserialize bytes) [
  | err _ ↦ s
  | ok packet ↦ send_to (addr, packet) (target_id s packet) s
]

-- One turn of `main_loop`: a datagram goes to the raw connection of its address, if there is one.
unfoldable pub route : SocketAddr → Bytes → Transport → Transport
unfolding set_raw
route addr bytes s = elim (s.raw_connections addr) [
  | some ch ↦ set_raw addr (some (try_send bytes ch)) s
  | none ↦ route_packet addr bytes s
]

-- `fetch_add` and the new entry; `none` where the id is in use.
unfoldable pub allocate : Transport → Transport × Option ℕ
allocate s =
    let id = s.source_counter in
    let s' = record s { source_counter = (s.source_counter + 1) % 2 ^ 32 } in
    elim (s.connections id) [
      | some _ ↦ (s', none)
      | none ↦ (set_connection id (some (record { closed = false; queue = [] })) s', some id)
    ]

-- `accept` up to the handshake: an id for the peer's address and source id.
unfoldable pub begin_accept : Address → ℕ → Transport → Transport × Option ℕ
begin_accept address target s =
    let (s', new) = allocate s in
    elim new [
      | none ↦ (s', none)
      | some id ↦ elim (s'.handshakes address target) [
        | some _ ↦ (set_connection id none s', none)
        | none ↦ (set_handshake address target (some id) s', some id)
      ]
    ]

-- `accept` after the handshake, by its success.
unfoldable pub end_accept : Address → ℕ → ℕ → Bool → Transport → Transport
end_accept address target id established s =
    let s' = set_handshake address target none s in
    if established then s' else set_connection id none s'

-- A failed `connect`, and the drop of a connection.
unfoldable pub release : ℕ → Transport → Transport
release id s = set_connection id none s
