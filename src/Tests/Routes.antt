-- ===== src/Tests/Routes.antt =====
-- A datagram is routed, and ids are handed out.
use ntied.Common.{◌≡◌, ℕ, List, [], ◌∷◌, replicate, refl, arith, some, none, true, false}
use ntied.Packet.Handshake.{HandshakePacket}
use ntied.Packet.Encrypted.{EncryptedPacket}
use ntied.Packet.HandshakeAck.{HandshakeAckPacket}
use ntied.Packet.{handshake, handshake_ack, encrypted, serialize}
use ntied.Transport.{Channel, Inbound, Transport, route, begin_accept, allocate}
use ntied.Transport.Routing.{Delivered, by_answer, route-serialize, begin_accept-route}
use ntied.Transport.Ids.{
  Event, connects, begins, ends, releases, datagram, run, start, run-allocate,
}
use ntied.Tests.Toy.{address_of, addr_of}

abbrev sealed : EncryptedPacket
sealed = record {
  target_id = 3;
  epoch = record { value = 1 };
  payload = 4 ∷ 5 ∷ [];
  nonce = replicate 12 0;
}

abbrev one_waiting : Channel Inbound
one_waiting = record { closed = false; queue = (addr_of 8 1, encrypted sealed) ∷ [] }

-- Every id has the same channel.
abbrev busy : Transport
busy = record {
  source_counter = 9;
  raw_connections = λ addr. none;
  connections = λ id. some one_waiting;
  handshakes = λ address id. none;
}

abbrev answer : HandshakeAckPacket
answer = record {
  target_id = 3;
  source_id = 4;
  peer_address = address_of 9;
  address = address_of 7;
  public_key = 7 ∷ [];
  ephemeral_public_key = 3 ∷ 200 ∷ [];
  signature = 7 ∷ 7 ∷ 7 ∷ [];
}

route-serialize_example :
    Delivered 3 one_waiting
      (addr_of 9 1, handshake_ack answer)
      busy
      (route (addr_of 9 1) (serialize (handshake_ack answer)) busy)
route-serialize_example =
    route-serialize (addr_of 9 1) (handshake_ack answer) 3 one_waiting busy
      (record {
        target_id = omega arith;
        source_id = omega arith;
        peer_address = refl;
        address = refl;
        public_key = omega arith;
        ephemeral_public_key = omega arith;
        signature = omega arith;
      })
      refl (by_answer answer) refl (record { alive = refl; room = omega arith })

abbrev hello : HandshakePacket
hello = record {
  source_id = 70000;
  peer_address = address_of 9;
  address = address_of 7;
  public_key = 7 ∷ [];
  ephemeral_public_key = 3 ∷ 200 ∷ [];
  signature = 7 ∷ 7 ∷ 7 ∷ [];
}

abbrev idle : Transport
idle = start (λ addr. none)

begin_accept-route_example :
    ((begin_accept (address_of 7) 70000 idle).1 ≡ some 1)
    × Delivered 1
        (record { closed = false; queue = [] })
        (addr_of 9 1, handshake hello)
        (begin_accept (address_of 7) 70000 idle).0
        (route
          (addr_of 9 1)
          (serialize (handshake hello))
          (begin_accept (address_of 7) 70000 idle).0)
unfolding start
begin_accept-route_example =
    begin_accept-route (addr_of 9 1) hello idle
      (record {
        source_id = omega arith;
        peer_address = refl;
        address = refl;
        public_key = omega arith;
        ephemeral_public_key = omega arith;
        signature = omega arith;
      })
      refl refl refl

abbrev events : List Event
events =
    connects
    ∷ begins (address_of 7) 70000
    ∷ datagram (addr_of 9 1) (serialize (handshake hello))
    ∷ ends (address_of 7) 70000 2 true
    ∷ releases 1
    ∷ []

run-allocate_example :
    (id : ℕ) × ((run idle events).connections id ≡ none)
    × ((allocate (run idle events)).1 ≡ some id)
    × ((allocate (run idle events)).0.connections id ≡ some (record { closed = false; queue = [] }))
run-allocate_example = run-allocate (λ addr. none) events (omega arith)
