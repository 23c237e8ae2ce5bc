-- ===== src/Tests/Setup.antt =====
-- Two peers set up a connection, an impostor takes one over, and data is delivered.
use ntied.Common.{ap, get_or, ◌≡◌, ◌≢◌, ℕ, [], ◌∷◌, ◌++◌, replicate, refl, arith, some, ok}
use ntied.Crypto.{SharedSecret, public_key_bytes, compute_shared_secret}
use ntied.Address.{Address, to_address}
use ntied.Packet.Handshake.{HandshakePacket}
use ntied.Packet.HandshakeAck.{HandshakeAckPacket}
use ntied.Packet.Decrypted.{content}
use ntied.Packet.Decrypted
use ntied.Packet.Encrypted.{EncryptedPacket}
use ntied.Packet.{handshake, handshake_ack, encrypted, serialize}
use ntied.Connection.State.{Identity, Entropy, Link}
use ntied.Connection.Loop.{on_datagram}
use ntied.Connection.Rotation.{rotated}
use ntied.Connection.Handshake.{Local, tick, arrived, connect, accept, make_handshake_ack}
use ntied.Connection.Admission.{ready, secured}
use ntied.Connection.Setup.{connect-accept, connect_impostor}
use ntied.Connection.Delivery.{received_data, send-on_datagram, send-on_datagram_next}
use ntied.Tests.Toy.{toy, toy-DhLaws, toy-SignLaws, toy-AesLaws, address_of, addr_of}

abbrev side : ℕ → Local toy
side k = record { private_key = k; address = address_of k }

connect-accept_example :
    (v : HandshakePacket) × (w : HandshakeAckPacket) × (s : SharedSecret) × (connect toy
        (side 7)
        1
        (addr_of 9 1)
        (address_of 9)
        9
        3
        (replicate 2 tick ++ arrived 50 (addr_of 9 1) (handshake_ack w) ∷ [])
      ≡ (ready toy (side 7) 2 9 50 (addr_of 9 1) 3 s, replicate 2 (addr_of 9 1, handshake v)))
    × (accept toy
          (side 9)
          2
          1
          (addr_of 7 1)
          (address_of 7)
          7
          5
          (replicate 1 tick ++ arrived 60 (addr_of 7 1) (handshake v) ∷ [])
        ≡ (ready toy (side 9) 1 7 60 (addr_of 7 1) 5 s, replicate 1 (addr_of 7 1, handshake_ack w)))
unfolding to_address ntied.Crypto.public_key_to_bytes ntied.Address.from_bytes
connect-accept_example =
    connect-accept toy (λ e. e) toy-SignLaws toy-DhLaws (side 7) (side 9) 1 2 2 1 50 60
      (addr_of 7 1) (addr_of 9 1) 7 9 3 5 refl refl (omega arith) (omega arith)

other_address : address_of 66 ≢ address_of 9
other_address e = omega (arith, ap (λ (a : Address). get_or a.bytes 1 0) e)

-- The peer 9 is asked for, and 66 answers.
connect_impostor_example :
    (w : HandshakeAckPacket) × (s : SharedSecret) × (make_handshake_ack toy
        (side 66)
        1
        4
        (address_of 7)
        5
      ≡ some w)
    × (compute_shared_secret toy 5 (public_key_bytes toy 3) ≡ ok s)
    × ((connect toy
          (side 7)
          1
          (addr_of 9 1)
          (address_of 9)
          9
          3
          (replicate 2 tick ++ arrived 50 (addr_of 66 1) (handshake_ack w) ∷ [])).0
        ≡ ready toy (side 7) 4 9 50 (addr_of 66 1) 3 s)
unfolding to_address ntied.Crypto.public_key_to_bytes ntied.Address.from_bytes
connect_impostor_example =
    connect_impostor toy (λ e. e) toy-SignLaws toy-DhLaws (side 7) (side 66) (address_of 9) 9 1 4 2
      50 (addr_of 9 1) (addr_of 66 1) 3 5 refl refl other_address (λ e. omega (arith, e))
      (omega arith)

abbrev key_of : ℕ → SharedSecret
key_of k = record { key = k ∷ [] }

abbrev id : ℕ → Identity toy
id k = record { target_id = 1; private_key = k; peer_public_key = 50 }

abbrev entropy : Entropy toy
entropy = record { keypair = 6; random = 1 ∷ 1 ∷ 1 ∷ 1 ∷ [] }

abbrev end_of : ℕ → Link toy
end_of keypair = record {
  crypto = secured toy keypair (key_of 15);
  peer_addr = addr_of 9 1;
  last_heartbeat = 0;
  rotate_reset = 0;
  inbox = [];
  sent = [];
  datagrams = [];
}

abbrev rotating : ℕ → Link toy
rotating keypair = record (end_of keypair) {
  crypto = record {
    epoch = record { value = 1 };
    ephemeral_keypair = keypair;
    shared_secret = some (key_of 15);
    next_ephemeral_keypair = some 6;
    next_shared_secret = some (key_of 21);
    nonce_counter = 0;
  };
}

abbrev letter : ℕ → ℕ → EncryptedPacket
letter epoch key = record {
  target_id = 1;
  epoch = record { value = epoch };
  payload = replicate 16 key ++ Decrypted.serialize (content (record { content = 9 ∷ [] }));
  nonce = replicate 8 0 ++ replicate 4 1;
}

send-on_datagram_example :
    on_datagram toy
      (id 50)
      entropy
      10
      (addr_of 7 1)
      (serialize (encrypted (letter 1 15)))
      (end_of 5)
    ≡ some (received_data toy 10 (addr_of 7 1) (9 ∷ []) (end_of 5))
unfolding ntied.Connection.Loop.send ntied.Connection.Loop.send_under
    ntied.Connection.State.sending_key ntied.Connection.State.current_key
    ntied.Connection.State.transmit ntied.Packet.Encrypted.encrypt ntied.Crypto.encrypt_nonce
    ntied.Connection.State.generate_nonce ntied.Connection.State.to_le_bytes
send-on_datagram_example =
    send-on_datagram toy (id 40) (id 50) entropy entropy (end_of 3) (end_of 5) (key_of 15) (9 ∷ [])
      (addr_of 9 1) (addr_of 7 1) (serialize (encrypted (letter 1 15))) 10 toy-AesLaws (omega arith)
      refl (omega arith) refl (omega arith, omega arith) refl refl refl (omega arith) refl

send-on_datagram_next_example :
    on_datagram toy
      (id 50)
      entropy
      10
      (addr_of 7 1)
      (serialize (encrypted (letter 2 21)))
      (rotating 5)
    ≡ some (
        received_data toy 10 (addr_of 7 1) (9 ∷ []) (record (rotating 5) {
          crypto = rotated toy (id 50) entropy (rotating 5).crypto 6 (key_of 21);
          rotate_reset = 10;
        }))
unfolding ntied.Connection.Loop.send ntied.Connection.Loop.send_under
    ntied.Connection.State.sending_key ntied.Connection.State.transmit
    ntied.Packet.Encrypted.encrypt ntied.Crypto.encrypt_nonce ntied.Packet.Epoch.next
    ntied.Connection.State.generate_nonce ntied.Connection.State.to_le_bytes
send-on_datagram_next_example =
    send-on_datagram_next toy (id 40) (id 50) entropy entropy (rotating 3) (rotating 5) (key_of 15)
      (key_of 21) 6 (9 ∷ []) (addr_of 9 1) (addr_of 7 1) (serialize (encrypted (letter 2 21))) 10
      toy-AesLaws (omega arith) refl (omega arith) refl refl refl refl refl (omega arith) refl
