-- ===== src/Tests/Peers.antt =====
-- An established connection: data, heartbeats and rotations.
use ntied.Common.{
  inl, ◌≡◌, ℕ, List, [], ◌∷◌, ◌++◌, replicate, refl, arith, length, Option, some, none,
}
use ntied.ByteIo.{crypto}
use ntied.Crypto.{SharedSecret}
use ntied.Packet.Epoch.{next}
use ntied.Packet.Decrypted.{rotate_ack, content}
use ntied.Packet.Decrypted
use ntied.Packet.Encrypted.{EncryptedPacket}
use ntied.Packet.{encrypted}
use ntied.Connection.State.{Identity, Entropy, Link}
use ntied.Connection.Loop.{
  Event, heartbeat_tick, rotate_tick, received, sends, takes, on_packet, run,
}
use ntied.Connection.Numbering.{NoncesDiffer}
use ntied.Connection.Nonces.{run-NoncesDiffer}
use ntied.Connection.Established.{Returns, run-Returns}
use ntied.Connection.Rotation.{rotated, forged_rotation, unanswered_rotate}
use ntied.Tests.Toy.{toy, addr_of}

-- The peer's key is 50.
abbrev alice : Identity toy
alice = record { target_id = 1; private_key = 40; peer_public_key = 50 }

abbrev entropy : ℕ → Entropy toy
entropy n = record { keypair = n; random = n ∷ n ∷ n ∷ n ∷ [] }

abbrev key_of : ℕ → SharedSecret
key_of k = record { key = k ∷ [] }

abbrev linked : Link toy
linked = record {
  crypto = record {
    epoch = record { value = 1 };
    ephemeral_keypair = 3;
    shared_secret = some (key_of 15);
    next_ephemeral_keypair = none;
    next_shared_secret = none;
    nonce_counter = 0;
  };
  peer_addr = addr_of 2 4000;
  last_heartbeat = 0;
  rotate_reset = 0;
  inbox = [];
  sent = [];
  datagrams = [];
}

-- The same connection after it answered a `Rotate`.
abbrev prepared : Link toy
prepared = record linked {
  crypto = record {
    epoch = record { value = 1 };
    ephemeral_keypair = 3;
    shared_secret = some (key_of 15);
    next_ephemeral_keypair = some 6;
    next_shared_secret = some (key_of 21);
    nonce_counter = 0;
  };
}

-- A packet under a key, with a signed answer to a `Rotate` inside.
abbrev answer : EncryptedPacket
answer = record {
  target_id = 0;
  epoch = record { value = 1 };
  payload =
      replicate 16 15
      ++ Decrypted.serialize
          (rotate_ack (record { ephemeral_public_key = 11 ∷ []; signature = 50 ∷ [] }));
  nonce = replicate 12 0;
}

abbrev forged : EncryptedPacket
forged = record {
  target_id = 0;
  epoch = record { value = 2 };
  payload = 0 ∷ 0 ∷ [];
  nonce = replicate 12 0;
}

abbrev events : List (Event toy)
events =
    sends (entropy 1) (104 ∷ 105 ∷ [])
    ∷ heartbeat_tick (entropy 1)
    ∷ rotate_tick (entropy 6)
    ∷ received (entropy 1) 10 (addr_of 3 4000) (encrypted answer)
    ∷ sends (entropy 1) (33 ∷ [])
    ∷ takes
    ∷ []

run-Returns_example : Returns toy (run toy alice linked events)
run-Returns_example =
    run-Returns toy alice linked events
      (record { secret = refl; live = (omega arith, omega arith); paired = inl refl })

abbrev link_of : Option (Link toy) → Link toy
link_of none = linked
link_of (some link) = link

abbrev after : Link toy
after = link_of (run toy alice linked events)

run-NoncesDiffer_example : NoncesDiffer after.sent
unfolding run ntied.Connection.Loop.step ntied.Connection.Loop.on_heartbeat_tick
    ntied.Connection.State.sending_key ntied.Connection.Loop.send ntied.Connection.Loop.send_under
    ntied.Connection.State.current_key ntied.Connection.State.transmit
    ntied.Packet.Encrypted.encrypt ntied.Crypto.encrypt_nonce ntied.Connection.State.generate_nonce
    ntied.Connection.Loop.on_rotate_tick ntied.Connection.State.ensure_next_keypair
    ntied.Connection.Loop.transmit_current on_packet ntied.Connection.Loop.on_encrypted
    ntied.Connection.Loop.complete_rotation ntied.Connection.Loop.Epoch-discrete
    ntied.Common.ℕ_discrete ntied.ByteIo.fail ntied.ByteIo.read_array ntied.ByteIo.read_bytes
    ntied.ByteIo.read_u16 ntied.ByteIo.read_u8 ntied.ByteIo.return ntied.ByteIo.write_array
    ntied.ByteIo.write_bytes ntied.ByteIo.write_u16 ntied.ByteIo.write_u8 ntied.ByteIo.◌>>=◌
    ntied.ByteIo.◌>>◌ ntied.Connection.Loop.accept_rotate ntied.Connection.Loop.is_signed
    ntied.Connection.Loop.on_content ntied.Connection.Loop.on_decrypted
    ntied.Connection.Loop.on_rotate ntied.Connection.Loop.on_rotate_ack
    ntied.Connection.Loop.open_packet ntied.Connection.Loop.recv ntied.Connection.State.to_le_bytes
    ntied.Crypto.compute_shared_secret ntied.Crypto.decrypt_nonce ntied.Crypto.lex_lt
    ntied.Crypto.public_key_bytes ntied.Crypto.sign ntied.Crypto.verify
    ntied.Packet.Content.deserialize_from ntied.Packet.Content.serialize_to Decrypted.deserialize
    Decrypted.read_packet Decrypted.serialize Decrypted.write_packet ntied.Packet.Encrypted.decrypt
    next ntied.Packet.Fields.decode ntied.Packet.Rotate.deserialize_from
    ntied.Packet.Rotate.serialize_to
run-NoncesDiffer_example = run-NoncesDiffer toy alice events linked after refl (omega arith) refl

-- Data, a heartbeat, a `Rotate`, and data under the next key.
last_epochs : length after.sent ≡ 4
unfolding run ntied.Connection.Loop.step ntied.Connection.Loop.on_heartbeat_tick
    ntied.Connection.State.sending_key ntied.Connection.Loop.send ntied.Connection.Loop.send_under
    ntied.Connection.State.current_key ntied.Connection.State.transmit
    ntied.Packet.Encrypted.encrypt ntied.Crypto.encrypt_nonce ntied.Connection.State.generate_nonce
    ntied.Connection.Loop.on_rotate_tick ntied.Connection.State.ensure_next_keypair
    ntied.Connection.Loop.transmit_current on_packet ntied.Connection.Loop.on_encrypted
    ntied.Connection.Loop.complete_rotation ntied.Connection.Loop.Epoch-discrete
    ntied.Common.ℕ_discrete ntied.ByteIo.fail ntied.ByteIo.read_array ntied.ByteIo.read_bytes
    ntied.ByteIo.read_u16 ntied.ByteIo.read_u8 ntied.ByteIo.return ntied.ByteIo.write_array
    ntied.ByteIo.write_bytes ntied.ByteIo.write_u16 ntied.ByteIo.write_u8 ntied.ByteIo.◌>>=◌
    ntied.ByteIo.◌>>◌ ntied.Connection.Loop.accept_rotate ntied.Connection.Loop.is_signed
    ntied.Connection.Loop.on_content ntied.Connection.Loop.on_decrypted
    ntied.Connection.Loop.on_rotate ntied.Connection.Loop.on_rotate_ack
    ntied.Connection.Loop.open_packet ntied.Connection.Loop.recv ntied.Connection.State.to_le_bytes
    ntied.Crypto.compute_shared_secret ntied.Crypto.decrypt_nonce ntied.Crypto.lex_lt
    ntied.Crypto.public_key_bytes ntied.Crypto.sign ntied.Crypto.verify
    ntied.Packet.Content.deserialize_from ntied.Packet.Content.serialize_to Decrypted.deserialize
    Decrypted.read_packet Decrypted.serialize Decrypted.write_packet ntied.Packet.Encrypted.decrypt
    next ntied.Packet.Fields.decode ntied.Packet.Rotate.deserialize_from
    ntied.Packet.Rotate.serialize_to
last_epochs = refl

forged_rotation_example :
    on_packet toy alice (entropy 1) 10 (addr_of 66 1) (encrypted forged) prepared
    ≡ some (record prepared {
      crypto = rotated toy alice (entropy 1) prepared.crypto 6 (key_of 21);
      rotate_reset = 10;
    })
unfolding next ntied.Packet.Encrypted.decrypt ntied.Crypto.decrypt_nonce
forged_rotation_example =
    forged_rotation toy alice (entropy 1) 10 (addr_of 66 1) forged prepared (key_of 21) 6 crypto
      refl refl refl refl

abbrev dropped : EncryptedPacket
dropped = record {
  target_id = 1;
  epoch = record { value = 2 };
  payload = replicate 16 21 ++ Decrypted.serialize (content (record { content = 9 ∷ [] }));
  nonce = replicate 8 0 ++ replicate 4 1;
}

unanswered_rotate_example :
    on_packet toy alice (entropy 1) 10 (addr_of 2 4000) (encrypted dropped) linked ≡ some linked
unfolding next ntied.Connection.Loop.send ntied.Connection.Loop.send_under
    ntied.Connection.State.sending_key ntied.Connection.State.transmit
    ntied.Packet.Encrypted.encrypt ntied.Crypto.encrypt_nonce ntied.Connection.State.generate_nonce
    ntied.Connection.State.to_le_bytes
unanswered_rotate_example =
    unanswered_rotate toy alice alice (entropy 1) (entropy 1) linked prepared (key_of 21) (9 ∷ [])
      (addr_of 2 4000) (addr_of 2 4000) dropped 10 refl (omega arith, omega arith) refl refl refl
