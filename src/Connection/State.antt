-- ===== src/Connection/State.antt =====
-- `EncryptionState` of ntied-transport/src/connection.rs, and what else the main loop keeps.
-- Randomness is an argument: a fresh key pair and the four random bytes of a nonce.
use ntied.Common.{
  ℕ, zero, suc, ◌+◌, ◌/◌, ◌%◌, ◌^◌, List, [], ◌∷◌, ◌++◌, Option, none, some, ok, err,
}
use ntied.ByteIo.{Bytes, SocketAddr}
use ntied.Crypto.{Primitives, SharedSecret}
use ntied.Packet.Epoch.{EncryptionEpoch, next}
use ntied.Packet.Decrypted.{DecryptedPacket}
use ntied.Packet.Encrypted.{EncryptedPacket, encrypt}
use ntied.Packet.{encrypted, serialize}

pub record EncryptionState (p : Primitives) : Type 0 where
  pub epoch : EncryptionEpoch
  pub ephemeral_keypair : p.EphemeralSecret
  pub shared_secret : Option SharedSecret
  pub next_ephemeral_keypair : Option p.EphemeralSecret
  pub next_shared_secret : Option SharedSecret
  pub nonce_counter : ℕ

-- What the main loop of one connection knows and never changes.
pub record Identity (p : Primitives) : Type 0 where
  pub target_id : ℕ
  pub private_key : p.SecretKey
  pub peer_public_key : p.PublicKey

-- The random numbers that one event may use.
pub record Entropy (p : Primitives) : Type 0 where
  pub keypair : p.EphemeralSecret
  pub random : Bytes

-- The state of a connection: the encryption state, the peer's socket address, when it was last
-- heard of, when the rotation interval was last reset, the received data that `recv` has not
-- taken, every packet that was sent, and the datagrams that the socket got for them.
pub record Link (p : Primitives) : Type 0 where
  pub crypto : EncryptionState p
  pub peer_addr : SocketAddr
  pub last_heartbeat : ℕ
  pub rotate_reset : ℕ
  pub inbox : List Bytes
  pub sent : List (SocketAddr × EncryptedPacket)
  pub datagrams : List (SocketAddr × Bytes)

-- `to_le_bytes` of a number of `n` bytes.
unfoldable pub to_le_bytes : ℕ → ℕ → Bytes
to_le_bytes zero v = []
to_le_bytes (suc n) v = (v % 256) ∷ to_le_bytes n (v / 256)

module _ (p : Primitives) where
  -- `EncryptionState::new`.
  unfoldable pub new : p.EphemeralSecret → EncryptionState p
  new keypair = record {
    epoch = record { value = 0 };
    ephemeral_keypair = keypair;
    shared_secret = none;
    next_ephemeral_keypair = none;
    next_shared_secret = none;
    nonce_counter = 0;
  }

  -- The counter and the random bytes.
  unfoldable pub generate_nonce : EncryptionState p → Bytes → EncryptionState p × Bytes
  generate_nonce state random = (
    record state { nonce_counter = (state.nonce_counter + 1) % 2 ^ 64 },
    to_le_bytes 8 state.nonce_counter ++ random,
  )

  -- The key in use, with its epoch; `none` where the code unwraps a missing secret.
  unfoldable pub current_key : EncryptionState p → Option (EncryptionEpoch × SharedSecret)
  current_key state = elim state.shared_secret [
    | none ↦ none
    | some secret ↦ some (state.epoch, secret)
  ]

  -- The key of the next epoch, once there is one: what data and heartbeats are sent under.
  unfoldable pub sending_key : EncryptionState p → Option (EncryptionEpoch × SharedSecret)
  sending_key state = elim state.next_shared_secret [
    | none ↦ current_key state
    | some secret ↦ some (next state.epoch, secret)
  ]

  unfoldable pub ensure_next_keypair : p.EphemeralSecret → EncryptionState p → EncryptionState p
  ensure_next_keypair fresh state = elim state.next_ephemeral_keypair [
    | none ↦ record state { next_ephemeral_keypair = some fresh }
    | some _ ↦ state
  ]

  -- A nonce, the encryption, the serialization and the send. A failure to encrypt or to
  -- send is logged.
  unfoldable pub transmit :
      Identity p
      → Entropy p
      → SocketAddr
      → DecryptedPacket
      → EncryptionEpoch × SharedSecret
      → Link p
      → Link p
  transmit id en addr message (epoch, secret) link =
      let (crypto, nonce) = generate_nonce link.crypto en.random in
      elim (encrypt p id.target_id message epoch secret nonce) [
        | err _ ↦ record link { crypto = crypto }
        | ok packet ↦ record link {
          crypto = crypto;
          sent = link.sent ++ (addr, packet) ∷ [];
          datagrams = link.datagrams ++ (addr, serialize (encrypted packet)) ∷ [];
        }
      ]
