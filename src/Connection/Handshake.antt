-- ===== src/Connection/Handshake.antt =====
-- Setting up a connection: `Connection::connect` and `Connection::accept` of
-- ntied-transport/src/connection.rs. Both send their packet again and again until the first packet
-- of the peer arrives; that packet decides. A panic of the
-- `expect` is `panicked`.
use ntied.Common.{
  ℕ, zero, suc, Bool, true, false, List, [], ◌∷◌, Option, none, some, Result, ok, err,
}
use ntied.ByteIo.{Bytes, SocketAddr, Error, ◌>>◌, write_u32, write_bytes}
use ntied.Crypto.{
  Primitives, verify, sign, public_key_bytes, public_key_to_bytes, public_key_from_bytes,
  compute_shared_secret,
}
use ntied.Address.{Address, Address-discrete, to_address}
use ntied.Packet.Handshake.{HandshakePacket}
use ntied.Packet.HandshakeAck.{HandshakeAckPacket}
use ntied.Packet.{Packet, handshake, handshake_ack}
use ntied.Connection.State.{EncryptionState, Identity, Link}
use ntied.Connection.State
use mathlib.Core.Logic.{ite}
use mathlib.Core.Option

-- The errors that the two functions return.
pub data HandshakeError : Type 0 where
  handshake_failed invalid_public_key invalid_signature invalid_address : HandshakeError
  no_shared_secret unexpected_packet : HandshakeError
  address_error : Error → HandshakeError

-- `HANDSHAKE_TRIES`.
abbrev pub handshake_tries : ℕ
handshake_tries = 20

-- What the two futures of the `select!` may yield: the task of the sends goes on after its sleep, a
-- packet arrives, or the channel is closed.
pub data Signal : Type 0 where
  tick closed : Signal
  arrived : (now : ℕ) → SocketAddr → Packet → Signal

pub data Progress (A : Type 0) : Type 0 where
  waiting panicked : Progress A
  failed : HandshakeError → Progress A
  done : A → Progress A

-- What the transport knows of its own side.
pub record Local (p : Primitives) : Type 0 where
  pub private_key : p.SecretKey
  pub address : Address

-- What a handshake packet says of its sender, and the bytes that are signed.
pub record Claim : Type 0 where
  pub public_key : Bytes
  pub address : Address
  pub ephemeral_public_key : Bytes
  pub signature : Bytes
  pub signed : Bytes

-- What the packets are signed over: the ids, then the keys.
unfoldable pub handshake_bytes : ℕ → Bytes → Bytes → Bytes
handshake_bytes source_id public_key ephemeral =
    (do write_u32 source_id; write_bytes public_key; write_bytes ephemeral) []

unfoldable pub handshake_ack_bytes : ℕ → ℕ → Bytes → Bytes → Bytes
handshake_ack_bytes target_id source_id public_key ephemeral =
    (do write_u32 target_id; write_u32 source_id; write_bytes public_key; write_bytes ephemeral) []

unfoldable pub claim : HandshakePacket → Claim
claim v = record {
  public_key = v.public_key;
  address = v.address;
  ephemeral_public_key = v.ephemeral_public_key;
  signature = v.signature;
  signed = handshake_bytes v.source_id v.public_key v.ephemeral_public_key;
}

unfoldable pub ack_claim : HandshakeAckPacket → Claim
ack_claim v = record {
  public_key = v.public_key;
  address = v.address;
  ephemeral_public_key = v.ephemeral_public_key;
  signature = v.signature;
  signed = handshake_ack_bytes v.target_id v.source_id v.public_key v.ephemeral_public_key;
}

module _ (p : Primitives) where
  unfoldable pub make_handshake : Local p → ℕ → Address → p.EphemeralSecret → Option HandshakePacket
  make_handshake own source_id peer_address keypair =
      elim (public_key_to_bytes p (p.public_of own.private_key)) [
        | err _ ↦ none
        | ok public_key ↦
            let ephemeral = public_key_bytes p keypair in
            some (record {
              source_id = source_id;
              peer_address = peer_address;
              address = own.address;
              public_key = public_key;
              ephemeral_public_key = ephemeral;
              signature = sign p own.private_key (handshake_bytes source_id public_key ephemeral);
            })
      ]

  unfoldable pub make_handshake_ack :
      Local p → ℕ → ℕ → Address → p.EphemeralSecret → Option HandshakeAckPacket
  make_handshake_ack own target_id source_id peer_address keypair =
      elim (public_key_to_bytes p (p.public_of own.private_key)) [
        | err _ ↦ none
        | ok public_key ↦
            let ephemeral = public_key_bytes p keypair in
            some (record {
              target_id = target_id;
              source_id = source_id;
              peer_address = peer_address;
              address = own.address;
              public_key = public_key;
              ephemeral_public_key = ephemeral;
              signature =
                  sign p own.private_key
                    (handshake_ack_bytes target_id source_id public_key ephemeral);
            })
      ]

  -- The secret of the peer's ephemeral key, and the first epoch.
  admit_secret : EncryptionState p → Claim → Result HandshakeError (EncryptionState p)
  admit_secret state c =
      elim (compute_shared_secret p state.ephemeral_keypair c.ephemeral_public_key) [
        | err _ ↦ err no_shared_secret
        | ok secret ↦
            ok (record state { shared_secret = some secret; epoch = record { value = 1 } })
      ]

  admit_address :
      EncryptionState p → p.PublicKey → Claim → Result HandshakeError (EncryptionState p)
  unfolding admit_secret
  admit_address state key c = elim (to_address p key) [
    | err e ↦ err (address_error e)
    | ok derived ↦
        ite (Address-discrete derived c.address) (admit_secret state c) (err invalid_address)
  ]

  -- `verify(..).unwrap_or(false)`.
  is_signed_by : p.PublicKey → Claim → Bool
  is_signed_by key c = elim (verify p key c.signed c.signature) [ err _ ↦ false | ok valid ↦ valid ]

  -- The checks of a handshake packet, in the order of the source.
  unfoldable pub admit : EncryptionState p → Claim → Result HandshakeError (EncryptionState p)
  unfolding admit_address is_signed_by
  admit state c = elim (public_key_from_bytes p c.public_key) [
    | err _ ↦ err invalid_public_key
    | ok key ↦ elim (is_signed_by key c) [
      | false ↦ err invalid_signature
      | true ↦ admit_address state key c
    ]
  ]

  -- What the main loop starts from.
  unfoldable pub open_link : ℕ → SocketAddr → EncryptionState p → Link p
  open_link now addr crypto = record {
    crypto = crypto;
    peer_addr = addr;
    last_heartbeat = now;
    rotate_reset = now;
    inbox = [];
    sent = [];
    datagrams = [];
  }

  -- An open connection: what its main loop knows, and its state.
  abbrev pub Opened : Type 0
  Opened = Identity p × Link p

  opened : Identity p → ℕ → SocketAddr → Result HandshakeError (EncryptionState p) → Progress Opened
  unfolding open_link
  opened id now addr (err e) = failed e
  opened id now addr (ok crypto) = done (id, open_link now addr crypto)

  -- What `connect` does with the first packet. The target id is the one in the packet.
  unfoldable pub on_first_ack :
      Local p → p.PublicKey → EncryptionState p → ℕ → SocketAddr → Packet → Progress Opened
  unfolding opened
  on_first_ack own peer_public_key state now addr (handshake_ack v) =
      opened
        (record {
          target_id = v.source_id;
          private_key = own.private_key;
          peer_public_key = peer_public_key;
        })
        now addr (admit state (ack_claim v))
  on_first_ack own peer_public_key state now addr _ = failed unexpected_packet

  -- What `accept` does with it; the server named the target id.
  unfoldable pub on_first_handshake :
      Local p → p.PublicKey → ℕ → EncryptionState p → ℕ → SocketAddr → Packet → Progress Opened
  unfolding opened
  on_first_handshake own peer_public_key target_id state now addr (handshake v) =
      opened
        (record {
          target_id = target_id;
          private_key = own.private_key;
          peer_public_key = peer_public_key;
        })
        now addr (admit state (claim v))
  on_first_handshake own peer_public_key target_id state now addr _ = failed unexpected_packet

  -- The two futures side by side: at most so many more sends of the packet to the address, and the
  -- first packet that arrives. With the result come the packets that were sent.
  unfoldable pub await :
      ℕ
      → SocketAddr
      → Option Packet
      → (ℕ → SocketAddr → Packet → Progress Opened)
      → List Signal
      → Progress Opened × List (SocketAddr × Packet)
  await tries to packet receive [] = (waiting, [])
  await tries to packet receive (closed ∷ rest) = (failed handshake_failed, [])
  await tries to packet receive (arrived now addr first ∷ rest) = (receive now addr first, [])
  await zero to packet receive (tick ∷ rest) = (failed handshake_failed, [])
  await (suc tries) to none receive (tick ∷ rest) = (panicked, [])
  await (suc tries) to (some packet) receive (tick ∷ rest) =
      let (result, sent) = await tries to (some packet) receive rest in
      (result, (to, packet) ∷ sent)

  -- `Connection::connect`. The address of the peer goes into the packet and nowhere else.
  unfoldable pub connect :
      Local p
      → ℕ
      → SocketAddr
      → Address
      → p.PublicKey
      → p.EphemeralSecret
      → List Signal
      → Progress Opened × List (SocketAddr × Packet)
  unfolding make_handshake
  connect own source_id peer_addr peer_address peer_public_key keypair signals =
      await handshake_tries peer_addr
        (Option.map handshake (make_handshake own source_id peer_address keypair))
        (on_first_ack own peer_public_key (State.new p keypair)) signals

  -- `Connection::accept`.
  unfoldable pub accept :
      Local p
      → ℕ
      → ℕ
      → SocketAddr
      → Address
      → p.PublicKey
      → p.EphemeralSecret
      → List Signal
      → Progress Opened × List (SocketAddr × Packet)
  accept own source_id target_id peer_addr peer_address peer_public_key keypair signals =
      await handshake_tries peer_addr
        (Option.map handshake_ack (make_handshake_ack own target_id source_id peer_address keypair))
        (on_first_handshake own peer_public_key target_id (State.new p keypair)) signals
