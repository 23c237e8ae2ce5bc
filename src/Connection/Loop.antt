-- ===== src/Connection/Loop.antt =====
-- The main loop of a connection (ntied-transport/src/connection.rs): one function for each branch
-- of its `select!`, and `Connection::send` and `recv`. `none` is a panic of an `unwrap`. A failed
-- send is only logged, so `datagrams` holds what was handed to the socket.
use ntied.Common.{
  ℕ, Bool, false, List, [], ◌∷◌, ◌++◌, Option, none, some, ok, err, length, ltb, if◌then◌else◌,
}
use ntied.ByteIo.{Bytes, SocketAddr}
use ntied.Crypto.{Primitives, SharedSecret, verify, sign, public_key_bytes, compute_shared_secret}
use ntied.Packet.Epoch.{EncryptionEpoch, next}
use ntied.Packet.Content.{DataPacket}
use ntied.Packet.Rotate.{RotatePacket}
use ntied.Packet.Decrypted.{DecryptedPacket, heartbeat, heartbeat_ack, content, rotate, rotate_ack}
use ntied.Packet.Encrypted.{EncryptedPacket, decrypt}
use ntied.Packet.{Packet, handshake, handshake_ack, encrypted, deserialize}
use ntied.Connection.State.{
  Identity, Entropy, Link, current_key, sending_key, ensure_next_keypair, transmit,
}
use mathlib.Core.Logic.{ite}
use native.Mathlib.Decide.{ℕ_discrete}

-- `MAX_PACKETS`, the capacity of the channel to `recv`.
abbrev pub max_packets : ℕ
max_packets = 4

unfoldable pub Epoch-discrete : Discrete EncryptionEpoch
Epoch-discrete = hlevel ℕ_discrete

module _ (p : Primitives) (id : Identity p) (en : Entropy p) where
  unfoldable pub on_heartbeat_tick : Link p → Option (Link p)
  on_heartbeat_tick link = elim (sending_key p link.crypto) [
    | none ↦ none
    | some key ↦ some (transmit p id en link.peer_addr heartbeat key link)
  ]

  -- The public key of the next pair, signed.
  rotate_packet : p.EphemeralSecret → RotatePacket
  rotate_packet keypair = record {
    ephemeral_public_key = public_key_bytes p keypair;
    signature = sign p id.private_key (public_key_bytes p keypair);
  }

  unfoldable pub transmit_current : SocketAddr → DecryptedPacket → Link p → Option (Link p)
  transmit_current addr message link = elim (current_key p link.crypto) [
    | none ↦ none
    | some key ↦ some (transmit p id en addr message key link)
  ]

  unfoldable pub on_rotate_tick : Link p → Option (Link p)
  unfolding rotate_packet
  on_rotate_tick link =
      let crypto = ensure_next_keypair p en.keypair link.crypto in
      elim crypto.next_ephemeral_keypair [
        | none ↦ none
        | some keypair ↦
            transmit_current link.peer_addr (rotate (rotate_packet keypair))
              (record link { crypto = crypto })
      ]

  -- A packet of the next epoch completes the rotation, before it is decrypted.
  unfoldable pub complete_rotation : ℕ → EncryptedPacket → Link p → Option (Link p)
  complete_rotation now v link =
      let crypto = link.crypto in
      ite (Epoch-discrete v.epoch (next crypto.epoch))
        (elim crypto.next_shared_secret [
          | none ↦ some link
          | some secret ↦ elim crypto.next_ephemeral_keypair [
            | none ↦ none
            | some keypair ↦ some (record link {
              crypto = record crypto {
                epoch = v.epoch;
                ephemeral_keypair = keypair;
                shared_secret = some secret;
                next_ephemeral_keypair = none;
                next_shared_secret = none;
              };
              rotate_reset = now;
            })
          ]
        ])
        (some link)

  -- `verify(..).unwrap_or(false)`.
  unfoldable pub is_signed : RotatePacket → Bool
  is_signed v = elim (verify p id.peer_public_key v.ephemeral_public_key v.signature) [
    | ok valid ↦ valid
    | err _ ↦ false
  ]

  -- `try_send` into the bounded channel: what does not fit is lost.
  unfoldable pub on_content : DataPacket → Link p → Link p
  on_content v link =
      if ltb (length link.inbox) max_packets
      then record link { inbox = link.inbox ++ v.content ∷ [] }
      else link

  with_next_secret : SharedSecret → Link p → Link p
  with_next_secret secret link =
      let crypto = link.crypto in
      record link { crypto = record crypto { next_shared_secret = some secret } }

  -- A signed `Rotate`: the secret of the next epoch is computed and the answer is sent.
  unfoldable pub accept_rotate : SocketAddr → RotatePacket → Link p → Option (Link p)
  unfolding with_next_secret rotate_packet
  accept_rotate addr v link =
      let crypto = ensure_next_keypair p en.keypair link.crypto in
      let link' = record link { crypto = crypto } in
      elim crypto.next_ephemeral_keypair [
        | none ↦ none
        | some keypair ↦ elim (compute_shared_secret p keypair v.ephemeral_public_key) [
          | err _ ↦ some link'
          | ok secret ↦
              transmit_current addr (rotate_ack (rotate_packet keypair))
                (with_next_secret secret link')
        ]
      ]

  unfoldable pub on_rotate : ℕ → SocketAddr → RotatePacket → Link p → Option (Link p)
  on_rotate now addr v link =
      if is_signed v then accept_rotate addr v (record link { rotate_reset = now }) else some link

  accept_rotate_ack : RotatePacket → Link p → Link p
  unfolding with_next_secret
  accept_rotate_ack v link = elim link.crypto.next_ephemeral_keypair [
    | none ↦ link
    | some keypair ↦ elim (compute_shared_secret p keypair v.ephemeral_public_key) [
      | err _ ↦ link
      | ok secret ↦ with_next_secret secret link
    ]
  ]

  unfoldable pub on_rotate_ack : ℕ → RotatePacket → Link p → Link p
  unfolding accept_rotate_ack
  on_rotate_ack now v link =
      if is_signed v then accept_rotate_ack v (record link { rotate_reset = now }) else link

  unfoldable pub on_decrypted : ℕ → SocketAddr → DecryptedPacket → Link p → Option (Link p)
  on_decrypted now addr (content v) link = some (on_content v link)
  on_decrypted now addr (rotate v) link = on_rotate now addr v link
  on_decrypted now addr (rotate_ack v) link = some (on_rotate_ack now v link)
  on_decrypted now addr heartbeat link = transmit_current addr heartbeat_ack link
  on_decrypted now addr heartbeat_ack link = some link

  -- What follows the rotation: the packet is decrypted under the current key or dropped.
  unfoldable pub open_packet : ℕ → SocketAddr → EncryptedPacket → Link p → Option (Link p)
  open_packet now addr v link =
      ite (Epoch-discrete v.epoch link.crypto.epoch)
        (elim link.crypto.shared_secret [
          | none ↦ some link
          | some secret ↦ elim (decrypt p v secret) [
            | err _ ↦ some link
            | ok message ↦
                on_decrypted now addr message
                  (record link { last_heartbeat = now; peer_addr = addr })
          ]
        ])
        (some link)

  unfoldable pub on_encrypted : ℕ → SocketAddr → EncryptedPacket → Link p → Option (Link p)
  on_encrypted now addr v link = elim (complete_rotation now v link) [
    | none ↦ none
    | some rotated ↦ open_packet now addr v rotated
  ]

  unfoldable pub on_packet : ℕ → SocketAddr → Packet → Link p → Option (Link p)
  on_packet now addr (handshake _) link = some link
  on_packet now addr (handshake_ack _) link = some link
  on_packet now addr (encrypted v) link = on_encrypted now addr v link

  -- What `Transport::main_loop` makes of a datagram for this connection, and the loop of the packet.
  unfoldable pub on_datagram : ℕ → SocketAddr → Bytes → Link p → Option (Link p)
  on_datagram now addr bytes link = elim (deserialize bytes) [
    | err _ ↦ some link
    | ok packet ↦ on_packet now addr packet link
  ]

  unfoldable pub send_under : Option (EncryptionEpoch × SharedSecret) → Bytes → Link p → Link p
  send_under none bytes link = link
  send_under (some key) bytes link =
      transmit p id en link.peer_addr (content (record { content = bytes })) key link

  -- `Connection::send`: without a secret it answers an error and sends nothing.
  unfoldable pub send : Bytes → Link p → Link p
  send bytes link = elim link.crypto.shared_secret [
    | none ↦ link
    | some _ ↦ send_under (sending_key p link.crypto) bytes link
  ]

-- `Connection::recv`; it waits while there is no data.
unfoldable pub recv : (p : Primitives) → Link p → Option Bytes × Link p
recv p link = elim link.inbox [
  | [] ↦ (none, link)
  | bytes ∷ rest ↦ (some bytes, record link { inbox = rest })
]

pub data Event (p : Primitives) : Type 0 where
  heartbeat_tick rotate_tick : Entropy p → Event p
  received : Entropy p → (now : ℕ) → SocketAddr → Packet → Event p
  sends : Entropy p → Bytes → Event p
  takes : Event p

unfoldable pub step : (p : Primitives) → Identity p → Link p → Event p → Option (Link p)
step p id link (heartbeat_tick en) = on_heartbeat_tick p id en link
step p id link (rotate_tick en) = on_rotate_tick p id en link
step p id link (received en now addr packet) = on_packet p id en now addr packet link
step p id link (sends en bytes) = some (send p id en bytes link)
step p id link takes = some (recv p link).1

unfoldable pub run : (p : Primitives) → Identity p → Link p → List (Event p) → Option (Link p)
run p id link [] = some link
run p id link (e ∷ es) = elim (step p id link e) [ none ↦ none | some link' ↦ run p id link' es ]
