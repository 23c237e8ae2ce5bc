-- ===== src/Connection/Established.antt =====
-- An established connection never panics: every `unwrap` of the main loop finds a value.
use ntied.Common.{
  is_some, ◌⊎◌, ℕ, ◌≡◌, true, false, List, [], ◌∷◌, Option, none, some, arith, subst, sym,
  Option-cases, inl, inr,
}
use ntied.ByteIo.{Bytes, SocketAddr}
use ntied.Crypto.{Primitives, SharedSecret}
use ntied.Packet.Epoch.{EncryptionEpoch, next, IsLive, next-IsLive}
use ntied.Packet.Rotate.{RotatePacket}
use ntied.Packet.Decrypted.{DecryptedPacket, heartbeat, heartbeat_ack, content, rotate, rotate_ack}
use ntied.Packet.Encrypted.{EncryptedPacket}
use ntied.Packet.{Packet, handshake, handshake_ack, encrypted}
use ntied.Connection.State.{
  EncryptionState, Identity, Entropy, Link, generate_nonce, current_key, sending_key,
  ensure_next_keypair, transmit,
}
use ntied.Connection.Loop.{
  send_under, accept_rotate, on_heartbeat_tick, on_rotate_tick, transmit_current, complete_rotation,
  on_content, on_rotate, on_rotate_ack, on_decrypted, open_packet, on_encrypted, on_packet, send,
  recv, Event, heartbeat_tick, rotate_tick, received, sends, takes, step, run, Epoch-discrete,
}
use mathlib.Core.Logic.{if_pos, if_neg}

module _ (p : Primitives) where
  -- There is a secret, the epoch is one of 1 to 127, and a secret of the next epoch comes with the
  -- key pair that it was computed from.
  pub record IsReady (state : EncryptionState p) : Type 0 where
    pub secret : is_some state.shared_secret ≡ true
    pub live : IsLive state.epoch
    pub paired :
        (is_some state.next_shared_secret ≡ false) ⊎ (is_some state.next_ephemeral_keypair ≡ true)

  -- The branch returns, and the state is ready again.
  abbrev pub Returns : Option (Link p) → Type 0
  Returns none = ⊥
  Returns (some link) = IsReady link.crypto

  ensure_next_keypair-IsReady :
      (fresh : p.EphemeralSecret) (state : EncryptionState p)
      → IsReady state
      → IsReady (ensure_next_keypair p fresh state)
        × (is_some (ensure_next_keypair p fresh state).next_ephemeral_keypair ≡ true)
  unfolding ensure_next_keypair
  ensure_next_keypair-IsReady fresh state v = ground arith

  transmit-IsReady :
      (id : Identity p) (en : Entropy p) (addr : SocketAddr) (m : DecryptedPacket)
      (key : EncryptionEpoch × SharedSecret) (link : Link p)
      → IsReady link.crypto
      → IsReady (transmit p id en addr m key link).crypto
  unfolding transmit generate_nonce
  transmit-IsReady id en addr m (epoch, secret) link v = ground arith

  module _ (id : Identity p) (en : Entropy p) where
    heartbeat_tick-Returns :
        (link : Link p) → IsReady link.crypto → Returns (on_heartbeat_tick p id en link)
    unfolding on_heartbeat_tick sending_key current_key
    heartbeat_tick-Returns link v = grind (arith, transmit-IsReady)

    transmit_current-Returns :
        (addr : SocketAddr) (m : DecryptedPacket) (link : Link p)
        → IsReady link.crypto
        → Returns (transmit_current p id en addr m link)
    unfolding transmit_current current_key
    transmit_current-Returns addr m link v = grind (arith, transmit-IsReady)

    rotate_tick-Returns :
        (link : Link p) → IsReady link.crypto → Returns (on_rotate_tick p id en link)
    unfolding on_rotate_tick
    rotate_tick-Returns link v =
        let (ready, paired) = ensure_next_keypair-IsReady en.keypair link.crypto v in
        grind (arith, ready, paired, transmit_current-Returns)

    complete_rotation-Returns :
        (now : ℕ) (v : EncryptedPacket) (link : Link p)
        → IsReady link.crypto
        → Returns (complete_rotation p id en now v link)
    unfolding complete_rotation
    complete_rotation-Returns now v link h =
        elim (Epoch-discrete v.epoch (next link.crypto.epoch)) [
          | yes same ↦
              let live : IsLive v.epoch =
                subst IsLive (sym same) (next-IsLive link.crypto.epoch h.live.1) in
              rw (if_pos _ same) (ground arith)
          | no other ↦ rw (if_neg _ other) h
        ]

    rotate-Returns :
        (now : ℕ) (addr : SocketAddr) (v : RotatePacket) (link : Link p)
        → IsReady link.crypto
        → Returns (on_rotate p id en now addr v link)
    unfolding on_rotate accept_rotate
    rotate-Returns now addr v link h =
        let (ready, paired) = ensure_next_keypair-IsReady en.keypair link.crypto h in
        grind (arith, ready, paired, transmit_current-Returns)

    rotate_ack-IsReady :
        (now : ℕ) (v : RotatePacket) (link : Link p)
        → IsReady link.crypto
        → IsReady (on_rotate_ack p id en now v link).crypto
    unfolding on_rotate_ack
    rotate_ack-IsReady now v link h = ground arith

    decrypted-Returns :
        (now : ℕ) (addr : SocketAddr) (m : DecryptedPacket) (link : Link p)
        → IsReady link.crypto
        → Returns (on_decrypted p id en now addr m link)
    unfolding on_decrypted
    decrypted-Returns now addr (content v) link h = unfold on_content in ground arith
    decrypted-Returns now addr (rotate v) link h = rotate-Returns now addr v link h
    decrypted-Returns now addr (rotate_ack v) link h = rotate_ack-IsReady now v link h
    decrypted-Returns now addr heartbeat link h = transmit_current-Returns addr heartbeat_ack link h
    decrypted-Returns now addr heartbeat_ack link h = h

    open_packet-Returns :
        (now : ℕ) (addr : SocketAddr) (v : EncryptedPacket) (link : Link p)
        → IsReady link.crypto
        → Returns (open_packet p id en now addr v link)
    unfolding open_packet
    open_packet-Returns now addr v link h = elim (Epoch-discrete v.epoch link.crypto.epoch) [
      | yes same ↦ rw (if_pos _ same) (grind (arith, decrypted-Returns))
      | no other ↦ rw (if_neg _ other) h
    ]

    packet-Returns :
        (now : ℕ) (addr : SocketAddr) (packet : Packet) (link : Link p)
        → IsReady link.crypto
        → Returns (on_packet p id en now addr packet link)
    unfolding on_packet
    packet-Returns now addr (handshake v) link h = h
    packet-Returns now addr (handshake_ack v) link h = h
    packet-Returns now addr (encrypted v) link h =
        unfold on_encrypted in
        (let rotated = complete_rotation-Returns now v link h in
          grind (arith, rotated, open_packet-Returns))

    send-IsReady :
        (bytes : Bytes) (link : Link p)
        → IsReady link.crypto
        → IsReady (send p id en bytes link).crypto
    unfolding send send_under sending_key current_key
    send-IsReady bytes link h = grind (arith, transmit-IsReady)

  -- Every event of an established connection returns a state that is established again: no
  -- `unwrap` of the main loop fails.
  pub step-Returns :
      (id : Identity p) (link : Link p) (e : Event p)
      → IsReady link.crypto
      → Returns (step p id link e)
  unfolding step
  step-Returns id link (heartbeat_tick en) h = heartbeat_tick-Returns id en link h
  step-Returns id link (rotate_tick en) h = rotate_tick-Returns id en link h
  step-Returns id link (received en now addr packet) h = packet-Returns id en now addr packet link h
  step-Returns id link (sends en bytes) h = send-IsReady id en bytes link h
  step-Returns id link takes h = unfold recv in ground arith

  -- From a state that is established (there is a secret, the epoch is one of 1 to 127, and a next
  -- secret comes with its key pair), every sequence of events returns, and the state is
  -- established again: no `unwrap` of the main loop fails.
  pub run-Returns :
      (id : Identity p) (link : Link p) (es : List (Event p))
      → IsReady link.crypto
      → Returns (run p id link es)
  unfolding run
  run-Returns id link [] h = h
  run-Returns id link (e ∷ es) h =
      let once = step-Returns id link e h in
      elim (Option-cases (step p id link e)) [
        | inl panic ↦ absurd (rw panic at once)
        | inr (link', after) ↦ rw (after, run) (run-Returns id link' es (rw after at once))
      ]
