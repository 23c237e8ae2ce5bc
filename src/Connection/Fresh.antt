-- ===== src/Connection/Fresh.antt =====
-- Each branch of the main loop numbers what it sends, and uses at most one number.
use ntied.Common.{
  ℕ, zero, suc, ◌+◌, ◌/◌, ◌%◌, ◌^◌, ◌≤◌, ◌<◌, ◌≡◌, refl, ap, sym, ◌∙◌, [], ◌∷◌, ◌++◌, Option, none,
  some, ok, arith, subst, take, Option-cases, Result-cases, Bool-cases, inl, inr,
}
use ntied.ByteIo.{Bytes, SocketAddr}
use ntied.Crypto.{Primitives, SharedSecret, compute_shared_secret}
use ntied.Packet.Epoch.{EncryptionEpoch, next}
use ntied.Packet.Rotate.{RotatePacket}
use ntied.Packet.Decrypted.{DecryptedPacket, heartbeat, heartbeat_ack, content, rotate, rotate_ack}
use ntied.Packet.Encrypted.{EncryptedPacket, encrypt, decrypt}
use ntied.Connection.State.{
  EncryptionState, Identity, Entropy, Link, generate_nonce, current_key, sending_key,
  ensure_next_keypair, transmit, to_le_bytes,
}
use ntied.Connection.Loop.{
  send_under, accept_rotate, on_heartbeat_tick, on_rotate_tick, transmit_current, complete_rotation,
  is_signed, on_content, on_rotate, on_rotate_ack, on_decrypted, open_packet, on_encrypted, send,
  Epoch-discrete,
}
use ntied.Connection.Numbering.{Numbered, Numbered-append, Numbered-mono}
use mathlib.Core.Logic.{if_pos, if_neg}

take_counter :
    (n : ℕ) (k : ℕ) (random : Bytes) → take n (to_le_bytes n k ++ random) ≡ to_le_bytes n k
unfolding to_le_bytes
take_counter zero k random = refl
take_counter (suc n) k random = ap (◌∷◌ (k % 256)) (take_counter n (k / 256) random)

module _ (p : Primitives) where
  -- The packets are numbered below the counter, which is at most `n`.
  abbrev pub Fresh : ℕ → Link p → Type 0
  Fresh n link = Numbered 0 link.crypto.nonce_counter link.sent × (link.crypto.nonce_counter ≤ n)

  abbrev pub StaysFresh : ℕ → Option (Link p) → Type 0
  StaysFresh n none = Unit
  StaysFresh n (some link) = Fresh n link

  encrypt-nonce :
      (target : ℕ) (m : DecryptedPacket) (epoch : EncryptionEpoch) (secret : SharedSecret)
      (nonce : Bytes) (v : EncryptedPacket)
      → encrypt p target m epoch secret nonce ≡ ok v
      → v.nonce ≡ nonce
  unfolding encrypt
  encrypt-nonce target m epoch secret nonce v e = ground arith

  module _ (id : Identity p) (en : Entropy p) (n : ℕ) (bound : n + 1 < 2 ^ 64) where
    transmit-Fresh :
        (addr : SocketAddr) (m : DecryptedPacket) (key : EncryptionEpoch × SharedSecret)
        (link : Link p)
        → Fresh n link
        → Fresh (n + 1) (transmit p id en addr m key link)
    unfolding transmit generate_nonce
    transmit-Fresh addr m (epoch, secret) link (h, le) =
        let k = link.crypto.nonce_counter in
        let nonce = to_le_bytes 8 k ++ en.random in
        let next : (k + 1) % 2 ^ 64 ≡ suc k = omega arith in
        elim (Result-cases (encrypt p id.target_id m epoch secret nonce)) [
          | inr (e, failed) ↦
              rw (failed, transmit)
                (
                  subst (λ (c : ℕ). Numbered 0 c link.sent) (sym next)
                      (Numbered-mono 0 k (suc k) link.sent (omega arith) h),
                  omega arith,
                )
          | inl (v, sealed) ↦
              rw (sealed, transmit)
                (
                  subst (λ (c : ℕ). Numbered 0 c (link.sent ++ (addr, v) ∷ [])) (sym next)
                      (Numbered-append 0 k link.sent (addr, v)
                        (ap (take 8) (encrypt-nonce id.target_id m epoch secret nonce v sealed)
                          ∙ take_counter 8 k en.random)
                        h),
                  omega arith,
                )
        ]

    pub relax : (link : Link p) → Fresh n link → Fresh (n + 1) link
    relax link h = (h.0, omega arith)

    ensure_next_keypair-counter :
        (fresh : p.EphemeralSecret) (state : EncryptionState p)
        → (ensure_next_keypair p fresh state).nonce_counter ≡ state.nonce_counter
    unfolding ensure_next_keypair
    ensure_next_keypair-counter fresh state = ground arith

    transmit_current-Fresh :
        (addr : SocketAddr) (m : DecryptedPacket) (link : Link p)
        → Fresh n link
        → StaysFresh (n + 1) (transmit_current p id en addr m link)
    unfolding transmit_current
    transmit_current-Fresh addr m link h = elim (Option-cases (current_key p link.crypto)) [
      | inl e ↦ rw (e, transmit_current) tt
      | inr (key, e) ↦ rw (e, transmit_current) (transmit-Fresh addr m key link h)
    ]

    pub heartbeat_tick-Fresh :
        (link : Link p) → Fresh n link → StaysFresh (n + 1) (on_heartbeat_tick p id en link)
    unfolding on_heartbeat_tick
    heartbeat_tick-Fresh link h = elim (Option-cases (sending_key p link.crypto)) [
      | inl e ↦ rw (e, on_heartbeat_tick) tt
      | inr (key, e) ↦
          rw (e, on_heartbeat_tick) (transmit-Fresh link.peer_addr heartbeat key link h)
    ]

    -- The next key pair touches neither the counter nor the packets.
    paired-Fresh :
        (link : Link p)
        → Fresh n link
        → Fresh n (record link { crypto = ensure_next_keypair p en.keypair link.crypto })
    paired-Fresh link (h, le) =
        let same = ensure_next_keypair-counter en.keypair link.crypto in
        (subst (λ (c : ℕ). Numbered 0 c link.sent) (sym same) h, omega (arith, same))

    pub rotate_tick-Fresh :
        (link : Link p) → Fresh n link → StaysFresh (n + 1) (on_rotate_tick p id en link)
    unfolding on_rotate_tick
    rotate_tick-Fresh link h =
        elim (Option-cases (ensure_next_keypair p en.keypair link.crypto).next_ephemeral_keypair) [
          | inl e ↦ rw (e, on_rotate_tick) tt
          | inr (pair, e) ↦
              rw (e, on_rotate_tick) (transmit_current-Fresh _ _ _ (paired-Fresh link h))
        ]

    complete_rotation-Fresh :
        (now : ℕ) (v : EncryptedPacket) (link : Link p)
        → Fresh n link
        → StaysFresh n (complete_rotation p id en now v link)
    unfolding complete_rotation
    complete_rotation-Fresh now v link h = elim (Epoch-discrete v.epoch (next link.crypto.epoch)) [
      | yes same ↦ rw (if_pos _ same) (elim (Option-cases link.crypto.next_shared_secret) [
        | inl e ↦ rw e h
        | inr (secret, e) ↦ rw e (elim (Option-cases link.crypto.next_ephemeral_keypair) [
          | inl e' ↦ rw e' tt
          | inr (pair, e') ↦ rw e' h
        ])
      ])
      | no other ↦ rw (if_neg _ other) h
    ]

    accept_rotate-Fresh :
        (addr : SocketAddr) (v : RotatePacket) (link : Link p)
        → Fresh n link
        → StaysFresh (n + 1) (accept_rotate p id en addr v link)
    unfolding accept_rotate
    accept_rotate-Fresh addr v link h =
        elim (Option-cases (ensure_next_keypair p en.keypair link.crypto).next_ephemeral_keypair) [
          | inl e ↦ rw (e, accept_rotate) tt
          | inr (pair, e) ↦
              rw (e, accept_rotate)
                (elim (Result-cases (compute_shared_secret p pair v.ephemeral_public_key)) [
                  | inr (x, failed) ↦ rw failed (
                      relax (record link { crypto = ensure_next_keypair p en.keypair link.crypto })
                        (paired-Fresh link h))
                  | inl (secret, agreed) ↦
                      rw agreed (transmit_current-Fresh addr _ _ (paired-Fresh link h))
                ])
        ]

    rotate-Fresh :
        (now : ℕ) (addr : SocketAddr) (v : RotatePacket) (link : Link p)
        → Fresh n link
        → StaysFresh (n + 1) (on_rotate p id en now addr v link)
    unfolding on_rotate
    rotate-Fresh now addr v link h = elim (Bool-cases (is_signed p id en v)) [
      | inl e ↦ rw e (accept_rotate-Fresh addr v (record link { rotate_reset = now }) h)
      | inr e ↦ rw e (relax link h)
    ]

    rotate_ack-Fresh :
        (now : ℕ) (v : RotatePacket) (link : Link p)
        → Fresh n link
        → Fresh (n + 1) (on_rotate_ack p id en now v link)
    unfolding on_rotate_ack
    rotate_ack-Fresh now v link h = ground arith

    decrypted-Fresh :
        (now : ℕ) (addr : SocketAddr) (m : DecryptedPacket) (link : Link p)
        → Fresh n link
        → StaysFresh (n + 1) (on_decrypted p id en now addr m link)
    unfolding on_decrypted
    decrypted-Fresh now addr (content v) link h = unfold on_content in ground arith
    decrypted-Fresh now addr (rotate v) link h = rotate-Fresh now addr v link h
    decrypted-Fresh now addr (rotate_ack v) link h = rotate_ack-Fresh now v link h
    decrypted-Fresh now addr heartbeat link h = transmit_current-Fresh addr heartbeat_ack link h
    decrypted-Fresh now addr heartbeat_ack link h = relax link h

    open_packet-Fresh :
        (now : ℕ) (addr : SocketAddr) (v : EncryptedPacket) (link : Link p)
        → Fresh n link
        → StaysFresh (n + 1) (open_packet p id en now addr v link)
    unfolding open_packet
    open_packet-Fresh now addr v link h = elim (Epoch-discrete v.epoch link.crypto.epoch) [
      | no other ↦ rw (if_neg _ other) (relax link h)
      | yes same ↦ rw (if_pos _ same) (elim (Option-cases link.crypto.shared_secret) [
        | inl e ↦ rw e (relax link h)
        | inr (secret, e) ↦ rw e (elim (Result-cases (decrypt p v secret)) [
          | inr (x, failed) ↦ rw failed (relax link h)
          | inl (m, opened) ↦ rw opened (
              decrypted-Fresh now addr m (record link { last_heartbeat = now; peer_addr = addr }) h)
        ])
      ])
    ]

    pub encrypted-Fresh :
        (now : ℕ) (addr : SocketAddr) (v : EncryptedPacket) (link : Link p)
        → Fresh n link
        → StaysFresh (n + 1) (on_encrypted p id en now addr v link)
    unfolding on_encrypted
    encrypted-Fresh now addr v link h =
        let rotated = complete_rotation-Fresh now v link h in
        elim (Option-cases (complete_rotation p id en now v link)) [
          | inl e ↦ rw (e, on_encrypted) tt
          | inr (link', e) ↦
              rw (e, on_encrypted) (open_packet-Fresh now addr v link' (rw e at rotated))
        ]

    send_under-Fresh :
        (key : Option (EncryptionEpoch × SharedSecret)) (bytes : Bytes) (link : Link p)
        → Fresh n link
        → Fresh (n + 1) (send_under p id en key bytes link)
    unfolding send_under
    send_under-Fresh none bytes link h = relax link h
    send_under-Fresh (some key) bytes link h = transmit-Fresh link.peer_addr _ key link h

    pub send-Fresh :
        (bytes : Bytes) (link : Link p) → Fresh n link → Fresh (n + 1) (send p id en bytes link)
    unfolding send
    send-Fresh bytes link h =
        ground (arith, relax link h, send_under-Fresh (sending_key p link.crypto) bytes link h)
