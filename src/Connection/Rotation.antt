-- ===== src/Connection/Rotation.antt =====
-- How the rotation of keys goes, and where it goes wrong.
use mathlib.Core.List.{append_cancel_left}
use ntied.Common.{
  length, length-append, ℕ, ◌≡◌, ◌≢◌, sym, ap, ◌∙◌, List, [], ◌∷◌, ◌++◌, none, some, ok, err, arith,
  Option-cases, Result-cases, inl, inr,
}
use ntied.ByteIo.{Bytes, SocketAddr, Error}
use ntied.Crypto.{Primitives, SharedSecret}
use ntied.Packet.Epoch.{EncryptionEpoch, next, IsLive, next-ne}
use ntied.Packet.Decrypted.{DecryptedPacket, content}
use ntied.Packet.Encrypted.{EncryptedPacket, encrypt, decrypt}
use ntied.Packet.{encrypted}
use ntied.Connection.State.{
  EncryptionState, Identity, Entropy, Link, generate_nonce, sending_key, transmit,
}
use ntied.Connection.Loop.{
  complete_rotation, open_packet, on_encrypted, on_packet, send, send_under,
}
use mathlib.Core.Logic.{if_pos, if_neg}

pub append_ne {ℓ} : {A : Type ℓ} (xs : List A) (x : A) → xs ≢ xs ++ x ∷ []
append_ne xs x e = omega (arith, ap length e, length-append xs (x ∷ []))

pub append_last {ℓ} : {A : Type ℓ} (xs : List A) (x y : A) → xs ++ x ∷ [] ≡ xs ++ y ∷ [] → x ≡ y
append_last xs x y e = cc (append_cancel_left xs (x ∷ []) (y ∷ []) e)

module _ (p : Primitives) (id : Identity p) (en : Entropy p) where
  -- The state after a rotation: the next keys are in use, and there are no next ones.
  abbrev pub rotated : EncryptionState p → p.EphemeralSecret → SharedSecret → EncryptionState p
  rotated state keypair secret = record state {
    epoch = next state.epoch;
    ephemeral_keypair = keypair;
    shared_secret = some secret;
    next_ephemeral_keypair = none;
    next_shared_secret = none;
  }

  pub complete_rotation-rotated :
      (now : ℕ) (v : EncryptedPacket) (link : Link p) (secret : SharedSecret)
      (keypair : p.EphemeralSecret)
      → v.epoch ≡ next link.crypto.epoch
      → link.crypto.next_shared_secret ≡ some secret
      → link.crypto.next_ephemeral_keypair ≡ some keypair
      → complete_rotation p id en now v link
        ≡ some (record link { crypto = rotated link.crypto keypair secret; rotate_reset = now })
  unfolding complete_rotation
  complete_rotation-rotated now v link secret keypair e hs hk = rw (if_pos _ e) (ground arith)

  -- Where both the next secret and its key pair are there, a packet of the next epoch that does
  -- not decrypt under that secret, from any address, still completes the rotation: the old secret
  -- is gone and the rotation interval is reset, and nothing else changes.
  pub forged_rotation :
      (now : ℕ) (addr : SocketAddr) (v : EncryptedPacket) (link : Link p) (secret : SharedSecret)
      (keypair : p.EphemeralSecret) (e : Error)
      → v.epoch ≡ next link.crypto.epoch
      → link.crypto.next_shared_secret ≡ some secret
      → link.crypto.next_ephemeral_keypair ≡ some keypair
      → decrypt p v secret ≡ err e
      → on_packet p id en now addr (encrypted v) link
        ≡ some (record link { crypto = rotated link.crypto keypair secret; rotate_reset = now })
  unfolding on_packet on_encrypted
  forged_rotation now addr v link secret keypair e same hs hk failed =
      rw (complete_rotation-rotated now v link secret keypair same hs hk, on_encrypted)
        (unfold open_packet in rw (if_pos _ same, failed))

  complete_rotation-none :
      (now : ℕ) (v : EncryptedPacket) (link : Link p)
      → link.crypto.next_shared_secret ≡ none
      → complete_rotation p id en now v link ≡ some link
  unfolding complete_rotation
  complete_rotation-none now v link hs = ground arith

  -- Without a next secret a packet of the next epoch changes nothing.
  pub next_epoch_dropped :
      (now : ℕ) (addr : SocketAddr) (v : EncryptedPacket) (link : Link p)
      → IsLive link.crypto.epoch
      → v.epoch ≡ next link.crypto.epoch
      → link.crypto.next_shared_secret ≡ none
      → on_packet p id en now addr (encrypted v) link ≡ some link
  unfolding on_packet on_encrypted open_packet
  next_epoch_dropped now addr v link live same hs =
      rw (complete_rotation-none now v link hs, on_encrypted)
        (rw (if_neg _ (λ e. next-ne link.crypto.epoch live (sym same ∙ e))))

  pub encrypt-epoch :
      (target : ℕ) (m : DecryptedPacket) (epoch : EncryptionEpoch) (secret : SharedSecret)
      (nonce : Bytes) (v : EncryptedPacket)
      → encrypt p target m epoch secret nonce ≡ ok v
      → v.epoch ≡ epoch
  unfolding encrypt
  encrypt-epoch target m epoch secret nonce v e = ground arith

  transmit-epoch :
      (addr to : SocketAddr) (m : DecryptedPacket) (epoch : EncryptionEpoch) (secret : SharedSecret)
      (link : Link p) (v : EncryptedPacket)
      → (transmit p id en addr m (epoch, secret) link).sent ≡ link.sent ++ (to, v) ∷ []
      → v.epoch ≡ epoch
  unfolding transmit
  transmit-epoch addr to m epoch secret link v e =
      let nonce = (generate_nonce p link.crypto en.random).1 in
      elim (Result-cases (encrypt p id.target_id m epoch secret nonce)) [
        | inr (x, failed) ↦ absurd (append_ne link.sent (to, v) (rw (failed, transmit) at e))
        | inl (w, sealed) ↦
            let same = append_last link.sent (addr, w) (to, v) (rw (sealed, transmit) at e) in
            ap (λ (d : SocketAddr × EncryptedPacket). d.1.epoch) (sym same)
            ∙ encrypt-epoch id.target_id m epoch secret nonce w sealed
      ]

  pub send_next :
      (bytes : Bytes) (link : Link p) (current secret : SharedSecret)
      → link.crypto.shared_secret ≡ some current
      → link.crypto.next_shared_secret ≡ some secret
      → send p id en bytes link
        ≡ transmit p id en link.peer_addr
            (content (record { content = bytes }))
            (next link.crypto.epoch, secret)
            link
  unfolding send send_under sending_key
  send_next bytes link current secret hc hn = ground arith

  pub send_closed :
      (bytes : Bytes) (link : Link p)
      → link.crypto.shared_secret ≡ none
      → send p id en bytes link ≡ link
  unfolding send
  send_closed bytes link e = ground arith

  -- With a next secret, what `send` sends is sealed for the next epoch.
  send-epoch :
      (bytes : Bytes) (link : Link p) (secret : SharedSecret) (to : SocketAddr)
      (v : EncryptedPacket)
      → link.crypto.next_shared_secret ≡ some secret
      → (send p id en bytes link).sent ≡ link.sent ++ (to, v) ∷ []
      → v.epoch ≡ next link.crypto.epoch
  send-epoch bytes link secret to v hs e = elim (Option-cases link.crypto.shared_secret) [
    | inl closed ↦ absurd (
        append_ne link.sent (to, v)
          (ap (λ (l : Link p). l.sent) (sym (send_closed bytes link closed)) ∙ e))
    | inr (current, hc) ↦
        transmit-epoch link.peer_addr to (content (record { content = bytes }))
          (next link.crypto.epoch) secret link v
          (ap (λ (l : Link p). l.sent) (sym (send_next bytes link current secret hc hs)) ∙ e)
  ]

-- A peer that answered a `Rotate` has a next secret; the one that asked, in the same epoch of 1 to
-- 127, has none before the answer arrives. Until then each packet that `send` of the first hands
-- to the socket is dropped by the second, which changes nothing.
pub unanswered_rotate :
    (p : Primitives) (asking answering : Identity p) (en en' : Entropy p) (a b : Link p)
    (secret : SharedSecret) (bytes : Bytes) (to from : SocketAddr) (v : EncryptedPacket) (now : ℕ)
    → a.crypto.epoch ≡ b.crypto.epoch
    → IsLive a.crypto.epoch
    → a.crypto.next_shared_secret ≡ none
    → b.crypto.next_shared_secret ≡ some secret
    → (send p answering en' bytes b).sent ≡ b.sent ++ (to, v) ∷ []
    → on_packet p asking en now from (encrypted v) a ≡ some a
unanswered_rotate p asking answering en en' a b secret bytes to from v now same live hn hs e =
    next_epoch_dropped p asking en now from v a live
      (send-epoch p answering en' bytes b secret to v hs e ∙ ap next (sym same)) hn
