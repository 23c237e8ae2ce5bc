-- ===== src/Connection/Admission.antt =====
-- What a setup comes to when a well-formed packet of the other side arrives.
use ntied.Common.{
  ℕ, zero, suc, ◌≤◌, ◌≡◌, refl, [], ◌∷◌, ◌++◌, none, some, ok, err, true, arith, replicate,
  Option-cases, inl, inr,
}
use ntied.ByteIo.{Bytes, SocketAddr, crypto}
use ntied.Crypto.{
  sign, public_key_from_bytes, verify, Primitives, SharedSecret, public_key_bytes,
  public_key_to_bytes, compute_shared_secret,
}
use ntied.Address.{Address, to_address}
use ntied.Packet.{handshake, handshake_ack, Packet}
use ntied.Packet.Handshake.{HandshakePacket}
use ntied.Packet.HandshakeAck.{HandshakeAckPacket}
use ntied.Connection.State.{EncryptionState, Identity, Link}
use ntied.Connection.State
use ntied.Connection.Handshake.{
  open_link, make_handshake, make_handshake_ack, done, connect, accept, handshake_bytes,
  handshake_ack_bytes, on_first_ack, on_first_handshake, claim, ack_claim, Local, tick, arrived,
  Progress, Opened, Claim, admit, await,
}

module _ (p : Primitives) where
  -- What p256 documents: a DER encoding decodes to its key, and a signature verifies under the
  -- public key of the secret key that made it.
  pub record SignLaws : Type 0 where
    pub der :
        (k : p.PublicKey) (bytes : Bytes)
        → p.to_public_key_der k ≡ some bytes
        → p.from_public_key_der bytes ≡ some k
    pub verifies :
        (k : p.SecretKey) (m : Bytes)
        → p.ecdsa_verify (p.public_of k) m (p.ecdsa_sign k m) ≡ some true

  -- A side that states the address of its own key.
  abbrev pub IsLocal : Local p → Type 0
  IsLocal own = to_address p (p.public_of own.private_key) ≡ ok own.address

  -- The claim of a side over some signed bytes.
  abbrev own_claim : Local p → Bytes → p.EphemeralSecret → Bytes → Claim
  own_claim own der keypair signed = record {
    public_key = der;
    address = own.address;
    ephemeral_public_key = public_key_bytes p keypair;
    signature = p.ecdsa_sign own.private_key signed;
    signed = signed;
  }

  -- The state once the secret is there.
  abbrev pub secured : p.EphemeralSecret → SharedSecret → EncryptionState p
  secured keypair secret = record {
    epoch = record { value = 1 };
    ephemeral_keypair = keypair;
    shared_secret = some secret;
    next_ephemeral_keypair = none;
    next_shared_secret = none;
    nonce_counter = 0;
  }

  pub IsLocal-der :
      (own : Local p)
      → IsLocal own
      → (der : Bytes) × (p.to_public_key_der (p.public_of own.private_key) ≡ some der)
  unfolding public_key_to_bytes to_address
  IsLocal-der own h = elim (Option-cases (p.to_public_key_der (p.public_of own.private_key))) [
    | inl e ↦
        let refused : public_key_to_bytes p (p.public_of own.private_key) ≡ err crypto = rw e in
        cc (rw (refused, to_address) at h)
    | inr (der, e) ↦ (der, e)
  ]

  pub admit-own_claim :
      (own : Local p) (der : Bytes) (mine theirs : p.EphemeralSecret) (signed : Bytes)
      (secret : SharedSecret)
      → SignLaws
      → IsLocal own
      → p.to_public_key_der (p.public_of own.private_key) ≡ some der
      → compute_shared_secret p mine (public_key_bytes p theirs) ≡ ok secret
      → admit p (State.new p mine) (own_claim own der theirs signed) ≡ ok (secured mine secret)
  unfolding admit State.new verify public_key_from_bytes
  admit-own_claim own der mine theirs signed secret laws h d s =
      let from : public_key_from_bytes p der ≡ ok (p.public_of own.private_key) =
        rw (laws.der (p.public_of own.private_key) der d) in
      let valid : verify p (p.public_of own.private_key) signed
            (p.ecdsa_sign own.private_key signed)
          ≡ ok true =
        rw (laws.verifies own.private_key signed) in
      ground (arith, from, valid, h, s)

  pub await-arrived :
      (n tries now : ℕ) (to addr : SocketAddr) (packet first : Packet)
      (receive : ℕ → SocketAddr → Packet → Progress (Opened p))
      → n ≤ tries
      → await p tries to (some packet) receive (replicate n tick ++ arrived now addr first ∷ [])
        ≡ (receive now addr first, replicate n (to, packet))
  unfolding await
  await-arrived zero tries now to addr packet first receive le = refl
  await-arrived (suc n) zero now to addr packet first receive le = absurd (omega arith)
  await-arrived (suc n) (suc tries) now to addr packet first receive le =
      rw (await-arrived n tries now to addr packet first receive (omega arith))

  -- The packets that the two sides send, once their public keys are encoded.
  pub handshake_of : Local p → Bytes → ℕ → Address → p.EphemeralSecret → HandshakePacket
  handshake_of own der source_id peer_address keypair = record {
    source_id = source_id;
    peer_address = peer_address;
    address = own.address;
    public_key = der;
    ephemeral_public_key = public_key_bytes p keypair;
    signature =
        p.ecdsa_sign own.private_key (handshake_bytes source_id der (public_key_bytes p keypair));
  }

  pub make_handshake_lem :
      (own : Local p) (der : Bytes) (source_id : ℕ) (peer_address : Address)
      (keypair : p.EphemeralSecret)
      → p.to_public_key_der (p.public_of own.private_key) ≡ some der
      → make_handshake p own source_id peer_address keypair
        ≡ some (handshake_of own der source_id peer_address keypair)
  unfolding public_key_to_bytes make_handshake handshake_of sign
  make_handshake_lem own der source_id peer_address keypair d = rw (d, make_handshake)

  pub ack_of : Local p → Bytes → ℕ → ℕ → Address → p.EphemeralSecret → HandshakeAckPacket
  ack_of own der target_id source_id peer_address keypair = record {
    target_id = target_id;
    source_id = source_id;
    peer_address = peer_address;
    address = own.address;
    public_key = der;
    ephemeral_public_key = public_key_bytes p keypair;
    signature =
        p.ecdsa_sign own.private_key
          (handshake_ack_bytes target_id source_id der (public_key_bytes p keypair));
  }

  pub make_handshake_ack_lem :
      (own : Local p) (der : Bytes) (target_id source_id : ℕ) (peer_address : Address)
      (keypair : p.EphemeralSecret)
      → p.to_public_key_der (p.public_of own.private_key) ≡ some der
      → make_handshake_ack p own target_id source_id peer_address keypair
        ≡ some (ack_of own der target_id source_id peer_address keypair)
  unfolding public_key_to_bytes make_handshake_ack ack_of sign
  make_handshake_ack_lem own der target_id source_id peer_address keypair d =
      rw (d, make_handshake_ack)

  -- The result of a setup: the ids and keys of the main loop, and a secret in the first epoch.
  abbrev pub ready :
      Local p
      → ℕ
      → p.PublicKey
      → ℕ
      → SocketAddr
      → p.EphemeralSecret
      → SharedSecret
      → Progress (Opened p)
  ready own target_id peer_public_key now addr keypair secret = done (
    record {
      target_id = target_id;
      private_key = own.private_key;
      peer_public_key = peer_public_key;
    },
    record {
      crypto = secured keypair secret;
      peer_addr = addr;
      last_heartbeat = now;
      rotate_reset = now;
      inbox = [];
      sent = [];
      datagrams = [];
    },
  )

  pub connect_lem :
      (own other : Local p) (mine theirs : Bytes) (i j now n : ℕ) (to addr : SocketAddr)
      (wanted theirs_wanted : Address) (key : p.PublicKey) (a b : p.EphemeralSecret)
      (secret : SharedSecret)
      → SignLaws
      → IsLocal other
      → p.to_public_key_der (p.public_of own.private_key) ≡ some mine
      → p.to_public_key_der (p.public_of other.private_key) ≡ some theirs
      → compute_shared_secret p a (public_key_bytes p b) ≡ ok secret
      → n ≤ 20
      → connect p own i to wanted key a (
          replicate n tick
          ++ arrived now addr (handshake_ack (ack_of other theirs i j theirs_wanted b)) ∷ [])
        ≡ (
          ready own j key now addr a secret,
          replicate n (to, handshake (handshake_of own mine i wanted a)),
        )
  unfolding connect on_first_ack open_link ack_claim ack_of
  connect_lem own other mine theirs i j now n to addr wanted theirs_wanted key a b secret laws h dm
        dt s le =
      rw (make_handshake_lem own mine i wanted a dm) (
        rw (await-arrived n 20 now to addr _ _ _ le) (
          rw (
            admit-own_claim other theirs a b (handshake_ack_bytes i j theirs (public_key_bytes p b))
              secret laws h dt s)))

  pub accept_lem :
      (own other : Local p) (mine theirs : Bytes) (i j now n : ℕ) (to addr : SocketAddr)
      (wanted theirs_wanted : Address) (key : p.PublicKey) (a b : p.EphemeralSecret)
      (secret : SharedSecret)
      → SignLaws
      → IsLocal other
      → p.to_public_key_der (p.public_of own.private_key) ≡ some mine
      → p.to_public_key_der (p.public_of other.private_key) ≡ some theirs
      → compute_shared_secret p a (public_key_bytes p b) ≡ ok secret
      → n ≤ 20
      → accept p own i j to wanted key a (
          replicate n tick
          ++ arrived now addr (handshake (handshake_of other theirs j theirs_wanted b)) ∷ [])
        ≡ (
          ready own j key now addr a secret,
          replicate n (to, handshake_ack (ack_of own mine j i wanted a)),
        )
  unfolding accept on_first_handshake open_link claim handshake_of
  accept_lem own other mine theirs i j now n to addr wanted theirs_wanted key a b secret laws h dm
        dt s le =
      rw (make_handshake_ack_lem own mine j i wanted a dm) (
        rw (await-arrived n 20 now to addr _ _ _ le) (
          rw (
            admit-own_claim other theirs a b (handshake_bytes j theirs (public_key_bytes p b))
              secret laws h dt s)))
