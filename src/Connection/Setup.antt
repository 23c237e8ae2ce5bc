-- ===== src/Connection/Setup.antt =====
-- Two peers that set up a connection agree on its secret, and so do a peer and an impostor.
use ntied.Common.{ℕ, ◌≤◌, ◌≡◌, ◌≢◌, ap, [], ◌∷◌, ◌++◌, some, ok, replicate}
use ntied.ByteIo.{SocketAddr}
use ntied.Crypto.{Primitives, SharedSecret, public_key_bytes, compute_shared_secret}
use ntied.Crypto.Agreement.{DhLaws, compute_shared_secret-agree}
use ntied.Address.{Address}
use ntied.Packet.{handshake, handshake_ack}
use ntied.Packet.Handshake.{HandshakePacket}
use ntied.Packet.HandshakeAck.{HandshakeAckPacket}
use ntied.Connection.Handshake.{make_handshake_ack, connect, accept, Local, tick, arrived}
use ntied.Connection.Admission.{
  SignLaws, IsLocal, IsLocal-der, handshake_of, ack_of, make_handshake_ack_lem, ready, connect_lem,
  accept_lem,
}

module _ (p : Primitives) where
  -- Given the laws of signatures and of ECDH, and that each side states the address of its own
  -- key: both sides send their packet at most twenty times before the packet of the other arrives,
  -- and both then have the same secret in epoch 1, each with the id that the other chose as its
  -- target. The packet that each takes is the one that the other sends.
  pub connect-accept :
      (point : p.EphemeralSecret → p.PublicKey)
      → SignLaws p
      → DhLaws p point
      → (alice bob : Local p) (i j n m now_a now_b : ℕ) (addr_a addr_b : SocketAddr)
        (key_a key_b : p.PublicKey) (a b : p.EphemeralSecret)
      → IsLocal p alice
      → IsLocal p bob
      → n ≤ 20
      → m ≤ 20
      → (v : HandshakePacket) × (w : HandshakeAckPacket) × (s : SharedSecret) × (connect p alice i
            addr_b bob.address key_b a
            (replicate n tick ++ arrived now_a addr_b (handshake_ack w) ∷ [])
          ≡ (ready p alice j key_b now_a addr_b a s, replicate n (addr_b, handshake v)))
        × (accept p bob j i addr_a alice.address key_a b
              (replicate m tick ++ arrived now_b addr_a (handshake v) ∷ [])
            ≡ (ready p bob i key_a now_b addr_a b s, replicate m (addr_a, handshake_ack w)))
  connect-accept point laws dh alice bob i j n m now_a now_b addr_a addr_b key_a key_b a b ha hb le
        le' =
      let (der_a, da) = IsLocal-der p alice ha in
      let (der_b, db) = IsLocal-der p bob hb in
      let (s, sa, sb) = compute_shared_secret-agree p point dh a b in
      (
        handshake_of p alice der_a i bob.address a,
        ack_of p bob der_b i j alice.address b,
        s,
        connect_lem p alice bob der_a der_b i j now_a n addr_b addr_b bob.address alice.address
            key_b a b s laws hb da db sa le,
        accept_lem p bob alice der_b der_a j i now_b m addr_a addr_a alice.address bob.address key_a
            b a s laws ha db da sb le',
      )

  -- `connect` does not look at whom it was asked to reach. Given the laws of signatures and of
  -- ECDH, and that each side states the address of its own key: whoever answers first, after at
  -- most twenty sends, with a packet signed by a key of its own is taken for the peer, though the
  -- address and the key asked for are others, and its secret is the connection's.
  pub connect_impostor :
      (point : p.EphemeralSecret → p.PublicKey)
      → SignLaws p
      → DhLaws p point
      → (alice mallory : Local p) (wanted : Address) (key : p.PublicKey) (i j n now : ℕ)
        (to from : SocketAddr) (a b : p.EphemeralSecret)
      → IsLocal p alice
      → IsLocal p mallory
      → mallory.address ≢ wanted
      → p.public_of mallory.private_key ≢ key
      → n ≤ 20
      → (w : HandshakeAckPacket) × (s : SharedSecret) × (make_handshake_ack p mallory i j
            alice.address b
          ≡ some w)
        × (compute_shared_secret p b (public_key_bytes p a) ≡ ok s)
        × ((connect p alice i to wanted key a
              (replicate n tick ++ arrived now from (handshake_ack w) ∷ [])).0
            ≡ ready p alice j key now from a s)
  connect_impostor point laws dh alice mallory wanted key i j n now to from a b ha hm other_address
        other_key le =
      let (der_a, da) = IsLocal-der p alice ha in
      let (der_m, dm) = IsLocal-der p mallory hm in
      let (s, sa, sm) = compute_shared_secret-agree p point dh a b in
      (
        ack_of p mallory der_m i j alice.address b,
        s,
        make_handshake_ack_lem p mallory der_m i j alice.address b dm,
        sm,
        ap (λ x. x.0)
            (connect_lem p alice mallory der_a der_m i j now n to from wanted alice.address key a b
              s laws hm da dm sa le),
      )
