-- ===== src/Connection/Sealing.antt =====
-- What `transmit` in ntied-transport/src/connection.rs hands to the socket, read back.
use ntied.Common.{
  Result, ◌+◌, ℕ, ◌<◌, ◌^◌, ◌≡◌, ap, sym, ◌∙◌, [], ◌∷◌, ◌++◌, append-nil, length, some, ok, err,
  arith, subst, Option-cases, Result-cases, inl, inr,
}
use ntied.ByteIo.{Bytes, Error, SocketAddr, write_bytes, write_array, write_u8, write_u16, ◌>>◌}
use ntied.ByteIo.Fields.{IsU32}
use ntied.Crypto.{Primitives, SharedSecret, encrypt_nonce, decrypt_nonce}
use ntied.Packet.Epoch.{EncryptionEpoch, next, IsEpoch}
use ntied.Packet.Content
use ntied.Packet.Decrypted.{DecryptedPacket, content}
use ntied.Packet.Decrypted
use ntied.Packet.Encrypted.{EncryptedPacket, encrypt, decrypt}
use ntied.Packet.RoundTrip.{
  DecryptedFits, IsEncrypted, decrypted-deserialize-serialize, deserialize-serialize,
}
use ntied.Packet.{encrypted, serialize, deserialize}
use ntied.Connection.State.{Identity, Entropy, Link, to_le_bytes, generate_nonce, transmit}
use ntied.Connection.Rotation.{append_ne, append_last}

ok_inj : {v w : EncryptedPacket} → ◌≡◌ {A = Result Error EncryptedPacket} (ok v) (ok w) → v ≡ w
ok_inj {v = v} e = ap (λ r. elim r [ ok x ↦ x | err _ ↦ v ]) e

pub next-IsEpoch : (e : EncryptionEpoch) → IsEpoch (next e)
unfolding next
next-IsEpoch e = ground arith

module _ (p : Primitives) where
  -- What aes-gcm documents: a text that was sealed is opened under the same key and nonce, and is 16
  -- bytes of tag longer.
  pub record AesLaws : Type 0 where
    pub opens :
        (key nonce text sealed : Bytes)
        → p.aes_encrypt key nonce text ≡ some sealed
        → p.aes_decrypt key nonce sealed ≡ some text
    pub grows :
        (key nonce text sealed : Bytes)
        → p.aes_encrypt key nonce text ≡ some sealed
        → length sealed ≡ length text + 16

  -- A message that the format can hold and that was encrypted is what `decrypt` finds.
  pub decrypt-encrypt :
      (target : ℕ) (m : DecryptedPacket) (epoch : EncryptionEpoch) (secret : SharedSecret)
      (nonce : Bytes) (v : EncryptedPacket)
      → AesLaws
      → DecryptedFits m
      → encrypt p target m epoch secret nonce ≡ ok v
      → decrypt p v secret ≡ ok m
  unfolding encrypt encrypt_nonce decrypt decrypt_nonce
  decrypt-encrypt target m epoch secret nonce v laws fits e =
      let back : Decrypted.deserialize (Decrypted.serialize m) ≡ ok m =
        ap Decrypted.deserialize (sym (append-nil (Decrypted.serialize m)))
        ∙ decrypted-deserialize-serialize m [] fits in
      elim (Option-cases (p.aes_encrypt secret.key nonce (Decrypted.serialize m))) [
        | inl refused ↦ ground (arith, refused, e)
        | inr (sealed, es) ↦
            let opened = laws.opens secret.key nonce (Decrypted.serialize m) sealed es in
            ground (arith, e, es, opened, back)
      ]

  -- What is encrypted fits the format if the message leaves room for the tag.
  encrypt-IsEncrypted :
      (target : ℕ) (m : DecryptedPacket) (epoch : EncryptionEpoch) (secret : SharedSecret)
      (nonce : Bytes) (v : EncryptedPacket)
      → AesLaws
      → IsU32 target
      → IsEpoch epoch
      → length nonce ≡ 12
      → length (Decrypted.serialize m) + 16 < 2 ^ 16
      → encrypt p target m epoch secret nonce ≡ ok v
      → IsEncrypted v
  unfolding encrypt encrypt_nonce
  encrypt-IsEncrypted target m epoch secret nonce v laws small live twelve room e =
      elim (Option-cases (p.aes_encrypt secret.key nonce (Decrypted.serialize m))) [
        | inl refused ↦ ground (arith, refused, e)
        | inr (sealed, es) ↦
            let longer = laws.grows secret.key nonce (Decrypted.serialize m) sealed es in
            let made : ◌≡◌ {A = Result Error EncryptedPacket}
                (ok (record { target_id = target; epoch = epoch; payload = sealed; nonce = nonce }))
                (ok v) =
              ground (arith, e, es) in
            subst IsEncrypted (ok_inj made) (record {
              target_id = small;
              epoch = live;
              payload = omega (arith, longer, room);
              nonce = twelve;
            })
      ]

  -- A datagram that was handed to the socket is the serialized encryption of its message.
  pub transmit-datagram :
      (id : Identity p) (en : Entropy p) (addr to : SocketAddr) (m : DecryptedPacket)
      (epoch : EncryptionEpoch) (secret : SharedSecret) (link : Link p) (datagram : Bytes)
      → (transmit p id en addr m (epoch, secret) link).datagrams
        ≡ link.datagrams ++ (to, datagram) ∷ []
      → (v : EncryptedPacket) × (encrypt p id.target_id m epoch secret
            (generate_nonce p link.crypto en.random).1
          ≡ ok v)
        × (serialize (encrypted v) ≡ datagram)
  unfolding transmit
  transmit-datagram id en addr to m epoch secret link datagram e =
      let nonce = (generate_nonce p link.crypto en.random).1 in
      elim (Result-cases (encrypt p id.target_id m epoch secret nonce)) [
        | inr (x, failed) ↦
            absurd (append_ne link.datagrams (to, datagram) (rw (failed, transmit) at e))
        | inl (w, sealed) ↦
            let same =
              append_last link.datagrams (addr, serialize (encrypted w)) (to, datagram)
                (rw (sealed, transmit) at e) in
            (w, sealed, ap (λ (d : SocketAddr × Bytes). d.1) same)
      ]

  -- The message of some data is three bytes longer than the data.
  length-content :
      (bytes : Bytes)
      → length (Decrypted.serialize (content (record { content = bytes }))) ≡ length bytes + 3
  unfolding Decrypted.serialize Decrypted.write_packet Content.serialize_to write_bytes write_array
      write_u16 write_u8 ◌>>◌
  length-content bytes = omega arith

  length-generate_nonce :
      (link : Link p) (random : Bytes)
      → length random ≡ 4
      → length (generate_nonce p link.crypto random).1 ≡ 12
  unfolding generate_nonce to_le_bytes
  length-generate_nonce link random four = omega (arith, four)

  -- The packet of some data that leaves room for the tag is read back from its datagram.
  pub sealed-deserialize :
      (id : Identity p) (en : Entropy p) (bytes : Bytes) (epoch : EncryptionEpoch)
      (secret : SharedSecret) (link : Link p) (v : EncryptedPacket)
      → AesLaws
      → IsU32 id.target_id
      → IsEpoch epoch
      → length en.random ≡ 4
      → length bytes + 19 < 2 ^ 16
      → encrypt p id.target_id
          (content (record { content = bytes }))
          epoch
          secret
          (generate_nonce p link.crypto en.random).1
        ≡ ok v
      → deserialize (serialize (encrypted v)) ≡ ok (encrypted v)
  sealed-deserialize id en bytes epoch secret link v laws small live four short e =
      let fits =
        encrypt-IsEncrypted id.target_id (content (record { content = bytes })) epoch secret _ v
          laws small live (length-generate_nonce link en.random four)
          (omega (arith, length-content bytes, short)) e in
      ap deserialize (sym (append-nil (serialize (encrypted v))))
      ∙ deserialize-serialize (encrypted v) [] fits
