-- ===== src/Tests/Toy.antt =====
-- Stand-ins for the crates that the program calls, simple enough to compute with.
use ntied.Common.{
  drop, length, ◌∙◌, true, arith, Bool, ℕ, ◌*◌, ◌≡◌, ◌≢◌, refl, ap, sym, [], ◌∷◌, ◌++◌, Option,
  none, some, take, replicate, get_or, ◌==◌, if◌then◌else◌, Option-cases, inl, inr, subst,
}
use ntied.ByteIo.{Bytes, SocketAddr, v4}
use ntied.Crypto.{Primitives}
use ntied.Crypto.Agreement.{DhLaws}
use ntied.Address.{Address, Address-discrete}
use ntied.Address.Text.{Base64}
use ntied.Server.Registry.{ClientInfo, Clients, Iteration, lookup}
use ntied.Server.Handlers.{SocketAddr-discrete}
use ntied.Connection.Admission.{SignLaws}
use ntied.Connection.Sealing.{AesLaws}
use mathlib.Core.Logic.{ite, if_pos, if_neg}
use mathlib.Core.Option.{some-injective}
use native.Mathlib.Nat.{mul_comm}

abbrev only_byte : Bytes → Option ℕ
only_byte (x ∷ []) = some x
only_byte _ = none

abbrev unseal : ℕ → Bytes → Option Bytes
unseal key [] = none
unseal key (t ∷ text) = if t == key then some (drop 15 text) else none

own_seal : (key : ℕ) (text : Bytes) → unseal key (replicate 16 key ++ text) ≡ some text
own_seal key text = ground arith

-- A key is a number; a sealed text begins with its key, 16 times.
abbrev pub toy : Primitives
toy = record {
  PublicKey = ℕ;
  SecretKey = ℕ;
  public_of = λ k. k;
  to_public_key_der = λ k. some (k ∷ []);
  from_public_key_der = only_byte;
  ecdsa_sign = λ k m. k ∷ [];
  ecdsa_verify = λ k m s. some (get_or s 0 0 == k);
  EphemeralSecret = ℕ;
  to_sec1_bytes = λ e. e ∷ [];
  from_sec1_bytes = only_byte;
  diffie_hellman = λ a b. (a * b) ∷ [];
  sha256 = λ bytes. take 32 (bytes ++ replicate 32 0);
  aes_encrypt = λ key nonce text. some (replicate 16 (get_or key 0 0) ++ text);
  aes_decrypt = λ key nonce text. unseal (get_or key 0 0) text;
}

own_signature : (k : ℕ) → ◌≡◌ {A = Option Bool} (some (k == k)) (some true)
own_signature k = ground arith

pub toy-DhLaws : DhLaws toy (λ e. e)
toy-DhLaws = record { decodes = λ a. refl; commutes = λ a b. ap (λ (x : ℕ). x ∷ []) (mul_comm a b) }

-- Base64 as the identity.
abbrev pub plain : Base64
plain = record { encode = λ b. b; decode = λ b. some b; decode-encode = λ b. refl }

abbrev pub address_of : ℕ → Address
address_of k = record { bytes = 1 ∷ k ∷ replicate 31 0 }

abbrev pub addr_of : ℕ → ℕ → SocketAddr
addr_of host port = record { ip = v4 (10 ∷ 0 ∷ 0 ∷ host ∷ []); port = port }

-- The first entry whose client is at the socket address.
abbrev at_addr : SocketAddr → Address → Option ClientInfo → Option Address → Option Address
at_addr addr k none other = other
at_addr addr k (some c) other = ite (SocketAddr-discrete c.addr addr) (some k) other

unfoldable pub scan : SocketAddr → Clients → Clients → Option Address
scan addr all [] = none
scan addr all ((k, c) ∷ rest) = at_addr addr k (lookup k all) (scan addr all rest)

some-none : {A : Type 0} {x : A} → some x ≢ none
some-none e = cc

pub scan-some :
    (addr : SocketAddr) (all rest : Clients) (a : Address)
    → scan addr all rest ≡ some a
    → (c : ClientInfo) × (lookup a all ≡ some c) × (c.addr ≡ addr)
unfolding scan
scan-some addr all [] a e = cc
scan-some addr all ((k, d) ∷ rest) a e = elim (Option-cases (lookup k all)) [
  | inl miss ↦ scan-some addr all rest a (rw (miss, at_addr) at e)
  | inr (c, hit) ↦ elim (SocketAddr-discrete c.addr addr) [
    | yes same ↦ (c, rw (← some-injective _ _ (rw (hit, at_addr, if_pos _ same) at e)) hit, same)
    | no other ↦ scan-some addr all rest a (rw (hit, at_addr, if_neg _ other) at e)
  ]
]

-- A search that fails at an entry fails in the rest.
scan_rest :
    (addr : SocketAddr) (all rest : Clients) (k : Address) (x : ClientInfo)
    → scan addr all ((k, x) ∷ rest) ≡ none
    → scan addr all rest ≡ none
unfolding scan
scan_rest addr all rest k x e = elim (Option-cases (lookup k all)) [
  | inl miss ↦ rw (miss, at_addr) at e
  | inr (c, hit) ↦ elim (SocketAddr-discrete c.addr addr) [
    | yes same ↦ absurd (some-none (rw (hit, at_addr, if_pos _ same) at e))
    | no other ↦ rw (hit, at_addr, if_neg _ other) at e
  ]
]

scan_head :
    (addr : SocketAddr) (all rest : Clients) (k : Address) (x c : ClientInfo)
    → scan addr all ((k, x) ∷ rest) ≡ none
    → lookup k all ≡ some c
    → c.addr ≢ addr
unfolding scan
scan_head addr all rest k x c e hit same = some-none (rw (hit, at_addr, if_pos _ same) at e)

pub scan-none :
    (addr : SocketAddr) (all rest : Clients) (a : Address) (c d : ClientInfo)
    → scan addr all rest ≡ none
    → lookup a all ≡ some c
    → lookup a rest ≡ some d
    → c.addr ≢ addr
unfolding lookup
scan-none addr all [] a c d e h r = cc
scan-none addr all ((k, x) ∷ rest) a c d e h r = elim (Address-discrete k a) [
  | yes same ↦ scan_head addr all rest k x c e (subst (λ j. lookup j all ≡ some c) (sym same) h)
  | no other ↦
      scan-none addr all rest a c d (scan_rest addr all rest k x e) h (rw (if_neg _ other) at r)
]

-- The entries in the order of the list.
unfoldable pub first_match : Iteration
first_match = record {
  find = λ addr cs. scan addr cs cs;
  find_some = λ addr cs a e. scan-some addr cs cs a e;
  find_none = λ addr cs a c e h. scan-none addr cs cs a c c e h h;
}

pub toy-SignLaws : SignLaws toy
toy-SignLaws = record {
  der = λ k bytes e. ap only_byte (sym (some-injective (k ∷ []) bytes e));
  verifies = λ k m. own_signature k;
}

pub toy-AesLaws : AesLaws toy
toy-AesLaws = record {
  opens = λ key nonce text sealed e.
      ap (unseal (get_or key 0 0))
        (sym (some-injective (replicate 16 (get_or key 0 0) ++ text) sealed e))
      ∙ own_seal (get_or key 0 0) text;
  grows = λ key nonce text sealed e.
      ap length (sym (some-injective (replicate 16 (get_or key 0 0) ++ text) sealed e))
      ∙ omega arith;
}
