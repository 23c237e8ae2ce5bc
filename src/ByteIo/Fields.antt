-- ===== src/ByteIo/Fields.antt =====
-- Each field that byteio.rs writes is read back, under the bounds that its Rust type gives.
use ntied.Common.{
  ℕ, subst, ◌/◌, ◌%◌, ◌^◌, ◌<◌, ◌≡◌, refl, [], ◌∷◌, ◌++◌, true, length, le→ltb, length-append,
  take_append, drop_append, arith,
}
use ntied.ByteIo.{
  Bytes, IpAddr, v4, v6, SocketAddr, return, read_u8, read_u16, read_u32, read_array, read_bytes,
  read_string, read_ip_addr, read_socket_addr, write_u8, write_u16, write_u32, write_array,
  write_bytes, write_string, write_ip_addr, write_socket_addr,
}
use ntied.ByteIo.Utf8.{is_utf8}
use ntied.ByteIo.Trip.{Trip, Trip-bind, Trip-last}

abbrev pub IsU16 : ℕ → Type 0
IsU16 v = v < 2 ^ 16

abbrev pub IsU32 : ℕ → Type 0
IsU32 v = v < 2 ^ 32

-- A byte string whose length the 16-bit prefix can hold.
abbrev pub IsShort : Bytes → Type 0
IsShort bytes = length bytes < 2 ^ 16

pub Trip-u8 : (v : ℕ) → Trip (write_u8 v) read_u8 v
unfolding write_u8 read_u8
Trip-u8 v = record { bytes = v ∷ []; writes = λ out. refl; reads = λ rest. refl }

pub Trip-u16 : (v : ℕ) → IsU16 v → Trip (write_u16 v) read_u16 v
unfolding write_u16 read_u16
Trip-u16 v h = record {
  bytes = (v / 256 % 256) ∷ (v % 256) ∷ [];
  writes = λ out. refl;
  reads = λ rest. ground arith;
}

pub Trip-u32 : (v : ℕ) → IsU32 v → Trip (write_u32 v) read_u32 v
unfolding write_u32 read_u32
Trip-u32 v h = record {
  bytes = (v / 2 ^ 24 % 256) ∷ (v / 2 ^ 16 % 256) ∷ (v / 2 ^ 8 % 256) ∷ (v % 256) ∷ [];
  writes = λ out. refl;
  reads = λ rest. ground arith;
}

pub Trip-array :
    (value : Bytes) (n : ℕ) → length value ≡ n → Trip (write_array value) (read_array n) value
unfolding write_array read_array
Trip-array value n h = record {
  bytes = value;
  writes = λ out. refl;
  reads = λ rest. rw (
    ← h,
    le→ltb (length (value ++ rest)) (length value) (omega (arith, length-append value rest)),
    take_append value rest,
    drop_append value rest,
  );
}

-- The length prefix, and then the bytes that it counts.
Trip-prefixed :
    (value : Bytes)
    → IsShort value
    → Trip (write_u16 (length value % 2 ^ 16)) read_u16 (length value)
Trip-prefixed value h =
    subst (Trip (write_u16 (length value % 2 ^ 16)) read_u16) {x = length value % 2 ^ 16}
      (omega arith) (Trip-u16 (length value % 2 ^ 16) (omega arith))

pub Trip-bytes : (value : Bytes) → IsShort value → Trip (write_bytes value) read_bytes value
unfolding write_bytes read_bytes
Trip-bytes value h = Trip-bind _ (Trip-prefixed value h) (Trip-array value (length value) refl)

pub Trip-string :
    (text : Bytes) → IsShort text → is_utf8 text ≡ true → Trip (write_string text) read_string text
unfolding write_string read_string return
Trip-string text h valid =
    Trip-bind _ (Trip-prefixed text h)
      (Trip-last _ (Trip-array text (length text) refl) (λ rest. rw valid))

-- The octets of a `std` address: four or sixteen.
abbrev pub IsIpAddr : IpAddr → Type 0
IsIpAddr (v4 octets) = length octets ≡ 4
IsIpAddr (v6 octets) = length octets ≡ 16

pub Trip-ip : (ip : IpAddr) → IsIpAddr ip → Trip (write_ip_addr ip) read_ip_addr ip
unfolding write_ip_addr read_ip_addr return
Trip-ip (v4 octets) h = Trip-bind _ (Trip-u8 4) (Trip-last _ (Trip-array octets 4 h) (λ rest. refl))
Trip-ip (v6 octets) h =
    Trip-bind _ (Trip-u8 6) (Trip-last _ (Trip-array octets 16 h) (λ rest. refl))

pub record IsSocketAddr (addr : SocketAddr) : Type 0 where
  pub ip : IsIpAddr addr.ip
  pub port : IsU16 addr.port

pub Trip-socket_addr :
    (addr : SocketAddr) → IsSocketAddr addr → Trip (write_socket_addr addr) read_socket_addr addr
unfolding write_socket_addr read_socket_addr return
Trip-socket_addr addr h =
    Trip-bind _ (Trip-ip addr.ip h.ip) (Trip-last _ (Trip-u16 addr.port h.port) (λ rest. refl))
