-- ===== src/ByteIo.antt =====
-- ntied-transport/src/byteio.rs: the big-endian reader and writer under every datagram.
-- A slice of bytes is a list of numbers. `Reader` holds the bytes not yet read and `Writer` the
-- bytes written so far. No caller reads on after an error (every call ends in `?`), so an error
-- carries no reader.
pub mod Utf8
pub mod Trip
pub mod Fields
pub mod Length
use ntied.Common.{
  ℕ, suc, ◌+◌, ◌*◌, ◌/◌, ◌%◌, ◌^◌, Bool, List, [], ◌∷◌, ◌++◌, Result, ok, err, length, take, drop,
  ltb, ◌==◌, if◌then◌else◌,
}
use Utf8.{is_utf8}

abbrev pub Bytes : Type 0
Bytes = List ℕ

-- The messages of the transport crate's errors.
pub data Error : Type 0 where
  unexpected_end invalid_utf8 unsupported_ip : Error
  incorrect_packet_type epoch_exceeds_maximum unknown_message_type : Error
  unknown_request_type unknown_response_type : Error
  invalid_address_length address_decoding : Error
  crypto : Error

-- `std::net::IpAddr` by its octets, and `std::net::SocketAddr` by what the protocol sends of it.
pub data IpAddr : Type 0 where
  v4 : Bytes → IpAddr
  v6 : Bytes → IpAddr

pub record SocketAddr : Type 0 where
  pub ip : IpAddr
  pub port : ℕ

abbrev pub Reader : Type 0 → Type 0
Reader A = Bytes → Result Error (A × Bytes)

infixl 5 ◌>>=◌ ◌>>◌
unfoldable pub ◌>>=◌ : {A B : Type 0} → Reader A → (A → Reader B) → Reader B
◌>>=◌ r f bytes = elim (r bytes) [ err e ↦ err e | ok (a, rest) ↦ f a rest ]

unfoldable pub return : {A : Type 0} → A → Reader A
return a bytes = ok (a, bytes)

unfoldable pub fail : {A : Type 0} → Error → Reader A
fail e bytes = err e

abbrev pub Writer : Type 0
Writer = Bytes → Bytes

-- Two writes in a row.
unfoldable pub ◌>>◌ : Writer → Writer → Writer
◌>>◌ w v out = v (w out)

unfoldable pub skip : Writer
skip out = out

unfoldable pub read_u8 : Reader ℕ
read_u8 [] = err unexpected_end
read_u8 (a ∷ rest) = ok (a, rest)

unfoldable pub read_u16 : Reader ℕ
read_u16 (a ∷ b ∷ rest) = ok (a * 256 + b, rest)
read_u16 _ = err unexpected_end

unfoldable pub read_u32 : Reader ℕ
read_u32 (a ∷ b ∷ c ∷ d ∷ rest) = ok (((a * 256 + b) * 256 + c) * 256 + d, rest)
read_u32 _ = err unexpected_end

-- `[u8; N]`, which is also how the octets of an address are read.
unfoldable pub read_array : ℕ → Reader Bytes
read_array n bytes =
    if ltb (length bytes) n then err unexpected_end else ok (take n bytes, drop n bytes)

unfoldable pub read_bytes : Reader Bytes
read_bytes = do len ← read_u16; read_array len

checked_utf8 : Bytes → Reader Bytes
checked_utf8 text = if is_utf8 text then return text else fail invalid_utf8

-- The text is given by its UTF-8 bytes.
unfoldable pub read_string : Reader Bytes
unfolding checked_utf8
read_string = do len ← read_u16; text ← read_array len; checked_utf8 text

octets_of_version : ℕ → Reader IpAddr
octets_of_version version =
    if version == 4
    then (do octets ← read_array 4; return (v4 octets))
    else if version == 6
    then (do octets ← read_array 16; return (v6 octets))
    else fail unsupported_ip

unfoldable pub read_ip_addr : Reader IpAddr
unfolding octets_of_version
read_ip_addr = do version ← read_u8; octets_of_version version

unfoldable pub read_socket_addr : Reader SocketAddr
read_socket_addr = do ip ← read_ip_addr; port ← read_u16; return (record { ip = ip; port = port })

unfoldable pub write_u8 : ℕ → Writer
write_u8 value out = out ++ value ∷ []

unfoldable pub write_u16 : ℕ → Writer
write_u16 value out = out ++ (value / 256 % 256) ∷ (value % 256) ∷ []

unfoldable pub write_u32 : ℕ → Writer
write_u32 value out =
    out
    ++ (value / 2 ^ 24 % 256) ∷ (value / 2 ^ 16 % 256) ∷ (value / 2 ^ 8 % 256) ∷ (value % 256) ∷ []

-- `extend_from_slice`, and `write_array`, which is no more.
unfoldable pub write_array : Bytes → Writer
write_array value out = out ++ value

-- `len as u16` keeps the low 16 bits of the length.
unfoldable pub write_bytes : Bytes → Writer
write_bytes value = do write_u16 (length value % 2 ^ 16); write_array value

unfoldable pub write_string : Bytes → Writer
write_string text = do write_u16 (length text % 2 ^ 16); write_array text

unfoldable pub write_ip_addr : IpAddr → Writer
write_ip_addr (v4 octets) = do write_u8 4; write_array octets
write_ip_addr (v6 octets) = do write_u8 6; write_array octets

unfoldable pub write_socket_addr : SocketAddr → Writer
write_socket_addr addr = do write_ip_addr addr.ip; write_u16 addr.port
