-- ===== src/ByteIo/Length.antt =====
-- Byte strings of any length behind their 16-bit length prefix.
use ntied.Common.{
  ℕ, ◌+◌, ◌*◌, ◌/◌, ◌%◌, ◌^◌, ◌≤◌, ◌≡◌, [], ◌++◌, ok, length, take, drop, take_append_of_le,
  drop_append_of_le, length-append, le→ltb, arith,
}
use ntied.ByteIo.{
  Bytes, read_u16, read_array, read_bytes, write_u16, write_array, write_bytes, ◌>>=◌, ◌>>◌,
}

-- An array that is cut out of a longer one.
read_array_of_le :
    (n : ℕ) (value rest : Bytes)
    → n ≤ length value
    → read_array n (value ++ rest) ≡ ok (take n value, drop n value ++ rest)
unfolding read_array
read_array_of_le n value rest h = rw (
  le→ltb (length (value ++ rest)) n (omega (arith, h, length-append value rest)),
  take_append_of_le n value rest h,
  drop_append_of_le n value rest h,
)

-- Of a byte string that `write_bytes` wrote, `read_bytes` gives back the first n bytes, where n is
-- the length modulo 2 ^ 16: the whole string if it is short enough, else a part of it, and then the
-- other bytes are read as if they were the fields that follow.
pub read_bytes-write_bytes :
    (value rest : Bytes)
    → read_bytes (write_bytes value [] ++ rest)
      ≡ ok (take (length value % 2 ^ 16) value, drop (length value % 2 ^ 16) value ++ rest)
unfolding read_bytes write_bytes ◌>>=◌ ◌>>◌ write_array write_u16 read_u16
read_bytes-write_bytes value rest =
    let n = length value % 2 ^ 16 in
    let prefix : (n / 256 % 256) * 256 + n % 256 ≡ n = omega arith in
    rw prefix (read_array_of_le n value rest (omega arith))
