-- ===== src/Packet/Fields.antt =====
-- How packet.rs and server_message.rs read and write an address, and what a reader makes of a whole
-- datagram.
use ntied.Common.{◌≡◌, refl, ap, [], ◌++◌, Result, ok, err}
use ntied.ByteIo.Trip.{Trip, Trip-last, Trip-whole}
use ntied.ByteIo.Fields.{Trip-array}
use ntied.ByteIo.{Bytes, Error, Reader, Writer, ◌>>=◌, return, read_array, write_array}
use ntied.Address.{IsAddress, Address, address_len, from_bytes, as_bytes}

unfoldable pub write_address : Address → Writer
unfolding as_bytes
write_address address = write_array (as_bytes address)

unfoldable pub read_address : Reader Address
unfolding from_bytes
read_address = do bytes ← read_array address_len; return (from_bytes bytes)

drop_rest : {A : Type 0} → Result Error (A × Bytes) → Result Error A
drop_rest (err e) = err e
drop_rest (ok (a, rest)) = ok a

-- Bytes that the reader leaves are not looked at.
unfoldable pub decode : {A : Type 0} → Reader A → Bytes → Result Error A
unfolding drop_rest
decode r bytes = drop_rest (r bytes)

pub decode-Trip :
    {A : Type 0} {w : Writer} {r : Reader A} {a : A}
    → Trip w r a
    → (rest : Bytes) → decode r (w [] ++ rest) ≡ ok a
unfolding decode
decode-Trip t rest = ap drop_rest (Trip-whole t rest)

pub Trip-address : (a : Address) → IsAddress a → Trip (write_address a) read_address a
unfolding write_address read_address return
Trip-address a h = Trip-last _ (Trip-array a.bytes 33 h) (λ rest. refl)
