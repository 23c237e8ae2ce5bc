-- ===== src/ServerMessage/Request.antt =====
-- `ServerRequest` of ntied-transport/src/server_message.rs.
use ntied.Common.{ℕ, Result, ok, [], ◌∷◌, ◌==◌, if◌then◌else◌}
use ntied.ByteIo.{
  Bytes, Error, unknown_request_type, Reader, Writer, ◌>>=◌, ◌>>◌, return, fail, skip, read_u8,
  read_u32, read_bytes, write_u8, write_u32, write_bytes,
}
use ntied.Address.{Address}
use ntied.Packet.Fields.{write_address, read_address, decode}

pub record ServerRegisterRequest : Type 0 where
  pub request_id : ℕ
  pub public_key : Bytes
  pub address : Address

pub record ServerConnectRequest : Type 0 where
  pub request_id : ℕ
  pub address : Address
  pub source_id : ℕ

pub data ServerRequest : Type 0 where
  heartbeat : ServerRequest
  register : ServerRegisterRequest → ServerRequest
  connect : ServerConnectRequest → ServerRequest

unfoldable pub write_register : ServerRegisterRequest → Writer
write_register v = do write_u32 v.request_id; write_bytes v.public_key; write_address v.address

unfoldable pub read_register : Reader ServerRegisterRequest
read_register = do
  request_id ← read_u32
  public_key ← read_bytes
  address ← read_address
  return (record { request_id = request_id; public_key = public_key; address = address })

unfoldable pub write_connect : ServerConnectRequest → Writer
write_connect v = do write_u32 v.request_id; write_address v.address; write_u32 v.source_id

unfoldable pub read_connect : Reader ServerConnectRequest
read_connect = do
  request_id ← read_u32
  address ← read_address
  source_id ← read_u32
  return (record { request_id = request_id; address = address; source_id = source_id })

unfoldable pub write_request : ServerRequest → Writer
write_request heartbeat = skip
write_request (register v) = do write_u8 1; write_register v
write_request (connect v) = do write_u8 2; write_connect v

-- `ServerRequest::serialize`.
unfoldable pub serialize : ServerRequest → Bytes
serialize request = write_request request []

read_request_of_type : ℕ → Reader ServerRequest
read_request_of_type request_type =
    if request_type == 1
    then (do v ← read_register; return (register v))
    else if request_type == 2
    then (do v ← read_connect; return (connect v))
    else fail unknown_request_type

unfoldable pub read_request : Reader ServerRequest
unfolding read_request_of_type
read_request = do request_type ← read_u8; read_request_of_type request_type

-- `ServerRequest::deserialize`: no bytes are a heartbeat.
unfoldable pub deserialize : Bytes → Result Error ServerRequest
deserialize [] = ok heartbeat
deserialize (a ∷ rest) = decode read_request (a ∷ rest)
