-- ===== src/ServerMessage/Response.antt =====
-- `ServerResponse` of ntied-transport/src/server_message.rs.
use ntied.Common.{ℕ, Result, ok, [], ◌∷◌, ◌==◌, if◌then◌else◌}
use ntied.ByteIo.{
  Bytes, Error, unknown_response_type, SocketAddr, Reader, Writer, ◌>>=◌, ◌>>◌, return, fail, skip,
  read_u8, read_u16, read_u32, read_bytes, read_socket_addr, write_u8, write_u16, write_u32,
  write_bytes, write_socket_addr,
}
use ntied.Address.{Address}
use ntied.Packet.Fields.{write_address, read_address, decode}

pub record ServerRegisterResponse : Type 0 where
  pub request_id : ℕ

pub record ServerConnectResponse : Type 0 where
  pub request_id : ℕ
  pub public_key : Bytes
  pub address : Address
  pub addr : SocketAddr

pub record ServerErrorResponse : Type 0 where
  pub request_id : ℕ
  pub code : ℕ

pub record ServerIncomingConnectionResponse : Type 0 where
  pub public_key : Bytes
  pub address : Address
  pub addr : SocketAddr
  pub source_id : ℕ

pub data ServerResponse : Type 0 where
  heartbeat : ServerResponse
  register : ServerRegisterResponse → ServerResponse
  register_error : ServerErrorResponse → ServerResponse
  connect : ServerConnectResponse → ServerResponse
  connect_error : ServerErrorResponse → ServerResponse
  incoming_connection : ServerIncomingConnectionResponse → ServerResponse

unfoldable pub write_register : ServerRegisterResponse → Writer
write_register v = write_u32 v.request_id

unfoldable pub read_register : Reader ServerRegisterResponse
read_register = do request_id ← read_u32; return (record { request_id = request_id })

unfoldable pub write_error : ServerErrorResponse → Writer
write_error v = do write_u32 v.request_id; write_u16 v.code

unfoldable pub read_error : Reader ServerErrorResponse
read_error = do
  request_id ← read_u32
  code ← read_u16
  return (record { request_id = request_id; code = code })

unfoldable pub write_connect : ServerConnectResponse → Writer
write_connect v = do
  write_u32 v.request_id
  write_bytes v.public_key
  write_address v.address
  write_socket_addr v.addr

unfoldable pub read_connect : Reader ServerConnectResponse
read_connect = do
  request_id ← read_u32
  public_key ← read_bytes
  address ← read_address
  addr ← read_socket_addr
  return
      (record { request_id = request_id; public_key = public_key; address = address; addr = addr })

unfoldable pub write_incoming : ServerIncomingConnectionResponse → Writer
write_incoming v = do
  write_bytes v.public_key
  write_address v.address
  write_socket_addr v.addr
  write_u32 v.source_id

unfoldable pub read_incoming : Reader ServerIncomingConnectionResponse
read_incoming = do
  public_key ← read_bytes
  address ← read_address
  addr ← read_socket_addr
  source_id ← read_u32
  return (record { public_key = public_key; address = address; addr = addr; source_id = source_id })

unfoldable pub write_response : ServerResponse → Writer
write_response heartbeat = skip
write_response (register v) = do write_u8 1; write_register v
write_response (register_error v) = do write_u8 2; write_error v
write_response (connect v) = do write_u8 3; write_connect v
write_response (connect_error v) = do write_u8 4; write_error v
write_response (incoming_connection v) = do write_u8 5; write_incoming v

-- `ServerResponse::serialize`.
unfoldable pub serialize : ServerResponse → Bytes
serialize response = write_response response []

read_response_of_type : ℕ → Reader ServerResponse
read_response_of_type response_type =
    if response_type == 1
    then (do v ← read_register; return (register v))
    else if response_type == 2
    then (do v ← read_error; return (register_error v))
    else if response_type == 3
    then (do v ← read_connect; return (connect v))
    else if response_type == 4
    then (do v ← read_error; return (connect_error v))
    else if response_type == 5
    then (do v ← read_incoming; return (incoming_connection v))
    else fail unknown_response_type

unfoldable pub read_response : Reader ServerResponse
unfolding read_response_of_type
read_response = do response_type ← read_u8; read_response_of_type response_type

-- `ServerResponse::deserialize`: no bytes are a heartbeat.
unfoldable pub deserialize : Bytes → Result Error ServerResponse
deserialize [] = ok heartbeat
deserialize (a ∷ rest) = decode read_response (a ∷ rest)
