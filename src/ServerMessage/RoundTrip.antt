-- ===== src/ServerMessage/RoundTrip.antt =====
-- Every message that fits the format is read back as it was written.
use ntied.Common.{append-nil, ok, ℕ, ◌≡◌, refl, [], ◌∷◌}
use ntied.ByteIo.{Reader, Writer, skip, ◌>>◌, return, write_u8}
use ntied.ByteIo.Trip.{Trip, Trip-bind, Trip-last}
use ntied.ByteIo.Fields.{
  Trip-u8, IsU16, IsU32, IsShort, IsSocketAddr, Trip-u16, Trip-u32, Trip-bytes, Trip-socket_addr,
}
use ntied.Address.{IsAddress}
use ntied.Packet.Fields.{decode, decode-Trip, Trip-address}
use ntied.ServerMessage.Request.{ServerRequest, ServerRegisterRequest, ServerConnectRequest}
use ntied.ServerMessage.Request
use ntied.ServerMessage.Response.{
  ServerResponse, ServerRegisterResponse, ServerErrorResponse, ServerConnectResponse,
  ServerIncomingConnectionResponse,
}
use ntied.ServerMessage.Response

-- The values of the Rust types whose keys the 16-bit length prefix can count.
pub record IsRegister (v : ServerRegisterRequest) : Type 0 where
  pub request_id : IsU32 v.request_id
  pub public_key : IsShort v.public_key
  pub address : IsAddress v.address

pub record IsConnect (v : ServerConnectRequest) : Type 0 where
  pub request_id : IsU32 v.request_id
  pub address : IsAddress v.address
  pub source_id : IsU32 v.source_id

abbrev pub RequestFits : ServerRequest → Type 0
RequestFits Request.heartbeat = Unit
RequestFits (Request.register v) = IsRegister v
RequestFits (Request.connect v) = IsConnect v

pub record IsError (v : ServerErrorResponse) : Type 0 where
  pub request_id : IsU32 v.request_id
  pub code : IsU16 v.code

pub record IsConnected (v : ServerConnectResponse) : Type 0 where
  pub request_id : IsU32 v.request_id
  pub public_key : IsShort v.public_key
  pub address : IsAddress v.address
  pub addr : IsSocketAddr v.addr

pub record IsIncoming (v : ServerIncomingConnectionResponse) : Type 0 where
  pub public_key : IsShort v.public_key
  pub address : IsAddress v.address
  pub addr : IsSocketAddr v.addr
  pub source_id : IsU32 v.source_id

abbrev pub ResponseFits : ServerResponse → Type 0
ResponseFits Response.heartbeat = Unit
ResponseFits (Response.register v) = IsU32 v.request_id
ResponseFits (Response.register_error v) = IsError v
ResponseFits (Response.connect v) = IsConnected v
ResponseFits (Response.connect_error v) = IsError v
ResponseFits (Response.incoming_connection v) = IsIncoming v

-- A message of type `t` is not empty, so it is no heartbeat.
write_typed :
    {A : Type 0} {w : Writer} {r : Reader A} {a : A} (t : ℕ)
    → Trip w r a
    → (do write_u8 t; w) [] ≡ t ∷ w []
unfolding ◌>>◌ write_u8
write_typed t u = rw (u.writes (t ∷ []), u.writes [])

-- A message of type `t` as a whole datagram.
decode_typed :
    {A B : Type 0} {w : Writer} {r : Reader A} {a : A} (read : Reader B) {b : B} (t : ℕ)
    → Trip w r a
    → Trip (do write_u8 t; w) read b
    → decode read (t ∷ w []) ≡ ok b
decode_typed read t u whole =
    rw (append-nil ((do write_u8 t; _) []), write_typed t u) at (decode-Trip whole [])

Trip-register :
    (v : ServerRegisterRequest)
    → IsRegister v
    → Trip (Request.write_register v) Request.read_register v
unfolding Request.write_register Request.read_register return
Trip-register v h = Trip-bind _ (Trip-u32 v.request_id h.request_id) (
    Trip-bind _ (Trip-bytes v.public_key h.public_key)
      (Trip-last _ (Trip-address v.address h.address) (λ rest. refl)))

Trip-connect :
    (v : ServerConnectRequest) → IsConnect v → Trip (Request.write_connect v) Request.read_connect v
unfolding Request.write_connect Request.read_connect return
Trip-connect v h = Trip-bind _ (Trip-u32 v.request_id h.request_id) (
    Trip-bind _ (Trip-address v.address h.address)
      (Trip-last _ (Trip-u32 v.source_id h.source_id) (λ rest. refl)))

Trip-registered :
    (v : ServerRegisterResponse)
    → IsU32 v.request_id
    → Trip (Response.write_register v) Response.read_register v
unfolding Response.write_register Response.read_register return
Trip-registered v h = Trip-last _ (Trip-u32 v.request_id h) (λ rest. refl)

Trip-error :
    (v : ServerErrorResponse) → IsError v → Trip (Response.write_error v) Response.read_error v
unfolding Response.write_error Response.read_error return
Trip-error v h =
    Trip-bind _ (Trip-u32 v.request_id h.request_id)
      (Trip-last _ (Trip-u16 v.code h.code) (λ rest. refl))

Trip-connected :
    (v : ServerConnectResponse)
    → IsConnected v
    → Trip (Response.write_connect v) Response.read_connect v
unfolding Response.write_connect Response.read_connect return
Trip-connected v h = Trip-bind _ (Trip-u32 v.request_id h.request_id) (
    Trip-bind _ (Trip-bytes v.public_key h.public_key) (
      Trip-bind _ (Trip-address v.address h.address)
        (Trip-last _ (Trip-socket_addr v.addr h.addr) (λ rest. refl))))

Trip-incoming :
    (v : ServerIncomingConnectionResponse)
    → IsIncoming v
    → Trip (Response.write_incoming v) Response.read_incoming v
unfolding Response.write_incoming Response.read_incoming return
Trip-incoming v h = Trip-bind _ (Trip-bytes v.public_key h.public_key) (
    Trip-bind _ (Trip-address v.address h.address) (
      Trip-bind _ (Trip-socket_addr v.addr h.addr)
        (Trip-last _ (Trip-u32 v.source_id h.source_id) (λ rest. refl))))

-- The request that `serialize` was given, if the format can hold it, is what `deserialize` returns.
pub request-deserialize-serialize :
    (v : ServerRequest) → RequestFits v → Request.deserialize (Request.serialize v) ≡ ok v
unfolding Request.deserialize Request.serialize Request.write_request
request-deserialize-serialize Request.heartbeat h = unfold skip in refl
request-deserialize-serialize (Request.register v) h =
    rw (write_typed 1 (Trip-register v h), Request.deserialize)
      (decode_typed Request.read_request 1 (Trip-register v h) (
        unfold Request.read_request in
        Trip-bind _ (Trip-u8 1) (Trip-last _ (Trip-register v h) (λ rest. unfold return in refl))))
request-deserialize-serialize (Request.connect v) h =
    rw (write_typed 2 (Trip-connect v h), Request.deserialize)
      (decode_typed Request.read_request 2 (Trip-connect v h) (
        unfold Request.read_request in
        Trip-bind _ (Trip-u8 2) (Trip-last _ (Trip-connect v h) (λ rest. unfold return in refl))))

-- The response that `serialize` was given, if the format can hold it, is what `deserialize` returns.
pub response-deserialize-serialize :
    (v : ServerResponse) → ResponseFits v → Response.deserialize (Response.serialize v) ≡ ok v
unfolding Response.deserialize Response.serialize Response.write_response
response-deserialize-serialize Response.heartbeat h = unfold skip in refl
response-deserialize-serialize (Response.register v) h =
    rw (write_typed 1 (Trip-registered v h), Response.deserialize)
      (decode_typed Response.read_response 1 (Trip-registered v h) (
        unfold Response.read_response in
        Trip-bind _ (Trip-u8 1)
          (Trip-last _ (Trip-registered v h) (λ rest. unfold return in refl))))
response-deserialize-serialize (Response.register_error v) h =
    rw (write_typed 2 (Trip-error v h), Response.deserialize)
      (decode_typed Response.read_response 2 (Trip-error v h) (
        unfold Response.read_response in
        Trip-bind _ (Trip-u8 2) (Trip-last _ (Trip-error v h) (λ rest. unfold return in refl))))
response-deserialize-serialize (Response.connect v) h =
    rw (write_typed 3 (Trip-connected v h), Response.deserialize)
      (decode_typed Response.read_response 3 (Trip-connected v h) (
        unfold Response.read_response in
        Trip-bind _ (Trip-u8 3) (Trip-last _ (Trip-connected v h) (λ rest. unfold return in refl))))
response-deserialize-serialize (Response.connect_error v) h =
    rw (write_typed 4 (Trip-error v h), Response.deserialize)
      (decode_typed Response.read_response 4 (Trip-error v h) (
        unfold Response.read_response in
        Trip-bind _ (Trip-u8 4) (Trip-last _ (Trip-error v h) (λ rest. unfold return in refl))))
response-deserialize-serialize (Response.incoming_connection v) h =
    rw (write_typed 5 (Trip-incoming v h), Response.deserialize)
      (decode_typed Response.read_response 5 (Trip-incoming v h) (
        unfold Response.read_response in
        Trip-bind _ (Trip-u8 5) (Trip-last _ (Trip-incoming v h) (λ rest. unfold return in refl))))
