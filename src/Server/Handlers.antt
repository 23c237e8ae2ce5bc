-- ===== src/Server/Handlers.antt =====
-- The handlers of ntied-server/src/server.rs, the receive loop and the cleanup task.
-- `run` handles one datagram after the other; the table's lock is held while a handler reads and
-- changes it, so a run is a sequence of datagrams and cleanups, each with the time of the clock
-- and with which of its sends the socket takes.
use ntied.Common.{ℕ, Bool, List, [], ◌∷◌, ◌++◌, Option, none, some, ok, err, if◌then◌else◌}
use ntied.ByteIo.{Bytes, SocketAddr}
use ntied.Crypto.{Primitives, public_key_from_bytes}
use ntied.Address.{Address, Address-discrete, to_address}
use ntied.ServerMessage.Request.{ServerRequest, ServerRegisterRequest, ServerConnectRequest}
use ntied.ServerMessage.Request
use ntied.ServerMessage.Response.{ServerResponse}
use ntied.ServerMessage.Response
use ntied.Server.Registry.{ClientInfo, Clients, Iteration, lookup, insert, touch, retain_active}
use mathlib.Core.Logic.{ite}
use native.Mathlib.Decide.{ℕ_discrete}

-- A datagram that the socket took: where to, and its bytes.
abbrev pub Datagram : Type 0
Datagram = SocketAddr × Bytes

pub record State : Type 0 where
  pub clients : Clients
  pub sent : List Datagram

-- A handler ends early with an error (`none`) when a send fails.
abbrev pub Action : Type 0
Action = State → State × Option (Unit {0})

infixl 5 ◌>>◌
unfoldable pub ◌>>◌ : Action → Action → Action
◌>>◌ m k s = let (s', done) = m s in elim done [ none ↦ (s', none) | some _ ↦ k s' ]

unfoldable pub return : Action
return s = (s, some tt)

unfoldable pub set_clients : Clients → Action
set_clients cs s = (record s { clients = cs }, some tt)

-- Which sends succeed.
abbrev pub Net : Type 0
Net = SocketAddr → Bytes → Bool

unfoldable pub send_response : Net → SocketAddr → ServerResponse → Action
send_response net addr response s =
    let bytes = Response.serialize response in
    if net addr bytes
    then (record s { sent = s.sent ++ (addr, bytes) ∷ [] }, some tt)
    else (s, none)

-- `CLIENT_TIMEOUT`, in milliseconds.
abbrev pub client_timeout : ℕ
client_timeout = 32000

unfoldable pub SocketAddr-discrete : Discrete SocketAddr
SocketAddr-discrete = hlevel ℕ_discrete

module _ (p : Primitives) (it : Iteration) (net : Net) where
  unfoldable pub register_error : SocketAddr → ServerRegisterRequest → ℕ → Action
  register_error addr req code =
      send_response net addr
        (Response.register_error (record { request_id = req.request_id; code = code }))

  unfoldable pub accept_client : ℕ → SocketAddr → ServerRegisterRequest → Action
  accept_client now addr req s =
      (do
        set_clients (
            insert req.address
              (record {
                addr = addr;
                public_key = req.public_key;
                address = req.address;
                last_seen = now;
              })
              s.clients)
        send_response net addr (Response.register (record { request_id = req.request_id })))
        s

  unfoldable pub handle_register : ℕ → SocketAddr → ServerRegisterRequest → Action
  unfolding register_error accept_client
  handle_register now addr req = elim (public_key_from_bytes p req.public_key) [
    | err _ ↦ register_error addr req 1
    | ok key ↦ elim (to_address p key) [
      | err _ ↦ register_error addr req 2
      | ok expected ↦
          ite (Address-discrete expected req.address) (accept_client now addr req)
            (register_error addr req 3)
    ]
  ]

  unfoldable pub connect_error : SocketAddr → ServerConnectRequest → ℕ → Action
  connect_error addr req code =
      send_response net addr
        (Response.connect_error (record { request_id = req.request_id; code = code }))

  -- The table is released: what follows works on copies of the two entries.
  unfoldable pub introduce : SocketAddr → ServerConnectRequest → ClientInfo → ClientInfo → Action
  unfolding connect_error
  introduce addr req peer requester =
      ite (SocketAddr-discrete peer.addr addr) (connect_error addr req 12) (do
        send_response net addr (
            Response.connect (record {
              request_id = req.request_id;
              public_key = peer.public_key;
              address = peer.address;
              addr = peer.addr;
            }))
        send_response net peer.addr (
            Response.incoming_connection (record {
              public_key = requester.public_key;
              address = requester.address;
              addr = requester.addr;
              source_id = req.source_id;
            })))

  -- The lookup of the peer, after the requester's entry was refreshed.
  unfoldable pub connect_peer : SocketAddr → ServerConnectRequest → ClientInfo → Action
  unfolding introduce connect_error
  connect_peer addr req requester s = elim (lookup req.address s.clients) [
    | none ↦ connect_error addr req 11 s
    | some peer ↦ introduce addr req peer requester s
  ]

  unfoldable pub connect_from : ℕ → SocketAddr → ServerConnectRequest → Option Address → Action
  unfolding connect_peer connect_error
  connect_from now addr req none = connect_error addr req 10
  connect_from now addr req (some own) = λ s.
      let cs = touch own now s.clients in
      elim (lookup own cs) [
        | none ↦ connect_error addr req 10 s
        | some requester ↦ (do set_clients cs; connect_peer addr req requester) s
      ]

  unfoldable pub handle_connect : ℕ → SocketAddr → ServerConnectRequest → Action
  unfolding connect_from
  handle_connect now addr req s = connect_from now addr req (it.find addr s.clients) s

  unfoldable pub heartbeat_from : ℕ → SocketAddr → Option Address → Action
  heartbeat_from now addr none = return
  heartbeat_from now addr (some own) =
      λ s. (do set_clients (touch own now s.clients); send_response net addr Response.heartbeat) s

  unfoldable pub handle_heartbeat : ℕ → SocketAddr → Action
  unfolding heartbeat_from
  handle_heartbeat now addr s = heartbeat_from now addr (it.find addr s.clients) s

  unfoldable pub handle_request : ℕ → SocketAddr → ServerRequest → Action
  handle_request now addr Request.heartbeat = handle_heartbeat now addr
  handle_request now addr (Request.register req) = handle_register now addr req
  handle_request now addr (Request.connect req) = handle_connect now addr req

  -- One turn of the receive loop. An error is logged and the loop goes on.
  unfoldable pub receive : ℕ → SocketAddr → Bytes → State → State
  receive now addr bytes s = elim (Request.deserialize bytes) [
    | err _ ↦ s
    | ok request ↦ (handle_request now addr request s).0
  ]

-- One turn of the cleanup task.
unfoldable pub cleanup : ℕ → State → State
cleanup now s = record s { clients = retain_active client_timeout now s.clients }

pub data Event : Type 0 where
  received : Net → (now : ℕ) → SocketAddr → Bytes → Event
  cleaned : (now : ℕ) → Event

unfoldable pub step : Primitives → Iteration → State → Event → State
step p it s (received net now addr bytes) = receive p it net now addr bytes s
step p it s (cleaned now) = cleanup now s

unfoldable pub run : Primitives → Iteration → State → List Event → State
run p it s [] = s
run p it s (e ∷ es) = run p it (step p it s e) es

abbrev pub start : State
start = record { clients = []; sent = [] }
