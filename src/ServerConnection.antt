-- ===== src/ServerConnection.antt =====
-- ntied-transport/src/server_connection.rs: requests to the coordination server and what comes back.
-- The map of pending requests holds the sender of a channel with room for one response; the call
-- that waits at its other end is a `Waiter`, and the map holds its number.
pub mod Matching
pub mod Served
pub mod Answer
use ntied.Common.{
  ℕ, zero, suc, ◌+◌, ◌%◌, ◌^◌, ◌==◌, Bool, true, false, List, [], ◌∷◌, ◌++◌, Option, none, some,
  Result, ok, err, if◌then◌else◌,
}
use ntied.ByteIo.{Bytes, SocketAddr}
use ntied.Address.{Address}
use ntied.Crypto.{Primitives, public_key_from_bytes}
use ntied.ServerMessage.Request.{ServerRequest, ServerRegisterRequest, ServerConnectRequest}
use ntied.ServerMessage.Request
use ntied.ServerMessage.Response.{
  ServerResponse, ServerConnectResponse, ServerIncomingConnectionResponse, deserialize,
}
use ntied.ServerMessage.Response

-- What a waiting call has got. A call that timed out is gone, and its sender is still in the map.
pub data Outcome : Type 0 where
  waiting closed gone : Outcome
  answered : ServerResponse → Outcome

-- The sender is dropped, the call times out, or the sender sends: only a call that waits notices.
unfoldable pub close : Outcome → Outcome
close waiting = closed
close o = o

unfoldable pub leave : Outcome → Outcome
leave waiting = gone
leave o = o

unfoldable pub get : ServerResponse → Outcome → Outcome
get r waiting = answered r
get r o = o

pub record Waiter : Type 0 where
  pub request_id : ℕ
  pub outcome : Outcome

pub data ServerError : Type 0 where
  send_failed timed_out channel_closed unexpected_response bad_key : ServerError
  code : ℕ → ServerError

-- `next_request_id_static`: the loop over `fetch_add`, with the counter after it. Fuel of two is
-- enough, since only one number is refused.
unfoldable pub next_request_id : ℕ → ℕ → Option (ℕ × ℕ)
next_request_id zero counter = none
next_request_id (suc fuel) counter =
    let rest = next_request_id fuel ((counter + 1) % 2 ^ 32) in
    if counter == 0 then rest else some (counter, (counter + 1) % 2 ^ 32)

module _ (p : Primitives) where
  open p use {PublicKey}

  pub record PeerInfo : Type 0 where
    pub addr : SocketAddr
    pub address : Address
    pub public_key : PublicKey
    pub source_id : Option ℕ

  -- `ServerConnection`, with the calls that wait, the channel of introduced peers and what was sent,
  -- the last one first.
  pub record ServerConnection : Type 0 where
    pub requests : ℕ → Option ℕ
    pub request_id : ℕ
    pub alive : Bool
    pub accepted : List PeerInfo
    pub waiters : ℕ → Waiter
    pub next_waiter : ℕ
    pub sent : List ServerRequest

  unfoldable pub set_request : ℕ → Option ℕ → ServerConnection → ServerConnection
  set_request id waiter s = record s { requests = λ j. if id == j then waiter else s.requests j }

  unfoldable pub set_waiter : ℕ → Waiter → ServerConnection → ServerConnection
  set_waiter n waiter s = record s { waiters = λ j. if n == j then waiter else s.waiters j }

  unfoldable pub update : (Outcome → Outcome) → ℕ → ServerConnection → ServerConnection
  update f n s = set_waiter n (record (s.waiters n) { outcome = f (s.waiters n).outcome }) s

  -- The sender that `insert` replaces, if there is one.
  unfoldable pub drop_sender : Option ℕ → ServerConnection → ServerConnection
  drop_sender none s = s
  drop_sender (some n) s = update close n s

  -- A request under a given id: its sender is stored, then it is sent, and a failure is returned
  -- with the sender left in the map.
  unfoldable pub submit :
      ServerRequest → ℕ → Bool → ServerConnection → ServerConnection × Result ServerError ℕ
  submit request id sends s =
      let s' = drop_sender (s.requests id) s in
      let n = s'.next_waiter in
      let stored =
        set_request id (some n)
          (record (set_waiter n (record { request_id = id; outcome = waiting }) s') {
            next_waiter = suc n;
          }) in
      if sends
      then (record stored { sent = request ∷ stored.sent }, ok n)
      else (set_waiter n (record { request_id = id; outcome = gone }) stored, err send_failed)

  -- `connect` up to the wait. The id is drawn by `next_request_id`.
  unfoldable pub begin_connect :
      Address → ℕ → Bool → ServerConnection → ServerConnection × Result ServerError ℕ
  begin_connect address source_id sends s = elim (next_request_id 2 s.request_id) [
    | none ↦ (s, err send_failed)
    | some (id, counter) ↦
        submit
          (Request.connect (record { request_id = id; address = address; source_id = source_id }))
          id sends (record s { request_id = counter })
  ]

  -- `register` up to the wait.
  unfoldable pub begin_register :
      Address → Bytes → Bool → ServerConnection → ServerConnection × Result ServerError ℕ
  begin_register address public_key sends s = elim (next_request_id 2 s.request_id) [
    | none ↦ (s, err send_failed)
    | some (id, counter) ↦
        submit
          (Request.register
            (record { request_id = id; public_key = public_key; address = address }))
          id sends (record s { request_id = counter })
  ]

  -- The wait ends at the timeout.
  unfoldable pub time_out : ℕ → ServerConnection → ServerConnection
  time_out n s = update leave n s

  -- What `connect` makes of the response.
  unfoldable pub connect_result : ServerResponse → Result ServerError PeerInfo
  connect_result (Response.connect resp) = elim (public_key_from_bytes p resp.public_key) [
    | err e ↦ err bad_key
    | ok key ↦
        ok (record { addr = resp.addr; address = resp.address; public_key = key; source_id = none })
  ]
  connect_result (Response.connect_error e) = err (code e.code)
  connect_result _ = err unexpected_response

  -- What `register` makes of the response.
  unfoldable pub register_result : ServerResponse → Result ServerError (Unit {0})
  register_result (Response.register resp) = ok tt
  register_result (Response.register_error e) = err (code e.code)
  register_result _ = err unexpected_response

  -- `none` while the call still waits.
  unfoldable pub await :
      {A : Type 0}
      → (ServerResponse → Result ServerError A)
      → Waiter
      → Option (Result ServerError A)
  await result waiter = elim waiter.outcome [
    | waiting ↦ none
    | gone ↦ some (err timed_out)
    | closed ↦ some (err channel_closed)
    | answered r ↦ some (result r)
  ]

  -- A response goes to the call whose id it has, if there is one; a call that is gone does not get
  -- it.
  unfoldable pub resolve : ℕ → ServerResponse → ServerConnection → ServerConnection
  resolve id response s = elim (s.requests id) [
    | none ↦ s
    | some n ↦ update (get response) n (set_request id none s)
  ]

  unfoldable pub introduce : ServerIncomingConnectionResponse → ServerConnection → ServerConnection
  introduce resp s = elim (public_key_from_bytes p resp.public_key) [
    | err e ↦ s
    | ok key ↦ record s {
      accepted =
          s.accepted
          ++ record {
            addr = resp.addr;
            address = resp.address;
            public_key = key;
            source_id = some resp.source_id;
          }
            ∷ [];
    }
  ]

  unfoldable pub handle : ServerResponse → ServerConnection → ServerConnection
  handle Response.heartbeat s = s
  handle (Response.register resp) s = resolve resp.request_id (Response.register resp) s
  handle (Response.register_error e) s = resolve e.request_id (Response.register_error e) s
  handle (Response.connect resp) s = resolve resp.request_id (Response.connect resp) s
  handle (Response.connect_error e) s = resolve e.request_id (Response.connect_error e) s
  handle (Response.incoming_connection resp) s = introduce resp s

  -- One turn of `receiver_loop`: what does not parse is passed over.
  unfoldable pub receive : Bytes → ServerConnection → ServerConnection
  receive bytes s = elim (deserialize bytes) [ err e ↦ s | ok response ↦ handle response s ]

  -- The end of `receiver_loop`: the map is cleared, which drops its senders; every call that waits
  -- has its sender there.
  unfoldable pub stop : ServerConnection → ServerConnection
  stop s = record s {
    alive = false;
    requests = λ id. none;
    waiters = λ n. record (s.waiters n) { outcome = close (s.waiters n).outcome };
  }

  -- One turn of `heartbeat_loop`, and whether there is a next one. A failure is only logged.
  unfoldable pub heartbeat_tick : Bool → ServerConnection → ServerConnection × Bool
  heartbeat_tick sends s =
      if s.alive
      then (if sends then record s { sent = Request.heartbeat ∷ s.sent } else s, true)
      else (s, false)

  -- The first of the introduced peers, and the rest.
  unfoldable pub receive_peer :
      List PeerInfo → ServerConnection → ServerConnection × Option PeerInfo
  receive_peer [] s = (s, none)
  receive_peer (peer ∷ rest) s = (record s { accepted = rest }, some peer)

  -- `accept`.
  unfoldable pub accept : ServerConnection → ServerConnection × Option PeerInfo
  accept s = receive_peer s.accepted s

  unfoldable pub new : ServerConnection
  new = record {
    requests = λ id. none;
    request_id = 0;
    alive = true;
    accepted = [];
    waiters = λ n. record { request_id = 0; outcome = closed };
    next_waiter = 0;
    sent = [];
  }
