-- ===== src/ServerConnection/Answer.antt =====
-- An id for each request, and what connect returns once the server has answered it.
use ntied.Common.{
  ℕ, zero, suc, ◌+◌, ◌%◌, ◌^◌, ◌<◌, ◌==◌, ◌≡◌, ◌≢◌, refl, true, none, some, ok, arith, sym, subst,
}
use ntied.Address.{Address}
use ntied.Crypto.{Primitives, public_key_from_bytes}
use ntied.ServerMessage.Request.{ServerRequest}
use ntied.ServerMessage.Request
use ntied.ServerMessage.Response.{ServerResponse, ServerConnectResponse, deserialize, serialize}
use ntied.ServerMessage.Response
use ntied.ServerMessage.RoundTrip.{IsConnected, response-deserialize-serialize}
use ntied.ServerConnection.{
  waiting, answered, get, Waiter, ServerConnection, next_request_id, set_request, set_waiter,
  update, drop_sender, submit, begin_connect, connect_result, await, resolve, handle, receive,
}

-- For any value of the 32-bit counter, the loop ends after two turns at most: it gives a number that
-- is not 0, and the counter moves past it, so that the next one is another.
pub next_request_id-returns :
    (counter : ℕ)
    → counter < 2 ^ 32
    → (id : ℕ) × (counter' : ℕ) × (next_request_id 2 counter ≡ some (id, counter'))
      × (id ≢ 0)
      × (id < 2 ^ 32)
      × (counter' ≡ (id + 1) % 2 ^ 32)
unfolding next_request_id
next_request_id-returns zero small = (1, 2, refl, (λ e. cc), omega arith, refl)
next_request_id-returns (suc n) small =
    (suc n, (suc n + 1) % 2 ^ 32, ground arith, (λ e. omega (arith, e)), small, refl)

module _ (p : Primitives) where
  -- The call that was stored last.
  resolve-waiting :
      (id n : ℕ) (r : ServerResponse) (s : ServerConnection p)
      → s.requests id ≡ some n
      → (s.waiters n).outcome ≡ waiting
      → ((resolve p id r s).waiters n).outcome ≡ answered r
  unfolding resolve update set_waiter set_request get
  resolve-waiting id n r s e w =
      let same : (n == n) ≡ true = ground arith in rw (e, resolve, same, w) refl

  submitted :
      (request : ServerRequest) (id : ℕ) (s : ServerConnection p)
      → let (s', result) = submit p request id true s in
        let n = (drop_sender p (s.requests id) s).next_waiter in
        (result ≡ ok n) × (s'.requests id ≡ some n) × ((s'.waiters n).outcome ≡ waiting)
  unfolding submit set_request set_waiter
  submitted request id s = (refl, ground arith, ground arith)

  begin_connect_as :
      (address : Address) (source_id id counter : ℕ) (s : ServerConnection p)
      → next_request_id 2 s.request_id ≡ some (id, counter)
      → begin_connect p address source_id true s
        ≡ submit p
            (Request.connect (record { request_id = id; address = address; source_id = source_id }))
            id
            true
            (record s { request_id = counter })
  unfolding begin_connect
  begin_connect_as address source_id id counter s e = rw (e, begin_connect) refl

  receive-resolve :
      (resp : ServerConnectResponse) (s : ServerConnection p)
      → IsConnected resp
      → receive p (serialize (Response.connect resp)) s
        ≡ resolve p resp.request_id (Response.connect resp) s
  unfolding receive handle
  receive-resolve resp s fits =
      rw (response-deserialize-serialize (Response.connect resp) fits, receive) refl

  answer_of :
      (resp : ServerConnectResponse) (key : p.PublicKey) (waiter : Waiter)
      → waiter.outcome ≡ answered (Response.connect resp)
      → public_key_from_bytes p resp.public_key ≡ ok key
      → await p (connect_result p) waiter
        ≡ some (
            ok (record {
              addr = resp.addr;
              address = resp.address;
              public_key = key;
              source_id = none;
            }))
  unfolding await connect_result
  answer_of resp key waiter e k = rw (e, await, connect_result, k) refl

  -- For an id that the counter gives, and a response with that id that fits the format and whose key
  -- parses: after connect has sent its request, and the server's response has come in as bytes, the
  -- call returns the peer of the response, with its address, its socket address and its key.
  pub connect-answered :
      (address : Address) (source_id id counter : ℕ) (resp : ServerConnectResponse)
      → (key : p.PublicKey) (s : ServerConnection p)
      → next_request_id 2 s.request_id ≡ some (id, counter)
      → IsConnected resp
      → resp.request_id ≡ id
      → public_key_from_bytes p resp.public_key ≡ ok key
      → let (s', result) = begin_connect p address source_id true s in
        (n : ℕ) × (result ≡ ok n)
        × (await p (connect_result p) ((receive p (serialize (Response.connect resp)) s').waiters n)
            ≡ some (
                ok (record {
                  addr = resp.addr;
                  address = resp.address;
                  public_key = key;
                  source_id = none;
                })))
  connect-answered address source_id id counter resp key s draws fits same parses =
      let request =
        Request.connect (record { request_id = id; address = address; source_id = source_id }) in
      let counted = record s { request_id = counter } in
      let (s', result) = submit p request id true counted in
      let n = (drop_sender p (s.requests id) counted).next_waiter in
      let (returned, found, waits) = submitted request id counted in
      let got =
        resolve-waiting resp.request_id n (Response.connect resp) s'
          (subst (λ j. s'.requests j ≡ some n) (sym same) found) waits in
      rw (begin_connect_as address source_id id counter s draws)
        (n, returned, rw (receive-resolve resp s' fits) (answer_of resp key _ got parses))
