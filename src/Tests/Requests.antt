-- ===== src/Tests/Requests.antt =====
-- A request to the server, its answer, and a run of a server connection.
use ntied.Common.{◌≡◌, ◌≢◌, refl, ℕ, ◌+◌, ◌%◌, ◌^◌, ◌<◌, List, [], ◌∷◌, some, none, ok, true, arith}
use ntied.ServerMessage.Response.{ServerConnectResponse, serialize}
use ntied.ServerMessage.Response
use ntied.ServerConnection.{new, begin_connect, receive, await, connect_result, next_request_id}
use ntied.ServerConnection.Matching.{Matched}
use ntied.ServerConnection.Served.{
  Event, registers, connects, times_out, receives, beats, stops, run, run-new,
}
use ntied.ServerConnection.Answer.{connect-answered, next_request_id-returns}
use ntied.Tests.Toy.{toy, address_of, addr_of}

abbrev reply : ServerConnectResponse
reply = record {
  request_id = 1;
  public_key = 9 ∷ [];
  address = address_of 9;
  addr = addr_of 9 4000;
}

abbrev events : List (Event toy)
events =
    registers (address_of 7) (7 ∷ []) true
    ∷ receives (1 ∷ 0 ∷ 0 ∷ 0 ∷ 1 ∷ [])
    ∷ connects (address_of 9) 4 true
    ∷ times_out 1
    ∷ beats true
    ∷ stops
    ∷ []

run-new_example : Matched toy (run toy (new toy) events)
run-new_example = run-new toy events

connect-answered_example :
    let (s', result) = begin_connect toy (address_of 9) 4 true (new toy) in
    (n : ℕ) × (result ≡ ok n)
    × (await toy
          (connect_result toy)
          ((receive toy (serialize (Response.connect reply)) s').waiters n)
        ≡ some (
            ok (record {
              addr = addr_of 9 4000;
              address = address_of 9;
              public_key = 9;
              source_id = none;
            })))
unfolding new next_request_id ntied.Crypto.public_key_from_bytes
connect-answered_example =
    connect-answered toy (address_of 9) 4 1 2 reply 9 (new toy) refl
      (record {
        request_id = omega arith;
        public_key = omega arith;
        address = refl;
        addr = record { ip = refl; port = omega arith };
      })
      refl refl

next_request_id-returns_example :
    (id : ℕ) × (counter' : ℕ) × (next_request_id 2 4294967295 ≡ some (id, counter'))
    × (id ≢ 0)
    × (id < 2 ^ 32)
    × (counter' ≡ (id + 1) % 2 ^ 32)
next_request_id-returns_example = next_request_id-returns 4294967295 (omega arith)
