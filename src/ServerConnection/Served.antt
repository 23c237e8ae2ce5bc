-- ===== src/ServerConnection/Served.antt =====
-- Every response goes to the call that asked for it, over any run.
use ntied.Common.{
  some_inj, ℕ, ◌≡◌, ◌≢◌, refl, Bool, List, [], ◌∷◌, Option, none, some, Option-cases, Bool-cases,
  Result-cases, inl, inr, arith, ap, sym, ◌∙◌,
}
use ntied.ByteIo.{Bytes}
use ntied.Address.{Address}
use ntied.Crypto.{Primitives, public_key_from_bytes}
use ntied.ServerMessage.Request.{ServerRequest}
use ntied.ServerMessage.Response.{ServerResponse, ServerIncomingConnectionResponse, deserialize}
use ntied.ServerMessage.Response
use ntied.ServerConnection.Matching.{
  Matched, settle-Matched, update-Matched, update_outcome, close-IsServed, leave-IsServed,
  close_idle, resolve-Matched, store_call-Matched,
}
use ntied.ServerConnection.{
  waiting, gone, ServerConnection, next_request_id, set_request, set_waiter, update, close, leave,
  drop_sender, submit, begin_connect, begin_register, time_out, introduce, handle, receive, stop,
  heartbeat_tick, accept, PeerInfo, receive_peer, new,
}

-- What may happen: the user connects, a call times out, a datagram comes, the receiver loop ends. A
-- new connection registers first.
module _ (p : Primitives) where
  pub data Event : Type 0 where
    registers : Address → Bytes → (sends : Bool) → Event
    connects : Address → (source_id : ℕ) → (sends : Bool) → Event
    times_out : ℕ → Event
    receives : Bytes → Event
    beats : (sends : Bool) → Event
    accepts stops : Event

  unfoldable pub step : ServerConnection p → Event → ServerConnection p
  step s (registers address public_key sends) = (begin_register p address public_key sends s).0
  step s (connects address source_id sends) = (begin_connect p address source_id sends s).0
  step s (times_out n) = time_out p n s
  step s (receives bytes) = receive p bytes s
  step s (beats sends) = (heartbeat_tick p sends s).0
  step s accepts = (accept p s).0
  step s stops = stop p s

  unfoldable pub run : ServerConnection p → List Event → ServerConnection p
  run s [] = s
  run s (e ∷ es) = run (step s e) es

  -- The sent requests, the peers and the rest do not matter.
  same-Matched :
      (s s' : ServerConnection p)
      → s'.requests ≡ s.requests
      → s'.waiters ≡ s.waiters
      → s'.next_waiter ≡ s.next_waiter
      → Matched p s
      → Matched p s'
  same-Matched s s' r w n v = record {
    pending = rw (r, w, n) v.pending;
    served = rw (r, w) v.served;
  }

  drop_sender-Matched :
      (c : Option ℕ) (s : ServerConnection p) → Matched p s → Matched p (drop_sender p c s)
  unfolding drop_sender
  drop_sender-Matched none s v = v
  drop_sender-Matched (some n) s v =
      update-Matched p close n s (λ o h. close-IsServed p s.requests n _ o h s.requests) v

  drop_sender_idle :
      (id m : ℕ) (c : Option ℕ) (s : ServerConnection p)
      → s.requests id ≡ c
      → (drop_sender p c s).requests id ≡ some m
      → ((drop_sender p c s).waiters m).outcome ≢ waiting
  unfolding drop_sender
  drop_sender_idle id m none s e f o = absurd (ground (arith, sym e ∙ f))
  drop_sender_idle id m (some n) s e f o =
      let same : n ≡ m = some_inj (sym e ∙ (unfold update set_waiter in f)) in
      close_idle p (s.waiters n).outcome (
        sym (update_outcome p close n s)
        ∙ ap (λ k. ((update p close n s).waiters k).outcome) same
        ∙ o)

  submit-Matched :
      (request : ServerRequest) (id : ℕ) (sends : Bool) (s : ServerConnection p)
      → Matched p s
      → Matched p (submit p request id sends s).0
  unfolding submit
  submit-Matched request id sends s v =
      let s' = drop_sender p (s.requests id) s in
      let n = s'.next_waiter in
      let stored =
        store_call-Matched p id s' (λ m. drop_sender_idle id m (s.requests id) s refl)
          (drop_sender-Matched (s.requests id) s v) in
      elim (Bool-cases sends) [
        | inl e ↦ rw e (same-Matched _ _ refl refl refl stored)
        | inr e ↦ rw e (
            settle-Matched p n (record { request_id = id; outcome = gone }) _
              (unfold set_waiter set_request in ground arith) tt stored)
      ]

  counted-Matched :
      (counter : ℕ) (s : ServerConnection p)
      → Matched p s
      → Matched p (record s { request_id = counter })
  counted-Matched counter s v = same-Matched s _ refl refl refl v

  begin_connect-Matched :
      (address : Address) (source_id : ℕ) (sends : Bool) (s : ServerConnection p)
      → Matched p s
      → Matched p (begin_connect p address source_id sends s).0
  unfolding begin_connect
  begin_connect-Matched address source_id sends s v =
      elim (Option-cases (next_request_id 2 s.request_id)) [
        | inl e ↦ rw (e, begin_connect) v
        | inr ((id, counter), e) ↦
            rw (e, begin_connect)
              (submit-Matched _ id sends (record s { request_id = counter })
                (counted-Matched counter s v))
      ]

  begin_register-Matched :
      (address : Address) (public_key : Bytes) (sends : Bool) (s : ServerConnection p)
      → Matched p s
      → Matched p (begin_register p address public_key sends s).0
  unfolding begin_register
  begin_register-Matched address public_key sends s v =
      elim (Option-cases (next_request_id 2 s.request_id)) [
        | inl e ↦ rw (e, begin_register) v
        | inr ((id, counter), e) ↦
            rw (e, begin_register)
              (submit-Matched _ id sends (record s { request_id = counter })
                (counted-Matched counter s v))
      ]

  introduce-Matched :
      (resp : ServerIncomingConnectionResponse) (s : ServerConnection p)
      → Matched p s
      → Matched p (introduce p resp s)
  unfolding introduce
  introduce-Matched resp s v = elim (Result-cases (public_key_from_bytes p resp.public_key)) [
    | inr (x, e) ↦ rw (e, introduce) v
    | inl (key, e) ↦ rw (e, introduce) (same-Matched s _ refl refl refl v)
  ]

  handle-Matched :
      (response : ServerResponse) (s : ServerConnection p)
      → Matched p s
      → Matched p (handle p response s)
  unfolding handle
  handle-Matched Response.heartbeat s v = v
  handle-Matched (Response.register r) s v = resolve-Matched p r.request_id _ s refl v
  handle-Matched (Response.register_error r) s v = resolve-Matched p r.request_id _ s refl v
  handle-Matched (Response.connect r) s v = resolve-Matched p r.request_id _ s refl v
  handle-Matched (Response.connect_error r) s v = resolve-Matched p r.request_id _ s refl v
  handle-Matched (Response.incoming_connection r) s v = introduce-Matched r s v

  receive-Matched :
      (bytes : Bytes) (s : ServerConnection p) → Matched p s → Matched p (receive p bytes s)
  unfolding receive
  receive-Matched bytes s v = elim (Result-cases (deserialize bytes)) [
    | inr (x, e) ↦ rw (e, receive) v
    | inl (response, e) ↦ rw (e, receive) (handle-Matched response s v)
  ]

  stop-Matched : (s : ServerConnection p) → Matched p s → Matched p (stop p s)
  unfolding stop
  stop-Matched s v = record {
    pending = λ id n e. absurd (ground (arith, e));
    served = λ n.
        close-IsServed p s.requests n (s.waiters n).request_id (s.waiters n).outcome (v.served n)
          (λ id. none);
  }

  heartbeat_tick-Matched :
      (sends : Bool) (s : ServerConnection p) → Matched p s → Matched p (heartbeat_tick p sends s).0
  unfolding heartbeat_tick
  heartbeat_tick-Matched sends s v = elim (Bool-cases s.alive) [
    | inr e ↦ rw (e, heartbeat_tick) (same-Matched s _ refl refl refl v)
    | inl e ↦ elim (Bool-cases sends) [
      | inl f ↦ rw (e, heartbeat_tick, f) (same-Matched s _ refl refl refl v)
      | inr f ↦ rw (e, heartbeat_tick, f) (same-Matched s _ refl refl refl v)
    ]
  ]

  receive_peer-Matched :
      (peers : List (PeerInfo p)) (s : ServerConnection p)
      → Matched p s
      → Matched p (receive_peer p peers s).0
  unfolding receive_peer
  receive_peer-Matched [] s v = v
  receive_peer-Matched (peer ∷ rest) s v = same-Matched s _ refl refl refl v

  step-Matched : (s : ServerConnection p) (e : Event) → Matched p s → Matched p (step s e)
  unfolding step time_out accept
  step-Matched s (registers address public_key sends) v =
      begin_register-Matched address public_key sends s v
  step-Matched s (connects address source_id sends) v =
      begin_connect-Matched address source_id sends s v
  step-Matched s (times_out n) v = update-Matched p leave n s (leave-IsServed p s.requests n _) v
  step-Matched s (receives bytes) v = receive-Matched bytes s v
  step-Matched s (beats sends) v = heartbeat_tick-Matched sends s v
  step-Matched s accepts v = receive_peer-Matched s.accepted s v
  step-Matched s stops v = stop-Matched s v

  run-Matched : (es : List Event) (s : ServerConnection p) → Matched p s → Matched p (run s es)
  unfolding run
  run-Matched [] s v = v
  run-Matched (e ∷ es) s v = run-Matched es (step s e) (step-Matched s e v)

  -- After any registrations, calls of connect, timeouts, datagrams from the server (whatever their
  -- bytes are), heartbeats and the end of the receiver loop, on a new connection: a call that got a
  -- response got one with its own request id, a call that still waits is the one that the map of
  -- pending requests holds under its id, and whatever the map holds is a call with that id.
  pub run-new : (es : List Event) → Matched p (run (new p) es)
  unfolding new
  run-new es =
      run-Matched es (new p)
        (record { pending = λ id n e. absurd (ground (arith, e)); served = λ n. tt })
