-- ===== src/ServerConnection/Matching.antt =====
-- Which call gets which response.
use ntied.Common.{
  some_inj, ℕ, suc, ◌<◌, ◌==◌, ◌≡◌, ◌≢◌, refl, true, Option, none, some, Option-cases, Bool-cases,
  inl, inr, if◌then◌else◌, arith, ap, sym, ◌∙◌, subst,
}
use ntied.Crypto.{Primitives}
use ntied.ServerMessage.Response.{ServerResponse, ServerIncomingConnectionResponse, deserialize}
use ntied.ServerMessage.Response
use ntied.ServerConnection.{
  Outcome, waiting, closed, gone, answered, Waiter, ServerConnection, set_request, set_waiter,
  update, close, leave, get, resolve,
}

-- The id that a response carries.
abbrev pub response_id : ServerResponse → Option ℕ
response_id Response.heartbeat = none
response_id (Response.register r) = some r.request_id
response_id (Response.register_error r) = some r.request_id
response_id (Response.connect r) = some r.request_id
response_id (Response.connect_error r) = some r.request_id
response_id (Response.incoming_connection r) = none

-- A call that waits is in the map under its id, and what a call got has its id.
abbrev pub IsServed : (ℕ → Option ℕ) → ℕ → ℕ → Outcome → Type 0
IsServed requests n id waiting = requests id ≡ some n
IsServed requests n id closed = Unit
IsServed requests n id gone = Unit
IsServed requests n id (answered r) = response_id r ≡ some id

-- The same in another map, in which a call that waits is found as well.
IsServed-map :
    (requests requests' : ℕ → Option ℕ) (n id : ℕ) (o : Outcome)
    → (o ≡ waiting → requests id ≡ some n → requests' id ≡ some n)
    → IsServed requests n id o
    → IsServed requests' n id o
IsServed-map requests requests' n id waiting f h = f refl h
IsServed-map requests requests' n id closed f h = tt
IsServed-map requests requests' n id gone f h = tt
IsServed-map requests requests' n id (answered r) f h = h

module _ (p : Primitives) where
  pub record Matched (s : ServerConnection p) : Type 0 where
    pub pending :
        (id n : ℕ) → s.requests id ≡ some n → ((s.waiters n).request_id ≡ id) × (n < s.next_waiter)
    pub served : (n : ℕ) → IsServed s.requests n (s.waiters n).request_id (s.waiters n).outcome

  -- A call gets something, with its id kept.
  pub settle-Matched :
      (n : ℕ) (waiter : Waiter) (s : ServerConnection p)
      → waiter.request_id ≡ (s.waiters n).request_id
      → IsServed s.requests n waiter.request_id waiter.outcome
      → Matched s
      → Matched (set_waiter p n waiter s)
  unfolding set_waiter
  settle-Matched n waiter s same now v = record {
    pending = λ id m e. elim (Bool-cases (n == m)) [
      | inl q ↦
          let at : n ≡ m = ground (arith, q) in
          rw q (
            same ∙ ap (λ j. (s.waiters j).request_id) at ∙ (v.pending id m e).0,
            (v.pending id m e).1,
          )
      | inr q ↦ rw q (v.pending id m e)
    ];
    served = λ m. elim (Bool-cases (n == m)) [
      | inl q ↦
          let at : n ≡ m = ground (arith, q) in
          rw q (subst (λ j. IsServed s.requests j waiter.request_id waiter.outcome) at now)
      | inr q ↦ rw q (v.served m)
    ];
  }

  -- An entry whose call does not wait is removed.
  forget-Matched :
      (id n : ℕ) (s : ServerConnection p)
      → s.requests id ≡ some n
      → (s.waiters n).outcome ≢ waiting
      → Matched s
      → Matched (set_request p id none s)
  unfolding set_request
  forget-Matched id n s e idle v = record {
    pending = λ j m f. elim (Bool-cases (id == j)) [
      | inl q ↦ absurd (ground (arith, f, q))
      | inr q ↦ v.pending j m (ground (arith, f, q))
    ];
    served = λ m.
        IsServed-map s.requests (set_request p id none s).requests m _ _
          (λ o g. elim (Bool-cases (id == (s.waiters m).request_id)) [
            | inr q ↦ rw q g
            | inl q ↦ absurd (
                let at : id ≡ (s.waiters m).request_id = ground (arith, q) in
                idle
                  (ap (λ k. (s.waiters k).outcome) (some_inj (sym e ∙ ap s.requests at ∙ g)) ∙ o))
          ])
          (v.served m);
  }

  pub update-Matched :
      (f : Outcome → Outcome) (n : ℕ) (s : ServerConnection p)
      → ((o : Outcome)
          → IsServed s.requests n (s.waiters n).request_id o
          → IsServed s.requests n (s.waiters n).request_id (f o))
      → Matched s
      → Matched (update p f n s)
  unfolding update
  update-Matched f n s kept v =
      settle-Matched n _ s refl (kept (s.waiters n).outcome (v.served n)) v

  pub update_outcome :
      (f : Outcome → Outcome) (n : ℕ) (s : ServerConnection p)
      → ((update p f n s).waiters n).outcome ≡ f (s.waiters n).outcome
  unfolding update set_waiter
  update_outcome f n s = let same : (n == n) ≡ true = ground arith in rw same refl

  get-IsServed :
      (r : ServerResponse) (requests : ℕ → Option ℕ) (n id : ℕ)
      → response_id r ≡ some id
      → (o : Outcome) → IsServed requests n id o
      → IsServed requests n id (get r o)
  unfolding get
  get-IsServed r requests n id carries waiting h = carries
  get-IsServed r requests n id carries closed h = tt
  get-IsServed r requests n id carries gone h = tt
  get-IsServed r requests n id carries (answered a) h = h

  pub close-IsServed :
      (requests : ℕ → Option ℕ) (n id : ℕ) (o : Outcome)
      → IsServed requests n id o
      → (requests' : ℕ → Option ℕ) → IsServed requests' n id (close o)
  unfolding close
  close-IsServed requests n id waiting h requests' = tt
  close-IsServed requests n id closed h requests' = tt
  close-IsServed requests n id gone h requests' = tt
  close-IsServed requests n id (answered a) h requests' = h

  pub leave-IsServed :
      (requests : ℕ → Option ℕ) (n id : ℕ) (o : Outcome)
      → IsServed requests n id o
      → IsServed requests n id (leave o)
  unfolding leave
  leave-IsServed requests n id waiting h = tt
  leave-IsServed requests n id closed h = tt
  leave-IsServed requests n id gone h = tt
  leave-IsServed requests n id (answered a) h = h

  get_idle : (r : ServerResponse) (o : Outcome) → get r o ≢ waiting
  unfolding get
  get_idle r waiting h = cc
  get_idle r closed h = cc
  get_idle r gone h = cc
  get_idle r (answered a) h = cc

  pub close_idle : (o : Outcome) → close o ≢ waiting
  unfolding close
  close_idle waiting h = cc
  close_idle closed h = cc
  close_idle gone h = cc
  close_idle (answered a) h = cc

  pub resolve-Matched :
      (id : ℕ) (response : ServerResponse) (s : ServerConnection p)
      → response_id response ≡ some id
      → Matched s
      → Matched (resolve p id response s)
  unfolding resolve update set_waiter set_request
  resolve-Matched id response s carries v = elim (Option-cases (s.requests id)) [
    | inl e ↦ rw (e, resolve) v
    | inr (n, e) ↦
        let carries' = carries ∙ ap some (sym (v.pending id n e).0) in
        rw (e, resolve)
          (forget-Matched id n (update p (get response) n s) e
            (λ o.
              get_idle response (s.waiters n).outcome (sym (update_outcome (get response) n s) ∙ o))
            (update-Matched (get response) n s (get-IsServed response s.requests n _ carries') v))
  ]

  -- A new call, under an id whose former call does not wait.
  pub store_call-Matched :
      (id : ℕ) (s : ServerConnection p)
      → ((m : ℕ) → s.requests id ≡ some m → (s.waiters m).outcome ≢ waiting)
      → Matched s
      → Matched (
          set_request p id
            (some s.next_waiter)
            (record (set_waiter p s.next_waiter (record { request_id = id; outcome = waiting }) s) {
              next_waiter = suc s.next_waiter;
            }))
  unfolding set_request set_waiter
  store_call-Matched id s idle v = record {
    pending = λ j m f. ground (arith, f, v.pending j m);
    served = λ m. elim (Bool-cases (s.next_waiter == m)) [
      | inl q ↦ rw q (ground (arith, q))
      | inr q ↦ rw q (
          IsServed-map s.requests (λ j. if id == j then some s.next_waiter else s.requests j) m _ _
            (λ o g. elim (Bool-cases (id == (s.waiters m).request_id)) [
              | inr r ↦ rw r g
              | inl r ↦ absurd (
                  let at : id ≡ (s.waiters m).request_id = ground (arith, r) in
                  idle m (ap s.requests at ∙ g) o)
            ])
            (v.served m))
    ];
  }
