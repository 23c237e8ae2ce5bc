-- ===== src/Transport/Ids.antt =====
-- A new connection gets an id that no other one has.
use ntied.Common.{
  Result-cases, ap, ◌∙◌, ℕ, ◌+◌, ◌^◌, ◌≤◌, ◌<◌, ◌≡◌, refl, Bool, true, false, List, [], ◌∷◌, Option,
  none, some, length, arith, subst, Option-cases, inl, inr,
}
use ntied.ByteIo.{Bytes, SocketAddr}
use ntied.Address.{Address}
use ntied.Packet.{deserialize}
use ntied.Transport.Routing.{allocate_free}
use ntied.Transport.{
  Channel, Inbound, Transport, set_connection, set_handshake, send_to, route, route_packet,
  target_id, allocate, begin_accept, end_accept, release,
}
use mathlib.Core.Logic.{if_pos, if_neg}
use native.Mathlib.Decide.{ℕ_discrete}

-- What may happen to the tables, each with what the code calls it with.
pub data Event : Type 0 where
  connects : Event
  begins : Address → (target : ℕ) → Event
  ends : Address → (target id : ℕ) → Bool → Event
  releases : (id : ℕ) → Event
  datagram : SocketAddr → Bytes → Event

unfoldable pub step : Transport → Event → Transport
step s connects = (allocate s).0
step s (begins address target) = (begin_accept address target s).0
step s (ends address target id established) = end_accept address target id established s
step s (releases id) = release id s
step s (datagram addr bytes) = route addr bytes s

unfoldable pub run : Transport → List Event → Transport
run s [] = s
run s (e ∷ es) = run (step s e) es

-- The ids in use are below the counter, which is at most `n`.
abbrev Below : ℕ → Transport → Type 0
Below n s = ((j : ℕ) → s.source_counter ≤ j → s.connections j ≡ none) × (s.source_counter ≤ n)

set_connection-Below :
    (n id : ℕ) (ch : Option (Channel Inbound)) (s : Transport)
    → id < s.source_counter
    → Below n s
    → Below n (set_connection id ch s)
unfolding set_connection
set_connection-Below n id ch s lt (h, le) =
    (λ j ge. rw (if_neg (ℕ_discrete id j) (λ e. omega (arith, e))) (h j ge), le)

release-Below : (n id : ℕ) (s : Transport) → Below n s → Below n (set_connection id none s)
unfolding set_connection
release-Below n id s (h, le) = (
  λ j ge. elim (ℕ_discrete id j) [
    | yes same ↦ rw (if_pos (ℕ_discrete id j) same)
    | no other ↦ rw (if_neg (ℕ_discrete id j) other) (h j ge)
  ],
  le,
)

Below-mono : (n : ℕ) (s : Transport) → Below n s → Below (n + 1) s
Below-mono n s (h, le) = (h, omega arith)

allocate-Below : (n : ℕ) (s : Transport) → n + 1 < 2 ^ 32 → Below n s → Below (n + 1) (allocate s).0
unfolding set_connection
allocate-Below n s bound (h, le) = rw (allocate_free s (h s.source_counter (omega arith))) (
  λ j ge. rw (if_neg (ℕ_discrete s.source_counter j) (λ e. omega (arith, e))) (h j (omega arith)),
  omega arith,
)

begin_accept-Below :
    (n : ℕ) (address : Address) (target : ℕ) (s : Transport)
    → n + 1 < 2 ^ 32
    → Below n s
    → Below (n + 1) (begin_accept address target s).0
unfolding begin_accept
begin_accept-Below n address target s bound v =
    let after = allocate-Below n s bound v in
    elim (Option-cases (allocate s).1) [
      | inl e ↦ rw (e, begin_accept) after
      | inr (id, e) ↦ elim (Option-cases ((allocate s).0.handshakes address target)) [
        | inl new ↦ rw (e, begin_accept, new) (unfold set_handshake in after)
        | inr (other, busy) ↦ rw (e, begin_accept, busy) (release-Below (n + 1) id _ after)
      ]
    ]

end_accept-Below :
    (n : ℕ) (address : Address) (target id : ℕ) (established : Bool) (s : Transport)
    → Below n s
    → Below n (end_accept address target id established s)
unfolding end_accept set_handshake
end_accept-Below n address target id true s v = v
end_accept-Below n address target id false s v = release-Below n id _ v

send_to-Below :
    (n : ℕ) (d : Inbound) (target : Option ℕ) (s : Transport)
    → Below n s
    → Below n (send_to d target s)
unfolding send_to
send_to-Below n d none s v = v
send_to-Below n d (some id) s v = elim (Option-cases (s.connections id)) [
  | inl e ↦ rw (e, send_to) v
  | inr (ch, e) ↦ rw (e, send_to) (set_connection-Below n id _ s (ground (arith, v.0 id, e)) v)
]

route-Below :
    (n : ℕ) (addr : SocketAddr) (bytes : Bytes) (s : Transport)
    → Below n s
    → Below n (route addr bytes s)
unfolding route route_packet
route-Below n addr bytes s v = elim (Option-cases (s.raw_connections addr)) [
  | inr (ch, e) ↦ rw (e, route) v
  | inl e ↦
      rw (e, route)
        (elim (Result-cases (deserialize bytes)) [
          | inr (x, failed) ↦ rw (failed, route_packet) v
          | inl (packet, parsed) ↦
              rw (parsed, route_packet) (send_to-Below n (addr, packet) (target_id s packet) s v)
        ])
]

step-Below :
    (n : ℕ) (s : Transport) (e : Event) → n + 1 < 2 ^ 32 → Below n s → Below (n + 1) (step s e)
unfolding step release
step-Below n s connects bound v = allocate-Below n s bound v
step-Below n s (begins address target) bound v = begin_accept-Below n address target s bound v
step-Below n s (ends address target id established) bound v =
    Below-mono n (end_accept address target id established s)
      (end_accept-Below n address target id established s v)
step-Below n s (releases id) bound v = Below-mono n (release id s) (release-Below n id s v)
step-Below n s (datagram addr bytes) bound v =
    Below-mono n (route addr bytes s) (route-Below n addr bytes s v)

run-Below :
    (n : ℕ) (es : List Event) (s : Transport)
    → n + length es < 2 ^ 32
    → Below n s
    → Below (n + length es) (run s es)
unfolding run
run-Below n [] s bound v = subst (λ k. Below k s) {x = n} (omega arith) v
run-Below n (e ∷ es) s bound v =
    subst (λ k. Below k (run (step s e) es)) {x = n + 1 + length es} (omega arith)
      (run-Below (n + 1) es (step s e) (omega arith) (step-Below n s e (omega arith) v))

-- `Transport::bind`: no connection, and the ids start at 1.
unfoldable pub start : (SocketAddr → Option (Channel Bytes)) → Transport
start raw = record {
  source_counter = 1;
  raw_connections = raw;
  connections = λ id. none;
  handshakes = λ address id. none;
}

-- Fewer than 2 ^ 32 - 1 events after the start, whatever they were and even if they end or release
-- connections at any time, the next id is not in use: a new connection gets it, with an empty
-- channel of its own.
pub run-allocate :
    (raw : SocketAddr → Option (Channel Bytes)) (es : List Event)
    → 1 + length es < 2 ^ 32
    → (id : ℕ) × ((run (start raw) es).connections id ≡ none)
      × ((allocate (run (start raw) es)).1 ≡ some id)
      × ((allocate (run (start raw) es)).0.connections id
          ≡ some (record { closed = false; queue = [] }))
unfolding start
run-allocate raw es bound =
    let (h, le) = run-Below 1 es (start raw) bound (λ j ge. refl, omega arith) in
    let s = run (start raw) es in
    let free = h s.source_counter (omega arith) in
    (
      s.source_counter,
      free,
      ap (λ x. x.1) (allocate_free s free),
      ap (λ x. x.0.connections s.source_counter) (allocate_free s free)
          ∙ (unfold set_connection in
              rw (if_pos (ℕ_discrete s.source_counter s.source_counter) refl)),
    )
