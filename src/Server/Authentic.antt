-- ===== src/Server/Authentic.antt =====
-- What the server tells about a peer: the registry holds each client under the address that its
-- public key has, and so do the announcements.
use ntied.Common.{
  ℕ, ◌∙◌, sym, ◌≡◌, refl, ap, subst, List, [], ◌∷◌, some, ok, All, All-append, inl, inr, Bool-cases,
  Option-cases, Result-cases,
}
use ntied.ByteIo.{Bytes, SocketAddr}
use ntied.Crypto.{Primitives, public_key_from_bytes}
use ntied.Address.{Address, Address-discrete, to_address}
use ntied.ServerMessage.Request.{ServerRequest, ServerRegisterRequest, ServerConnectRequest}
use ntied.ServerMessage.Request
use ntied.ServerMessage.Response.{ServerResponse}
use ntied.ServerMessage.Response
use ntied.Server.Registry.{
  lookup-All, insert-All, touch-All, retain_active-All, ClientInfo, Iteration, lookup, touch,
  IsDistinct, insert-IsDistinct, touch-IsDistinct, retain_active-IsDistinct,
}
use ntied.Server.Handlers.{
  Datagram, State, Action, ◌>>◌, return, set_clients, Net, send_response, client_timeout,
  SocketAddr-discrete, register_error, accept_client, handle_register, connect_error, introduce,
  connect_peer, connect_from, handle_connect, heartbeat_from, handle_heartbeat, handle_request,
  receive, cleanup, Event, received, cleaned, step, run, start,
}
use mathlib.Core.Logic.{if_pos, if_neg}

module _ (p : Primitives) where
  -- The bytes are a public key, and the address is the one that is derived from it.
  pub record AddressOf (public_key : Bytes) (address : Address) : Type 0 where
    pub key : p.PublicKey
    pub decodes : public_key_from_bytes p public_key ≡ ok key
    pub derives : to_address p key ≡ ok address

  abbrev pub IsEntry : Address × ClientInfo → Type 0
  IsEntry (k, c) = (c.address ≡ k) × AddressOf c.public_key k

  -- A response that names a peer names it truly.
  abbrev pub IsHonest : ServerResponse → Type 0
  IsHonest (Response.connect v) = AddressOf v.public_key v.address
  IsHonest (Response.incoming_connection v) = AddressOf v.public_key v.address
  IsHonest _ = Unit

  -- A datagram that carries such a response.
  pub record IsAnnounced (d : Datagram) : Type 0 where
    pub response : ServerResponse
    pub bytes : d.1 ≡ Response.serialize response
    pub honest : IsHonest response

  pub record Inv (s : State) : Type 0 where
    pub distinct : IsDistinct s.clients
    pub entries : All IsEntry s.clients
    pub announced : All IsAnnounced s.sent

  Keeps : Action → Type 0
  Keeps m = (s : State) → Inv s → Inv (m s).0

  Keeps-then : (m k : Action) → Keeps m → Keeps k → Keeps (m >> k)
  unfolding Keeps ◌>>◌
  Keeps-then m k hm hk s v = elim (Option-cases (m s).1) [
    | inl e ↦ rw (e, ◌>>◌) (hm s v)
    | inr (u, e) ↦ rw (e, ◌>>◌) (hk (m s).0 (hm s v))
  ]

  Keeps-send :
      (net : Net) (addr : SocketAddr) (r : ServerResponse)
      → IsHonest r
      → Keeps (send_response net addr r)
  unfolding Keeps send_response
  Keeps-send net addr r h s v = elim (Bool-cases (net addr (Response.serialize r))) [
    | inl e ↦ rw e (record {
      distinct = v.distinct;
      entries = v.entries;
      announced =
          All-append IsAnnounced s.sent _ v.announced
            (record { response = r; bytes = refl; honest = h }, tt);
    })
    | inr e ↦ rw e v
  ]

  module _ (it : Iteration) (net : Net) where
    Keeps-accept_client :
        (now : ℕ) (addr : SocketAddr) (req : ServerRegisterRequest)
        → AddressOf req.public_key req.address
        → Keeps (accept_client p it net now addr req)
    unfolding accept_client ◌>>◌ set_clients Keeps
    Keeps-accept_client now addr req h s v =
        Keeps-send net addr (Response.register (record { request_id = req.request_id })) tt _
          (record {
            distinct = insert-IsDistinct req.address _ s.clients v.distinct;
            entries = insert-All IsEntry req.address _ s.clients (refl, h) v.entries;
            announced = v.announced;
          })

    Keeps-register :
        (now : ℕ) (addr : SocketAddr) (req : ServerRegisterRequest)
        → Keeps (handle_register p it net now addr req)
    unfolding handle_register register_error
    Keeps-register now addr req = elim (Result-cases (public_key_from_bytes p req.public_key)) [
      | inr (e, failed) ↦ rw (failed, handle_register) (Keeps-send net addr _ tt)
      | inl (key, decoded) ↦ elim (Result-cases (to_address p key)) [
        | inr (e, failed) ↦ rw (decoded, handle_register, failed) (Keeps-send net addr _ tt)
        | inl (expected, derived) ↦ elim (Address-discrete expected req.address) [
          | yes same ↦
              rw (decoded, handle_register, derived, if_pos _ same)
                (Keeps-accept_client now addr req
                  (record { key = key; decodes = decoded; derives = derived ∙ ap ok same }))
          | no other ↦
              rw (decoded, handle_register, derived, if_neg _ other) (Keeps-send net addr _ tt)
        ]
      ]
    ]

    Keeps-introduce :
        (addr : SocketAddr) (req : ServerConnectRequest) (peer requester : ClientInfo)
        → AddressOf peer.public_key peer.address
        → AddressOf requester.public_key requester.address
        → Keeps (introduce p it net addr req peer requester)
    unfolding introduce connect_error
    Keeps-introduce addr req peer requester hp hr = elim (SocketAddr-discrete peer.addr addr) [
      | yes same ↦ rw (if_pos _ same) (Keeps-send net addr _ tt)
      | no other ↦
          rw (if_neg _ other)
            (Keeps-then _ _ (Keeps-send net addr _ hp) (Keeps-send net peer.addr _ hr))
    ]

    -- An entry's key has the entry's address.
    IsEntry-AddressOf :
        (s : State) (k : Address) (c : ClientInfo)
        → Inv s
        → lookup k s.clients ≡ some c
        → AddressOf c.public_key c.address
    IsEntry-AddressOf s k c v e =
        let (same, h) = lookup-All IsEntry k c s.clients v.entries e in
        subst (AddressOf c.public_key) (sym same) h

    Keeps-connect_peer :
        (addr : SocketAddr) (req : ServerConnectRequest) (requester : ClientInfo)
        → AddressOf requester.public_key requester.address
        → Keeps (connect_peer p it net addr req requester)
    unfolding Keeps
    Keeps-connect_peer addr req requester hr s v =
        unfold connect_peer connect_error in
        elim (Option-cases (lookup req.address s.clients)) [
          | inl e ↦ rw (e, connect_peer) (Keeps-send net addr _ tt s v)
          | inr (peer, e) ↦
              rw (e, connect_peer)
                (Keeps-introduce addr req peer requester (IsEntry-AddressOf s _ peer v e) hr s v)
        ]

    -- A refreshed entry is still an entry.
    touched :
        (s : State) (k : Address) (now : ℕ)
        → Inv s
        → Inv (record s { clients = touch k now s.clients })
    touched s k now v = record {
      distinct = touch-IsDistinct k now s.clients v.distinct;
      entries = touch-All IsEntry (λ j n c h. (h.0, h.1)) k now s.clients v.entries;
      announced = v.announced;
    }

    Keeps-connect :
        (now : ℕ) (addr : SocketAddr) (req : ServerConnectRequest)
        → Keeps (handle_connect p it net now addr req)
    unfolding Keeps
    Keeps-connect now addr req s v =
        unfold handle_connect connect_from connect_error in
        elim (Option-cases (it.find addr s.clients)) [
          | inl e ↦ rw (e, handle_connect) (Keeps-send net addr _ tt s v)
          | inr (own, e) ↦
              rw (e, handle_connect)
                (elim (Option-cases (lookup own (touch own now s.clients))) [
                  | inl miss ↦ rw (miss, connect_from) (Keeps-send net addr _ tt s v)
                  | inr (requester, hit) ↦
                      rw (hit, connect_from)
                        (let v' = touched s own now v in
                          unfold ◌>>◌ set_clients in
                          Keeps-connect_peer addr req requester
                            (IsEntry-AddressOf _ own requester v' hit) _ v')
                ])
        ]

    Keeps-heartbeat : (now : ℕ) (addr : SocketAddr) → Keeps (handle_heartbeat p it net now addr)
    unfolding Keeps
    Keeps-heartbeat now addr s v =
        unfold handle_heartbeat heartbeat_from in
        elim (Option-cases (it.find addr s.clients)) [
          | inl e ↦ rw (e, handle_heartbeat) (unfold return in v)
          | inr (own, e) ↦
              rw (e, handle_heartbeat)
                (unfold ◌>>◌ set_clients in
                  Keeps-send net addr Response.heartbeat tt _ (touched s own now v))
        ]

    Keeps-request :
        (now : ℕ) (addr : SocketAddr) (request : ServerRequest)
        → Keeps (handle_request p it net now addr request)
    unfolding handle_request
    Keeps-request now addr Request.heartbeat = Keeps-heartbeat now addr
    Keeps-request now addr (Request.register req) = Keeps-register now addr req
    Keeps-request now addr (Request.connect req) = Keeps-connect now addr req

    receive-Inv :
        (now : ℕ) (addr : SocketAddr) (bytes : Bytes) (s : State)
        → Inv s
        → Inv (receive p it net now addr bytes s)
    unfolding receive Keeps
    receive-Inv now addr bytes s v = elim (Result-cases (Request.deserialize bytes)) [
      | inr (e, failed) ↦ rw (failed, receive) v
      | inl (request, parsed) ↦ rw (parsed, receive) (Keeps-request now addr request s v)
    ]

  -- Every datagram and every cleanup keeps the registry without double keys, each client under the
  -- address of its public key, and every announcement so far true.
  pub step-Inv : (it : Iteration) (s : State) (e : Event) → Inv s → Inv (step p it s e)
  unfolding step cleanup
  step-Inv it s (received net now addr bytes) v = receive-Inv it net now addr bytes s v
  step-Inv it s (cleaned now) v = record {
    distinct = retain_active-IsDistinct client_timeout now s.clients v.distinct;
    entries = retain_active-All IsEntry client_timeout now s.clients v.entries;
    announced = v.announced;
  }

  run-Inv : (it : Iteration) (s : State) (es : List Event) → Inv s → Inv (run p it s es)
  unfolding run
  run-Inv it s [] v = v
  run-Inv it s (e ∷ es) v = run-Inv it (step p it s e) es (step-Inv it s e v)

  -- Whatever is received from the start on, and in whatever order the table is searched: each
  -- client is held under the address derived from its public key, no address twice, and each
  -- datagram sent is a response whose public key, if it names a peer, has the address that it names.
  pub run-start-Inv : (it : Iteration) (es : List Event) → Inv (run p it start es)
  run-start-Inv it es = run-Inv it start es (record { distinct = tt; entries = tt; announced = tt })
