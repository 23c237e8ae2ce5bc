-- ===== src/Server/Introduction.antt =====
-- What a request to connect brings about when it can be met.
use ntied.Common.{ℕ, ◌≡◌, ◌≢◌, refl, ap, ◌∙◌, true, [], ◌∷◌, ◌++◌, some, append_assoc}
use ntied.ByteIo.{Bytes, SocketAddr}
use ntied.Crypto.{Primitives}
use ntied.Address.{Address, Address-discrete}
use ntied.ServerMessage.Request.{ServerConnectRequest}
use ntied.ServerMessage.Response.{ServerResponse}
use ntied.ServerMessage.Response
use ntied.Server.Registry.{ClientInfo, Iteration, lookup, touch, seen_at, lookup-touch}
use ntied.Server.Handlers.{
  Datagram, State, ◌>>◌, set_clients, Net, send_response, introduce, connect_peer, connect_from,
  handle_connect, SocketAddr-discrete,
}
use mathlib.Core.Logic.{if_pos, if_neg}

-- The two datagrams of an introduction.
abbrev pub to_requester : SocketAddr → ServerConnectRequest → ClientInfo → Datagram
to_requester addr req peer = (
  addr,
  Response.serialize (
      Response.connect (record {
        request_id = req.request_id;
        public_key = peer.public_key;
        address = peer.address;
        addr = peer.addr;
      })),
)

abbrev pub to_peer : ServerConnectRequest → ClientInfo → ClientInfo → Datagram
to_peer req peer requester = (
  peer.addr,
  Response.serialize (
      Response.incoming_connection (record {
        public_key = requester.public_key;
        address = requester.address;
        addr = requester.addr;
        source_id = req.source_id;
      })),
)

module _ (p : Primitives) (it : Iteration) (net : Net) where
  send_up :
      (addr : SocketAddr) (r : ServerResponse) (s : State)
      → ((to : SocketAddr) (bytes : Bytes) → net to bytes ≡ true)
      → send_response net addr r s
        ≡ (record s { sent = s.sent ++ (addr, Response.serialize r) ∷ [] }, some tt)
  unfolding send_response
  send_up addr r s up = rw (up addr (Response.serialize r))

  both_sent :
      (a b : SocketAddr) (q r : ServerResponse) (s : State)
      → ((to : SocketAddr) (bytes : Bytes) → net to bytes ≡ true)
      → ((send_response net a q >> send_response net b r) s).0
        ≡ record s { sent = s.sent ++ (a, Response.serialize q) ∷ (b, Response.serialize r) ∷ [] }
  unfolding ◌>>◌
  both_sent a b q r s up =
      rw (send_up a q s up, ◌>>◌)
        (rw
          (
            send_up a q s up,
            send_up b r (record s { sent = s.sent ++ (a, Response.serialize q) ∷ [] }) up,
          )
          (ap (λ l. record s { sent = l })
            (append_assoc s.sent ((a, Response.serialize q) ∷ [])
              ((b, Response.serialize r) ∷ []))))

  introduce_other :
      (addr : SocketAddr) (req : ServerConnectRequest) (peer requester : ClientInfo)
      → peer.addr ≢ addr
      → introduce p it net addr req peer requester ≡ (
          send_response net addr (
            Response.connect (record {
              request_id = req.request_id;
              public_key = peer.public_key;
              address = peer.address;
              addr = peer.addr;
            }))
          >> send_response net peer.addr (
              Response.incoming_connection (record {
                public_key = requester.public_key;
                address = requester.address;
                addr = requester.addr;
                source_id = req.source_id;
              })))
  unfolding introduce
  introduce_other addr req peer requester other =
      if_neg (SocketAddr-discrete peer.addr addr) other _ _

  introduce_lem :
      (addr : SocketAddr) (req : ServerConnectRequest) (peer requester : ClientInfo) (s : State)
      → ((to : SocketAddr) (bytes : Bytes) → net to bytes ≡ true)
      → peer.addr ≢ addr
      → (introduce p it net addr req peer requester s).0
        ≡ record s { sent = s.sent ++ to_requester addr req peer ∷ to_peer req peer requester ∷ [] }
  introduce_lem addr req peer requester s up other =
      rw (introduce_other addr req peer requester other) (both_sent addr peer.addr _ _ s up)

  -- Where every send succeeds: a client asks from its address for another registered client at
  -- another address. Then it counts as seen now, it is told the other's key and addresses, and the
  -- other is told its key and addresses and the source id of the request; nothing else is sent.
  pub handle_connect-introduces :
      (now : ℕ) (addr : SocketAddr) (req : ServerConnectRequest) (own : Address)
      (requester peer : ClientInfo) (s : State)
      → ((to : SocketAddr) (bytes : Bytes) → net to bytes ≡ true)
      → it.find addr s.clients ≡ some own
      → lookup own s.clients ≡ some requester
      → lookup req.address s.clients ≡ some peer
      → own ≢ req.address
      → peer.addr ≢ addr
      → (handle_connect p it net now addr req s).0 ≡ record {
        clients = touch own now s.clients;
        sent = s.sent ++ to_requester addr req peer ∷ to_peer req peer requester ∷ [];
      }
  unfolding handle_connect connect_from connect_peer ◌>>◌ set_clients
  handle_connect-introduces now addr req own requester peer s up found held there differ other =
      let cs = touch own now s.clients in
      let seen : lookup own cs ≡ some (seen_at now requester) =
        lookup-touch own own now s.clients ∙ rw (if_pos (Address-discrete own own) refl, held) in
      let present : lookup req.address cs ≡ some peer =
        lookup-touch own req.address now s.clients
        ∙ rw (if_neg (Address-discrete own req.address) differ) there in
      rw (found, handle_connect)
        (rw (seen, connect_from)
          (rw (present, connect_peer)
            (introduce_lem addr req peer (seen_at now requester) (record s { clients = cs }) up
              other)))
