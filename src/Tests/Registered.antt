-- ===== src/Tests/Registered.antt =====
-- Two clients register, and one asks for the other.
use ntied.Common.{
  ◌≢◌, ap, get_or, ◌++◌, ◌≡◌, ℕ, List, [], ◌∷◌, replicate, refl, arith, true, length,
}
use ntied.ByteIo.{IpAddr, v4, v6, Bytes, SocketAddr}
use ntied.Address.{Address}
use ntied.ServerMessage.Request.{ServerConnectRequest}
use ntied.ServerMessage.Request
use ntied.Server.Registry.{
  touch, ClientInfo, Clients, lookup, retain_active, if_active, lookup-retain_active,
}
use ntied.Server.Handlers.{State, handle_connect, Event, received, cleaned, run, start}
use ntied.Server.Authentic.{Inv, run-start-Inv}
use ntied.Server.Introduction.{to_requester, to_peer, handle_connect-introduces}
use ntied.Tests.Toy.{toy, address_of, first_match, addr_of}

-- The client with the key `k` asks to be held under the address of the key `claimed`.
abbrev join : ℕ → ℕ → ℕ → Event
join k claimed now =
    received (λ addr bytes. true) now (addr_of k 4000)
      (Request.serialize (
        Request.register
          (record { request_id = k; public_key = k ∷ []; address = address_of claimed })))

abbrev ask : ℕ → ℕ → ℕ → Event
ask k other now =
    received (λ addr bytes. true) now (addr_of k 4000)
      (Request.serialize
        (Request.connect (record { request_id = 8; address = address_of other; source_id = 1 })))

-- The client 5 claims the address of 7 and is refused; the cleanup comes before any timeout.
abbrev events : List Event
events = join 7 7 100 ∷ join 9 9 200 ∷ join 5 7 250 ∷ ask 7 9 300 ∷ cleaned 400 ∷ []

run-start-Inv_example : Inv toy (run toy first_match start events)
run-start-Inv_example = run-start-Inv toy first_match events

-- Three answers to the registrations, and one to each side of the introduction.
five_responses : length (run toy first_match start events).sent ≡ 5
unfolding run first_match ntied.Common.ℕ_discrete ntied.Tests.Toy.scan
    ntied.Address.Address-discrete ntied.Server.Handlers.SocketAddr-discrete
    ntied.Server.Handlers.step ntied.Server.Handlers.cleanup ntied.Server.Handlers.receive
    Request.deserialize Request.serialize Request.write_request ntied.ByteIo.◌>>◌
    Request.write_connect ntied.ByteIo.write_u32 ntied.Packet.Fields.write_address
    ntied.ByteIo.write_array ntied.ByteIo.write_u8 ntied.Packet.Fields.decode Request.read_request
    ntied.ByteIo.◌>>=◌ ntied.ByteIo.read_u8 Request.read_connect ntied.Address.as_bytes
    ntied.Address.from_bytes ntied.Address.to_address ntied.ByteIo.fail ntied.ByteIo.read_array
    ntied.ByteIo.read_bytes ntied.ByteIo.read_u16 ntied.ByteIo.read_u32 ntied.ByteIo.return
    ntied.ByteIo.skip ntied.ByteIo.write_bytes ntied.ByteIo.write_ip_addr
    ntied.ByteIo.write_socket_addr ntied.ByteIo.write_u16 ntied.Crypto.public_key_from_bytes
    ntied.Crypto.public_key_to_bytes ntied.Packet.Fields.read_address
    ntied.Server.Handlers.accept_client ntied.Server.Handlers.connect_error
    ntied.Server.Handlers.connect_from ntied.Server.Handlers.connect_peer
    ntied.Server.Handlers.handle_connect ntied.Server.Handlers.handle_heartbeat
    ntied.Server.Handlers.handle_register ntied.Server.Handlers.handle_request
    ntied.Server.Handlers.heartbeat_from ntied.Server.Handlers.introduce
    ntied.Server.Handlers.register_error ntied.Server.Handlers.return
    ntied.Server.Handlers.send_response ntied.Server.Handlers.set_clients ntied.Server.Handlers.◌>>◌
    ntied.Server.Registry.insert lookup retain_active ntied.Server.Registry.touch
    Request.read_register Request.write_register ntied.ServerMessage.Response.serialize
    ntied.ServerMessage.Response.write_connect ntied.ServerMessage.Response.write_error
    ntied.ServerMessage.Response.write_incoming ntied.ServerMessage.Response.write_register
    ntied.ServerMessage.Response.write_response
five_responses = refl

abbrev client : ℕ → ℕ → ClientInfo
client k seen = record {
  addr = addr_of k 4000;
  public_key = k ∷ [];
  address = address_of k;
  last_seen = seen;
}

abbrev two_clients : Clients
two_clients = (address_of 7, client 7 1000) ∷ (address_of 9, client 9 40000) ∷ []

-- The client 7 asks for the client 9.
abbrev wish : ServerConnectRequest
wish = record { request_id = 8; address = address_of 9; source_id = 1 }

abbrev two_registered : State
two_registered = record { clients = two_clients; sent = [] }

other_address : address_of 7 ≢ address_of 9
other_address e = omega (arith, ap (λ (a : Address). get_or a.bytes 1 0) e)

abbrev host_of : IpAddr → ℕ
host_of (v4 octets) = get_or octets 3 0
host_of (v6 octets) = 0

other_host : addr_of 9 4000 ≢ addr_of 7 4000
other_host e = omega (arith, ap (λ (a : SocketAddr). host_of a.ip) e)

handle_connect-introduces_example :
    (handle_connect toy first_match (λ to bytes. true) 50 (addr_of 7 4000) wish two_registered).0
    ≡ record {
      clients = touch (address_of 7) 50 two_clients;
      sent =
          []
          ++ to_requester (addr_of 7 4000) wish (client 9 40000)
            ∷ to_peer wish (client 9 40000) (client 7 1000)
            ∷ [];
    }
unfolding first_match ntied.Tests.Toy.scan lookup ntied.Address.Address-discrete
    ntied.Common.ℕ_discrete ntied.Server.Handlers.SocketAddr-discrete
handle_connect-introduces_example =
    handle_connect-introduces toy first_match (λ to bytes. true) 50 (addr_of 7 4000) wish
      (address_of 7) (client 7 1000) (client 9 40000) two_registered (λ to bytes. refl) refl refl
      refl other_address other_host
