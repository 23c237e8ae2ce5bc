-- ===== src/Tests/Wire.antt =====
-- Messages of each format, and two ends of a key exchange.
use ntied.Common.{◌≡◌, [], ◌∷◌, ◌++◌, refl, arith, ok}
use ntied.Crypto.{SharedSecret, compute_shared_secret, public_key_bytes}
use ntied.Crypto.Agreement.{compute_shared_secret-agree}
use ntied.Packet.Handshake.{HandshakePacket}
use ntied.Packet.Rotate.{RotatePacket}
use ntied.Packet.Decrypted.{rotate}
use ntied.Packet.Decrypted
use ntied.Packet.{handshake}
use ntied.Packet
use ntied.Packet.RoundTrip.{IsHandshake, deserialize-serialize, decrypted-deserialize-serialize}
use ntied.ServerMessage.Request.{ServerRegisterRequest}
use ntied.ServerMessage.Request
use ntied.ServerMessage.Response.{ServerConnectResponse}
use ntied.ServerMessage.Response
use ntied.ServerMessage.RoundTrip.{request-deserialize-serialize, response-deserialize-serialize}
use ntied.Tests.Toy.{address_of, toy, toy-DhLaws, addr_of}

abbrev hello : HandshakePacket
hello = record {
  source_id = 70000;
  peer_address = address_of 9;
  address = address_of 7;
  public_key = 7 ∷ [];
  ephemeral_public_key = 3 ∷ 200 ∷ [];
  signature = 7 ∷ 7 ∷ 7 ∷ [];
}

hello-IsHandshake : IsHandshake hello
hello-IsHandshake = record {
  source_id = omega arith;
  peer_address = refl;
  address = refl;
  public_key = omega arith;
  ephemeral_public_key = omega arith;
  signature = omega arith;
}

deserialize-serialize_example :
    Packet.deserialize (Packet.serialize (handshake hello) ++ (1 ∷ [])) ≡ ok (handshake hello)
deserialize-serialize_example = deserialize-serialize (handshake hello) (1 ∷ []) hello-IsHandshake

abbrev turn : RotatePacket
turn = record { ephemeral_public_key = 4 ∷ 5 ∷ []; signature = 6 ∷ [] }

decrypted-deserialize-serialize_example :
    Decrypted.deserialize (Decrypted.serialize (rotate turn) ++ []) ≡ ok (rotate turn)
decrypted-deserialize-serialize_example =
    decrypted-deserialize-serialize (rotate turn) []
      (record { ephemeral_public_key = omega arith; signature = omega arith })

abbrev join : ServerRegisterRequest
join = record { request_id = 77777; public_key = 7 ∷ []; address = address_of 7 }

request-deserialize-serialize_example :
    Request.deserialize (Request.serialize (Request.register join)) ≡ ok (Request.register join)
request-deserialize-serialize_example =
    request-deserialize-serialize (Request.register join)
      (record { request_id = omega arith; public_key = omega arith; address = refl })

abbrev found : ServerConnectResponse
found = record {
  request_id = 5;
  public_key = 9 ∷ [];
  address = address_of 9;
  addr = addr_of 9 4000;
}

response-deserialize-serialize_example :
    Response.deserialize (Response.serialize (Response.connect found)) ≡ ok (Response.connect found)
response-deserialize-serialize_example =
    response-deserialize-serialize (Response.connect found) (record {
      request_id = omega arith;
      public_key = omega arith;
      address = refl;
      addr = record { ip = refl; port = omega arith };
    })

compute_shared_secret-agree_example :
    (s : SharedSecret) × (compute_shared_secret toy 3 (public_key_bytes toy 5) ≡ ok s)
    × (compute_shared_secret toy 5 (public_key_bytes toy 3) ≡ ok s)
compute_shared_secret-agree_example = compute_shared_secret-agree toy (λ e. e) toy-DhLaws 3 5
