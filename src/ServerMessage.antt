-- ===== src/ServerMessage.antt =====
-- ntied-transport/src/server_message.rs: the datagrams between a client and the server.
pub mod Request
pub mod Response
pub mod RoundTrip
