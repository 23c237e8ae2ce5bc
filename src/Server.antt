-- ===== src/Server.antt =====
-- ntied-server/src/server.rs: the coordination server, its registry and its handlers.
pub mod Registry
pub mod Handlers
pub mod Authentic
pub mod Introduction
