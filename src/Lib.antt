-- ===== src/Lib.antt =====
-- ntied: peer-to-peer calls and messages, in three crates and an application.
-- A peer registers with a coordination server, which introduces two peers to each other; they
-- exchange handshakes over UDP, derive a secret, and from then on send encrypted packets, rotating
-- the keys. Calls send audio frames through such a connection into a jitter buffer.
-- ByteIo, Address, Packet and ServerMessage model ntied-transport/src/byteio.rs, address.rs,
-- packet.rs and server_message.rs: readers and writers of bytes, one pair for each struct, and the
-- functions serialize and deserialize over them. Errors are values of `Error`.
-- Crypto models ntied-crypto/src/lib.rs. The p256, sha2 and aes-gcm crates are fields of
-- `Primitives`; where a theorem relies on them, their documented laws are a hypothesis (`DhLaws`,
-- `SignLaws`, `AesLaws`). The base64 engine is `Base64`.
-- Server models ntied-server/src/server.rs: `Handlers` has the handlers under their names in the
-- source, over the table of `Registry`; `run` handles datagrams and cleanups one after the other.
-- Which sends fail is an argument, and so is the order in which the hash map is searched
-- (`Iteration`).
-- Connection models ntied-transport/src/connection.rs: `State` has EncryptionState, `Handshake`
-- connect and accept, where the first of two futures to yield is a `Signal`, `Loop` one function
-- for each branch of the select in main_loop, and send and recv. `sent` has the packets,
-- `datagrams` the bytes that the socket got for them, and `on_datagram` is a datagram that the
-- transport parses for this connection. A panic is `none`. Keys and random bytes are arguments of
-- each event (`Entropy`), and time is a number of milliseconds. The mutex around the state is held
-- while a branch uses it, so events do not interleave.
-- Transport models ntied-transport/src/transport.rs: the tables of ids as functions, bounded
-- channels, the routing of each datagram, and `Ids` the events on the tables.
-- JitterBuffer models ntied/src/audio/jitter_buffer.rs. `pop` calls itself after a skip; the fuel
-- of two is enough, since the frame that it skips to is in the buffer. f32 statistics go through
-- the operations of `Float32`.
-- Adpcm models ntied/src/audio/codec/adpcm.rs: one sample of one channel, `Lockstep` the loops over
-- the samples of a channel, `Frame` the packets with their headers. Codec models the other files
-- there: `Codec` traits.rs and manager.rs, `Negotiation` and `Adaptive` negotiation.rs, `Raw`
-- raw.rs, `Factory` mod.rs. What the code computes in f32 is a field of a record or an argument.
-- ServerConnection models ntied-transport/src/server_connection.rs. A call of connect or register
-- is its begin function, up to the wait, and `await`, on what its `Waiter` has got; the receiver
-- loop is `receive` on each datagram and `stop`. The fuel of two in next_request_id is enough,
-- since only 0 is refused.
-- Call models ntied/src/call/manager.rs, handle.rs, listener.rs and ntied/src/packet/call.rs:
-- `Handlers` the operations and packet handlers under their names, `Devices` mute and devices,
-- `Polling` the tasks for contacts, which end by themselves while their handles stay, `Life` the
-- events and the diagram of a call. Clones of a handle share a cell of a store. What the contacts
-- and devices do in one operation is a `World`; the contacts are an interface here. An operation
-- runs to its end before the next one.
-- Contact models ntied/src/contact/handle.rs, listener.rs and the packets of ntied/src/packet:
-- `Handshake` what the loops share and the waits for a connection, `Task` the loops under their
-- names, `step` one event at the wait where the task stands, which its status and connection tell.
-- The result of bincode on a packet, what the transport connects and whether a send works are part
-- of the events. `Manager` models ntied/src/contact/manager.rs.
-- Common has the helpers: tests on numbers, lists, results and sorted maps. Tests has concrete
-- runs.
-- Numbers are natural, with the wrap-around of each width written out. Logging is left out.
-- Not modelled: the timeout and the drop of a connection, the interleaving of operations on calls
-- at their awaits, volumes, audio devices, resampling and the audio tasks, the channel of commands
-- to a contact, chats, storage, and the user interface.
pub mod Common
pub mod ByteIo
pub mod Crypto
pub mod Address
pub mod Packet
pub mod ServerMessage
pub mod Server
pub mod JitterBuffer
pub mod Codec
pub mod Contact
pub mod Connection
pub mod Adpcm
pub mod Transport
pub mod ServerConnection
pub mod Call
pub mod Tests
