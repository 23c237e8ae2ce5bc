-- ===== src/Tests.antt =====
-- Runs of the definitions and the theorems at concrete inputs.
mod Toy
mod Wire
mod Peers
mod Setup
mod Routes
mod Samples
mod Codecs
mod Calls
mod Contacts
mod Requests
mod Registered
mod Frames
