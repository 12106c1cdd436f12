-- ===== src/Pipes.antt =====
-- rust/backend/common/src/pipes.rs: the transport between the client program and the service, with
-- its Unix half (named FIFOs).
pub mod Frame
pub mod Stream
pub mod Server
pub mod Client
pub mod Channel
pub mod Windows
