-- ===== src/Network.antt =====
-- network/: the messages, the workers that handle them, and the framing of messages on a connection.
pub mod Message
pub mod Worker
pub mod Peer
pub mod Slab
pub mod Server
