-- ===== src/Model.antt =====
-- node_server/model: the types and the codecs that every node shares.
pub mod Membership
pub mod Layer
pub mod Crypto
pub mod Aes
pub mod Broadcast
pub mod Peel
pub mod Shuffle
pub mod Node
pub mod Relay
pub mod Fragment
pub mod Handler
