-- ===== src/Directory.antt =====
-- The directory server: its table of nodes, and its protocol.
pub mod Table
pub mod Server
pub mod Ping
pub mod Candidates
pub mod Registration
pub mod Service
pub mod Rotation
