-- ===== src/Node.antt =====
-- node_server/node: the sender's side of a node.
pub mod Onion
pub mod Fragments
pub mod Start
pub mod Telemetry
pub mod KeyCache
pub mod Send
pub mod Super
pub mod Cluster
pub mod SendSuper
pub mod Commands
pub mod Race
pub mod Encapsulate
