-- ===== src/Tests.antt =====
-- The theorems at concrete inputs, with cryptography that a reader can follow by hand.
pub mod Toy
pub mod Wire
pub mod Handlers
pub mod Sender
pub mod Server
pub mod Retry
pub mod Groups
pub mod Console
pub mod Race
pub mod Arrival
pub mod EndToEnd
mod SendEnd
pub mod Pages
pub mod Service
pub mod Rotation
pub mod Start
pub mod Direct
