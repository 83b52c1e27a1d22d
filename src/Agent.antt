-- ===== src/Agent.antt =====
-- agent.go: the sessions of the camera.
pub mod Session
pub mod World
pub mod Offer
pub mod Events
pub mod Start
pub mod Replies
pub mod Batching
pub mod Frames
pub mod Invariant
pub mod Presence
pub mod Isolation
pub mod Codecs
