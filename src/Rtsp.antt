-- ===== src/Rtsp.antt =====
-- The client of the camera, and what becomes of its packets.
pub mod Frames
pub mod Delivery
pub mod Codecs
pub mod Headers
pub mod Response
pub mod Request
pub mod Media
pub mod Handshake
