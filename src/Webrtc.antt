-- ===== src/Webrtc.antt =====
-- webrtc.go: the proxy of one session, its peer connection and its RTSP stream.
pub mod Proxy
pub mod Connection
pub mod Resources
pub mod Network
pub mod Relay
pub mod Stream
