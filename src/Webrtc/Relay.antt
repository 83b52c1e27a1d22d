-- ===== src/Webrtc/Relay.antt =====
-- webrtc.go: how packets of the camera reach the tracks of a session.
use o_camera_agent.Common.{
  ℕ, ◌&&◌, ◌||◌, ◌==◌, ltb, leb, if◌then◌else◌, List, [], ◌∷◌, ◌++◌, length, drop,
}
use o_camera_agent.Common.Text.{Bytes}
use o_camera_agent.Webrtc.Proxy.{WebRtcProxy}

pub data Track : Type 0 where
  video audio : Track

-- What is written to a track.
abbrev pub Write : Type 0
Write = Track × Bytes

-- data[1], of data that is long enough.
abbrev pub channel_of : Bytes → ℕ
channel_of (a ∷ b ∷ rest) = b
channel_of _ = 0

unfoldable pub send_rtp_packet : WebRtcProxy → Bytes → List Write
send_rtp_packet p packet =
    if leb (length packet) 4
    then []
    else if channel_of packet == 0
    then (if p.video_track then (video, drop 4 packet) ∷ [] else [])
    else if channel_of packet == 2
    then (if p.audio_track then (audio, drop 4 packet) ∷ [] else [])
    else []

-- The case of consumeRTPPackets in which a packet is received.
unfoldable pub consume_packet : WebRtcProxy → Bytes → List Write
unfolding send_rtp_packet
consume_packet p packet =
    if ltb 12 (length packet) && (channel_of packet == 0 || channel_of packet == 2)
    then send_rtp_packet p packet
    else []

-- consumeRTPPackets, until the session of the camera or of the viewer ends after these packets.
unfoldable pub consume_rtp_packets : WebRtcProxy → List Bytes → List Write
consume_rtp_packets p [] = []
consume_rtp_packets p (x ∷ xs) = consume_packet p x ++ consume_rtp_packets p xs
