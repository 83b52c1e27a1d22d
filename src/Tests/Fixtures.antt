-- ===== src/Tests/Fixtures.antt =====
-- A camera, a viewer and their messages.
use o_camera_agent.Common.{true, List, [], ◌∷◌, ◌++◌, none, some, ◌*◌}
use o_camera_agent.Common.Int.{pos}
use o_camera_agent.Common.Text.{Bytes, codes}
use o_camera_agent.Config.{Config}
use o_camera_agent.Json.{Value, int, str, obj, end, field}
use o_camera_agent.Protocol.{IceCandidate}
use o_camera_agent.Protocol.Clock.{Time, second}
use o_camera_agent.Source.Codecs.{SourceInfo}
use o_camera_agent.Webrtc.Proxy.{Peer}
use o_camera_agent.Webrtc.Connection.{connected}
use o_camera_agent.Agent.Offer.{Outside}
use o_camera_agent.Agent.Events.{
  Event, message, probe_tick, local_ice, ice_timer_fires, connect_timer_fires, connection_state,
  stream_opens, stream_lost,
}

abbrev pub camera : Config
camera = record {
  mqtt = record {
    url = codes "ssl://b:8883";
    username = codes "cam-1";
    password = codes "x";
    ca = [];
  };
  device = record { url = codes "rtsp://h/s"; name = codes "Door"; probe_interval = pos 30 };
  ice = record { stun = codes "stun:s" ∷ [] };
}

-- 2026-10-13 12:00:00 UTC
abbrev pub noon : Time
noon = record { unix_ns = 1_791_892_800 * second; zone = pos 0 }

abbrev pub h264_camera : SourceInfo
h264_camera = record { video = codes "h264" ∷ []; audio = codes "pcmu" ∷ [] }

abbrev pub sid : Bytes
sid = codes "session-01"

abbrev pub viewer_sdp : Bytes
viewer_sdp = codes "m=video 9 UDP/TLS/RTP/SAVPF 96\na=rtpmap:96 H264/90000\nm=audio 9\n"

-- An envelope of a viewer at noon.
abbrev pub envelope_of : Bytes → Bytes → Value → Value
envelope_of sid type d = obj (
    field (codes "v") (int (pos 1)) (
      field (codes "ts") (int (pos 1_791_892_800)) (
        field (codes "sid") (str sid)
          (field (codes "type") (str type) (field (codes "data") d end)))))

abbrev pub inbox : Bytes → Bytes
inbox viewer = codes "ocam/dev/cam-1/in/" ++ viewer

abbrev pub willing_peer : Peer
willing_peer = record {
  new_peer_connection = true;
  new_video_track = true;
  add_video_track = true;
  new_audio_track = true;
  add_audio_track = true;
  set_remote_description = true;
  create_answer = true;
  set_local_description = true;
  description = codes "v=0";
}

abbrev pub candidate : Bytes → IceCandidate
candidate s = record { candidate = s; sdp_mid = none; sdp_mline_index = some 0 }

abbrev pub outside : Outside
outside = record {
  probe = some h264_camera;
  peer = willing_peer;
  gathered = some (candidate (codes "host")) ∷ [];
}

abbrev pub offer_of : Bytes → Bytes → Event
offer_of viewer sid =
    message (inbox viewer)
      (some (envelope_of sid (codes "offer") (obj (field (codes "sdp") (str viewer_sdp) end))))
      outside

abbrev pub bye_of : Bytes → Bytes → Event
bye_of viewer sid = message (inbox viewer) (some (envelope_of sid (codes "bye") (obj end))) outside

-- A session is opened, connects, is disturbed and loses its stream.
abbrev pub life : List (Time × Event)
life =
    (noon, offer_of (codes "anna") sid)
    ∷ (noon, connection_state 0 connected)
    ∷ (noon, stream_opens 0)
    ∷ (noon, offer_of (codes "bert") (codes "session-02"))
    ∷ (noon, local_ice 0 (some (candidate (codes "srflx"))))
    ∷ (noon, ice_timer_fires 0)
    ∷ (noon, stream_lost 0)
    ∷ (noon, connect_timer_fires 0)
    ∷ (noon, probe_tick none)
    ∷ []
