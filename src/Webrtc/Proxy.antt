-- ===== src/Webrtc/Proxy.antt =====
-- webrtc.go: the life of a WebRTCProxy. What the WebRTC package answers during one offer is the
-- argument `Peer`. Each method is one step: its sections under the lock are not interrupted.
use o_camera_agent.Common.{Bool, true, false, not, ◌&&◌, List, [], ◌∷◌, ◌++◌, map, if◌then◌else◌}
use o_camera_agent.Common.Text.{Bytes, codes, same, has_prefix, contains, to_lower}
use o_camera_agent.Common.{length, drop}
use o_camera_agent.Protocol.{ErrorCode, unsupported_codec, bad_request, internal}

pub record SessionError : Type 0 where
  pub code : ErrorCode
  pub msg : Bytes

-- A timer or a pointer is kept as whether it is not `nil`. The channel `done` is closed, and
-- `closeOnce` used up, exactly when `done` is true. The three callbacks are set together.
pub record WebRtcProxy : Type 0 where
  pub rtsp_url : Bytes
  pub video_codec : Bytes
  pub audio_codec : Bytes
  pub stun : List Bytes
  pub video_track : Bool
  pub audio_track : Bool
  pub pc : Bool
  pub rtsp_client : Bool
  pub closed : Bool
  pub started : Bool
  pub disconnect_timer : Bool
  pub done : Bool
  pub callbacks : Bool

abbrev audio_mime : Bytes → Bytes
audio_mime [] = []
audio_mime (c ∷ s) = codes "audio/" ++ (c ∷ s)

unfoldable pub new_web_rtc_proxy : Bytes → Bytes → Bytes → List Bytes → WebRtcProxy
new_web_rtc_proxy url video audio stun = record {
  rtsp_url = url;
  video_codec = codes "video/" ++ video;
  audio_codec = audio_mime audio;
  stun = stun;
  video_track = false;
  audio_track = false;
  pc = false;
  rtsp_client = false;
  closed = false;
  started = false;
  disconnect_timer = false;
  done = false;
  callbacks = false;
}

-- A resource that is given back: `pc.Close()` or `client.Close()`.
pub data Release : Type 0 where
  close_pc close_client : Release

abbrev when : Bool → Release → List Release
when true r = r ∷ []
when false r = []

-- Close, with what it gives back.
unfoldable pub close : WebRtcProxy → WebRtcProxy × List Release
close p = if p.done then (p, []) else (
  record p { done = true; closed = true; pc = false; rtsp_client = false },
  when p.pc close_pc ++ when p.rtsp_client close_client,
)

-- What the calls of the WebRTC package return while one offer is handled: `false` and `none` are
-- errors. `description` is the SDP of `pc.CurrentLocalDescription()`.
pub record Peer : Type 0 where
  pub new_peer_connection : Bool
  pub new_video_track : Bool
  pub add_video_track : Bool
  pub new_audio_track : Bool
  pub add_audio_track : Bool
  pub set_remote_description : Bool
  pub create_answer : Bool
  pub set_local_description : Bool
  pub description : Bytes

pub data Reply : Type 0 where
  answered : Bytes → Reply
  refused : SessionError → Reply

pub record Outcome : Type 0 where
  pub proxy : WebRtcProxy
  pub released : List Release
  pub reply : Reply

abbrev error : ErrorCode → Bytes → Reply
error code msg = refused (record { code = code; msg = msg })

-- From the remote description to the answer.
unfoldable pub negotiate : Peer → WebRtcProxy → Outcome
negotiate o p = record {
  proxy = p;
  released = [];
  reply =
      if not o.set_remote_description
      then error bad_request (codes "offre SDP invalide")
      else if not o.create_answer
      then error internal (codes "cannot create the answer")
      else if not o.set_local_description
      then error internal (codes "cannot apply the answer")
      else answered o.description;
}

unfoldable pub add_audio_track : Peer → WebRtcProxy → Outcome
unfolding negotiate
add_audio_track o p =
    if not o.new_audio_track
    then negotiate o (record p { audio_track = false })
    else let p' = record p { audio_track = true } in
      if not o.add_audio_track
      then record {
        proxy = p';
        released = [];
        reply = error internal (codes "cannot add the audio track");
      }
      else negotiate o p'

unfoldable pub add_tracks : Peer → Bool → WebRtcProxy → Outcome
unfolding add_audio_track
add_tracks o add_audio p =
    if not o.new_video_track
    then record {
      proxy = record p { video_track = false };
      released = [];
      reply = error unsupported_codec (codes "unsupported video codec");
    }
    else let p' = record p { video_track = true } in
      if not o.add_video_track
      then record {
        proxy = p';
        released = [];
        reply = error internal (codes "cannot add the video track");
      }
      else if add_audio
      then add_audio_track o p'
      else negotiate o p'

unfoldable pub create_answer : Peer → Bool → WebRtcProxy → Outcome
unfolding add_tracks
create_answer o add_audio p =
    if not o.new_peer_connection
    then record {
      proxy = p;
      released = [];
      reply = error internal (codes "cannot create the PeerConnection");
    }
    else if p.closed
    then record {
      proxy = p;
      released = close_pc ∷ [];
      reply = error internal (codes "session closed");
    }
    else add_tracks o add_audio (record p { pc = true })

-- strings.TrimPrefix(codec, "video/"), in lower case
unfoldable pub video_name : WebRtcProxy → Bytes
video_name p =
    let prefix = codes "video/" in
    map to_lower (
      if has_prefix p.video_codec prefix then drop (length prefix) p.video_codec else p.video_codec)

-- On an error of `createAnswer` the proxy is closed.
unfoldable pub close_refused : Outcome → Outcome
unfolding close
close_refused r = elim r.reply [
  | answered sdp ↦ r
  | refused e ↦ record r { proxy = (close r.proxy).0; released = r.released ++ (close r.proxy).1 }
]

-- The test on the offer, in lower case.
unfoldable pub offers_video : Bytes → WebRtcProxy → Bool
offers_video lower p = contains lower (codes " " ++ video_name p ++ codes "/")

unfoldable pub handle_offer : Peer → Bytes → Bool → WebRtcProxy → Outcome
unfolding create_answer close_refused
handle_offer o sdp want_audio p =
    let lower = map to_lower sdp in
    if not (offers_video lower p)
    then record {
      proxy = p;
      released = [];
      reply =
          error unsupported_codec (codes "the offer does not contain video codec " ++ video_name p);
    }
    else let add_audio =
        want_audio && not (same p.audio_codec []) && contains lower (codes "m=audio") in
      close_refused (create_answer o add_audio p)
