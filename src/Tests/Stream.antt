-- ===== src/Tests/Stream.antt =====
-- A connection of the camera with noise, a video frame, a report and a short frame.
use o_camera_agent.Common.{
  ℕ, ◌≡◌, refl, Bool, true, false, List, [], ◌∷◌, ◌++◌, zero, suc, arith, replicate,
}
use o_camera_agent.Common.Text.{Bytes, codes}
use o_camera_agent.Webrtc.Proxy.{WebRtcProxy, new_web_rtc_proxy}
use o_camera_agent.Webrtc.Relay.{video, consume_rtp_packets}
use o_camera_agent.Webrtc.Stream.{
  Attempt, cannot_connect, closes_dialing, stream_ends, start_rtsp_stream, max_attempts,
}
use o_camera_agent.Webrtc.Stream.Ending.{
  Ends, first_closing, start_rtsp_stream-Ends, start_rtsp_stream-waits,
}
use o_camera_agent.Rtsp.Frames.{RtspClient, going, read_loop}
use o_camera_agent.Rtsp.Delivery.{Frame, encode, all_written, frames_delivered}

abbrev proxy : WebRtcProxy
proxy = record (new_web_rtc_proxy (codes "rtsp://h/s") (codes "h264") [] []) { video_track = true }

abbrev picture : Frame
picture = record { channel = 0; payload = replicate 300 7 }

abbrev others : List Frame
others =
    record { channel = 1; payload = replicate 20 1 } ∷ record { channel = 0; payload = 9 ∷ [] } ∷ []

abbrev noise : Bytes
noise = 0 ∷ 255 ∷ []

abbrev calls : List Bool
calls = true ∷ false ∷ true ∷ true ∷ false ∷ []

-- Only the first frame is video with a header.
picture_only : all_written proxy (picture ∷ others) ≡ (video, replicate 300 7) ∷ []
unfolding new_web_rtc_proxy
picture_only = refl

frames_delivered_example :
    let rc : RtspClient = record {
      input = noise ++ encode (picture ∷ others) ++ codes "$";
      desync = false;
      received = [];
    } in
    (rc' : RtspClient) × (read_loop calls rc ≡ going rc')
    × (rc'.input ≡ codes "$")
    × (rc'.desync ≡ false)
    × (consume_rtp_packets proxy rc'.received ≡ all_written proxy (picture ∷ others))
frames_delivered_example =
    frames_delivered noise picture others calls (codes "$") false proxy ((λ e. cc), ((λ e. cc), tt))
      (omega arith) (omega arith)

-- The viewer leaves while the second attempt dials.
abbrev leaves : ℕ → Attempt
leaves zero = cannot_connect
leaves (suc n) = closes_dialing

abbrev called_back : WebRtcProxy
called_back = record proxy { callbacks = true }

called_back_is_open :
    (called_back.closed ≡ false) × (called_back.done ≡ false) × (called_back.callbacks ≡ true)
unfolding new_web_rtc_proxy
called_back_is_open = (refl, refl, refl)

start_rtsp_stream-Ends_example :
    Ends (first_closing max_attempts 0 leaves) (start_rtsp_stream leaves called_back)
start_rtsp_stream-Ends_example =
    start_rtsp_stream-Ends leaves called_back called_back_is_open.0 called_back_is_open.1
      called_back_is_open.2

-- The viewer's session then leaves a connection open.
leaves_open : (start_rtsp_stream leaves called_back).connected ≡ true
leaves_open =
    (start_rtsp_stream-Ends leaves called_back called_back_is_open.0 called_back_is_open.1
      called_back_is_open.2).2

-- The camera ends every stream.
abbrev fails : ℕ → Attempt
fails n = stream_ends

start_rtsp_stream-waits_example : (start_rtsp_stream fails called_back).waits ≡ 1 ∷ 2 ∷ 4 ∷ 8 ∷ []
start_rtsp_stream-waits_example =
    start_rtsp_stream-waits fails called_back called_back_is_open.0 refl
