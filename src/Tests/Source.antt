-- ===== src/Tests/Source.antt =====
-- The theorems on the source monitor and on a proxy at concrete inputs.
use o_camera_agent.Common.{◌≡◌, ◌≢◌, refl, ◌↔◌, true, false, List, [], ◌∷◌, none, some, map}
use o_camera_agent.Common.Int.{pos}
use o_camera_agent.Common.Text.{codes, to_lower}
use o_camera_agent.Source.{SourceMonitor, new_source_monitor, probe_now, probe_fail_threshold}
use o_camera_agent.Source.Codecs.{same_info}
use o_camera_agent.Source.Notify.{seen, probe_now-notifies}
use o_camera_agent.Source.Reachable.{
  Happening, happen, probed, lost, after, succeeded_within, last_found, after_history,
}
use o_camera_agent.Webrtc.Proxy.{WebRtcProxy, new_web_rtc_proxy, handle_offer, offers_video}
use o_camera_agent.Webrtc.Resources.{IsNew, Settles, handle_offer-Settles}
use o_camera_agent.Tests.Fixtures.{h264_camera, viewer_sdp, willing_peer}

abbrev monitor : SourceMonitor
monitor = new_source_monitor (codes "rtsp://h/s") (pos 0)

abbrev history : List Happening
history = probed none ∷ probed none ∷ probed (some h264_camera) ∷ lost ∷ []

after_history_example :
    ((after monitor history).online ≡ succeeded_within probe_fail_threshold history)
    × ((after monitor history).info ≡ last_found history)
after_history_example = after_history (codes "rtsp://h/s") (pos 0) history

-- Two failures leave the camera online, and a third one does not.
after_failures :
    ((after monitor history).online ≡ true)
    × ((after monitor (probed none ∷ history)).online ≡ false)
unfolding after happen new_source_monitor probe_now same_info
after_failures = (refl, refl)

abbrev watched : SourceMonitor
watched = record monitor { on_change = true }

probe_now-notifies_example :
    ((probe_now watched (some h264_camera)).notifies ≡ true)
    ↔ (seen (probe_now watched (some h264_camera)).monitor ≢ seen watched)
probe_now-notifies_example = probe_now-notifies watched (some h264_camera) refl

abbrev proxy : WebRtcProxy
proxy = record (new_web_rtc_proxy (codes "rtsp://h/s") (codes "h264") (codes "pcmu") []) {
  callbacks = true;
}

proxy-IsNew : IsNew proxy
unfolding new_web_rtc_proxy
proxy-IsNew = record {
  no_pc = refl;
  no_client = refl;
  not_closed = refl;
  not_done = refl;
  not_started = refl;
}

handle_offer-Settles_example :
    let r = handle_offer willing_peer viewer_sdp true proxy in
    Settles willing_peer (offers_video (map to_lower viewer_sdp) proxy) proxy r r.reply
handle_offer-Settles_example = handle_offer-Settles willing_peer viewer_sdp true proxy proxy-IsNew
