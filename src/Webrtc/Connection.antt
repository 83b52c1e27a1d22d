-- ===== src/Webrtc/Connection.antt =====
-- webrtc.go: the connection state of a proxy's peer connection, the end of its session, and the client
-- of a stream attempt.
use o_camera_agent.Common.{Bool, true, false, ◌&&◌, List, [], ◌∷◌, if◌then◌else◌}
use o_camera_agent.Protocol.{ByeReason, ice_failed}
use o_camera_agent.Webrtc.Proxy.{WebRtcProxy, Release, close}

-- webrtc.PeerConnectionState
pub data PeerState : Type 0 where
  unknown new connecting connected disconnected failed closed : PeerState

-- What a method makes the rest of the program do: `go wp.StartRTSPStream()`, and the callbacks
-- `onConnected` and `onEnd`; or the proxy closes itself, without callbacks.
pub data Signal : Type 0 where
  starts_stream : Signal
  connects : Signal
  ends : ByeReason → Signal
  releases : List Release → Signal

pub record Handled : Type 0 where
  pub proxy : WebRtcProxy
  pub signals : List Signal

unfoldable pub end : ByeReason → WebRtcProxy → Handled
unfolding close
end reason p =
    if p.closed
    then record { proxy = p; signals = [] }
    else if p.callbacks
    then record { proxy = p; signals = ends reason ∷ [] }
    else record { proxy = (close p).0; signals = releases (close p).1 ∷ [] }

abbrev on_connected : WebRtcProxy → Handled
on_connected p = if p.started then record { proxy = p; signals = [] } else record {
  proxy = record p { started = true };
  signals = if p.callbacks then starts_stream ∷ connects ∷ [] else starts_stream ∷ [];
}

-- The `switch` of `handleConnectionState`.
abbrev by_state : PeerState → WebRtcProxy → Handled
by_state failed p = end ice_failed p
by_state disconnected p = record { proxy = record p { disconnect_timer = true }; signals = [] }
by_state connected p = on_connected p
by_state _ p = record { proxy = p; signals = [] }

abbrev is_disconnected : PeerState → Bool
is_disconnected disconnected = true
is_disconnected _ = false

unfoldable pub handle_connection_state : PeerState → WebRtcProxy → Handled
unfolding end
handle_connection_state s p =
    if p.closed
    then record { proxy = p; signals = [] }
    else by_state s (record p { disconnect_timer = is_disconnected s && p.disconnect_timer })

-- The step of StartRTSPStream that stores the client of an attempt: not on a closed proxy.
unfoldable pub open_stream : WebRtcProxy → WebRtcProxy
open_stream p = if p.closed then p else record p { rtsp_client = true }
