-- ===== src/Agent/Session.antt =====
-- agent.go: one session and the batching of its local ICE candidates. A method returns the session
-- and the batch that it sends, if any. `startICE` and `queueICE` release the lock before they call
-- `flushICE`; each is one step here.
use o_camera_agent.Common.{
  Bool, true, false, not, ◌&&◌, ◌||◌, List, [], ◌∷◌, ◌++◌, Option, none, some, if◌then◌else◌,
}
use o_camera_agent.Common.Text.{Bytes}
use o_camera_agent.Json.{Value}
use o_camera_agent.Protocol.{IceCandidate, IceData}
use o_camera_agent.Protocol.Clock.{Time}
use o_camera_agent.Webrtc.Proxy.{WebRtcProxy, Release, close}

-- A timer is kept as whether its pointer is not `nil`; `ice_buf` is a list, `nil` or not.
pub record Session : Type 0 where
  pub sid : Bytes
  pub viewer : Bytes
  pub proxy : WebRtcProxy
  pub began : Time  -- the field `started`
  pub answer : Option Value
  pub connect_timer : Bool
  pub ice_buf : List IceCandidate
  pub ice_end : Bool
  pub ice_timer : Bool
  pub ice_ready : Bool
  pub ice_stopped : Bool

-- The literal in `handleOffer`, with the proxy that is stored next.
unfoldable pub new_session : Bytes → Bytes → WebRtcProxy → Time → Session
new_session sid viewer proxy now = record {
  sid = sid;
  viewer = viewer;
  proxy = proxy;
  began = now;
  answer = none;
  connect_timer = false;
  ice_buf = [];
  ice_end = false;
  ice_timer = false;
  ice_ready = false;
  ice_stopped = false;
}

abbrev pub is_nil {ℓ} : {A : Type ℓ} → List A → Bool
is_nil [] = true
is_nil (x ∷ xs) = false

unfoldable pub flush_ice : Session → Session × Option IceData
flush_ice s = if s.ice_stopped || (is_nil s.ice_buf && not s.ice_end) then (s, none) else (
  record s { ice_buf = []; ice_end = false; ice_timer = false },
  some (record { candidates = s.ice_buf; final = s.ice_end }),
)

unfoldable pub start_ice : Session → Session × Option IceData
unfolding flush_ice
start_ice s =
    let s' = record s { ice_ready = true } in
    if not (is_nil s.ice_buf) || s.ice_end then flush_ice s' else (s', none)

-- `none` is the `nil` that ends the gathering.
unfoldable pub queue_ice : Option IceCandidate → Session → Session × Option IceData
unfolding flush_ice
queue_ice none s =
    if s.ice_stopped
    then (s, none)
    else let s' = record s { ice_end = true } in
      if not s.ice_ready then (s', none) else flush_ice s'
queue_ice (some c) s =
    if s.ice_stopped
    then (s, none)
    else let s' = record s { ice_buf = s.ice_buf ++ c ∷ [] } in
      if not s.ice_ready then (s', none) else (record s' { ice_timer = true }, none)

unfoldable pub stop_ice : Session → Session
stop_ice s = record s { ice_stopped = true; ice_timer = false }

-- Of `onConnected` and `endSession`.
unfoldable pub stop_connect_timer : Session → Session
stop_connect_timer s = record s { connect_timer = false }

-- `s.stopICE()` and `s.proxy.Close()`.
unfoldable pub shut : Session → Session
unfolding stop_ice close
shut s = let s' = stop_ice s in record s' { proxy = (close s'.proxy).0 }

unfoldable pub shut_releases : Session → List Release
unfolding close
shut_releases s = (close s.proxy).1
