-- ===== src/Agent/Presence/Described.antt =====
-- What the published state should say, in terms of the agent's parts and without the program's `state`.
use o_camera_agent.Common.{
  ◌≡◌, refl, Bool, true, false, List, [], ◌∷◌, Option, none, some, arith, get_elem?, ℕ,
}
use o_camera_agent.Common.Int.{ℤ}
use o_camera_agent.Common.Text.{Bytes, codes}
use o_camera_agent.Protocol.{State, StateCaps, protocol_version, agent_name, agent_version}
use o_camera_agent.Protocol.Clock.{unix}
use o_camera_agent.Source.Codecs.{SourceInfo, supported_video, supported_audio, filter_supported}
use o_camera_agent.Agent.Session.{Session}
use o_camera_agent.Agent.World.{World, state, viewer, caps, current, is_some}

-- The viewer of the active session, if there is one.
abbrev found_viewer : Option Session → Option Bytes
found_viewer none = none
found_viewer (some s) = some s.viewer

abbrev pointed_viewer : List Session → Option ℕ → Option Bytes
pointed_viewer store none = none
pointed_viewer store (some r) = found_viewer (get_elem? store r)

abbrev pub active_viewer : World → Option Bytes
active_viewer w = pointed_viewer w.store w.sess

-- The codecs that the agent can carry, of those that the camera announced.
abbrev capabilities : Option SourceInfo → Option StateCaps
capabilities none = none
capabilities (some i) = some (record {
  video = filter_supported i.video supported_video;
  audio = filter_supported i.audio supported_audio;
  streams = codes "main" ∷ [];
  cmds = [];
})

abbrev described : ℤ → Bool → Option Bytes → World → State
described ts online v w = record {
  v = protocol_version;
  ts = ts;
  name = w.cfg.device.name;
  online = online;
  busy = is_some v;
  viewer = v;
  kind = codes "relay";
  caps = capabilities w.source.info;
  agent = some (record { name = agent_name; version = agent_version });
}

-- Online exactly if the camera is reachable, busy exactly if a session is active, and then with its
-- viewer.
abbrev pub present_state : ℤ → World → State
present_state ts w = described ts w.source.online (active_viewer w) w

-- Offline, and not busy.
abbrev pub absent_state : ℤ → World → State
absent_state ts w = described ts false none w

caps-capabilities : (o : Option SourceInfo) → caps o ≡ capabilities o
unfolding caps
caps-capabilities none = refl
caps-capabilities (some i) = refl

viewer-active_viewer : (w : World) → viewer w ≡ active_viewer w
unfolding viewer current
viewer-active_viewer w = ground arith

pub state-present_state :
    (ts : ℤ) (w : World) → record (state true w) { ts = ts } ≡ present_state ts w
unfolding state
state-present_state ts w = rw (viewer-active_viewer w, caps-capabilities w.source.info) refl

pub state-absent_state : (w : World) → state false w ≡ absent_state (unix w.now) w
unfolding state
state-absent_state w = rw (caps-capabilities w.source.info) refl
