-- ===== src/Agent/World.antt =====
-- agent.go and mqtt.go: the state of the agent, what it publishes, and the state of the camera. The
-- sessions that ever were stand in `store`, a pointer to one is its index, and `log` holds the calls
-- that leave the program, the oldest first.
use o_camera_agent.Common.{
  ◌≡◌, arith, inl, inr, Option-cases, ℕ, Bool, true, false, ◌&&◌, ◌==◌, List, [], ◌∷◌, ◌++◌, Option,
  none, some, if◌then◌else◌, get_elem?, set, ◌>>=◌,
}
use o_camera_agent.Common.Text.{Bytes, codes}
use o_camera_agent.Config.{Config}
use o_camera_agent.Json.{Value}
use o_camera_agent.Mqtt.{MqttClient, topic_cli}
use o_camera_agent.Protocol.{
  Envelope, Data, State, StateCaps, protocol_version, agent_name, agent_version, ErrorCode,
  error_data, type_error, type_ice, ice_data, IceCandidate, IceData,
}
use o_camera_agent.Protocol.Clock.{Time, unix}
use o_camera_agent.Protocol.Encode.{marshal_data, marshal_envelope, marshal_state}
use o_camera_agent.Source.{SourceMonitor, Update}
use o_camera_agent.Source.Codecs.{
  SourceInfo, supported_video, supported_audio, first_supported, filter_supported,
}
use o_camera_agent.Webrtc.Proxy.{Release}
use o_camera_agent.Agent.Session.{Session}

pub data Effect : Type 0 where
  -- a topic, whether the message is retained, and its payload
  publishes : Bytes → Bool → Value → Effect
  -- pc.AddICECandidate of a session
  adds_candidate : ℕ → IceCandidate → Effect
  gives_back : ℕ → Release → Effect

pub record World : Type 0 where
  pub cfg : Config
  pub mqtt : MqttClient
  pub source : SourceMonitor
  pub sess : Option ℕ
  pub store : List Session
  pub now : Time
  pub log : List Effect

unfoldable pub emit : List Effect → World → World
emit es w = record w { log = w.log ++ es }

-- The active session and the pointer to it.
unfoldable pub current : World → Option (ℕ × Session)
current w = do r ← w.sess; s ← get_elem? w.store r; some (r, s)

-- Whether a pointer is to a session.
abbrev pub points : Option ℕ → ℕ → Bool
points none r = false
points (some q) r = q == r

-- What is done with the session behind a pointer.
unfoldable pub at_session : ℕ → (Session → World → World) → World → World
at_session r f w = elim (get_elem? w.store r) [ none ↦ w | some s ↦ f s w ]

pub at_session_cases :
    (P : World → Type 0) (r : ℕ) (f : Session → World → World) (w : World)
    → P w
    → ((s : Session) → get_elem? w.store r ≡ some s → P (f s w))
    → P (at_session r f w)
unfolding at_session
at_session_cases P r f w missing found = elim (Option-cases (get_elem? w.store r)) [
  | inl e ↦ rw (e, at_session) missing
  | inr (s, e) ↦ rw (e, at_session) (found s e)
]

-- What is done with the active session, or without one.
unfoldable pub at_current : (ℕ → Session → World → World) → (World → World) → World → World
at_current f g w = elim (current w) [ none ↦ g w | some (r, s) ↦ f r s w ]

pub at_current_cases :
    (P : World → Type 0) (f : ℕ → Session → World → World) (g : World → World) (w : World)
    → (current w ≡ none → P (g w))
    → ((r : ℕ) (s : Session) → current w ≡ some (r, s) → P (f r s w))
    → P (at_current f g w)
unfolding at_current
at_current_cases P f g w idle active = elim (Option-cases (current w)) [
  | inl e ↦ rw (e, at_current) (idle e)
  | inr ((r, s), e) ↦ rw (e, at_current) (active r s e)
]

-- The active session is in the store.
pub current-eq_some :
    (w : World) (r : ℕ) (s : Session)
    → current w ≡ some (r, s)
    → (w.sess ≡ some r) × (get_elem? w.store r ≡ some s)
unfolding current
current-eq_some w r s h = ground arith

unfoldable pub put_session : ℕ → Session → World → World
put_session r s w = record w { store = set w.store r s }

unfoldable pub publish : Bytes → Bool → Value → World → World
unfolding emit
publish topic retained payload = emit (publishes topic retained payload ∷ [])

-- Send.
unfoldable pub send : Bytes → Bytes → Bytes → Data → World → World
unfolding publish
send to type sid d w = elim (marshal_data d) [
  | none ↦ w
  | some raw ↦
      let env : Envelope = record {
        v = protocol_version;
        ts = unix w.now;
        sid = sid;
        type = type;
        raw = some raw;
      } in
      elim (marshal_envelope env) [
        | none ↦ w
        | some payload ↦ publish (topic_cli w.mqtt to) false payload w
      ]
]

unfoldable pub send_error : Bytes → Bytes → ErrorCode → Bytes → Bool → World → World
unfolding send
send_error to sid code msg retryable = send to type_error sid (error_data code msg retryable)

unfoldable pub send_batch : Session → Option IceData → World → World
unfolding send
send_batch s none w = w
send_batch s (some d) w = send s.viewer type_ice s.sid (ice_data d) w

-- The codecs to use, "" for none.
unfoldable pub codecs : World → Bytes × Bytes
codecs w = elim w.source.info [
  | none ↦ ([], [])
  | some i ↦ (first_supported i.video supported_video, first_supported i.audio supported_audio)
]

unfoldable pub caps : Option SourceInfo → Option StateCaps
caps none = none
caps (some i) = some (record {
  video = filter_supported i.video supported_video;
  audio = filter_supported i.audio supported_audio;
  streams = codes "main" ∷ [];
  cmds = [];
})

-- The viewer of the active session.
unfoldable pub viewer : World → Option Bytes
unfolding current
viewer w = elim (current w) [ none ↦ none | some (r, s) ↦ some s.viewer ]

abbrev pub is_some {ℓ} : {A : Type ℓ} → Option A → Bool
is_some none = false
is_some (some _) = true

unfoldable pub state : Bool → World → State
state online w =
    let v = if online then viewer w else none in
    record {
      v = protocol_version;
      ts = unix w.now;
      name = w.cfg.device.name;
      online = online && w.source.online;
      busy = is_some v;
      viewer = v;
      kind = codes "relay";
      caps = caps w.source.info;
      agent = some (record { name = agent_name; version = agent_version });
    }

unfoldable pub publish_state : Bool → World → World
unfolding publish state
publish_state online w = elim (marshal_state (state online w)) [
  | none ↦ w
  | some payload ↦ publish w.mqtt.topic_state true payload w
]

-- A method of the monitor, with its callback: `onChange` publishes the state.
unfoldable pub update_source : Update → World → World
unfolding publish_state
update_source u w =
    let w' = record w { source = u.monitor } in if u.notifies then publish_state true w' else w'
