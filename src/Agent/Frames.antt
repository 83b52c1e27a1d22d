-- ===== src/Agent/Frames.antt =====
-- What the calls that publish leave alone.
use o_camera_agent.Common.{
  ◌≡◌, refl, Bool, false, List, [], ◌∷◌, Option, none, some, arith, Bool-cases, inl, inr,
}
use o_camera_agent.Common.Text.{Bytes}
use o_camera_agent.Json.{Value}
use o_camera_agent.Protocol.{Data, IceData, IceCandidate, ErrorCode}
use o_camera_agent.Source.{Update}
use o_camera_agent.Agent.Session.{Session, queue_ice}
use o_camera_agent.Agent.Offer.{gather}
use o_camera_agent.Agent.World.{
  World, Effect, emit, publish, send, send_error, send_batch, publish_state, update_source,
}

-- The sessions of two worlds are the same.
pub record SameSessions (w w' : World) : Type 0 where
  pub sess : w'.sess ≡ w.sess
  pub store : w'.store ≡ w.store

-- Nothing differs but what was published.
pub record SameButLog (w w' : World) : Type 0 where
  pub cfg : w'.cfg ≡ w.cfg
  pub mqtt : w'.mqtt ≡ w.mqtt
  pub source : w'.source ≡ w.source
  pub sess : w'.sess ≡ w.sess
  pub store : w'.store ≡ w.store
  pub now : w'.now ≡ w.now

pub emit_frame : (es : List Effect) (w : World) → SameButLog w (emit es w)
unfolding emit
emit_frame es w = ground arith

pub publish_frame : (t : Bytes) (k : Bool) (p : Value) (w : World) → SameButLog w (publish t k p w)
unfolding publish
publish_frame t k p w = ground arith

pub send_frame : (to type sid : Bytes) (d : Data) (w : World) → SameButLog w (send to type sid d w)
unfolding send
send_frame to type sid d w = ground arith

pub send_error_frame :
    (to sid : Bytes) (c : ErrorCode) (m : Bytes) (r : Bool) (w : World)
    → SameButLog w (send_error to sid c m r w)
unfolding send_error
send_error_frame to sid c m r w = ground arith

pub send_batch_frame :
    (s : Session) (b : Option IceData) (w : World) → SameButLog w (send_batch s b w)
unfolding send_batch
send_batch_frame s none w = ground arith
send_batch_frame s (some d) w = ground arith

pub publish_state_frame : (b : Bool) (w : World) → SameButLog w (publish_state b w)
unfolding publish_state
publish_state_frame b w = ground arith

pub update_source_frame : (u : Update) (w : World) → SameSessions w (update_source u w)
unfolding update_source
update_source_frame u w = elim (Bool-cases u.notifies) [
  | inl e ↦ rw e (record { sess = refl; store = refl })
  | inr e ↦ rw e (record { sess = refl; store = refl })
]

-- Nothing is sent, and nothing but the buffer changes, while candidates are gathered.
pub record Gathers (s t : Session) : Type 0 where
  pub sid : t.sid ≡ s.sid
  pub viewer : t.viewer ≡ s.viewer
  pub proxy : t.proxy ≡ s.proxy
  pub unready : t.ice_ready ≡ false
  pub going : t.ice_stopped ≡ false

gather_one :
    (c : Option IceCandidate) (s : Session)
    → s.ice_ready ≡ false
    → s.ice_stopped ≡ false
    → Gathers s (queue_ice c s).0
unfolding queue_ice
gather_one none s r t = ground arith
gather_one (some c) s r t = ground arith

pub gather_lem :
    (cs : List (Option IceCandidate)) (s : Session)
    → s.ice_ready ≡ false
    → s.ice_stopped ≡ false
    → Gathers s (gather cs s)
unfolding gather
gather_lem [] s r t = ground arith
gather_lem (c ∷ cs) s r t =
    let one = gather_one c s r t in
    ground (arith, one, gather_lem cs (queue_ice c s).0 one.unready one.going)
