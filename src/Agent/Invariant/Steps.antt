-- ===== src/Agent/Invariant/Steps.antt =====
-- Every event keeps the invariant of the sessions.
use o_camera_agent.Common.{
  ℕ, ◌≡◌, ap, inl, inr, Bool, true, false, List, [], ◌∷◌, Option, none, some, arith, get_elem?, set,
  Bool-cases, ==_iff,
}
use o_camera_agent.Protocol.{ByeReason, IceCandidate, IceData}
use o_camera_agent.Webrtc.Proxy.{WebRtcProxy}
use o_camera_agent.Webrtc.Connection.{
  PeerState, Handled, handle_connection_state, end, open_stream, Signal, starts_stream, connects,
  ends, releases,
}
use o_camera_agent.Agent.Session.{Session, shut, stop_connect_timer, queue_ice}
use o_camera_agent.Agent.World.{
  World, points, at_session_cases, emit, put_session, send, publish_state, update_source,
}
use o_camera_agent.Agent.Events.{
  end_session, on_signal, on_signals, on_proxy, on_ice, report, open_started, fire_ice,
}
use o_camera_agent.Agent.Frames.{send_batch_frame}
use o_camera_agent.Agent.Invariant.{IsOpen, IsShut, Status, put-Inv, end-Inv, WorldInv, keep_log}

shut-IsShut : (s : Session) → IsOpen s → IsShut (shut (stop_connect_timer s))
unfolding shut stop_connect_timer
shut-IsShut s o = ground arith

pub end_session_of_current :
    (r : ℕ) (s : Session) (reason : ByeReason) (b : Bool) (w : World)
    → points w.sess r ≡ true
    → let w' = end_session r s reason b w in
      (w'.sess ≡ none) × (w'.store ≡ set w.store r (shut (stop_connect_timer s)))
unfolding end_session emit put_session send publish_state update_source
end_session_of_current r s reason b w h = ground arith

stop_connect_timer-Status : (b : Bool) (s : Session) → Status b s → Status b (stop_connect_timer s)
unfolding stop_connect_timer
stop_connect_timer-Status true s h = ground arith
stop_connect_timer-Status false s h = ground arith

points-eq : (o : Option ℕ) (r : ℕ) → points o r ≡ true → o ≡ some r
points-eq none r h = cc
points-eq (some q) r h = ap some ((==_iff q r).0 h)

pub end_session_of_other :
    (r : ℕ) (s : Session) (reason : ByeReason) (b : Bool) (w : World)
    → points w.sess r ≡ false
    → end_session r s reason b w ≡ w
unfolding end_session
end_session_of_other r s reason b w h = rw h

pub end_session-Inv :
    (r : ℕ) (s : Session) (reason : ByeReason) (b : Bool) (w : World)
    → get_elem? w.store r ≡ some s
    → WorldInv w
    → WorldInv (end_session r s reason b w)
end_session-Inv r s reason b w e v = elim (Bool-cases (points w.sess r)) [
  | inl here ↦
      let (idle, stored) = end_session_of_current r s reason b w here in
      let is_open : IsOpen s = rw here at (v.each r s e) in
      rw (idle, stored)
        (end-Inv w.store r _ (rw (points-eq w.sess r here) at v) (shut-IsShut s is_open))
  | inr other ↦ rw (end_session_of_other r s reason b w other) v
]

-- A session changes in place, and messages are sent.
pub put_world :
    (r : ℕ) (s t : Session) (w : World)
    → get_elem? w.store r ≡ some s
    → ((b : Bool) → Status b s → Status b t)
    → WorldInv w
    → WorldInv (put_session r t w)
unfolding put_session
put_world r s t w e keeps v = put-Inv w.sess w.store r t v (keeps _ (v.each r s e))

on_signal-Inv : (r : ℕ) (x : Signal) (w : World) → WorldInv w → WorldInv (on_signal r x w)
unfolding on_signal emit
on_signal-Inv r starts_stream w v = v
on_signal-Inv r connects w v =
    at_session_cases WorldInv r _ w v
      λ s e. put_world r s _ w e (λ b. stop_connect_timer-Status b s) v
on_signal-Inv r (ends reason) w v =
    at_session_cases WorldInv r _ w v λ s e. end_session-Inv r s reason true w e v
on_signal-Inv r (releases rs) w v = v

on_signals-Inv : (r : ℕ) (xs : List Signal) (w : World) → WorldInv w → WorldInv (on_signals r xs w)
unfolding on_signals
on_signals-Inv r [] w v = v
on_signals-Inv r (x ∷ xs) w v = on_signals-Inv r xs (on_signal r x w) (on_signal-Inv r x w v)

-- A method of the proxy that keeps the status of its session.
abbrev pub KeepsStatus : (Session → Session) → Type 0
KeepsStatus f = (b : Bool) (s : Session) → Status b s → Status b (f s)

pub on_proxy-Inv :
    (f : WebRtcProxy → Handled) (r : ℕ) (w : World)
    → KeepsStatus (λ s. record s { proxy = (f s.proxy).proxy })
    → WorldInv w
    → WorldInv (on_proxy f r w)
unfolding on_proxy
on_proxy-Inv f r w keeps v =
    at_session_cases WorldInv r _ w v
      λ s e. on_signals-Inv r _ _ (put_world r s _ w e (λ b. keeps b s) v)

pub on_ice-Inv :
    (f : Session → Session × Option IceData) (r : ℕ) (w : World)
    → KeepsStatus (λ s. (f s).0)
    → WorldInv w
    → WorldInv (on_ice f r w)
unfolding on_ice
on_ice-Inv f r w keeps v =
    at_session_cases WorldInv r _ w v
      λ s e. keep_log (send_batch_frame s _ _) (put_world r s _ w e (λ b. keeps b s) v)

pub end-Status :
    (reason : ByeReason) → KeepsStatus (λ s. record s { proxy = (end reason s.proxy).proxy })
unfolding end
end-Status reason true s h = ground arith
end-Status reason false s h = ground arith

pub report-Status :
    (p : PeerState) → KeepsStatus (λ s. record s { proxy = (report p s.proxy).proxy })
unfolding report handle_connection_state
report-Status p true s h = ground arith
report-Status p false s h = ground arith

pub open_started-Status : KeepsStatus (λ s. record s { proxy = open_started s.proxy })
unfolding open_started open_stream
open_started-Status true s h = ground arith
open_started-Status false s h = ground arith

pub queue_ice-Status : (c : Option IceCandidate) → KeepsStatus (λ s. (queue_ice c s).0)
unfolding queue_ice
queue_ice-Status none true s h = ground arith
queue_ice-Status none false s h = ground arith
queue_ice-Status (some c) true s h = ground arith
queue_ice-Status (some c) false s h = ground arith

pub fire-Status : KeepsStatus (λ s. (fire_ice s).0)
unfolding fire_ice
fire-Status true s h = ground arith
fire-Status false s h = ground arith
