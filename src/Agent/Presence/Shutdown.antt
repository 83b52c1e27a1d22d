-- ===== src/Agent/Presence/Shutdown.antt =====
-- What the agent leaves behind when it shuts down.
use o_camera_agent.Common.{
  ℕ, ◌≡◌, refl, ap, ◌∙◌, true, false, List, Option, none, some, arith, get_elem?, ==_self,
}
use o_camera_agent.Common.Text.{Bytes, same_self}
use o_camera_agent.Config.{Config}
use o_camera_agent.Protocol.{Data}
use o_camera_agent.Protocol.Clock.{Time, unix}
use o_camera_agent.Protocol.Encode.{state_value}
use o_camera_agent.Source.Codecs.{SourceInfo}
use o_camera_agent.Source.{stop}
use o_camera_agent.Agent.Session.{Session, shut}
use o_camera_agent.Agent.World.{
  World, Effect, at_current_cases, current-eq_some, publish_state, publish, emit, state, send,
  put_session,
}
use o_camera_agent.Agent.Start.{new_agent, start}
use o_camera_agent.Agent.Events.{Event, run, shut_down, end_active, close_mqtt}
use o_camera_agent.Agent.Invariant.{WorldInv, IsShut, IsOpen, end-Inv, idle-sess}
use o_camera_agent.Agent.Invariant.Run.{run-Inv, start-Inv}
use o_camera_agent.Agent.Presence.Described.{absent_state, state-absent_state}
use o_camera_agent.Agent.Presence.{published_last, last_retained-append}

-- No session is active, every session is shut, and what is published at the end is as before.
record IsEnded (w w' : World) : Type 0 where
  connection : w'.mqtt.connected ≡ w.mqtt.connected
  no_session : w'.sess ≡ none
  sessions : WorldInv w'
  offline : state false w' ≡ state false w

shut_open-IsShut : (s : Session) → IsOpen s → IsShut (shut s)
unfolding shut
shut_open-IsShut s o = ground arith

put_session-IsEnded :
    (r : ℕ) (s : Session) (w : World)
    → WorldInv w
    → w.sess ≡ some r
    → get_elem? w.store r ≡ some s
    → let w' = put_session r (shut s) (record w { sess = none }) in
      (es : List Effect) (to type sid : Bytes) (d : Data)
      → IsEnded w (send to type sid d (emit es w'))
unfolding put_session send emit state
put_session-IsEnded r s w v sess found es to type sid d = record {
  connection = refl;
  no_session = refl;
  sessions =
      let is_open = rw (sess, ==_self r) at (v.each r s found) in
      end-Inv w.store r _ (rw sess at v) (shut_open-IsShut s is_open);
  offline = refl;
}

end_active-IsEnded : (w : World) → WorldInv w → IsEnded w (end_active w)
unfolding end_active
end_active-IsEnded w v =
    at_current_cases (IsEnded w) _ _ w
      (λ idle. record {
        connection = refl;
        no_session = idle-sess w v idle;
        sessions = v;
        offline = refl;
      })
      (λ r s active.
        let (sess, found) = current-eq_some w r s active in
        put_session-IsEnded r s w v sess found _ _ _ _ _)

close_mqtt-publishes :
    (w : World)
    → w.mqtt.connected ≡ true
    → (published_last (close_mqtt w) ≡ some (state_value (state false w)))
      × ((close_mqtt w).sess ≡ w.sess)
      × ((close_mqtt w).store ≡ w.store)
unfolding close_mqtt publish_state publish emit
close_mqtt-publishes w c = rw c (rw (last_retained-append, same_self), refl, refl)

pub shut_down-offline :
    (cfg : Config) (now : Time) (probe : Option SourceInfo) (es : List (Time × Event))
    → let w = run (start probe (new_agent cfg now)) es in
      w.mqtt.connected ≡ true
      → ((shut_down w).sess ≡ none)
        × (published_last (shut_down w) ≡ some (state_value (absent_state (unix w.now) w)))
unfolding shut_down stop state
shut_down-offline cfg now probe es c =
    let w = run (start probe (new_agent cfg now)) es in
    let w1 : World = record w { source = stop w.source } in
    let e = end_active-IsEnded w1 (run-Inv _ es (start-Inv cfg now probe)) in
    let (kept, sess, store) = close_mqtt-publishes (end_active w1) (e.connection ∙ c) in
    (sess ∙ e.no_session, kept ∙ ap (λ x. some (state_value x)) (e.offline ∙ state-absent_state w))

-- When the agent shuts down after any events, while it is connected: no session is active any more, no
-- session holds a peer connection or an RTSP client, and the state that it publishes last, to be
-- retained, says that the camera is offline and not busy, and has no viewer.
pub shut_down_leaves :
    (cfg : Config) (now : Time) (probe : Option SourceInfo) (es : List (Time × Event)) (r : ℕ)
    (s : Session)
    → let w = run (start probe (new_agent cfg now)) es in
      w.mqtt.connected ≡ true
      → get_elem? (shut_down w).store r ≡ some s
      → ((shut_down w).sess ≡ none)
        × (s.proxy.pc ≡ false)
        × (s.proxy.rtsp_client ≡ false)
        × (published_last (shut_down w) ≡ some (state_value (absent_state (unix w.now) w)))
unfolding shut_down stop state
shut_down_leaves cfg now probe es r s c found =
    let w = run (start probe (new_agent cfg now)) es in
    let w1 : World = record w { source = stop w.source } in
    let e = end_active-IsEnded w1 (run-Inv _ es (start-Inv cfg now probe)) in
    let (kept, sess, store) = close_mqtt-publishes (end_active w1) (e.connection ∙ c) in
    let shut_now = rw e.no_session at (e.sessions.each r s (rw store at found)) in
    (
      sess ∙ e.no_session,
      shut_now.no_pc,
      shut_now.no_client,
      kept ∙ ap (λ x. some (state_value x)) (e.offline ∙ state-absent_state w),
    )
