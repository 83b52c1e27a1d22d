-- ===== src/Agent/Presence/Run.antt =====
-- The state published last is up to date after any events.
use o_camera_agent.Common.{
  ℕ, ◌≡◌, refl, sym, ap, ◌∙◌, Bool, true, false, not, ◌||◌, List, [], ◌∷◌, Option, none, some,
  arith, if_cases, get_elem?,
}
use o_camera_agent.Common.Int.{ℤ}
use o_camera_agent.Common.Text.{Bytes, same}
use o_camera_agent.Config.{Config}
use o_camera_agent.Mqtt.{Received, handle_message}
use o_camera_agent.Protocol.{
  Envelope, IceCandidate, IceData, CmdData, user, timeout, ice_failed, source_lost, type_offer,
  type_ice, type_bye, type_cmd,
}
use o_camera_agent.Protocol.Clock.{Time}
use o_camera_agent.Protocol.Decode.{unmarshal_ice, unmarshal_cmd}
use o_camera_agent.Protocol.Encode.{state_value}
use o_camera_agent.Source.Codecs.{SourceInfo}
use o_camera_agent.Webrtc.Proxy.{WebRtcProxy}
use o_camera_agent.Webrtc.Connection.{Handled, Signal, starts_stream, connects, ends, releases, end}
use o_camera_agent.Agent.Session.{Session, queue_ice, stop_connect_timer}
use o_camera_agent.Agent.World.{
  World, adds_candidate, at_session_cases, at_current_cases, current, viewer, put_session,
}
use o_camera_agent.Agent.Offer.{Outside}
use o_camera_agent.Agent.Start.{new_agent, first_probe, start}
use o_camera_agent.Agent.Events.{
  Event, message, mqtt_up, mqtt_down, probe_tick, local_ice, ice_timer_fires, connect_timer_fires,
  disconnect_timer_fires, connection_state, stream_opens, stream_lost, happen, step, run,
  handle_ice, handle_bye, handle_cmd, handle_envelope, is_from, add_candidates, report, fire_ice,
  on_signal, on_signals, on_proxy, on_ice, add_decoded, answer_cmd, receive,
}
use o_camera_agent.Agent.Invariant.{WorldInv}
use o_camera_agent.Agent.Invariant.Run.{step-Inv, start-Inv}
use o_camera_agent.Agent.Presence.{
  IsPublished, published_last, Alike-IsPublished, publish_state-IsPublished,
}
use o_camera_agent.Agent.Presence.Described.{present_state, state-present_state}
use o_camera_agent.Agent.Presence.Calls.{
  NoneRetained, NoneRetained-gives_back, emit-IsPublished, send-IsPublished, send_error-IsPublished,
  send_batch-IsPublished, put_session-IsPublished, probe-IsPublished,
}
use o_camera_agent.Agent.Presence.Steps.{end_session-IsPublished, handle_offer_message-IsPublished}

-- A session changes in place, and keeps its viewer.
put_at :
    (r : ℕ) (s t : Session) (w : World)
    → get_elem? w.store r ≡ some s
    → t.viewer ≡ s.viewer
    → IsPublished w
    → IsPublished (put_session r t w)
put_at r s t w e same =
    put_session-IsPublished r t w (λ s' e'. same ∙ ap (λ s. s.viewer) (some-eq s s' (sym e ∙ e')))
  where
    some-eq : (a b : Session) → some a ≡ some b → a ≡ b
    some-eq a b h = cc

on_signal-IsPublished :
    (r : ℕ) (x : Signal) (w : World) → IsPublished w → IsPublished (on_signal r x w)
unfolding on_signal
on_signal-IsPublished r starts_stream w p = p
on_signal-IsPublished r connects w p =
    at_session_cases IsPublished r _ w p
      λ s e. put_at r s (stop_connect_timer s) w e (unfold stop_connect_timer in refl) p
on_signal-IsPublished r (ends reason) w p =
    at_session_cases IsPublished r _ w p λ s e. end_session-IsPublished r s reason true w p
on_signal-IsPublished r (releases xs) w p = emit-IsPublished _ w (NoneRetained-gives_back r xs) p

on_signals-IsPublished :
    (r : ℕ) (xs : List Signal) (w : World) → IsPublished w → IsPublished (on_signals r xs w)
unfolding on_signals
on_signals-IsPublished r [] w p = p
on_signals-IsPublished r (x ∷ xs) w p =
    on_signals-IsPublished r xs (on_signal r x w) (on_signal-IsPublished r x w p)

on_proxy-IsPublished :
    (f : WebRtcProxy → Handled) (r : ℕ) (w : World) → IsPublished w → IsPublished (on_proxy f r w)
unfolding on_proxy
on_proxy-IsPublished f r w p =
    at_session_cases IsPublished r _ w p
      λ s e. on_signals-IsPublished r _ _ (put_at r s _ w e refl p)

on_ice-IsPublished :
    (f : Session → Session × Option IceData) (r : ℕ) (w : World)
    → ((s : Session) → (f s).0.viewer ≡ s.viewer)
    → IsPublished w
    → IsPublished (on_ice f r w)
unfolding on_ice
on_ice-IsPublished f r w same p =
    at_session_cases IsPublished r _ w p
      λ s e. send_batch-IsPublished s _ _ (put_at r s _ w e (same s) p)

queue_ice-viewer : (c : Option IceCandidate) (s : Session) → (queue_ice c s).0.viewer ≡ s.viewer
unfolding queue_ice
queue_ice-viewer none s = ground arith
queue_ice-viewer (some c) s = ground arith

fire_ice-viewer : (s : Session) → (fire_ice s).0.viewer ≡ s.viewer
unfolding fire_ice
fire_ice-viewer s = ground arith

NoneRetained-add_candidates :
    (r : ℕ) (p : WebRtcProxy) (cs : List IceCandidate) → NoneRetained (add_candidates r p cs)
unfolding add_candidates
NoneRetained-add_candidates r p [] = tt
NoneRetained-add_candidates r p (c ∷ cs) =
    let rest = NoneRetained-add_candidates r p cs in
    if_cases NoneRetained (same c.candidate [] || not p.pc) (add_candidates r p cs)
      (adds_candidate r c ∷ add_candidates r p cs) (λ _. rest) (λ _. rest)

module _ (from : Bytes) (w : World) (p : IsPublished w) where
  add_decoded-IsPublished :
      (r : ℕ) (cur : Session) (d : Option IceData) → IsPublished (add_decoded r cur d w)
  unfolding add_decoded
  add_decoded-IsPublished r cur none = p
  add_decoded-IsPublished r cur (some d) =
      emit-IsPublished _ w (NoneRetained-add_candidates r cur.proxy d.candidates) p

  answer_cmd-IsPublished : (d : Option CmdData) → IsPublished (answer_cmd from d w)
  unfolding answer_cmd
  answer_cmd-IsPublished none = p
  answer_cmd-IsPublished (some d) =
      if_cases IsPublished (same d.id []) _ _ (λ _. p) (λ _. send-IsPublished from _ [] _ w p)

  handle_ice-IsPublished : (env : Envelope) → IsPublished (handle_ice from env w)
  unfolding handle_ice
  handle_ice-IsPublished env =
      at_current_cases IsPublished _ _ w (λ _. p)
        λ r cur _.
          if_cases IsPublished (not (is_from from env cur)) _ _ (λ _. p)
            (λ _. add_decoded-IsPublished r cur (unmarshal_ice env.raw))

  handle_bye-IsPublished : (env : Envelope) → IsPublished (handle_bye from env w)
  unfolding handle_bye
  handle_bye-IsPublished env =
      at_current_cases IsPublished _ _ w (λ _. p)
        λ r cur _.
          if_cases IsPublished (not (is_from from env cur)) _ _ (λ _. p)
            (λ _. end_session-IsPublished r cur user false w p)

handle_envelope-IsPublished :
    (o : Outside) (m : Received) (w : World)
    → WorldInv w
    → IsPublished w
    → IsPublished (handle_envelope o m w)
unfolding handle_envelope handle_cmd
handle_envelope-IsPublished o m w v p =
    if_cases IsPublished m.is_stale _ _
      (λ _.
        if_cases IsPublished (same m.env.type type_offer) _ _
          (λ _. send_error-IsPublished m.from m.env.sid _ _ true w p) (λ _. p))
      (λ _.
        if_cases IsPublished (same m.env.type type_offer) _ _
          (λ _. handle_offer_message-IsPublished o m.from m.env w v p)
          (λ _.
            if_cases IsPublished (same m.env.type type_ice) _ _
              (λ _. handle_ice-IsPublished m.from w p m.env)
              (λ _.
                if_cases IsPublished (same m.env.type type_bye) _ _
                  (λ _. handle_bye-IsPublished m.from w p m.env)
                  (λ _.
                    if_cases IsPublished (same m.env.type type_cmd) _ _
                      (λ _. answer_cmd-IsPublished m.from w p (unmarshal_cmd m.env.raw))
                      (λ _. p)))))

receive-IsPublished :
    (o : Outside) (m : Option Received) (w : World)
    → WorldInv w
    → IsPublished w
    → IsPublished (receive o m w)
unfolding receive
receive-IsPublished o none w v p = p
receive-IsPublished o (some m) w v p = handle_envelope-IsPublished o m w v p

-- Neither the time nor the connection to the broker is part of what is published.
same_state :
    (now : Time) (connected acl_checked : Bool) (w : World)
    → IsPublished w
    → IsPublished (record w {
      now = now;
      mqtt = record w.mqtt { connected = connected; acl_checked = acl_checked };
    })
unfolding viewer current
same_state now c a w =
    Alike-IsPublished
      (record {
        name = refl;
        mqtt = refl;
        watched = refl;
        online = refl;
        info = refl;
        viewer = refl;
      })
      refl

happen-IsPublished : (e : Event) (w : World) → WorldInv w → IsPublished w → IsPublished (happen e w)
unfolding happen
happen-IsPublished (message topic payload o) w v p =
    receive-IsPublished o (handle_message w.mqtt w.now topic payload) w v p
happen-IsPublished mqtt_up w v p = publish_state-IsPublished _ p.watched
happen-IsPublished mqtt_down w v p = same_state w.now false w.mqtt.acl_checked w p
happen-IsPublished (probe_tick result) w v p =
    at_current_cases IsPublished _ _ w (λ _. probe-IsPublished result w p) (λ _ _ _. p)
happen-IsPublished (local_ice r c) w v p =
    on_ice-IsPublished (queue_ice c) r w (queue_ice-viewer c) p
happen-IsPublished (ice_timer_fires r) w v p = on_ice-IsPublished fire_ice r w fire_ice-viewer p
happen-IsPublished (connect_timer_fires r) w v p =
    at_session_cases IsPublished r _ w p λ s e. end_session-IsPublished r s timeout true w p
happen-IsPublished (disconnect_timer_fires r) w v p = on_proxy-IsPublished (end ice_failed) r w p
happen-IsPublished (connection_state r st) w v p = on_proxy-IsPublished (report st) r w p
happen-IsPublished (stream_opens r) w v p =
    at_session_cases IsPublished r _ w p λ s e. put_at r s _ w e refl p
happen-IsPublished (stream_lost r) w v p = on_proxy-IsPublished (end source_lost) r w p

step-IsPublished :
    (w : World) (e : Time × Event) → WorldInv w → IsPublished w → IsPublished (step w e)
unfolding step
step-IsPublished w (now, e) v p =
    happen-IsPublished e _ v (same_state now w.mqtt.connected w.mqtt.acl_checked w p)

pub run-IsPublished :
    (es : List (Time × Event)) (w : World) → WorldInv w → IsPublished w → IsPublished (run w es)
unfolding run
run-IsPublished [] w v p = p
run-IsPublished (e ∷ es) w v p =
    run-IsPublished es (step w e) (step-Inv w e v) (step-IsPublished w e v p)

pub start-IsPublished :
    (cfg : Config) (now : Time) (probe : Option SourceInfo)
    → IsPublished (start probe (new_agent cfg now))
unfolding start first_probe new_agent happen
start-IsPublished cfg now probe = publish_state-IsPublished _ refl

pub state_published :
    (cfg : Config) (now : Time) (probe : Option SourceInfo) (es : List (Time × Event))
    → let w = run (start probe (new_agent cfg now)) es in
      (ts : ℤ) × (published_last w ≡ some (state_value (present_state ts w)))
state_published cfg now probe es =
    let w = run (start probe (new_agent cfg now)) es in
    let p = run-IsPublished es _ (start-Inv cfg now probe) (start-IsPublished cfg now probe) in
    (p.stamp, p.kept ∙ ap (λ s. some (state_value s)) (state-present_state p.stamp w))
