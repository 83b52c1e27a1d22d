-- ===== src/Agent/Invariant/Run.antt =====
-- The invariant of the sessions holds after any events.
use o_camera_agent.Common.{
  ℕ, ◌≡◌, Bool, true, false, not, ◌&&◌, ◌||◌, List, [], ◌∷◌, Option, none, some, arith, if_cases,
  get_elem?,
}
use o_camera_agent.Common.Text.{Bytes, same}
use o_camera_agent.Mqtt.{Received, handle_message}
use o_camera_agent.Protocol.{
  Envelope, IceData, CmdData, user, timeout, ice_failed, source_lost, type_offer, type_ice,
  type_bye, type_cmd,
}
use o_camera_agent.Protocol.Clock.{Time}
use o_camera_agent.Protocol.Decode.{unmarshal_ice, unmarshal_cmd}
use o_camera_agent.Source.{probe_now}
use o_camera_agent.Webrtc.Connection.{end}
use o_camera_agent.Agent.Session.{Session, queue_ice}
use o_camera_agent.Agent.World.{
  World, points, is_some, at_session_cases, at_current_cases, current-eq_some,
}
use o_camera_agent.Agent.Offer.{Outside}
use o_camera_agent.Agent.Start.{new_agent, first_probe, start}
use o_camera_agent.Config.{Config}
use o_camera_agent.Source.Codecs.{SourceInfo}
use o_camera_agent.Agent.Events.{
  Event, message, mqtt_up, mqtt_down, probe_tick, local_ice, ice_timer_fires, connect_timer_fires,
  disconnect_timer_fires, connection_state, stream_opens, stream_lost, happen, step, run,
  handle_ice, handle_bye, handle_cmd, handle_envelope, add_decoded, answer_cmd, receive, is_from,
  add_candidates, report, fire_ice,
}
use o_camera_agent.Agent.Frames.{
  emit_frame, send_frame, send_error_frame, publish_state_frame, update_source_frame,
}
use o_camera_agent.Agent.Invariant.{Status, WorldInv, keep, keep_log}
use o_camera_agent.Agent.Invariant.Offers.{handle_offer_message-Inv}
use o_camera_agent.Agent.Invariant.Steps.{
  end_session-Inv, put_world, on_proxy-Inv, on_ice-Inv, end-Status, report-Status,
  open_started-Status, queue_ice-Status, fire-Status,
}

module _ (from : Bytes) (env : Envelope) (w : World) (v : WorldInv w) where
  handle_ice-Inv : WorldInv (handle_ice from env w)
  unfolding handle_ice
  handle_ice-Inv =
      at_current_cases WorldInv _ _ w (λ _. v)
        λ r cur a.
          if_cases WorldInv (not (is_from from env cur)) _ _ (λ _. v)
            (λ _. decoded r cur (unmarshal_ice env.raw))
    where
      decoded : (r : ℕ) (cur : Session) (d : Option IceData) → WorldInv (add_decoded r cur d w)
      decoded r cur none = v
      decoded r cur (some d) = keep_log (emit_frame (add_candidates r cur.proxy d.candidates) w) v

  handle_bye-Inv : WorldInv (handle_bye from env w)
  unfolding handle_bye
  handle_bye-Inv =
      at_current_cases WorldInv _ _ w (λ _. v)
        λ r cur a.
          if_cases WorldInv (not (is_from from env cur)) _ _ (λ _. v)
            (λ _. end_session-Inv r cur user false w (current-eq_some w r cur a).1 v)

  handle_cmd-Inv : WorldInv (handle_cmd from env w)
  unfolding handle_cmd
  handle_cmd-Inv = decoded (unmarshal_cmd env.raw)
    where
      decoded : (d : Option CmdData) → WorldInv (answer_cmd from d w)
      decoded none = v
      decoded (some d) =
          if_cases WorldInv (same d.id []) _ _ (λ _. v) (λ _. keep_log (send_frame from _ _ _ w) v)

handle_envelope-Inv :
    (o : Outside) (m : Received) (w : World) → WorldInv w → WorldInv (handle_envelope o m w)
unfolding handle_envelope
handle_envelope-Inv o m w v =
    if_cases WorldInv m.is_stale _ _
      (λ _.
        if_cases WorldInv (same m.env.type type_offer) _ _
          (λ _. keep_log (send_error_frame m.from m.env.sid _ _ true w) v) (λ _. v))
      (λ _.
        if_cases WorldInv (same m.env.type type_offer) _ _
          (λ _. handle_offer_message-Inv o m.from m.env w v)
          (λ _.
            if_cases WorldInv (same m.env.type type_ice) _ _ (λ _. handle_ice-Inv m.from m.env w v)
              (λ _.
                if_cases WorldInv (same m.env.type type_bye) _ _
                  (λ _. handle_bye-Inv m.from m.env w v)
                  (λ _.
                    if_cases WorldInv (same m.env.type type_cmd) _ _
                      (λ _. handle_cmd-Inv m.from m.env w v) (λ _. v)))))

happen-Inv : (e : Event) (w : World) → WorldInv w → WorldInv (happen e w)
unfolding happen
happen-Inv (message topic payload o) w v = on_received (handle_message w.mqtt w.now topic payload)
  where
    on_received : (m : Option Received) → WorldInv (receive o m w)
    on_received none = v
    on_received (some m) = handle_envelope-Inv o m w v
happen-Inv mqtt_up w v = keep_log (publish_state_frame true _) v
happen-Inv mqtt_down w v = v
happen-Inv (probe_tick result) w v =
    at_current_cases WorldInv _ _ w
      (λ _. keep (update_source_frame (probe_now w.source result) w) v) (λ _ _ _. v)
happen-Inv (local_ice r c) w v = on_ice-Inv (queue_ice c) r w (queue_ice-Status c) v
happen-Inv (ice_timer_fires r) w v = on_ice-Inv fire_ice r w fire-Status v
happen-Inv (connect_timer_fires r) w v =
    at_session_cases WorldInv r _ w v λ s e. end_session-Inv r s timeout true w e v
happen-Inv (disconnect_timer_fires r) w v =
    on_proxy-Inv (end ice_failed) r w (end-Status ice_failed) v
happen-Inv (connection_state r p) w v = on_proxy-Inv (report p) r w (report-Status p) v
happen-Inv (stream_opens r) w v =
    at_session_cases WorldInv r _ w v λ s e. put_world r s _ w e (λ b. open_started-Status b s) v
happen-Inv (stream_lost r) w v = on_proxy-Inv (end source_lost) r w (end-Status source_lost) v

pub step-Inv : (w : World) (e : Time × Event) → WorldInv w → WorldInv (step w e)
unfolding step
step-Inv w (now, e) v = happen-Inv e _ v

pub run-Inv : (w : World) (es : List (Time × Event)) → WorldInv w → WorldInv (run w es)
unfolding run
run-Inv w [] v = v
run-Inv w (e ∷ es) v = run-Inv (step w e) es (step-Inv w e v)

new_agent-Inv : (cfg : Config) (now : Time) → WorldInv (new_agent cfg now)
unfolding new_agent
new_agent-Inv cfg now = record { each = λ r s e. cc; bound = λ r e. cc }

first_probe-Inv :
    (probe : Option SourceInfo) (w : World) → WorldInv w → WorldInv (first_probe probe w)
unfolding first_probe
first_probe-Inv probe w v = keep {w = w} (update_source_frame (probe_now w.source probe) w) v

pub start-Inv :
    (cfg : Config) (now : Time) (probe : Option SourceInfo)
    → WorldInv (start probe (new_agent cfg now))
unfolding start
start-Inv cfg now probe =
    let w = new_agent cfg now in
    happen-Inv mqtt_up (first_probe probe w) (first_probe-Inv probe w (new_agent-Inv cfg now))

-- After any events from the start of the agent: of all the sessions that ever were, exactly the active
-- one holds a peer connection, and exactly the active one can send candidates; an RTSP client is held
-- by no other; and the active one has an answer to repeat.
pub one_connection :
    (cfg : Config) (now : Time) (probe : Option SourceInfo) (es : List (Time × Event)) (r : ℕ)
    (s : Session)
    → let w = run (start probe (new_agent cfg now)) es in
      get_elem? w.store r ≡ some s
      → (s.proxy.pc ≡ points w.sess r)
        × ((s.ice_ready && not s.ice_stopped) ≡ points w.sess r)
        × ((points w.sess r || not s.proxy.rtsp_client) ≡ true)
        × ((not (points w.sess r) || is_some s.answer) ≡ true)
one_connection cfg now probe es r s e =
    by_status _ ((run-Inv _ es (start-Inv cfg now probe)).each r s e)
  where
    by_status :
        (b : Bool)
        → Status b s
        → (s.proxy.pc ≡ b)
          × ((s.ice_ready && not s.ice_stopped) ≡ b)
          × ((b || not s.proxy.rtsp_client) ≡ true)
          × ((not b || is_some s.answer) ≡ true)
    by_status true h = ground (arith, h)
    by_status false h = ground (arith, h)
