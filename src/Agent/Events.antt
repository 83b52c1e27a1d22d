-- ===== src/Agent/Events.antt =====
-- agent.go: the handlers of the other messages, the end of a session, and everything that can happen
-- to the agent as one step. Handlers run one after the other.
use o_camera_agent.Common.{
  ℕ, Bool, true, false, not, ◌&&◌, ◌||◌, List, [], ◌∷◌, ◌++◌, map, Option, none, some,
  if◌then◌else◌,
}
use o_camera_agent.Common.Text.{Bytes, codes, same}
use o_camera_agent.Json.{Value}
use o_camera_agent.Mqtt.{Received, handle_message}
use o_camera_agent.Protocol.{
  Envelope, IceCandidate, IceData, CmdData, ByeReason, user, timeout, ice_failed, source_lost,
  shutdown, stale, unsupported, type_offer, type_ice, type_bye, type_cmd, type_res, bye_data,
  res_data,
}
use o_camera_agent.Protocol.Clock.{Time}
use o_camera_agent.Protocol.Decode.{unmarshal_ice, unmarshal_cmd}
use o_camera_agent.Source.{probe_now, mark_down, stop}
use o_camera_agent.Source.Codecs.{SourceInfo}
use o_camera_agent.Webrtc.Proxy.{WebRtcProxy}
use o_camera_agent.Webrtc.Connection.{
  PeerState, Signal, starts_stream, connects, ends, releases, Handled, handle_connection_state, end,
  open_stream,
}
use o_camera_agent.Agent.Session.{
  Session, queue_ice, flush_ice, stop_connect_timer, shut, shut_releases,
}
use o_camera_agent.Agent.Offer.{Outside, handle_offer_message}
use o_camera_agent.Agent.World.{
  World, Effect, adds_candidate, gives_back, emit, at_current, at_session, points, put_session,
  send, send_error, send_batch, publish_state, update_source,
}

-- `cur.sid != env.SID || cur.viewer != from` is false.
unfoldable pub is_from : Bytes → Envelope → Session → Bool
is_from from env s = same s.sid env.sid && same s.viewer from

abbrev pub is_source_lost : ByeReason → Bool
is_source_lost source_lost = true
is_source_lost _ = false

-- endSession of the session `r`, with value `s`.
unfoldable pub end_session : ℕ → Session → ByeReason → Bool → World → World
end_session r s reason send_bye w =
    if not (points w.sess r)
    then w
    else let w1 = put_session r (shut (stop_connect_timer s)) (record w { sess = none }) in
      let w2 = emit (map (gives_back r) (shut_releases s)) w1 in
      let w3 = if is_source_lost reason then update_source (mark_down w2.source) w2 else w2 in
      let w4 = if send_bye then send s.viewer type_bye s.sid (bye_data reason) w3 else w3 in
      publish_state true w4

-- The candidates of a message that are handed to the peer connection: the loop of handleICE.
unfoldable pub add_candidates : ℕ → WebRtcProxy → List IceCandidate → List Effect
add_candidates r p [] = []
add_candidates r p (c ∷ cs) =
    let rest = add_candidates r p cs in
    if same c.candidate [] || not p.pc then rest else adds_candidate r c ∷ rest

-- On the data of the message, `none` if it does not decode.
unfoldable pub add_decoded : ℕ → Session → Option IceData → World → World
add_decoded r cur none w = w
add_decoded r cur (some d) w = emit (add_candidates r cur.proxy d.candidates) w

unfoldable pub handle_ice : Bytes → Envelope → World → World
unfolding add_decoded
handle_ice from env =
    at_current
      (λ r cur w.
        if not (is_from from env cur) then w else add_decoded r cur (unmarshal_ice env.raw) w)
      (λ w. w)

unfoldable pub handle_bye : Bytes → Envelope → World → World
handle_bye from env =
    at_current (λ r cur w. if not (is_from from env cur) then w else end_session r cur user false w)
      (λ w. w)

unfoldable pub answer_cmd : Bytes → Option CmdData → World → World
answer_cmd from none w = w
answer_cmd from (some d) w =
    if same d.id []
    then w
    else send from type_res []
        (res_data d.id false unsupported (codes "unsupported command: " ++ d.name)) w

unfoldable pub handle_cmd : Bytes → Envelope → World → World
unfolding answer_cmd
handle_cmd from env = answer_cmd from (unmarshal_cmd env.raw)

-- handleEnvelope
unfoldable pub handle_envelope : Outside → Received → World → World
handle_envelope o m w =
    if m.is_stale
    then (if same m.env.type type_offer
        then send_error m.from m.env.sid stale (codes "clock out of sync (ts outside tolerance)")
            true w
        else w)
    else if same m.env.type type_offer
    then handle_offer_message o m.from m.env w
    else if same m.env.type type_ice
    then handle_ice m.from m.env w
    else if same m.env.type type_bye
    then handle_bye m.from m.env w
    else if same m.env.type type_cmd
    then handle_cmd m.from m.env w
    else w

-- What a method of the proxy of session `r` makes the agent do; `go StartRTSPStream` is later events.
unfoldable pub on_signal : ℕ → Signal → World → World
on_signal r starts_stream w = w
on_signal r connects w = at_session r (λ s w. put_session r (stop_connect_timer s) w) w
on_signal r (ends reason) w = at_session r (λ s w. end_session r s reason true w) w
on_signal r (releases rs) w = emit (map (gives_back r) rs) w

unfoldable pub on_signals : ℕ → List Signal → World → World
on_signals r [] w = w
on_signals r (x ∷ xs) w = on_signals r xs (on_signal r x w)

unfoldable pub on_proxy : (WebRtcProxy → Handled) → ℕ → World → World
on_proxy f r = at_session r λ s w.
    on_signals r (f s.proxy).signals (put_session r (record s { proxy = (f s.proxy).proxy }) w)

unfoldable pub on_ice : (Session → Session × Option IceData) → ℕ → World → World
on_ice f r = at_session r λ s w. send_batch s (f s).1 (put_session r (f s).0 w)

-- The part of Shutdown that ends the active session.
unfoldable pub end_active : World → World
end_active =
    at_current
      (λ r s w.
        let w1 = put_session r (shut s) (record w { sess = none }) in
        let w2 = emit (map (gives_back r) (shut_releases s)) w1 in
        send s.viewer type_bye s.sid (bye_data shutdown) w2)
      (λ w. w)

-- MqttClient.Close
unfoldable pub close_mqtt : World → World
close_mqtt w =
    let w' = if w.mqtt.connected then publish_state false w else w in
    record w' { mqtt = record w'.mqtt { connected = false } }

-- Shutdown
unfoldable pub shut_down : World → World
unfolding end_active close_mqtt
shut_down w = close_mqtt (end_active (record w { source = stop w.source }))

pub data Event : Type 0 where
  -- a message of the broker: its topic, its document, and what happens while it is handled
  message : Bytes → Option Value → Outside → Event
  -- onConnect, and a lost connection
  mqtt_up mqtt_down : Event
  -- a tick of the source monitor, with what a probe would return
  probe_tick : Option SourceInfo → Event
  -- of the session with this index: a local candidate, the timers, the peer connection's state, the
  -- client of an attempt to open the stream, and the end of all attempts
  local_ice : ℕ → Option IceCandidate → Event
  ice_timer_fires connect_timer_fires disconnect_timer_fires : ℕ → Event
  connection_state : ℕ → PeerState → Event
  stream_opens stream_lost : ℕ → Event

-- A peer connection that was never created reports nothing.
unfoldable pub report : PeerState → WebRtcProxy → Handled
report s p =
    if p.pc || p.closed then handle_connection_state s p else record { proxy = p; signals = [] }

-- StartRTSPStream runs only once it was started.
unfoldable pub open_started : WebRtcProxy → WebRtcProxy
open_started p = if p.started then open_stream p else p

-- The timer of the candidates is armed only when they may be sent. One that fires after it was
-- stopped had fired already.
unfoldable pub fire_ice : Session → Session × Option IceData
unfolding flush_ice
fire_ice s = if s.ice_ready then flush_ice s else (s, none)

-- The callback of the MQTT client, for a message that it does not ignore.
unfoldable pub receive : Outside → Option Received → World → World
receive o none w = w
receive o (some m) w = handle_envelope o m w

unfoldable pub happen : Event → World → World
unfolding receive
happen (message topic payload o) w = receive o (handle_message w.mqtt w.now topic payload) w
happen mqtt_up w =
    publish_state true (record w { mqtt = record w.mqtt { connected = true; acl_checked = true } })
happen mqtt_down w = record w { mqtt = record w.mqtt { connected = false } }
happen (probe_tick result) w =
    at_current (λ r s w. w) (λ w. update_source (probe_now w.source result) w) w
happen (local_ice r c) w = on_ice (queue_ice c) r w
happen (ice_timer_fires r) w = on_ice fire_ice r w
happen (connect_timer_fires r) w = at_session r (λ s w. end_session r s timeout true w) w
happen (disconnect_timer_fires r) w = on_proxy (end ice_failed) r w
happen (connection_state r s) w = on_proxy (report s) r w
happen (stream_opens r) w =
    at_session r (λ s w. put_session r (record s { proxy = open_started s.proxy }) w) w
happen (stream_lost r) w = on_proxy (end source_lost) r w

-- An event and the time at which it happens.
unfoldable pub step : World → Time × Event → World
step w (now, e) = happen e (record w { now = now })

unfoldable pub run : World → List (Time × Event) → World
run w [] = w
run w (e ∷ es) = run (step w e) es
