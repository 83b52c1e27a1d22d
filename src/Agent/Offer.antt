-- ===== src/Agent/Offer.antt =====
-- agent.go: handleOffer. The argument `Outside` is what the rest of the world does while an offer is
-- handled: the result of a probe, the answers of the WebRTC package, and the local candidates that
-- it reports before candidates may be sent.
use o_camera_agent.Common.{
  ℕ, Bool, true, false, not, ◌&&◌, List, [], ◌∷◌, map, Option, none, some, if◌then◌else◌, length,
  ◌++◌,
}
use o_camera_agent.Common.Text.{Bytes, codes, same}
use o_camera_agent.Json.{Value}
use o_camera_agent.Mqtt.{topic_cli}
use o_camera_agent.Protocol.{
  Envelope, OfferData, Want, IceCandidate, ErrorCode, busy, bad_request, source_unavailable,
  unsupported_codec, internal, protocol_version, type_answer, Data, answer_data,
}
use o_camera_agent.Protocol.Clock.{unix}
use o_camera_agent.Protocol.Decode.{unmarshal_offer}
use o_camera_agent.Protocol.Encode.{marshal_data, marshal_envelope}
use o_camera_agent.Protocol.Ident.{sid_pattern}
use o_camera_agent.Source.{probe_now}
use o_camera_agent.Source.Codecs.{SourceInfo}
use o_camera_agent.Webrtc.Proxy.{
  new_web_rtc_proxy, Peer, Release, Reply, answered, refused, close, handle_offer,
}
use o_camera_agent.Agent.Session.{Session, new_session, queue_ice, start_ice}
use o_camera_agent.Agent.World.{
  World, gives_back, emit, at_current, put_session, publish, send_error, send_batch, codecs,
  publish_state, update_source,
}

pub record Outside : Type 0 where
  pub probe : Option SourceInfo
  pub peer : Peer
  pub gathered : List (Option IceCandidate)

-- `envelope` of agent.go
unfoldable pub envelope : Bytes → Bytes → Data → World → Option Value
envelope type sid d w = elim (marshal_data d) [
  | none ↦ none
  | some raw ↦
      marshal_envelope
        (record { v = protocol_version; ts = unix w.now; sid = sid; type = type; raw = some raw })
]

-- The answer once more, if there is one.
unfoldable pub resend : Bytes → Option Value → World → World
resend from none w = w
resend from (some answer) w = publish (topic_cli w.mqtt from) false answer w

-- An offer while a session is active.
unfoldable pub busy_offer : Session → Bytes → Envelope → World → World
unfolding resend
busy_offer cur from env w =
    if same cur.sid env.sid && same cur.viewer from
    then resend from cur.answer w
    else send_error from env.sid busy (codes "a session is already active") true w

-- Whether the viewer wants audio, and the stream that it names.
unfoldable pub wants_audio : Option Want → Bool
wants_audio none = true
wants_audio (some want) = elim want.audio [ none ↦ true | some b ↦ b ]

unfoldable pub wants_stream : Option Want → Bytes
wants_stream none = []
wants_stream (some want) = want.stream

-- The candidates that are reported while the session waits for its answer; nothing is sent.
unfoldable pub gather : List (Option IceCandidate) → Session → Session
gather [] s = s
gather (c ∷ cs) s = gather cs (queue_ice c s).0

unfoldable pub give_back : ℕ → List Release → World → World
unfolding emit
give_back r rs = emit (map (gives_back r) rs)

-- From the stored session to the armed timer.
unfoldable pub open_session : ℕ → Session → Value → World → World
open_session r s payload w =
    let s1 = record s { answer = some payload } in
    let w1 = record (put_session r s1 w) { sess = some r } in
    let w2 = publish_state true (publish (topic_cli w.mqtt s.viewer) false payload w1) in
    let started = start_ice s1 in
    put_session r (record started.0 { connect_timer = true }) (send_batch s1 started.1 w2)

abbrev pub is_internal : ErrorCode → Bool
is_internal internal = true
is_internal _ = false

-- On the reply of `proxy.HandleOffer`; the session is `r`.
unfoldable pub on_reply : ℕ → Session → Reply → World → World
unfolding open_session give_back
on_reply r s (refused e) w = send_error s.viewer s.sid e.code e.msg (is_internal e.code) w
on_reply r s (answered sdp) w = elim (envelope type_answer s.sid (answer_data sdp) w) [
  | some payload ↦ open_session r s payload w
  | none ↦
      let w' =
        give_back r (close s.proxy).1 (put_session r (record s { proxy = (close s.proxy).0 }) w) in
      send_error s.viewer s.sid internal (codes "cannot encode the answer") true w'
]

-- A new session object, which handles the offer.
unfoldable pub start_session : Outside → Bytes → Bytes → OfferData → Bytes → Bytes → World → World
unfolding give_back
start_session o from sid offer video audio w =
    let r = length w.store in
    let proxy = new_web_rtc_proxy w.cfg.device.url video audio w.cfg.ice.stun in
    let outcome =
      handle_offer o.peer offer.sdp (wants_audio offer.want) (record proxy { callbacks = true }) in
    let s = gather o.gathered (new_session sid from outcome.proxy w.now) in
    let w' = give_back r outcome.released (record w { store = w.store ++ s ∷ [] }) in
    on_reply r s outcome.reply w'

-- With the source reachable.
unfoldable pub choose_codecs : Outside → Bytes → Bytes → OfferData → World → World
choose_codecs o from sid offer w =
    let (video, audio) = codecs w in
    if same video []
    then send_error from sid unsupported_codec
        (codes "the camera announces no video codec WebRTC can carry") false w
    else start_session o from sid offer video audio w

-- The probe of a camera that is believed offline.
unfoldable pub check_source : Outside → Bytes → Bytes → OfferData → World → World
check_source o from sid offer w =
    if w.source.online
    then choose_codecs o from sid offer w
    else let w' = update_source (probe_now w.source o.probe) w in
      if w'.source.online
      then choose_codecs o from sid offer w'
      else send_error from sid source_unavailable (codes "camera unreachable") true w'

-- A stream is named, and it is not "main".
unfoldable pub bad_stream : OfferData → Bool
unfolding wants_stream
bad_stream offer =
    let stream = wants_stream offer.want in not (same stream []) && not (same stream (codes "main"))

-- On the data of an offer, `none` if it does not decode.
unfoldable pub offer_decoded : Outside → Bytes → Envelope → Option OfferData → World → World
unfolding bad_stream
offer_decoded o from env none w =
    send_error from env.sid bad_request (codes "invalid offer") false w
offer_decoded o from env (some offer) w =
    if same offer.sdp []
    then send_error from env.sid bad_request (codes "invalid offer") false w
    else if bad_stream offer
    then send_error from env.sid bad_request
        (codes "requested stream does not exist: " ++ wants_stream offer.want) false w
    else check_source o from env.sid offer w

-- An offer while the camera is idle.
unfoldable pub idle_offer : Outside → Bytes → Envelope → World → World
unfolding offer_decoded
idle_offer o from env w = offer_decoded o from env (unmarshal_offer env.raw) w

unfoldable pub handle_offer_message : Outside → Bytes → Envelope → World → World
handle_offer_message o from env w =
    if not (sid_pattern env.sid)
    then send_error from [] bad_request (codes "invalid sid") false w
    else at_current (λ r cur. busy_offer cur from env) (idle_offer o from env) w
