-- ===== src/Agent/Replies/Offers.antt =====
-- Every offer is answered.
use o_camera_agent.Common.{
  ℕ, ◌≡◌, refl, sym, ap, ◌∙◌, subst, true, false, not, ◌&&◌, if_cases, [], ◌∷◌, ◌++◌, Option, none,
  some, length,
}
use o_camera_agent.Common.Text.{Bytes, codes, same}
use o_camera_agent.Json.{Value}
use o_camera_agent.Mqtt.{topic_cli}
use o_camera_agent.Protocol.{Envelope, OfferData, answer_data, source_unavailable, type_answer}
use o_camera_agent.Protocol.Decode.{unmarshal_offer}
use o_camera_agent.Protocol.Ident.{sid_pattern}
use o_camera_agent.Protocol.Encode.{envelope_value}
use o_camera_agent.Source.{probe_now}
use o_camera_agent.Webrtc.Proxy.{new_web_rtc_proxy, handle_offer, Reply, answered, refused}
use o_camera_agent.Agent.Session.{Session, start_ice, new_session}
use o_camera_agent.Agent.World.{
  World, publish, send_error, send_batch, current, at_current_cases, put_session, publish_state,
  update_source, codecs,
}
use o_camera_agent.Agent.Frames.{gather_lem}
use o_camera_agent.Agent.Offer.{
  Outside, envelope, wants_audio, resend, busy_offer, give_back, gather, open_session, on_reply,
  start_session, choose_codecs, check_source, offer_decoded, bad_stream, idle_offer,
  handle_offer_message,
}
use o_camera_agent.Agent.Replies.{
  is_reply, message, is_reply-envelope, final_answer, Replies, Replies-then, publish-Replies,
  send_error-Replies, send_batch-Replies, publish_state-Replies, update_source-Replies,
  give_back-Replies,
}

-- An answer that a session holds is a reply.
abbrev pub HoldsReply : Option Value → Type 0
HoldsReply none = ⊥
HoldsReply (some p) = is_reply p ≡ true

module _ (topic : Bytes) where
  open_session-Replies :
      (r : ℕ) (s : Session) (payload : Value) (w : World)
      → topic_cli w.mqtt s.viewer ≡ topic
      → is_reply payload ≡ true
      → Replies topic 1 w (open_session r s payload w)
  unfolding open_session put_session
  open_session-Replies r s payload w e h =
      let s1 = record s { answer = some payload } in
      let w1 = record (put_session r s1 w) { sess = some r } in
      let w2 = publish topic false payload w1 in
      let w3 = publish_state true w2 in
      let answer = publish-Replies topic payload w1 h in
      let published = publish_state-Replies topic true w2 in
      let batch = send_batch-Replies topic s1 (start_ice s1).1 w3 in
      let both = Replies-then topic 0 0 w2 w3 (send_batch s1 (start_ice s1).1 w3) published batch in
      subst
        (λ t.
          Replies topic 1 w
            (send_batch s1 (start_ice s1).1 (publish_state true (publish t false payload w1))))
        (sym e) (Replies-then topic 1 0 w w2 (send_batch s1 (start_ice s1).1 w3) answer both)

  on_reply-Replies :
      (r : ℕ) (s : Session) (reply : Reply) (w : World)
      → topic_cli w.mqtt s.viewer ≡ topic
      → Replies topic 1 w (on_reply r s reply w)
  unfolding on_reply envelope
  on_reply-Replies r s (refused e) w h = send_error-Replies topic s.viewer s.sid _ _ _ w h
  on_reply-Replies r s (answered sdp) w h =
      let env = message type_answer s.sid (answer_data sdp) w in
      open_session-Replies r s (envelope_value env) w h (is_reply-envelope env ∙ final_answer)

  module _ (o : Outside) (from : Bytes) where
    start_session-Replies :
        (sid video audio : Bytes) (offer : OfferData) (w : World)
        → topic_cli w.mqtt from ≡ topic
        → Replies topic 1 w (start_session o from sid offer video audio w)
    unfolding start_session new_session
    start_session-Replies sid video audio offer w e =
        let r = length w.store in
        let proxy = new_web_rtc_proxy w.cfg.device.url video audio w.cfg.ice.stun in
        let outcome =
          handle_offer o.peer offer.sdp (wants_audio offer.want)
            (record proxy { callbacks = true }) in
        let fresh = new_session sid from outcome.proxy w.now in
        let s = gather o.gathered fresh in
        let w1 = record w { store = w.store ++ s ∷ [] } in
        let w2 = give_back r outcome.released w1 in
        let given = give_back-Replies topic r outcome.released w1 in
        let to =
          ap (topic_cli w2.mqtt) (gather_lem o.gathered fresh refl refl).viewer
          ∙ ap (λ m. topic_cli m from) given.1
          ∙ e in
        Replies-then topic 0 1 w w2 (on_reply r s outcome.reply w2) given
          (on_reply-Replies r s outcome.reply w2 to)

    choose_codecs-Replies :
        (sid : Bytes) (offer : OfferData) (w : World)
        → topic_cli w.mqtt from ≡ topic
        → Replies topic 1 w (choose_codecs o from sid offer w)
    unfolding choose_codecs
    choose_codecs-Replies sid offer w e =
        if_cases (Replies topic 1 w) (same (codecs w).0 []) _ _
          (λ _. send_error-Replies topic from sid _ _ _ w e)
          (λ _. start_session-Replies sid (codecs w).0 (codecs w).1 offer w e)

    check_source-Replies :
        (sid : Bytes) (offer : OfferData) (w : World)
        → topic_cli w.mqtt from ≡ topic
        → Replies topic 1 w (check_source o from sid offer w)
    unfolding check_source
    check_source-Replies sid offer w e =
        let w' = update_source (probe_now w.source o.probe) w in
        let probed = update_source-Replies topic (probe_now w.source o.probe) w in
        let e' = ap (λ m. topic_cli m from) probed.1 ∙ e in
        if_cases (Replies topic 1 w) w.source.online _ _ (λ _. choose_codecs-Replies sid offer w e)
          (λ _.
            if_cases (Replies topic 1 w) w'.source.online _ _
              (λ _.
                Replies-then topic 0 1 w w' (choose_codecs o from sid offer w') probed
                  (choose_codecs-Replies sid offer w' e'))
              (λ _.
                Replies-then topic 0 1 w w'
                  (send_error from sid source_unavailable (codes "camera unreachable") true w')
                  probed (send_error-Replies topic from sid _ _ _ w' e')))

    offer_decoded-Replies :
        (env : Envelope) (offer : Option OfferData) (w : World)
        → topic_cli w.mqtt from ≡ topic
        → Replies topic 1 w (offer_decoded o from env offer w)
    unfolding offer_decoded
    offer_decoded-Replies env none w e = send_error-Replies topic from env.sid _ _ _ w e
    offer_decoded-Replies env (some offer) w e =
        if_cases (Replies topic 1 w) (same offer.sdp []) _ _
          (λ _. send_error-Replies topic from env.sid _ _ _ w e)
          (λ _.
            if_cases (Replies topic 1 w) (bad_stream offer) _ _
              (λ _. send_error-Replies topic from env.sid _ _ _ w e)
              (λ _. check_source-Replies env.sid offer w e))

    resend-Replies :
        (answer : Option Value) (w : World)
        → topic_cli w.mqtt from ≡ topic
        → HoldsReply answer
        → Replies topic 1 w (resend from answer w)
    unfolding resend
    resend-Replies none w e h = elim h [ ]
    resend-Replies (some p) w e h =
        subst (λ t. Replies topic 1 w (publish t false p w)) (sym e) (publish-Replies topic p w h)

    busy_offer-Replies :
        (cur : Session) (env : Envelope) (w : World)
        → topic_cli w.mqtt from ≡ topic
        → HoldsReply cur.answer
        → Replies topic 1 w (busy_offer cur from env w)
    unfolding busy_offer
    busy_offer-Replies cur env w e h =
        if_cases (Replies topic 1 w) (same cur.sid env.sid && same cur.viewer from) _ _
          (λ _. resend-Replies cur.answer w e h)
          (λ _. send_error-Replies topic from env.sid _ _ _ w e)

-- An offer from a viewer gets exactly one reply, an answer or an error, on the topic of that viewer,
-- whatever the offer holds and whatever the camera and the WebRTC package do, if the active session,
-- when there is one, holds the answer that it once sent.
pub handle_offer_message-Replies :
    (o : Outside) (from : Bytes) (env : Envelope) (w : World)
    → ((r : ℕ) (s : Session) → current w ≡ some (r, s) → HoldsReply s.answer)
    → Replies (topic_cli w.mqtt from) 1 w (handle_offer_message o from env w)
unfolding handle_offer_message idle_offer
handle_offer_message-Replies o from env w holds =
    let topic = topic_cli w.mqtt from in
    if_cases (Replies topic 1 w) (not (sid_pattern env.sid)) _ _
      (λ _. send_error-Replies topic from [] _ _ _ w refl)
      (λ _.
        at_current_cases (Replies topic 1 w) (λ r cur. busy_offer cur from env)
          (idle_offer o from env) w
          (λ idle. offer_decoded-Replies topic o from env (unmarshal_offer env.raw) w refl)
          (λ r s found. busy_offer-Replies topic o from s env w refl (holds r s found)))
