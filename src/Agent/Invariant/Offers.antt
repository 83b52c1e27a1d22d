-- ===== src/Agent/Invariant/Offers.antt =====
-- An offer keeps the invariant of the sessions.
use o_camera_agent.Common.{
  ℕ, ◌≡◌, refl, ◌∙◌, inr, Bool, true, false, not, List, [], ◌∷◌, ◌++◌, Option, none, some, arith,
  set, set_twice, length, if_cases, ◌&&◌,
}
use o_camera_agent.Common.Text.{Bytes, same}
use o_camera_agent.Json.{Value}
use o_camera_agent.Protocol.{OfferData, Envelope}
use o_camera_agent.Protocol.Clock.{Time}
use o_camera_agent.Protocol.Decode.{unmarshal_offer}
use o_camera_agent.Protocol.Ident.{sid_pattern}
use o_camera_agent.Source.{probe_now}
use o_camera_agent.Webrtc.Proxy.{
  WebRtcProxy, Peer, Reply, answered, refused, Outcome, new_web_rtc_proxy, handle_offer,
}
use o_camera_agent.Webrtc.Resources.{IsNew, Settles, handle_offer-Settles}
use o_camera_agent.Agent.Session.{Session, new_session, start_ice}
use o_camera_agent.Agent.World.{
  World, emit, put_session, publish, send, send_batch, publish_state, update_source, codecs,
  at_current_cases,
}
use o_camera_agent.Agent.Offer.{
  wants_audio, is_internal, resend, offer_decoded, bad_stream, Outside, busy_offer, gather,
  open_session, on_reply, start_session, choose_codecs, check_source, idle_offer,
  handle_offer_message, envelope, give_back,
}
use o_camera_agent.Agent.Frames.{gather_lem, send_error_frame, update_source_frame, publish_frame}
use o_camera_agent.Agent.Invariant.{
  Inv, IsOpen, append-Inv, open-Inv, WorldInv, keep, keep_log, idle-sess,
}

unready :
    (sid viewer : Bytes) (p : WebRtcProxy) (now : Time)
    → let s = new_session sid viewer p now in
      (s.ice_ready ≡ false) × (s.ice_stopped ≡ false) × (s.proxy ≡ p)
unfolding new_session
unready sid viewer p now = (refl, refl, refl)

-- A proxy that answered.
record IsUp (p : WebRtcProxy) : Type 0 where
  has_pc : p.pc ≡ true
  not_closed : p.closed ≡ false
  not_done : p.done ≡ false
  called_back : p.callbacks ≡ true

abbrev opened : Session → Value → Session
opened s payload = record (start_ice (record s { answer = some payload })).0 {
  connect_timer = true;
}

opened-IsOpen :
    (s : Session) (payload : Value)
    → IsUp s.proxy
    → s.ice_stopped ≡ false
    → IsOpen (opened s payload)
unfolding start_ice
opened-IsOpen s payload u g = ground arith

open_session_lem :
    (r : ℕ) (s : Session) (payload : Value) (w : World)
    → let w' = open_session r s payload w in
      (w'.sess ≡ some r) × (w'.store ≡ set w.store r (opened s payload))
unfolding open_session put_session publish_state publish send_batch send emit start_ice
open_session_lem r s payload w =
    ground (arith, set_twice w.store r (record s { answer = some payload }) (opened s payload))

-- What the reply says of the proxy of the new session.
abbrev Fits : Reply → WebRtcProxy → Type 0
Fits (answered sdp) p = IsUp p
Fits (refused e) p = (p.pc ≡ false) × (p.rtsp_client ≡ false) × (p.started ≡ false)

module _ (store : List Session) (s : Session) (w : World) (v : Inv none store)
    (idle : w.sess ≡ none) (stored : w.store ≡ store ++ s ∷ []) where
  open_session-Inv :
      (payload : Value)
      → IsUp s.proxy
      → s.ice_stopped ≡ false
      → WorldInv (open_session (length store) s payload w)
  open_session-Inv payload up g =
      let (active, written) = open_session_lem (length store) s payload w in
      rw (active, written, stored)
        (open-Inv store s (opened s payload) v (opened-IsOpen s payload up g))

  on_reply-Inv :
      (reply : Reply)
      → s.ice_ready ≡ false
      → s.ice_stopped ≡ false
      → Fits reply s.proxy
      → WorldInv (on_reply (length store) s reply w)
  unfolding on_reply envelope
  on_reply-Inv (refused e) r g fit =
      keep_log (send_error_frame s.viewer s.sid e.code e.msg (is_internal e.code) w) (
        rw (idle, stored)
          (append-Inv store s v
            (record { no_pc = fit.0; no_client = fit.1; silent = inr r; ended = inr fit.2 })))
  on_reply-Inv (answered sdp) r g fit = open_session-Inv _ fit g

-- The proxy that a session is made with.
abbrev proxy_of : Outside → Bytes → Bytes → World → WebRtcProxy
proxy_of o video audio w = record (new_web_rtc_proxy w.cfg.device.url video audio w.cfg.ice.stun) {
  callbacks = true;
}

proxy_of-IsNew : (o : Outside) (video audio : Bytes) (w : World) → IsNew (proxy_of o video audio w)
unfolding new_web_rtc_proxy
proxy_of-IsNew o video audio w = ground arith

abbrev outcome_of : Outside → OfferData → Bytes → Bytes → World → Outcome
outcome_of o offer video audio w =
    handle_offer o.peer offer.sdp (wants_audio offer.want) (proxy_of o video audio w)

settled-Fits :
    (o : Peer) (met : Bool) (p : WebRtcProxy) (r : Outcome) (reply : Reply)
    → p.callbacks ≡ true
    → Settles o met p r reply
    → Fits reply r.proxy
settled-Fits o met p r (answered sdp) c h = ground arith
settled-Fits o met p r (refused e) c h = (h.0, h.1, h.2)

outcome-Fits :
    (o : Outside) (offer : OfferData) (video audio : Bytes) (w : World)
    → let r = outcome_of o offer video audio w in Fits r.reply r.proxy
outcome-Fits o offer video audio w =
    settled-Fits o.peer _ (proxy_of o video audio w) (outcome_of o offer video audio w) _ refl (
      handle_offer-Settles o.peer offer.sdp (wants_audio offer.want) (proxy_of o video audio w)
        (proxy_of-IsNew o video audio w))

start_session-Inv :
    (o : Outside) (from sid : Bytes) (offer : OfferData) (video audio : Bytes) (w : World)
    → w.sess ≡ none
    → WorldInv w
    → WorldInv (start_session o from sid offer video audio w)
unfolding start_session give_back emit
start_session-Inv o from sid offer video audio w idle v =
    let outcome = outcome_of o offer video audio w in
    let fresh = new_session sid from outcome.proxy w.now in
    let g =
      gather_lem o.gathered fresh (unready sid from outcome.proxy w.now).0
        (unready sid from outcome.proxy w.now).1 in
    on_reply-Inv w.store (gather o.gathered fresh) _ (rw idle at v) idle refl outcome.reply
      g.unready g.going
      (rw g.proxy
        (rw (unready sid from outcome.proxy w.now).2 (outcome-Fits o offer video audio w)))

module _ (o : Outside) (from : Bytes) where
  choose_codecs-Inv :
      (sid : Bytes) (offer : OfferData) (w : World)
      → w.sess ≡ none
      → WorldInv w
      → WorldInv (choose_codecs o from sid offer w)
  unfolding choose_codecs
  choose_codecs-Inv sid offer w idle v =
      if_cases WorldInv (same (codecs w).0 []) _ _
        (λ e. keep_log (send_error_frame from sid _ _ false w) v)
        (λ e. start_session-Inv o from sid offer _ _ w idle v)

  check_source-Inv :
      (sid : Bytes) (offer : OfferData) (w : World)
      → w.sess ≡ none
      → WorldInv w
      → WorldInv (check_source o from sid offer w)
  unfolding check_source
  check_source-Inv sid offer w idle v =
      let w' = update_source (probe_now w.source o.probe) w in
      let frame = update_source_frame (probe_now w.source o.probe) w in
      if_cases WorldInv w.source.online _ _ (λ e. choose_codecs-Inv sid offer w idle v)
        (λ e.
          if_cases WorldInv w'.source.online _ _
            (λ f. choose_codecs-Inv sid offer w' (frame.sess ∙ idle) (keep frame v))
            (λ f. keep_log (send_error_frame from sid _ _ true w') (keep frame v)))

  idle_offer-Inv :
      (env : Envelope) (w : World) → w.sess ≡ none → WorldInv w → WorldInv (idle_offer o from env w)
  unfolding idle_offer
  idle_offer-Inv env w idle v = on_decoded (unmarshal_offer env.raw)
    where
      on_decoded : (d : Option OfferData) → WorldInv (offer_decoded o from env d w)
      on_decoded none = keep_log (send_error_frame from env.sid _ _ false w) v
      on_decoded (some offer) =
          if_cases WorldInv (same offer.sdp []) _ _
            (λ e. keep_log (send_error_frame from env.sid _ _ false w) v)
            (λ e.
              if_cases WorldInv (bad_stream offer) _ _
                (λ f. keep_log (send_error_frame from env.sid _ _ false w) v)
                (λ f. check_source-Inv env.sid offer w idle v))

  busy_offer-Inv :
      (cur : Session) (env : Envelope) (w : World)
      → WorldInv w
      → WorldInv (busy_offer cur from env w)
  unfolding busy_offer
  busy_offer-Inv cur env w v =
      if_cases WorldInv (same cur.sid env.sid && same cur.viewer from) _ _
        (λ e. by_answer cur.answer) (λ e. keep_log (send_error_frame from env.sid _ _ true w) v)
    where
      by_answer : (a : Option Value) → WorldInv (resend from a w)
      by_answer none = v
      by_answer (some p) = keep_log (publish_frame _ false p w) v

  pub handle_offer_message-Inv :
      (env : Envelope) (w : World) → WorldInv w → WorldInv (handle_offer_message o from env w)
  unfolding handle_offer_message
  handle_offer_message-Inv env w v =
      if_cases WorldInv (not (sid_pattern env.sid)) _ _
        (λ e. keep_log (send_error_frame from [] _ _ false w) v)
        (λ e.
          at_current_cases WorldInv _ _ w (λ i. idle_offer-Inv env w (idle-sess w v i) v)
            (λ r cur a. busy_offer-Inv cur env w v))
