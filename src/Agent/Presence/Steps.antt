-- ===== src/Agent/Presence/Steps.antt =====
-- The handlers of an offer and of the end of a session keep the published state up to date.
use o_camera_agent.Common.{
  ℕ, ◌≡◌, refl, sym, ap, ◌∙◌, inl, inr, Bool, true, false, not, ◌&&◌, List, [], ◌∷◌, ◌++◌, Option,
  none, some, arith, if_cases, if◌then◌else◌, map, get_elem?, set, set_cases,
}
use o_camera_agent.Common.Text.{Bytes, same}
use o_camera_agent.Json.{Value}
use o_camera_agent.Mqtt.{topic_cli}
use o_camera_agent.Protocol.{OfferData, Envelope, ByeReason}
use o_camera_agent.Protocol.Decode.{unmarshal_offer}
use o_camera_agent.Protocol.Ident.{sid_pattern}
use o_camera_agent.Source.{probe_now, mark_down}
use o_camera_agent.Webrtc.Proxy.{Release, Reply, answered, refused}
use o_camera_agent.Agent.Session.{Session, start_ice, shut, shut_releases, stop_connect_timer}
use o_camera_agent.Agent.World.{
  World, gives_back, emit, put_session, publish, send_batch, publish_state, update_source, current,
  viewer, codecs, at_current_cases, points,
}
use o_camera_agent.Agent.Offer.{
  Outside, resend, busy_offer, open_session, on_reply, start_session, choose_codecs, check_source,
  bad_stream, offer_decoded, idle_offer, handle_offer_message, envelope,
}
use o_camera_agent.Agent.Events.{end_session, is_source_lost}
use o_camera_agent.Agent.Frames.{
  send_frame, update_source_frame, send_batch_frame, publish_state_frame,
}
use o_camera_agent.Agent.Invariant.{WorldInv, idle-sess}
use o_camera_agent.Agent.Presence.{IsPublished, Alike-IsPublished, publish_state-IsPublished}
use o_camera_agent.Agent.Presence.Calls.{
  KeepsViewer, publish-IsPublished, send_error-IsPublished, send_batch-IsPublished,
  give_back-IsPublished, put_session-IsPublished, probe-IsPublished, mark_down-watched,
}

abbrev Watched : World → Type 0
Watched w = w.source.on_change ≡ true

-- Until the state is published, the end of a session only keeps the source watched.
ending-Watched :
    (r : ℕ) (t : Session) (xs : List Release) (w : World)
    → Watched w
    → Watched (emit (map (gives_back r) xs) (put_session r t (record w { sess = none })))
unfolding emit put_session
ending-Watched r t xs w h = h

pub end_session-IsPublished :
    (r : ℕ) (s : Session) (reason : ByeReason) (b : Bool) (w : World)
    → IsPublished w
    → IsPublished (end_session r s reason b w)
unfolding end_session
end_session-IsPublished r s reason b w p =
    if_cases IsPublished (not (points w.sess r)) _ _ (λ _. p)
      λ _. publish_state-IsPublished _ (
        if_cases Watched b _ _ (λ _. ap (λ m. m.on_change) (send_frame _ _ _ _ _).source ∙ lost)
          (λ _. lost))
  where
    w2 : World
    w2 =
        emit (map (gives_back r) (shut_releases s))
          (put_session r (shut (stop_connect_timer s)) (record w { sess = none }))

    lost : Watched (if is_source_lost reason then update_source (mark_down w2.source) w2 else w2)
    lost =
        let h = ending-Watched r (shut (stop_connect_timer s)) (shut_releases s) w p.watched in
        if_cases Watched (is_source_lost reason) _ _ (λ _. mark_down-watched w2 ∙ h) (λ _. h)

start_ice-viewer : (s : Session) → (start_ice s).0.viewer ≡ s.viewer
unfolding start_ice
start_ice-viewer s = ground arith

stored_viewer :
    (store : List Session) (r : ℕ) (t s : Session)
    → get_elem? (set store r t) r ≡ some s
    → t.viewer ≡ s.viewer
stored_viewer store r t s e = elim (set_cases store r r t s e) [
  | inl (_, x) ↦ rw x
  | inr (x, _) ↦ absurd (x refl)
]

-- The state is published while a session opens; what follows changes nothing that it says.
open_session-IsPublished :
    (r : ℕ) (s : Session) (payload : Value) (w : World)
    → Watched w
    → IsPublished (open_session r s payload w)
unfolding open_session
open_session-IsPublished r s payload w h =
    put_session-IsPublished r _ _ keeps
      (send_batch-IsPublished s1 (start_ice s1).1 w2 (publish_state-IsPublished _ watched))
  where
    s1 : Session
    s1 = record s { answer = some payload }

    w1 : World
    w1 =
        publish (topic_cli w.mqtt s.viewer) false payload
          (record (put_session r s1 w) { sess = some r })

    w2 : World
    w2 = publish_state true w1

    watched : Watched w1
    watched = unfold publish emit put_session in h

    stored : (send_batch s1 (start_ice s1).1 w2).store ≡ set w.store r s1
    stored =
        (send_batch_frame s1 (start_ice s1).1 w2).store
        ∙ (publish_state_frame true w1).store
        ∙ (unfold publish emit put_session in refl)

    keeps :
        KeepsViewer r
          (record (start_ice s1).0 { connect_timer = true })
          (send_batch s1 (start_ice s1).1 w2)
    keeps t e =
        start_ice-viewer s1
        ∙ stored_viewer w.store r s1 t (ap (λ l. get_elem? l r) (sym stored) ∙ e)

on_reply-IsPublished :
    (r : ℕ) (s : Session) (reply : Reply) (w : World)
    → IsPublished w
    → IsPublished (on_reply r s reply w)
unfolding on_reply envelope
on_reply-IsPublished r s (refused e) w p = send_error-IsPublished s.viewer s.sid e.code e.msg _ w p
on_reply-IsPublished r s (answered sdp) w p = open_session-IsPublished r s _ w p.watched

-- A session that is not active says nothing.
remembered-IsPublished :
    (s : Session) (w : World)
    → w.sess ≡ none
    → IsPublished w
    → IsPublished (record w { store = w.store ++ s ∷ [] })
remembered-IsPublished s w idle =
    Alike-IsPublished {w = w} {w' = record w { store = w.store ++ s ∷ [] }}
      (record {
        name = refl;
        mqtt = refl;
        watched = refl;
        online = refl;
        info = refl;
        viewer = unfold viewer current in rw idle;
      })
      refl

module _ (o : Outside) (from : Bytes) where
  start_session-IsPublished :
      (sid : Bytes) (offer : OfferData) (video audio : Bytes) (w : World)
      → w.sess ≡ none
      → IsPublished w
      → IsPublished (start_session o from sid offer video audio w)
  unfolding start_session
  start_session-IsPublished sid offer video audio w idle p =
      on_reply-IsPublished _ _ _ _ (give_back-IsPublished _ _ _ (remembered-IsPublished _ w idle p))

  choose_codecs-IsPublished :
      (sid : Bytes) (offer : OfferData) (w : World)
      → w.sess ≡ none
      → IsPublished w
      → IsPublished (choose_codecs o from sid offer w)
  unfolding choose_codecs
  choose_codecs-IsPublished sid offer w idle p =
      if_cases IsPublished (same (codecs w).0 []) _ _
        (λ _. send_error-IsPublished from sid _ _ false w p)
        (λ _. start_session-IsPublished sid offer _ _ w idle p)

  check_source-IsPublished :
      (sid : Bytes) (offer : OfferData) (w : World)
      → w.sess ≡ none
      → IsPublished w
      → IsPublished (check_source o from sid offer w)
  unfolding check_source
  check_source-IsPublished sid offer w idle p =
      let w' = update_source (probe_now w.source o.probe) w in
      let idle' = (update_source_frame (probe_now w.source o.probe) w).sess ∙ idle in
      let p' = probe-IsPublished o.probe w p in
      if_cases IsPublished w.source.online _ _ (λ _. choose_codecs-IsPublished sid offer w idle p)
        (λ _.
          if_cases IsPublished w'.source.online _ _
            (λ _. choose_codecs-IsPublished sid offer w' idle' p')
            (λ _. send_error-IsPublished from sid _ _ true w' p'))

  offer_decoded-IsPublished :
      (env : Envelope) (d : Option OfferData) (w : World)
      → w.sess ≡ none
      → IsPublished w
      → IsPublished (offer_decoded o from env d w)
  unfolding offer_decoded
  offer_decoded-IsPublished env none w idle p = send_error-IsPublished from env.sid _ _ false w p
  offer_decoded-IsPublished env (some offer) w idle p =
      if_cases IsPublished (same offer.sdp []) _ _
        (λ _. send_error-IsPublished from env.sid _ _ false w p)
        (λ _.
          if_cases IsPublished (bad_stream offer) _ _
            (λ _. send_error-IsPublished from env.sid _ _ false w p)
            (λ _. check_source-IsPublished env.sid offer w idle p))

  resend-IsPublished :
      (a : Option Value) (w : World) → IsPublished w → IsPublished (resend from a w)
  unfolding resend
  resend-IsPublished none w p = p
  resend-IsPublished (some a) w p = publish-IsPublished _ a w p

  pub handle_offer_message-IsPublished :
      (env : Envelope) (w : World)
      → WorldInv w
      → IsPublished w
      → IsPublished (handle_offer_message o from env w)
  unfolding handle_offer_message idle_offer busy_offer
  handle_offer_message-IsPublished env w v p =
      if_cases IsPublished (not (sid_pattern env.sid)) _ _
        (λ _. send_error-IsPublished from [] _ _ false w p)
        (λ _.
          at_current_cases IsPublished _ _ w
            (λ i. offer_decoded-IsPublished env (unmarshal_offer env.raw) w (idle-sess w v i) p)
            (λ r cur _.
              if_cases IsPublished (same cur.sid env.sid && same cur.viewer from) _ _
                (λ _. resend-IsPublished cur.answer w p)
                (λ _. send_error-IsPublished from env.sid _ _ true w p)))
