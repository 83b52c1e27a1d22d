-- ===== src/Agent/Isolation.antt =====
-- What cannot disturb the active session, and that a session ends once.
use o_camera_agent.Common.{
  ℕ, ◌≡◌, ◌≢◌, refl, sym, ap, ◌∙◌, ◌⊎◌, inl, inr, Bool, true, false, not, ◌&&◌, [], Option, none,
  some, arith, if_cases, Bool-cases,
}
use o_camera_agent.Common.Text.{Bytes, same, same_iff}
use o_camera_agent.Json.{Value}
use o_camera_agent.Mqtt.{Received, topic_cli}
use o_camera_agent.Protocol.{
  Envelope, ByeReason, ErrorCode, type_offer, type_ice, type_bye, type_cmd, CmdData,
}
use o_camera_agent.Protocol.Decode.{unmarshal_cmd}
use o_camera_agent.Protocol.Ident.{sid_pattern}
use o_camera_agent.Agent.Session.{Session}
use o_camera_agent.Agent.World.{World, points, current, at_current_cases, publish, send, send_error}
use o_camera_agent.Agent.Offer.{Outside, busy_offer, handle_offer_message}
use o_camera_agent.Agent.Events.{
  is_from, end_session, handle_ice, handle_bye, answer_cmd, handle_cmd, handle_envelope,
}
use o_camera_agent.Agent.Invariant.Steps.{end_session_of_current, end_session_of_other}

-- At most one message, and that to one viewer.
abbrev pub OnlyAnswers : Bytes → World → World → Type 0
OnlyAnswers to w w' = (w' ≡ w) ⊎ ((p : Value) × (w' ≡ publish (topic_cli w.mqtt to) false p w))

send_error-OnlyAnswers :
    (to sid : Bytes) (c : ErrorCode) (m : Bytes) (b : Bool) (w : World)
    → OnlyAnswers to w (send_error to sid c m b w)
unfolding send_error send
send_error-OnlyAnswers to sid c m b w = inr (_, refl)

answer_cmd-OnlyAnswers :
    (from : Bytes) (d : Option CmdData) (w : World) → OnlyAnswers from w (answer_cmd from d w)
unfolding answer_cmd send
answer_cmd-OnlyAnswers from none w = inl refl
answer_cmd-OnlyAnswers from (some d) w =
    if_cases (OnlyAnswers from w) (same d.id []) _ _ (λ _. inl refl) (λ _. inr (_, refl))

module _ (w : World) (r : ℕ) (cur : Session) (active : current w ≡ some (r, cur)) (from : Bytes)
    (other : from ≢ cur.viewer) where
  is_active : (q : ℕ) (s : Session) → current w ≡ some (q, s) → s ≡ cur
  is_active q s e = same_pair (sym e ∙ active)
    where
      same_pair : ◌≡◌ {A = Option (ℕ × Session)} (some (q, s)) (some (r, cur)) → s ≡ cur
      same_pair h = cc

  not_same : (s : Session) → s ≡ cur → same s.viewer from ≡ false
  not_same s e = ground (arith, same_iff s.viewer from, ap (λ x. x.viewer) e)

  not-is_from : (env : Envelope) (s : Session) → s ≡ cur → is_from from env s ≡ false
  unfolding is_from
  not-is_from env s e = ground (arith, not_same s e)

  offer-OnlyAnswers :
      (o : Outside) (env : Envelope) → OnlyAnswers from w (handle_offer_message o from env w)
  unfolding handle_offer_message busy_offer
  offer-OnlyAnswers o env =
      if_cases (OnlyAnswers from w) (not (sid_pattern env.sid)) _ _
        (λ _. send_error-OnlyAnswers from _ _ _ _ w)
        (λ _.
          at_current_cases (OnlyAnswers from w) _ _ w (λ i. absurd (none_some i))
            (λ q s e.
              if_cases (OnlyAnswers from w) (same s.sid env.sid && same s.viewer from) _ _
                (λ both. absurd (not_both s env both (not_same s (is_active q s e))))
                (λ _. send_error-OnlyAnswers from _ _ _ _ w)))
    where
      none_some : current w ≡ none → ⊥
      none_some i = cc (active, i)

      not_both :
          (s : Session) (env : Envelope)
          → (same s.sid env.sid && same s.viewer from) ≡ true
          → same s.viewer from ≡ false
          → ⊥
      not_both s env h n = ground (arith, h, n)

  ice_ignored : (env : Envelope) → handle_ice from env w ≡ w
  unfolding handle_ice
  ice_ignored env =
      at_current_cases (λ w'. w' ≡ w) _ _ w (λ _. refl)
        (λ q s e. rw (not-is_from env s (is_active q s e)))

  bye_ignored : (env : Envelope) → handle_bye from env w ≡ w
  unfolding handle_bye
  bye_ignored env =
      at_current_cases (λ w'. w' ≡ w) _ _ w (λ _. refl)
        (λ q s e. rw (not-is_from env s (is_active q s e)))

-- While a session is active, a message of any kind from anyone but its viewer changes nothing: it is
-- ignored, or answered by one message to its sender.
pub stranger_isolated :
    (w : World) (r : ℕ) (cur : Session) (o : Outside) (m : Received)
    → current w ≡ some (r, cur)
    → m.from ≢ cur.viewer
    → OnlyAnswers m.from w (handle_envelope o m w)
unfolding handle_envelope handle_cmd
stranger_isolated w r cur o m active other =
    let P = OnlyAnswers m.from w in
    if_cases P m.is_stale _ _
      (λ _.
        if_cases P (same m.env.type type_offer) _ _ (λ _. send_error-OnlyAnswers m.from _ _ _ _ w)
          (λ _. inl refl))
      (λ _.
        if_cases P (same m.env.type type_offer) _ _
          (λ _. offer-OnlyAnswers w r cur active m.from other o m.env)
          (λ _.
            if_cases P (same m.env.type type_ice) _ _
              (λ _. inl (ice_ignored w r cur active m.from other m.env))
              (λ _.
                if_cases P (same m.env.type type_bye) _ _
                  (λ _. inl (bye_ignored w r cur active m.from other m.env))
                  (λ _.
                    if_cases P (same m.env.type type_cmd) _ _
                      (λ _. answer_cmd-OnlyAnswers m.from (unmarshal_cmd m.env.raw) w)
                      (λ _. inl refl)))))

-- Whatever ends a session, and whatever else then tries to end it, it ends once: the second attempt
-- changes nothing and sends nothing.
pub end_session_once :
    (r : ℕ) (s t : Session) (first second : ByeReason) (b c : Bool) (w : World)
    → end_session r t second c (end_session r s first b w) ≡ end_session r s first b w
end_session_once r s t first second b c w = elim (Bool-cases (points w.sess r)) [
  | inl here ↦
      let idle = (end_session_of_current r s first b w here).0 in
      end_session_of_other r t second c _ (ap (λ o. points o r) idle)
  | inr other ↦
      let same = end_session_of_other r s first b w other in
      end_session_of_other r t second c _ (ap (λ x. points x.sess r) same ∙ other)
]
