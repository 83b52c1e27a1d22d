-- ===== src/Rtsp/Handshake/Describe.antt =====
-- describe writes the beginning of a conversation.
use o_camera_agent.Common.{
  ℕ, refl, inl, inr, ◌⊎◌, Bool, true, false, if_cases, List, [], Option, none, some,
}
use o_camera_agent.Common.Text.{Bytes, codes}
use o_camera_agent.Rtsp.Media.{}
use o_camera_agent.Rtsp.Request.{
  Delivery, ClientState, Answer, answered, failed, panicked, new_rtsp_client, send_request,
}
use o_camera_agent.Rtsp.Handshake.{
  Url, is_ok, first_options, second_options, described_answer, with_connection, with_url, options,
  ask_options, ask_describe, describe,
}
use o_camera_agent.Rtsp.Handshake.Conversation.{
  opened, asked, asked_again, described, asks, asks_again, describe_once, describe_twice,
  nothing_yet, At, Ends, HasBrief, At-HasBrief, Ends-next, send_request-At,
}

-- OPTIONS was asked, once or twice.
abbrev Asked : Unit {0} → ClientState → Type 0
Asked u rc = At asked rc ⊎ At asked_again rc

abbrev pub Described : Bytes → ClientState → Type 0
Described m = At described

module _ (limit : ℕ) (md5 : Bytes → Bytes) where
  second-Ends :
      (x : Answer × ClientState) → At asked_again x.1 → Ends Asked HasBrief (second_options x)
  second-Ends (answered status m, rc) h = inr h
  second-Ends (failed, rc) h = inr h
  second-Ends (panicked, rc) h = At-HasBrief asked_again rc tt h

  first-Ends :
      (x : Answer × ClientState) → At asked x.1 → Ends Asked HasBrief (first_options limit md5 x)
  first-Ends (answered status m, rc) h =
      if_cases (Ends Asked HasBrief) (is_ok status) _ _ (λ _. inl h)
        (λ _.
          second-Ends (options limit md5 rc)
            (send_request-At limit md5 rc asked asked_again _ _ [] h asks_again))
  first-Ends (failed, rc) h =
      second-Ends (options limit md5 rc)
        (send_request-At limit md5 rc asked asked_again _ _ [] h asks_again)
  first-Ends (panicked, rc) h = At-HasBrief asked rc tt h

  ask_options-Ends :
      (rc : ClientState) → At opened rc → Ends Asked HasBrief (ask_options limit md5 rc)
  unfolding ask_options
  ask_options-Ends rc h =
      first-Ends (options limit md5 rc) (send_request-At limit md5 rc opened asked _ _ [] h asks)

  described-Ends :
      (x : Answer × ClientState) → At described x.1 → Ends Described HasBrief (described_answer x)
  described-Ends (answered status m, rc) h =
      if_cases (Ends Described HasBrief) (is_ok status) _ _ (λ _. h)
        (λ _. At-HasBrief described rc tt h)
  described-Ends (failed, rc) h = At-HasBrief described rc tt h
  described-Ends (panicked, rc) h = At-HasBrief described rc tt h

  ask_describe-Ends :
      (u : Unit {0}) (rc : ClientState)
      → Asked u rc
      → Ends Described HasBrief (ask_describe limit md5 rc)
  unfolding ask_describe
  ask_describe-Ends u rc (inl h) =
      described-Ends (send_request limit md5 rc (codes "DESCRIBE") rc.uri [])
        (send_request-At limit md5 rc asked described _ _ [] h describe_once)
  ask_describe-Ends u rc (inr h) =
      described-Ends (send_request limit md5 rc (codes "DESCRIBE") rc.uri [])
        (send_request-At limit md5 rc asked_again described _ _ [] h describe_twice)

  pub describe-Ends :
      (ds : List Delivery) (url : Option Url) (connects : Bool)
      → Ends Described HasBrief (describe limit md5 (new_rtsp_client ds) url connects)
  unfolding describe with_url new_rtsp_client
  describe-Ends ds none connects = (opened, tt, refl, (1, [], nothing_yet))
  describe-Ends ds (some u) false = (opened, tt, refl, (1, [], nothing_yet))
  describe-Ends ds (some u) true =
      let rc = with_connection true (with_url (new_rtsp_client ds) u) in
      Ends-next Asked Described HasBrief (λ a. ask_describe limit md5) (ask_options limit md5 rc)
        (ask_options-Ends rc (refl, refl, ([], nothing_yet, λ e. cc))) ask_describe-Ends
