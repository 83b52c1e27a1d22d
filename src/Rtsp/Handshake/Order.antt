-- ===== src/Rtsp/Handshake/Order.antt =====
-- Client writes a conversation.
use o_camera_agent.Common.{
  ℕ, ◌≡◌, refl, ap, ◌∙◌, Bool, true, if_cases, List, [], ◌∷◌, ◌++◌, Option, none, some,
}
use o_camera_agent.Common.Text.{Bytes, codes}
use o_camera_agent.Rtsp.Headers.{parse_session}
use o_camera_agent.Rtsp.Media.{parse_media}
use o_camera_agent.Rtsp.Media.Size.{parse_media_resizes}
use o_camera_agent.Rtsp.Request.{
  Delivery, ClientState, Answer, answered, failed, panicked, new_rtsp_client, numbered,
  send_request,
}
use o_camera_agent.Rtsp.Request.Keeps.{send_request-Keeps}
use o_camera_agent.Rtsp.Handshake.{
  Url, CallResult, returns, errs, panics, is_ok, is_set_up, is_played, with_session, after_describe,
  transport, next, describe, set_up, play, play_tracks, client,
}
use o_camera_agent.Rtsp.Handshake.Conversation.{
  Stage, described, set_up_one, set_up_both, playing, Call, set_up_first, set_up_second, play_one,
  play_both, IsNew, At, Ends, HasConversation, At-HasConversation, Ends-next, Ends-weaken,
  send_request-At,
}
use o_camera_agent.Rtsp.Handshake.Describe.{Described, describe-Ends}

-- The same, in a client that holds these tracks.
abbrev AtWith : List Bytes → Stage → ClientState → Type 0
AtWith ts s rc = At s rc × (rc.track ≡ ts)

send_request-AtWith :
    (limit : ℕ) (md5 : Bytes → Bytes) (rc : ClientState) (ts : List Bytes) (s s' : Stage)
    (m u : Bytes) (content : List (Bytes × Bytes))
    → AtWith ts s rc
    → Call rc.uri s s' m u content
    → AtWith ts s' (send_request limit md5 rc m u content).1
unfolding numbered
send_request-AtWith limit md5 rc ts s s' m u content (h, e) call = (
  send_request-At limit md5 rc s s' m u content h call,
  ap (λ f. f.track) (send_request-Keeps limit md5 rc m u content h.0).0 ∙ e,
)

with_session-Ends :
    (ts : List Bytes) (s : Stage) (o : Option Bytes) (rc : ClientState)
    → ((session : Bytes) → IsNew s session)
    → AtWith ts s rc
    → Ends (λ u. AtWith ts s) HasConversation (with_session o rc)
with_session-Ends ts s none rc free h = At-HasConversation s rc h.0
with_session-Ends ts s (some session) rc free ((c, new, log), e) = ((c, free session, log), e)

is_set_up-Ends :
    (ts : List Bytes) (s : Stage) (x : Answer × ClientState)
    → ((session : Bytes) → IsNew s session)
    → AtWith ts s x.1
    → Ends (λ u. AtWith ts s) HasConversation (is_set_up x)
is_set_up-Ends ts s (answered status m, rc) free h =
    if_cases (Ends (λ u. AtWith ts s) HasConversation) (is_ok status) _ _
      (λ _. with_session-Ends ts s (parse_session m) rc free h) (λ _. h)
is_set_up-Ends ts s (failed, rc) free h = At-HasConversation s rc h.0
is_set_up-Ends ts s (panicked, rc) free h = At-HasConversation s rc h.0

-- The loop of the packets runs for these tracks, behind a conversation for them.
abbrev pub PlaysFor : List Bytes → Unit {0} → ClientState → Type 0
PlaysFor ts u rc = (rc.is_looping ≡ true) × (rc.track ≡ ts) × At (playing ts) rc

-- What DESCRIBE came to, and the loop of the packets runs for the tracks of that description.
abbrev pub Plays : CallResult Bytes × ClientState → Unit {0} → ClientState → Type 0
Plays (returns description, rc) = PlaysFor (parse_media rc description).0
Plays (errs, rc) = λ u rc'. ⊥
Plays (panics, rc) = λ u rc'. ⊥

is_played-Ends :
    (ts : List Bytes) (x : Answer × ClientState)
    → AtWith ts (playing ts) x.1
    → Ends (PlaysFor ts) HasConversation (is_played x)
is_played-Ends ts (answered status m, rc) (h, e) =
    if_cases (Ends (PlaysFor ts) HasConversation) (is_ok status) _ _ (λ _. (refl, e, h))
      (λ _. At-HasConversation (playing ts) rc h)
is_played-Ends ts (failed, rc) h = At-HasConversation (playing ts) rc h.0
is_played-Ends ts (panicked, rc) h = At-HasConversation (playing ts) rc h.0

module _ (limit : ℕ) (md5 : Bytes → Bytes) where
  set_up-Ends :
      (ts : List Bytes) (s s' : Stage) (t channels : Bytes) (rc : ClientState)
      → ((session : Bytes) → IsNew s' session)
      → AtWith ts s rc
      → Call rc.uri s s' (codes "SETUP") (rc.uri ++ codes "/" ++ t) (transport channels)
      → Ends (λ u. AtWith ts s') HasConversation (set_up limit md5 t channels rc)
  unfolding set_up
  set_up-Ends ts s s' t channels rc free h call =
      is_set_up-Ends ts s'
        (send_request limit md5 rc (codes "SETUP") (rc.uri ++ codes "/" ++ t) (transport channels))
        free (send_request-AtWith limit md5 rc ts s s' _ _ _ h call)

  play-Ends :
      (ts : List Bytes) (s : Stage) (rc : ClientState)
      → AtWith ts s rc
      → Call rc.uri s (playing ts) (codes "PLAY") rc.uri ((codes "Range", codes "npt=0-") ∷ [])
      → Ends (PlaysFor ts) HasConversation (play limit md5 rc)
  unfolding play
  play-Ends ts s rc h call =
      is_played-Ends ts
        (send_request limit md5 rc (codes "PLAY") rc.uri ((codes "Range", codes "npt=0-") ∷ []))
        (send_request-AtWith limit md5 rc ts s (playing ts) _ _ _ h call)

  play_tracks-Ends :
      (ts : List Bytes) (rc : ClientState)
      → AtWith ts described rc
      → Ends (PlaysFor ts) HasConversation (play_tracks limit md5 ts rc)
  unfolding play_tracks
  play_tracks-Ends [] rc h = At-HasConversation described rc h.0
  play_tracks-Ends (t ∷ []) rc h =
      let one = set_up_one (t ∷ []) in
      Ends-next (λ u. AtWith (t ∷ []) one) (PlaysFor (t ∷ [])) HasConversation (λ a. play limit md5)
        (set_up limit md5 t (codes "0-1") rc)
        (set_up-Ends (t ∷ []) described one t (codes "0-1") rc (λ x. tt) h (set_up_first t []))
        (λ u rc' h'. play-Ends (t ∷ []) one rc' h' (play_one t))
  play_tracks-Ends (t ∷ t' ∷ ts) rc h =
      let all = t ∷ t' ∷ ts in
      let one = set_up_one all in
      let both = set_up_both all in
      Ends-next (λ u. AtWith all one) (PlaysFor all) HasConversation
        (λ a rc'. next (λ b. play limit md5) (set_up limit md5 t' (codes "2-3") rc'))
        (set_up limit md5 t (codes "0-1") rc)
        (set_up-Ends all described one t (codes "0-1") rc (λ x. tt) h (set_up_first t (t' ∷ ts)))
        (λ u rc' h'.
          Ends-next (λ v. AtWith all both) (PlaysFor all) HasConversation (λ b. play limit md5)
            (set_up limit md5 t' (codes "2-3") rc')
            (set_up-Ends all one both t' (codes "2-3") rc' (λ x. tt) h' (set_up_second t t' ts))
            (λ v rc'' h''. play-Ends all both rc'' h'' (play_both all)))

module _ (limit : ℕ) (md5 : Bytes → Bytes) where
  after_describe-Ends :
      (x : CallResult Bytes × ClientState)
      → Ends Described HasConversation x
      → Ends (Plays x) HasConversation (next (after_describe limit md5) x)
  after_describe-Ends (returns m, rc) h =
      let (track, rc') = parse_media rc m in
      play_tracks-Ends limit md5 track (record rc' { track = track })
        (parse_media_resizes (At described) (λ rc w h p. p) rc m h, refl)
  after_describe-Ends (errs, rc) h = h
  after_describe-Ends (panics, rc) h = h

  -- Whatever the camera answers, the requests that Client writes form a conversation: OPTIONS once or
  -- twice, DESCRIBE, SETUP of the first track on channels 0-1, SETUP of the second, if there is one, on
  -- channels 2-3, and PLAY, in this order and each to its address, numbered from 2 on without a gap, with
  -- an authorization that stays once it is set. If Client succeeds, DESCRIBE returned a description, the
  -- conversation came to PLAY for exactly the tracks that ParseMedia finds in it, and the loop of the
  -- packets runs.
  pub client-Ends :
      (ds : List Delivery) (url : Option Url) (connects : Bool)
      → let answer = describe limit md5 (new_rtsp_client ds) url connects in
        Ends (Plays answer) HasConversation (client limit md5 (new_rtsp_client ds) url connects)
  unfolding client
  client-Ends ds url connects =
      let answer = describe limit md5 (new_rtsp_client ds) url connects in
      after_describe-Ends answer
        (Ends-weaken Described answer (describe-Ends limit md5 ds url connects))
