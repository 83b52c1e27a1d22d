-- ===== src/Rtsp/Handshake/Success.antt =====
-- A camera that answers is played.
use o_camera_agent.Common.{
  ℕ, ◌≡◌, ◌≢◌, refl, sym, ap, ◌∙◌, subst, true, List, [], ◌∷◌, ◌++◌, map, some, All,
}
use o_camera_agent.Common.Text.{Bytes, codes}
use o_camera_agent.Rtsp.Headers.{parse_session}
use o_camera_agent.Rtsp.Headers.Session.{crlf}
use o_camera_agent.Rtsp.Response.RoundTrip.{}
use o_camera_agent.Rtsp.Media.{parse_media}
use o_camera_agent.Rtsp.Media.Size.{parse_media_resizes}
use o_camera_agent.Rtsp.Media.Tracks.{
  MediaLine, media_text, tracks, IsMediaLine, parse_media-tracks,
}
use o_camera_agent.Rtsp.Request.{ClientState, new_rtsp_client, send_request}
use o_camera_agent.Rtsp.Handshake.{
  Url, transport, next, options, after_describe, with_connection, with_url, ask_options,
  ask_describe, describe, set_up, play, play_tracks, client,
}
use o_camera_agent.Rtsp.Handshake.Conversation.{Ends, Ends-next}
use o_camera_agent.Rtsp.Handshake.Answers.{
  CameraReply, reply_text, delivery, IsReply, Ready, Never, Played, send_request-Answered,
  first-Answered, described-Answered, is_set_up-Answered, is_played-Answered,
}

-- The answers behind DESCRIBE: one to the SETUP of the first track, one to that of the second, if there
-- is one, and one to PLAY.
abbrev pub to_tracks : List Bytes → CameraReply → CameraReply → CameraReply → List CameraReply
to_tracks [] first second play_reply = []
to_tracks (t ∷ []) first second play_reply = first ∷ play_reply ∷ []
to_tracks (t ∷ t' ∷ ts) first second play_reply = first ∷ second ∷ play_reply ∷ []

-- The session that the last answer to SETUP named.
abbrev pub last_session : List Bytes → Bytes → Bytes → Bytes
last_session (t ∷ t' ∷ ts) first second = second
last_session ts first second = first

module _ (limit : ℕ) (md5 : Bytes → Bytes) (ts : List Bytes) where
  play-succeeds :
      (rc : ClientState) (p : CameraReply) (session : Bytes)
      → IsReply limit p
      → Ready (p ∷ []) ts session rc
      → Ends (Played ts session) Never (play limit md5 rc)
  unfolding play
  play-succeeds rc p session h ready =
      is_played-Answered limit md5 p [] ts session
        (send_request limit md5 rc (codes "PLAY") rc.uri ((codes "Range", codes "npt=0-") ∷ []))
        (send_request-Answered limit md5 rc _ _ _ p [] ts session h ready)

  set_up-succeeds :
      (rc : ClientState) (track channels : Bytes) (p : CameraReply) (ds : List CameraReply)
      (session session' : Bytes)
      → IsReply limit p
      → parse_session (reply_text p) ≡ some session'
      → Ready (p ∷ ds) ts session rc
      → Ends (λ u. Ready ds ts session') Never (set_up limit md5 track channels rc)
  unfolding set_up
  set_up-succeeds rc track channels p ds session session' h found ready =
      is_set_up-Answered limit md5 p ds ts session
        (send_request limit md5 rc (codes "SETUP") (rc.uri ++ codes "/" ++ track)
          (transport channels))
        session' found (send_request-Answered limit md5 rc _ _ _ p ds ts session h ready)

  play_tracks-succeeds :
      (some_tracks : List Bytes) (rc : ClientState) (s s' p : CameraReply)
      (session session' : Bytes)
      → some_tracks ≢ []
      → IsReply limit s
      → IsReply limit s'
      → IsReply limit p
      → parse_session (reply_text s) ≡ some session
      → parse_session (reply_text s') ≡ some session'
      → Ready (to_tracks some_tracks s s' p) ts [] rc
      → Ends
          (Played ts (last_session some_tracks session session'))
          Never
          (play_tracks limit md5 some_tracks rc)
  unfolding play_tracks
  play_tracks-succeeds [] rc s s' p session session' n hs hs' hp found found' ready =
      absurd (n refl)
  play_tracks-succeeds (t ∷ []) rc s s' p session session' n hs hs' hp found found' ready =
      Ends-next (λ u. Ready (p ∷ []) ts session) (Played ts session) Never (λ a. play limit md5)
        (set_up limit md5 t (codes "0-1") rc)
        (set_up-succeeds rc t (codes "0-1") s (p ∷ []) [] session hs found ready)
        (λ u rc' ready'. play-succeeds rc' p session hp ready')
  play_tracks-succeeds (t ∷ t' ∷ more) rc s s' p session session' n hs hs' hp found found' ready =
      Ends-next (λ u. Ready (s' ∷ p ∷ []) ts session) (Played ts session') Never
        (λ a rc'. next (λ b. play limit md5) (set_up limit md5 t' (codes "2-3") rc'))
        (set_up limit md5 t (codes "0-1") rc)
        (set_up-succeeds rc t (codes "0-1") s (s' ∷ p ∷ []) [] session hs found ready)
        (λ u rc' ready'.
          Ends-next (λ v. Ready (p ∷ []) ts session') (Played ts session') Never
            (λ b. play limit md5) (set_up limit md5 t' (codes "2-3") rc')
            (set_up-succeeds rc' t' (codes "2-3") s' (p ∷ []) session session' hs' found' ready')
            (λ v rc'' ready''. play-succeeds rc'' p session' hp ready''))

module _ (limit : ℕ) (md5 : Bytes → Bytes) (o d s s' p : CameraReply) (ls : List MediaLine)
    (session session' : Bytes) (o_ok : IsReply limit o) (d_ok : IsReply limit d)
    (s_ok : IsReply limit s) (s'_ok : IsReply limit s') (p_ok : IsReply limit p)
    (description : reply_text d ≡ crlf (map media_text ls)) (are_lines : All IsMediaLine ls)
    (has_track : tracks ls ≢ []) (has_session : parse_session (reply_text s) ≡ some session)
    (has_session' : parse_session (reply_text s') ≡ some session') where
  abbrev replies : List CameraReply
  replies = o ∷ d ∷ to_tracks (tracks ls) s s' p

  -- The description has come.
  abbrev HasDescription : Bytes → ClientState → Type 0
  HasDescription m rc = (m ≡ reply_text d) × Ready (to_tracks (tracks ls) s s' p) [] [] rc

  describe-succeeds :
      (u : Url)
      → Ends HasDescription Never
          (describe limit md5 (new_rtsp_client (map delivery replies)) (some u) true)
  unfolding describe ask_options ask_describe with_url new_rtsp_client
  describe-succeeds u =
      let rc = with_connection true (with_url (new_rtsp_client (map delivery replies)) u) in
      let later = d ∷ to_tracks (tracks ls) s s' p in
      Ends-next (λ v. Ready later [] []) HasDescription Never (λ a. ask_describe limit md5)
        (ask_options limit md5 rc)
        (first-Answered limit md5 o later [] [] (options limit md5 rc) (
          send_request-Answered limit md5 rc (codes "OPTIONS") rc.uri [] o later [] [] o_ok
            (refl, refl, refl, refl, refl)))
        (λ v rc' ready.
          described-Answered limit md5 d (to_tracks (tracks ls) s s' p) [] []
            (send_request limit md5 rc' (codes "DESCRIBE") rc'.uri [])
            (send_request-Answered limit md5 rc' _ _ _ d (to_tracks (tracks ls) s s' p) [] [] d_ok
              ready))

  after_describe-succeeds :
      (m : Bytes) (rc : ClientState)
      → HasDescription m rc
      → Ends
          (Played (tracks ls) (last_session (tracks ls) session session'))
          Never
          (after_describe limit md5 m rc)
  after_describe-succeeds m rc (same, ready) =
      let found : (parse_media rc m).0 ≡ tracks ls =
        ap (λ t. (parse_media rc t).0) (same ∙ description) ∙ parse_media-tracks rc ls are_lines in
      let (c, r, e, t, none_yet) =
        parse_media_resizes (Ready (to_tracks (tracks ls) s s' p) [] []) (λ rc' w h q. q) rc m
          ready in
      subst
        (λ ts.
          Ends (Played (tracks ls) (last_session (tracks ls) session session')) Never
            (play_tracks limit md5 ts (record ((parse_media rc m).1) { track = ts })))
        (sym found)
        (play_tracks-succeeds limit md5 (tracks ls) (tracks ls) _ s s' p session session' has_track
          s_ok s'_ok p_ok has_session has_session' (c, r, e, refl, none_yet))

  -- If the camera can be reached and answers OPTIONS, DESCRIBE, each SETUP and PLAY with status 200 and
  -- without a challenge, if its description names at least one track and the answers to SETUP a session,
  -- then Client succeeds: the loop of the packets runs, with the tracks of the description and in the
  -- session of the last SETUP. The answers may differ, and frames may arrive before each of them.
  pub client-succeeds :
      (u : Url)
      → Ends
          (Played (tracks ls) (last_session (tracks ls) session session'))
          Never
          (client limit md5 (new_rtsp_client (map delivery replies)) (some u) true)
  unfolding client
  client-succeeds u =
      Ends-next HasDescription (Played (tracks ls) (last_session (tracks ls) session session'))
        Never (after_describe limit md5)
        (describe limit md5 (new_rtsp_client (map delivery replies)) (some u) true)
        (describe-succeeds u) after_describe-succeeds
