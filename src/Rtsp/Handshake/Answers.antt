-- ===== src/Rtsp/Handshake/Answers.antt =====
-- What an answer of status 200 comes to, in each phase.
use o_camera_agent.Common.{
  ℕ, ◌≡◌, ◌≤◌, refl, sym, ap, ◌∙◌, subst, true, false, if_cases, List, [], ◌∷◌, ◌++◌, map, some,
  All, length,
}
use o_camera_agent.Common.Int.{ℤ, pos}
use o_camera_agent.Common.Text.{Bytes, codes, contains, has_prefix}
use o_camera_agent.Common.Split.{Lacks}
use o_camera_agent.Rtsp.Delivery.{Frame, encode}
use o_camera_agent.Rtsp.Headers.{parse_session, parse_rtsp_status_code}
use o_camera_agent.Rtsp.Response.{done, read_rtsp_response}
use o_camera_agent.Rtsp.Response.RoundTrip.{
  IsHeader, length_in, eol, response_text, expected, read_rtsp_response-text,
}
use o_camera_agent.Rtsp.Media.Tracks.{}
use o_camera_agent.Rtsp.Request.{
  Delivery, arrives, ClientState, Answer, answered, failed, panicked, is_set, authorization,
  check_auth, take_response, exchange, numbered, send_request,
}
use o_camera_agent.Rtsp.Request.Keeps.{send_request-connected}
use o_camera_agent.Rtsp.Handshake.{
  is_ok, first_options, described_answer, is_set_up, is_played, with_session,
}
use o_camera_agent.Rtsp.Handshake.Conversation.{Ends}

-- An answer of the camera, behind frames that are still under way.
pub record CameraReply : Type 0 where
  pub frames : List Frame
  pub status_line : Bytes
  pub headers : List Bytes
  pub body : Bytes

abbrev pub reply_text : CameraReply → Bytes
reply_text p = response_text p.status_line p.headers p.body

abbrev pub delivery : CameraReply → Delivery
delivery p = arrives (encode p.frames ++ (reply_text p ++ []))

abbrev status_code : CameraReply → ℤ
status_code p = parse_rtsp_status_code (p.status_line ++ eol)

-- A response with status 200, a body as long as its header says, and no challenge.
pub record IsReply (limit : ℕ) (p : CameraReply) : Type 0 where
  pub is_rtsp : has_prefix (p.status_line ++ eol) (codes "RTSP/") ≡ true
  pub one_line : Lacks b'\n' p.status_line
  pub headers : All IsHeader p.headers
  pub announced : length_in p.headers (pos 0) ≡ pos (length p.body)
  pub fits : length p.body ≤ limit
  pub status : is_ok (status_code p) ≡ true
  pub no_digest : contains (reply_text p) (codes "Digest") ≡ false
  pub no_basic : contains (reply_text p) (codes "Basic") ≡ false

-- The client waits for these answers, with these tracks and this session.
abbrev pub Ready : List CameraReply → List Bytes → Bytes → ClientState → Type 0
Ready ds ts session rc =
    (rc.connected ≡ true)
    × (rc.reader ≡ [])
    × (rc.deliveries ≡ map delivery ds)
    × (rc.track ≡ ts)
    × (rc.session ≡ session)

-- The answer is this one.
abbrev pub Answered :
    CameraReply → List CameraReply → List Bytes → Bytes → Answer × ClientState → Type 0
Answered p ds ts session (answered status text, rc) =
    (is_ok status ≡ true) × (text ≡ reply_text p) × Ready ds ts session rc
Answered p ds ts session (failed, rc) = ⊥
Answered p ds ts session (panicked, rc) = ⊥

authorization-plain :
    (limit : ℕ) (md5 : Bytes → Bytes) (rc : ClientState) (m : Bytes) (p : CameraReply)
    → IsReply limit p
    → authorization md5 rc m (reply_text p) ≡ some rc.auth
unfolding authorization
authorization-plain limit md5 rc m p h = rw (h.no_digest, h.no_basic, authorization) refl

check_auth-plain :
    (limit : ℕ) (md5 : Bytes → Bytes) (rc : ClientState) (m : Bytes) (p : CameraReply) (status : ℤ)
    → IsReply limit p
    → check_auth md5 rc m status (reply_text p) ≡ (answered status (reply_text p), rc)
unfolding check_auth
check_auth-plain limit md5 rc m p status h =
    if_cases (λ x. x ≡ (answered status (reply_text p), rc)) (is_set rc.auth) _ _ (λ _. refl)
      (λ _. rw (authorization-plain limit md5 rc m p h) refl)

exchange-Answered :
    (limit : ℕ) (md5 : Bytes → Bytes) (rc : ClientState) (m : Bytes) (p : CameraReply)
    (ds : List CameraReply) (ts : List Bytes) (session : Bytes)
    → IsReply limit p
    → Ready (p ∷ ds) ts session rc
    → Answered p ds ts session (exchange limit md5 rc m (map delivery (p ∷ ds)))
unfolding exchange take_response
exchange-Answered limit md5 rc m p ds ts session h (c, r, d, t, s) =
    let bytes = encode p.frames ++ (reply_text p ++ []) in
    let x = expected p.status_line p.headers p.body [] in
    let rc' = record rc { deliveries = map delivery ds } in
    let read : read_rtsp_response limit (rc.reader ++ bytes) ≡ done x =
      ap (λ b. read_rtsp_response limit (b ++ bytes)) r
      ∙ read_rtsp_response-text limit p.status_line p.headers p.body [] h.is_rtsp h.one_line
          h.headers h.announced h.fits p.frames in
    let checked = check_auth-plain limit md5 (record rc' { reader = [] }) m p (status_code p) h in
    subst (Answered p ds ts session) (sym (ap (take_response md5 rc' m) read ∙ checked))
      (h.status, refl, (c, refl, refl, t, s))

pub send_request-Answered :
    (limit : ℕ) (md5 : Bytes → Bytes) (rc : ClientState) (m uri : Bytes)
    (content : List (Bytes × Bytes)) (p : CameraReply) (ds : List CameraReply) (ts : List Bytes)
    (session : Bytes)
    → IsReply limit p
    → Ready (p ∷ ds) ts session rc
    → Answered p ds ts session (send_request limit md5 rc m uri content)
unfolding numbered
send_request-Answered limit md5 rc m uri content p ds ts session h (c, r, d, t, s) =
    let sent = numbered rc m uri content in
    subst (Answered p ds ts session)
      (sym (send_request-connected limit md5 rc m uri content c ∙ ap (exchange limit md5 sent m) d))
      (exchange-Answered limit md5 sent m p ds ts session h (c, r, d, t, s))

-- Nothing but a return is meant.
abbrev pub Never : ClientState → Type 0
Never rc = ⊥

-- The loop of the packets runs, for these tracks and in this session.
abbrev pub Played : List Bytes → Bytes → Unit {0} → ClientState → Type 0
Played ts session u rc = (rc.is_looping ≡ true) × (rc.track ≡ ts) × (rc.session ≡ session)

module _ (limit : ℕ) (md5 : Bytes → Bytes) (p : CameraReply) (ds : List CameraReply)
    (ts : List Bytes) (session : Bytes) where
  pub first-Answered :
      (x : Answer × ClientState)
      → Answered p ds ts session x
      → Ends (λ u. Ready ds ts session) Never (first_options limit md5 x)
  first-Answered (answered status m, rc) (ok, same, ready) =
      if_cases (Ends (λ u. Ready ds ts session) Never) (is_ok status) _ _ (λ _. ready)
        (λ no. absurd cc)
  first-Answered (failed, rc) h = elim h [ ]
  first-Answered (panicked, rc) h = elim h [ ]

  pub described-Answered :
      (x : Answer × ClientState)
      → Answered p ds ts session x
      → Ends (λ m rc. (m ≡ reply_text p) × Ready ds ts session rc) Never (described_answer x)
  described-Answered (answered status m, rc) (ok, same, ready) =
      if_cases (Ends (λ m' rc'. (m' ≡ reply_text p) × Ready ds ts session rc') Never) (is_ok status)
        _ _ (λ _. (same, ready)) (λ no. absurd cc)
  described-Answered (failed, rc) h = elim h [ ]
  described-Answered (panicked, rc) h = elim h [ ]

  pub is_set_up-Answered :
      (x : Answer × ClientState) (session' : Bytes)
      → parse_session (reply_text p) ≡ some session'
      → Answered p ds ts session x
      → Ends (λ u. Ready ds ts session') Never (is_set_up x)
  is_set_up-Answered (answered status m, rc) session' found (ok, same, (c, r, d, t, s)) =
      let parsed = ap parse_session same ∙ found in
      if_cases (Ends (λ u. Ready ds ts session') Never) (is_ok status) _ _
        (λ _.
          subst (λ o. Ends (λ u. Ready ds ts session') Never (with_session o rc)) (sym parsed)
            (c, r, d, t, refl))
        (λ no. absurd cc)
  is_set_up-Answered (failed, rc) session' found h = elim h [ ]
  is_set_up-Answered (panicked, rc) session' found h = elim h [ ]

  pub is_played-Answered :
      (x : Answer × ClientState)
      → Answered p ds ts session x
      → Ends (Played ts session) Never (is_played x)
  is_played-Answered (answered status m, rc) (ok, same, (c, r, d, t, s)) =
      if_cases (Ends (Played ts session) Never) (is_ok status) _ _ (λ _. (refl, t, s))
        (λ no. absurd cc)
  is_played-Answered (failed, rc) h = elim h [ ]
  is_played-Answered (panicked, rc) h = elim h [ ]
