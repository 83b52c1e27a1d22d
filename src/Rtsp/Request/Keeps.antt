-- ===== src/Rtsp/Request/Keeps.antt =====
-- What a request leaves as it was in the client, and what it writes.
use o_camera_agent.Common.{
  ℕ, ◌≡◌, refl, sym, ap, inl, inr, Bool, true, Bool-cases, Option-cases, subst, if◌then◌else◌, List,
  [], ◌∷◌, ◌++◌,
}
use o_camera_agent.Common.Int.{ℤ}
use o_camera_agent.Common.Text.{Bytes}
use o_camera_agent.Rtsp.Response.{Result, done, Response, read_rtsp_response}
use o_camera_agent.Rtsp.Request.{
  Delivery, write_failed, arrives, Request, ClientState, failed, is_set, authorization, check_auth,
  take_response, exchange, numbered, send_request,
}

-- The fields that no answer changes.
pub record Fixed : Type 0 where
  pub connected : Bool
  pub written : List Request
  pub cseq : ℕ
  pub uri : Bytes
  pub session : Bytes
  pub track : List Bytes
  pub is_looping : Bool

abbrev pub fixed : ClientState → Fixed
fixed rc = record {
  connected = rc.connected;
  written = rc.written;
  cseq = rc.cseq;
  uri = rc.uri;
  session = rc.session;
  track = rc.track;
  is_looping = rc.is_looping;
}

-- A header of authorization that is set stays.
abbrev pub Keeps : ClientState → ClientState → Type 0
Keeps rc rc' = (fixed rc' ≡ fixed rc) × (is_set rc.auth ≡ true → rc'.auth ≡ rc.auth)

check_auth-Keeps :
    (md5 : Bytes → Bytes) (rc : ClientState) (m : Bytes) (status : ℤ) (text : Bytes)
    → Keeps rc (check_auth md5 rc m status text).1
unfolding check_auth
check_auth-Keeps md5 rc m status text = elim (Bool-cases (is_set rc.auth)) [
  | inl e ↦ rw (e, check_auth) (refl, λ h. refl)
  | inr e ↦ elim (Option-cases (authorization md5 rc m text)) [
    | inl e' ↦ rw (e, check_auth) (rw e' (refl, λ h. refl))
    | inr (auth, e') ↦ rw (e, check_auth) (rw e' (refl, λ h. cc))
  ]
]

take_response-Keeps :
    (md5 : Bytes → Bytes) (rc : ClientState) (m : Bytes) (r : Result Response)
    → Keeps rc (take_response md5 rc m r).1
unfolding take_response
take_response-Keeps md5 rc m (done r) =
    check_auth-Keeps md5 (record rc { reader = r.rest }) m r.status r.text
take_response-Keeps md5 rc m Result.failed = (refl, λ h. refl)
take_response-Keeps md5 rc m Result.panicked = (refl, λ h. refl)
take_response-Keeps md5 rc m Result.out_of_fuel = (refl, λ h. refl)

exchange-Keeps :
    (limit : ℕ) (md5 : Bytes → Bytes) (rc : ClientState) (m : Bytes) (ds : List Delivery)
    → Keeps rc (exchange limit md5 rc m ds).1
unfolding exchange
exchange-Keeps limit md5 rc m [] = take_response-Keeps md5 rc m (read_rtsp_response limit rc.reader)
exchange-Keeps limit md5 rc m (write_failed ∷ ds) = (refl, λ h. refl)
exchange-Keeps limit md5 rc m (arrives bytes ∷ ds) =
    take_response-Keeps md5 (record rc { deliveries = ds }) m
      (read_rtsp_response limit (rc.reader ++ bytes))

pub send_request-connected :
    (limit : ℕ) (md5 : Bytes → Bytes) (rc : ClientState) (m uri : Bytes)
    (content : List (Bytes × Bytes))
    → rc.connected ≡ true
    → send_request limit md5 rc m uri content
      ≡ exchange limit md5 (numbered rc m uri content) m rc.deliveries
unfolding send_request numbered
send_request-connected limit md5 rc m uri content h =
    ap
      (λ b.
        if b then exchange limit md5 (numbered rc m uri content) m rc.deliveries else (failed, rc))
      h

-- Once the header of authorization is set, no request changes it, whatever the camera answers: the
-- header of every later request, of any type, is the same text. A request on a connection changes
-- nothing but this header, the number and the log.
pub send_request-Keeps :
    (limit : ℕ) (md5 : Bytes → Bytes) (rc : ClientState) (m uri : Bytes)
    (content : List (Bytes × Bytes))
    → rc.connected ≡ true
    → Keeps (numbered rc m uri content) (send_request limit md5 rc m uri content).1
send_request-Keeps limit md5 rc m uri content h =
    subst (λ x. Keeps (numbered rc m uri content) x.1)
      (sym (send_request-connected limit md5 rc m uri content h))
      (exchange-Keeps limit md5 (numbered rc m uri content) m rc.deliveries)
