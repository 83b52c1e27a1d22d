-- ===== src/Rtsp/Handshake/Probe.antt =====
-- ProbeSource asks and leaves.
use o_camera_agent.Common.{ℕ, ◌≡◌, refl, Bool, false, if_cases, ap, List, [], Option, none, some}
use o_camera_agent.Common.Text.{Bytes}
use o_camera_agent.Rtsp.Codecs.{parse_codecs}
use o_camera_agent.Rtsp.Request.{Delivery, ClientState, new_rtsp_client, is_set, disconnect, close}
use o_camera_agent.Rtsp.Handshake.{
  Url, CallResult, returns, errs, panics, closed, quitting, describe, probe_source,
}
use o_camera_agent.Rtsp.Handshake.Conversation.{HasBrief, Ends, At-HasBrief, described}
use o_camera_agent.Rtsp.Handshake.Describe.{Described, describe-Ends}

-- The connection is closed and its packets are gone; what was written has no SETUP, PLAY or TEARDOWN.
abbrev pub Left : ClientState → Type 0
Left rc = (rc.connected ≡ false) × (rc.received ≡ []) × HasBrief rc

-- After a panic only the requests are left to speak of.
abbrev pub Leaves : {A : Type 0} → CallResult A × ClientState → Type 0
Leaves (returns a, rc) = Left rc
Leaves (errs, rc) = Left rc
Leaves (panics, rc) = HasBrief rc

-- Without a session there is no TEARDOWN, and so no panic.
abbrev Quits : Option ClientState → Type 0
Quits none = ⊥
Quits (some rc) = Left rc

abbrev drained : Option ClientState → Option ClientState
drained none = none
drained (some rc) = some (record rc { received = [] })

close-Quits :
    (limit : ℕ) (md5 : Bytes → Bytes) (rc : ClientState) → HasBrief rc → Quits (close limit md5 rc)
unfolding close disconnect
close-Quits limit md5 rc (s, b, e, log) =
    let no_session : is_set rc.session ≡ false = ap is_set e in
    if_cases (λ o. Quits (drained o)) rc.connected _ _
      (λ _.
        if_cases (λ o. Quits (drained o)) (is_set rc.session) _ _ (λ yes. absurd cc)
          (λ _. (refl, refl, (s, b, e, log))))
      (λ c. (c, refl, (s, b, e, log)))

errs-Leaves :
    (A : Type 0) (rc : ClientState) (o : Option ClientState)
    → Quits o
    → Leaves {A = A} (quitting errs rc o)
errs-Leaves A rc none h = elim h [ ]
errs-Leaves A rc (some rc') h = h

returns-Leaves :
    {A : Type 0} (a : A) (rc : ClientState) (o : Option ClientState)
    → Quits o
    → Leaves (quitting (returns a) rc o)
returns-Leaves a rc none h = elim h [ ]
returns-Leaves a rc (some rc') h = h

closed-Leaves :
    {A : Type 0} (limit : ℕ) (md5 : Bytes → Bytes) (f : Bytes → A)
    (x : CallResult Bytes × ClientState)
    → Ends Described HasBrief x
    → Leaves (closed limit md5 f x)
closed-Leaves limit md5 f (panics, rc) h = h
closed-Leaves limit md5 f (errs, rc) h =
    errs-Leaves _ rc (close limit md5 rc) (close-Quits limit md5 rc h)
closed-Leaves limit md5 f (returns m, rc) h =
    returns-Leaves (f m) rc (close limit md5 rc)
      (close-Quits limit md5 rc (At-HasBrief described rc tt h))

-- Whatever the camera answers, ProbeSource writes OPTIONS once or twice and DESCRIBE at most, never a
-- SETUP, PLAY or TEARDOWN, and closes its connection, also after an error.
pub probe_source-Leaves :
    (limit : ℕ) (md5 : Bytes → Bytes) (ds : List Delivery) (url : Option Url) (connects : Bool)
    → Leaves (probe_source limit md5 ds url connects)
unfolding probe_source
probe_source-Leaves limit md5 ds url connects =
    closed-Leaves limit md5 parse_codecs (describe limit md5 (new_rtsp_client ds) url connects)
      (describe-Ends limit md5 ds url connects)
