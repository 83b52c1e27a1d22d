-- ===== src/Rtsp/Handshake/Conversation.antt =====
-- The requests that a conversation may write, as a step relation, and what one request adds to it.
use o_camera_agent.Common.{ℕ, suc, ◌≡◌, sym, ap, ◌∙◌, subst, true, List, [], ◌∷◌, ◌++◌}
use o_camera_agent.Common.Text.{Bytes, codes}
use o_camera_agent.Rtsp.Media.{}
use o_camera_agent.Rtsp.Request.{Request, ClientState, is_set, numbered, send_request}
use o_camera_agent.Rtsp.Request.Keeps.{send_request-Keeps}
use o_camera_agent.Rtsp.Handshake.{CallResult, returns, errs, panics, transport, next}

-- How far a conversation has come. From the first SETUP on, with the tracks of the description.
pub data Stage : Type 0 where
  opened asked asked_again described : Stage
  set_up_one set_up_both playing : List Bytes → Stage

-- The requests that lead from stage to stage, by type, address and header.
pub data Call (uri : Bytes) : Stage → Stage → Bytes → Bytes → List (Bytes × Bytes) → Type 0 where
  asks : Call uri opened asked (codes "OPTIONS") uri []
  asks_again : Call uri asked asked_again (codes "OPTIONS") uri []
  describe_once : Call uri asked described (codes "DESCRIBE") uri []
  describe_twice : Call uri asked_again described (codes "DESCRIBE") uri []
  set_up_first :
      (t : Bytes) (ts : List Bytes)
      → Call uri described
          (set_up_one (t ∷ ts))
          (codes "SETUP")
          (uri ++ codes "/" ++ t)
          (transport (codes "0-1"))
  set_up_second :
      (t t' : Bytes) (ts : List Bytes)
      → Call uri
          (set_up_one (t ∷ t' ∷ ts))
          (set_up_both (t ∷ t' ∷ ts))
          (codes "SETUP")
          (uri ++ codes "/" ++ t')
          (transport (codes "2-3"))
  play_one :
      (t : Bytes)
      → Call uri
          (set_up_one (t ∷ []))
          (playing (t ∷ []))
          (codes "PLAY")
          uri
          ((codes "Range", codes "npt=0-") ∷ [])
  play_both :
      (ts : List Bytes)
      → Call uri
          (set_up_both ts)
          (playing ts)
          (codes "PLAY")
          uri
          ((codes "Range", codes "npt=0-") ∷ [])

-- Up to the first SETUP there is no session.
abbrev pub IsNew : Stage → Bytes → Type 0
IsNew opened session = session ≡ []
IsNew asked session = session ≡ []
IsNew asked_again session = session ≡ []
IsNew described session = session ≡ []
IsNew (set_up_one ts) session = Unit
IsNew (set_up_both ts) session = Unit
IsNew (playing ts) session = Unit

-- A log with its stage, the number of its last request, and that request's authorization: numbers
-- follow each other from 2 on, an authorization stays once it is set, and there is no session up to the
-- first SETUP.
pub data Conversation (uri : Bytes) : Stage → ℕ → Bytes → List Request → Type 0 where
  nothing_yet : Conversation uri opened 1 [] []
  later :
      {s s' : Stage} {n : ℕ} {a auth : Bytes} {log : List Request} {m u : Bytes}
      {content : List (Bytes × Bytes)} (session : Bytes)
      → Conversation uri s n a log
      → Call uri s s' m u content
      → (is_set a ≡ true → auth ≡ a)
      → IsNew s session
      → Conversation uri s' (suc n) auth (
          log
          ++ record {
            request_type = m;
            uri = u;
            number = suc n;
            auth = auth;
            content = content;
            session = session;
          }
            ∷ [])

-- The client's log is a conversation that has come to this stage, on a connection.
abbrev pub At : Stage → ClientState → Type 0
At s rc =
    (rc.connected ≡ true)
    × IsNew s rc.session
    × ((a : Bytes) × Conversation rc.uri s rc.cseq a rc.written × (is_set a ≡ true → rc.auth ≡ a))

Call-IsNew :
    (uri : Bytes) (s s' : Stage) (m u : Bytes) (content : List (Bytes × Bytes)) (session : Bytes)
    → Call uri s s' m u content
    → IsNew s session
    → IsNew s' session
Call-IsNew uri s s' m u content session asks h = h
Call-IsNew uri s s' m u content session asks_again h = h
Call-IsNew uri s s' m u content session describe_once h = h
Call-IsNew uri s s' m u content session describe_twice h = h
Call-IsNew uri s s' m u content session (set_up_first t ts) h = tt
Call-IsNew uri s s' m u content session (set_up_second t t' ts) h = tt
Call-IsNew uri s s' m u content session (play_one t) h = tt
Call-IsNew uri s s' m u content session (play_both ts) h = tt

pub send_request-At :
    (limit : ℕ) (md5 : Bytes → Bytes) (rc : ClientState) (s s' : Stage) (m u : Bytes)
    (content : List (Bytes × Bytes))
    → At s rc
    → Call rc.uri s s' m u content
    → At s' (send_request limit md5 rc m u content).1
unfolding numbered
send_request-At limit md5 rc s s' m u content (h, new, (a, log, stays)) call =
    let rc' = (send_request limit md5 rc m u content).1 in
    let (e, auth) = send_request-Keeps limit md5 rc m u content h in
    (
      ap (λ f. f.connected) e ∙ h,
      subst (λ f. IsNew s' f.session) (sym e)
          (Call-IsNew rc.uri s s' m u content rc.session call new),
      (
        rc.auth,
        subst (λ f. Conversation f.uri s' f.cseq rc.auth f.written) (sym e)
            (later rc.session log call stays new),
        auth,
      ),
    )

-- What holds of the client behind a call: `Q` if it returns, `P` if it does not.
abbrev pub Ends :
    {A : Type 0}
    → (A → ClientState → Type 0)
    → (ClientState → Type 0)
    → CallResult A × ClientState
    → Type 0
Ends Q P (returns a, rc) = Q a rc
Ends Q P (errs, rc) = P rc
Ends Q P (panics, rc) = P rc

pub Ends-next :
    {A B : Type 0} (R : A → ClientState → Type 0) (Q : B → ClientState → Type 0)
    (P : ClientState → Type 0) (f : A → ClientState → CallResult B × ClientState)
    (x : CallResult A × ClientState)
    → Ends R P x
    → ((a : A) (rc : ClientState) → R a rc → Ends Q P (f a rc))
    → Ends Q P (next f x)
Ends-next R Q P f (returns a, rc) h k = k a rc h
Ends-next R Q P f (errs, rc) h k = h
Ends-next R Q P f (panics, rc) h k = h

-- The log is a conversation, however far it has come.
abbrev pub HasConversation : ClientState → Type 0
HasConversation rc = (s : Stage) × (n : ℕ) × (a : Bytes) × Conversation rc.uri s n a rc.written

pub At-HasConversation : (s : Stage) (rc : ClientState) → At s rc → HasConversation rc
At-HasConversation s rc (h, new, (a, log, stays)) = (s, rc.cseq, a, log)

-- It has not come to a SETUP, and there is no session.
abbrev pub IsBrief : Stage → Type 0
IsBrief opened = Unit
IsBrief asked = Unit
IsBrief asked_again = Unit
IsBrief described = Unit
IsBrief _ = ⊥

abbrev pub HasBrief : ClientState → Type 0
HasBrief rc =
    (s : Stage) × IsBrief s
    × (rc.session ≡ [])
    × ((n : ℕ) × (a : Bytes) × Conversation rc.uri s n a rc.written)

brief_stage : (s : Stage) (session : Bytes) → IsBrief s → IsNew s session → session ≡ []
brief_stage opened session b h = h
brief_stage asked session b h = h
brief_stage asked_again session b h = h
brief_stage described session b h = h
brief_stage (set_up_one ts) session b h = elim b [ ]
brief_stage (set_up_both ts) session b h = elim b [ ]
brief_stage (playing ts) session b h = elim b [ ]

pub At-HasBrief : (s : Stage) (rc : ClientState) → IsBrief s → At s rc → HasBrief rc
At-HasBrief s rc b (h, new, (a, log, stays)) =
    (s, b, brief_stage s rc.session b new, (rc.cseq, a, log))

pub Ends-weaken :
    {A : Type 0} (Q : A → ClientState → Type 0) (x : CallResult A × ClientState)
    → Ends Q HasBrief x
    → Ends Q HasConversation x
Ends-weaken Q (returns a, rc) h = h
Ends-weaken Q (errs, rc) (s, b, e, (n, a, log)) = (s, n, a, log)
Ends-weaken Q (panics, rc) (s, b, e, (n, a, log)) = (s, n, a, log)
