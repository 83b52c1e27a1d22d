-- ===== src/Rtsp/Handshake.antt =====
-- rtsp_client.go: the conversation with a camera, from its address to PLAY. The camera's side is the list
-- `deliveries` of the client.
pub mod Conversation
pub mod Describe
pub mod Order
pub mod Probe
pub mod Answers
pub mod Success
use o_camera_agent.Common.{
  Bool, true, false, if◌then◌else◌, ◌==◌, List, [], ◌∷◌, ◌++◌, Option, none, some, ℕ,
}
use o_camera_agent.Common.Int.{ℤ, pos, negsuc}
use o_camera_agent.Common.Text.{Bytes, codes}
use o_camera_agent.Common.Split.{split}
use o_camera_agent.Rtsp.Headers.{parse_session}
use o_camera_agent.Source.Codecs.{SourceInfo}
use o_camera_agent.Rtsp.Codecs.{parse_codecs}
use o_camera_agent.Rtsp.Media.{parse_media}
use o_camera_agent.Rtsp.Request.{
  Delivery, ClientState, Answer, answered, failed, panicked, new_rtsp_client, is_set, send_request,
  close,
}

-- What url.Parse gives. A name or password that is missing is empty.
pub record Url : Type 0 where
  pub host : Bytes
  pub username : Bytes
  pub password : Bytes
  pub path : Bytes
  pub raw_query : Bytes

-- Host and port.
abbrev host_port : List Bytes → Bytes × Bytes
host_port [] = ([], codes "554")
host_port (host ∷ port ∷ []) = (host, port)
host_port (host ∷ rest) = (host, codes "554")

unfoldable pub with_url : ClientState → Url → ClientState
unfolding split
with_url rc u =
    let (host, port) = host_port (split b':' u.host) in
    record rc {
      host = host;
      port = port;
      login = u.username;
      password = u.password;
      uri =
          codes "rtsp://"
          ++ host
          ++ codes ":"
          ++ port
          ++ u.path
          ++ (if is_set u.raw_query then codes "?" ++ u.raw_query else []);
    }

-- What a call returns: a value, an error, or a panic.
pub data CallResult (A : Type 0) : Type 0 where
  returns : A → CallResult A
  errs : CallResult A
  panics : CallResult A

-- Connect: whether the dial comes to a connection.
abbrev with_connection : Bool → ClientState → ClientState
with_connection connects rc = if connects then record rc { connected = true; reader = [] } else rc

-- Whether a status is 200.
abbrev pub is_ok : ℤ → Bool
is_ok (pos n) = n == 200
is_ok (negsuc n) = false

-- Whether a first OPTIONS is enough; `none` is a panic.
abbrev pub is_accepted : Answer → Option Bool
is_accepted (answered status message) = some (is_ok status)
is_accepted failed = some false
is_accepted panicked = none

abbrev pub options : ℕ → (Bytes → Bytes) → ClientState → Answer × ClientState
options limit md5 rc = send_request limit md5 rc (codes "OPTIONS") rc.uri []

abbrev second_options : Answer × ClientState → CallResult Unit × ClientState
second_options (panicked, rc) = (panics, rc)
second_options (answered status message, rc) = (returns tt, rc)
second_options (failed, rc) = (returns tt, rc)

abbrev first_options : ℕ → (Bytes → Bytes) → Answer × ClientState → CallResult Unit × ClientState
first_options limit md5 (answer, rc) = elim (is_accepted answer) [
  | none ↦ (panics, rc)
  | some enough ↦
      let again = second_options (options limit md5 rc) in
      if enough then (returns tt, rc) else again
]

-- Phase 1.
unfoldable pub ask_options : ℕ → (Bytes → Bytes) → ClientState → CallResult Unit × ClientState
unfolding send_request
ask_options limit md5 rc = first_options limit md5 (options limit md5 rc)

-- What is left to do after a phase.
abbrev pub next :
    {A B : Type 0}
    → (A → ClientState → CallResult B × ClientState)
    → CallResult A × ClientState
    → CallResult B × ClientState
next f (returns a, rc) = f a rc
next f (errs, rc) = (errs, rc)
next f (panics, rc) = (panics, rc)

abbrev described_answer : Answer × ClientState → CallResult Bytes × ClientState
described_answer (answered status message, rc) =
    if is_ok status then (returns message, rc) else (errs, rc)
described_answer (failed, rc) = (errs, rc)
described_answer (panicked, rc) = (panics, rc)

-- Phase 2.
unfoldable pub ask_describe : ℕ → (Bytes → Bytes) → ClientState → CallResult Bytes × ClientState
unfolding send_request
ask_describe limit md5 rc =
    described_answer (send_request limit md5 rc (codes "DESCRIBE") rc.uri [])

-- describe
unfoldable pub describe :
    ℕ → (Bytes → Bytes) → ClientState → Option Url → Bool → CallResult Bytes × ClientState
unfolding with_url ask_options ask_describe
describe limit md5 rc none connects = (errs, rc)
describe limit md5 rc (some u) connects =
    let rc' = with_connection connects (with_url rc u) in
    let later = next (λ a. ask_describe limit md5) (ask_options limit md5 rc') in
    if connects then later else (errs, rc')

-- The deferred Close.
abbrev pub quitting :
    {A : Type 0} → CallResult A → ClientState → Option ClientState → CallResult A × ClientState
quitting o rc none = (panics, rc)
quitting o rc (some rc') = (o, rc')

abbrev pub closed :
    {A : Type 0}
    → ℕ
    → (Bytes → Bytes)
    → (Bytes → A)
    → CallResult Bytes × ClientState
    → CallResult A × ClientState
closed limit md5 f (panics, rc) = (panics, rc)
closed limit md5 f (errs, rc) = quitting errs rc (close limit md5 rc)
closed limit md5 f (returns m, rc) = quitting (returns (f m)) rc (close limit md5 rc)

-- ProbeSource
unfoldable pub probe_source :
    ℕ → (Bytes → Bytes) → List Delivery → Option Url → Bool → CallResult SourceInfo × ClientState
unfolding describe close parse_codecs
probe_source limit md5 deliveries url connects =
    closed limit md5 parse_codecs (describe limit md5 (new_rtsp_client deliveries) url connects)

abbrev with_session : Option Bytes → ClientState → CallResult Unit × ClientState
with_session none rc = (panics, rc)
with_session (some s) rc = (returns tt, record rc { session = s })

abbrev is_set_up : Answer × ClientState → CallResult Unit × ClientState
is_set_up (answered status message, rc) =
    if is_ok status then with_session (parse_session message) rc else (returns tt, rc)
is_set_up (failed, rc) = (errs, rc)
is_set_up (panicked, rc) = (panics, rc)

abbrev pub transport : Bytes → List (Bytes × Bytes)
transport channels = (codes "Transport", codes "RTP/AVP/TCP;unicast;interleaved=" ++ channels) ∷ []

-- Phase 3, for one track.
unfoldable pub set_up :
    ℕ → (Bytes → Bytes) → Bytes → Bytes → ClientState → CallResult Unit × ClientState
unfolding send_request parse_session
set_up limit md5 track channels rc =
    is_set_up (
      send_request limit md5 rc (codes "SETUP") (rc.uri ++ codes "/" ++ track) (transport channels))

abbrev is_played : Answer × ClientState → CallResult Unit × ClientState
is_played (answered status message, rc) =
    if is_ok status then (returns tt, record rc { is_looping = true }) else (errs, rc)
is_played (failed, rc) = (errs, rc)
is_played (panicked, rc) = (panics, rc)

-- Phase 4.
unfoldable pub play : ℕ → (Bytes → Bytes) → ClientState → CallResult Unit × ClientState
unfolding send_request
play limit md5 rc =
    is_played
      (send_request limit md5 rc (codes "PLAY") rc.uri ((codes "Range", codes "npt=0-") ∷ []))

-- The tracks are set up, at most two of them, and played.
unfoldable pub play_tracks :
    ℕ → (Bytes → Bytes) → List Bytes → ClientState → CallResult Unit × ClientState
unfolding set_up play
play_tracks limit md5 [] rc = (errs, rc)
play_tracks limit md5 (t ∷ []) rc = next (λ a. play limit md5) (set_up limit md5 t (codes "0-1") rc)
play_tracks limit md5 (t ∷ t' ∷ ts) rc =
    next (λ a rc'. next (λ b. play limit md5) (set_up limit md5 t' (codes "2-3") rc'))
      (set_up limit md5 t (codes "0-1") rc)

abbrev pub after_describe :
    ℕ → (Bytes → Bytes) → Bytes → ClientState → CallResult Unit × ClientState
after_describe limit md5 message rc =
    let (track, rc') = parse_media rc message in
    play_tracks limit md5 track (record rc' { track = track })

-- Client
unfoldable pub client :
    ℕ → (Bytes → Bytes) → ClientState → Option Url → Bool → CallResult Unit × ClientState
unfolding describe parse_media play_tracks
client limit md5 rc url connects =
    next (after_describe limit md5) (describe limit md5 rc url connects)
