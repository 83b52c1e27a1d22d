-- ===== src/Tests/Rtsp.antt =====
-- A camera that asks for a Digest authorization and has two tracks.
use o_camera_agent.Common.{
  ℕ, ◌≡◌, ◌≢◌, refl, not, ◌&&◌, ◌==◌, Bool, true, List, [], ◌∷◌, ◌++◌, map, none, some, arith, All,
  length,
}
use o_camera_agent.Common.Int.{pos}
use o_camera_agent.Common.Text.{Bytes, codes, has_prefix, index, contains}
use o_camera_agent.Common.Split.{Lacks}
use o_camera_agent.Rtsp.Delivery.{Frame, encode}
use o_camera_agent.Rtsp.Headers.{parse_directive, parse_session, parse_rtsp_status_code}
use o_camera_agent.Rtsp.Headers.Session.{IsOther, present, parse_session-header, session_line, crlf}
use o_camera_agent.Rtsp.Headers.Directive.{unclosed, parse_directive_lem, key, value_text}
use o_camera_agent.Rtsp.Response.{done, content_length, read_rtsp_response}
use o_camera_agent.Rtsp.Response.Reading.{Comes, Ends as Pieces, read_rtsp_response-Comes}
use o_camera_agent.Rtsp.Response.RoundTrip.{
  length_in, IsHeader, expected, response_text, read_rtsp_response-text,
}
use o_camera_agent.Rtsp.Request.{Delivery, arrives, ClientState, new_rtsp_client}
use o_camera_agent.Rtsp.Handshake.{
  Url, client, describe, ask_options, ask_describe, with_url, play_tracks, set_up, play,
  probe_source,
}
use o_camera_agent.Rtsp.Handshake.Conversation.{HasConversation, Ends}
use o_camera_agent.Rtsp.Handshake.Order.{Plays, client-Ends}
use o_camera_agent.Rtsp.Handshake.Probe.{Leaves, probe_source-Leaves}
use o_camera_agent.Rtsp.Media.{}

abbrev pub url : Url
url = record {
  host = codes "10.0.0.9";
  username = codes "user";
  password = codes "pw";
  path = codes "/live";
  raw_query = [];
}

abbrev description : List Bytes
description =
    codes "v=0"
    ∷ codes "m=video 0 RTP/AVP 96"
    ∷ codes "a=x-dimensions:1280,720"
    ∷ codes "a=control:rtsp://10.0.0.9/live/trackID=0"
    ∷ codes "m=audio 0 RTP/AVP 8"
    ∷ codes "a=control:trackID=1"
    ∷ []

abbrev unauthorized : Bytes
unauthorized = crlf (
    codes "RTSP/1.0 401 Unauthorized"
    ∷ codes "WWW-Authenticate: Digest realm=\"cam\", nonce=\"77\""
    ∷ []
    ∷ [])

abbrev ok_lines : List Bytes → Bytes → Bytes
ok_lines lines body = crlf (codes "RTSP/1.0 200 OK" ∷ lines) ++ (crlf ([] ∷ []) ++ body)

abbrev camera : List Delivery
camera =
    arrives unauthorized
    ∷ arrives (ok_lines [] [])
    ∷ arrives (ok_lines (codes "Content-Length: 136" ∷ []) (crlf description))
    ∷ arrives (ok_lines (codes "Session: 42;timeout=60" ∷ []) [])
    ∷ arrives (ok_lines (codes "Session: 42;timeout=60" ∷ []) [])
    ∷ arrives (ok_lines [] [])
    ∷ []

abbrev pub limit : ℕ
limit = 1000000

-- A digest for the tests.
abbrev pub md5 : Bytes → Bytes
md5 text = length text ∷ []

size : length (crlf description) ≡ 136
size = refl

abbrev outcome : ClientState
outcome = (client limit md5 (new_rtsp_client camera) (some url) true).1

-- Six requests; the second OPTIONS carries the authorization, PLAY the session.
requests :
    map (λ r. r.request_type) outcome.written
    ≡ codes "OPTIONS"
      ∷ codes "OPTIONS"
      ∷ codes "DESCRIBE"
      ∷ codes "SETUP"
      ∷ codes "SETUP"
      ∷ codes "PLAY"
      ∷ []
unfolding client describe ask_options ask_describe with_url play_tracks set_up play new_rtsp_client
requests = refl

played :
    (outcome.is_looping ≡ true)
    × (outcome.session ≡ codes "42")
    × (outcome.track ≡ codes "trackID=0" ∷ codes "trackID=1" ∷ [])
    × (outcome.videow ≡ 1280)
    × (outcome.videoh ≡ 720)
    × (outcome.uri ≡ codes "rtsp://10.0.0.9:554/live")
unfolding client describe ask_options ask_describe with_url play_tracks set_up play new_rtsp_client
played = (refl, refl, refl, refl, refl, refl)

client-Ends_example :
    Ends
      (Plays (describe limit md5 (new_rtsp_client camera) (some url) true))
      HasConversation
      (client limit md5 (new_rtsp_client camera) (some url) true)
client-Ends_example = client-Ends limit md5 camera (some url) true

probe_source-Leaves_example : Leaves (probe_source limit md5 camera (some url) true)
probe_source-Leaves_example = probe_source-Leaves limit md5 camera (some url) true

read_rtsp_response-Comes_example :
    Comes (Pieces unauthorized) (read_rtsp_response limit unauthorized)
read_rtsp_response-Comes_example = read_rtsp_response-Comes limit unauthorized

abbrev pub frames : List Frame
frames = record { channel = 0; payload = 1 ∷ 2 ∷ [] } ∷ []

abbrev pub options_ok : List Bytes
options_ok = codes "CSeq: 2" ∷ codes "content-length:  2 " ∷ []

pub no_nil : (c : ℕ) (s : Bytes) → c ∷ s ≢ []
no_nil c s e = cc

abbrev pub lacks : ℕ → Bytes → Bool
lacks b [] = true
lacks b (c ∷ s) = not (c == b) && lacks b s

pub Lacks-lacks : (b : ℕ) (s : Bytes) → lacks b s ≡ true → Lacks b s
Lacks-lacks b [] h = tt
Lacks-lacks b (c ∷ s) h = (ground (arith, h), Lacks-lacks b s (ground (arith, h)))

pub options_ok-IsHeader : All IsHeader options_ok
options_ok-IsHeader = (
  record { not_nil = no_nil _ _; one_line = Lacks-lacks b'\n' (codes "CSeq: 2") refl },
  (
    record {
      not_nil = no_nil _ _;
      one_line = Lacks-lacks b'\n' (codes "content-length:  2 ") refl;
    },
    tt,
  ),
)

pub ok_is_rtsp : has_prefix (codes "RTSP/1.0 200 OK\r\n") (codes "RTSP/") ≡ true
unfolding has_prefix
ok_is_rtsp = refl

pub two_bytes : length_in options_ok (pos 0) ≡ pos 2
unfolding content_length
two_bytes = refl

ok_200 : parse_rtsp_status_code (codes "RTSP/1.0 200 OK\r\n") ≡ pos 200
unfolding parse_rtsp_status_code
ok_200 = refl

read_rtsp_response-text_example :
    read_rtsp_response limit
      (encode frames ++ (response_text (codes "RTSP/1.0 200 OK") options_ok (1 ∷ 2 ∷ []) ++ 9 ∷ []))
    ≡ done (expected (codes "RTSP/1.0 200 OK") options_ok (1 ∷ 2 ∷ []) (9 ∷ []))
read_rtsp_response-text_example =
    read_rtsp_response-text limit (codes "RTSP/1.0 200 OK") options_ok (1 ∷ 2 ∷ []) (9 ∷ [])
      ok_is_rtsp (Lacks-lacks b'\n' (codes "RTSP/1.0 200 OK") refl) options_ok-IsHeader two_bytes
      (omega arith) frames

status_unnamed : IsOther (codes "RTSP/1.0 200 OK")
unfolding contains
status_unnamed = record {
  unnamed = refl;
  one_line = Lacks-lacks b'\r' (codes "RTSP/1.0 200 OK") refl;
}

parse_session-header_example :
    parse_session (
      crlf (codes "RTSP/1.0 200 OK" ∷ [])
      ++ (session_line (codes " 42") (present (codes "timeout=60")) ++ (b'\r' ∷ b'\n' ∷ [])))
    ≡ some (codes "42")
parse_session-header_example =
    parse_session-header (codes "RTSP/1.0 200 OK" ∷ []) (codes " 42") (present (codes "timeout=60"))
      [] (status_unnamed, tt)
      (Lacks-lacks b'\r' (session_line (codes " 42") (present (codes "timeout=60"))) refl)
      (Lacks-lacks b';' (codes " 42") refl)

nonce_at_seven : index (codes "Digest nonce=\"77") (codes "nonce=\"") ≡ some 7
unfolding index
nonce_at_seven = refl

parse_directive_lem_example :
    parse_directive
      (codes "Digest " ++ (key (codes "nonce") ++ value_text (unclosed (codes "77"))))
      (codes "nonce")
    ≡ none
parse_directive_lem_example =
    parse_directive_lem (codes "Digest ") (codes "nonce") (unclosed (codes "77")) nonce_at_seven
      (Lacks-lacks b'"' (codes "77") refl)
