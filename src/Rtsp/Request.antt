-- ===== src/Rtsp/Request.antt =====
-- rtsp_client.go: a request to the camera, what its answer changes, and the end of the connection.
-- `md5` is md5.Sum.
pub mod Encode
pub mod Keeps
use o_camera_agent.Common.{
  ℕ, zero, suc, ◌+◌, ◌*◌, ◌/◌, ◌%◌, Bool, true, false, not, if◌then◌else◌, List, [], ◌∷◌, ◌++◌,
  Option, none, some,
}
use o_camera_agent.Common.Int.{ℤ, pos}
use o_camera_agent.Common.Text.{Bytes, codes, same, contains}
use o_camera_agent.Common.Decimal.{itoa}
use o_camera_agent.Rtsp.Request.Encode.{hex, base64}
use o_camera_agent.Rtsp.Headers.{parse_directive}
use o_camera_agent.Rtsp.Response.{Result, done, Response, read_rtsp_response}

-- What becomes of a request: Write fails, or these bytes arrive until the deadline of the answer.
pub data Delivery : Type 0 where
  write_failed : Delivery
  arrives : Bytes → Delivery

-- What sendRequest puts into a message.
pub record Request : Type 0 where
  pub request_type : Bytes
  pub uri : Bytes
  pub number : ℕ
  pub auth : Bytes
  pub content : List (Bytes × Bytes)
  pub session : Bytes

-- The client without the loop of its packets. `connected` is a socket that is not nil, `reader` what was
-- read ahead; `deliveries` is what the camera will do, and `written` what the socket was given.
pub record ClientState : Type 0 where
  pub connected : Bool
  pub reader : Bytes
  pub received : List Bytes
  pub host : Bytes
  pub port : Bytes
  pub uri : Bytes
  pub login : Bytes
  pub password : Bytes
  pub session : Bytes
  pub auth : Bytes
  pub track : List Bytes
  pub cseq : ℕ
  pub videow : ℕ
  pub videoh : ℕ
  pub is_looping : Bool
  pub deliveries : List Delivery
  pub written : List Request

unfoldable pub new_rtsp_client : List Delivery → ClientState
new_rtsp_client deliveries = record {
  connected = false;
  reader = [];
  received = [];
  host = [];
  port = [];
  uri = [];
  login = [];
  password = [];
  session = [];
  auth = [];
  track = [];
  cseq = 1;
  videow = 0;
  videoh = 0;
  is_looping = false;
  deliveries = deliveries;
  written = [];
}

-- s != ""
abbrev pub is_set : Bytes → Bool
is_set [] = false
is_set (c ∷ s) = true

abbrev crlf_bytes : Bytes
crlf_bytes = codes "\r\n"

content_text : List (Bytes × Bytes) → Bytes
content_text [] = []
content_text ((k, v) ∷ content) = k ++ codes ": " ++ v ++ crlf_bytes ++ content_text content

-- The message of a request.
unfoldable pub request_text : Request → Bytes
unfolding itoa content_text
request_text r =
    r.request_type
    ++ codes " "
    ++ r.uri
    ++ codes " RTSP/1.0\r\nUser-Agent: rtsp-client\r\nAccept: application/sdp\r\nCSeq: "
    ++ itoa r.number
    ++ crlf_bytes
    ++ (if is_set r.auth then r.auth ++ crlf_bytes else [])
    ++ content_text r.content
    ++ (if is_set r.session then codes "Session: " ++ r.session ++ crlf_bytes else [])
    ++ crlf_bytes

abbrev colon : Bytes
colon = codes ":"

-- GetMD5Hash
unfoldable pub get_md5_hash : (Bytes → Bytes) → Bytes → Bytes
unfolding hex
get_md5_hash md5 text = hex (md5 text)

-- The header that answers a challenge with this nonce and realm.
unfoldable pub digest : (Bytes → Bytes) → ClientState → Bytes → Bytes → Bytes → Bytes
unfolding get_md5_hash
digest md5 rc request_type nonce realm =
    let hs1 = get_md5_hash md5 (rc.login ++ colon ++ realm ++ colon ++ rc.password) in
    let hs2 = get_md5_hash md5 (request_type ++ colon ++ rc.uri) in
    let response = get_md5_hash md5 (hs1 ++ colon ++ nonce ++ colon ++ hs2) in
    codes "Authorization: Digest username=\""
    ++ rc.login
    ++ codes "\", realm=\""
    ++ realm
    ++ codes "\", nonce=\""
    ++ nonce
    ++ codes "\", uri=\""
    ++ rc.uri
    ++ codes "\", response=\""
    ++ response
    ++ codes "\""

-- The header behind an answer; `none` is a panic of ParseDirective.
unfoldable pub authorization : (Bytes → Bytes) → ClientState → Bytes → Bytes → Option Bytes
unfolding contains parse_directive digest base64
authorization md5 rc request_type result =
    if contains result (codes "Digest")
    then (elim (parse_directive result (codes "nonce")) [
      | none ↦ none
      | some nonce ↦ elim (parse_directive result (codes "realm")) [
        | none ↦ none
        | some realm ↦ some (digest md5 rc request_type nonce realm)
      ]
    ])
    else if contains result (codes "Basic")
    then some (codes "Authorization: Basic " ++ base64 (rc.login ++ colon ++ rc.password))
    else some rc.auth

-- What a call returns, with the client that it leaves. A panic ends the program.
pub data Answer : Type 0 where
  answered : ℤ → Bytes → Answer
  failed : Answer
  panicked : Answer

unfoldable pub check_auth : (Bytes → Bytes) → ClientState → Bytes → ℤ → Bytes → Answer × ClientState
unfolding authorization
check_auth md5 rc request_type status result =
    if is_set rc.auth
    then (answered status result, rc)
    else (elim (authorization md5 rc request_type result) [
      | none ↦ (panicked, rc)
      | some auth ↦ (answered status result, record rc { auth = auth })
    ])

-- From the result of readRTSPResponse on. A read that fails leaves nothing in the reader.
unfoldable pub take_response :
    (Bytes → Bytes) → ClientState → Bytes → Result Response → Answer × ClientState
unfolding check_auth
take_response md5 rc request_type (done r) =
    check_auth md5 (record rc { reader = r.rest }) request_type r.status r.text
take_response md5 rc request_type Result.failed = (failed, record rc { reader = [] })
take_response md5 rc request_type Result.panicked = (panicked, record rc { reader = [] })
take_response md5 rc request_type Result.out_of_fuel = (failed, record rc { reader = [] })

-- The message is written, and the camera does what comes next in `deliveries`.
unfoldable pub exchange :
    ℕ → (Bytes → Bytes) → ClientState → Bytes → List Delivery → Answer × ClientState
unfolding read_rtsp_response take_response
exchange limit md5 rc request_type [] =
    take_response md5 rc request_type (read_rtsp_response limit rc.reader)
exchange limit md5 rc request_type (write_failed ∷ later) =
    (failed, record rc { deliveries = later })
exchange limit md5 rc request_type (arrives bytes ∷ later) =
    take_response md5 (record rc { deliveries = later }) request_type
      (read_rtsp_response limit (rc.reader ++ bytes))

-- The next number, and the request in the log.
unfoldable pub numbered : ClientState → Bytes → Bytes → List (Bytes × Bytes) → ClientState
numbered rc request_type uri content =
    let number = suc rc.cseq in
    record rc {
      cseq = number;
      written =
          rc.written
          ++ record {
            request_type = request_type;
            uri = uri;
            number = number;
            auth = rc.auth;
            content = content;
            session = rc.session;
          }
            ∷ [];
    }

unfoldable pub send_request :
    ℕ → (Bytes → Bytes) → ClientState → Bytes → Bytes → List (Bytes × Bytes) → Answer × ClientState
unfolding exchange numbered
send_request limit md5 rc request_type uri content =
    let sent = numbered rc request_type uri content in
    if rc.connected then exchange limit md5 sent request_type sent.deliveries else (failed, rc)

abbrev pub socket_closed : ClientState → ClientState
socket_closed rc = record rc { connected = false; reader = [] }

abbrev after_teardown : Answer × ClientState → Option ClientState
after_teardown (panicked, rc) = none
after_teardown (answered status result, rc) = some (socket_closed rc)
after_teardown (failed, rc) = some (socket_closed rc)

-- The socket is closed after a TEARDOWN, unless its answer ends the program.
unfoldable pub disconnect : ℕ → (Bytes → Bytes) → ClientState → Option ClientState
unfolding send_request
disconnect limit md5 rc =
    if rc.connected
    then (if is_set rc.session
        then after_teardown (send_request limit md5 rc (codes "TEARDOWN") rc.uri [])
        else some (socket_closed rc))
    else some rc

-- Close. The channel is drained at the end.
unfoldable pub close : ℕ → (Bytes → Bytes) → ClientState → Option ClientState
unfolding disconnect
close limit md5 rc = elim (disconnect limit md5 rc) [
  | none ↦ none
  | some rc' ↦ some (record rc' { received = [] })
]
