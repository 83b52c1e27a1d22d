-- ===== src/Tests/Camera.antt =====
-- A camera that answers at once, with two tracks.
use o_camera_agent.Common.{
  ◌≡◌, ◌≢◌, refl, inl, inr, true, List, [], ◌∷◌, map, none, some, arith, All,
}
use o_camera_agent.Common.Text.{Bytes, codes, index, contains}
use o_camera_agent.Rtsp.Headers.{parse_session, parse_rtsp_status_code}
use o_camera_agent.Rtsp.Headers.Session.{crlf}
use o_camera_agent.Rtsp.Response.{content_length}
use o_camera_agent.Rtsp.Response.RoundTrip.{IsHeader}
use o_camera_agent.Rtsp.Media.{control_prefix, parse_media}
use o_camera_agent.Rtsp.Media.Tracks.{
  MediaLine, track, track_at, other, media_text, tracks, IsMediaLine, parse_media-tracks,
}
use o_camera_agent.Rtsp.Request.{new_rtsp_client}
use o_camera_agent.Rtsp.Handshake.{client}
use o_camera_agent.Rtsp.Handshake.Conversation.{Ends}
use o_camera_agent.Rtsp.Handshake.Answers.{
  CameraReply, reply_text, delivery, IsReply, Never, Played,
}
use o_camera_agent.Rtsp.Handshake.Success.{client-succeeds}
use o_camera_agent.Tests.Rtsp.{lacks, url, limit, md5, Lacks-lacks, no_nil, ok_is_rtsp}

abbrev ok_line : Bytes
ok_line = codes "RTSP/1.0 200 OK"

abbrev plain : CameraReply
plain = record {
  frames = record { channel = 0; payload = 7 ∷ 8 ∷ [] } ∷ [];
  status_line = ok_line;
  headers = [];
  body = [];
}

abbrev session_reply : CameraReply
session_reply = record plain { headers = codes "CSeq: 4" ∷ codes "Session: 42" ∷ [] }

abbrev second_reply : CameraReply
second_reply = record plain { headers = codes "CSeq: 5" ∷ codes "Session: 43" ∷ [] }

abbrev body_lines : List MediaLine
body_lines =
    other (codes "v=0")
    ∷ other (codes "a=control:*")
    ∷ track_at (codes "rtsp://cam") (codes "t0")
    ∷ track (codes "t1")
    ∷ []

abbrev described_reply : CameraReply
described_reply = record {
  frames = [];
  status_line = ok_line;
  headers = codes "Content-Length: 57" ∷ [];
  body = crlf (map media_text body_lines);
}

abbrev lines : List MediaLine
lines = other ok_line ∷ other (codes "Content-Length: 57") ∷ other [] ∷ body_lines

plain-IsReply : IsReply limit plain
unfolding parse_rtsp_status_code contains
plain-IsReply = record {
  is_rtsp = ok_is_rtsp;
  one_line = Lacks-lacks b'\n' ok_line refl;
  headers = tt;
  announced = refl;
  fits = omega arith;
  status = refl;
  no_digest = refl;
  no_basic = refl;
}

IsHeader-line : (l : Bytes) → l ≢ [] → lacks b'\n' l ≡ true → IsHeader l
IsHeader-line l n h = record { not_nil = n; one_line = Lacks-lacks b'\n' l h }

session_reply-IsReply : IsReply limit session_reply
unfolding parse_rtsp_status_code contains content_length
session_reply-IsReply = record {
  is_rtsp = ok_is_rtsp;
  one_line = Lacks-lacks b'\n' ok_line refl;
  headers = (
    IsHeader-line (codes "CSeq: 4") (no_nil _ _) refl,
    (IsHeader-line (codes "Session: 42") (no_nil _ _) refl, tt),
  );
  announced = refl;
  fits = omega arith;
  status = refl;
  no_digest = refl;
  no_basic = refl;
}

second_reply-IsReply : IsReply limit second_reply
unfolding parse_rtsp_status_code contains content_length
second_reply-IsReply = record {
  is_rtsp = ok_is_rtsp;
  one_line = Lacks-lacks b'\n' ok_line refl;
  headers = (
    IsHeader-line (codes "CSeq: 5") (no_nil _ _) refl,
    (IsHeader-line (codes "Session: 43") (no_nil _ _) refl, tt),
  );
  announced = refl;
  fits = omega arith;
  status = refl;
  no_digest = refl;
  no_basic = refl;
}

described_reply-IsReply : IsReply limit described_reply
unfolding parse_rtsp_status_code contains content_length
described_reply-IsReply = record {
  is_rtsp = ok_is_rtsp;
  one_line = Lacks-lacks b'\n' ok_line refl;
  headers = (IsHeader-line (codes "Content-Length: 57") (no_nil _ _) refl, tt);
  announced = refl;
  fits = omega arith;
  status = refl;
  no_digest = refl;
  no_basic = refl;
}

other_line :
    (l : Bytes) → index l control_prefix ≡ none → lacks b'\r' l ≡ true → IsMediaLine (other l)
other_line l absent h = (inl absent, Lacks-lacks b'\r' l h)

lines-IsMediaLine : All IsMediaLine lines
unfolding index contains
lines-IsMediaLine = (
  other_line ok_line refl refl,
  (
    other_line (codes "Content-Length: 57") refl refl,
    (
      other_line [] refl refl,
      (
        other_line (codes "v=0") refl refl,
        (
          (inr refl, Lacks-lacks b'\r' (codes "a=control:*") refl),
          (
            (
              Lacks-lacks b'/' (codes "t0") refl,
              Lacks-lacks b'*' (codes "rtsp://cam/t0") refl,
              Lacks-lacks b'\r' (codes "rtsp://cam/t0") refl,
            ),
            (
              (
                Lacks-lacks b'/' (codes "t1") refl,
                Lacks-lacks b'*' (codes "t1") refl,
                Lacks-lacks b'\r' (codes "t1") refl,
              ),
              tt,
            ),
          ),
        ),
      ),
    ),
  ),
)

session_42 : parse_session (reply_text session_reply) ≡ some (codes "42")
unfolding parse_session
session_42 = refl

session_43 : parse_session (reply_text second_reply) ≡ some (codes "43")
unfolding parse_session
session_43 = refl

parse_media-tracks_example :
    (parse_media (new_rtsp_client []) (crlf (map media_text lines))).0
    ≡ codes "t0" ∷ codes "t1" ∷ []
parse_media-tracks_example = parse_media-tracks (new_rtsp_client []) lines lines-IsMediaLine

two_tracks : tracks lines ≢ []
two_tracks h = cc

client-succeeds_example : Ends (Played (codes "t0" ∷ codes "t1" ∷ []) (codes "43")) Never (
    client limit md5
      (new_rtsp_client
        (map delivery (plain ∷ described_reply ∷ session_reply ∷ second_reply ∷ plain ∷ [])))
      (some url)
      true)
client-succeeds_example =
    client-succeeds limit md5 plain described_reply session_reply second_reply plain lines
      (codes "42") (codes "43") plain-IsReply described_reply-IsReply session_reply-IsReply
      second_reply-IsReply plain-IsReply refl lines-IsMediaLine two_tracks session_42 session_43 url
