-- ===== src/Tests/Program.antt =====
-- The whole program, and what it says of addresses.
use o_camera_agent.Common.{◌≡◌, ◌↔◌, refl, true, false, [], ◌∷◌, none, some, arith, take}
use o_camera_agent.Common.Text.{codes}
use o_camera_agent.Agent.World.{World}
use o_camera_agent.Main.{Surroundings}
use o_camera_agent.Webrtc.Network.{redact_url, is_private_or_link_local_ip}
use o_camera_agent.Webrtc.Network.Redacted.{redact_url-credentials}
use o_camera_agent.Webrtc.Network.Private.{
  InBlocks, mapped, number, is_private_or_link_local_ip_iff,
}
use o_camera_agent.Tests.Fixtures.{camera, noon, life, h264_camera}
use o_camera_agent.Tests.Rtsp.{Lacks-lacks}

redact_url-credentials_example :
    redact_url (codes "rtsp://user:p@ss@cam/1") ≡ codes "rtsp://***@cam/1"
redact_url-credentials_example =
    redact_url-credentials (codes "rtsp") (codes "user:p@ss") (codes "cam/1")
      (Lacks-lacks b':' (codes "rtsp") refl) (Lacks-lacks b'@' (codes "cam/1") refl)

is_private_or_link_local_ip_iff_example :
    let blocks = InBlocks (number 172 20 0 9) in
    ((is_private_or_link_local_ip (172 ∷ 20 ∷ 0 ∷ 9 ∷ []) ≡ true) ↔ blocks)
    × ((is_private_or_link_local_ip (mapped (172 ∷ 20 ∷ 0 ∷ 9 ∷ [])) ≡ true) ↔ blocks)
is_private_or_link_local_ip_iff_example =
    is_private_or_link_local_ip_iff 172 20 0 9 (omega arith) (omega arith) (omega arith)
      (omega arith)

abbrev surroundings : Surroundings
surroundings = record {
  file = some (codes "{}");
  parse = λ text. some camera;
  read = λ path. none;
  has_certificate = λ pem. false;
  now = noon;
  probe = some h264_camera;
  connects = true;
  events = take 3 life;
}
