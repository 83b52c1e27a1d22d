-- ===== src/Rtsp/Codecs/Announced.antt =====
-- `ParseCodecs` finds the codecs of each media section, in order.
use o_camera_agent.Common.{◌≡◌, Bool, false, List, [], ◌∷◌, ◌++◌}
use o_camera_agent.Common.Text.{Bytes, codes, has_prefix, trim_space}
use o_camera_agent.Common.Split.{Lacks}
use o_camera_agent.Source.Codecs.{SourceInfo}
use o_camera_agent.Rtsp.Codecs.{Media, Scan, add_codec}

add_codecs : List Bytes → Scan → Scan
add_codecs [] s = s
add_codecs (n ∷ ns) s = add_codecs ns (add_codec n s)

-- The state while the rtpmap lines of a section are read.
abbrev reading : SourceInfo → Media → Bool → List Bytes → Scan
reading i m seen static = record { info = i; media = m; rtpmap_seen = seen; static_audio = static }

-- A line before the first media section, such as one of the response's header, or an empty one.
pub record IsPreamble (l : Bytes) : Type 0 where
  pub no_media : has_prefix (trim_space (l ++ b'\r' ∷ [])) (codes "m=") ≡ false
  pub one_line : Lacks b'\n' l
