-- ===== src/Rtsp/Codecs.antt =====
-- rtsp_client.go: ParseCodecs, the codecs that the description of a stream announces.
pub mod Sections
pub mod Lines
pub mod Announced
use o_camera_agent.Common.{
  ℕ, ◌+◌, Bool, true, false, not, ◌&&◌, List, [], ◌∷◌, ◌++◌, map, Option, none, some, if◌then◌else◌,
  drop,
}
use o_camera_agent.Common.Text.{Bytes, codes, same, has_prefix, to_lower, trim_space}
use o_camera_agent.Common.Split.{split, before, index_byte, fields}
use o_camera_agent.Source.Codecs.{SourceInfo}

-- The variable `media`: "", "video" or "audio".
pub data Media : Type 0 where
  other video audio : Media

-- The variables of the loop.
pub record Scan : Type 0 where
  pub info : SourceInfo
  pub media : Media
  pub rtpmap_seen : Bool
  pub static_audio : List Bytes

abbrev pub is_audio : Media → Bool
is_audio audio = true
is_audio _ = false

unfoldable pub flush : Scan → Scan
flush s = record s {
  info =
      if is_audio s.media && not s.rtpmap_seen
      then record s.info { audio = s.info.audio ++ s.static_audio }
      else s.info;
  rtpmap_seen = false;
  static_audio = [];
}

-- The codecs of the static payload types among these.
unfoldable pub static_codecs : List Bytes → List Bytes
unfolding same
static_codecs [] = []
static_codecs (pt ∷ pts) =
    let rest = static_codecs pts in
    if same pt (codes "0")
    then codes "pcmu" ∷ rest
    else if same pt (codes "8")
    then codes "pcma" ∷ rest
    else rest

unfoldable pub media_of : List Bytes → Media
unfolding same
media_of [] = other
media_of (f ∷ fs) =
    if same f (codes "video") then video else if same f (codes "audio") then audio else other

-- A line that starts with "m=", from its fields.
unfoldable pub media_line : List Bytes → Scan → Scan
unfolding flush media_of static_codecs
media_line fs s =
    let s' = flush s in
    let m = media_of fs in
    record s' {
      media = m;
      static_audio =
          if is_audio m then s'.static_audio ++ static_codecs (drop 3 fs) else s'.static_audio;
    }

-- The name of the codec, in what follows the payload type.
unfoldable pub codec_name : Bytes → Bytes
unfolding before trim_space to_lower
codec_name rest = map to_lower (before b'/' (trim_space rest))

unfoldable pub add_codec : Bytes → Scan → Scan
add_codec name s = elim s.media [
  | other ↦ s
  | video ↦ record s { info = record s.info { video = s.info.video ++ name ∷ [] } }
  | audio ↦ record s {
    info = record s.info { audio = s.info.audio ++ name ∷ [] };
    rtpmap_seen = true;
  }
]

-- A line that starts with "a=rtpmap:", from the rest of it.
unfoldable pub rtpmap_line : Bytes → Scan → Scan
unfolding index_byte codec_name add_codec
rtpmap_line rest s = elim (index_byte b' ' rest) [
  | none ↦ s
  | some sp ↦ add_codec (codec_name (drop (sp + 1) rest)) s
]

-- The `switch`; `add_codec` leaves the case of no media section alone.
unfoldable pub scan_line : Bytes → Scan → Scan
unfolding has_prefix media_line rtpmap_line
scan_line line s =
    if has_prefix line (codes "m=")
    then media_line (fields (drop 2 line)) s
    else if has_prefix line (codes "a=rtpmap:")
    then rtpmap_line (drop 9 line) s
    else s

unfoldable pub scan_lines : List Bytes → Scan → Scan
scan_lines [] s = s
scan_lines (l ∷ ls) s = scan_lines ls (scan_line (trim_space l) s)

abbrev pub unscanned : Scan
unscanned = record {
  info = record { video = []; audio = [] };
  media = other;
  rtpmap_seen = false;
  static_audio = [];
}

unfoldable pub parse_codecs : Bytes → SourceInfo
unfolding split flush scan_lines
parse_codecs sdp = (flush (scan_lines (split b'\n' sdp) unscanned)).info
