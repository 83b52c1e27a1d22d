-- ===== src/Rtsp/Codecs/Sections.antt =====
-- What `ParseCodecs` finds in a description that is printed from its media sections.
use o_camera_agent.Common.{
  ℕ, suc, ◌+◌, ◌≡◌, ◌≢◌, refl, ap, ◌∙◌, false, List, [], ◌∷◌, ◌++◌, map, some, arith, All, drop,
  length, ◌==◌,
}
use o_camera_agent.Common.Text.{Bytes, codes, has_prefix, to_lower, is_blank}
use o_camera_agent.Common.Split.{
  before-Lacks, index_byte, fields, fields_in, fields_in-IsSolid, Lacks, IsSolid,
}
use o_camera_agent.Common.Trim.{
  EndsSolid, EndsSolid-IsSolid, EndsSolid-append, StartsSolid, trim_space-id,
}
use o_camera_agent.Source.Codecs.{SourceInfo}
use o_camera_agent.Rtsp.Codecs.{
  Media, other, video, audio, Scan, static_codecs, media_of, media_line, codec_name, add_codec,
  rtpmap_line, scan_line,
}

-- a=rtpmap:<payload type> <codec>/<clock rate and channels>
pub record Rtpmap : Type 0 where
  pub payload_type : Bytes
  pub codec : Bytes
  pub rate : Bytes

-- A line behind that of the media: an rtpmap, or another one, such as a=control or a=fmtp.
pub data Line : Type 0 where
  rtpmap : Rtpmap → Line
  attribute : Bytes → Line

-- m=<kind> <port> <protocol> <payload types>, and the lines behind it.
pub record Section : Type 0 where
  pub kind : Bytes
  pub port : Bytes
  pub protocol : Bytes
  pub payload_types : List Bytes
  pub lines : List Line

abbrev pub spaced : List Bytes → Bytes
spaced [] = []
spaced (w ∷ ws) = b' ' ∷ (w ++ spaced ws)

abbrev pub media_text : Section → Bytes
media_text x = codes "m=" ++ (x.kind ++ spaced (x.port ∷ x.protocol ∷ x.payload_types))

abbrev pub rtpmap_text : Rtpmap → Bytes
rtpmap_text m = codes "a=rtpmap:" ++ (m.payload_type ++ b' ' ∷ (m.codec ++ b'/' ∷ m.rate))

abbrev pub line_text : Line → Bytes
line_text (rtpmap m) = rtpmap_text m
line_text (attribute l) = l

abbrev pub section_lines : Section → List Bytes
section_lines x = media_text x ∷ map line_text x.lines

abbrev pub all_lines : List Section → List Bytes
all_lines [] = []
all_lines (x ∷ xs) = section_lines x ++ all_lines xs

abbrev pub scan_all : List Bytes → Scan → Scan
scan_all [] s = s
scan_all (l ∷ ls) s = scan_all ls (scan_line l s)

abbrev pub text_of : List Bytes → Bytes
text_of [] = []
text_of (l ∷ ls) = l ++ (b'\r' ∷ b'\n' ∷ text_of ls)

-- A word of a line: not empty, in ASCII, and without spaces (a line's end is a space).
pub record IsWord (w : Bytes) : Type 0 where
  pub solid : IsSolid w
  pub not_nil : w ≢ []

pub record IsRtpmap (m : Rtpmap) : Type 0 where
  pub payload_type : IsWord m.payload_type
  pub codec : IsWord m.codec
  pub one_slash : Lacks b'/' m.codec
  pub rate : IsWord m.rate

-- A line of a description: it starts and ends with an ASCII character that is no space, and holds no
-- newline.
pub record IsLine (l : Bytes) : Type 0 where
  pub starts : StartsSolid l
  pub ends : EndsSolid l
  pub one_line : Lacks b'\n' l

pub record IsAttribute (l : Bytes) : Type 0 where
  pub printed : IsLine l
  pub no_media : has_prefix l (codes "m=") ≡ false
  pub no_rtpmap : has_prefix l (codes "a=rtpmap:") ≡ false

abbrev pub IsSectionLine : Line → Type 0
IsSectionLine (rtpmap m) = IsRtpmap m
IsSectionLine (attribute l) = IsAttribute l

pub record IsSection (x : Section) : Type 0 where
  pub kind : IsWord x.kind
  pub port : IsWord x.port
  pub protocol : IsWord x.protocol
  pub payload_types : All IsWord x.payload_types
  pub lines : All IsSectionLine x.lines

-- The codecs by media: the names of the rtpmap lines, in lower case; an audio section without such a
-- line has those of its static payload types.
abbrev pub names : List Rtpmap → List Bytes
names ms = map (λ m. map to_lower m.codec) ms

abbrev pub audio_of : List Bytes → List Rtpmap → List Bytes
audio_of types [] = static_codecs types
audio_of types (m ∷ ms) = names (m ∷ ms)

abbrev pub announced_as : Media → List Bytes → List Rtpmap → SourceInfo
announced_as other types ms = record { video = []; audio = [] }
announced_as video types ms = record { video = names ms; audio = [] }
announced_as audio types ms = record { video = []; audio = audio_of types ms }

abbrev pub rtpmaps_of : List Line → List Rtpmap
rtpmaps_of [] = []
rtpmaps_of (rtpmap m ∷ ls) = m ∷ rtpmaps_of ls
rtpmaps_of (attribute l ∷ ls) = rtpmaps_of ls

abbrev pub announced : Section → SourceInfo
announced x = announced_as (media_of (x.kind ∷ [])) x.payload_types (rtpmaps_of x.lines)

abbrev pub add_info : SourceInfo → SourceInfo → SourceInfo
add_info a b = record { video = a.video ++ b.video; audio = a.audio ++ b.audio }

abbrev pub all_announced : List Section → SourceInfo
all_announced [] = record { video = []; audio = [] }
all_announced (x ∷ xs) = add_info (announced x) (all_announced xs)

fields_in-spaced :
    (cur : Bytes) (ws : List Bytes)
    → cur ≢ []
    → All IsWord ws
    → fields_in 0 cur (spaced ws) ≡ cur ∷ ws
unfolding fields_in
fields_in-spaced [] ws n h = absurd (n refl)
fields_in-spaced (c ∷ cur) [] n h = refl
fields_in-spaced (c ∷ cur) (w ∷ ws) n (hw, hs) =
    ap (◌∷◌ (c ∷ cur))
      (fields_in-IsSolid [] w (spaced ws) hw.solid ∙ fields_in-spaced w ws hw.not_nil hs)

fields-media :
    (x : Section)
    → IsSection x
    → fields (x.kind ++ spaced (x.port ∷ x.protocol ∷ x.payload_types))
      ≡ x.kind ∷ x.port ∷ x.protocol ∷ x.payload_types
fields-media x h =
    fields_in-IsSolid [] x.kind _ h.kind.solid
    ∙ fields_in-spaced x.kind _ h.kind.not_nil (h.port, (h.protocol, h.payload_types))

pub scan_line-media :
    (x : Section) (s : Scan)
    → IsSection x
    → scan_line (media_text x) s ≡ media_line (x.kind ∷ x.port ∷ x.protocol ∷ x.payload_types) s
unfolding scan_line
scan_line-media x s h = ap (λ fs. media_line fs s) (fields-media x h)

not_space : (c : ℕ) → is_blank c ≡ false → (c == b' ') ≡ false
unfolding is_blank
not_space c h = ground arith

index_byte-IsSolid : (w s : Bytes) → IsSolid w → index_byte b' ' (w ++ b' ' ∷ s) ≡ some (length w)
unfolding index_byte
index_byte-IsSolid [] s h = refl
index_byte-IsSolid (c ∷ w) s (hc, hw) = rw (not_space c hc, index_byte-IsSolid w s hw)

drop_past : (w : Bytes) (b : ℕ) (s : Bytes) → drop (suc (length w)) (w ++ b ∷ s) ≡ s
drop_past [] b s = refl
drop_past (c ∷ w) b s = drop_past w b s

starts-IsWord : (w s : Bytes) → IsWord w → StartsSolid (w ++ s)
starts-IsWord [] s h = absurd (h.not_nil refl)
starts-IsWord (c ∷ w) s h = h.solid.0

pub ends-IsWord : (w : Bytes) → IsWord w → EndsSolid w
ends-IsWord w h = EndsSolid-IsSolid w h.solid h.not_nil

codec_name_lem :
    (m : Rtpmap) → IsRtpmap m → codec_name (m.codec ++ b'/' ∷ m.rate) ≡ map to_lower m.codec
unfolding codec_name
codec_name_lem m h =
    let ends = EndsSolid-append (b'/' ∷ []) m.rate (ends-IsWord m.rate h.rate) in
    rw (
      trim_space-id (m.codec ++ b'/' ∷ m.rate) (starts-IsWord m.codec _ h.codec)
          (EndsSolid-append m.codec (b'/' ∷ m.rate) ends),
      before-Lacks b'/' m.codec m.rate h.one_slash,
    )

pub scan_line-rtpmap :
    (m : Rtpmap) (s : Scan)
    → IsRtpmap m
    → scan_line (rtpmap_text m) s ≡ add_codec (map to_lower m.codec) s
unfolding scan_line
scan_line-rtpmap m s h =
    let rest = m.codec ++ b'/' ∷ m.rate in
    let next : length m.payload_type + 1 ≡ suc (length m.payload_type) = omega arith in
    rw (
      rtpmap_line,
      index_byte-IsSolid m.payload_type rest h.payload_type.solid,
      next,
      drop_past m.payload_type b' ' rest,
      codec_name_lem m h,
    )

-- Any other line changes nothing.
pub scan_line-attribute : (l : Bytes) (s : Scan) → IsAttribute l → scan_line l s ≡ s
unfolding scan_line
scan_line-attribute l s h = rw (h.no_media, h.no_rtpmap) refl
