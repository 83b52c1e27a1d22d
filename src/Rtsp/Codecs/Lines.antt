-- ===== src/Rtsp/Codecs/Lines.antt =====
-- The lines of a description, and the codecs that `ParseCodecs` finds in it.
use o_camera_agent.Common.{ℕ, ◌≡◌, refl, List, [], ◌∷◌, ◌++◌, append_assoc, append-nil, arith, All}
use o_camera_agent.Common.Text.{Bytes, codes, is_blank, trim_space}
use o_camera_agent.Common.Split.{split, split-append, Lacks, IsSolid}
use o_camera_agent.Common.Trim.{EndsSolid, EndsSolid-append, trim_space_cr}
use o_camera_agent.Rtsp.Codecs.{Scan, scan_line, scan_lines}
use o_camera_agent.Rtsp.Codecs.Sections.{
  Rtpmap, Section, spaced, media_text, rtpmap_text, scan_all, text_of, IsWord, IsRtpmap, IsSection,
  IsLine, ends-IsWord,
}

pub Lacks-append : (b : ℕ) (s t : Bytes) → Lacks b s → Lacks b t → Lacks b (s ++ t)
Lacks-append b [] t h k = k
Lacks-append b (c ∷ s) t h k = (h.0, Lacks-append b s t h.1 k)

nothing : (s : Scan) → scan_lines (split b'\n' []) s ≡ s
unfolding scan_lines split scan_line trim_space
nothing s = refl

pub scan_lines-text_of :
    (ls : List Bytes) (s : Scan)
    → All IsLine ls
    → scan_lines (split b'\n' (text_of ls)) s ≡ scan_all ls s
unfolding scan_lines
scan_lines-text_of [] s h = nothing s
scan_lines-text_of (l ∷ ls) s (h, hs) =
    let whole = append_assoc l (b'\r' ∷ []) (b'\n' ∷ text_of ls) in
    let no_newline = Lacks-append b'\n' l (b'\r' ∷ []) h.one_line (refl, tt) in
    rw
      (
        ← whole,
        split-append b'\n' (l ++ b'\r' ∷ []) (text_of ls) no_newline,
        scan_lines,
        trim_space_cr l h.starts h.ends,
      )
      (scan_lines-text_of ls (scan_line l s) hs)

-- A text without spaces has no newline.
Lacks-IsSolid : (s : Bytes) → IsSolid s → Lacks b'\n' s
unfolding is_blank
Lacks-IsSolid [] h = tt
Lacks-IsSolid (c ∷ s) h = (ground arith, Lacks-IsSolid s h.1)

Lacks-spaced : (ws : List Bytes) → All IsWord ws → Lacks b'\n' (spaced ws)
Lacks-spaced [] h = tt
Lacks-spaced (w ∷ ws) h =
    (refl, Lacks-append b'\n' w (spaced ws) (Lacks-IsSolid w h.0.solid) (Lacks-spaced ws h.1))

ends-spaced : (w : Bytes) (ws : List Bytes) → All IsWord (w ∷ ws) → EndsSolid (spaced (w ∷ ws))
ends-spaced w [] h = EndsSolid-append (b' ' ∷ []) (w ++ []) (rw append-nil (ends-IsWord w h.0))
ends-spaced w (v ∷ ws) h = EndsSolid-append (b' ' ∷ w) (spaced (v ∷ ws)) (ends-spaced v ws h.1)

pub media_text-IsLine : (x : Section) → IsSection x → IsLine (media_text x)
unfolding is_blank
media_text-IsLine x h =
    let rest = All-of x h in
    record {
      starts = refl;
      ends =
          EndsSolid-append (codes "m=" ++ x.kind) (spaced (x.port ∷ x.protocol ∷ x.payload_types))
            (ends-spaced x.port (x.protocol ∷ x.payload_types) rest);
      one_line = (
        refl,
        (
          refl,
          Lacks-append b'\n' x.kind (spaced (x.port ∷ x.protocol ∷ x.payload_types))
              (Lacks-IsSolid x.kind h.kind.solid)
              (Lacks-spaced (x.port ∷ x.protocol ∷ x.payload_types) rest),
        ),
      );
    }
  where
    All-of : (x : Section) → IsSection x → All IsWord (x.port ∷ x.protocol ∷ x.payload_types)
    All-of x h = (h.port, (h.protocol, h.payload_types))

pub rtpmap_text-IsLine : (m : Rtpmap) → IsRtpmap m → IsLine (rtpmap_text m)
unfolding is_blank
rtpmap_text-IsLine m h = record {
  starts = refl;
  ends =
      EndsSolid-append (codes "a=rtpmap:" ++ m.payload_type) (b' ' ∷ (m.codec ++ b'/' ∷ m.rate)) (
        EndsSolid-append (b' ' ∷ m.codec) (b'/' ∷ m.rate)
          (EndsSolid-append (b'/' ∷ []) m.rate (ends-IsWord m.rate h.rate)));
  one_line =
      let solid = Lacks-IsSolid in
      Lacks-append b'\n' (codes "a=rtpmap:") _
        (refl, (refl, (refl, (refl, (refl, (refl, (refl, (refl, (refl, tt)))))))))
        (Lacks-append b'\n' m.payload_type _ (solid m.payload_type h.payload_type.solid) (
          refl,
          Lacks-append b'\n' m.codec (b'/' ∷ m.rate) (solid m.codec h.codec.solid)
              (refl, solid m.rate h.rate.solid),
        ));
}
