-- ===== src/Rtsp/Media/Tracks.antt =====
-- Which tracks ParseMedia finds.
use o_camera_agent.Common.{
  ℕ, ◌+◌, ◌≡◌, refl, sym, ap, ◌∙◌, inl, inr, ◌⊎◌, true, false, List, [], ◌∷◌, ◌++◌, map,
  Option-cases, none, some, All, length, drop,
}
use o_camera_agent.Common.Text.{Bytes, codes, index, has_prefix, contains}
use o_camera_agent.Common.Split.{
  last_index-Lacks, last_index-append, drop-suc-append, Lacks, split_two, split_crlf,
}
use o_camera_agent.Rtsp.Headers.Session.{crlf, split-crlf, contains-Lacks, Lacks-append}
use o_camera_agent.Rtsp.Request.{ClientState}
use o_camera_agent.Rtsp.Media.{
  control_prefix, behind_slash, control_of, dimensions_of, media_lines, parse_media,
}

-- A line of a description: a track by its name, a track by its address, which ends in the name, or a
-- line that names no track.
pub data MediaLine : Type 0 where
  track : Bytes → MediaLine
  track_at : Bytes → Bytes → MediaLine
  other : Bytes → MediaLine

abbrev pub media_text : MediaLine → Bytes
media_text (track name) = control_prefix ++ name
media_text (track_at base name) = control_prefix ++ (base ++ b'/' ∷ name)
media_text (other l) = l

abbrev pub tracks : List MediaLine → List Bytes
tracks [] = []
tracks (track name ∷ ls) = name ∷ tracks ls
tracks (track_at base name ∷ ls) = name ∷ tracks ls
tracks (other l ∷ ls) = tracks ls

-- A name has no slash and no star; an address has no star. A star stands for all tracks.
abbrev pub IsMediaLine : MediaLine → Type 0
IsMediaLine (track name) = Lacks b'/' name × Lacks b'*' name × Lacks b'\r' name
IsMediaLine (track_at base name) =
    Lacks b'/' name × Lacks b'*' (base ++ b'/' ∷ name) × Lacks b'\r' (base ++ b'/' ∷ name)
IsMediaLine (other l) =
    (((index l control_prefix ≡ none) ⊎ (contains l (codes "*") ≡ true))) × Lacks b'\r' l

behind_slash-Lacks : (s : Bytes) → Lacks b'/' s → behind_slash s ≡ s
unfolding behind_slash
behind_slash-Lacks s h = rw (last_index-Lacks b'/' s h, behind_slash) refl

behind_slash-append : (p s : Bytes) → Lacks b'/' s → behind_slash (p ++ b'/' ∷ s) ≡ s
unfolding behind_slash
behind_slash-append p s h =
    rw (last_index-append b'/' p s h, behind_slash) (drop-suc-append p b'/' s)

prefix_first : (s : Bytes) → index (control_prefix ++ s) control_prefix ≡ some 0
unfolding index has_prefix
prefix_first s = refl

prefix-Lacks :
    (b : ℕ) (s : Bytes) → Lacks b control_prefix → Lacks b s → Lacks b (control_prefix ++ s)
prefix-Lacks b s = Lacks-append b control_prefix s

control_found :
    (e : Bytes) (i : ℕ)
    → index e control_prefix ≡ some i
    → contains e (codes "*") ≡ false
    → control_of e ≡ behind_slash (drop (i + length control_prefix) e) ∷ []
unfolding control_of
control_found e i h k = rw (h, k, control_of) refl

control_of-prefix :
    (s : Bytes)
    → Lacks b'*' (control_prefix ++ s)
    → control_of (control_prefix ++ s) ≡ behind_slash s ∷ []
control_of-prefix s h =
    control_found (control_prefix ++ s) 0 (prefix_first s)
      (contains-Lacks b'*' (control_prefix ++ s) h)

control_absent : (e : Bytes) → index e control_prefix ≡ none → control_of e ≡ []
unfolding control_of
control_absent e h = rw (h, control_of) refl

control_starred : (e : Bytes) → contains e (codes "*") ≡ true → control_of e ≡ []
unfolding control_of
control_starred e h = elim (Option-cases (index e control_prefix)) [
  | inl none_there ↦ control_absent e none_there
  | inr (i, there) ↦ rw (there, h, control_of) refl
]

star_free : Lacks b'*' control_prefix
star_free = (refl, (refl, (refl, (refl, (refl, (refl, (refl, (refl, (refl, (refl, tt))))))))))

one_line : Lacks b'\r' control_prefix
one_line = (refl, (refl, (refl, (refl, (refl, (refl, (refl, (refl, (refl, (refl, tt))))))))))

control_of-media_text :
    (l : MediaLine) → IsMediaLine l → control_of (media_text l) ≡ tracks (l ∷ [])
control_of-media_text (track name) (slash, star, cr) =
    control_of-prefix name (prefix-Lacks b'*' name star_free star)
    ∙ ap (λ n. n ∷ []) (behind_slash-Lacks name slash)
control_of-media_text (track_at base name) (slash, star, cr) =
    control_of-prefix (base ++ b'/' ∷ name) (prefix-Lacks b'*' (base ++ b'/' ∷ name) star_free star)
    ∙ ap (λ n. n ∷ []) (behind_slash-append base name slash)
control_of-media_text (other l) (inl absent, cr) = control_absent l absent
control_of-media_text (other l) (inr star, cr) = control_starred l star

media_text-cr : (l : MediaLine) → IsMediaLine l → Lacks b'\r' (media_text l)
media_text-cr (track name) (slash, star, cr) = prefix-Lacks b'\r' name one_line cr
media_text-cr (track_at base name) (slash, star, cr) =
    prefix-Lacks b'\r' (base ++ b'/' ∷ name) one_line cr
media_text-cr (other l) (h, cr) = cr

tracks-cons : (l : MediaLine) (ls : List MediaLine) → tracks (l ∷ ls) ≡ tracks (l ∷ []) ++ tracks ls
tracks-cons (track name) ls = refl
tracks-cons (track_at base name) ls = refl
tracks-cons (other l) ls = refl

split-media_text :
    (ls : List MediaLine)
    → All IsMediaLine ls
    → split_crlf (crlf (map media_text ls)) ≡ map media_text ls ++ [] ∷ []
unfolding split_two
split-media_text [] h = refl
split-media_text (l ∷ ls) (h, hs) =
    split-crlf (media_text l) (crlf (map media_text ls)) (media_text-cr l h)
    ∙ ap (λ t. media_text l ∷ t) (split-media_text ls hs)

media_lines-tracks :
    (rc : ClientState) (ls : List MediaLine)
    → All IsMediaLine ls
    → (media_lines rc (map media_text ls ++ [] ∷ [])).0 ≡ tracks ls
unfolding media_lines
media_lines-tracks rc [] h = unfold control_of in refl
media_lines-tracks rc (l ∷ ls) (h, hs) =
    ap (λ t. t ++ (media_lines (dimensions_of rc (media_text l)) (map media_text ls ++ [] ∷ [])).0)
      (control_of-media_text l h)
    ∙ ap (λ t. tracks (l ∷ []) ++ t) (media_lines-tracks (dimensions_of rc (media_text l)) ls hs)
    ∙ sym (tracks-cons l ls)

-- In a description of such lines ParseMedia finds the tracks in their order: of an address it takes
-- what stands behind the last slash, and a line with a star names no track.
pub parse_media-tracks :
    (rc : ClientState) (ls : List MediaLine)
    → All IsMediaLine ls
    → (parse_media rc (crlf (map media_text ls))).0 ≡ tracks ls
unfolding parse_media
parse_media-tracks rc ls h =
    ap (λ t. (media_lines rc t).0) (split-media_text ls h) ∙ media_lines-tracks rc ls h
