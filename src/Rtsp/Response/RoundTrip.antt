-- ===== src/Rtsp/Response/RoundTrip.antt =====
-- readRTSPResponse reads back a response that is printed, behind frames that arrive before it.
use o_camera_agent.Common.{
  ℕ, zero, suc, ◌+◌, ◌≤◌, ◌<◌, ◌≡◌, ◌≢◌, refl, sym, ap, ◌∙◌, true, false, List, [], ◌∷◌, ◌++◌,
  append_assoc, append-nil, some, arith, All, length, length-append, take-append, drop-append, ◌-◌,
  ◌/◌, ◌%◌,
}
use o_camera_agent.Common.Int.{ℤ, pos}
use o_camera_agent.Common.Text.{Bytes, codes, same, has_prefix, has_prefix_split}
use o_camera_agent.Common.Split.{Lacks}
use o_camera_agent.Rtsp.Delivery.{Frame, header, encode, length_bytes}
use o_camera_agent.Rtsp.Headers.{parse_rtsp_status_code}
use o_camera_agent.Rtsp.Headers.Session.{crlf}
use o_camera_agent.Rtsp.Response.{
  done, Response, read_line, content_length, read_headers, read_body, and_then, read_from,
  skip_frame, framed, lined, read_response, read_rtsp_response,
}

abbrev pub eol : Bytes
eol = b'\r' ∷ b'\n' ∷ []

-- A line of the header of a response.
pub record IsHeader (l : Bytes) : Type 0 where
  pub not_nil : l ≢ []
  pub one_line : Lacks b'\n' l

-- What the lines give as the length of the body.
abbrev pub length_in : List Bytes → ℤ → ℤ
length_in [] n = n
length_in (l ∷ ls) n = length_in ls (content_length (l ++ eol) n)

abbrev pub response_text : Bytes → List Bytes → Bytes → Bytes
response_text status_line headers body = (status_line ++ eol) ++ (crlf headers ++ (eol ++ body))

read_line-eol : (l s : Bytes) → Lacks b'\n' l → read_line (l ++ (eol ++ s)) ≡ some (l ++ eol, s)
unfolding read_line
read_line-eol [] s h = refl
read_line-eol (c ∷ l) s (hc, hl) = rw (hc, read_line-eol l s hl)

not_eol : (l : Bytes) → l ≢ [] → same (l ++ eol) eol ≡ false
unfolding same
not_eol [] n = absurd (n refl)
not_eol (c ∷ []) n = ground arith
not_eol (c ∷ d ∷ []) n = ground arith
not_eol (c ∷ d ∷ e ∷ l) n = ground arith

header_more :
    (fuel : ℕ) (text : Bytes) (n : ℤ) (l s : Bytes)
    → IsHeader l
    → read_headers (suc fuel) text n (l ++ (eol ++ s))
      ≡ read_headers fuel (text ++ (l ++ eol)) (content_length (l ++ eol) n) s
unfolding read_headers
header_more fuel text n l s h = rw (read_headers, read_line-eol l s h.one_line, not_eol l h.not_nil)

header_last :
    (fuel : ℕ) (text : Bytes) (n : ℤ) (s : Bytes)
    → read_headers (suc fuel) text n (eol ++ s) ≡ done (text ++ eol, n, s)
unfolding read_headers
header_last fuel text n s = refl

read_headers-crlf :
    (ls : List Bytes) (fuel : ℕ) (text : Bytes) (n : ℤ) (s : Bytes)
    → All IsHeader ls
    → length ls < fuel
    → read_headers fuel text n (crlf ls ++ (eol ++ s))
      ≡ done (text ++ (crlf ls ++ eol), length_in ls n, s)
read_headers-crlf [] zero text n s h k = absurd (omega arith)
read_headers-crlf [] (suc fuel) text n s h k = header_last fuel text n s
read_headers-crlf (l ∷ ls) zero text n s h k = absurd (omega arith)
read_headers-crlf (l ∷ ls) (suc fuel) text n s (hl, hs) k =
    let text' = text ++ (l ++ eol) in
    let n' = content_length (l ++ eol) n in
    let same_text : text' ++ (crlf ls ++ eol) ≡ text ++ (crlf (l ∷ ls) ++ eol) =
      simp append_assoc in
    ap (read_headers (suc fuel) text n) (append_assoc l (b'\r' ∷ b'\n' ∷ crlf ls) (eol ++ s))
    ∙ header_more fuel text n l (crlf ls ++ (eol ++ s)) hl
    ∙ read_headers-crlf ls fuel text' n' s hs (omega arith)
    ∙ ap (λ x. done (x, length_in (l ∷ ls) n, s)) same_text

read_body-exact :
    (limit : ℕ) (status n : ℤ) (text body rest : Bytes)
    → n ≡ pos (length body)
    → length body ≤ limit
    → read_body limit status (text, n, body ++ rest)
      ≡ done (record { text = text ++ body; status = status; rest = rest })
unfolding read_body
read_body-exact limit status n text [] rest e h = rw (e, append-nil)
read_body-exact limit status n text (c ∷ body) rest e h =
    rw (e, take-append, drop-append) (ground (arith, length-append body rest))

pub skip_frame-frame :
    (f : Frame) (rest : Bytes)
    → skip_frame (f.channel ∷ length f.payload / 256 ∷ length f.payload % 256 ∷ (f.payload ++ rest))
      ≡ some rest
unfolding skip_frame
skip_frame-frame f rest =
    rw (length_bytes (length f.payload), drop-append) (ground (arith, length-append f.payload rest))

skip_frames :
    (limit : ℕ) (fs : List Frame) (n fuel : ℕ) (s : Bytes)
    → n ≡ length fs + fuel
    → read_response limit n (encode fs ++ s) ≡ read_response limit fuel s
unfolding read_response
skip_frames limit [] n fuel s e = ap (λ k. read_response limit k s) (e ∙ omega arith)
skip_frames limit (f ∷ fs) zero fuel s e = absurd (omega arith)
skip_frames limit (f ∷ fs) (suc n) fuel s e =
    ap (read_response limit (suc n)) (append_assoc (header f ++ f.payload) (encode fs) s)
    ∙ ap (framed (read_response limit n)) (skip_frame-frame f (encode fs ++ s))
    ∙ skip_frames limit fs n fuel s (omega arith)

length_frames : (fs : List Frame) → length fs ≤ length (encode fs)
length_frames [] = omega arith
length_frames (f ∷ fs) = omega (arith, length_frames fs, length-append f.payload (encode fs))

length-crlf : (ls : List Bytes) → length ls ≤ length (crlf ls)
length-crlf [] = omega arith
length-crlf (l ∷ ls) = omega (arith, length-crlf ls, length-append l (eol ++ crlf ls))

line_round :
    (limit fuel : ℕ) (t s : Bytes)
    → t ≡ 82 ∷ s
    → read_response limit (suc fuel) t ≡ lined limit fuel (read_response limit fuel) (read_line t)
unfolding read_response
line_round limit fuel t s e = rw (e, read_response) refl

abbrev pub expected : Bytes → List Bytes → Bytes → Bytes → Response
expected status_line headers body rest = record {
  text = response_text status_line headers body;
  status = parse_rtsp_status_code (status_line ++ eol);
  rest = rest;
}

module _ (limit : ℕ) (status_line : Bytes) (headers : List Bytes) (body rest : Bytes)
    (is_rtsp : has_prefix (status_line ++ eol) (codes "RTSP/") ≡ true)
    (one_line : Lacks b'\n' status_line) (are_headers : All IsHeader headers)
    (announced : length_in headers (pos 0) ≡ pos (length body)) (fits : length body ≤ limit) where
  read_from-text :
      (fuel : ℕ)
      → length headers < fuel
      → read_from limit fuel (status_line ++ eol) (crlf headers ++ (eol ++ (body ++ rest)))
        ≡ done (expected status_line headers body rest)
  unfolding read_from
  read_from-text fuel h =
      let line = status_line ++ eol in
      let status = parse_rtsp_status_code line in
      let whole : (line ++ (crlf headers ++ eol)) ++ body ≡ response_text status_line headers body =
        simp append_assoc in
      ap (λ r. and_then r (read_body limit status))
        (read_headers-crlf headers fuel line (pos 0) (body ++ rest) are_headers h)
      ∙ read_body-exact limit status (length_in headers (pos 0)) (line ++ (crlf headers ++ eol))
          body rest announced fits
      ∙ ap (λ t. done (record { text = t; status = status; rest = rest })) whole

  abbrev after_first : Bytes
  after_first = crlf headers ++ (eol ++ (body ++ rest))

  first_line :
      (fuel : ℕ)
      → length headers < fuel
      → read_response limit (suc fuel) (status_line ++ (eol ++ after_first))
        ≡ done (expected status_line headers body rest)
  first_line fuel h =
      let line = status_line ++ eol in
      let starts =
        sym (append_assoc status_line eol after_first)
        ∙ ap (λ l. l ++ after_first) (has_prefix_split line (codes "RTSP/") is_rtsp) in
      let chosen : lined limit fuel (read_response limit fuel) (some (line, after_first))
          ≡ read_from limit fuel line after_first =
        rw (is_rtsp, lined) refl in
      line_round limit fuel _ _ starts
      ∙ ap (lined limit fuel (read_response limit fuel))
          (read_line-eol status_line after_first one_line)
      ∙ chosen
      ∙ read_from-text fuel h

  -- A response that is printed line by line, with a body as long as its header says, is read back behind
  -- any frames of the camera that arrive before it: the same bytes, the status of its first line, and
  -- what follows it is left.
  pub read_rtsp_response-text :
      (fs : List Frame)
      → read_rtsp_response limit (encode fs ++ (response_text status_line headers body ++ rest))
        ≡ done (expected status_line headers body rest)
  unfolding read_rtsp_response
  read_rtsp_response-text fs =
      let t = status_line ++ (eol ++ after_first) in
      let input = encode fs ++ t in
      let k = length input - length fs in
      let bracketed : response_text status_line headers body ++ rest ≡ t = simp append_assoc in
      let parts = length-append (encode fs) t in
      let parts' = length-append status_line (eol ++ after_first) in
      let parts'' = length-append (crlf headers) (eol ++ (body ++ rest)) in
      let enough : length headers < k =
        omega (arith, length_frames fs, length-crlf headers, parts, parts', parts'') in
      ap (λ x. read_rtsp_response limit (encode fs ++ x)) bracketed
      ∙ skip_frames limit fs (suc (length input)) (suc k) t (omega (arith, length_frames fs, parts))
      ∙ first_line k enough
