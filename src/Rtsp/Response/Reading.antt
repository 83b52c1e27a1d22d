-- ===== src/Rtsp/Response/Reading.antt =====
-- readRTSPResponse on a connection that delivers finitely many bytes returns a piece of them.
use o_camera_agent.Common.{
  ℕ, zero, suc, ◌+◌, ◌*◌, ◌≤◌, ◌<◌, ◌≡◌, refl, sym, ap, ◌∙◌, inl, inr, Bool-cases, Option-cases,
  if_cases, ◌==◌, ltb, [], ◌∷◌, ◌++◌, append_assoc, Option, none, some, arith, length, take, drop,
  subst,
}
use o_camera_agent.Common.Int.{ℤ, pos, negsuc}
use o_camera_agent.Common.Text.{Bytes, codes, same, has_prefix}
use o_camera_agent.Rtsp.Headers.{parse_rtsp_status_code}
use o_camera_agent.Rtsp.Response.{
  Result, done, failed, panicked, out_of_fuel, Response, read_line, content_length, read_headers,
  read_body, and_then, read_from, skip_frame, framed, lined, read_response, read_rtsp_response,
}

pub read_line-split :
    (s l r : Bytes) → read_line s ≡ some (l, r) → (s ≡ l ++ r) × (length r < length s)
unfolding read_line
read_line-split [] l r h = cc
read_line-split (c ∷ s) l r h = elim (Bool-cases (c == b'\n')) [
  | inl newline ↦ ground (arith, h)
  | inr more ↦ elim (Option-cases (read_line s)) [
    | inl e ↦ ground (arith, h)
    | inr ((k, t), e) ↦ ground (arith, h, read_line-split s k t e)
  ]
]

take-drop : (n : ℕ) (s : Bytes) → take n s ++ drop n s ≡ s
take-drop zero s = refl
take-drop (suc n) [] = refl
take-drop (suc n) (c ∷ s) = ap (◌∷◌ c) (take-drop n s)

length-drop : (n : ℕ) (s : Bytes) → length (drop n s) ≤ length s
length-drop zero s = omega arith
length-drop (suc n) [] = omega arith
length-drop (suc n) (c ∷ s) = omega (arith, length-drop n s)

-- The frame is gone, and the rest is the end of what was there.
skip_frame-split :
    (s r : Bytes) → skip_frame s ≡ some r → (p : Bytes) × (s ≡ p ++ r) × (length r ≤ length s)
unfolding skip_frame
skip_frame-split (a ∷ hi ∷ lo ∷ s) r h =
    let n = hi * 256 + lo in
    let e : drop n s ≡ r = ground (arith, h) in
    (
      a ∷ hi ∷ lo ∷ take n s,
      ap (λ t. a ∷ hi ∷ lo ∷ t) (sym (take-drop n s) ∙ ap (λ t. take n s ++ t) e),
      omega (arith, length-drop n s, ap length e),
    )
skip_frame-split [] r h = cc
skip_frame-split (a ∷ []) r h = cc
skip_frame-split (a ∷ b ∷ []) r h = cc

-- What a loop may come to with enough fuel: `P` of what it returns.
abbrev pub Comes : {A : Type 0} → (A → Type 0) → Result A → Type 0
Comes P (done a) = P a
Comes P failed = Unit
Comes P panicked = Unit
Comes P out_of_fuel = ⊥

-- `text` was read before `input`.
abbrev Splits : Bytes → Bytes → Bytes × ℤ × Bytes → Type 0
Splits text input x = text ++ input ≡ x.0 ++ x.2

Comes-map :
    {A : Type 0} (P Q : A → Type 0) (r : Result A) → ((a : A) → P a → Q a) → Comes P r → Comes Q r
Comes-map P Q (done a) f p = f a p
Comes-map P Q failed f p = tt
Comes-map P Q panicked f p = tt
Comes-map P Q out_of_fuel f p = elim p [ ]

Comes-and_then :
    {A B : Type 0} (P : A → Type 0) (Q : B → Type 0) (r : Result A) (f : A → Result B)
    → Comes P r
    → ((a : A) → P a → Comes Q (f a))
    → Comes Q (and_then r f)
Comes-and_then P Q (done a) f p g = g a p
Comes-and_then P Q failed f p g = tt
Comes-and_then P Q panicked f p g = tt
Comes-and_then P Q out_of_fuel f p g = elim p [ ]

read_headers-Comes :
    (fuel : ℕ) (text : Bytes) (n : ℤ) (input : Bytes)
    → length input < fuel
    → Comes (Splits text input) (read_headers fuel text n input)
unfolding read_headers
read_headers-Comes zero text n input h = absurd (omega arith)
read_headers-Comes (suc fuel) text n input h = elim (Option-cases (read_line input)) [
  | inl e ↦ rw (e, read_headers) tt
  | inr ((line, rest), e) ↦
      let (split, shorter) = read_line-split input line rest e in
      let whole : text ++ input ≡ (text ++ line) ++ rest =
        ap (λ s. text ++ s) split ∙ sym (append_assoc text line rest) in
      let later =
        read_headers-Comes fuel (text ++ line) (content_length line n) rest (omega arith) in
      rw (e, read_headers)
        (if_cases (Comes (Splits text input)) (same line (codes "\r\n")) _ _ (λ _. whole)
          (λ _.
            Comes-map (Splits (text ++ line) rest) (Splits text input) _ (λ a p. whole ∙ p) later))
]

-- The response and the rest are these bytes.
abbrev Pieces : Bytes → Response → Type 0
Pieces whole r = whole ≡ r.text ++ r.rest

read_body-Comes :
    (limit : ℕ) (status : ℤ) (text : Bytes) (n : ℤ) (rest : Bytes)
    → Comes (Pieces (text ++ rest)) (read_body limit status (text, n, rest))
unfolding read_body
read_body-Comes limit status text (pos zero) rest = refl
read_body-Comes limit status text (negsuc m) rest = refl
read_body-Comes limit status text (pos (suc m)) rest =
    let whole =
      ap (λ s. text ++ s) (sym (take-drop (suc m) rest))
      ∙ sym (append_assoc text (take (suc m) rest) (drop (suc m) rest)) in
    if_cases (Comes (Pieces (text ++ rest))) (ltb limit (suc m)) _ _ (λ _. tt)
      (λ _.
        if_cases (Comes (Pieces (text ++ rest))) (ltb (length rest) (suc m)) _ _ (λ _. tt)
          (λ _. whole))

read_from-Comes :
    (limit fuel : ℕ) (line rest : Bytes)
    → length rest < fuel
    → Comes (Pieces (line ++ rest)) (read_from limit fuel line rest)
unfolding read_from
read_from-Comes limit fuel line rest h =
    Comes-and_then (Splits line rest) (Pieces (line ++ rest)) (read_headers fuel line (pos 0) rest)
      _ (read_headers-Comes fuel line (pos 0) rest h)
      (λ x p.
        subst (λ w. Comes (Pieces w) (read_body limit (parse_rtsp_status_code line) x)) (sym p)
          (read_body-Comes limit (parse_rtsp_status_code line) x.0 x.1 x.2))

-- A part of the input, and the response and the rest behind it.
abbrev pub Ends : Bytes → Response → Type 0
Ends input r = (skipped : Bytes) × (input ≡ skipped ++ (r.text ++ r.rest))

later-Ends :
    (input p rest : Bytes) (r : Result Response)
    → input ≡ p ++ rest
    → Comes (Ends rest) r
    → Comes (Ends input) r
later-Ends input p rest r e =
    Comes-map (Ends rest) (Ends input) r
      (λ a x. (p ++ x.0, e ∙ ap (λ s. p ++ s) x.1 ∙ sym (append_assoc p x.0 (a.text ++ a.rest))))

framed-Comes :
    (again : Bytes → Result Response) (c : ℕ) (s : Bytes) (o : Option Bytes)
    → skip_frame s ≡ o
    → ((r : Bytes) → length r ≤ length s → Comes (Ends r) (again r))
    → Comes (Ends (c ∷ s)) (framed again o)
framed-Comes again c s none e ih = tt
framed-Comes again c s (some r) e ih =
    let (p, split, shorter) = skip_frame-split s r e in
    later-Ends (c ∷ s) (c ∷ p) r (again r) (ap (◌∷◌ c) split) (ih r shorter)

lined-Comes :
    (limit fuel : ℕ) (again : Bytes → Result Response) (s : Bytes) (o : Option (Bytes × Bytes))
    → read_line s ≡ o
    → length s ≤ fuel
    → ((r : Bytes) → length r < length s → Comes (Ends r) (again r))
    → Comes (Ends s) (lined limit fuel again o)
lined-Comes limit fuel again s none e h ih = tt
lined-Comes limit fuel again s (some (line, r)) e h ih =
    let (split, shorter) = read_line-split s line r e in
    if_cases (Comes (Ends s)) (has_prefix line (codes "RTSP/")) _ _
      (λ _.
        Comes-map (Pieces (line ++ r)) (Ends s) _ (λ a p. ([], split ∙ p))
          (read_from-Comes limit fuel line r (omega arith)))
      (λ _. later-Ends s line r (again r) split (ih r shorter))

read_response-Comes :
    (limit fuel : ℕ) (input : Bytes)
    → length input < fuel
    → Comes (Ends input) (read_response limit fuel input)
unfolding read_response
read_response-Comes limit zero input h = absurd (omega arith)
read_response-Comes limit (suc fuel) [] h = tt
read_response-Comes limit (suc fuel) (c ∷ s) h =
    let again = read_response-Comes limit fuel in
    if_cases (Comes (Ends (c ∷ s))) (c == 36) _ _
      (λ _.
        framed-Comes (read_response limit fuel) c s (skip_frame s) refl
          (λ r k. again r (omega arith)))
      (λ _.
        lined-Comes limit fuel (read_response limit fuel) (c ∷ s) (read_line (c ∷ s)) refl
          (omega arith) (λ r k. again r (omega arith)))

-- If the connection delivers these bytes and then no more, so that a further read fails, then
-- readRTSPResponse ends within one round more than there are bytes: it fails, panics or returns a
-- response. A response and what is left are exactly the end of these bytes, behind a part that was skipped.
pub read_rtsp_response-Comes :
    (limit : ℕ) (input : Bytes) → Comes (Ends input) (read_rtsp_response limit input)
unfolding read_rtsp_response
read_rtsp_response-Comes limit input =
    read_response-Comes limit (suc (length input)) input (omega arith)
