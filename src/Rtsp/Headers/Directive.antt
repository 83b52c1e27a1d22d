-- ===== src/Rtsp/Headers/Directive.antt =====
-- Which value ParseDirective returns, and when it panics.
use o_camera_agent.Common.{
  ℕ, suc, ◌+◌, ◌-◌, ◌≡◌, refl, ap, ◌∙◌, [], ◌∷◌, ◌++◌, append_assoc, Option, none, some, arith,
  length, length-append, drop, drop-append, take-append,
}
use o_camera_agent.Common.Text.{Bytes, codes, index, trim_space}
use o_camera_agent.Common.Split.{Lacks}
use o_camera_agent.Rtsp.Headers.{slice, directive_end, trimmed, parse_directive}

-- The text behind the opening quote: the value up to its closing quote, or a value that is not closed.
pub data Value : Type 0 where
  closed : Bytes → Bytes → Value
  unclosed : Bytes → Value

abbrev pub value_text : Value → Bytes
value_text (closed v rest) = v ++ b'"' ∷ rest
value_text (unclosed v) = v

-- The value holds no quote.
abbrev pub HasNoQuote : Value → Type 0
HasNoQuote (closed v rest) = Lacks b'"' v
HasNoQuote (unclosed v) = Lacks b'"' v

abbrev pub returned : Value → Option Bytes
returned (closed v rest) = some (trim_space v)
returned (unclosed v) = none

abbrev pub key : Bytes → Bytes
key name = name ++ codes "=\""

index-closed :
    (v rest : Bytes) → Lacks b'"' v → index (v ++ b'"' ∷ rest) (codes "\"") ≡ some (length v)
unfolding index
index-closed [] rest h = refl
index-closed (c ∷ v) rest h = rw (index-closed v rest h.1) (ground (arith, h.0))

index-unclosed : (v : Bytes) → Lacks b'"' v → index v (codes "\"") ≡ none
unfolding index
index-unclosed [] h = refl
index-unclosed (c ∷ v) h = rw (index-unclosed v h.1) (ground (arith, h.0))

length-key : (name : Bytes) → length (key name) ≡ length name + 2
length-key name = omega (arith, length-append name (codes "=\""))

drop-key : (pre name s : Bytes) → drop (length pre + (length name + 2)) (pre ++ (key name ++ s)) ≡ s
drop-key pre name s =
    let e : length pre + (length name + 2) ≡ length (pre ++ key name) =
      omega (arith, length-append pre (key name), length-key name) in
    rw (e, ← append_assoc pre (key name) s) (drop-append (pre ++ key name) s)

slice-closed :
    (start : ℕ) (h v rest : Bytes)
    → drop start h ≡ v ++ b'"' ∷ rest
    → start + length v + 1 + length rest ≡ length h
    → slice start (start + length v) h ≡ some v
slice-closed start h v rest d e =
    let n : start + length v - start ≡ length v = omega arith in
    rw (n, d, take-append) (ground arith)

slice-unclosed : (start : ℕ) (h : Bytes) → slice (suc start) (suc start - 1) h ≡ none
slice-unclosed start h = ground arith

directive_found :
    (header name : Bytes) (i : ℕ)
    → index header (key name) ≡ some i
    → let start = i + (length name + 2) in
      parse_directive header name
      ≡ trimmed (slice start (directive_end start (index (drop start header) (codes "\""))) header)
unfolding parse_directive
directive_found header name i h = rw (h, parse_directive)

-- Where the key is first found, behind some text: the value is what stands before the closing quote,
-- without the spaces around it. If the quote is never closed, the program panics.
pub parse_directive_lem :
    (pre name : Bytes) (x : Value)
    → index (pre ++ (key name ++ value_text x)) (key name) ≡ some (length pre)
    → HasNoQuote x
    → parse_directive (pre ++ (key name ++ value_text x)) name ≡ returned x
parse_directive_lem pre name (closed v rest) i h =
    let start = length pre + (length name + 2) in
    let header = pre ++ (key name ++ (v ++ b'"' ∷ rest)) in
    let behind = drop-key pre name (v ++ b'"' ∷ rest) in
    let long : start + length v + 1 + length rest ≡ length header = omega (
      arith,
      length-append pre (key name ++ (v ++ b'"' ∷ rest)),
      length-append (key name) (v ++ b'"' ∷ rest),
      length-append v (b'"' ∷ rest),
      length-key name,
    ) in
    directive_found header name (length pre) i
    ∙ ap (λ o. trimmed (slice start (directive_end start o) header))
        (ap (λ s. index s (codes "\"")) behind ∙ index-closed v rest h)
    ∙ ap trimmed (slice-closed start header v rest behind long)
parse_directive_lem pre name (unclosed v) i h =
    let header = pre ++ (key name ++ v) in
    let start = length pre + (length name + 2) in
    let before = length pre + length name + 1 in
    let e : start ≡ suc before = omega arith in
    directive_found header name (length pre) i
    ∙ ap (λ o. trimmed (slice start (directive_end start o) header))
        (ap (λ s. index s (codes "\"")) (drop-key pre name v) ∙ index-unclosed v h)
    ∙ ap (λ n. trimmed (slice n (n - 1) header)) e
    ∙ ap trimmed (slice-unclosed before header)
