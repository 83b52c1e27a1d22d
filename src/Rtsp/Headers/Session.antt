-- ===== src/Rtsp/Headers/Session.antt =====
-- Which identifier ParseSession returns.
use o_camera_agent.Common.{
  ℕ, ◌≡◌, refl, ap, ◌∙◌, true, false, List, [], ◌∷◌, ◌++◌, append_assoc, append-nil, Option, none,
  some, arith, All,
}
use o_camera_agent.Common.Text.{Bytes, codes, has_prefix, has_prefix-append, contains}
use o_camera_agent.Common.Split.{split_two, split_crlf, before, before-Lacks, Lacks}
use o_camera_agent.Rtsp.Headers.{behind_session, session_of, parse_session}

-- Lines, each with its end.
abbrev pub crlf : List Bytes → Bytes
crlf [] = []
crlf (l ∷ ls) = l ++ (b'\r' ∷ b'\n' ∷ crlf ls)

pub split-crlf :
    (l s : Bytes) → Lacks b'\r' l → split_crlf (l ++ (b'\r' ∷ b'\n' ∷ s)) ≡ l ∷ split_crlf s
unfolding split_two
split-crlf [] s h = refl
split-crlf (c ∷ l) s (hc, hl) = rw (hc, split-crlf l s hl)

contains-append : (p s sub : Bytes) → contains s sub ≡ true → contains (p ++ s) sub ≡ true
unfolding contains
contains-append [] s sub h = h
contains-append (c ∷ p) s sub h = ground (arith, contains-append p s sub h)

contains-prefix : (p s : Bytes) → contains (p ++ s) p ≡ true
unfolding contains
contains-prefix [] [] = unfold has_prefix in refl
contains-prefix [] (c ∷ s) = unfold has_prefix in refl
contains-prefix (c ∷ p) s = ground (arith, has_prefix-append (c ∷ p) s)

pub contains-Lacks : (b : ℕ) (s : Bytes) → Lacks b s → contains s (b ∷ []) ≡ false
unfolding contains has_prefix
contains-Lacks b [] h = refl
contains-Lacks b (c ∷ s) h = ground (arith, contains-Lacks b s h.1)

-- The byte behind the colon is dropped, whatever it is; there must be one.
abbrev pub but_first : Bytes → Option Bytes
but_first [] = none
but_first (c ∷ s) = some s

behind-Session : (v : Bytes) → behind_session (codes "Session:" ++ v) ≡ but_first v
behind-Session [] = refl
behind-Session (c ∷ v) = ground arith

pub Lacks-append : (b : ℕ) (s t : Bytes) → Lacks b s → Lacks b t → Lacks b (s ++ t)
Lacks-append b [] t h k = k
Lacks-append b (c ∷ s) t h k = (h.0, Lacks-append b s t h.1 k)

-- What may follow the value: nothing, or a semicolon and parameters.
pub data Parameters : Type 0 where
  absent : Parameters
  present : Bytes → Parameters

abbrev pub parameters_text : Parameters → Bytes
parameters_text absent = []
parameters_text (present q) = b';' ∷ q

head-Lacks : (v : Bytes) → Lacks b';' v → Lacks b';' (codes "Session:" ++ v)
head-Lacks v h =
    Lacks-append b';' (codes "Session:") v
      (refl, (refl, (refl, (refl, (refl, (refl, (refl, (refl, tt)))))))) h

session_plain :
    (e : Bytes) (rest : List Bytes)
    → contains e (codes "Session:") ≡ true
    → contains e (codes ";") ≡ false
    → session_of (e ∷ rest) ≡ behind_session e
unfolding session_of
session_plain e rest h k = rw (h, k)

session_with_parameters :
    (e : Bytes) (rest : List Bytes)
    → contains e (codes "Session:") ≡ true
    → contains e (codes ";") ≡ true
    → session_of (e ∷ rest) ≡ behind_session (before b';' e)
unfolding session_of
session_with_parameters e rest h k = rw (h, k)

session_elsewhere :
    (e : Bytes) (rest : List Bytes)
    → contains e (codes "Session:") ≡ false
    → session_of (e ∷ rest) ≡ session_of rest
unfolding session_of
session_elsewhere e rest h = rw h

abbrev pub session_line : Bytes → Parameters → Bytes
session_line v q = codes "Session:" ++ (v ++ parameters_text q)

session_of-header :
    (v : Bytes) (q : Parameters) (rest : List Bytes)
    → Lacks b';' v
    → session_of (session_line v q ∷ rest) ≡ but_first v
session_of-header v absent rest h =
    let found = contains-prefix (codes "Session:") (v ++ []) in
    let none_here =
      contains-Lacks b';' (codes "Session:" ++ (v ++ []))
        (head-Lacks (v ++ []) (rw append-nil h)) in
    session_plain (session_line v absent) rest found none_here ∙ rw append-nil (behind-Session v)
session_of-header v (present q) rest h =
    let e = codes "Session:" ++ v in
    let found = contains-prefix (codes "Session:") (v ++ b';' ∷ q) in
    let semicolon = contains-append e (b';' ∷ q) (codes ";") (contains-prefix (codes ";") q) in
    session_with_parameters (session_line v (present q)) rest found semicolon
    ∙ ap behind_session (before-Lacks b';' e q (head-Lacks v h))
    ∙ behind-Session v

-- A line that does not name the header.
pub record IsOther (l : Bytes) : Type 0 where
  pub unnamed : contains l (codes "Session:") ≡ false
  pub one_line : Lacks b'\r' l

session_of-others :
    (ls : List Bytes) (s : Bytes) → All IsOther ls → parse_session (crlf ls ++ s) ≡ parse_session s
unfolding parse_session
session_of-others [] s h = refl
session_of-others (l ∷ ls) s (h, hs) =
    ap (λ x. session_of (split_crlf x)) (append_assoc l _ s)
    ∙ ap session_of (split-crlf l (crlf ls ++ s) h.one_line)
    ∙ session_elsewhere l (split_crlf (crlf ls ++ s)) h.unnamed
    ∙ session_of-others ls s hs

-- In a response whose first line with "Session:" starts with it, ParseSession returns what stands
-- between the byte behind the colon and a semicolon or the end of the line: that byte is dropped
-- whatever it is, a space or not. If nothing stands behind the colon, the program panics.
pub parse_session-header :
    (ls : List Bytes) (v : Bytes) (q : Parameters) (rest : Bytes)
    → All IsOther ls
    → Lacks b'\r' (session_line v q)
    → Lacks b';' v
    → parse_session (crlf ls ++ (session_line v q ++ (b'\r' ∷ b'\n' ∷ rest))) ≡ but_first v
unfolding parse_session
parse_session-header ls v q rest hs one_line h =
    session_of-others ls (session_line v q ++ (b'\r' ∷ b'\n' ∷ rest)) hs
    ∙ ap session_of (split-crlf (session_line v q) rest one_line)
    ∙ session_of-header v q (split_crlf rest) h
