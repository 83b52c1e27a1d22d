-- ===== src/Common/Split.antt =====
-- The functions of Go's `strings` that cut a text into parts.
use Prim.Native.Nat.{ℕ, zero, suc}
use mathlib.Core.Path.{◌≡◌, refl}
use mathlib.Core.Bool.{Bool, true, false, ◌&&◌}
use mathlib.Core.Option.{Option, none, some}
use mathlib.Core.List.{List, [], ◌∷◌, ◌++◌, append_assoc, append-nil}
use o_camera_agent.Common.Tests.{◌==◌, if◌then◌else◌, ==_self}
use o_camera_agent.Common.Lists.{All, length, drop}
use o_camera_agent.Common.Text.{Bytes, width, wide, is_blank, width-zero}

abbrev pub cons_head : ℕ → List Bytes → List Bytes
cons_head c [] = (c ∷ []) ∷ []
cons_head c (p ∷ ps) = (c ∷ p) ∷ ps

-- strings.Split at one byte
unfoldable pub split : ℕ → Bytes → List Bytes
split sep [] = [] ∷ []
split sep (c ∷ s) = let rest = split sep s in if c == sep then [] ∷ rest else cons_head c rest

abbrev starts : ℕ → Bytes → Bool
starts b [] = false
starts b (c ∷ s) = c == b

-- strings.Split at two bytes, from a byte that is skipped or not
unfoldable pub split_two : ℕ → ℕ → Bool → Bytes → List Bytes
split_two a b skip [] = [] ∷ []
split_two a b true (c ∷ s) = split_two a b false s
split_two a b false (c ∷ s) =
    let found = c == a && starts b s in
    let rest = split_two a b found s in if found then [] ∷ rest else cons_head c rest

-- strings.Split at "\r\n"
abbrev pub split_crlf : Bytes → List Bytes
split_crlf = split_two b'\r' b'\n' false

-- SplitN(s, sep, 2)[0]
unfoldable pub before : ℕ → Bytes → Bytes
before sep [] = []
before sep (c ∷ s) = let rest = before sep s in if c == sep then [] else c ∷ rest

-- strings.IndexByte
unfoldable pub index_byte : ℕ → Bytes → Option ℕ
index_byte b [] = none
index_byte b (c ∷ s) =
    let rest = index_byte b s in
    if c == b then some 0 else (elim rest [ none ↦ none | some i ↦ some (suc i) ])

-- strings.LastIndex of one byte
unfoldable pub last_index : ℕ → Bytes → Option ℕ
last_index b [] = none
last_index b (c ∷ s) = elim (last_index b s) [
  | some i ↦ some (suc i)
  | none ↦ if c == b then some 0 else none
]

abbrev word : Bytes → List Bytes
word [] = []
word (c ∷ s) = (c ∷ s) ∷ []

-- `cur` is the word that is being read; the next `n` bytes belong to a space.
unfoldable pub fields_in : ℕ → Bytes → Bytes → List Bytes
unfolding width
fields_in n cur [] = word cur
fields_in (suc n) cur (c ∷ s) = fields_in n cur s
fields_in zero cur (c ∷ s) = elim (width wide c s) [
  | zero ↦ fields_in 0 (cur ++ c ∷ []) s
  | suc n ↦ word cur ++ fields_in n [] s
]

-- strings.Fields
abbrev pub fields : Bytes → List Bytes
fields = fields_in 0 []

-- A text that a byte is not in.
abbrev pub Lacks : ℕ → Bytes → Type 0
Lacks b = All (λ c. (c == b) ≡ false)

-- A text of ASCII characters with no space in it.
abbrev pub IsSolid : Bytes → Type 0
IsSolid = All (λ c. is_blank c ≡ false)

pub split-Lacks : (sep : ℕ) (p : Bytes) → Lacks sep p → split sep p ≡ p ∷ []
unfolding split
split-Lacks sep [] h = refl
split-Lacks sep (c ∷ p) (hc, hp) = rw (hc, split-Lacks sep p hp)

pub split-append :
    (sep : ℕ) (p s : Bytes) → Lacks sep p → split sep (p ++ sep ∷ s) ≡ p ∷ split sep s
unfolding split
split-append sep [] s h = rw (==_self sep)
split-append sep (c ∷ p) s (hc, hp) = rw (hc, split-append sep p s hp)

pub before-Lacks : (sep : ℕ) (p s : Bytes) → Lacks sep p → before sep (p ++ sep ∷ s) ≡ p
unfolding before
before-Lacks sep [] s h = rw (==_self sep)
before-Lacks sep (c ∷ p) s (hc, hp) = rw (hc, before-Lacks sep p s hp)

pub fields_in-IsSolid :
    (cur w s : Bytes) → IsSolid w → fields_in 0 cur (w ++ s) ≡ fields_in 0 (cur ++ w) s
unfolding fields_in
fields_in-IsSolid cur [] s h = rw append-nil
fields_in-IsSolid cur (c ∷ w) s (hc, hw) =
    rw (width-zero wide c (w ++ s) hc, fields_in)
      (rw (fields_in-IsSolid (cur ++ c ∷ []) w s hw, append_assoc))

pub last_index-Lacks : (b : ℕ) (s : Bytes) → Lacks b s → last_index b s ≡ none
unfolding last_index
last_index-Lacks b [] h = refl
last_index-Lacks b (c ∷ s) (hc, hs) = rw (last_index-Lacks b s hs, hc)

pub last_index-append :
    (b : ℕ) (p s : Bytes) → Lacks b s → last_index b (p ++ b ∷ s) ≡ some (length p)
unfolding last_index
last_index-append b [] s h = rw (last_index-Lacks b s h, ==_self b)
last_index-append b (c ∷ p) s h = rw (last_index-append b p s h)

pub drop-suc-append : (p : Bytes) (c : ℕ) (s : Bytes) → drop (suc (length p)) (p ++ c ∷ s) ≡ s
drop-suc-append [] c s = refl
drop-suc-append (d ∷ p) c s = drop-suc-append p c s
