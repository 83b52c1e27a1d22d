-- ===== src/Common/Text.antt =====
-- Byte strings, and the functions of Go's `strings` that the program calls on them.
-- Case folding is that of ASCII; white space is that of unicode.IsSpace.
use Prim.Native.Nat.{ℕ, zero, suc, ◌+◌}
use Prim.Native.Char.{code}
use Prim.Native.String.{String}
use mathlib.Core.Path.{◌≡◌, refl}
use mathlib.Core.Logic.{◌↔◌}
use mathlib.Core.Bool.{Bool, true, false, ◌&&◌, ◌||◌}
use mathlib.Core.Option.{Option, none, some}
use mathlib.Core.List.{List, [], ◌∷◌, ◌++◌, reverse}
use native.Mathlib.Omega.{arith}
use o_camera_agent.Common.Tests.{leb, ◌==◌, if◌then◌else◌}
use o_camera_agent.Common.Lists.{length, drop}

abbrev pub Bytes : Type 0
Bytes = List ℕ

-- The code points of a literal: its bytes, as every literal here is ASCII.
abbrev pub codes : String → Bytes
codes String.[] = []
codes (String.◌∷◌ c s) = code c ∷ codes s

-- Equality of two strings.
unfoldable pub same : Bytes → Bytes → Bool
same [] [] = true
same (x ∷ xs) (y ∷ ys) = x == y && same xs ys
same _ _ = false

pub same_iff : (a b : Bytes) → (same a b ≡ true) ↔ (a ≡ b)
unfolding same
same_iff (x ∷ a) (y ∷ b) = ground (arith, same_iff a b)
same_iff _ _ = ground arith

pub same_self : (a : Bytes) → same a a ≡ true
same_self a = (same_iff a a).1 refl

-- strings.HasPrefix
unfoldable pub has_prefix : Bytes → Bytes → Bool
has_prefix s [] = true
has_prefix [] (p ∷ ps) = false
has_prefix (c ∷ s) (p ∷ ps) = c == p && has_prefix s ps

pub has_prefix-append : (p s : Bytes) → has_prefix (p ++ s) p ≡ true
unfolding has_prefix
has_prefix-append [] s = refl
has_prefix-append (c ∷ p) s = ground (arith, has_prefix-append p s)

pub has_prefix_split : (s p : Bytes) → has_prefix s p ≡ true → s ≡ p ++ drop (length p) s
unfolding has_prefix
has_prefix_split s [] h = refl
has_prefix_split [] (p ∷ ps) h = cc
has_prefix_split (c ∷ s) (p ∷ ps) h = ground (arith, has_prefix_split s ps)

-- strings.Index; `none` is -1
unfoldable pub index : Bytes → Bytes → Option ℕ
unfolding has_prefix
index [] sub = if has_prefix [] sub then some 0 else none
index (c ∷ s) sub =
    let rest = index s sub in
    if has_prefix (c ∷ s) sub then some 0 else (elim rest [ none ↦ none | some i ↦ some (suc i) ])

-- strings.Contains
unfoldable pub contains : Bytes → Bytes → Bool
unfolding has_prefix
contains [] sub = has_prefix [] sub
contains (c ∷ s) sub = has_prefix (c ∷ s) sub || contains s sub

-- strings.ToLower, byte by byte, on ASCII letters
unfoldable pub to_lower : ℕ → ℕ
to_lower c = if leb b'A' c && leb c b'Z' then c + 32 else c

unfoldable pub is_space : ℕ → Bool
is_space c = (leb 9 c && leb c 13) || c == 32

-- The other spaces of unicode.IsSpace in UTF-8: U+0085 and U+00A0 in two bytes; U+1680, U+2000 to U+200A,
-- U+2028, U+2029, U+202F, U+205F and U+3000 in three.
abbrev is_space2 : ℕ → ℕ → Bool
is_space2 a b = a == 194 && (b == 133 || b == 160)

abbrev is_space3 : ℕ → ℕ → ℕ → Bool
is_space3 a b c =
    (a == 225 && b == 154 && c == 128)
    || (a == 226 && b == 128 && ((leb 128 c && leb c 138) || c == 168 || c == 169 || c == 175))
    || (a == 226 && b == 129 && c == 159)
    || (a == 227 && b == 128 && c == 128)

-- How many bytes a space has that starts with `a`, 0 if there is none.
abbrev pub wide : ℕ → Bytes → ℕ
wide a [] = 0
wide a (b ∷ []) = if is_space2 a b then 2 else 0
wide a (b ∷ c ∷ s) = if is_space2 a b then 2 else if is_space3 a b c then 3 else 0

-- The same for the reverse of a text.
abbrev pub wide_back : ℕ → Bytes → ℕ
wide_back a [] = 0
wide_back a (b ∷ []) = if is_space2 b a then 2 else 0
wide_back a (b ∷ c ∷ s) = if is_space2 b a then 2 else if is_space3 c b a then 3 else 0

unfoldable pub width : (ℕ → Bytes → ℕ) → ℕ → Bytes → ℕ
unfolding is_space
width wide c s = if is_space c then 1 else if leb 128 c then wide c s else 0

-- The text behind the next bytes, so many of them, and the spaces behind these.
unfoldable pub drop_space : (ℕ → Bytes → ℕ) → ℕ → Bytes → Bytes
unfolding width
drop_space wide n [] = []
drop_space wide (suc n) (c ∷ s) = drop_space wide n s
drop_space wide zero (c ∷ s) = elim (width wide c s) [ zero ↦ c ∷ s | suc n ↦ drop_space wide n s ]

-- strings.TrimSpace
unfoldable pub trim_space : Bytes → Bytes
unfolding drop_space
trim_space s = reverse (drop_space wide_back 0 (reverse (drop_space wide 0 s)))

-- A byte that is a space, or part of a longer character.
unfoldable pub is_blank : ℕ → Bool
unfolding is_space
is_blank c = is_space c || leb 128 c

pub width-zero : (w : ℕ → Bytes → ℕ) (c : ℕ) (s : Bytes) → is_blank c ≡ false → width w c s ≡ 0
unfolding width is_blank
width-zero w c s h = ground (arith, h)
