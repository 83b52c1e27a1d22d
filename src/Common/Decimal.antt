-- ===== src/Common/Decimal.antt =====
-- Decimal numbers as text: Go's strconv.Atoi, on a 64-bit int, and strconv.Itoa.
use Prim.Native.Nat.{ℕ, zero, suc, ◌+◌, ◌-◌, ◌*◌, ◌/◌, ◌%◌, ◌^◌}
use mathlib.Core.Bool.{Bool, true, false, ◌&&◌}
use mathlib.Core.Option.{Option, none, some}
use mathlib.Core.List.{[], ◌∷◌, ◌++◌}
use o_camera_agent.Common.Tests.{ltb, leb, ◌==◌, if◌then◌else◌}
use o_camera_agent.Common.Int.{ℤ, pos, negsuc}
use o_camera_agent.Common.Text.{Bytes}

abbrev is_digit : ℕ → Bool
is_digit c = leb b'0' c && leb c b'9'

-- The number that digits spell behind `n`; `none` if one is no digit.
unfoldable pub digits_value : ℕ → Bytes → Option ℕ
digits_value n [] = some n
digits_value n (c ∷ s) =
    let rest = digits_value (n * 10 + (c - b'0')) s in if is_digit c then rest else none

-- What Atoi returns, and whether the error is `nil`: a number out of range is cut to the range.
pub record Atoi : Type 0 where
  pub value : ℤ
  pub is_ok : Bool

abbrev syntax_error : Atoi
syntax_error = record { value = pos 0; is_ok = false }

abbrev cut_above : ℕ → Atoi
cut_above n =
    if ltb n (2 ^ 63)
    then record { value = pos n; is_ok = true }
    else record { value = pos (2 ^ 63 - 1); is_ok = false }

abbrev negative : ℕ → ℤ
negative zero = pos 0
negative (suc n) = negsuc n

abbrev cut_below : ℕ → Atoi
cut_below n =
    if leb n (2 ^ 63)
    then record { value = negative n; is_ok = true }
    else record { value = negsuc (2 ^ 63 - 1); is_ok = false }

abbrev unsigned : (ℕ → Atoi) → Bytes → Atoi
unsigned cut [] = syntax_error
unsigned cut (c ∷ s) = elim (digits_value 0 (c ∷ s)) [ none ↦ syntax_error | some n ↦ cut n ]

unfoldable pub atoi : Bytes → Atoi
unfolding digits_value
atoi [] = syntax_error
atoi (c ∷ s) =
    if c == b'-'
    then unsigned cut_below s
    else if c == b'+'
    then unsigned cut_above s
    else unsigned cut_above (c ∷ s)

-- With `f` digits at most.
itoa_in : ℕ → ℕ → Bytes
itoa_in zero n = []
itoa_in (suc f) n =
    let more = itoa_in f (n / 10) ++ (b'0' + n % 10) ∷ [] in
    if ltb n 10 then (b'0' + n) ∷ [] else more

unfoldable pub itoa : ℕ → Bytes
unfolding itoa_in
itoa n = itoa_in (suc n) n
