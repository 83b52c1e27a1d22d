-- ===== src/Common/Trim.antt =====
-- When `strings.TrimSpace` leaves a text as it is.
use mathlib.Core.Path.{◌≡◌, refl}
use mathlib.Core.Logic.{◌≢◌}
use mathlib.Core.Bool.{false}
use mathlib.Core.List.{[], ◌∷◌, ◌++◌, reverse, reverse-cons, reverse-append, reverse-reverse}
use Prim.Native.Nat.{ℕ}
use o_camera_agent.Common.Text.{
  Bytes, is_blank, width-zero, wide, wide_back, drop_space, trim_space,
}
use o_camera_agent.Common.Split.{IsSolid}

-- The last byte is an ASCII character that is no space.
abbrev pub EndsSolid : Bytes → Type 0
EndsSolid [] = ⊥
EndsSolid (c ∷ []) = is_blank c ≡ false
EndsSolid (c ∷ d ∷ s) = EndsSolid (d ∷ s)

abbrev pub StartsSolid : Bytes → Type 0
StartsSolid [] = ⊥
StartsSolid (c ∷ s) = is_blank c ≡ false

pub EndsSolid-IsSolid : (w : Bytes) → IsSolid w → w ≢ [] → EndsSolid w
EndsSolid-IsSolid [] h n = absurd (n refl)
EndsSolid-IsSolid (c ∷ []) h n = h.0
EndsSolid-IsSolid (c ∷ d ∷ w) h n = EndsSolid-IsSolid (d ∷ w) h.1 (λ e. cc)

pub EndsSolid-append : (s w : Bytes) → EndsSolid w → EndsSolid (s ++ w)
EndsSolid-append [] w h = h
EndsSolid-append (c ∷ []) [] h = elim h [ ]
EndsSolid-append (c ∷ []) (d ∷ w) h = h
EndsSolid-append (c ∷ d ∷ s) w h = EndsSolid-append (d ∷ s) w h

reverse_starts :
    (s : Bytes) → EndsSolid s → (c : ℕ) × (t : Bytes) × (reverse s ≡ c ∷ t) × (is_blank c ≡ false)
reverse_starts [] h = elim h [ ]
reverse_starts (c ∷ []) h = (c, [], refl, h)
reverse_starts (c ∷ d ∷ s) h =
    let (x, t, e, solid) = reverse_starts (d ∷ s) h in
    (x, t ++ c ∷ [], rw (reverse-cons c (d ∷ s), e), solid)

pub drop_space-StartsSolid : (w : ℕ → Bytes → ℕ) (s : Bytes) → StartsSolid s → drop_space w 0 s ≡ s
unfolding drop_space
drop_space-StartsSolid w [] h = elim h [ ]
drop_space-StartsSolid w (c ∷ s) h = rw (drop_space, width-zero w c s h) refl

drop_space-reverse :
    (w : ℕ → Bytes → ℕ) (s : Bytes) → EndsSolid s → drop_space w 0 (reverse s) ≡ reverse s
drop_space-reverse w s h =
    let (c, t, e, solid) = reverse_starts s h in rw e (drop_space-StartsSolid w (c ∷ t) solid)

pub trim_space-id : (s : Bytes) → StartsSolid s → EndsSolid s → trim_space s ≡ s
unfolding trim_space
trim_space-id s h k =
    rw (drop_space-StartsSolid wide s h, drop_space-reverse wide_back s k, reverse-reverse)

StartsSolid-append : (s t : Bytes) → StartsSolid s → StartsSolid (s ++ t)
StartsSolid-append [] t h = elim h [ ]
StartsSolid-append (c ∷ s) t h = h

drop_space_cr : (w : ℕ → Bytes → ℕ) (s : Bytes) → drop_space w 0 (b'\r' ∷ s) ≡ drop_space w 0 s
unfolding drop_space
drop_space_cr w s = refl

-- A line in front of its carriage return.
pub trim_space_cr : (s : Bytes) → StartsSolid s → EndsSolid s → trim_space (s ++ b'\r' ∷ []) ≡ s
unfolding trim_space
trim_space_cr s h k = rw (
  drop_space-StartsSolid wide (s ++ b'\r' ∷ []) (StartsSolid-append s (b'\r' ∷ []) h),
  reverse-append s (b'\r' ∷ []),
  drop_space_cr wide_back (reverse s),
  drop_space-reverse wide_back s k,
  reverse-reverse,
)
