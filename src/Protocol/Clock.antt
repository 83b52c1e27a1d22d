-- ===== src/Protocol/Clock.antt =====
-- protocol.go: `clockSynced` and `tsAcceptable`, with the parts of Go's package time that they use.
-- An instant is the reading of the local clock: nanoseconds since 1970, and the local zone's offset
-- in seconds. `time.Unix` counts seconds since the year 1 in an int64, and `Time.Sub` saturates at
-- the ends of an int64 of nanoseconds.
pub mod Window
use o_camera_agent.Common.{ℕ, ◌+◌, ◌-◌, ◌*◌, ◌/◌, ◌%◌, ◌^◌, Bool, true, not, if◌then◌else◌}
use o_camera_agent.Common.Int.{ℤ, pos, negsuc, ◌+ℤ◌, ◌-ℤ◌, ◌*ℤ◌, ltb_ℤ, leb_ℤ, wrap_int64}

pub record Time : Type 0 where
  pub unix_ns : ℕ
  pub zone : ℤ

-- Nanoseconds in a second; durations are in nanoseconds.
abbrev pub second : ℕ
second = 1_000_000_000

abbrev pub max_clock_skew : ℤ
max_clock_skew = pos (30 * second)

-- Seconds from the year 1 to 1970.
abbrev pub unix_to_internal : ℕ
unix_to_internal = 62_135_596_800

-- now.Unix()
abbrev pub unix : Time → ℤ
unix now = pos (now.unix_ns / second)

-- now.Year() >= 2024: the local time is at or past the first second of 2024.
unfoldable pub clock_synced : Time → Bool
unfolding ◌+ℤ◌
clock_synced now = leb_ℤ (pos 1_704_067_200) (unix now +ℤ now.zone)

-- The int64 of nanoseconds nearest to an integer.
unfoldable pub saturate : ℤ → ℤ
saturate d =
    if ltb_ℤ d (negsuc (2 ^ 63 - 1))
    then negsuc (2 ^ 63 - 1)
    else if ltb_ℤ (pos (2 ^ 63 - 1)) d
    then pos (2 ^ 63 - 1)
    else d

-- now.Sub(time.Unix(ts, 0))
unfoldable pub sub_unix : Time → ℤ → ℤ
unfolding saturate wrap_int64 ◌+ℤ◌ ◌-ℤ◌ ◌*ℤ◌
sub_unix now ts = saturate (
    pos (now.unix_ns + unix_to_internal * second)
    -ℤ wrap_int64 (ts +ℤ pos unix_to_internal) *ℤ pos second)

unfoldable pub ts_acceptable : ℤ → Time → Bool
unfolding clock_synced sub_unix wrap_int64 ◌-ℤ◌
ts_acceptable ts now =
    if not (clock_synced now)
    then true
    else let d = sub_unix now ts in
      let d' = if ltb_ℤ d (pos 0) then wrap_int64 (pos 0 -ℤ d) else d in leb_ℤ d' max_clock_skew
