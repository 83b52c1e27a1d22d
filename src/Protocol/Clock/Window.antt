-- ===== src/Protocol/Clock/Window.antt =====
-- Which time stamps `tsAcceptable` takes.
use o_camera_agent.Common.{◌+◌, ◌*◌, ◌^◌, ◌≤◌, ◌<◌, ◌≡◌, ◌↔◌, ◌⊎◌, inl, inr, true, arith}
use o_camera_agent.Common.Int.{ℤ, pos, negsuc, pos_part, neg_part}
use o_camera_agent.Protocol.Clock.{Time, second, unix_to_internal, clock_synced, ts_acceptable}

-- The stamp is at most 30 seconds from the clock, to either side.
pub record IsWithinSkew (ts : ℤ) (now : Time) : Type 0 where
  pub not_old : now.unix_ns + neg_part ts * second ≤ pos_part ts * second + 30 * second
  pub not_early : pos_part ts * second ≤ now.unix_ns + neg_part ts * second + 30 * second

-- The stamp is at least 2^63 nanoseconds (more than 292 years) ahead of the clock.
abbrev pub IsFarAhead : ℤ → Time → Type 0
IsFarAhead ts now = now.unix_ns + neg_part ts * second + 2 ^ 63 ≤ pos_part ts * second

-- An int64 that `time.Unix` represents without overflow.
abbrev pub IsUnixTime : ℤ → Type 0
IsUnixTime ts = (pos_part ts + unix_to_internal < 2 ^ 63) × (neg_part ts ≤ 2 ^ 63)

accepted_only :
    (ts : ℤ) (now : Time)
    → IsUnixTime ts
    → now.unix_ns < 2 ^ 63
    → clock_synced now ≡ true
    → ts_acceptable ts now ≡ true
    → IsWithinSkew ts now ⊎ IsFarAhead ts now
unfolding ts_acceptable
accepted_only (pos t) now fits early synced h = ground arith
accepted_only (negsuc t) now fits early synced h = ground arith

within_accepted :
    (ts : ℤ) (now : Time)
    → IsUnixTime ts
    → now.unix_ns < 2 ^ 63
    → IsWithinSkew ts now
    → ts_acceptable ts now ≡ true
unfolding ts_acceptable
within_accepted (pos t) now fits early h = ground arith
within_accepted (negsuc t) now fits early h = ground arith

-- A stamp at least 2^63 nanoseconds ahead of a clock before 2262 passes the check: the
-- difference saturates at the least int64, whose negation is itself.
far_ahead_accepted :
    (ts : ℤ) (now : Time)
    → IsUnixTime ts
    → now.unix_ns < 2 ^ 63
    → IsFarAhead ts now
    → ts_acceptable ts now ≡ true
unfolding ts_acceptable
far_ahead_accepted (pos t) now fits early h = ground arith
far_ahead_accepted (negsuc t) now fits early h = ground arith

-- With a synchronized clock that stands before the year 2262, a time stamp that is an int64 and that
-- time.Unix can represent is accepted exactly when it is at most 30 seconds from the clock, or at
-- least 2^63 nanoseconds ahead of it.
pub ts_acceptable_iff :
    (ts : ℤ) (now : Time)
    → IsUnixTime ts
    → now.unix_ns < 2 ^ 63
    → clock_synced now ≡ true
    → (ts_acceptable ts now ≡ true) ↔ (IsWithinSkew ts now ⊎ IsFarAhead ts now)
ts_acceptable_iff ts now fits early synced = (
  accepted_only ts now fits early synced,
  λ either. elim either [
    | inl w ↦ within_accepted ts now fits early w
    | inr f ↦ far_ahead_accepted ts now fits early f
  ],
)
