-- ===== src/Source.antt =====
-- source.go: the monitor of the RTSP source. A method that changes the monitor returns the new one;
-- what a probe returns is an argument, `none` for an error. Each method holds the monitor's lock
-- while it reads and writes the fields, so it is one step. `failures` does not wrap.
pub mod Codecs
pub mod Notify
pub mod Reachable
use o_camera_agent.Common.{
  ℕ, ◌+◌, ◌*◌, Bool, true, false, not, ◌&&◌, ◌||◌, List, [], ◌∷◌, Option, none, some, leb,
  if◌then◌else◌,
}
use o_camera_agent.Common.Int.{ℤ, pos, ltb_ℤ}
use o_camera_agent.Common.Text.{Bytes}
use o_camera_agent.Protocol.Clock.{second}
use Codecs.{SourceInfo, same_info}

abbrev pub default_probe_interval : ℤ
default_probe_interval = pos (30 * second)

abbrev pub min_probe_interval : ℤ
min_probe_interval = pos (5 * second)

abbrev pub probe_fail_threshold : ℕ
probe_fail_threshold = 3

pub record SourceMonitor : Type 0 where
  pub url : Bytes
  pub interval : ℤ
  pub on_change : Bool  -- whether the callback is set
  pub online : Bool
  pub failures : ℕ
  pub info : Option SourceInfo
  pub stopped : Bool  -- whether the channel `stop` is closed

unfoldable pub new_source_monitor : Bytes → ℤ → SourceMonitor
new_source_monitor url interval = record {
  url = url;
  interval = if ltb_ℤ interval min_probe_interval then default_probe_interval else interval;
  on_change = false;
  online = false;
  failures = 0;
  info = none;
  stopped = false;
}

-- The monitor after a method, and whether the method calls `onChange`.
pub record Update : Type 0 where
  pub monitor : SourceMonitor
  pub notifies : Bool

probe_ok : SourceMonitor → SourceInfo → Update
probe_ok m i =
    let same = same_info m.info (some i) in
    record {
      monitor = record m { failures = 0; online = true; info = if same then m.info else some i };
      notifies = (not same || not m.online) && m.on_change;
    }

abbrev is_none {ℓ} : {A : Type ℓ} → Option A → Bool
is_none none = true
is_none (some _) = false

probe_failed : SourceMonitor → Update
probe_failed m =
    let m' = record m { failures = m.failures + 1 } in
    if is_none m.info || leb probe_fail_threshold (m.failures + 1)
    then record { monitor = record m' { online = false }; notifies = m.online && m.on_change }
    else record { monitor = m'; notifies = false }

-- The result of the method is the field `online` of the new monitor.
unfoldable pub probe_now : SourceMonitor → Option SourceInfo → Update
unfolding probe_ok probe_failed
probe_now m (some i) = probe_ok m i
probe_now m none = probe_failed m

unfoldable pub mark_down : SourceMonitor → Update
mark_down m = record {
  monitor = record m { online = false; failures = probe_fail_threshold };
  notifies = m.online && m.on_change;
}

unfoldable pub stop : SourceMonitor → SourceMonitor
stop m = record m { stopped = true }

-- What wakes the loop of `Run`: a tick, with what `paused` answers and what a probe would return, or
-- the closed channel.
pub data Wake : Type 0 where
  tick : Bool → Option SourceInfo → Wake
  stopping : Wake

-- The monitor when the loop has seen these, and how often it called `onChange`.
unfoldable pub run : SourceMonitor → ℕ → List Wake → SourceMonitor × ℕ
unfolding probe_now
run m calls [] = (m, calls)
run m calls (stopping ∷ ws) = (m, calls)
run m calls (tick paused result ∷ ws) =
    let u = probe_now m result in
    let m' = if paused then m else u.monitor in
    run m' (if not paused && u.notifies then calls + 1 else calls) ws
