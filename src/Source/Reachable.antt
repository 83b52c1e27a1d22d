-- ===== src/Source/Reachable.antt =====
-- When the source counts as reachable, against the history of what happened to it.
use o_camera_agent.Common.{
  ℕ, zero, suc, ◌≤◌, ◌<◌, ◌≡◌, refl, Bool, true, false, ◌&&◌, List, [], ◌∷◌, Option, none, some,
  arith, ltb,
}
use o_camera_agent.Common.Int.{ℤ}
use o_camera_agent.Common.Text.{Bytes}
use o_camera_agent.Source.Codecs.{SourceInfo, same_info_iff}
use o_camera_agent.Source.{
  SourceMonitor, new_source_monitor, probe_now, mark_down, probe_fail_threshold,
}

pub data Happening : Type 0 where
  probed : Option SourceInfo → Happening
  lost : Happening

unfoldable pub happen : Happening → SourceMonitor → SourceMonitor
unfolding probe_now mark_down
happen (probed r) m = (probe_now m r).monitor
happen lost m = (mark_down m).monitor

-- A history has its latest event first.
unfoldable pub after : SourceMonitor → List Happening → SourceMonitor
after m [] = m
after m (h ∷ hs) = happen h (after m hs)

-- One of the last `k` events is a successful probe, and all later ones are failed probes.
abbrev pub succeeded_within : ℕ → List Happening → Bool
succeeded_within zero hs = false
succeeded_within (suc k) [] = false
succeeded_within (suc k) (probed (some _) ∷ hs) = true
succeeded_within (suc k) (probed none ∷ hs) = succeeded_within k hs
succeeded_within (suc k) (lost ∷ hs) = false

-- What the last successful probe found.
abbrev pub last_found : List Happening → Option SourceInfo
last_found [] = none
last_found (probed (some i) ∷ hs) = some i
last_found (probed none ∷ hs) = last_found hs
last_found (lost ∷ hs) = last_found hs

record Tracks (m : SourceMonitor) (hs : List Happening) : Type 0 where
  recent : (k : ℕ) → k ≤ 3 → succeeded_within k hs ≡ (m.online && ltb m.failures k)
  few : m.online ≡ true → m.failures < 3
  found : m.info ≡ last_found hs
  known : m.info ≡ none → m.online ≡ false

new-Tracks : (url : Bytes) (interval : ℤ) → Tracks (new_source_monitor url interval) []
unfolding new_source_monitor
new-Tracks url interval = record {
  recent = none_recent;
  few = λ e. cc;
  found = refl;
  known = λ _. refl;
}
  where
    none_recent : (k : ℕ) → k ≤ 3 → succeeded_within k [] ≡ false
    none_recent zero h = refl
    none_recent (suc k) h = refl

module _ (m : SourceMonitor) (hs : List Happening) (t : Tracks m hs) where
  probe_ok-Tracks : (i : SourceInfo) → Tracks (happen (probed (some i)) m) (probed (some i) ∷ hs)
  unfolding happen
  probe_ok-Tracks i = record {
    recent = elim [ zero ↦ λ h. refl | suc k ↦ λ h. ground arith ];
    few = λ e. omega arith;
    found = ground (arith, same_info_iff m.info (some i));
    known = λ e. ground (arith, same_info_iff m.info (some i));
  }

  probe_failed-recent :
      (k : ℕ)
      → k ≤ 3
      → let m' = happen (probed none) m in
        succeeded_within k (probed none ∷ hs) ≡ (m'.online && ltb m'.failures k)
  unfolding happen
  probe_failed-recent zero h = ground arith
  probe_failed-recent (suc k) h = ground (arith, t.recent k)

  probe_failed-Tracks : Tracks (happen (probed none) m) (probed none ∷ hs)
  unfolding happen
  probe_failed-Tracks = record {
    recent = probe_failed-recent;
    few = λ e. ground arith;
    found = ground arith;
    known = λ e. ground arith;
  }

  mark_down-Tracks : Tracks (happen lost m) (lost ∷ hs)
  unfolding happen
  mark_down-Tracks = record {
    recent = elim [ zero ↦ λ h. refl | suc k ↦ λ h. refl ];
    few = λ e. cc;
    found = t.found;
    known = λ e. refl;
  }

after-Tracks :
    (url : Bytes) (interval : ℤ) (hs : List Happening)
    → Tracks (after (new_source_monitor url interval) hs) hs
unfolding after
after-Tracks url interval [] = new-Tracks url interval
after-Tracks url interval (probed (some i) ∷ hs) =
    probe_ok-Tracks _ hs (after-Tracks url interval hs) i
after-Tracks url interval (probed none ∷ hs) =
    probe_failed-Tracks _ hs (after-Tracks url interval hs)
after-Tracks url interval (lost ∷ hs) = mark_down-Tracks _ hs (after-Tracks url interval hs)

-- After any history of probes and lost streams, the camera is online exactly when one of the last
-- three events is a successful probe and all later ones are failed probes, and the codecs are those
-- of the last successful probe.
pub after_history :
    (url : Bytes) (interval : ℤ) (hs : List Happening)
    → let m = after (new_source_monitor url interval) hs in
      (m.online ≡ succeeded_within probe_fail_threshold hs) × (m.info ≡ last_found hs)
after_history url interval hs =
    let t = after-Tracks url interval hs in
    (ground (arith, t.recent 3 (omega arith), t.few), t.found)
