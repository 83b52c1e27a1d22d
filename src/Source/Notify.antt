-- ===== src/Source/Notify.antt =====
-- When a probe of the monitor calls `onChange`.
use o_camera_agent.Common.{◌≡◌, ◌≢◌, ◌↔◌, Bool, true, Option, none, some, arith}
use o_camera_agent.Source.Codecs.{SourceInfo, same_info_iff}
use o_camera_agent.Source.{SourceMonitor, probe_now}

-- What others see of a monitor.
abbrev pub seen : SourceMonitor → Bool × Option SourceInfo
seen m = (m.online, m.info)

-- A probe calls the callback, where one is set, exactly when it changes reachability or the detected
-- codecs.
pub probe_now-notifies :
    (m : SourceMonitor) (r : Option SourceInfo)
    → m.on_change ≡ true
    → ((probe_now m r).notifies ≡ true) ↔ (seen (probe_now m r).monitor ≢ seen m)
unfolding probe_now
probe_now-notifies m none h = ground arith
probe_now-notifies m (some i) h = ground (arith, same_info_iff m.info (some i))
