-- ===== src/XapiMon/Turns.antt =====
-- What holds of the Xapi monitor of daemon/xapi_mon.c between two turns of its loop.
use xha.Prelude.{◌≤◌, ◌≡◌, true, none}
use xha.Prelude.Int.{ℤ, pos, negsuc, leb_ℤ}
use xha.XapiMon.{ComXapimon, XapiMonitor}

-- The greatest and the least latency are those of no check, as before the first and after they were
-- queried, or the last latency lies between them.
abbrev pub HasStatistics : ℤ → ℤ → ℤ → Type 0
HasStatistics last (negsuc m) min = (m ≡ 0) × (min ≡ negsuc 0)
HasStatistics (pos l) (pos m) (pos n) = (n ≤ l) × (l ≤ m)
HasStatistics (negsuc l) (pos m) min = ⊥
HasStatistics (pos l) (pos m) (negsuc n) = ⊥

pub record IsSound (s : XapiMonitor) : Type 0 where
  pub statistics : HasStatistics s.xapimon.latency s.xapimon.latency_max s.xapimon.latency_min
  pub not_checking : s.xapimon.time_healthcheck_start ≡ negsuc 0
  pub retries : s.exited ≡ none → s.fork_errcnt ≤ 5
  pub not_restarting : s.exited ≡ none → s.xapimon.time_xapi_restart ≡ negsuc 0

-- Times that were measured since the statistics were begun anew stay between the least and the
-- greatest.
abbrev pub Covers : ComXapimon → ComXapimon → Type 0
Covers before after =
    (leb_ℤ before.latency_max after.latency_max ≡ true)
    × (leb_ℤ (pos 0) before.latency_min ≡ true → leb_ℤ after.latency_min before.latency_min ≡ true)

-- What a turn leaves.
abbrev pub Turned : XapiMonitor → XapiMonitor → Type 0
Turned s t = IsSound t × Covers s.xapimon t.xapimon
