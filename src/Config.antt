-- ===== src/Config.antt =====
-- include/config.h: the values of the configuration file that the daemon's decisions read, and
-- `ONE_SEC`, `_max`, `_min` of include/mtctypes.h.
use xha.Prelude.{ℕ, Bool, ltb, if◌then◌else◌}

pub record Config : Type 0 where
  pub hostnum : ℕ
  pub my_index : ℕ  -- _my_index
  pub heartbeat_interval : ℕ  -- _t1
  pub heartbeat_timeout : ℕ  -- _T1
  pub statefile_interval : ℕ  -- _t2
  pub statefile_timeout : ℕ  -- _T2
  pub heartbeat_watchdog_timeout : ℕ  -- _Wh
  pub statefile_watchdog_timeout : ℕ  -- _Ws
  pub boot_join_timeout : ℕ  -- _Tboot
  pub enable_join_timeout : ℕ  -- _Tenable

abbrev pub one_sec : ℕ
one_sec = 1000

abbrev pub c_max : ℕ → ℕ → ℕ
c_max x y = if ltb y x then x else y

abbrev pub c_min : ℕ → ℕ → ℕ
c_min x y = if ltb x y then x else y

-- `_is_configured_host(X)`
abbrev pub is_configured_host : Config → ℕ → Bool
is_configured_host cfg x = ltb x cfg.hostnum
