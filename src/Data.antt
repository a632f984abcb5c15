-- ===== src/Data.antt =====
-- The data shared by the daemon's threads: COM_DATA_SM, COM_DATA_HB and COM_DATA_SF of
-- include/sm.h, and the State Manager's own `smvar` of daemon/sm.c. Left out is what the State
-- Manager never reads: statistics (latency, approaching_timeout), error strings, the master's UUID,
-- and the fields that belong to the heartbeat and state-file threads (modified_mask, SF_corrupted,
-- the copies of the fencing mode, SF_accelerate). An array indexed by host is a function.
use xha.Prelude.{ℕ, Bool, Option, List, ◌==◌}
use xha.Prelude.Int.{ℤ}
use xha.HostMap.{HostMap}

-- MTC_FENCING_MODE
pub data FencingMode : Type 0 where
  fencing_none fencing_armed fencing_disarm_requested fencing_disarmed : FencingMode

-- SM_PHASE
pub data SmPhase : Type 0 where
  starting started aborted fhready fh1 fh1done fh2 fh2done fh3 fh3done fh4 fh4done : SmPhase

-- The value of a phase, by which the code compares phases.
abbrev pub phase_num : SmPhase → ℕ
phase_num starting = 0
phase_num started = 1
phase_num aborted = 2
phase_num fhready = 3
phase_num fh1 = 4
phase_num fh1done = 5
phase_num fh2 = 6
phase_num fh2done = 7
phase_num fh3 = 8
phase_num fh3done = 9
phase_num fh4 = 10
phase_num fh4done = 11

abbrev pub phase_eq : SmPhase → SmPhase → Bool
phase_eq p q = phase_num p == phase_num q

-- The values of MTC_STATUS that the modelled code returns.
pub data Status : Type 0 where
  success : Status
  error_sm_boot_timeout error_sm_nostatefile error_sm_join_failed : Status
  error_sm_faulthandler_timeout error_sm_survivalrule_failed : Status
  error_sm_invalid_pool_state error_sm_boot_blocked_by_excluded : Status
  error_sm_boot_failed error_sm_invalid_init_pool_state : Status
  error_sf_io_error error_sf_corruption error_sf_version_mismatch : Status
  error_sf_pending_write error_sf_gen_uuid : Status
  error_hb_fencerequested : Status
  error_undefined : Status
  error_com_insufficient_resource error_com_pthread error_com_callback_not_exist : Status
  error_com_invalid_handle : Status
  error_wd_insufficient_resource error_wd_open error_wd_instance_unavailable : Status
  error_wd_invalid_handle : Status
  error_xapimon_xapi_failed error_xapimon_pthread error_xapimon_pipe error_xapimon_fork : Status
  error_sc_statefile_access error_sc_invalid_pool_state error_sc_invalid_localhost_state : Status
  error_weight_open error_weight_lock error_weight_io_error error_weight_table_full : Status

-- SF_STATE_NONE and its kin of include/statefile.h; any other value of the word is `other`.
pub data PoolState : Type 0 where
  state_none state_init state_active state_invalid : PoolState
  state_other : PoolState

-- RAW_DATA
pub record RawData : Type 0 where
  pub current_liveset : HostMap
  pub proposed_liveset : HostMap
  pub hbdomain : HostMap
  pub sfdomain : HostMap
  pub time_since_last_hb_receipt : ℕ → ℤ
  pub time_since_last_sf_update : ℕ → ℤ
  pub time_since_xapi_restart : ℤ

-- COM_DATA_SM
pub record ComSm : Type 0 where
  pub current_liveset : HostMap
  pub proposed_liveset : HostMap
  pub fencing : FencingMode
  pub status : Status
  pub phase : SmPhase
  pub sr2 : Bool
  pub sf_access : HostMap
  pub sf_corrupted : HostMap
  pub weight : ℕ
  pub commited_weight : ℕ

-- COM_DATA_HB; the fields of its `ctl` come first.
pub record ComHb : Type 0 where
  pub enable_hb_send : Bool
  pub enable_hb_receive : Bool
  pub join : Bool
  pub fence_request : Bool
  pub time_last_hb : ℕ → ℤ
  pub hbdomain : HostMap
  pub notjoining : HostMap
  pub raw : ℕ → RawData
  pub sm_phase : ℕ → SmPhase

-- The fields of one host in `lm[]` of COM_DATA_SF.
pub record LmFields : Type 0 where
  pub request : Bool
  pub grant : HostMap

-- COM_DATA_SF; the fields of its `ctl` come first.
pub record ComSf : Type 0 where
  pub enable_sf_write : Bool
  pub enable_sf_read : Bool
  pub ctl_starting : Bool
  pub lm : ℕ → LmFields
  pub pool_state : PoolState
  pub sf_access : Bool
  pub time_last_sf : ℕ → ℤ
  pub excluded : HostMap
  pub starting_hosts : HostMap
  pub raw : ℕ → RawData
  pub sfdomain : HostMap
  pub sm_phase : ℕ → SmPhase
  pub weight : ℕ → ℕ

-- `smvar` of daemon/sm.c, without its thread, mutex and condition variable.
pub record SmVar : Type 0 where
  pub terminate : Bool
  pub start_time : ℤ
  pub phase : SmPhase
  pub need_fh : Bool
  pub join_block : Bool
  pub last_hbdomain : HostMap
  pub last_sfdomain : HostMap
  pub fencing : FencingMode
  pub sr2 : Bool
  pub sm_sig : Bool
  pub hb_sig : Bool
  pub sf_sig : Bool
  pub fh_sleep_extend : Bool
  pub stable_hb : ComHb
  pub stable_sf : ComSf

-- What the State Manager asks of the other parts of the daemon, in the order of the calls.
pub data Call : Type 0 where
  hb_send_hb_now : ℕ → Call
  hb_sf_accelerate hb_sf_cancel_accelerate : Call
  sf_accelerate sf_cancel_acceleration : Call
  sf_watchdog_set : Call
  sf_set_pool_state : PoolState → Call
  sf_set_excluded : Bool → Call
  main_terminate : Status → Call
  main_steady_state : Call
  watchdog_selffence : Call
  msleep : ℕ → Call

-- One daemon: the common objects, `smvar`, and the calls made so far, the latest first.
pub record Daemon : Type 0 where
  pub sm : ComSm
  pub hb : ComHb
  pub sf : ComSf
  pub var : SmVar
  pub enable_xapi_monitor : Bool
  pub exited : Option Status  -- the process has ended with this status
  pub calls : List Call
