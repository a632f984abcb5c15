-- ===== src/StateFile.antt =====
-- The state file: its sections, of include/statefile.h, and the state of the thread of
-- daemon/statefile.c. A section is what lies between its first word and its end marker; the words
-- by which a checksum sees it are the compiler's layout, a parameter.
pub mod Io
pub mod Checksum
pub mod Write
pub mod Read
pub mod Share
pub mod Publish
pub mod Pending
pub mod Round
use xha.Prelude.{ℕ, Bool, List}
use xha.Prelude.Int.{ℤ}
use xha.HostMap.{HostMap}
use xha.HostWeight.{Str}
use xha.Data.{SmPhase, PoolState, Daemon}

-- The words of the global section that its checksum covers.
pub record GlobalData : Type 0 where
  pub version : ℕ
  pub length_global : ℕ
  pub length_host_specific : ℕ
  pub max_hosts : ℕ
  pub gen_uuid : Str
  pub pool_state : PoolState
  pub master : Str
  pub config_hosts : ℕ

-- SF_GLOBAL_SECTION
pub record GlobalSection : Type 0 where
  pub sig : ℕ
  pub sig_inv : ℕ
  pub checksum : ℕ
  pub contents : GlobalData
  pub end_marker : ℕ

-- The words of a host's element that its checksum covers.
pub record HostData : Type 0 where
  pub sequence : ℕ
  pub host_index : ℕ
  pub host_uuid : Str
  pub excluded : Bool
  pub starting : Bool
  pub since_last_hb_receipt : ℕ → ℤ
  pub since_last_sf_update : ℕ → ℤ
  pub since_xapi_restart_first_attempted : ℤ
  pub current_liveset : HostMap
  pub proposed_liveset : HostMap
  pub hbdomain : HostMap
  pub sfdomain : HostMap
  pub lock_request : Bool
  pub lock_grant : HostMap
  pub sm_phase : SmPhase
  pub weight : ℕ

-- SF_HOST_SPECIFIC_SECTION
pub record HostSection : Type 0 where
  pub sig : ℕ
  pub sig_inv : ℕ
  pub checksum : ℕ
  pub contents : HostData
  pub end_marker : ℕ

-- STATE_FILE
pub record StateFile : Type 0 where
  pub global : GlobalSection
  pub host : ℕ → HostSection

-- What the compiler fixes: the values of the four markers, the macro sf_create_inverted_sig (it
-- shifts a negative number) and the layout of the two sections; and UUID_comp (whether strncasecmp
-- finds no difference).
pub record Layout : Type 0 where
  pub sig_sf_global : ℕ
  pub sf_create_inverted_sig : ℕ → ℕ
  pub sig_end_marker_global : ℕ
  pub sig_sf_host : ℕ
  pub sig_end_marker_host : ℕ
  pub global_words : GlobalData → List ℕ
  pub host_words : HostData → List ℕ
  pub same_uuid : Str → Str → Bool

-- One host in `hoststat` of `sfvar`.
pub record HostStat : Type 0 where
  pub readonce : Bool
  pub sequence : ℕ
  pub readclock : ℤ
  pub updateclock : ℤ

-- `struct _latency` of `sfvar`; -1 where there is nothing to report.
pub record Latency : Type 0 where
  pub last : ℤ
  pub max : ℤ
  pub min : ℤ

-- The daemon with what only the state-file thread uses: of COM_DATA_SF the three bits of
-- `modified_mask`, `master`, SF_corrupted and the three statistics of latency;
-- time_Xapi_restart of COM_DATA_XAPIMON; the buffer `StateFile`; and `sfvar`.
pub record SfState : Type 0 where
  pub daemon : Daemon
  pub modified_pool_state : Bool
  pub modified_master : Bool
  pub modified_excluded : Bool
  pub master : Str
  pub sf_corrupted : Bool
  pub time_xapi_restart : ℤ
  pub buffer : StateFile
  pub sf_access : Bool
  pub sequence : ℕ
  pub accelerate_count : ℕ
  pub interval_ms : ℕ
  pub hoststat : ℕ → HostStat
  pub latency : ℤ
  pub latency_max : ℤ
  pub latency_min : ℤ
  pub readlatency : Latency
  pub writelatency : Latency
