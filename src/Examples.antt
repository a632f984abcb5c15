-- ===== src/Examples.antt =====
-- Concrete configurations and daemons, on which the theorems of the other modules are applied.
pub mod Membership
pub mod Lock
pub mod Weight
pub mod Beats
pub mod Objects
pub mod Monitor
pub mod ObjectTable
pub mod Disk
pub mod Protocol
pub mod Query
pub mod Settings
use xha.Prelude.{ℕ, Bool, true, false, Option, none, some, List, [], ◌==◌, if◌then◌else◌}
use xha.Prelude.Int.{ℤ, pos}
use xha.HostMap.{HostMap}
use xha.Config.{Config}
use xha.Data.{
  RawData, ComSm, ComHb, ComSf, SmVar, Daemon, FencingMode, fencing_armed, SmPhase, started, Status,
  success, PoolState, state_active, state_init,
}

-- The hosts below 32 whose bits are set in `word`.
abbrev pub hosts : ℕ → HostMap
hosts word = record { words = λ i. if i == 0 then word else 0 }

abbrev pub cfg_of : ℕ → Config
cfg_of hostnum = record {
  hostnum = hostnum;
  my_index = 0;
  heartbeat_interval = 4;
  heartbeat_timeout = 40;
  statefile_interval = 4;
  statefile_timeout = 40;
  heartbeat_watchdog_timeout = 40;
  statefile_watchdog_timeout = 45;
  boot_join_timeout = 120;
  enable_join_timeout = 120;
}

-- A host that publishes `word` as each of its sets of hosts.
abbrev pub raw_of : ℕ → RawData
raw_of word = record {
  current_liveset = hosts word;
  proposed_liveset = hosts word;
  hbdomain = hosts word;
  sfdomain = hosts word;
  time_since_last_hb_receipt = λ i. pos 0;
  time_since_last_sf_update = λ i. pos 0;
  time_since_xapi_restart = pos 0;
}

abbrev pub hb_of : ℕ → (ℕ → RawData) → ComHb
hb_of word raw = record {
  enable_hb_send = true;
  enable_hb_receive = true;
  join = true;
  fence_request = false;
  time_last_hb = λ i. pos 0;
  hbdomain = hosts word;
  notjoining = hosts 0;
  raw = raw;
  sm_phase = λ i. started;
}

abbrev pub sf_of : ℕ → (ℕ → RawData) → ComSf
sf_of word raw = record {
  enable_sf_write = true;
  enable_sf_read = true;
  ctl_starting = false;
  lm = λ i. record { request = false; grant = hosts 0 };
  pool_state = state_init;
  sf_access = true;
  time_last_sf = λ i. pos 0;
  excluded = hosts 0;
  starting_hosts = hosts word;
  raw = raw;
  sfdomain = hosts word;
  sm_phase = λ i. started;
  weight = λ i. 1;
}

-- A daemon whose liveset is `live`, and which sees `seen` on both media.
abbrev pub daemon_of : ℕ → ℕ → Bool → Daemon
daemon_of live seen join_block =
    let hb = hb_of seen (λ i. raw_of seen) in
    let sf = sf_of seen (λ i. raw_of seen) in
    record {
      sm = record {
        current_liveset = hosts live;
        proposed_liveset = hosts live;
        fencing = fencing_armed;
        status = success;
        phase = started;
        sr2 = false;
        sf_access = hosts seen;
        sf_corrupted = hosts 0;
        weight = 1;
        commited_weight = 1;
      };
      hb = hb;
      sf = sf;
      var = record {
        terminate = false;
        start_time = pos 0;
        phase = started;
        need_fh = false;
        join_block = join_block;
        last_hbdomain = hosts live;
        last_sfdomain = hosts seen;
        fencing = fencing_armed;
        sr2 = false;
        sm_sig = false;
        hb_sig = true;
        sf_sig = false;
        fh_sleep_extend = false;
        stable_hb = hb;
        stable_sf = sf;
      };
      enable_xapi_monitor = true;
      exited = none;
      calls = [];
    }
