-- ===== src/Examples/Disk.antt =====
-- The theorems on the state file at a pool of two hosts.
use xha.Prelude.{ℕ, ◌≡◌, refl, true, false, none, some, [], ◌∷◌, arith}
use xha.Prelude.Int.{pos, negsuc}
use xha.HostWeight.{Str, str_eq}
use xha.Config.{Config}
use xha.Data.{
  Status, success, error_sf_io_error, error_sf_corruption, state_init, state_active, started,
}
use xha.StateFile.{GlobalSection, HostSection, Layout, Latency, SfState}
use xha.StateFile.Io.{
  add_words, sf_checksum, read_loop, check_global, check_host, sf_readhostspecific, sf_writeglobal,
  sf_writehostspecific,
}
use xha.StateFile.Checksum.{
  IsProgress, nothing_read, read-write, sf_readhostspecific_corrupted, read_loop_lem,
}
use xha.StateFile.Write.{my_section, prepare, write_hostspecific, sf_set_pool_state}
use xha.StateFile.Read.{Attempt, readsf, SfRound, sf_round}
use xha.StateFile.Share.{IsSound}
use xha.StateFile.Publish.{readsf-write_hostspecific}
use xha.StateFile.Round.{sf_round-sf_set_pool_state, sf_set_pool_state_lost}
use xha.Examples.{hosts, cfg_of, daemon_of}

abbrev layout : Layout
layout = record {
  sig_sf_global = 1819242352;
  sf_create_inverted_sig = λ sig. 309465617;
  sig_end_marker_global = 1885629029;
  sig_sf_host = 1953722216;
  sig_end_marker_host = 1751412325;
  global_words = λ g. g.version ∷ g.length_global ∷ g.max_hosts ∷ [];
  host_words = λ h. h.sequence ∷ h.host_index ∷ h.weight ∷ [];
  same_uuid = str_eq;
}

abbrev pool_uuid : Str
pool_uuid = 7 ∷ []

abbrev disk_global : GlobalSection
disk_global = sf_writeglobal layout (record {
  sig = 0;
  sig_inv = 0;
  checksum = 0;
  contents = record {
    version = 0;
    length_global = 0;
    length_host_specific = 0;
    max_hosts = 0;
    gen_uuid = pool_uuid;
    pool_state = state_init;
    master = [];
    config_hosts = 2;
  };
  end_marker = 0;
})

abbrev disk_host : HostSection
disk_host = sf_writehostspecific layout (record {
  sig = 0;
  sig_inv = 0;
  checksum = 0;
  contents = record {
    sequence = 9;
    host_index = 0;
    host_uuid = [];
    excluded = false;
    starting = false;
    since_last_hb_receipt = λ i. pos 0;
    since_last_sf_update = λ i. pos 0;
    since_xapi_restart_first_attempted = negsuc 0;
    current_liveset = hosts 3;
    proposed_liveset = hosts 3;
    hbdomain = hosts 3;
    sfdomain = hosts 3;
    lock_request = false;
    lock_grant = hosts 0;
    sm_phase = started;
    weight = 1;
  };
  end_marker = 0;
})

abbrev no_latency : Latency
no_latency = record { last = pos 0; max = negsuc 0; min = negsuc 0 }

abbrev pub sf_state : SfState
sf_state = record {
  daemon = daemon_of 3 3 false;
  modified_pool_state = false;
  modified_master = false;
  modified_excluded = false;
  master = [];
  sf_corrupted = false;
  time_xapi_restart = negsuc 0;
  buffer = record { global = disk_global; host = λ i. disk_host };
  sf_access = true;
  sequence = 9;
  accelerate_count = 0;
  interval_ms = 4000;
  hoststat = λ i. record { readonce = true; sequence = 8; readclock = pos 0; updateclock = pos 0 };
  latency = negsuc 0;
  latency_max = negsuc 0;
  latency_min = negsuc 0;
  readlatency = no_latency;
  writelatency = no_latency;
}

abbrev attempts_of : HostSection → ℕ → Attempt
attempts_of section n = record {
  global = some disk_global;
  host = λ i. some section;
  clock = λ i. pos 50;
}

abbrev writer_cfg : Config
writer_cfg = record (cfg_of 2) { my_index = 1 }

abbrev written_host : HostSection
written_host =
    (write_hostspecific writer_cfg layout (5 ∷ []) (pos 40) success sf_state).1.buffer.host 1

disk-IsSound :
    IsSound (cfg_of 2) layout pool_uuid disk_global (λ i. disk_host) (attempts_of disk_host 2)
unfolding check_global check_host sf_checksum add_words str_eq sf_writeglobal sf_writehostspecific
disk-IsSound = record {
  global = refl;
  host = λ i lt. refl;
  global_sound = refl;
  host_sound = λ i lt. refl;
}

written-IsSound :
    IsSound (cfg_of 2) layout pool_uuid disk_global (λ i. written_host) (attempts_of written_host 2)
unfolding check_global check_host sf_checksum add_words str_eq sf_writeglobal sf_writehostspecific
    write_hostspecific prepare my_section
written-IsSound = record {
  global = refl;
  host = λ i lt. refl;
  global_sound = refl;
  host_sound = λ i lt. refl;
}

read-write_example :
    sf_readhostspecific layout (some (sf_writehostspecific layout disk_host)) disk_host
    ≡ (success, sf_writehostspecific layout disk_host)
unfolding str_eq sf_writeglobal
read-write_example =
    (read-write layout disk_global disk_global disk_host disk_host pool_uuid refl).5

-- The element with another weight under the old checksum.
abbrev damaged_host : HostSection
damaged_host = record disk_host { contents = record (disk_host.contents) { weight = 2 } }

corrupted_example :
    (sf_readhostspecific layout (some damaged_host) disk_host).0 ≡ error_sf_corruption
unfolding sf_writehostspecific
corrupted_example =
    sf_readhostspecific_corrupted layout disk_host damaged_host disk_host (9 ∷ 0 ∷ []) [] 1 2 refl
      refl refl (omega arith) (omega arith) (λ e. absurd (omega (arith, e)))

read_loop_example : read_loop 3 (nothing_read 5) ≡ none
unfolding IsProgress
read_loop_example = (read_loop_lem 2 (some 1 ∷ some 1 ∷ []) (omega arith, (omega arith, tt))).1 5

readsf-write_hostspecific_example :
    (readsf (cfg_of 2) layout pool_uuid (attempts_of written_host) sf_state).1.daemon.sf.weight 1
    ≡ 1
unfolding readsf
readsf-write_hostspecific_example =
    (readsf-write_hostspecific writer_cfg layout pool_uuid (5 ∷ []) (pos 40) sf_state (cfg_of 2)
      disk_global (λ i. written_host) (attempts_of written_host) sf_state written-IsSound refl
      (λ e. absurd (omega (arith, e))) (omega arith)).1.weight

abbrev round_of : Status → SfRound
round_of global_written = record {
  now = pos 40;
  host_written = success;
  attempts = attempts_of disk_host;
  global_written = global_written;
}

sf_round_example :
    (sf_round
      (cfg_of 2)
      layout
      pool_uuid
      (5 ∷ [])
      (round_of success)
      true
      (sf_set_pool_state (cfg_of 2) layout state_active sf_state)).state.daemon.sf.pool_state
    ≡ state_active
sf_round_example =
    (sf_round-sf_set_pool_state (cfg_of 2) layout pool_uuid (5 ∷ []) (round_of success) true
      sf_state state_active disk_global (λ i. disk_host) disk-IsSound refl).0

sf_set_pool_state_lost_example :
    (sf_round
      (cfg_of 2)
      layout
      pool_uuid
      (5 ∷ [])
      (round_of error_sf_io_error)
      true
      (sf_set_pool_state (cfg_of 2) layout state_active sf_state)).written
    ≡ none
sf_set_pool_state_lost_example =
    (sf_set_pool_state_lost (cfg_of 2) layout pool_uuid (5 ∷ []) (round_of error_sf_io_error)
      (round_of success) true sf_state state_active disk_global (λ i. disk_host) (λ i. disk_host)
      disk-IsSound disk-IsSound refl refl).0
