-- ===== src/StateFile/Write.antt =====
-- write_hostspecific, sf_reportlatency, sf_set_pool_state, sf_set_master, sf_set_excluded,
-- sf_accelerate and sf_cancel_acceleration of daemon/statefile.c. sf_wakeupthread does nothing.
use xha.Prelude.{ℕ, ◌+◌, ◌*◌, ◌%◌, ◌^◌, Bool, true, false, ◌||◌, if◌then◌else◌}
use xha.Prelude.Hosts.{update}
use xha.Prelude.Int.{ℤ, pos, ltb_ℤ}
use xha.HostMap.{is_on, set_boolean}
use xha.HostWeight.{Str}
use xha.Config.{Config, is_configured_host, one_sec}
use xha.Data.{Status, PoolState, Daemon}
use xha.Sm.Signals.{sm_sf_updated}
use xha.Sm.Start.{is_success}
use xha.Heartbeat.Send.{time_since}
use xha.StateFile.{HostData, HostSection, Layout, Latency, SfState}
use xha.StateFile.Io.{sf_writehostspecific}

abbrev pub accelerated_access_interval : ℕ
accelerated_access_interval = 400

-- The object is released to the State Manager's callback.
abbrev pub release : Daemon → Daemon
release d = sm_sf_updated false d

-- Called by sf_read and sf_write after an access, with the time it took.
abbrev note_latency : ℤ → Latency → Latency
note_latency latency lp = record {
  last = latency;
  max = if ltb_ℤ lp.max latency then latency else lp.max;
  min = if ltb_ℤ lp.min (pos 0) || ltb_ℤ latency lp.min then latency else lp.min;
}

unfoldable pub sf_reportlatency : ℤ → Bool → SfState → SfState
sf_reportlatency latency write s =
    if write
    then record s { writelatency = note_latency latency s.writelatency }
    else record s { readlatency = note_latency latency s.readlatency }

module _ (cfg : Config) (lay : Layout) where
  -- SF_access, the count and the interval after an access that failed.
  unfoldable pub lose_access : SfState → SfState
  lose_access s = record s {
    daemon = record (s.daemon) { sf = record (s.daemon.sf) { sf_access = false } };
    sf_access = false;
    accelerate_count = 0;
    interval_ms = cfg.statefile_interval * one_sec % 2 ^ 32;
  }

  -- What is written of this host; the times of hosts that are not configured stay in the buffer.
  unfoldable pub host_data : Str → ℤ → SfState → HostData
  host_data my_uuid now s =
      let d = s.daemon in
      let old = (s.buffer.host cfg.my_index).contents in
      record {
        sequence = s.sequence;
        host_index = cfg.my_index;
        host_uuid = my_uuid;
        excluded = is_on d.sf.excluded cfg.my_index;
        starting = d.sf.ctl_starting;
        since_last_hb_receipt = λ host.
            if is_configured_host cfg host
            then time_since now (d.hb.time_last_hb host)
            else old.since_last_hb_receipt host;
        since_last_sf_update = λ host.
            if is_configured_host cfg host
            then time_since now (d.sf.time_last_sf host)
            else old.since_last_sf_update host;
        since_xapi_restart_first_attempted = time_since now s.time_xapi_restart;
        current_liveset = d.sm.current_liveset;
        proposed_liveset = d.sm.proposed_liveset;
        hbdomain = d.hb.hbdomain;
        sfdomain = d.sf.sfdomain;
        lock_request = (d.sf.lm cfg.my_index).request;
        lock_grant = (d.sf.lm cfg.my_index).grant;
        sm_phase = d.sm.phase;
        weight = d.sm.commited_weight;
      }

  -- The section that is handed to sf_write.
  unfoldable pub my_section : Str → ℤ → SfState → HostSection
  unfolding host_data sf_writehostspecific
  my_section my_uuid now s =
      sf_writehostspecific lay
        (record (s.buffer.host cfg.my_index) { contents = host_data my_uuid now s })

  -- The state as the section is written.
  unfoldable pub prepare : Str → ℤ → SfState → SfState
  unfolding my_section
  prepare my_uuid now s =
      let d = s.daemon in
      record s {
        daemon = release (record d {
          sf = record (d.sf) {
            sm_phase = update d.sf.sm_phase cfg.my_index d.sm.phase;
            weight = update d.sf.weight cfg.my_index d.sm.commited_weight;
          };
        });
        modified_excluded = false;
        sequence = (s.sequence + 1) % 2 ^ 32;
        buffer = record (s.buffer) {
          host = update s.buffer.host cfg.my_index (my_section my_uuid now s);
        };
      }

  -- `result` is what sf_write answers.
  unfoldable pub write_hostspecific : Str → ℤ → Status → SfState → Status × SfState
  unfolding prepare lose_access
  write_hostspecific my_uuid now result s =
      let written = prepare my_uuid now s in
      let lost = lose_access written in
      if is_success result then (result, written) else (
        result,
        record lost {
          daemon = release (lost.daemon);
          modified_excluded = s.modified_excluded || written.modified_excluded;
        },
      )

  unfoldable pub sf_set_pool_state : PoolState → SfState → SfState
  sf_set_pool_state pool_state s = record s {
    modified_pool_state = true;
    daemon = release (record (s.daemon) { sf = record (s.daemon.sf) { pool_state = pool_state } });
  }

  unfoldable pub sf_set_master : Str → SfState → SfState
  sf_set_master master s = record s {
    modified_master = true;
    master = master;
    daemon = release (s.daemon);
  }

  unfoldable pub sf_set_excluded : Bool → SfState → SfState
  sf_set_excluded excluded s = record s {
    modified_excluded = true;
    daemon = release (record (s.daemon) {
      sf = record (s.daemon.sf) {
        excluded = set_boolean s.daemon.sf.excluded cfg.my_index excluded;
      };
    });
  }

  unfoldable pub sf_accelerate : SfState → SfState
  sf_accelerate s =
      if s.sf_access
      then record s {
        accelerate_count = (s.accelerate_count + 1) % 2 ^ 32;
        interval_ms = accelerated_access_interval;
      }
      else s

  unfoldable pub sf_cancel_acceleration : SfState → SfState
  sf_cancel_acceleration s =
      if s.sf_access
      then record s {
        accelerate_count = 0;
        interval_ms = cfg.statefile_interval * one_sec % 2 ^ 32;
      }
      else s
