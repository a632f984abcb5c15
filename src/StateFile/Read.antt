-- ===== src/StateFile/Read.antt =====
-- readsf of daemon/statefile.c, and the round of sfthread that writes and reads. The fault
-- injection of daemon/fist.c is off.
use xha.Prelude.{
  ℕ, zero, suc, Bool, true, false, not, ◌&&◌, ◌||◌, ◌==◌, if◌then◌else◌, Option, none, some,
}
use xha.Prelude.Hosts.{update, for_hosts, find_host}
use xha.Prelude.Int.{ℤ, pos, negsuc, ltb_ℤ, max_ℤ, min_ℤ}
use xha.HostMap.{is_on, set_boolean}
use xha.HostWeight.{Str}
use xha.Config.{Config, is_configured_host}
use xha.Data.{
  Status, success, error_sf_corruption, error_sf_version_mismatch, error_sf_pending_write,
  error_sf_gen_uuid, error_undefined, ComSm, ComSf, RawData, main_terminate,
}
use xha.Sm.Control.{call}
use xha.Sm.Start.{is_success}
use xha.StateFile.{GlobalSection, HostData, HostSection, Layout, SfState}
use xha.StateFile.Io.{sf_readglobal, sf_readhostspecific, sf_writeglobal}
use xha.StateFile.Write.{release, lose_access, write_hostspecific}

abbrev pub sf_ioattempts : ℕ
sf_ioattempts = 3

abbrev is_corruption : Status → Bool
is_corruption error_sf_corruption = true
is_corruption _ = false

-- What sf_read gives in one attempt, and the clock as each host's element is read.
pub record Attempt : Type 0 where
  pub global : Option GlobalSection
  pub host : ℕ → Option HostSection
  pub clock : ℕ → ℤ

-- `iostatus`
pub record IoStatus : Type 0 where
  pub global_section : Status
  pub host_section : ℕ → Status

module _ (cfg : Config) (lay : Layout) (gen_uuid : Str) where
  -- The update of `hoststat` after an element was read.
  unfoldable pub update_hoststat : ℤ → ℕ → SfState → SfState
  update_hoststat clock index s =
      let stat = s.hoststat index in
      let sequence = (s.buffer.host index).contents.sequence in
      if not stat.readonce
      then record s {
        hoststat =
            update s.hoststat index
              (record stat { readclock = clock; readonce = true; sequence = sequence });
        sequence = if index == cfg.my_index then sequence else s.sequence;
      }
      else if not (stat.sequence == sequence)
      then record s {
        hoststat =
            update s.hoststat index
              (record stat { readclock = clock; sequence = sequence; updateclock = clock });
      }
      else record s { hoststat = update s.hoststat index (record stat { readclock = clock }) }

  -- The result of a read of one host's element.
  unfoldable pub store_host : ℤ → ℕ → Status × HostSection → IoStatus × SfState → IoStatus × SfState
  unfolding update_hoststat
  store_host clock index (status, section) (io, s) =
      let filled = record s {
        buffer = record (s.buffer) { host = update s.buffer.host index section };
      } in
      (
        record io { host_section = update io.host_section index status },
        if is_success status then update_hoststat clock index filled else filled,
      )

  -- One host's element in one attempt, unless it was read before.
  unfoldable pub read_host : Attempt → ℕ → IoStatus × SfState → IoStatus × SfState
  unfolding sf_readhostspecific store_host
  read_host attempt index (io, s) =
      if is_success (io.host_section index)
      then (io, s)
      else store_host (attempt.clock index) index
          (sf_readhostspecific lay (attempt.host index) (s.buffer.host index)) (io, s)

  unfoldable pub read_global : Attempt → IoStatus × SfState → IoStatus × SfState
  unfolding sf_readglobal
  read_global attempt (io, s) =
      let (status, section) = sf_readglobal lay attempt.global (some gen_uuid) s.buffer.global in
      if is_success io.global_section then (io, s) else (
        record io { global_section = status },
        record s { buffer = record (s.buffer) { global = section } },
      )

  unfoldable pub read_attempt : Attempt → IoStatus × SfState → IoStatus × SfState
  unfolding read_global read_host
  read_attempt attempt st = for_hosts cfg.hostnum (read_host attempt) (read_global attempt st)

  unfoldable pub io_result : IoStatus → Status
  io_result io =
      if is_success io.global_section
      then elim (find_host cfg.hostnum (λ index. not (is_success (io.host_section index)))) [
        | some index ↦ io.host_section index
        | none ↦ success
      ]
      else io.global_section

  -- The attempts that are left; `attempts` gives what the n-th before the last one reads.
  unfoldable pub read_attempts : (ℕ → Attempt) → ℕ → IoStatus × SfState → IoStatus × SfState
  unfolding read_attempt io_result
  read_attempts attempts zero st = st
  read_attempts attempts (suc left) st =
      let tried = read_attempt (attempts left) st in
      let rest = read_attempts attempts left tried in
      if is_success (io_result tried.0) then tried else rest

  -- The element of one host, as it is copied into `raw`.
  unfoldable pub raw_of_host : HostData → RawData → RawData
  raw_of_host h raw = record {
    current_liveset = h.current_liveset;
    proposed_liveset = h.proposed_liveset;
    hbdomain = h.hbdomain;
    sfdomain = h.sfdomain;
    time_since_last_hb_receipt = λ index.
        if is_configured_host cfg index
        then h.since_last_hb_receipt index
        else raw.time_since_last_hb_receipt index;
    time_since_last_sf_update = λ index.
        if is_configured_host cfg index
        then h.since_last_sf_update index
        else raw.time_since_last_sf_update index;
    time_since_xapi_restart = h.since_xapi_restart_first_attempted;
  }

  -- The copy of one host's element into COM_DATA_SF. A member that starts again before the fault
  -- handler is done is not noted as alive.
  unfoldable pub copy_host : ComSm → SfState → ℕ → ComSf → ComSf
  unfolding raw_of_host
  copy_host sm s index sf =
      let h = (s.buffer.host index).contents in
      let own = index == cfg.my_index in
      record sf {
        lm =
            if own
            then sf.lm
            else update sf.lm index (record { request = h.lock_request; grant = h.lock_grant });
        excluded =
            if not own || not s.modified_excluded
            then set_boolean sf.excluded index h.excluded
            else sf.excluded;
        starting_hosts = set_boolean sf.starting_hosts index h.starting;
        raw = update sf.raw index (raw_of_host h (sf.raw index));
        time_last_sf =
            if not (not (is_on h.current_liveset index) && is_on sm.current_liveset index)
            then update sf.time_last_sf index (s.hoststat index).updateclock
            else sf.time_last_sf;
        sm_phase = update sf.sm_phase index (if own then sm.phase else h.sm_phase);
        weight = update sf.weight index (if own then sm.commited_weight else h.weight);
      }

  unfoldable pub copy_hosts : SfState → ComSf
  unfolding copy_host
  copy_hosts s = for_hosts cfg.hostnum (copy_host s.daemon.sm s) s.daemon.sf

  -- What is pending goes into the buffer, and the rest comes from it.
  unfoldable pub exchange_global : SfState → Status × SfState
  exchange_global s =
      let g = s.buffer.global.contents in
      let sf = s.daemon.sf in
      (
        if s.modified_master || s.modified_pool_state then error_sf_pending_write else success,
        record s {
          modified_master = false;
          modified_pool_state = false;
          master = if s.modified_master then s.master else g.master;
          daemon = record (s.daemon) {
            sf = record sf {
              pool_state = if s.modified_pool_state then sf.pool_state else g.pool_state;
            };
          };
          buffer = record (s.buffer) {
            global = record (s.buffer.global) {
              contents = record g {
                master = if s.modified_master then s.master else g.master;
                pool_state = if s.modified_pool_state then sf.pool_state else g.pool_state;
              };
            };
          };
        },
      )

  -- What was reported since the last read that came through.
  unfoldable pub update_latency : SfState → SfState
  update_latency s =
      let max = max_ℤ s.readlatency.max s.writelatency.max in
      let min = min_ℤ s.readlatency.min s.writelatency.min in
      record s {
        latency = max_ℤ s.readlatency.last s.writelatency.last;
        latency_max = if ltb_ℤ s.latency_max max then max else s.latency_max;
        latency_min =
            if ltb_ℤ s.latency_min (pos 0) || ltb_ℤ min s.latency_min then min else s.latency_min;
        readlatency = record (s.readlatency) { max = negsuc 0; min = negsuc 0 };
        writelatency = record (s.writelatency) { max = negsuc 0; min = negsuc 0 };
      }

  -- SF objects after the reads: they came through, or every attempt failed.
  unfoldable pub take_statefile : SfState → Status × SfState
  unfolding copy_hosts exchange_global update_latency
  take_statefile s = exchange_global (
      update_latency (record s {
        daemon = record (s.daemon) { sf = record (copy_hosts s) { sf_access = true } };
        sf_access = true;
      }))

  unfoldable pub is_corrupted : IoStatus → Bool
  is_corrupted io = elim (io.global_section) [
    | error_sf_gen_uuid ↦ false
    | error_sf_version_mismatch ↦ false
    | error_sf_corruption ↦ true
    | _ ↦ elim (find_host cfg.hostnum (λ index. is_corruption (io.host_section index))) [
      | some index ↦ true
      | none ↦ false
    ]
  ]

  unfoldable pub give_up : IoStatus → SfState → SfState
  unfolding lose_access is_corrupted
  give_up io s = record (lose_access cfg lay s) { sf_corrupted = is_corrupted io }

  abbrev pub no_io : IoStatus
  no_io = record { global_section = error_undefined; host_section = λ index. error_undefined }

  abbrev pub release_sf : Status × SfState → Status × SfState
  release_sf (status, s) = (status, record s { daemon = release (s.daemon) })

  unfoldable pub readsf : (ℕ → Attempt) → SfState → Status × SfState
  unfolding read_attempts io_result take_statefile give_up
  readsf attempts s =
      let (io, read) = read_attempts attempts sf_ioattempts (no_io, s) in
      if is_success (io_result io)
      then release_sf (take_statefile read)
      else release_sf (io_result io, give_up io read)

-- What one round of sfthread meets: the clock, what sf_write answers for the host's element and for
-- the global section, and the attempts to read.
pub record SfRound : Type 0 where
  pub now : ℤ
  pub host_written : Status
  pub attempts : ℕ → Attempt
  pub global_written : Status

-- Whether the thread goes on, its `read_once`, and what was written to the global section.
pub record SfThread : Type 0 where
  pub running : Bool
  pub read_once : Bool
  pub state : SfState
  pub written : Option GlobalSection

module _ (cfg : Config) (lay : Layout) (gen_uuid my_uuid : Str) where
  -- After readsf.
  unfoldable pub finish_round : SfRound → Bool → Status × SfState → SfThread
  unfolding sf_writeglobal
  finish_round r read_once (status, s) = elim status [
    | success ↦ record { running = true; read_once = true; state = s; written = none }
    | error_sf_pending_write ↦
        let section = sf_writeglobal lay s.buffer.global in
        record {
          running = true;
          read_once = read_once;
          state = record s { buffer = record (s.buffer) { global = section } };
          written = if is_success r.global_written then some section else none;
        }
    | error_sf_version_mismatch ↦ record {
      running = false;
      read_once = read_once;
      state = record s { daemon = call (main_terminate error_sf_version_mismatch) s.daemon };
      written = none;
    }
    | error_sf_gen_uuid ↦ record {
      running = false;
      read_once = read_once;
      state = record s { daemon = call (main_terminate error_sf_gen_uuid) s.daemon };
      written = none;
    }
    | _ ↦ record { running = true; read_once = false; state = s; written = none }
  ]

  -- A cycle of access whose time has come.
  unfoldable pub sf_round : SfRound → Bool → SfState → SfThread
  unfolding write_hostspecific readsf finish_round
  sf_round r read_once s =
      let writable = s.daemon.sf.enable_sf_write in
      let readable = s.daemon.sf.enable_sf_read in
      let wrote =
        if writable && read_once
        then (write_hostspecific cfg lay my_uuid r.now r.host_written s).1
        else s in
      if readable
      then finish_round r read_once (readsf cfg lay gen_uuid r.attempts wrote)
      else record { running = true; read_once = read_once; state = wrote; written = none }
