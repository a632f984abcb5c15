-- ===== src/Sm/Domain.antt =====
-- update_sfdomain of daemon/sm.c: which hosts are alive on the state file.
pub mod Update
use xha.Prelude.{ℕ, ◌*◌, ◌%◌, ◌^◌, Bool, true, false, not, ◌&&◌, ◌==◌, if◌then◌else◌}
use xha.Prelude.Hosts.{update, for_hosts}
use xha.Prelude.Int.{ℤ, pos, ◌-ℤ◌, ltb_ℤ, leb_ℤ}
use xha.HostMap.{HostMap, set, reset, is_on}
use xha.Config.{Config, one_sec}
use xha.Data.{ComSf, Daemon}
use xha.Sm.Signals.{sm_sf_updated}

-- The variables of the loop; `hostmap` holds the character that is logged for each host.
pub record Scan : Type 0 where
  pub psf : ComSf
  pub hostmap : ℕ → ℕ
  pub changed : Bool

-- A write to the common object, made only under the writer's lock.
abbrev pub put_sfdomain : Bool → ComSf → HostMap → ComSf
put_sfdomain writable psf m = if writable then record psf { sfdomain = m } else psf

module _ (cfg : Config) (now : ℤ) where
  -- The state file of host `index` was seen to change within the timeout; the product is that of
  -- MTC_U32.
  unfoldable pub is_recent : ComSf → ℕ → Bool
  is_recent psf index =
      leb_ℤ (pos 0) (psf.time_last_sf index)
      && ltb_ℤ (now -ℤ psf.time_last_sf index) (pos (cfg.statefile_timeout * one_sec % 2 ^ 32))

  -- The branch of a host that does not write, or of this host while writing is disabled.
  unfoldable pub scan_disabled : Bool → ℕ → Scan → Scan
  scan_disabled writable index s =
      let marked = record s {
        hostmap = update s.hostmap index (if s.psf.sf_access then b'D' else b'd');
      } in
      if is_on s.psf.sfdomain index
      then record marked {
        psf = put_sfdomain writable s.psf (reset s.psf.sfdomain index);
        changed = true;
      }
      else marked

  unfoldable pub scan_recent : Bool → Bool → ℕ → Scan → Scan
  scan_recent join_block writable index s =
      if is_on s.psf.sfdomain index
      then record s { hostmap = update s.hostmap index b'1' }
      else if not join_block
      then record s {
        psf = put_sfdomain writable s.psf (set s.psf.sfdomain index);
        hostmap = update s.hostmap index b'@';
        changed = true;
      }
      else record s { hostmap = update s.hostmap index b'b' }

  unfoldable pub scan_stale : Bool → ℕ → Scan → Scan
  scan_stale writable index s =
      let psf =
        if index == cfg.my_index && writable then record (s.psf) { sf_access = false } else s.psf in
      if not (is_on psf.sfdomain index)
      then record s { psf = psf; hostmap = update s.hostmap index b'0' }
      else record s {
        psf = put_sfdomain writable psf (reset psf.sfdomain index);
        hostmap = update s.hostmap index b'_';
        changed = true;
      }

  unfoldable pub scan_step : Bool → Bool → ℕ → Scan → Scan
  unfolding scan_disabled scan_recent scan_stale
  scan_step join_block writable index s =
      if index == cfg.my_index && not s.psf.enable_sf_write
      then scan_disabled writable index s
      else if is_recent s.psf index
      then scan_recent join_block writable index s
      else scan_stale writable index s

  unfoldable pub update_sfdomain_sub : Bool → (ℕ → ℕ) → Bool → ComSf → Scan
  update_sfdomain_sub join_block hostmap writable psf =
      let s =
        for_hosts cfg.hostnum (scan_step join_block writable)
          (record { psf = psf; hostmap = hostmap; changed = false }) in
      record s { hostmap = update s.hostmap cfg.hostnum 0 }

  -- The first pass only looks; the second, under the writer's lock, is made if it found a change.
  unfoldable pub update_sfdomain : Daemon → Bool × Daemon
  unfolding sm_sf_updated
  update_sfdomain d =
      let look = update_sfdomain_sub d.var.join_block (λ i. 0) false d.sf in
      let done = update_sfdomain_sub d.var.join_block look.hostmap true d.sf in
      if look.changed
      then (done.changed, sm_sf_updated false (record d { sf = done.psf }))
      else (false, d)
