-- ===== src/Sm/Join.antt =====
-- daemon/sm.c: a host joins the liveset, and the members of the liveset let it in.
pub mod Admission
use xha.Prelude.{
  ℕ, ◌+◌, ◌*◌, zero, suc, Bool, true, false, not, ◌&&◌, ◌||◌, ◌==◌, if◌then◌else◌, List, [], ◌∷◌,
}
use xha.Prelude.Hosts.{for_hosts, all_hosts}
use xha.HostMap.{HostMap, set, reset, is_on, union, init_reset}
use xha.Config.{Config}
use xha.Data.{
  ComSm, ComHb, ComSf, Status, success, error_sm_join_failed, error_sm_boot_timeout, hb_send_hb_now,
  sf_watchdog_set, Daemon,
}
use xha.Sm.Control.{call}
use xha.Sm.Membership.{is_empty_liveset}
use xha.Sm.Signals.{sm_sm_updated, sm_hb_updated}

abbrev pub hb_acceleration_count_join : ℕ
hb_acceleration_count_join = 3

-- What the loop of process_join_request changes.
pub record Joining : Type 0 where
  pub proposed_liveset : HostMap
  pub joining_set : HostMap

module _ (cfg : Config) where
  -- Host `index` asks to join.
  unfoldable pub is_requesting : ComHb → ℕ → Bool
  is_requesting phb index =
      not (index == cfg.my_index)
      && is_on phb.hbdomain index
      && not (is_on (phb.raw index).current_liveset index)
      && is_on (phb.raw index).proposed_liveset index

  -- Host `index` says that it is in the liveset.
  unfoldable pub is_member : ComHb → ℕ → Bool
  is_member phb index =
      not (index == cfg.my_index)
      && is_on phb.hbdomain index
      && is_on (phb.raw index).current_liveset index

  -- Every host of the liveset has put host `index` into its proposed liveset.
  unfoldable pub is_allowed : ComSm → ComHb → HostMap → ℕ → Bool
  is_allowed psm phb proposed index = all_hosts cfg.hostnum (λ index2. not (
      is_on psm.current_liveset index2
      && (if index2 == cfg.my_index
          then not (is_on proposed index)
          else not (is_on (phb.raw index2).proposed_liveset index))))

  unfoldable pub join_step : Bool → ComSm → ComHb → ComSf → ℕ → Joining → Joining
  unfolding is_requesting is_member
  join_step join_block psm phb psf index s =
      let acked =
        if not join_block
          && (is_on psf.sfdomain index || psm.sr2)
          && not (is_on s.proposed_liveset index)
        then set s.proposed_liveset index
        else s.proposed_liveset in
      if is_requesting phb index
      then record {
        proposed_liveset = acked;
        joining_set =
            if not (is_on psm.current_liveset index) && is_allowed psm phb acked index
            then set s.joining_set index
            else s.joining_set;
      }
      else if is_member phb index && not (is_on psm.current_liveset index)
      then record {
        proposed_liveset = set s.proposed_liveset index;
        joining_set = set s.joining_set index;
      }
      else s

  -- A nonempty liveset looks at each host in turn.
  unfoldable pub find_joining : Daemon → Joining
  find_joining d =
      let none_joining : Joining = record {
        proposed_liveset = d.sm.proposed_liveset;
        joining_set = init_reset;
      } in
      let looked = for_hosts cfg.hostnum (join_step d.var.join_block d.sm d.hb d.sf) none_joining in
      if is_empty_liveset cfg d.sm.current_liveset then none_joining else looked

  -- Run by the worker thread, which releases the State Manager's object.
  unfoldable pub process_join_request : Daemon → Daemon
  unfolding find_joining sm_sm_updated
  process_join_request d =
      let j = find_joining d in
      let updated = sm_sm_updated false (record d {
        sm = record (d.sm) {
          proposed_liveset = j.proposed_liveset;
          current_liveset = union d.sm.current_liveset j.joining_set;
        };
      }) in
      if is_empty_liveset cfg j.joining_set
      then updated
      else call (hb_send_hb_now hb_acceleration_count_join) updated
