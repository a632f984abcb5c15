-- ===== src/Sm/Membership.antt =====
-- daemon/sm.c: the tests on whole livesets, and the forming of a new one.
pub mod Tests
use xha.Prelude.{ℕ, Bool, true, false, not, Option, none, some}
use xha.Prelude.Hosts.{all_hosts, find_host}
use xha.HostMap.{HostMap, is_on}
use xha.Config.{Config}
use xha.Data.{ComSf, Daemon}
use xha.Sm.Signals.{sm_sm_updated}

module _ (cfg : Config) where
  unfoldable pub is_all_hosts_up : HostMap → Bool
  is_all_hosts_up hostmap = all_hosts cfg.hostnum (is_on hostmap)

  unfoldable pub is_empty_liveset : HostMap → Bool
  is_empty_liveset liveset = all_hosts cfg.hostnum (λ i. not (is_on liveset i))

  -- The answer, and what `*pnewliveset` is set to (`none` where it is left alone).
  unfoldable pub am_i_in_new_liveset : ComSf → HostMap → Bool × Option HostMap
  am_i_in_new_liveset psf liveset = elim (find_host cfg.hostnum (is_on liveset)) [
    | none ↦ (false, none)
    | some index ↦
        let newliveset = (psf.raw index).current_liveset in
        (is_on newliveset cfg.my_index, some newliveset)
  ]

  unfoldable pub form_new_liveset : HostMap → Daemon → Daemon
  unfolding sm_sm_updated
  form_new_liveset liveset d =
      let formed = sm_sm_updated true (record d {
        sm = record (d.sm) { proposed_liveset = liveset; current_liveset = liveset };
      }) in
      record formed { hb = record (formed.hb) { join = false } }
