-- ===== src/StateFile/Publish.antt =====
-- What one host writes to the state file, another reads.
use xha.Prelude.{ℕ, ◌<◌, ◌≡◌, ◌≢◌, ◌⊎◌, refl, ap, subst, ◌∙◌, ==_self}
use xha.Prelude.Int.{ℤ}
use xha.HostMap.{is_on}
use xha.HostWeight.{Str}
use xha.Config.{Config}
use xha.Data.{success, error_sf_pending_write}
use xha.StateFile.{GlobalSection, HostSection, Layout, SfState}
use xha.StateFile.Write.{host_data, my_section, prepare, write_hostspecific}
use xha.StateFile.Read.{Attempt, readsf}
use xha.StateFile.Share.{IsSound}
use xha.StateFile.Share.Copy.{IsCopied, readsf-IsCopied}

-- What a host knows of another is what the other was when it wrote.
pub record IsPublished (j : ℕ) (a t : SfState) : Type 0 where
  pub request : (t.daemon.sf.lm j).request ≡ (a.daemon.sf.lm j).request
  pub grant : (t.daemon.sf.lm j).grant ≡ (a.daemon.sf.lm j).grant
  pub excluded : is_on t.daemon.sf.excluded j ≡ is_on a.daemon.sf.excluded j
  pub starting : is_on t.daemon.sf.starting_hosts j ≡ a.daemon.sf.ctl_starting
  pub current_liveset : (t.daemon.sf.raw j).current_liveset ≡ a.daemon.sm.current_liveset
  pub proposed_liveset : (t.daemon.sf.raw j).proposed_liveset ≡ a.daemon.sm.proposed_liveset
  pub hbdomain : (t.daemon.sf.raw j).hbdomain ≡ a.daemon.hb.hbdomain
  pub sfdomain : (t.daemon.sf.raw j).sfdomain ≡ a.daemon.sf.sfdomain
  pub sm_phase : t.daemon.sf.sm_phase j ≡ a.daemon.sm.phase
  pub weight : t.daemon.sf.weight j ≡ a.daemon.sm.commited_weight

module _ (cfg_a : Config) (lay : Layout) (uuid my_uuid : Str) (now : ℤ) (a : SfState) where
  written_contents :
      ((write_hostspecific cfg_a lay my_uuid now success a).1.buffer.host cfg_a.my_index).contents
      ≡ host_data cfg_a lay my_uuid now a
  unfolding write_hostspecific prepare my_section
  written_contents = rw (==_self cfg_a.my_index) refl

  -- When a host has written its element and another, for which it is a configured host other than
  -- itself, reads it in a first attempt whose accesses all succeed with sound sections, then readsf
  -- answers with success, or that a write is pending; and the reader has the writer's request and
  -- grants of the lock, flags, livesets, domains, phase and weight.
  pub readsf-write_hostspecific :
      (cfg_b : Config) (g : GlobalSection) (h : ℕ → HostSection) (attempts : ℕ → Attempt)
      (b : SfState)
      → IsSound cfg_b lay uuid g h (attempts 2)
      → h cfg_a.my_index
        ≡ (write_hostspecific cfg_a lay my_uuid now success a).1.buffer.host cfg_a.my_index
      → cfg_a.my_index ≢ cfg_b.my_index
      → cfg_a.my_index < cfg_b.hostnum
      → let (status, t) = readsf cfg_b lay uuid attempts b in
        ((status ≡ success) ⊎ (status ≡ error_sf_pending_write)) × IsPublished cfg_a.my_index a t
  unfolding host_data
  readsf-write_hostspecific cfg_b g h attempts b sound wrote other inside =
      let (came, copied) =
        readsf-IsCopied cfg_b lay uuid g h attempts b cfg_a.my_index sound other inside in
      let contents = ap (λ (e : HostSection). e.contents) wrote ∙ written_contents in
      let c =
        subst (λ e. IsCopied cfg_a.my_index e (readsf cfg_b lay uuid attempts b).1.daemon.sf)
          contents copied in
      (
        came,
        record {
          request = c.request;
          grant = c.grant;
          excluded = c.excluded;
          starting = c.starting;
          current_liveset = c.current_liveset;
          proposed_liveset = c.proposed_liveset;
          hbdomain = c.hbdomain;
          sfdomain = c.sfdomain;
          sm_phase = c.sm_phase;
          weight = c.weight;
        },
      )
