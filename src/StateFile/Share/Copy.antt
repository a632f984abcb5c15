-- ===== src/StateFile/Share/Copy.antt =====
-- A host's element of the state file: what one host writes is what the others read.
use xha.Prelude.{
  ℕ, ◌<◌, ◌≡◌, ◌≢◌, ◌⊎◌, refl, ap, subst, false, not, ◌||◌, ◌==◌, arith, inl, inr, ==_self,
  ℕ_discrete, if-elim,
}
use xha.Prelude.Hosts.{for_hosts_inv}
use xha.HostMap.{is_on}
use xha.HostMap.Laws.{is_on-set_boolean}
use xha.HostWeight.{Str}
use xha.Config.{Config}
use xha.Data.{Status, success, error_sf_pending_write, ComSf, LmFields}
use xha.Sm.Start.{is_success}
use xha.Sm.Signals.{sm_sf_updated}
use xha.StateFile.{GlobalSection, HostData, HostSection, Layout, SfState}
use xha.StateFile.Read.{
  Attempt, no_io, read_attempts, io_result, sf_ioattempts, raw_of_host, copy_host, copy_hosts,
  exchange_global, update_latency, take_statefile, readsf,
}
use xha.StateFile.Share.{IsSound, read_attempts-IsRead, no_failure}

-- What is known of another host from its element.
pub record IsCopied (j : ℕ) (h : HostData) (sf : ComSf) : Type 0 where
  pub request : (sf.lm j).request ≡ h.lock_request
  pub grant : (sf.lm j).grant ≡ h.lock_grant
  pub excluded : is_on sf.excluded j ≡ h.excluded
  pub starting : is_on sf.starting_hosts j ≡ h.starting
  pub current_liveset : (sf.raw j).current_liveset ≡ h.current_liveset
  pub proposed_liveset : (sf.raw j).proposed_liveset ≡ h.proposed_liveset
  pub hbdomain : (sf.raw j).hbdomain ≡ h.hbdomain
  pub sfdomain : (sf.raw j).sfdomain ≡ h.sfdomain
  pub sm_phase : sf.sm_phase j ≡ h.sm_phase
  pub weight : sf.weight j ≡ h.weight

module _ (cfg : Config) (lay : Layout) (uuid : Str) (s : SfState) (j : ℕ)
    (other : j ≢ cfg.my_index) where
  abbrev theirs : HostData
  theirs = (s.buffer.host j).contents

  own-IsCopied : (sf : ComSf) → IsCopied j theirs (copy_host cfg lay uuid s.daemon.sm s j sf)
  unfolding copy_host raw_of_host
  own-IsCopied sf =
      let off : (j == cfg.my_index) ≡ false = ground arith in
      record {
        request = rw off (rw (==_self j) refl);
        grant = rw off (rw (==_self j) refl);
        excluded = rw off (rw (is_on-set_boolean sf.excluded j theirs.excluded j, ==_self j) refl);
        starting = rw (is_on-set_boolean sf.starting_hosts j theirs.starting j, ==_self j) refl;
        current_liveset = rw (==_self j) refl;
        proposed_liveset = rw (==_self j) refl;
        hbdomain = rw (==_self j) refl;
        sfdomain = rw (==_self j) refl;
        sm_phase = rw (==_self j, off) refl;
        weight = rw (==_self j, off) refl;
      }

  other-IsCopied :
      (k : ℕ) (sf : ComSf)
      → k ≢ j
      → IsCopied j theirs sf
      → IsCopied j theirs (copy_host cfg lay uuid s.daemon.sm s k sf)
  unfolding copy_host raw_of_host
  other-IsCopied k sf apart c =
      let off : (k == j) ≡ false = ground arith in
      record {
        request =
            if-elim (λ (lm : ℕ → LmFields). (lm j).request ≡ theirs.lock_request)
              (k == cfg.my_index) (λ own. c.request) (λ foreign. rw off c.request);
        grant =
            if-elim (λ (lm : ℕ → LmFields). (lm j).grant ≡ theirs.lock_grant) (k == cfg.my_index)
              (λ own. c.grant) (λ foreign. rw off c.grant);
        excluded =
            if-elim (λ m. is_on m j ≡ theirs.excluded)
              (not (k == cfg.my_index) || not s.modified_excluded)
              (λ put.
                rw (is_on-set_boolean sf.excluded k (s.buffer.host k).contents.excluded j, off)
                  c.excluded)
              (λ kept. c.excluded);
        starting =
            rw (is_on-set_boolean sf.starting_hosts k (s.buffer.host k).contents.starting j, off)
              c.starting;
        current_liveset = rw off c.current_liveset;
        proposed_liveset = rw off c.proposed_liveset;
        hbdomain = rw off c.hbdomain;
        sfdomain = rw off c.sfdomain;
        sm_phase = rw off c.sm_phase;
        weight = rw off c.weight;
      }

  copy_hosts-IsCopied : j < cfg.hostnum → IsCopied j theirs (copy_hosts cfg lay uuid s)
  unfolding copy_hosts
  copy_hosts-IsCopied inside =
      for_hosts_inv (λ k sf. j < k → IsCopied j theirs sf) cfg.hostnum
        (copy_host cfg lay uuid s.daemon.sm s) s.daemon.sf (λ lt. absurd (omega arith))
        (λ k sf lt c below. elim (ℕ_discrete k j) [
          | yes e ↦ rw e (own-IsCopied sf)
          | no apart ↦ other-IsCopied k sf apart (c (omega arith))
        ])
        inside

  -- The access flag and the global section leave the copies alone.
  take_statefile-IsCopied :
      j < cfg.hostnum → IsCopied j theirs (take_statefile cfg lay uuid s).1.daemon.sf
  unfolding take_statefile exchange_global update_latency
  take_statefile-IsCopied inside =
      let c = copy_hosts-IsCopied inside in
      record {
        request = c.request;
        grant = c.grant;
        excluded = c.excluded;
        starting = c.starting;
        current_liveset = c.current_liveset;
        proposed_liveset = c.proposed_liveset;
        hbdomain = c.hbdomain;
        sfdomain = c.sfdomain;
        sm_phase = c.sm_phase;
        weight = c.weight;
      }

module _ (cfg : Config) (lay : Layout) (uuid : Str) (g : GlobalSection) (h : ℕ → HostSection) where
  take_statefile_status :
      (s : SfState)
      → let status = (take_statefile cfg lay uuid s).0 in
        (status ≡ success) ⊎ (status ≡ error_sf_pending_write)
  unfolding take_statefile exchange_global update_latency
  take_statefile_status s =
      if-elim (λ (status : Status). (status ≡ success) ⊎ (status ≡ error_sf_pending_write))
        (s.modified_master || s.modified_pool_state) (λ pending. inr refl) (λ calm. inl refl)

  pub readsf-IsCopied :
      (attempts : ℕ → Attempt) (s : SfState) (j : ℕ)
      → IsSound cfg lay uuid g h (attempts 2)
      → j ≢ cfg.my_index
      → j < cfg.hostnum
      → let (status, t) = readsf cfg lay uuid attempts s in
        ((status ≡ success) ⊎ (status ≡ error_sf_pending_write))
        × IsCopied j (h j).contents t.daemon.sf
  unfolding readsf sm_sf_updated
  readsf-IsCopied attempts s j sound other inside =
      let (good, r) = read_attempts-IsRead cfg lay uuid g h s attempts sound in
      let st = read_attempts cfg lay uuid attempts sf_ioattempts (no_io cfg lay uuid, s) in
      if-elim
        (λ (r : Status × SfState).
          ((r.0 ≡ success) ⊎ (r.0 ≡ error_sf_pending_write))
          × IsCopied j (h j).contents r.1.daemon.sf)
        (is_success (io_result cfg lay uuid st.0))
        (λ came. (
          take_statefile_status st.1,
          subst (λ e. IsCopied j e (take_statefile cfg lay uuid st.1).1.daemon.sf)
              (ap (λ (e : HostSection). e.contents) (r.done j inside).1)
              (take_statefile-IsCopied cfg lay uuid st.1 j other inside),
        ))
        (λ failed. absurd (no_failure good failed))
