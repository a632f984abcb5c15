-- ===== src/StateFile/Pending.antt =====
-- A change of the pool's state on its way to the state file.
use xha.Prelude.{
  ℕ, ◌≡◌, ◌⊎◌, inl, inr, refl, ap, ◌∙◌, true, false, ◌||◌, if◌then◌else◌, if-elim, arith,
}
use xha.Prelude.Hosts.{for_hosts_inv}
use xha.HostWeight.{Str}
use xha.Config.{Config}
use xha.Data.{Status, success, error_sf_pending_write, PoolState, ComSf, Daemon}
use xha.Sm.Start.{is_success}
use xha.Sm.Signals.{sm_sf_updated}
use xha.StateFile.{GlobalSection, HostSection, Layout, SfState}
use xha.StateFile.Read.{
  Attempt, no_io, read_attempts, io_result, sf_ioattempts, copy_host, copy_hosts, exchange_global,
  update_latency, take_statefile, readsf,
}
use xha.StateFile.Share.{IsSound, read_attempts-IsRead, no_failure}

-- The pool's state that a read leaves, where it is the disk's unless a change is pending.
abbrev pub pool_state_of : SfState → GlobalSection → PoolState
pool_state_of s g = if s.modified_pool_state then s.daemon.sf.pool_state else g.contents.pool_state

-- What readsf makes of the pool's state.
pub record IsExchanged (s : SfState) (g : GlobalSection) (r : Status × SfState) : Type 0 where
  pub pending : s.modified_pool_state ≡ true → r.0 ≡ error_sf_pending_write
  pub read : (r.0 ≡ success) ⊎ (r.0 ≡ error_sf_pending_write)
  pub clean : r.1.modified_pool_state ≡ false
  pub pool_state : r.1.daemon.sf.pool_state ≡ pool_state_of s g
  pub buffered : r.1.buffer.global.contents.pool_state ≡ pool_state_of s g
  pub readable : r.1.daemon.sf.enable_sf_read ≡ s.daemon.sf.enable_sf_read

module _ (cfg : Config) (lay : Layout) (uuid : Str) where
  copy_hosts_frame :
      (s : SfState)
      → ((copy_hosts cfg lay uuid s).pool_state ≡ s.daemon.sf.pool_state)
        × ((copy_hosts cfg lay uuid s).enable_sf_read ≡ s.daemon.sf.enable_sf_read)
  unfolding copy_hosts copy_host
  copy_hosts_frame s =
      for_hosts_inv
        (λ k (sf : ComSf).
          (sf.pool_state ≡ s.daemon.sf.pool_state)
          × (sf.enable_sf_read ≡ s.daemon.sf.enable_sf_read))
        cfg.hostnum (copy_host cfg lay uuid s.daemon.sm s) s.daemon.sf (refl, refl) (λ k sf lt h. h)

  take_statefile-IsExchanged :
      (s : SfState) → IsExchanged s s.buffer.global (take_statefile cfg lay uuid s)
  unfolding take_statefile exchange_global update_latency
  take_statefile-IsExchanged s =
      let (pool, readable) = copy_hosts_frame s in
      record {
        pending = λ asked. ground (arith, asked);
        read =
            if-elim (λ (status : Status). (status ≡ success) ⊎ (status ≡ error_sf_pending_write))
              (s.modified_master || s.modified_pool_state) (λ pending. inr refl) (λ calm. inl refl);
        clean = refl;
        pool_state = rw pool refl;
        buffered = rw pool refl;
        readable = readable;
      }

  pub readsf-IsExchanged :
      (g : GlobalSection) (h : ℕ → HostSection) (attempts : ℕ → Attempt) (s : SfState)
      → IsSound cfg lay uuid g h (attempts 2)
      → IsExchanged s g (readsf cfg lay uuid attempts s)
  unfolding readsf sm_sf_updated
  readsf-IsExchanged g h attempts s sound =
      let (good, r) = read_attempts-IsRead cfg lay uuid g h s attempts sound in
      let st = read_attempts cfg lay uuid attempts sf_ioattempts (no_io cfg lay uuid, s) in
      let e = take_statefile-IsExchanged st.1 in
      let sf = ap (λ (d : Daemon). d.sf) r.daemon in
      let same : pool_state_of st.1 st.1.buffer.global ≡ pool_state_of s g =
        rw (r.masks.0, sf, r.buffer) refl in
      if-elim (IsExchanged s g) (is_success (io_result cfg lay uuid st.0))
        (λ came. record {
          pending = λ asked. e.pending (r.masks.0 ∙ asked);
          read = e.read;
          clean = e.clean;
          pool_state = e.pool_state ∙ same;
          buffered = e.buffered ∙ same;
          readable = e.readable ∙ ap (λ (f : ComSf). f.enable_sf_read) sf;
        })
        (λ failed. absurd (no_failure good failed))
