-- ===== src/LockMgr.antt =====
-- daemon/lock_mgr.c: a lock among the online hosts, by requests and grants in the state file.
-- A host has the lock when every online host has granted it to this host; hosts of a smaller index
-- have priority.
pub mod Exclusion
pub mod Request
use xha.Prelude.{ℕ, Bool, true, false, not, ◌&&◌, ◌||◌, leb, if◌then◌else◌, Option}
use xha.Prelude.Hosts.{update, for_hosts, all_hosts, find_host}
use xha.HostMap.{HostMap, set, reset, is_on}
use xha.Config.{Config}
use xha.Data.{ComSm, ComSf, LmFields}

-- `lmvar`, without its mutex and condition variable; `sf` and `sm` are copies of the common
-- objects.
pub record LmVar : Type 0 where
  pub pending_request : Bool
  pub cancel_request : Bool
  pub terminate : Bool
  pub first_cleanup_done : Bool
  pub sf : ComSf
  pub sm : ComSm

unfoldable pub is_online : LmVar → ℕ → Bool
is_online v node_index = is_on v.sm.current_liveset node_index

module _ (cfg : Config) where
  abbrev pub is_equal_or_prior_to_this_node : ℕ → Bool
  is_equal_or_prior_to_this_node node_index = leb node_index cfg.my_index

  unfoldable pub am_i_ready_to_request : LmVar → Bool
  unfolding is_online
  am_i_ready_to_request v =
      all_hosts cfg.hostnum (λ index.
        if is_online v index then not (is_on (v.sf.lm index).grant cfg.my_index) else true)
      && all_hosts cfg.hostnum (λ index.
        if not (is_equal_or_prior_to_this_node index) && is_online v index
        then not (is_on (v.sf.lm cfg.my_index).grant index)
        else true)

  unfoldable pub is_locked : LmVar → ℕ → Bool
  unfolding is_online
  is_locked v node_index =
      is_online v node_index
      && all_hosts cfg.hostnum
          (λ index. if is_online v index then is_on (v.sf.lm index).grant node_index else true)

  -- `none` for INVALID_NODE
  unfoldable pub get_lock_node : LmVar → Option ℕ
  get_lock_node v = find_host cfg.hostnum (is_locked v)

  -- The grants of this host whose request is canceled are taken back.
  unfoldable pub cancel_grants : LmVar → HostMap → HostMap
  cancel_grants v grant =
      for_hosts cfg.hostnum
        (λ index g.
          if not (v.sf.lm index).request || not (is_online v index) then reset g index else g)
        grant

  unfoldable pub grant_others : LmVar → Bool → HostMap → HostMap
  grant_others v request grant =
      for_hosts cfg.hostnum
        (λ index g.
          if (v.sf.lm index).request
            && is_online v index
            && (not request || is_equal_or_prior_to_this_node index)
          then set g index
          else g)
        grant

  -- The request of this host after its pending request and its cancellation.
  abbrev pub next_request : LmVar → Bool → Bool
  next_request v request =
      if v.cancel_request
      then false
      else if v.pending_request && am_i_ready_to_request v
      then true
      else request

  -- What a round makes of this host's own fields.
  unfoldable pub next_own : LmVar → LmFields → LmFields
  unfolding cancel_grants grant_others
  next_own v own =
      let request = next_request v own.request in
      record { request = request; grant = grant_others v request (cancel_grants v own.grant) }

  -- One round of the loop, once the thread is woken and is not to terminate.
  unfoldable pub lock_round : LmVar → ComSf → LmVar × ComSf
  unfolding is_online next_own
  lock_round v psf =
      let psf' = record psf {
        lm = update psf.lm cfg.my_index (next_own v (psf.lm cfg.my_index));
      } in
      let v' = record v {
        pending_request =
            if v.cancel_request || v.pending_request && am_i_ready_to_request v
            then false
            else v.pending_request;
        cancel_request = false;
        first_cleanup_done = true;
        sf = psf';
      } in
      if not v.sf.sf_access || not (is_online v cfg.my_index) then (v, psf) else (v', psf')
