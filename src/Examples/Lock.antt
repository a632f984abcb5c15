-- ===== src/Examples/Lock.antt =====
-- The theorems on the lock manager, at a pool of two hosts.
use xha.Prelude.{[], ◌∷◌, ℕ, ◌≡◌, refl, true, false, ◌==◌, arith, subst, sym}
use xha.Prelude.Hosts.{all_hosts}
use xha.HostMap.{is_on}
use xha.Data.{LmFields, ComSf}
use xha.LockMgr.{LmVar, is_locked, is_online, lock_round}
use xha.LockMgr.Exclusion.{IsPolite, lock_round-IsPolite, lock_exclusive}
use xha.LockMgr.Request.{lm_request_lock}
use xha.LockMgr.Request.Answer.{IsReturned, lm_request_lock_lem}
use xha.Examples.{hosts, cfg_of, sf_of, raw_of, daemon_of}

-- Host 0 requests the lock, and both hosts have granted it.
abbrev table : ℕ → LmFields
table i = record { request = i == 0; grant = hosts 1 }

abbrev shared : ComSf
shared = record (sf_of 3 (λ i. raw_of 3)) { lm = table }

abbrev manager : LmVar
manager = record {
  pending_request = false;
  cancel_request = false;
  terminate = false;
  first_cleanup_done = true;
  sf = shared;
  sm = (daemon_of 3 3 false).sm;
}

polite : (m : ℕ) → IsPolite (hosts 3) 2 m (table m)
unfolding IsPolite is_on
polite m asks i lower lt on = subst (λ k. is_on (hosts 1) k ≡ false) (sym one) refl
  where
    one : i ≡ 1
    one = omega arith

lock_round_example : IsPolite (hosts 3) 2 0 ((lock_round (cfg_of 2) manager shared).1.lm 0)
lock_round_example = lock_round-IsPolite (cfg_of 2) manager shared refl (polite 0)

lock_exclusive_example : ◌≡◌ {A = ℕ} 0 0
unfolding is_locked is_online is_on all_hosts
lock_exclusive_example =
    lock_exclusive (cfg_of 2) table manager manager 0 0 refl refl refl (omega arith) (omega arith)
      polite refl refl refl refl

abbrev lose_access_to_statefile : LmVar → LmVar
lose_access_to_statefile v = record v { sf = record (v.sf) { sf_access = false } }

lm_request_lock_example :
    IsReturned
      (cfg_of 2)
      (7 ∷ [])
      (lm_request_lock (cfg_of 2) (7 ∷ []) (lose_access_to_statefile ∷ []) manager)
lm_request_lock_example =
    lm_request_lock_lem (cfg_of 2) (7 ∷ []) lose_access_to_statefile [] manager (λ u. refl) refl
