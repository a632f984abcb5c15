-- ===== src/Watchdog/Timers.antt =====
-- The timers of the hypervisor under the hypercalls of daemon/watchdog.c.
use xha.Prelude.{
  ℕ, suc, ◌+◌, ◌<◌, ◌≡◌, refl, true, false, ◌&&◌, ◌||◌, some, leb, ◌==◌, inl, inr, Bool-cases,
  arith,
}
use xha.Prelude.Hosts.{update}
use xha.Data.{success}
use xha.Watchdog.{
  Timers, is_active, seconds, do_watchdog, is_hypervisor, Watchdog, WatchdogEnv,
  do_watchdog_hypercall,
}

-- The hypercall of the watchdog reaches the hypervisor.
pub record Reaches (env : WatchdogEnv) (s : Watchdog) : Type 0 where
  pub hypervisor : is_hypervisor s.watchdog_mode ≡ true
  pub locked : (s.mlock_done || (env.locks_arg && env.locks_hypercall)) ≡ true
  pub opened : (s.hypercall_open || env.opens) ≡ true

-- The state after a hypercall that left the timers so.
abbrev pub reached : Watchdog → Timers → Watchdog
reached s timers = record s { mlock_done = true; hypercall_open = true; timers = timers }

-- A hypercall with the id of an active timer sets it anew.
pub hypercall-set :
    (env : WatchdogEnv) (s : Watchdog) (i timeout : ℕ)
    → Reaches env s
    → i < 2
    → is_active (s.timers i) ≡ true
    → (timeout == 0) ≡ false
    → do_watchdog_hypercall env (suc i) timeout s ≡ record {
      status = success;
      id = suc i;
      state = reached s (update s.timers i (some (env.now + seconds timeout)));
    }
unfolding do_watchdog_hypercall do_watchdog
hypercall-set env s i timeout r small act positive =
    let below : leb 2 i ≡ false = ground arith in
    rw (r.hypervisor, r.locked, r.opened, below, act, positive) refl

-- A hypercall for a new timer takes one that was not active, if there is one.
pub hypercall-new :
    (env : WatchdogEnv) (s : Watchdog) (timeout : ℕ)
    → Reaches env s
    → (is_active (s.timers 0) && is_active (s.timers 1)) ≡ false
    → (i : ℕ) × (i < 2)
      × (is_active (s.timers i) ≡ false)
      × (do_watchdog_hypercall env 0 timeout s ≡ record {
        status = success;
        id = suc i;
        state = reached s (update s.timers i (some (env.now + seconds timeout)));
      })
unfolding do_watchdog_hypercall do_watchdog
hypercall-new env s timeout r free = elim (Bool-cases (is_active (s.timers 0))) [
  | inr first ↦ (0, omega arith, first, rw (r.hypervisor, r.locked, r.opened, first) refl)
  | inl taken ↦
      let second : is_active (s.timers 1) ≡ false = rw taken at free in
      (1, omega arith, second, rw (r.hypervisor, r.locked, r.opened, taken, second) refl)
]
