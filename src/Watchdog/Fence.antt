-- ===== src/Watchdog/Fence.antt =====
-- watchdog_selffence of daemon/watchdog.c resets the host.
use xha.Prelude.{
  ℕ, suc, ◌+◌, ◌<◌, ◌≡◌, refl, sym, ap, subst, ◌∙◌, true, false, ◌&&◌, List, [], ◌∷◌, some, ◌==◌,
  inl, inr, Bool-cases, ==_self,
}
use xha.Prelude.Hosts.{update}
use xha.Watchdog.{
  Timers, is_active, seconds, Instance, Watchdog, WatchdogEnv, wd_fence, HypercallResult,
  do_watchdog_hypercall,
}
use xha.Watchdog.Calls.{answers, fence_all, fence_from, watchdog_selffence}
use xha.Watchdog.Timers.{Reaches, reached, hypercall-set, hypercall-new}

-- The instance's id is that of an active timer.
pub record HasTimer (timers : Timers) (w : Instance) : Type 0 where
  pub index : ℕ
  pub is_index : w.id ≡ suc index
  pub within : index < 2
  pub active : is_active (timers index) ≡ true

abbrev pub AllArmed : Timers → List Instance → Type 0
AllArmed timers [] = Unit {0}
AllArmed timers (w ∷ ws) = HasTimer timers w × AllArmed timers ws

-- The timer of the id expires a second from now.
abbrev pub Expires : WatchdogEnv → Timers → ℕ → Type 0
Expires env timers id = (i : ℕ) × (id ≡ suc i) × (i < 2) × (timers i ≡ some (env.now + seconds 1))

abbrev pub AllExpire : WatchdogEnv → Timers → List Instance → Type 0
AllExpire env timers [] = Unit {0}
AllExpire env timers (w ∷ ws) = Expires env timers w.id × AllExpire env timers ws

active-update :
    (timers : Timers) (i t j : ℕ)
    → is_active (timers j) ≡ true
    → is_active (update timers i (some t) j) ≡ true
active-update timers i t j h = elim (Bool-cases (i == j)) [
  | inl same ↦ rw same refl
  | inr other ↦ rw other h
]

pub AllArmed-update :
    (timers : Timers) (i t : ℕ) (ws : List Instance)
    → AllArmed timers ws
    → AllArmed (update timers i (some t)) ws
AllArmed-update timers i t [] a = tt
AllArmed-update timers i t (w ∷ ws) (h, a) = (
  record {
    index = h.index;
    is_index = h.is_index;
    within = h.within;
    active = active-update timers i t h.index h.active;
  },
  AllArmed-update timers i t ws a,
)

-- A timer that is set to expire stays so.
Expires-update :
    (env : WatchdogEnv) (timers : Timers) (i id : ℕ)
    → Expires env timers id
    → Expires env (update timers i (some (env.now + seconds 1))) id
Expires-update env timers i id (j, at, small, e) =
    (j, at, small, elim (Bool-cases (i == j)) [ inl same ↦ rw same refl | inr other ↦ rw other e ])

Reaches-reached :
    (env : WatchdogEnv) (s : Watchdog) (timers : Timers)
    → Reaches env s
    → Reaches env (reached s timers)
Reaches-reached env s timers r = record { hypervisor = r.hypervisor; locked = refl; opened = refl }

-- The loop sets the timer of every instance, and of one that was set before.
fence_all-Expires :
    (env : WatchdogEnv) (ws : List Instance) (s : Watchdog)
    → Reaches env s
    → AllArmed s.timers ws
    → AllExpire env (fence_all env ws s).timers ws
      × ((id : ℕ) → Expires env s.timers id → Expires env (fence_all env ws s).timers id)
unfolding fence_all
fence_all-Expires env [] s r a = (tt, λ id e. e)
fence_all-Expires env (w ∷ ws) s r (h, a) =
    let timers = update s.timers h.index (some (env.now + seconds 1)) in
    let step : (do_watchdog_hypercall env w.id wd_fence s).state ≡ reached s timers =
      ap (λ id. (do_watchdog_hypercall env id wd_fence s).state) h.is_index
      ∙ ap (λ (x : HypercallResult). x.state)
          (hypercall-set env s h.index 1 r h.within h.active refl) in
    let (all, kept) =
      fence_all-Expires env ws (reached s timers) (Reaches-reached env s timers r)
        (AllArmed-update s.timers h.index (env.now + seconds 1) ws a) in
    subst
      (λ x.
        AllExpire env (fence_all env ws x).timers (w ∷ ws)
        × ((id : ℕ) → Expires env s.timers id → Expires env (fence_all env ws x).timers id))
      (sym step)
      (
        (kept w.id (h.index, h.is_index, h.within, rw (==_self h.index) refl), all),
        λ id e. kept id (Expires-update env s.timers h.index id e),
      )

-- A state in which the daemon can fence: an instance holds a timer, or none does and one is free.
abbrev pub CanFence : Timers → List Instance → Type 0
CanFence timers [] = (is_active (timers 0) && is_active (timers 1)) ≡ false
CanFence timers (w ∷ ws) = AllArmed timers (w ∷ ws)

fence_instances :
    (env : WatchdogEnv) (s : Watchdog) (ws : List Instance)
    → s.instances ≡ ws
    → Reaches env s
    → CanFence s.timers ws
    → (s' : Watchdog) × (watchdog_selffence env s ≡ answers s')
      × AllExpire env s'.timers ws
      × ((i : ℕ) × (i < 2) × (s'.timers i ≡ some (env.now + seconds 1)))
unfolding watchdog_selffence fence_from
fence_instances env s [] at r can =
    let (i, small, free, e) = hypercall-new env s 1 r can in
    (
      reached s (update s.timers i (some (env.now + seconds 1))),
      rw (r.hypervisor) (
          ap (λ ws. answers (fence_from env ws s)) at
          ∙ ap (λ (x : HypercallResult). answers x.state) e),
      tt,
      (i, small, rw (==_self i) refl),
    )
fence_instances env s (w ∷ ws) at r can =
    let (all, kept) = fence_all-Expires env (w ∷ ws) s r can in
    let (i, id, small, e) = all.0 in
    (
      fence_all env (w ∷ ws) s,
      rw (r.hypervisor) (ap (λ vs. answers (fence_from env vs s)) at),
      all,
      (i, small, e),
    )

-- In the mode of the hypervisor, when the hypercalls reach it: watchdog_selffence leaves a timer of
-- the hypervisor that expires one second from then, whether or not the daemon has an instance, and
-- each of its instances' timers does; the timers are do_watchdog's of the patched hypervisor.
pub watchdog_selffence_lem :
    (env : WatchdogEnv) (s : Watchdog)
    → Reaches env s
    → CanFence s.timers s.instances
    → (s' : Watchdog) × (watchdog_selffence env s ≡ answers s')
      × AllExpire env s'.timers s.instances
      × ((i : ℕ) × (i < 2) × (s'.timers i ≡ some (env.now + seconds 1)))
watchdog_selffence_lem env s r can = fence_instances env s s.instances refl r can
