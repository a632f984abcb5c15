-- ===== src/Watchdog/Keep.antt =====
-- watchdog_create and watchdog_set of daemon/watchdog.c keep every instance at a timer of its own,
-- and what check_watchdog_timeout reports.
use xha.Prelude.{
  ℕ, suc, ◌+◌, ◌*◌, ◌%◌, ◌^◌, ◌<◌, ◌≡◌, ◌↔◌, refl, sym, ap, subst, ◌∙◌, true, false, ◌&&◌, List, [],
  ◌∷◌, ◌++◌, some, leb, ◌==◌, inl, inr, Bool-cases, ==_iff, ==_self, arith,
}
use xha.Prelude.Hosts.{update}
use xha.HostWeight.{Str}
use xha.Config.{Config}
use xha.Data.{success}
use xha.Watchdog.{
  Timers, is_active, seconds, Instance, Watchdog, WatchdogEnv, HypercallResult,
  watchdog_timeout_max, do_watchdog_hypercall, record_watchdog_instance, max_watchdog_instance,
}
use xha.Watchdog.Calls.{
  answers, length, new_instance, create_at, create_end, initialize_mode, watchdog_create,
  find_instance, update_instance, set_end, set_at, set_handle, check_watchdog_timeout, watchdog_set,
  report, expired,
}
use xha.Watchdog.Timers.{Reaches, reached, hypercall-set, hypercall-new}
use xha.Watchdog.Fence.{HasTimer, AllArmed, AllArmed-update}

record_timers :
    (env : WatchdogEnv) (ws : List Instance) (s : Watchdog)
    → ((record_watchdog_instance env ws s).timers ≡ s.timers)
      × ((record_watchdog_instance env ws s).instances ≡ s.instances)
unfolding record_watchdog_instance
record_timers env [] s = (ground arith, ground arith)
record_timers env (w ∷ ws) s = (ground arith, ground arith)

AllArmed-append :
    (timers : Timers) (ws : List Instance) (w : Instance)
    → AllArmed timers ws
    → HasTimer timers w
    → AllArmed timers (ws ++ w ∷ [])
AllArmed-append timers [] w a h = (h, tt)
AllArmed-append timers (v ∷ ws) w (g, a) h = (g, AllArmed-append timers ws w a h)

-- In the mode of the hypervisor, with less than MAX_WATCHDOG_INSTANCE instances, a timer that is
-- free, and memory: watchdog_create succeeds with the new instance at a timer that was free, leaves
-- the other timers as they were, and every instance has an active timer if each had.
pub watchdog_create_lem :
    (wd_mode : Str) (env : WatchdogEnv) (label : Str) (s : Watchdog) (address : ℕ)
    → env.new_address ≡ some address
    → Reaches env (initialize_mode wd_mode s)
    → leb max_watchdog_instance (length (initialize_mode wd_mode s).instances) ≡ false
    → (is_active ((initialize_mode wd_mode s).timers 0)
        && is_active ((initialize_mode wd_mode s).timers 1))
      ≡ false
    → AllArmed (initialize_mode wd_mode s).timers (initialize_mode wd_mode s).instances
    → (s' : Watchdog) × (i : ℕ) × (watchdog_create wd_mode env label s
        ≡ answers (success, some address, s'))
      × (s'.instances
          ≡ (initialize_mode wd_mode s).instances ++ new_instance env label address (suc i) ∷ [])
      × (is_active ((initialize_mode wd_mode s).timers i) ≡ false)
      × (s'.timers
          ≡ update
              (initialize_mode wd_mode s).timers
              i
              (some (env.now + seconds watchdog_timeout_max)))
      × AllArmed s'.timers s'.instances
unfolding watchdog_create create_at create_end
watchdog_create_lem wd_mode env label s address mem r room free armed =
    let t = initialize_mode wd_mode s in
    let (i, small, was_free, e) = hypercall-new env t watchdog_timeout_max r free in
    let timers = update t.timers i (some (env.now + seconds watchdog_timeout_max)) in
    let ws = t.instances ++ new_instance env label address (suc i) ∷ [] in
    let v = record (reached t timers) { instances = ws } in
    let (same_timers, same_instances) = record_timers env ws v in
    (
      record_watchdog_instance env ws v,
      i,
      ap (λ x. create_at env label x t) mem
          ∙ ap (λ (x : HypercallResult). create_end env label address x) e
          ∙ rw room refl,
      same_instances,
      was_free,
      same_timers,
      subst (λ x. AllArmed x (record_watchdog_instance env ws v).instances) (sym same_timers)
          (subst (λ x. AllArmed timers x) (sym same_instances)
            (AllArmed-append timers t.instances (new_instance env label address (suc i))
              (AllArmed-update t.timers i (env.now + seconds watchdog_timeout_max) t.instances
                armed)
              (record {
                index = i;
                is_index = refl;
                within = small;
                active = rw (==_self i) refl;
              }))),
    )

find_instance-HasTimer :
    (timers : Timers) (address : ℕ) (ws : List Instance) {w : Instance}
    → find_instance address ws ≡ some w
    → AllArmed timers ws
    → HasTimer timers w × (w.address ≡ address)
unfolding find_instance
find_instance-HasTimer timers address [] e a = absurd (ground arith)
find_instance-HasTimer timers address (v ∷ ws) {w} e (h, a) =
    elim (Bool-cases (v.address == address)) [
      | inl hit ↦
          let same : some v ≡ some w = rw hit at e in
          let same' : v ≡ w = cc in
          subst (λ x. HasTimer timers x × (x.address ≡ address)) same' (h, (==_iff _ _).0 hit)
      | inr miss ↦ find_instance-HasTimer timers address ws {w = w} (rw miss at e) a
    ]

-- An instance that keeps its id keeps its timer.
AllArmed-update_instance :
    (timers : Timers) (address : ℕ) (f : Instance → Instance) (ws : List Instance) {w : Instance}
    → find_instance address ws ≡ some w
    → (f w).id ≡ w.id
    → AllArmed timers ws
    → AllArmed timers (update_instance address f ws)
unfolding find_instance update_instance
AllArmed-update_instance timers address f [] e id a = tt
AllArmed-update_instance timers address f (v ∷ ws) {w} e id (h, a) =
    elim (Bool-cases (v.address == address)) [
      | inl hit ↦
          let same : some v ≡ some w = rw hit at e in
          let same' : v ≡ w = cc in
          rw hit (
            record {
              index = h.index;
              is_index =
                  ap (λ (x : Instance). (f x).id) same'
                  ∙ id
                  ∙ ap (λ (x : Instance). x.id) (sym same')
                  ∙ h.is_index;
              within = h.within;
              active = h.active;
            },
            a,
          )
      | inr miss ↦
          rw miss (h, AllArmed-update_instance timers address f ws {w = w} (rw miss at e) id a)
    ]

-- In the mode of the hypervisor, when check_watchdog_timeout finds no instance expired and the
-- handle is one of an instance: watchdog_set with a timeout that is not 0 succeeds, the instance's
-- timer expires when the timeout has passed and not before, the other timers are as they were, and
-- every instance has an active timer if each had.
pub watchdog_set_lem :
    (cfg : Config) (env : WatchdogEnv) (address timeout : ℕ) (s : Watchdog) (w : Instance)
    → check_watchdog_timeout cfg env.ms s.watchdog_mode s.instances ≡ true
    → find_instance address s.instances ≡ some w
    → Reaches env s
    → (timeout == 0) ≡ false
    → AllArmed s.timers s.instances
    → (s' : Watchdog) × (i : ℕ) × (watchdog_set cfg env (some address) timeout s
        ≡ answers (success, s'))
      × (w.id ≡ suc i)
      × (s'.timers ≡ update s.timers i (some (env.now + seconds timeout)))
      × AllArmed s'.timers s'.instances
unfolding watchdog_set set_handle set_at set_end
watchdog_set_lem cfg env address timeout s w checked found r positive armed =
    let (h, at) = find_instance-HasTimer s.timers address s.instances found armed in
    let timers = update s.timers h.index (some (env.now + seconds timeout)) in
    let change = λ (v : Instance). record v {
      set_time = env.ms;
      timeout = timeout;
      status = success;
      id = suc h.index;
    } in
    (
      record (reached s timers) { instances = update_instance address change s.instances },
      h.index,
      rw checked (
          ap (λ x. set_at env timeout x s) found
          ∙ ap
              (λ id.
                answers (set_end env w.address timeout (do_watchdog_hypercall env id timeout s)))
              h.is_index
          ∙ ap (λ x. answers (set_end env w.address timeout x))
              (hypercall-set env s h.index timeout r h.within h.active positive)
          ∙ ap
              (λ a. answers (
                set_end env a timeout
                  (record { status = success; id = suc h.index; state = reached s timers })))
              at),
      h.is_index,
      refl,
      AllArmed-update_instance timers address change s.instances found (sym h.is_index)
          (AllArmed-update s.timers h.index (env.now + seconds timeout) s.instances armed),
    )

-- check_watchdog_timeout reports an instance as expired exactly when more than its timeout, in
-- milliseconds and reduced to 32 bits, has passed; so it is right for a timeout below 2^32
-- milliseconds, and an instance with the timeout of watchdog_create, 0xFFFFFFFF seconds, is
-- reported as expired after 2^32 - 1000 milliseconds.
pub report-expired :
    (cfg : Config) (ms : ℕ) (w : Instance)
    → ((report cfg ms w ≡ expired) ↔ (w.set_time + w.timeout * 1000 % 2 ^ 32 < ms))
      × (w.timeout * 1000 < 2 ^ 32 → w.timeout * 1000 % 2 ^ 32 ≡ w.timeout * 1000)
unfolding report
report-expired cfg ms w = (ground arith, λ h. omega arith)
