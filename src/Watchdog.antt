-- ===== src/Watchdog.antt =====
-- The watchdog of daemon/watchdog.c: the table of its instances, the hypercall, and the calls that
-- create, set, close and fence; and the hypervisor's side of it, do_watchdog of
-- hypervisor_patch/xen-3.1.0-4.1.0.1157.6004-watchdog-multi-instances.patch. Only logging is left
-- out.
pub mod Calls
pub mod Timers
pub mod Fence
pub mod Keep
use xha.Prelude.{
  ℕ, zero, suc, ◌+◌, ◌-◌, ◌*◌, ◌%◌, ◌^◌, Bool, true, false, not, ◌&&◌, ◌||◌, List, [], ◌∷◌, ◌++◌,
  Option, none, some, map, ltb, leb, ◌==◌, if◌then◌else◌,
}
use xha.Prelude.Int.{ℤ, pos, negsuc}
use xha.Prelude.Hosts.{update}
use xha.HostWeight.{Str, str_eq}
use xha.Sm.Start.{is_success}
use xha.Data.{
  Status, success, error_wd_insufficient_resource, error_wd_open, error_wd_instance_unavailable,
  error_wd_invalid_handle,
}

-- NR_WATCHDOG_TIMERS
abbrev pub nr_watchdog_timers : ℕ
nr_watchdog_timers = 2

-- SECONDS of the hypervisor, whose clock counts nanoseconds.
abbrev pub seconds : ℕ → ℕ
seconds n = n * 1000000000

-- `d->watchdog_timer`: when an active timer expires.
abbrev pub Timers : Type 0
Timers = ℕ → Option ℕ

abbrev pub is_active : Option ℕ → Bool
is_active none = false
is_active (some expires) = true

-- The loop over the timers: the id of the first that is not active, or 0.
unfoldable pub find_free : Timers → ℕ → ℕ → ℕ
find_free timers i zero = 0
find_free timers i (suc left) =
    let rest = find_free timers (suc i) left in if is_active (timers i) then rest else suc i

unfoldable pub new_timer : Timers → ℕ → ℕ → ℕ → Timers × ℤ
new_timer timers now timeout zero = (timers, negsuc 16)
new_timer timers now timeout (suc i) = (update timers i (some (now + seconds timeout)), pos (suc i))

unfoldable pub old_timer : Timers → ℕ → ℕ → ℕ → Timers × ℤ
old_timer timers now timeout i =
    if leb nr_watchdog_timers i
    then (timers, negsuc 21)
    else if not (is_active (timers i))
    then (timers, negsuc 16)
    else if timeout == 0
    then (update timers i none, pos 0)
    else (update timers i (some (now + seconds timeout)), pos 0)

-- do_watchdog of the hypervisor, with -EEXIST and -EINVAL.
unfoldable pub do_watchdog : Timers → ℕ → ℕ → ℕ → Timers × ℤ
unfolding find_free new_timer old_timer
do_watchdog timers now zero timeout =
    new_timer timers now timeout (find_free timers 0 nr_watchdog_timers)
do_watchdog timers now (suc i) timeout = old_timer timers now timeout i

pub data Mode : Type 0 where
  mode_none mode_hypervisor mode_user : Mode

abbrev pub is_hypervisor : Mode → Bool
is_hypervisor mode_none = false
is_hypervisor mode_hypervisor = true
is_hypervisor mode_user = false

-- WATCHDOG_INSTANCE, with its address, which is its handle.
pub record Instance : Type 0 where
  pub address : ℕ
  pub label : Str
  pub id : ℕ
  pub set_time : ℕ
  pub timeout : ℕ
  pub status : Status

-- The static variables of daemon/watchdog.c, WATCHDOG_INSTANCE_ID_FILE, and the hypervisor's
-- timers.
pub record Watchdog : Type 0 where
  pub instances : List Instance
  pub hypercall_open : Bool
  pub watchdog_mode : Mode
  pub initialized : Bool
  pub mlock_done : Bool
  pub id_file : Option (List ℕ)
  pub timers : Timers

-- What the system answers during a call: open(), mlock() of the argument and of the hypercall,
-- malloc(), fopen() and unlink() succeed or do not; the daemon's clock in milliseconds and the
-- hypervisor's in nanoseconds.
pub record WatchdogEnv : Type 0 where
  pub opens : Bool
  pub locks_arg : Bool
  pub locks_hypercall : Bool
  pub new_address : Option ℕ
  pub file_opens : Bool
  pub unlinks : Bool
  pub ms : ℕ
  pub now : ℕ

abbrev pub max_watchdog_instance : ℕ
max_watchdog_instance = 8

abbrev pub watchdog_timeout_max : ℕ
watchdog_timeout_max = 4294967295

abbrev pub wd_fence : ℕ
wd_fence = 1

-- What a hypercall gives: its status, the id, and the state after it.
pub record HypercallResult : Type 0 where
  pub status : Status
  pub id : ℕ
  pub state : Watchdog

abbrev pub failed : Status → ℕ → Watchdog → HypercallResult
failed status id s = record { status = status; id = id; state = s }

-- The answer of the hypervisor; a new id is taken over.
unfoldable pub take_answer : ℕ → ℤ → Watchdog → HypercallResult
take_answer id (negsuc n) s = failed error_wd_instance_unavailable id s
take_answer zero (pos zero) s = failed error_wd_instance_unavailable 0 s
take_answer zero (pos (suc n)) s = failed success (suc n) s
take_answer (suc id) (pos n) s = failed success (suc id) s

-- do_hypercall, for the hypercall of the watchdog.
unfoldable pub do_hypercall : WatchdogEnv → ℕ → ℕ → Watchdog → HypercallResult
unfolding take_answer
do_hypercall env id timeout s =
    if s.hypercall_open || env.opens
    then take_answer id ((do_watchdog s.timers env.now id timeout).1)
        (record s { hypercall_open = true; timers = (do_watchdog s.timers env.now id timeout).0 })
    else failed error_wd_open id s

-- do_watchdog_hypercall
unfoldable pub do_watchdog_hypercall : WatchdogEnv → ℕ → ℕ → Watchdog → HypercallResult
unfolding do_hypercall
do_watchdog_hypercall env id timeout s =
    if not (is_hypervisor s.watchdog_mode)
    then failed success id s
    else if s.mlock_done || (env.locks_arg && env.locks_hypercall)
    then do_hypercall env id timeout (record s { mlock_done = true })
    else failed error_wd_insufficient_resource id s

-- do_watchdog_close
abbrev pub do_watchdog_close : Watchdog → Watchdog
do_watchdog_close s =
    if is_hypervisor s.watchdog_mode then record s { hypercall_open = false } else s

-- record_watchdog_instatnce
unfoldable pub record_watchdog_instance : WatchdogEnv → List Instance → Watchdog → Watchdog
record_watchdog_instance env [] s = elim (s.id_file) [
  | none ↦ s
  | some ids ↦ if env.unlinks then record s { id_file = none } else s
]
record_watchdog_instance env (w ∷ ws) s =
    if env.file_opens
    then record s { id_file = some (map (λ (v : Instance). v.id) (w ∷ ws)) }
    else s
