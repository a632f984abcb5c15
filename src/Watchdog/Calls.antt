-- ===== src/Watchdog/Calls.antt =====
-- watchdog_create, watchdog_close, watchdog_set, watchdog_selffence and check_watchdog_timeout of
-- daemon/watchdog.c.
use xha.Prelude.{
  ℕ, zero, suc, ◌+◌, ◌-◌, ◌*◌, ◌%◌, ◌^◌, Bool, true, false, not, ◌&&◌, ◌||◌, List, [], ◌∷◌, ◌++◌,
  Option, none, some, leb, ◌==◌, if◌then◌else◌,
}
use xha.Prelude.Int.{pos, ltb_ℤ, sub_ℕ}
use xha.HostWeight.{Str, str_eq}
use xha.Config.{Config}
use xha.Sm.Start.{is_success}
use xha.Data.{Status, success, error_wd_insufficient_resource, error_wd_invalid_handle}
use xha.Watchdog.{
  Mode, mode_none, mode_hypervisor, mode_user, is_hypervisor, Instance, Watchdog, WatchdogEnv,
  max_watchdog_instance, watchdog_timeout_max, wd_fence, HypercallResult, do_watchdog_hypercall,
  do_watchdog_close, record_watchdog_instance,
}

-- The names of the modes, in ASCII.
abbrev hypervisor_name : Str
hypervisor_name = 72 ∷ 89 ∷ 80 ∷ 69 ∷ 82 ∷ 86 ∷ 73 ∷ 83 ∷ 79 ∷ 82 ∷ []

abbrev user_name : Str
user_name = 85 ∷ 83 ∷ 69 ∷ 82 ∷ []

abbrev none_name : Str
none_name = 78 ∷ 79 ∷ 78 ∷ 69 ∷ []

-- The mode of the configuration; any other name leaves the mode as it is.
unfoldable pub config_mode : Str → Mode → Mode
config_mode wd_mode mode =
    if str_eq wd_mode hypervisor_name
    then mode_hypervisor
    else if str_eq wd_mode user_name
    then mode_user
    else if str_eq wd_mode none_name
    then mode_none
    else mode

unfoldable pub initialize_mode : Str → Watchdog → Watchdog
unfolding config_mode
initialize_mode wd_mode s =
    if s.initialized
    then s
    else record s { watchdog_mode = config_mode wd_mode s.watchdog_mode; initialized = true }

abbrev pub length : List Instance → ℕ
length [] = 0
length (w ∷ ws) = suc (length ws)

abbrev take : ℕ → Str → Str
take zero cs = []
take (suc n) [] = []
take (suc n) (c ∷ cs) = c ∷ take n cs

-- A call that writes past the end of `instance` is undefined.
pub data CallResult (A : Type 0) : Type 0 where
  answers : A → CallResult A
  undefined_behaviour : CallResult A
  assertion_fails : CallResult A

abbrev pub new_instance : WatchdogEnv → Str → ℕ → ℕ → Instance
new_instance env label address id = record {
  address = address;
  label = take 255 label;
  id = id;
  set_time = env.ms;
  timeout = watchdog_timeout_max;
  status = success;
}

-- watchdog_create from the answer of the hypercall on.
unfoldable pub create_end :
    WatchdogEnv → Str → ℕ → HypercallResult → CallResult (Status × Option ℕ × Watchdog)
create_end env label address r =
    if not (is_success r.status)
    then answers (r.status, none, r.state)
    else if leb max_watchdog_instance (length r.state.instances)
    then undefined_behaviour
    else answers (
      success,
      some address,
      record_watchdog_instance env (r.state.instances ++ new_instance env label address r.id ∷ [])
          (record (r.state) {
            instances = r.state.instances ++ new_instance env label address r.id ∷ [];
          }),
    )

unfoldable pub create_at :
    WatchdogEnv → Str → Option ℕ → Watchdog → CallResult (Status × Option ℕ × Watchdog)
unfolding create_end
create_at env label none s = answers (error_wd_insufficient_resource, none, s)
create_at env label (some address) s =
    create_end env label address (do_watchdog_hypercall env 0 watchdog_timeout_max s)

-- watchdog_create: its status, the handle, and the state.
unfoldable pub watchdog_create :
    Str → WatchdogEnv → Str → Watchdog → CallResult (Status × Option ℕ × Watchdog)
unfolding initialize_mode create_at
watchdog_create wd_mode env label s =
    create_at env label env.new_address (initialize_mode wd_mode s)

-- The instance of a handle.
unfoldable pub find_instance : ℕ → List Instance → Option Instance
find_instance address [] = none
find_instance address (w ∷ ws) = if w.address == address then some w else find_instance address ws

-- The last instance, and those before it.
unfoldable pub split_last : Instance → List Instance → Instance × List Instance
split_last w [] = (w, [])
split_last w (v ∷ vs) = let rest = split_last v vs in (rest.0, w ∷ rest.1)

-- The entry of the instance takes the last one's place: instance[wdi] = instance[instance_num - 1].
unfoldable pub remove_instance : ℕ → List Instance → List Instance
remove_instance address [] = []
remove_instance address (w ∷ []) = if w.address == address then [] else w ∷ []
remove_instance address (w ∷ v ∷ vs) =
    let rest = remove_instance address (v ∷ vs) in
    if w.address == address then (split_last v vs).0 ∷ (split_last v vs).1 else w ∷ rest

unfoldable pub close_end : WatchdogEnv → ℕ → Watchdog → Watchdog
close_end env address s =
    let left = remove_instance address s.instances in
    let s' = record s { instances = left } in
    record_watchdog_instance env left (if length left == 0 then do_watchdog_close s' else s')

unfoldable pub close_at : WatchdogEnv → Option Instance → Watchdog → CallResult Watchdog
unfolding close_end
close_at env none s = undefined_behaviour
close_at env (some w) s =
    answers (close_end env w.address ((do_watchdog_hypercall env w.id 0 s).state))

-- watchdog_close; its status is always MTC_SUCCESS, and the handle NULL is `none`.
unfoldable pub watchdog_close : WatchdogEnv → Option ℕ → Watchdog → CallResult Watchdog
unfolding close_at
watchdog_close env none s = answers (record_watchdog_instance env s.instances s)
watchdog_close env (some address) s = close_at env (find_instance address s.instances) s

-- What check_watchdog_timeout reports of an instance. The products are words of 32 bits.
pub data Report : Type 0 where
  fresh half_timeout expiring_soon expired : Report

unfoldable pub report : Config → ℕ → Instance → Report
report cfg ms w =
    let age = sub_ℕ ms w.set_time in
    if ltb_ℤ (pos (w.timeout * 1000 % 2 ^ 32)) age
    then expired
    else if ltb_ℤ (pos ((w.timeout + 2 ^ 32 - cfg.heartbeat_interval) % 2 ^ 32 * 1000 % 2 ^ 32)) age
    then expiring_soon
    else if ltb_ℤ (pos (w.timeout * 500 % 2 ^ 32)) age
    then half_timeout
    else fresh

abbrev is_expired : Report → Bool
is_expired fresh = false
is_expired half_timeout = false
is_expired expiring_soon = false
is_expired expired = true

abbrev is_mode_none : Mode → Bool
is_mode_none mode_none = true
is_mode_none mode_hypervisor = false
is_mode_none mode_user = false

-- check_watchdog_timeout; whether its assertion holds, that no watchdog has expired.
unfoldable pub check_watchdog_timeout : Config → ℕ → Mode → List Instance → Bool
unfolding report
check_watchdog_timeout cfg ms mode [] = true
check_watchdog_timeout cfg ms mode (w ∷ ws) =
    (is_mode_none mode || not (is_expired (report cfg ms w)))
    && check_watchdog_timeout cfg ms mode ws

-- The instance of a handle changes.
unfoldable pub update_instance : ℕ → (Instance → Instance) → List Instance → List Instance
update_instance address f [] = []
update_instance address f (w ∷ ws) =
    if w.address == address then f w ∷ ws else w ∷ update_instance address f ws

unfoldable pub set_end : WatchdogEnv → ℕ → ℕ → HypercallResult → Status × Watchdog
set_end env address timeout r = (
  r.status,
  record (r.state) {
    instances =
        update_instance address
          (λ w. record w { set_time = env.ms; timeout = timeout; status = r.status; id = r.id })
          r.state.instances;
  },
)

unfoldable pub set_at :
    WatchdogEnv → ℕ → Option Instance → Watchdog → CallResult (Status × Watchdog)
unfolding set_end
set_at env timeout none s = undefined_behaviour
set_at env timeout (some w) s =
    answers (set_end env w.address timeout (do_watchdog_hypercall env w.id timeout s))

unfoldable pub set_handle : WatchdogEnv → Option ℕ → ℕ → Watchdog → CallResult (Status × Watchdog)
unfolding set_at
set_handle env none timeout s = answers (error_wd_invalid_handle, s)
set_handle env (some address) timeout s = set_at env timeout (find_instance address s.instances) s

-- watchdog_set
unfoldable pub watchdog_set :
    Config → WatchdogEnv → Option ℕ → ℕ → Watchdog → CallResult (Status × Watchdog)
unfolding set_handle check_watchdog_timeout
watchdog_set cfg env handle timeout s =
    if check_watchdog_timeout cfg env.ms s.watchdog_mode s.instances
    then set_handle env handle timeout s
    else assertion_fails

-- The loop of watchdog_selffence over the instances.
unfoldable pub fence_all : WatchdogEnv → List Instance → Watchdog → Watchdog
fence_all env [] s = s
fence_all env (w ∷ ws) s = fence_all env ws ((do_watchdog_hypercall env w.id wd_fence s).state)

-- With no instance one is created for the fence.
unfoldable pub fence_from : WatchdogEnv → List Instance → Watchdog → Watchdog
fence_from env [] s = (do_watchdog_hypercall env 0 wd_fence s).state
fence_from env (w ∷ ws) s = fence_all env (w ∷ ws) s

-- watchdog_selffence where the hypercall that shuts the domain down did not do so; then it sleeps
-- for ever.
unfoldable pub watchdog_selffence : WatchdogEnv → Watchdog → CallResult Watchdog
unfolding fence_from
watchdog_selffence env s =
    if is_hypervisor s.watchdog_mode
    then answers (fence_from env s.instances s)
    else assertion_fails
