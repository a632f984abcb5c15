-- ===== src/Examples/Monitor.antt =====
-- A watchdog with two instances, and an Xapi monitor, at work.
use xha.Prelude.{ℕ, suc, ◌+◌, ◌<◌, ◌≡◌, refl, true, [], ◌∷◌, none, some, ◌==◌, if◌then◌else◌, arith}
use xha.Prelude.Int.{negsuc}
use xha.Prelude.Hosts.{update}
use xha.Examples.{cfg_of}
use xha.Data.{success}
use xha.Watchdog.{seconds, mode_hypervisor, Instance, Watchdog, WatchdogEnv}
use xha.Watchdog.Calls.{
  answers, watchdog_set, watchdog_selffence, check_watchdog_timeout, find_instance,
}
use xha.Watchdog.Timers.{Reaches}
use xha.Watchdog.Fence.{HasTimer, AllArmed, AllExpire, watchdog_selffence_lem}
use xha.Watchdog.Keep.{watchdog_set_lem}
use xha.XapiMon.{
  initial_com, XapiConfig, XapiMonitor, TurnEnv, RestartAttempt, fork_failed, ended_with,
}

abbrev heartbeat_instance : Instance
heartbeat_instance = record {
  address = 100;
  label = 104 ∷ 98 ∷ [];
  id = 1;
  set_time = 5000;
  timeout = 30;
  status = success;
}

abbrev one_instance : Watchdog
one_instance = record {
  instances = heartbeat_instance ∷ [];
  hypercall_open = true;
  watchdog_mode = mode_hypervisor;
  initialized = true;
  mlock_done = true;
  id_file = some (1 ∷ []);
  timers = λ i. if i == 0 then some 35000000000 else none;
}

abbrev watchdog_env : WatchdogEnv
watchdog_env = record {
  opens = true;
  locks_arg = true;
  locks_hypercall = true;
  new_address = some 200;
  file_opens = true;
  unlinks = true;
  ms = 6000;
  now = 6000000000;
}

abbrev first_timer : HasTimer one_instance.timers heartbeat_instance
first_timer = record { index = 0; is_index = refl; within = omega arith; active = refl }

one_instance-Reaches : Reaches watchdog_env one_instance
one_instance-Reaches = record { hypervisor = refl; locked = refl; opened = refl }

watchdog_selffence_lem_example :
    (s' : Watchdog) × (watchdog_selffence watchdog_env one_instance ≡ answers s')
    × AllExpire watchdog_env s'.timers (heartbeat_instance ∷ [])
    × ((i : ℕ) × (i < 2) × (s'.timers i ≡ some (6000000000 + seconds 1)))
watchdog_selffence_lem_example =
    watchdog_selffence_lem watchdog_env one_instance one_instance-Reaches (first_timer, tt)

watchdog_set_lem_example :
    (s' : Watchdog) × (i : ℕ) × (watchdog_set (cfg_of 2) watchdog_env (some 100) 30 one_instance
      ≡ answers (success, s'))
    × ((suc 0) ≡ suc i)
    × (s'.timers ≡ update one_instance.timers i (some (6000000000 + seconds 30)))
    × AllArmed s'.timers s'.instances
unfolding check_watchdog_timeout find_instance
watchdog_set_lem_example =
    watchdog_set_lem (cfg_of 2) watchdog_env 100 30 one_instance heartbeat_instance refl refl
      one_instance-Reaches refl (first_timer, tt)

abbrev pub xapi_cfg : XapiConfig
xapi_cfg = record {
  xapi_healthcheck_timeout = 120;
  xapi_restart_attempts = 2;
  xapi_restart_timeout = 30;
}

-- The first attempt cannot fork, the second restarts Xapi.
abbrev second_succeeds : ℕ → RestartAttempt
second_succeeds k = if k == 2 then ended_with 0 else fork_failed

abbrev started_monitor : XapiMonitor
started_monitor = record {
  xapimon = record initial_com { enable_xapi_monitor = true };
  fork_errcnt = 0;
  time_restarted = negsuc 86399999;
  restart_count = 0;
  exited = none;
}

-- A health check that succeeds after 300 ms.
abbrev healthy_turn : TurnEnv
healthy_turn = record {
  starts = true;
  start = 100;
  chunks = [];
  exit_status = some 0;
  end_time = 400;
  attempts = second_succeeds;
  restart_now = 500;
  restart_later = 501;
  restart_done = 900;
}
