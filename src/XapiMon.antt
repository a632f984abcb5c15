-- ===== src/XapiMon.antt =====
-- The Xapi monitor of daemon/xapi_mon.c: a turn of xapimon's loop and the restarts of Xapi. What
-- the child processes do and what the clock shows are arguments; the fault injection is off.
pub mod Restart
pub mod Turns
use xha.Prelude.{
  ℕ, zero, suc, ◌+◌, ◌-◌, ◌*◌, ◌≤◌, ◌<◌, ◌≡◌, Bool, true, false, not, ◌&&◌, ◌||◌, List, [], ◌∷◌,
  ◌++◌, Option, none, some, ltb, leb, ◌==◌, if◌then◌else◌,
}
use xha.Prelude.Int.{ℤ, pos, negsuc, ltb_ℤ, ◌-ℤ◌, s32, max_ℤ, min_ℤ}
use xha.HostWeight.{Str}
use xha.Data.{Status, error_xapimon_xapi_failed}

abbrev pub xapimon_max_fork_err_retry : ℕ
xapimon_max_fork_err_retry = 5

abbrev pub xapi_max_error_string_len : ℕ
xapi_max_error_string_len = 100

-- COM_DATA_XAPIMON
pub record ComXapimon : Type 0 where
  pub enable_xapi_monitor : Bool
  pub latency : ℤ
  pub latency_max : ℤ
  pub latency_min : ℤ
  pub time_xapi_restart : ℤ
  pub time_healthcheck_start : ℤ
  pub err_string : Str

abbrev pub initial_com : ComXapimon
initial_com = record {
  enable_xapi_monitor = false;
  latency = negsuc 0;
  latency_max = negsuc 0;
  latency_min = negsuc 0;
  time_xapi_restart = negsuc 0;
  time_healthcheck_start = negsuc 0;
  err_string = [];
}

abbrev pub take : ℕ → Str → Str
take zero cs = []
take (suc n) [] = []
take (suc n) (c ∷ cs) = c ∷ take n cs

abbrev pub length : Str → ℕ
length [] = 0
length (c ∷ cs) = suc (length cs)

-- The reads from the pipe: what fits is added to the error string.
unfoldable pub read_pipe : Str → List Str → Str
read_pipe err [] = err
read_pipe err (chunk ∷ chunks) =
    read_pipe (err ++ take (xapi_max_error_string_len - length err) chunk) chunks

-- strncpy stops at the first NUL.
abbrev pub until_nul : Str → Str
until_nul [] = []
until_nul (c ∷ cs) = if c == 0 then [] else c ∷ until_nul cs

-- The values of the configuration that the monitor reads.
pub record XapiConfig : Type 0 where
  pub xapi_healthcheck_timeout : ℕ  -- _TXapi
  pub xapi_restart_attempts : ℕ  -- _RestartXapi
  pub xapi_restart_timeout : ℕ  -- _TRestartXapi

abbrev pub one_day : ℕ
one_day = 86400000

-- The object, the static variables, and the status with which the process has ended.
pub record XapiMonitor : Type 0 where
  pub xapimon : ComXapimon
  pub fork_errcnt : ℕ
  pub time_restarted : ℤ
  pub restart_count : ℕ
  pub exited : Option Status

-- A poll of a child: whether waitpid() finds it ended, and the time after the sleep that follows.
pub record Poll : Type 0 where
  pub ended : Bool
  pub time : ℕ

-- The loop of wait_pid_timeout from its `k`-th poll on, over a clock that shows `now`, with fuel:
-- TRUE when the process has ended, FALSE when the time is up.
unfoldable pub wait_pid : ℕ → (ℕ → Poll) → ℕ → ℕ → ℕ → Option Bool
wait_pid zero polls limit k now = none
wait_pid (suc fuel) polls limit k now =
    let rest = wait_pid fuel polls limit (suc k) ((polls k).time) in
    if (polls k).ended then some true else if ltb now limit then rest else some false

unfoldable pub wait_pid_timeout : ℕ → (ℕ → Poll) → ℕ → ℕ → Option Bool
unfolding wait_pid
wait_pid_timeout fuel polls start_time timeout =
    wait_pid fuel polls (start_time + timeout) 0 start_time

-- The loop of xapimon that waits for the health check; the child that takes too long is killed.
unfoldable pub wait_healthcheck : ℕ → (ℕ → Poll) → ℕ → ℕ → ℕ → Option Bool
wait_healthcheck zero polls start timeout k = none
wait_healthcheck (suc fuel) polls start timeout k =
    let rest = wait_healthcheck fuel polls start timeout (suc k) in
    if (polls k).ended
    then some true
    else if ltb (start + timeout) ((polls k).time)
    then some false
    else rest

-- An attempt to restart Xapi: fork() fails, or the process ends with a status, or it does not end
-- in time and is killed.
pub data RestartAttempt : Type 0 where
  fork_failed : RestartAttempt
  ended_with : ℕ → RestartAttempt
  hung : RestartAttempt

abbrev pub succeeds : RestartAttempt → Bool
succeeds fork_failed = false
succeeds (ended_with status) = status == 0
succeeds hung = false

-- The loop of xapi_restart with `left` attempts left; the attempts are numbered by restart_count.
unfoldable pub restart_loop : (ℕ → RestartAttempt) → ℕ → ℕ → Bool × ℕ
restart_loop attempts zero count = (false, count)
restart_loop attempts (suc left) count =
    let rest = restart_loop attempts left (suc count) in
    if succeeds (attempts (suc count)) then (true, suc count) else rest

-- xapi_restart up to its loop; `now` is the time of the first call of _getms(), `later` of the
-- second.
unfoldable pub begin_restart : ℕ → ℕ → XapiMonitor → XapiMonitor
begin_restart now later s = record s {
  xapimon = record (s.xapimon) { time_xapi_restart = pos now };
  restart_count =
      if ltb_ℤ s.time_restarted (pos 0) || ltb_ℤ (pos one_day) (pos later -ℤ s.time_restarted)
      then 0
      else s.restart_count;
}

-- The end of xapi_restart: Xapi restarted at the time `done_at`, or the host fences itself.
unfoldable pub end_restart : ℕ → Bool × ℕ → XapiMonitor → XapiMonitor
end_restart done_at (true, count) s = record s {
  xapimon = record (s.xapimon) { time_xapi_restart = negsuc 0 };
  time_restarted = pos done_at;
  restart_count = count;
}
end_restart done_at (false, count) s = record s {
  restart_count = count;
  exited = some error_xapimon_xapi_failed;
}

unfoldable pub xapi_restart :
    XapiConfig → (ℕ → RestartAttempt) → ℕ → ℕ → ℕ → XapiMonitor → XapiMonitor
unfolding begin_restart end_restart restart_loop
xapi_restart cfg attempts now later done_at s =
    let s' = begin_restart now later s in
    end_restart done_at
      (restart_loop attempts (cfg.xapi_restart_attempts - s'.restart_count) s'.restart_count) s'

-- What a turn of the loop meets: whether xapi_healthcheck starts the child, what the pipe gives,
-- how the child ended (it exited by itself, with its status; `none` when it was killed or is hung),
-- and the times.
pub record TurnEnv : Type 0 where
  pub starts : Bool
  pub start : ℕ
  pub chunks : List Str
  pub exit_status : Option ℕ
  pub end_time : ℕ
  pub attempts : ℕ → RestartAttempt
  pub restart_now : ℕ
  pub restart_later : ℕ
  pub restart_done : ℕ

abbrev pub is_healthy : Option ℕ → Bool
is_healthy none = false
is_healthy (some status) = status == 0

-- The statistics after a healthy check; the time is kept in an MTC_S32.
unfoldable pub note_healthy : ℤ → ComXapimon → ComXapimon
note_healthy time c =
    let latency = s32 time in
    record c {
      latency = latency;
      latency_max = if ltb_ℤ c.latency_max (pos 0) then latency else max_ℤ c.latency_max latency;
      latency_min = if ltb_ℤ c.latency_min (pos 0) then latency else min_ℤ c.latency_min latency;
      err_string = [];
      time_healthcheck_start = negsuc 0;
    }

unfoldable pub check_failed_to_start : XapiMonitor → XapiMonitor
check_failed_to_start s =
    let count = suc s.fork_errcnt in
    if ltb xapimon_max_fork_err_retry count
    then record s { fork_errcnt = count; exited = some error_xapimon_xapi_failed }
    else record s { fork_errcnt = count }

-- The error string is reported, and no check is under way.
abbrev pub note_unhealthy : TurnEnv → XapiMonitor → XapiMonitor
note_unhealthy env s = record s {
  xapimon = record (s.xapimon) {
    err_string = until_nul (read_pipe [] env.chunks);
    time_healthcheck_start = negsuc 0;
  };
}

-- From the end of the health check on.
unfoldable pub after_check : XapiConfig → TurnEnv → XapiMonitor → XapiMonitor
unfolding note_healthy xapi_restart read_pipe
after_check cfg env s =
    if is_healthy env.exit_status
    then record s { xapimon = note_healthy (pos env.end_time -ℤ pos env.start) s.xapimon }
    else xapi_restart cfg env.attempts env.restart_now env.restart_later env.restart_done
        (note_unhealthy env s)

-- The check was started.
abbrev pub begin_check : TurnEnv → XapiMonitor → XapiMonitor
begin_check env s = record s {
  fork_errcnt = 0;
  xapimon = record (s.xapimon) { time_healthcheck_start = pos env.start };
}

-- A turn of the loop of xapimon.
unfoldable pub xapimon_turn : XapiConfig → TurnEnv → XapiMonitor → XapiMonitor
unfolding check_failed_to_start after_check
xapimon_turn cfg env s =
    if not s.xapimon.enable_xapi_monitor
    then s
    else if not env.starts
    then check_failed_to_start s
    else after_check cfg env (begin_check env s)
