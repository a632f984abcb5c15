-- ===== src/XapiMon/Restart.antt =====
-- What a turn of the Xapi monitor of daemon/xapi_mon.c comes to, and that its waits end.
use xha.Prelude.{
  ℕ, zero, suc, ◌+◌, ◌-◌, ◌≤◌, ◌<◌, ◌≡◌, refl, Bool, true, false, List, [], ◌∷◌, ◌++◌, some, ltb,
  ltb_iff, inl, inr, Bool-cases, arith,
}
use xha.Prelude.Int.{pos, negsuc}
use xha.HostWeight.{Str}
use xha.Data.{error_xapimon_xapi_failed}
use xha.XapiMon.{
  RestartAttempt, succeeds, begin_restart, XapiConfig, XapiMonitor, Poll, wait_pid,
  wait_pid_timeout, read_pipe, take, length, xapi_max_error_string_len,
}

take-length : (n : ℕ) (cs : Str) → length (take n cs) ≤ n
take-length zero cs = omega arith
take-length (suc n) [] = omega arith
take-length (suc n) (c ∷ cs) = omega (arith, take-length n cs)

length-append : (s t : Str) → length (s ++ t) ≡ length s + length t
length-append [] t = omega arith
length-append (c ∷ s) t = omega (arith, length-append s t)

-- However much the health check writes, the error string keeps within its array.
pub read_pipe-bound :
    (err : Str) (chunks : List Str)
    → length err ≤ xapi_max_error_string_len
    → length (read_pipe err chunks) ≤ xapi_max_error_string_len
unfolding read_pipe
read_pipe-bound err [] h = h
read_pipe-bound err (chunk ∷ chunks) h =
    read_pipe-bound (err ++ take (xapi_max_error_string_len - length err) chunk) chunks (
      omega (
        arith,
        length-append err (take (xapi_max_error_string_len - length err) chunk),
        take-length (xapi_max_error_string_len - length err) chunk,
      ))

-- What is left of a clock that shows at least one millisecond more at each poll.
wait_pid_ends :
    (fuel : ℕ) (polls : ℕ → Poll) (limit k now low : ℕ)
    → ((j : ℕ) → k ≤ j → low + j + 1 ≤ (polls j).time)
    → low + k ≤ now
    → limit < low + k + fuel
    → 0 < fuel
    → (b : Bool) × (wait_pid fuel polls limit k now ≡ some b)
unfolding wait_pid
wait_pid_ends zero polls limit k now low ticks begun enough some_fuel = absurd (omega arith)
wait_pid_ends (suc fuel) polls limit k now low ticks begun enough some_fuel =
    elim (Bool-cases ((polls k).ended)) [
      | inl over ↦ (true, rw over refl)
      | inr runs ↦ elim (Bool-cases (ltb now limit)) [
        | inr late ↦ (false, rw (runs, late) refl)
        | inl early ↦
            let (b, e) =
              wait_pid_ends fuel polls limit (suc k) ((polls k).time) low
                (λ j le. ticks j (omega arith)) (omega (arith, ticks k (omega arith)))
                (omega (arith, (ltb_iff now limit).0 early))
                (omega (arith, (ltb_iff now limit).0 early)) in
            (b, rw (runs, early) e)
      ]
    ]

-- On a clock that moves on by a millisecond or more between two polls, wait_pid_timeout returns
-- after at most as many polls as the timeout has milliseconds, and one more.
pub wait_pid_timeout_ends :
    (polls : ℕ → Poll) (start_time timeout : ℕ)
    → ((j : ℕ) → start_time + j + 1 ≤ (polls j).time)
    → (b : Bool) × (wait_pid_timeout (suc timeout) polls start_time timeout ≡ some b)
unfolding wait_pid_timeout
wait_pid_timeout_ends polls start_time timeout ticks =
    wait_pid_ends (suc timeout) polls (start_time + timeout) 0 start_time start_time
      (λ j le. ticks j) (omega arith) (omega arith) (omega arith)

-- The attempts that xapi_restart may make: those numbered from restart_count on, of which it first
-- forgets those of another day.
abbrev pub first_attempt : ℕ → ℕ → XapiMonitor → ℕ
first_attempt now later s = (begin_restart now later s).restart_count

-- How xapi_restart ends.
abbrev pub IsRestarted :
    XapiConfig → (ℕ → RestartAttempt) → ℕ → ℕ → XapiMonitor → XapiMonitor → Type 0
IsRestarted cfg attempts done_at count s s' =
    (count < s'.restart_count)
    × (s'.restart_count ≤ cfg.xapi_restart_attempts)
    × (succeeds (attempts s'.restart_count) ≡ true)
    × (s'.time_restarted ≡ pos done_at)
    × (s'.xapimon.time_xapi_restart ≡ negsuc 0)
    × (s'.exited ≡ s.exited)

abbrev pub IsGivenUp :
    XapiConfig → (ℕ → RestartAttempt) → ℕ → ℕ → XapiMonitor → XapiMonitor → Type 0
IsGivenUp cfg attempts now count s s' =
    ((k : ℕ) → count < k → k ≤ cfg.xapi_restart_attempts → succeeds (attempts k) ≡ false)
    × (s'.xapimon.time_xapi_restart ≡ pos now)
    × (s'.exited ≡ some error_xapimon_xapi_failed)
