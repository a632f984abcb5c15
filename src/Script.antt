-- ===== src/Script.antt =====
-- The script service of daemon/sc_func.c: the requests by which the management tool reads the
-- pool's state and changes it. A request's buffers are large enough, as its caller provides; what
-- other threads do while a request waits is an argument. Only logging is left out.
pub mod Query
pub mod Report
pub mod Commands
use xha.Prelude.{
  ℕ, zero, suc, ◌+◌, Bool, true, false, not, ◌||◌, List, [], ◌∷◌, Option, none, some, ◌==◌,
  if◌then◌else◌,
}
use xha.Prelude.Int.{ℤ, ltb_ℤ}
use xha.Config.{Config}
use xha.HostWeight.{Str}
use xha.Data.{
  Status, success, error_sc_statefile_access, error_sc_invalid_pool_state,
  error_sc_invalid_localhost_state, FencingMode, fencing_none, fencing_armed,
  fencing_disarm_requested, fencing_disarmed, SmPhase, starting, aborted, phase_eq, PoolState,
  state_active, ComSf, Daemon,
}
use xha.StateFile.{Layout, SfState}
use xha.StateFile.Write.{sf_set_pool_state, sf_set_excluded}

-- LIVESET_STATUS_STARTING and LIVESET_STATUS_ONLINE
pub data LivesetStatus : Type 0 where
  status_starting status_online : LivesetStatus

abbrev pub is_status_online : LivesetStatus → Bool
is_status_online status_starting = false
is_status_online status_online = true

unfoldable pub get_hoststate : Daemon → LivesetStatus
get_hoststate d =
    if phase_eq d.sm.phase starting || phase_eq d.sm.phase aborted
    then status_starting
    else status_online

-- A request for fencing to be disarmed, in one of the objects.
abbrev pub disarm : FencingMode → FencingMode
disarm fencing_armed = fencing_disarm_requested
disarm fencing_none = fencing_disarm_requested
disarm fencing_disarm_requested = fencing_disarm_requested
disarm fencing_disarmed = fencing_disarmed

-- What a request sees of the state file's object at a turn of its wait.
pub record Seen : Type 0 where
  pub sf_access : Bool
  pub time_last_sf : ℤ

-- The wait of set_pool_state and set_excluded until this host's section was written, over what is
-- seen at each turn; `none` while it waits on.
unfoldable pub wait_written : ℤ → List Seen → Option Status
wait_written time_start [] = none
wait_written time_start (v ∷ vs) =
    if not v.sf_access
    then some error_sc_statefile_access
    else if ltb_ℤ time_start v.time_last_sf
    then some success
    else wait_written time_start vs

abbrev is_state_active : PoolState → Bool
is_state_active state_active = true
is_state_active _ = false

-- script_service_do_set_pool_state: the answer, and what it did to the state file's object before
-- the wait.
unfoldable pub do_set_pool_state :
    Config → Layout → PoolState → ℤ → List Seen → SfState → Option Status × SfState
unfolding wait_written
do_set_pool_state cfg lay state time_start seen s =
    if not s.daemon.sf.sf_access
    then (some error_sc_statefile_access, s)
    else (wait_written time_start seen, sf_set_pool_state cfg lay state s)

-- do_set_clear_excluded_sub
unfoldable pub do_set_clear_excluded_sub :
    Config → Layout → Bool → ℤ → List Seen → SfState → Option Status × SfState
unfolding wait_written
do_set_clear_excluded_sub cfg lay set time_start seen s =
    if not s.daemon.sf.sf_access
    then (some error_sc_statefile_access, s)
    else if not (is_state_active s.daemon.sf.pool_state)
    then (some error_sc_invalid_pool_state, s)
    else (wait_written time_start seen, sf_set_excluded cfg lay set s)
