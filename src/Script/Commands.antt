-- ===== src/Script/Commands.antt =====
-- The requests of daemon/sc_func.c that act on the lock manager, on the fencing and on the excluded
-- flag, for a caller whose buffers are large enough.
use xha.Prelude.{Bool, true, false, not, List, [], ◌∷◌, Option, none, some, if◌then◌else◌}
use xha.Prelude.Int.{ℤ}
use xha.Config.{Config}
use xha.HostWeight.{Str}
use xha.Data.{
  Status, success, error_sc_invalid_localhost_state, FencingMode, fencing_disarmed, Daemon,
}
use xha.StateFile.{Layout, SfState}
use xha.LockMgr.{LmVar}
use xha.LockMgr.Request.{Wakes, LmAnswer, lm_request_lock, lm_cancel_lock}
use xha.Script.{is_status_online, get_hoststate, disarm, Seen, do_set_clear_excluded_sub}

-- The answer to propose_master, with what lm_request_lock has answered if it was called.
pub record Proposal : Type 0 where
  pub retval : Status
  pub accepted_as_master : Bool
  pub lock : Option LmAnswer

abbrev proposed : Option LmAnswer → Option Proposal
proposed (some a) = some (record { retval = success; accepted_as_master = a.result; lock = some a })
proposed none = none

-- script_service_do_propose_master; `none` while lm_request_lock waits on.
unfoldable pub do_propose_master : Config → Str → Wakes → Daemon → LmVar → Option Proposal
do_propose_master cfg my_uuid wakes d v =
    if not (is_status_online (get_hoststate d))
    then some (record {
      retval = error_sc_invalid_localhost_state;
      accepted_as_master = false;
      lock = none;
    })
    else proposed (lm_request_lock cfg my_uuid wakes v)

abbrev canceled : Option LmVar → Option (Status × LmVar)
canceled (some v) = some (success, v)
canceled none = none

-- script_service_do_cancel_master
unfoldable pub do_cancel_master : Wakes → Daemon → LmVar → Option (Status × LmVar)
do_cancel_master wakes d v =
    if not (is_status_online (get_hoststate d))
    then some (error_sc_invalid_localhost_state, v)
    else canceled (lm_cancel_lock wakes v)

-- The fencing modes of the State Manager's, the heartbeat's and the state file's objects.
pub record Fencings : Type 0 where
  pub of_sm : FencingMode
  pub of_hb : FencingMode
  pub of_sf : FencingMode

abbrev pub is_disarmed : FencingMode → Bool
is_disarmed fencing_disarmed = true
is_disarmed _ = false

-- A wait until one of the objects is disarmed, over what each look at it finds; the looks that are
-- left come with the result.
unfoldable pub wait_disarmed : (Fencings → FencingMode) → List Fencings → Option (List Fencings)
wait_disarmed of [] = none
wait_disarmed of (f ∷ fs) =
    let rest = wait_disarmed of fs in if is_disarmed (of f) then some fs else rest

abbrev then_wait :
    (List Fencings → Option (List Fencings)) → Option (List Fencings) → Option (List Fencings)
then_wait wait (some left) = wait left
then_wait wait none = none

abbrev answered : Option (List Fencings) → Option Status
answered (some left) = some success
answered none = none

-- script_service_do_disarm_fencing: the answer, `none` while it waits on, and the fencing modes
-- that it has set before the waits.
unfoldable pub do_disarm_fencing : Daemon → List Fencings → Fencings → Option Status × Fencings
unfolding wait_disarmed
do_disarm_fencing d looks f =
    if not (is_status_online (get_hoststate d))
    then (some error_sc_invalid_localhost_state, f)
    else (
      answered (
          then_wait (wait_disarmed (λ k. k.of_sf))
            (then_wait (wait_disarmed (λ k. k.of_hb)) (wait_disarmed (λ k. k.of_sm) looks))),
      record { of_sm = disarm f.of_sm; of_hb = disarm f.of_hb; of_sf = disarm f.of_sf },
    )

-- script_service_do_set_excluded and script_service_do_clear_excluded
unfoldable pub do_set_excluded : Config → Layout → ℤ → List Seen → SfState → Option Status × SfState
unfolding do_set_clear_excluded_sub
do_set_excluded cfg lay time_start seen s = do_set_clear_excluded_sub cfg lay true time_start seen s

unfoldable pub do_clear_excluded :
    Config → Layout → ℤ → List Seen → SfState → Option Status × SfState
unfolding do_set_clear_excluded_sub
do_clear_excluded cfg lay time_start seen s =
    do_set_clear_excluded_sub cfg lay false time_start seen s
