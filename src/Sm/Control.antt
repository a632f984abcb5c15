-- ===== src/Sm/Control.antt =====
-- daemon/sm.c: the State Manager's small steps on the common objects, each made by its own thread.
use xha.Prelude.{ℕ, Bool, true, false, some, ◌∷◌}
use xha.HostMap.{is_on}
use xha.Data.{
  fencing_armed, SmPhase, aborted, Status, error_sm_invalid_pool_state,
  error_sm_invalid_init_pool_state, PoolState, state_init, state_invalid, starting, Call,
  main_terminate, watchdog_selffence, Daemon,
}
use xha.Sm.Signals.{sm_sm_updated, sm_hb_updated, sm_sf_updated}

abbrev pub call : Call → Daemon → Daemon
call c d = record d { calls = c ∷ d.calls }

unfoldable pub set_sm_phase : SmPhase → Daemon → Daemon
set_sm_phase phase d =
    sm_sm_updated true
      (record d { sm = record (d.sm) { phase = phase }; var = record (d.var) { phase = phase } })

-- The two steps end with main_terminate, which stops the daemon.
unfoldable pub sm_abort : Bool → Status → Daemon → Daemon
sm_abort own code d =
    let d1 = sm_sm_updated own (record d {
      sm = record (d.sm) { status = code; phase = aborted };
      var = record (d.var) { phase = aborted };
    }) in
    let d2 =
      sm_hb_updated own
        (record d1 { hb = record (d1.hb) { enable_hb_send = false; enable_hb_receive = false } }) in
    let d3 =
      sm_sf_updated own
        (record d2 { sf = record (d2.sf) { enable_sf_read = false; enable_sf_write = false } }) in
    call (main_terminate code) (record d3 { enable_xapi_monitor = false })

-- The process ends here if fencing is armed; otherwise the caller goes on.
unfoldable pub self_fence : Status → Daemon → Daemon
self_fence code d = elim (d.var.fencing) [
  | fencing_armed ↦ call watchdog_selffence (record d { exited = some code })
  | _ ↦ d
]

unfoldable pub get_excluded_flag : Daemon → ℕ → Bool
get_excluded_flag d host = is_on d.sf.excluded host

unfoldable pub get_pool_state : Daemon → PoolState
get_pool_state d = d.sf.pool_state

unfoldable pub check_pool_state : Daemon → Daemon
unfolding get_pool_state
check_pool_state d = elim (get_pool_state d) [
  | state_invalid ↦ sm_abort false error_sm_invalid_pool_state d
  | state_init ↦ elim (d.var.phase) [
    | starting ↦ d
    | aborted ↦ d
    | _ ↦ sm_abort false error_sm_invalid_init_pool_state d
  ]
  | _ ↦ d
]

unfoldable pub commit_weight : Daemon → ℕ × Daemon
commit_weight d = (
  d.sm.weight,
  sm_sm_updated true (record d { sm = record (d.sm) { commited_weight = d.sm.weight } }),
)

unfoldable pub start_statefile : Daemon → Daemon
start_statefile d = sm_sf_updated true (record d {
  sf = record (d.sf) { ctl_starting = true; enable_sf_read = true; enable_sf_write = true };
})

unfoldable pub clear_statefile_starting : Daemon → Daemon
clear_statefile_starting d =
    sm_sf_updated true (record d { sf = record (d.sf) { ctl_starting = false } })

unfoldable pub start_heartbeat : Daemon → Daemon
start_heartbeat d = sm_hb_updated true (record d {
  hb = record (d.hb) { join = false; enable_hb_receive = true; enable_hb_send = true };
})

unfoldable pub set_heartbeat_join : Daemon → Daemon
set_heartbeat_join d = sm_hb_updated true (record d { hb = record (d.hb) { join = true } })

unfoldable pub fence_request : Daemon → Daemon
fence_request d = sm_hb_updated true (record d { hb = record (d.hb) { fence_request = true } })

unfoldable pub cancel_fence_request : Daemon → Daemon
cancel_fence_request d =
    sm_hb_updated true (record d { hb = record (d.hb) { fence_request = false } })

unfoldable pub start_xapi_monitor : Daemon → Daemon
start_xapi_monitor d = record d { enable_xapi_monitor = true }

unfoldable pub arm_fencing : Daemon → Daemon
arm_fencing d = sm_sm_updated true (record d {
  sm = record (d.sm) { fencing = fencing_armed };
  var = record (d.var) { fencing = fencing_armed };
})
