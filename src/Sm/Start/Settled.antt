-- ===== src/Sm/Start/Settled.antt =====
-- How the State Manager's thread of daemon/sm.c ends its start: online or aborted.
use xha.Prelude.{◌≡◌, ◌≢◌, refl, ap, true, false, not, arith, List, ◌∷◌, if-elim}
use xha.Config.{Config}
use xha.Data.{Status, success, main_terminate, Call, Daemon, started, aborted, fencing_armed}
use xha.Sm.Control.{sm_abort, set_sm_phase, set_heartbeat_join, arm_fencing}
use xha.Sm.Signals.{sm_sm_updated, sm_hb_updated, sm_sf_updated}
use xha.Sm.Waits.{wait_all_hosts_recognize_i_was_down, join}
use xha.Sm.Start.{test_start_criteria, is_success, SmRun, sm_begin, clear_excluded, sm_finish, sm}

-- What is left of a start that has failed.
pub record IsAborted (code : Status) (d : Daemon) : Type 0 where
  pub phase : d.sm.phase ≡ aborted
  pub no_heartbeat : (d.hb.enable_hb_send ≡ false) × (d.hb.enable_hb_receive ≡ false)
  pub no_statefile : (d.sf.enable_sf_read ≡ false) × (d.sf.enable_sf_write ≡ false)
  pub terminated : (rest : List Call) × (d.calls ≡ main_terminate code ∷ rest)

pub record IsOnline (d : Daemon) : Type 0 where
  pub phase : d.sm.phase ≡ started
  pub armed : (d.sm.fencing ≡ fencing_armed) × (d.var.fencing ≡ fencing_armed)

sm_abort-IsAborted : (code : Status) (d : Daemon) → IsAborted code (sm_abort true code d)
unfolding sm_abort sm_sm_updated sm_hb_updated sm_sf_updated
sm_abort-IsAborted code d = record {
  phase = ground arith;
  no_heartbeat = (refl, refl);
  no_statefile = (refl, refl);
  terminated = (_, refl);
}

sm_finish-IsOnline : (cfg : Config) (d : Daemon) → IsOnline (sm_finish cfg d)
unfolding sm_finish set_sm_phase arm_fencing sm_sm_updated
sm_finish-IsOnline cfg d = record { phase = refl; armed = (refl, refl) }

abbrev Settled : Status × Daemon → Type 0
Settled (status, d) = (status ≡ success → IsOnline d) × (status ≢ success → IsAborted status d)

aborted-Settled :
    (status : Status) (d : Daemon)
    → not (is_success status) ≡ true
    → Settled (status, sm_abort true status d)
aborted-Settled status d failed =
    (λ ok. absurd (ground (arith, ap is_success ok, failed)), λ bad. sm_abort-IsAborted status d)

-- However the waits of the State Manager's thread end, it either answers with success and is
-- online, in phase STARTED with fencing armed, or it has aborted: the phase says so, heartbeat and
-- state file are switched off, and its last act is to ask the daemon to terminate with the
-- failure's code.
pub sm_settles :
    (cfg : Config) (run : SmRun) (d : Daemon)
    → ((sm cfg run d).0 ≡ success → IsOnline (sm cfg run d).1)
      × ((sm cfg run d).0 ≢ success → IsAborted (sm cfg run d).0 (sm cfg run d).1)
unfolding sm
sm_settles cfg run d =
    let recognized = wait_all_hosts_recognize_i_was_down cfg run.recognized (sm_begin cfg run d) in
    let criteria =
      test_start_criteria cfg run.start run.last_boot (set_heartbeat_join recognized.1) in
    let joined = join cfg run.joining (clear_excluded cfg criteria.1) in
    if-elim Settled (not (is_success recognized.0)) (aborted-Settled recognized.0 recognized.1)
      (λ up.
        if-elim Settled (not (is_success criteria.0)) (aborted-Settled criteria.0 criteria.1)
          (λ met.
            if-elim Settled (not (is_success joined.0)) (aborted-Settled joined.0 joined.1)
              (λ ok. (λ good. sm_finish-IsOnline cfg joined.1, λ bad. absurd (bad refl)))))
