-- ===== src/Sm/Signals.antt =====
-- daemon/sm.c: the three signals by which the threads wake the State Manager's thread, and the
-- callbacks that run when a common object is released by a writer.
-- `own` says that the caller is the State Manager's thread, which does not signal itself.
pub mod Waiting
use xha.Prelude.{
  ℕ, zero, Bool, true, false, ◌&&◌, ◌||◌, not, if◌then◌else◌, Option, none, some, List, [], ◌∷◌,
}
use xha.Prelude.Int.{ℤ, pos, ◌-ℤ◌, ltb_ℤ}
use xha.Data.{
  FencingMode, fencing_none, fencing_armed, fencing_disarm_requested, fencing_disarmed, SmVar,
  Daemon,
}

-- Which of the signals of sm, hb and sf are meant.
pub record Sigs : Type 0 where
  pub sm_sig : Bool
  pub hb_sig : Bool
  pub sf_sig : Bool

unfoldable pub send_signals : Sigs → SmVar → SmVar
send_signals s v = record v {
  sm_sig = s.sm_sig || v.sm_sig;
  hb_sig = s.hb_sig || v.hb_sig;
  sf_sig = s.sf_sig || v.sf_sig;
}

-- Each signal that is asked for and pending is consumed.
unfoldable pub check_sigs : Sigs → SmVar → Bool × SmVar
check_sigs s v = (
  s.sm_sig && v.sm_sig || s.hb_sig && v.hb_sig || s.sf_sig && v.sf_sig,
  record v {
    sm_sig = if s.sm_sig && v.sm_sig then false else v.sm_sig;
    hb_sig = if s.hb_sig && v.hb_sig then false else v.hb_sig;
    sf_sig = if s.sf_sig && v.sf_sig then false else v.sf_sig;
  },
)

-- What happens before one test of the loop of sm_wait_signals_sm_hb_sf: other threads send signals,
-- and the clock is read.
pub record Round : Type 0 where
  pub arrived : Sigs
  pub clock : ℤ

-- `none` where the rounds end while the thread still waits.
unfoldable pub wait_loop : Sigs → ℤ → ℤ → List Round → SmVar → Option (Bool × SmVar)
unfolding check_sigs send_signals
wait_loop s timeout start [] v = none
wait_loop s timeout start (r ∷ rounds) v =
    let (signaled, v') = check_sigs s (send_signals r.arrived v) in
    let rest = wait_loop s timeout start rounds v' in
    if signaled
    then some (true, v')
    else if ltb_ℤ timeout (pos 0) || ltb_ℤ (r.clock -ℤ start) timeout
    then rest
    else some (false, v')

abbrev is_zero : ℤ → Bool
is_zero (pos zero) = true
is_zero t = false

unfoldable pub wait_signals : Sigs → ℤ → ℤ → List Round → SmVar → Option (Bool × SmVar)
wait_signals s timeout start rounds v =
    if is_zero timeout then some (false, v) else wait_loop s timeout start rounds v

-- sm_sm_updated, called as the State Manager's object is released
unfoldable pub sm_sm_updated : Bool → Daemon → Daemon
unfolding send_signals
sm_sm_updated own d =
    let disarmed : Daemon = elim (d.sm.fencing) [
      | fencing_disarm_requested ↦ record d {
        sm = record (d.sm) { fencing = fencing_disarmed };
        var = record (d.var) { fencing = fencing_disarmed };
      }
      | _ ↦ d
    ] in
    let v = disarmed.var in
    let sent =
      if own
      then v
      else send_signals (record { sm_sig = true; hb_sig = false; sf_sig = false }) v in
    record disarmed { var = record sent { sr2 = disarmed.sm.sr2 } }

unfoldable pub sm_hb_updated : Bool → Daemon → Daemon
unfolding send_signals
sm_hb_updated own d = if own then d else record d {
  var = send_signals (record { sm_sig = false; hb_sig = true; sf_sig = false }) (d.var);
}

unfoldable pub sm_sf_updated : Bool → Daemon → Daemon
unfolding send_signals
sm_sf_updated own d = if own then d else record d {
  var = send_signals (record { sm_sig = false; hb_sig = false; sf_sig = true }) (d.var);
}
