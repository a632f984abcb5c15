-- ===== src/Heartbeat/Domain.antt =====
-- update_hbdomain of daemon/heartbeat.c: which hosts are alive on the heartbeat.
pub mod Turn
pub mod Update
use xha.Prelude.{ℕ, ◌*◌, ◌%◌, ◌^◌, Bool, true, false, not, ◌&&◌, ◌==◌, leb, if◌then◌else◌}
use xha.Prelude.Hosts.{update, for_hosts}
use xha.Prelude.Int.{ℤ, pos, ◌-ℤ◌, ltb_ℤ, leb_ℤ}
use xha.HostMap.{set, reset, is_on}
use xha.Config.{Config, one_sec}
use xha.Data.{SmPhase, fhready, phase_num, ComHb, Daemon}
use xha.Sm.Signals.{sm_hb_updated}
use xha.Heartbeat.{HbState}

-- The variables of the loop; `hostmap` holds the character that is logged for each host.
pub record Beat : Type 0 where
  pub phb : ComHb
  pub sequence : ℕ → ℕ
  pub hostmap : ℕ → ℕ
  pub changed : Bool

module _ (cfg : Config) (now : ℤ) (phase : SmPhase) where
  -- A packet of host `index` came within the timeout; the product is that of MTC_U32.
  unfoldable pub is_heard : ComHb → ℕ → Bool
  is_heard phb index =
      leb_ℤ (pos 0) (phb.time_last_hb index)
      && ltb_ℤ (now -ℤ phb.time_last_hb index) (pos (cfg.heartbeat_timeout * one_sec % 2 ^ 32))

  -- Both hosts are handling a fault, and host `index` does not hear this one.
  unfoldable pub is_deaf : ComHb → ℕ → Bool
  is_deaf phb index =
      leb (phase_num fhready) (phase_num (phb.sm_phase index))
      && leb (phase_num fhready) (phase_num phase)
      && not (is_on (phb.raw index).hbdomain cfg.my_index)

  unfoldable pub beat_heard : Bool → ℕ → Beat → Beat
  unfolding is_deaf
  beat_heard join_block index s =
      if is_on s.phb.hbdomain index
      then if is_deaf s.phb index
        then record s {
          phb = record (s.phb) { hbdomain = reset s.phb.hbdomain index };
          hostmap = update s.hostmap index b'd';
          changed = true;
        }
        else record s { hostmap = update s.hostmap index b'1' }
      else if not join_block
      then record s {
        phb = record (s.phb) { hbdomain = set s.phb.hbdomain index };
        hostmap = update s.hostmap index b'@';
        changed = true;
      }
      else record s { hostmap = update s.hostmap index b'b' }

  unfoldable pub beat_silent : ℕ → Beat → Beat
  beat_silent index s =
      let forgot = record s { sequence = update s.sequence index 0 } in
      if not (is_on s.phb.hbdomain index)
      then record forgot { hostmap = update s.hostmap index b'0' }
      else record forgot {
        phb = record (s.phb) { hbdomain = reset s.phb.hbdomain index };
        hostmap = update s.hostmap index b'_';
        changed = true;
      }

  unfoldable pub beat_step : Bool → ℕ → Beat → Beat
  unfolding is_heard beat_heard beat_silent
  beat_step join_block index s =
      if index == cfg.my_index
      then record s {
        phb = record (s.phb) { hbdomain = set s.phb.hbdomain index };
        hostmap = update s.hostmap index b'm';
      }
      else if is_heard s.phb index
      then beat_heard join_block index s
      else beat_silent index s

-- `changed` is returned; the objects are released to the State Manager's callbacks.
unfoldable pub update_hbdomain : Config → ℤ → HbState → Bool × HbState
unfolding beat_step sm_hb_updated
update_hbdomain cfg now h =
    let d = h.daemon in
    let s =
      for_hosts cfg.hostnum (beat_step cfg now d.sm.phase d.var.join_block)
        (record { phb = d.hb; sequence = h.sequence; hostmap = λ i. 0; changed = false }) in
    (
      s.changed,
      record h { daemon = sm_hb_updated false (record d { hb = s.phb }); sequence = s.sequence },
    )
