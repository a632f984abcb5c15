-- ===== src/Heartbeat/Send.antt =====
-- send_hb, hb_send_hb_now, hb_SF_accelerate and hb_SF_cancel_accelerate of daemon/heartbeat.c. A
-- packet that is sent is noted; that sendto() delivers it is not claimed.
use xha.Prelude.{ℕ, zero, suc, ◌+◌, ◌-◌, ◌%◌, ◌^◌, Bool, true, false, ◌∷◌, if◌then◌else◌}
use xha.Prelude.Hosts.{update}
use xha.Prelude.Int.{ℤ, pos, negsuc, ◌-ℤ◌, ltb_ℤ, s32}
use xha.Config.{Config, is_configured_host}
use xha.Data.{Call, sf_accelerate, sf_cancel_acceleration, msleep}
use xha.Sm.Control.{call}
use xha.Sm.Signals.{sm_hb_updated}
use xha.Heartbeat.{HbPacket, Network, HbState}

abbrev pub hb_sfaccelaration_request_retry : ℕ
hb_sfaccelaration_request_retry = 3

-- The time since an instant, or -1 if there was none.
abbrev pub time_since : ℤ → ℤ → ℤ
time_since now last = if ltb_ℤ last (pos 0) then negsuc 0 else s32 (now -ℤ last)

abbrev pub next_sequence : ℕ → ℕ
next_sequence n = (n + 1) % 2 ^ 32

module _ (cfg : Config) (net : Network) where
  -- The packet of this host; the times of hosts that are not configured stay 0.
  unfoldable pub compose : ℤ → ℕ → HbState → HbPacket
  compose now sequence h =
      let d = h.daemon in
      record {
        signature = net.hb_sig;
        sequence = sequence;
        size = net.sizeof_packet;
        generation_uuid = net.gen_uuid;
        host_uuid = net.host_id cfg.my_index;
        host_index = cfg.my_index;
        current_liveset = d.sm.current_liveset;
        proposed_liveset = d.sm.proposed_liveset;
        hbdomain = d.hb.hbdomain;
        sfdomain = d.sf.sfdomain;
        time_since_last_hb_receipt = λ index.
            if is_configured_host cfg index
            then time_since now (d.hb.time_last_hb index)
            else pos 0;
        time_since_last_sf_update = λ index.
            if is_configured_host cfg index
            then time_since now (d.sf.time_last_sf index)
            else pos 0;
        time_since_xapi_restart = time_since now h.time_xapi_restart;
        sm_phase = d.sm.phase;
        sf_access = d.sf.sf_access;
        sf_corrupted = h.sf_corrupted;
        sf_accelerate = h.sf_accelerate;
        fence_request = d.hb.fence_request;
        sr2 = d.sm.sr2;
        joining = d.hb.join;
      }

  -- `own` says that the caller is the State Manager's thread.
  unfoldable pub send_hb : Bool → ℤ → HbState → HbState
  unfolding sm_hb_updated
  send_hb own now h =
      let d = h.daemon in
      let sequence = next_sequence (h.sequence cfg.my_index) in
      if d.hb.enable_hb_send
      then record h {
        daemon = sm_hb_updated own (record d {
          hb = record (d.hb) { sm_phase = update d.hb.sm_phase cfg.my_index d.sm.phase };
        });
        sequence = update h.sequence cfg.my_index sequence;
        sent = compose now sequence h ∷ h.sent;
      }
      else h

  -- The sends after the first, 100 ms apart; `clock` gives the time of each.
  unfoldable pub resend : Bool → (ℕ → ℤ) → ℕ → HbState → HbState
  unfolding send_hb
  resend own clock zero h = h
  resend own clock (suc count) h =
      let slept = record h { daemon = call (msleep 100) h.daemon } in
      resend own clock count (send_hb own (clock count) slept)

  unfoldable pub hb_send_hb_now : Bool → ℤ → (ℕ → ℤ) → ℕ → HbState → HbState
  hb_send_hb_now own now clock count h = resend own clock (count - 1) (send_hb own now h)

  unfoldable pub set_accelerate : Bool → Bool → Call → ℤ → (ℕ → ℤ) → HbState → HbState
  unfolding sm_hb_updated
  set_accelerate own value asked now clock h =
      hb_send_hb_now own now clock hb_sfaccelaration_request_retry
        (record h { daemon = sm_hb_updated own (call asked h.daemon); sf_accelerate = value })

  unfoldable pub hb_sf_accelerate : Bool → ℤ → (ℕ → ℤ) → HbState → HbState
  hb_sf_accelerate own = set_accelerate own true sf_accelerate

  unfoldable pub hb_sf_cancel_accelerate : Bool → ℤ → (ℕ → ℤ) → HbState → HbState
  hb_sf_cancel_accelerate own = set_accelerate own false sf_cancel_acceleration
