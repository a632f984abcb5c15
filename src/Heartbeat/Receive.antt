-- ===== src/Heartbeat/Receive.antt =====
-- receive_hb and is_valid_hb of daemon/heartbeat.c.
pub mod Sequence
pub mod Exchange
pub mod Fence
use xha.Prelude.{
  ℕ, ◌+◌, ◌-◌, ◌%◌, ◌^◌, Bool, true, false, not, ◌&&◌, ◌||◌, ◌==◌, ltb, if◌then◌else◌, Option, none,
  some,
}
use xha.Prelude.Hosts.{update}
use xha.Prelude.Int.{ℤ, pos, negsuc, ◌-ℤ◌, ltb_ℤ, s32}
use xha.HostMap.{HostMap, is_on, set_boolean}
use xha.Config.{Config}
use xha.Data.{
  Status, SmPhase, fhready, phase_eq, RawData, ComSm, ComHb, Daemon, error_hb_fencerequested,
  sf_accelerate, sf_cancel_acceleration,
}
use xha.Sm.Control.{call, self_fence}
use xha.Sm.Signals.{sm_hb_updated, sm_sm_updated}
use xha.Sm.Fault.{start_fh}
use xha.Heartbeat.{HbPacket, Network, HbState}
use xha.Heartbeat.Send.{time_since}

-- What recvfrom() gives: EAGAIN, another error, or a number of bytes and the packet they fill.
pub data Received : Type 0 where
  recv_again recv_error : Received
  recv_packet : ℕ → HbPacket → Received

-- The test of the sequence number, in unsigned words of 32 bits.
unfoldable pub is_newer : ℕ → ℕ → Bool
is_newer last sequence = ltb last sequence || ltb 0x80000000 ((last + 2 ^ 32 - sequence) % 2 ^ 32)

-- The sender is starting, and this host still takes it for a member.
unfoldable pub is_reborn : HbPacket → Daemon → Bool
is_reborn pkt d =
    not (is_on pkt.current_liveset pkt.host_index) && is_on d.sm.current_liveset pkt.host_index

unfoldable pub is_fenced : Config → HbPacket → Bool
is_fenced cfg pkt =
    pkt.fence_request
    && is_on pkt.current_liveset pkt.host_index
    && not (is_on pkt.proposed_liveset cfg.my_index)

-- The process may end here; if it goes on, fencing is disarmed.
unfoldable pub check_fence : Config → HbPacket → Daemon → Daemon
unfolding self_fence is_fenced
check_fence cfg pkt d = if is_fenced cfg pkt then self_fence error_hb_fencerequested d else d

-- The update of COM_DATA_SM.
unfoldable pub update_sm : HbPacket → ComSm → ComSm
update_sm pkt sm = record sm {
  sr2 = if pkt.sr2 then pkt.sr2 else sm.sr2;
  sf_access = set_boolean sm.sf_access pkt.host_index pkt.sf_access;
  sf_corrupted = set_boolean sm.sf_corrupted pkt.host_index pkt.sf_corrupted;
}

-- What a packet says of its sender.
unfoldable pub raw_of_packet : HbPacket → RawData
raw_of_packet pkt = record {
  current_liveset = pkt.current_liveset;
  proposed_liveset = pkt.proposed_liveset;
  hbdomain = pkt.hbdomain;
  sfdomain = pkt.sfdomain;
  time_since_last_hb_receipt = pkt.time_since_last_hb_receipt;
  time_since_last_sf_update = pkt.time_since_last_sf_update;
  time_since_xapi_restart = pkt.time_since_xapi_restart;
}

-- What follows, if the process has not ended.
abbrev pub unless_exited : Option Status → Daemon → Daemon → Daemon
unless_exited (some code) ended next = ended
unless_exited none ended next = next

module _ (cfg : Config) (net : Network) where
  unfoldable pub is_valid_hb : ℕ → HbPacket → Bool
  is_valid_hb size pkt =
      size == net.sizeof_packet
      && pkt.signature == net.hb_sig
      && pkt.size == net.sizeof_packet
      && net.same_uuid pkt.generation_uuid net.gen_uuid
      && net.same_uuid pkt.host_uuid (net.host_id pkt.host_index)

  -- The update of COM_DATA_HB.
  unfoldable pub update_hb : ℤ → HbPacket → ComHb → ComHb
  update_hb now pkt hb =
      let times = update hb.time_last_hb pkt.host_index now in
      let own = record (hb.raw cfg.my_index) {
        time_since_last_hb_receipt = λ index. time_since now (times index);
      } in
      record hb {
        time_last_hb = times;
        raw = update (update hb.raw cfg.my_index own) pkt.host_index (raw_of_packet pkt);
        notjoining = set_boolean hb.notjoining pkt.host_index (not pkt.joining);
        sm_phase = update hb.sm_phase pkt.host_index pkt.sm_phase;
      }

  -- The acceleration of the state file and the update of the two objects.
  unfoldable pub store_packet : ℤ → HbPacket → Daemon → Daemon
  unfolding sm_hb_updated sm_sm_updated update_sm update_hb raw_of_packet
  store_packet now pkt d =
      let asked = call (if pkt.sf_accelerate then sf_accelerate else sf_cancel_acceleration) d in
      sm_sm_updated false (
        sm_hb_updated false
          (record asked { sm = update_sm pkt asked.sm; hb = update_hb now pkt asked.hb }))

  -- From the acceleration of the state file on.
  unfoldable pub take_packet : ℤ → HbPacket → Daemon → Daemon
  unfolding store_packet start_fh
  take_packet now pkt d =
      let stored = store_packet now pkt d in
      if phase_eq pkt.sm_phase fhready then start_fh cfg true stored else stored

  -- What happens to a packet that is new.
  unfoldable pub handle_packet : ℤ → HbPacket → Daemon → Daemon
  unfolding take_packet check_fence is_reborn
  handle_packet now pkt d =
      let fenced = check_fence cfg pkt d in
      if is_reborn pkt d then d else unless_exited fenced.exited fenced (take_packet now pkt fenced)

  unfoldable pub receive_packet : ℤ → ℕ → HbPacket → HbState → HbState
  unfolding is_valid_hb is_newer handle_packet
  receive_packet now size pkt h =
      if h.daemon.hb.enable_hb_receive
        && is_valid_hb size pkt
        && is_newer (h.sequence pkt.host_index) pkt.sequence
      then record h {
        sequence = update h.sequence pkt.host_index pkt.sequence;
        daemon = handle_packet now pkt h.daemon;
      }
      else h

  unfoldable pub receive_hb : ℤ → Received → HbState → HbState
  unfolding receive_packet
  receive_hb now recv_again h = h
  receive_hb now recv_error h = record h { recvfrom_failed = not h.recvfrom_failed }
  receive_hb now (recv_packet size pkt) h =
      receive_packet now size pkt (record h { recvfrom_failed = false })
