-- ===== src/Heartbeat/Alive.antt =====
-- A packet that arrives in time brings its sender into the receiver's heartbeat domain.
use xha.Prelude.{ℕ, ◌*◌, ◌%◌, ◌^◌, ◌<◌, ◌≡◌, refl, ap, ◌∙◌, true, false, ltb, arith, none}
use xha.Prelude.Int.{ℤ, pos, ◌-ℤ◌, ltb_ℤ}
use xha.HostMap.{is_on}
use xha.Config.{Config, one_sec}
use xha.Data.{SmPhase, fhready, phase_num, ComHb}
use xha.HostWeight.{Str}
use xha.Heartbeat.{Network, HbState}
use xha.Heartbeat.Domain.{is_heard, is_deaf, update_hbdomain}
use xha.Heartbeat.Domain.Turn.{due}
use xha.Heartbeat.Domain.Update.{update_hbdomain_lem}
use xha.Heartbeat.Receive.{is_newer, is_reborn, receive_packet}
use xha.Heartbeat.Receive.Exchange.{packet, receive-send_hb}

module _ (cfg : Config) (later : ℤ) (phase : SmPhase) (phb : ComHb) (j : ℕ) where
  not_deaf : phase_num phase < phase_num fhready → is_deaf cfg later phase phb j ≡ false
  unfolding is_deaf
  not_deaf calm = ground arith

  heard-is_heard :
      (now : ℕ)
      → phb.time_last_hb j ≡ pos now
      → ltb_ℤ (later -ℤ pos now) (pos (cfg.heartbeat_timeout * one_sec % 2 ^ 32)) ≡ true
      → is_heard cfg later phase phb j ≡ true
  unfolding is_heard
  heard-is_heard now heard soon = rw (heard, soon) (ground arith)

  heard-due :
      is_heard cfg later phase phb j ≡ true
      → is_deaf cfg later phase phb j ≡ false
      → due cfg later phase false phb j ≡ true
  heard-due heard sound = rw (heard, sound) (ground arith)

-- When a host sends a packet and another takes it as receive-send_hb says, then the receiver's
-- update_hbdomain, called less than T1 later, in milliseconds of
-- 32 bits, while it blocks no join and handles no fault, puts the
-- sender, if it is configured, into the heartbeat domain, whatever other threads have done to the
-- receiver but to its heartbeat object.
pub update_hbdomain-receive_hb :
    (cfg_a cfg_b : Config) (net : Network) (sent_at : ℤ) (now : ℕ) (later : ℤ) (a b c : HbState)
    → ((u : Str) → net.same_uuid u u ≡ true)
    → a.daemon.hb.enable_hb_send ≡ true
    → b.daemon.hb.enable_hb_receive ≡ true
    → b.daemon.exited ≡ none
    → is_newer (b.sequence cfg_a.my_index) (packet cfg_a cfg_b net sent_at (pos now) a).sequence
      ≡ true
    → is_reborn (packet cfg_a cfg_b net sent_at (pos now) a) b.daemon ≡ false
    → a.daemon.hb.fence_request ≡ false
    → c.daemon.hb
      ≡ (receive_packet cfg_b net
          (pos now)
          net.sizeof_packet
          (packet cfg_a cfg_b net sent_at (pos now) a)
          b).daemon.hb
    → ltb_ℤ (later -ℤ pos now) (pos (cfg_b.heartbeat_timeout * one_sec % 2 ^ 32)) ≡ true
    → c.daemon.var.join_block ≡ false
    → phase_num c.daemon.sm.phase < phase_num fhready
    → cfg_a.my_index < cfg_b.hostnum
    → is_on (update_hbdomain cfg_b later c).1.daemon.hb.hbdomain cfg_a.my_index ≡ true
update_hbdomain-receive_hb cfg_a cfg_b net sent_at now later a b c same sending receiving alive new
      member calm kept soon unblocked quiet configured =
    let known =
      (receive-send_hb cfg_a cfg_b net sent_at (pos now) a same b true sending receiving alive new
        member calm).1 in
    let heard : c.daemon.hb.time_last_hb cfg_a.my_index ≡ pos now =
      ap (λ hb. hb.time_last_hb cfg_a.my_index) kept ∙ known.heard in
    let j = cfg_a.my_index in
    let d = c.daemon in
    let stays : due cfg_b later d.sm.phase d.var.join_block d.hb j ≡ true = rw unblocked (
      heard-due cfg_b later d.sm.phase d.hb j
        (heard-is_heard cfg_b later d.sm.phase d.hb j now heard soon)
        (not_deaf cfg_b later d.sm.phase d.hb j quiet)) in
    let inside : ltb j cfg_b.hostnum ≡ true = ground arith in
    ((update_hbdomain_lem cfg_b later c).1 j).0 ∙ rw (inside, stays) refl
