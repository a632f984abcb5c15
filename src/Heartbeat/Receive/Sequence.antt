-- ===== src/Heartbeat/Receive/Sequence.antt =====
-- The sequence numbers of heartbeat packets: what is taken for newer, and packets that come twice.
use xha.Prelude.{
  ℕ, ◌+◌, ◌^◌, ◌<◌, ◌≡◌, ◌↔◌, refl, ◌∙◌, Bool, true, false, ◌&&◌, arith, if-elim, ==_self, Option,
  none, some,
}
use xha.Prelude.Int.{ℤ}
use xha.Config.{Config}
use xha.Data.{Status, phase_eq, fhready, Daemon}
use xha.Sm.Control.{self_fence}
use xha.Sm.Signals.{sm_hb_updated, sm_sm_updated, sm_sf_updated}
use xha.Sm.Fault.{start_fh}
use xha.Heartbeat.{HbPacket, Network, HbState}
use xha.Heartbeat.Receive.{
  is_newer, is_valid_hb, check_fence, unless_exited, update_hb, store_packet, take_packet,
  receive_packet,
}

-- Of two sequence numbers the greater is always taken for newer; the less one is taken for newer
-- as well exactly when they are more than 2^31 apart.
pub is_newer_lem :
    (a b : ℕ)
    → a < b
    → b < 2 ^ 32
    → (is_newer a b ≡ true) × ((is_newer b a ≡ true) ↔ (a + 2 ^ 31 < b))
unfolding is_newer
is_newer_lem a b less fits = (ground arith, ground arith)

pub is_newer_self : (a : ℕ) → a < 2 ^ 32 → is_newer a a ≡ false
unfolding is_newer
is_newer_self a fits = ground arith

-- What start_fh leaves alone.
pub start_fh_frame :
    (cfg : Config) (force : Bool) (d : Daemon)
    → ((start_fh cfg force d).hb ≡ d.hb)
      × ((start_fh cfg force d).sm ≡ d.sm)
      × ((start_fh cfg force d).exited ≡ d.exited)
unfolding start_fh sm_hb_updated sm_sf_updated
start_fh_frame cfg force d = (ground arith, ground arith, ground arith)

pub sm_sm_updated_frame :
    (d : Daemon) → ((sm_sm_updated false d).hb ≡ d.hb) × ((sm_sm_updated false d).exited ≡ d.exited)
unfolding sm_sm_updated
sm_sm_updated_frame d = (ground arith, ground arith)

module _ (cfg : Config) (net : Network) (now : ℤ) (pkt : HbPacket) where
  -- A packet that is taken changes the heartbeat's object as update_hb does, and ends no process.
  abbrev IsTaken : Daemon → Daemon → Type 0
  IsTaken d t = (t.hb ≡ update_hb cfg net now pkt d.hb) × (t.exited ≡ d.exited)

  store_packet-IsTaken : (d : Daemon) → IsTaken d (store_packet cfg net now pkt d)
  unfolding store_packet sm_hb_updated
  store_packet-IsTaken d =
      let (same_hb, same_exited) = sm_sm_updated_frame _ in (same_hb, same_exited)

  pub take_packet-IsTaken : (d : Daemon) → IsTaken d (take_packet cfg net now pkt d)
  unfolding take_packet
  take_packet-IsTaken d =
      if-elim (IsTaken d) (phase_eq pkt.sm_phase fhready)
        (λ ready.
          let (same_hb, same_sm, same_exited) =
            start_fh_frame cfg true (store_packet cfg net now pkt d) in
          let (stored_hb, stored_exited) = store_packet-IsTaken d in
          (same_hb ∙ stored_hb, same_exited ∙ stored_exited))
        (λ busy. store_packet-IsTaken d)

  pub check_fence_hb : (d : Daemon) → (check_fence cfg pkt d).hb ≡ d.hb
  unfolding check_fence self_fence
  check_fence_hb d = ground arith

  -- What holds of the daemon when the process ends and when the packet is taken.
  pub unless_exited_elim {κ} :
      (P : Daemon → Type κ) (o : Option Status) (d t : Daemon)
      → ((code : Status) → o ≡ some code → P d)
      → (o ≡ none → P t)
      → P (unless_exited o d t)
  unless_exited_elim P (some code) d t ended next = ended code refl
  unless_exited_elim P none d t ended next = next refl

  -- The three tests of a packet that come before it is handled.
  abbrev pub is_accepted : ℕ → HbState → Bool
  is_accepted size h =
      h.daemon.hb.enable_hb_receive
      && is_valid_hb cfg net size pkt
      && is_newer (h.sequence pkt.host_index) pkt.sequence

&&_false : (a b : Bool) {c : Bool} → c ≡ false → (a && b && c) ≡ false
&&_false a b h = ground (arith, h)

module _ (cfg : Config) (net : Network) (pkt : HbPacket) where
  ignored :
      (later : ℤ) (size : ℕ) (h : HbState)
      → is_accepted cfg net later pkt size h ≡ false
      → receive_packet cfg net later size pkt h ≡ h
  unfolding receive_packet
  ignored later size h old = rw old refl

  newest :
      (u : HbState)
      → pkt.sequence < 2 ^ 32
      → u.sequence pkt.host_index ≡ pkt.sequence
      → is_newer (u.sequence pkt.host_index) pkt.sequence ≡ false
  newest u fits kept = rw kept (is_newer_self pkt.sequence fits)

  -- A packet with a sequence number of 32 bits that was accepted is an old one: received again, at
  -- any time and in any state whose number for the sender is still the one that the first receipt
  -- left, it changes nothing.
  pub receive_packet_again :
      (now later : ℤ) (size again : ℕ) (h u : HbState)
      → pkt.sequence < 2 ^ 32
      → is_accepted cfg net now pkt size h ≡ true
      → u.sequence pkt.host_index ≡ (receive_packet cfg net now size pkt h).sequence pkt.host_index
      → receive_packet cfg net later again pkt u ≡ u
  unfolding receive_packet
  receive_packet_again now later size again h u fits new kept = ignored later again u (
      &&_false u.daemon.hb.enable_hb_receive (is_valid_hb cfg net again pkt)
        (newest u fits (kept ∙ rw (new, ==_self pkt.host_index) refl)))
