-- ===== src/Heartbeat/Receive/Exchange.antt =====
-- A packet that one host sends and another receives: what the receiver then knows of the sender.
use xha.Prelude.{
  ℕ, ◌≡◌, ◌≢◌, refl, sym, ap, subst, ◌∙◌, Bool, true, false, not, ◌&&◌, ◌==◌, arith, if-elim, none,
  ==_self, ==_iff, ◌∷◌,
}
use xha.Prelude.Hosts.{update}
use xha.Prelude.Int.{ℤ}
use xha.HostMap.{is_on}
use xha.HostMap.Laws.{is_on-set_boolean}
use xha.Config.{Config}
use xha.Data.{RawData, ComHb, Daemon}
use xha.Heartbeat.{HbPacket, Network, HbState}
use xha.Heartbeat.Send.{compose, send_hb, next_sequence}
use xha.Heartbeat.Receive.{
  is_newer, is_valid_hb, is_reborn, is_fenced, check_fence, handle_packet, receive_packet,
  update_hb, raw_of_packet,
}
use xha.Heartbeat.Receive.Sequence.{is_accepted, unless_exited_elim, take_packet-IsTaken}

-- What a host knows of another after a packet of it.
pub record IsKnown (j : ℕ) (now : ℤ) (a : HbState) (before after : ComHb) : Type 0 where
  pub current_liveset : (after.raw j).current_liveset ≡ a.daemon.sm.current_liveset
  pub proposed_liveset : (after.raw j).proposed_liveset ≡ a.daemon.sm.proposed_liveset
  pub hbdomain : (after.raw j).hbdomain ≡ a.daemon.hb.hbdomain
  pub sfdomain : (after.raw j).sfdomain ≡ a.daemon.sf.sfdomain
  pub sm_phase : after.sm_phase j ≡ a.daemon.sm.phase
  pub heard : after.time_last_hb j ≡ now
  pub joining : is_on after.notjoining j ≡ not a.daemon.hb.join
  pub others :
      (k : ℕ)
      → k ≢ j
      → (after.time_last_hb k ≡ before.time_last_hb k)
        × (after.sm_phase k ≡ before.sm_phase k)
        × (is_on after.notjoining k ≡ is_on before.notjoining k)
        × ((after.raw k).current_liveset ≡ (before.raw k).current_liveset)
        × ((after.raw k).proposed_liveset ≡ (before.raw k).proposed_liveset)
        × ((after.raw k).hbdomain ≡ (before.raw k).hbdomain)
        × ((after.raw k).sfdomain ≡ (before.raw k).sfdomain)
        × ((after.raw k).time_since_last_sf_update ≡ (before.raw k).time_since_last_sf_update)
        × ((after.raw k).time_since_xapi_restart ≡ (before.raw k).time_since_xapi_restart)

all_three : {x y z : Bool} → x ≡ true → y ≡ true → z ≡ true → (x && y && z) ≡ false → ⊥
all_three hx hy hz h = ground (arith, hx, hy, hz, h)

module _ (cfg_a cfg_b : Config) (net : Network) (sent_at now : ℤ) (a : HbState) where
  abbrev pub packet : HbPacket
  packet = compose cfg_a net sent_at (next_sequence (a.sequence cfg_a.my_index)) a

  -- The new times of this host's own record leave its other fields alone.
  own_kept {ℓ} :
      {A : Type ℓ} (field : RawData → A) (hb : ComHb) (k : ℕ)
      → ((times : ℕ → ℤ)
          → field (record (hb.raw cfg_b.my_index) { time_since_last_hb_receipt = times })
            ≡ field (hb.raw cfg_b.my_index))
      → (times : ℕ → ℤ)
      → field (
          update hb.raw cfg_b.my_index
            (record (hb.raw cfg_b.my_index) { time_since_last_hb_receipt = times })
            k)
        ≡ field (hb.raw k)
  own_kept field hb k same times =
      if-elim (λ r. field r ≡ field (hb.raw k)) (cfg_b.my_index == k)
        (λ own. same times ∙ ap (λ i. field (hb.raw i)) ((==_iff cfg_b.my_index k).0 own))
        (λ other. refl)

  update_hb-IsKnown :
      (hb : ComHb) → IsKnown cfg_a.my_index now a hb (update_hb cfg_b net now packet hb)
  unfolding update_hb raw_of_packet compose
  update_hb-IsKnown hb = record {
    current_liveset = rw (==_self cfg_a.my_index) refl;
    proposed_liveset = rw (==_self cfg_a.my_index) refl;
    hbdomain = rw (==_self cfg_a.my_index) refl;
    sfdomain = rw (==_self cfg_a.my_index) refl;
    sm_phase = rw (==_self cfg_a.my_index) refl;
    heard = rw (==_self cfg_a.my_index) refl;
    joining =
        rw
          (
            is_on-set_boolean hb.notjoining cfg_a.my_index (not a.daemon.hb.join) cfg_a.my_index,
            ==_self cfg_a.my_index,
          )
          refl;
    others = λ k other.
        let off : (cfg_a.my_index == k) ≡ false = ground arith in
        (
          rw off refl,
          rw off refl,
          rw (is_on-set_boolean hb.notjoining cfg_a.my_index (not a.daemon.hb.join) k, off) refl,
          rw off (own_kept (λ r. r.current_liveset) hb k (λ t. refl) _),
          rw off (own_kept (λ r. r.proposed_liveset) hb k (λ t. refl) _),
          rw off (own_kept (λ r. r.hbdomain) hb k (λ t. refl) _),
          rw off (own_kept (λ r. r.sfdomain) hb k (λ t. refl) _),
          rw off (own_kept (λ r. r.time_since_last_sf_update) hb k (λ t. refl) _),
          rw off (own_kept (λ r. r.time_since_xapi_restart) hb k (λ t. refl) _),
        );
  }

  module _ (same : (u : _) → net.same_uuid u u ≡ true) (b : HbState) where
    packet-valid : is_valid_hb cfg_b net net.sizeof_packet packet ≡ true
    unfolding is_valid_hb compose
    packet-valid = ground (
      arith,
      ==_self net.sizeof_packet,
      ==_self net.hb_sig,
      same net.gen_uuid,
      same (net.host_id cfg_a.my_index),
    )

    unfenced : a.daemon.hb.fence_request ≡ false → check_fence cfg_b packet b.daemon ≡ b.daemon
    unfolding check_fence is_fenced compose
    unfenced calm = rw calm refl

    -- What a running host takes from a packet without a fence request.
    handle_packet-IsKnown :
        b.daemon.exited ≡ none
        → is_reborn packet b.daemon ≡ false
        → a.daemon.hb.fence_request ≡ false
        → IsKnown cfg_a.my_index now a b.daemon.hb (handle_packet cfg_b net now packet b.daemon).hb
    unfolding handle_packet
    handle_packet-IsKnown alive member calm =
        let fenced : Daemon = check_fence cfg_b packet b.daemon in
        let known : Daemon → Type 0 = λ t. IsKnown cfg_a.my_index now a b.daemon.hb t.hb in
        let whole : fenced ≡ b.daemon = unfenced calm in
        let hb =
          (take_packet-IsTaken cfg_b net now packet fenced).0
          ∙ ap (update_hb cfg_b net now packet) (ap (λ d. d.hb) whole) in
        if-elim known (is_reborn packet b.daemon)
          (λ reborn. absurd (ground (arith, reborn, member)))
          (λ m.
            unless_exited_elim cfg_b net now packet known fenced.exited _ _
              (λ code gone. absurd (ground (arith, gone, ap (λ d. d.exited) whole, alive)))
              (λ e.
                subst (IsKnown cfg_a.my_index now a b.daemon.hb) (sym hb)
                  (update_hb-IsKnown b.daemon.hb)))

    pub receive-send_hb :
        (own : Bool)
        → a.daemon.hb.enable_hb_send ≡ true
        → b.daemon.hb.enable_hb_receive ≡ true
        → b.daemon.exited ≡ none
        → is_newer (b.sequence cfg_a.my_index) packet.sequence ≡ true
        → is_reborn packet b.daemon ≡ false
        → a.daemon.hb.fence_request ≡ false
        → ((send_hb cfg_a net own sent_at a).sent ≡ packet ∷ a.sent)
          × IsKnown cfg_a.my_index now a b.daemon.hb
              (receive_packet cfg_b net now net.sizeof_packet packet b).daemon.hb
    unfolding send_hb receive_packet compose
    receive-send_hb own sending receiving alive new member calm = (
      rw sending refl,
      if-elim (λ (t : HbState). IsKnown cfg_a.my_index now a b.daemon.hb t.daemon.hb)
          (is_accepted cfg_b net now packet net.sizeof_packet b)
          (λ taken. handle_packet-IsKnown alive member calm)
          (λ refused. absurd (all_three receiving packet-valid new refused)),
    )
