-- ===== src/Heartbeat/Receive/Fence.antt =====
-- The fence request: when a packet ends the process of the host that receives it.
use xha.Prelude.{ℕ, ◌≡◌, ◌∙◌, true, false, ◌&&◌, if◌then◌else◌, arith, if-elim, Option, none, some}
use xha.Prelude.Int.{ℤ}
use xha.Config.{Config}
use xha.Data.{Status, error_hb_fencerequested, Daemon}
use xha.Sm.Control.{self_fence}
use xha.Sm.Survival.{is_armed}
use xha.Heartbeat.{HbPacket, Network, HbState}
use xha.Heartbeat.Receive.{is_reborn, is_fenced, check_fence, handle_packet, receive_packet}
use xha.Heartbeat.Receive.Sequence.{is_accepted, unless_exited_elim, take_packet-IsTaken}

self_fence_exit :
    (code : Status) (d : Daemon)
    → d.exited ≡ none
    → (self_fence code d).exited ≡ (if is_armed d.var.fencing then some code else none)
unfolding self_fence
self_fence_exit code d alive = ground (arith, alive)

module _ (cfg : Config) (net : Network) (now : ℤ) (pkt : HbPacket) where
  check_fence_exit :
      (d : Daemon)
      → d.exited ≡ none
      → (check_fence cfg pkt d).exited ≡ (
          if is_fenced cfg pkt && is_armed d.var.fencing
          then some error_hb_fencerequested
          else none)
  unfolding check_fence
  check_fence_exit d alive = ground (arith, alive, self_fence_exit error_hb_fencerequested d alive)

  fenced_not_reborn : (d : Daemon) → is_reborn pkt d ≡ true → is_fenced cfg pkt ≡ false
  unfolding is_reborn is_fenced
  fenced_not_reborn d reborn = ground arith

  handle_packet_exit :
      (d : Daemon)
      → d.exited ≡ none
      → (handle_packet cfg net now pkt d).exited ≡ (
          if is_fenced cfg pkt && is_armed d.var.fencing
          then some error_hb_fencerequested
          else none)
  unfolding handle_packet
  handle_packet_exit d alive =
      let code : Option Status =
        if is_fenced cfg pkt && is_armed d.var.fencing
        then some error_hb_fencerequested
        else none in
      let ends : Daemon → Type 0 = λ t. t.exited ≡ code in
      let fence : ends (check_fence cfg pkt d) = check_fence_exit d alive in
      if-elim ends (is_reborn pkt d) (λ reborn. rw (fenced_not_reborn d reborn) alive)
        (λ member.
          unless_exited_elim cfg net now pkt ends (check_fence cfg pkt d).exited _ _
            (λ gone e. fence)
            (λ e. (take_packet-IsTaken cfg net now pkt (check_fence cfg pkt d)).1 ∙ fence))

  -- A packet ends the process of a running daemon, as fenced by request, exactly when the receiver
  -- is enabled, the packet is valid and new, its sender is a member of its own liveset that asks
  -- for the fence and does not propose this host, and fencing is armed.
  pub receive_packet-exited :
      (size : ℕ) (h : HbState)
      → h.daemon.exited ≡ none
      → (receive_packet cfg net now size pkt h).daemon.exited ≡ (
          if is_accepted cfg net now pkt size h
            && is_fenced cfg pkt
            && is_armed h.daemon.var.fencing
          then some error_hb_fencerequested
          else none)
  unfolding receive_packet
  receive_packet-exited size h alive =
      if-elim
        (λ (t : HbState). t.daemon.exited ≡ (
          if is_accepted cfg net now pkt size h
            && is_fenced cfg pkt
            && is_armed h.daemon.var.fencing
          then some error_hb_fencerequested
          else none))
        (is_accepted cfg net now pkt size h) (λ new. rw new (handle_packet_exit h.daemon alive))
        (λ old. rw old alive)
