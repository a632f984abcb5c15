-- ===== src/Examples/Beats.antt =====
-- The theorems on the heartbeat at a pool of two hosts.
use xha.Prelude.{◌≡◌, refl, true, false, some, [], ◌∷◌, arith}
use xha.Prelude.Int.{pos, ◌-ℤ◌}
use xha.HostMap.{is_on}
use xha.Config.{Config}
use xha.Data.{error_hb_fencerequested, Daemon}
use xha.HostWeight.{str_eq}
use xha.HostWeight.Table.{str_eq_self}
use xha.Heartbeat.{HbPacket, Network, HbState}
use xha.Heartbeat.Send.{compose}
use xha.Heartbeat.Domain.{update_hbdomain}
use xha.Heartbeat.Domain.Update.{update_hbdomain_lem}
use xha.Heartbeat.Receive.{is_newer, is_reborn, is_fenced, is_valid_hb, receive_packet}
use xha.Heartbeat.Receive.Sequence.{receive_packet_again}
use xha.Heartbeat.Receive.Fence.{receive_packet-exited}
use xha.Heartbeat.Receive.Exchange.{packet}
use xha.Heartbeat.Alive.{update_hbdomain-receive_hb}
use xha.Examples.{hosts, cfg_of, daemon_of}

abbrev pool : Network
pool = record {
  gen_uuid = 7 ∷ [];
  host_id = λ i. i ∷ [];
  same_uuid = str_eq;
  hb_sig = 1751213176;
  sizeof_packet = 744;
}

abbrev state_of : Daemon → HbState
state_of d = record {
  daemon = d;
  sequence = λ i. 4;
  sf_accelerate = false;
  sf_corrupted = false;
  time_xapi_restart = pos 0;
  recvfrom_failed = false;
  sent = [];
}

-- Host 1, which sends, and host 0, which receives.
abbrev sender_cfg : Config
sender_cfg = record (cfg_of 2) { my_index = 1 }

abbrev sender : HbState
sender = state_of (daemon_of 3 3 false)

abbrev receiver : HbState
receiver = state_of (daemon_of 3 1 false)

abbrev beat : HbPacket
beat = packet sender_cfg (cfg_of 2) pool (pos 100) (pos 120) sender

update_hbdomain_example :
    is_on (update_hbdomain (cfg_of 2) (pos 100) receiver).1.daemon.hb.hbdomain 1 ≡ true
unfolding is_on update_hbdomain ◌-ℤ◌
update_hbdomain_example = ((update_hbdomain_lem (cfg_of 2) (pos 100) receiver).1 1).0

receive_packet_again_example :
    receive_packet
      (cfg_of 2)
      pool
      (pos 130)
      744
      beat
      (receive_packet (cfg_of 2) pool (pos 120) 744 beat receiver)
    ≡ receive_packet (cfg_of 2) pool (pos 120) 744 beat receiver
unfolding compose is_on is_newer is_valid_hb str_eq
receive_packet_again_example =
    receive_packet_again (cfg_of 2) pool beat (pos 120) (pos 130) 744 744 receiver
      (receive_packet (cfg_of 2) pool (pos 120) 744 beat receiver) (omega arith) refl refl

-- A sender that asks for the fence and no longer proposes host 0.
abbrev fencing_packet : HbPacket
fencing_packet = record beat { fence_request = true; proposed_liveset = hosts 2 }

receive_packet-exited_example :
    (receive_packet (cfg_of 2) pool (pos 120) 744 fencing_packet receiver).daemon.exited
    ≡ some error_hb_fencerequested
unfolding compose is_on is_newer str_eq is_valid_hb is_fenced
receive_packet-exited_example =
    receive_packet-exited (cfg_of 2) pool (pos 120) fencing_packet 744 receiver refl

update_hbdomain-receive_hb_example :
    is_on
      (update_hbdomain
        (cfg_of 2)
        (pos 150)
        (receive_packet (cfg_of 2) pool (pos 120) 744 beat receiver)).1.daemon.hb.hbdomain
      1
    ≡ true
unfolding compose is_on is_newer is_reborn ◌-ℤ◌ receive_packet str_eq
update_hbdomain-receive_hb_example =
    update_hbdomain-receive_hb sender_cfg (cfg_of 2) pool (pos 100) 120 (pos 150) sender receiver
      (receive_packet (cfg_of 2) pool (pos 120) 744 beat receiver) str_eq_self refl refl refl refl
      refl refl refl refl refl (omega arith) (omega arith)
