-- ===== src/Heartbeat/Thread.antt =====
-- A turn of hb_receive of daemon/heartbeat.c, up to the refresh of the watchdog.
use xha.Prelude.{false, if◌then◌else◌, Option, none, some}
use xha.Prelude.Int.{ℤ}
use xha.Config.{Config}
use xha.Sm.Fault.{start_fh}
use xha.Heartbeat.{Network, HbState}
use xha.Heartbeat.Domain.{update_hbdomain}
use xha.Heartbeat.Receive.{Received, receive_hb}

module _ (cfg : Config) (net : Network) where
  -- The domain is brought up to date, and the fault handler is asked for if it changed.
  unfoldable pub refresh_hbdomain : ℤ → HbState → HbState
  unfolding update_hbdomain start_fh
  refresh_hbdomain now h =
      let (changed, updated) = update_hbdomain cfg now h in
      if changed then record updated { daemon = start_fh cfg false updated.daemon } else updated

  -- `received` is what select() and recvfrom() give, with the clock of the receipt.
  unfoldable pub hb_receive_round : ℤ → Option (ℤ × Received) → HbState → HbState
  unfolding refresh_hbdomain receive_hb
  hb_receive_round now none h = refresh_hbdomain now h
  hb_receive_round now (some (later, received)) h =
      receive_hb cfg net later received (refresh_hbdomain now h)
