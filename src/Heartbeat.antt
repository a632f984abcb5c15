-- ===== src/Heartbeat.antt =====
-- The heartbeat of daemon/heartbeat.c: its packet, and the state of its two threads on one host.
-- The packet's checksum and padding, which stay 0, and the text of xapi's error are left out.
pub mod Domain
pub mod Send
pub mod Receive
pub mod Alive
pub mod Thread
use xha.Prelude.{ℕ, Bool, List}
use xha.Prelude.Int.{ℤ}
use xha.HostMap.{HostMap}
use xha.HostWeight.{Str}
use xha.Data.{SmPhase, Daemon}

-- HB_PACKET
pub record HbPacket : Type 0 where
  pub signature : ℕ
  pub sequence : ℕ
  pub size : ℕ
  pub generation_uuid : Str
  pub host_uuid : Str
  pub host_index : ℕ
  pub current_liveset : HostMap
  pub proposed_liveset : HostMap
  pub hbdomain : HostMap
  pub sfdomain : HostMap
  pub time_since_last_hb_receipt : ℕ → ℤ
  pub time_since_last_sf_update : ℕ → ℤ
  pub time_since_xapi_restart : ℤ
  pub sm_phase : SmPhase
  pub sf_access : Bool
  pub sf_corrupted : Bool
  pub sf_accelerate : Bool
  pub fence_request : Bool
  pub sr2 : Bool
  pub joining : Bool

-- What the hosts of a pool share: `_gen_UUID` and the `host_id` of `_host_info`, UUID_comp (whether
-- strncasecmp finds no difference), and the values of HB_SIG and sizeof(HB_PACKET).
pub record Network : Type 0 where
  pub gen_uuid : Str
  pub host_id : ℕ → Str
  pub same_uuid : Str → Str → Bool
  pub hb_sig : ℕ
  pub sizeof_packet : ℕ

-- The daemon with what only the heartbeat threads use: `hbvar.sequence`, SF_accelerate of
-- COM_DATA_HB, SF_corrupted of COM_DATA_SF, time_Xapi_restart of COM_DATA_XAPIMON, the static
-- `recvfrom_failed` of receive_hb, and the packets sent, the latest first.
pub record HbState : Type 0 where
  pub daemon : Daemon
  pub sequence : ℕ → ℕ
  pub sf_accelerate : Bool
  pub sf_corrupted : Bool
  pub time_xapi_restart : ℤ
  pub recvfrom_failed : Bool
  pub sent : List HbPacket
