-- ===== src/Script/Query.antt =====
-- script_service_do_query_liveset of daemon/sc_func.c, part by part in the order of the code.
use xha.Prelude.{
  ℕ, zero, suc, ◌-◌, ◌*◌, ◌/◌, ◌%◌, ◌^◌, Bool, true, false, not, ◌&&◌, ◌||◌, [], ltb, ◌==◌,
  if◌then◌else◌,
}
use xha.Prelude.Int.{ℤ, pos, negsuc, ltb_ℤ, leb_ℤ, ◌-ℤ◌, ◌+ℤ◌, s32}
use xha.Prelude.Hosts.{update}
use xha.HostMap.{is_on}
use xha.HostWeight.{Str}
use xha.Config.{Config}
use xha.Data.{starting, phase_eq, ComSm, ComHb, ComSf}
use xha.Sm.Signals.{sm_sm_updated, sm_sf_updated, sm_hb_updated}
use xha.StateFile.{SfState}
use xha.XapiMon.{ComXapimon, XapiConfig}
use xha.Script.{LivesetStatus, status_starting, status_online, is_status_online}

-- QUERY_LIVESET_HOST_INFO
pub record HostInfo : Type 0 where
  pub liveness : Bool
  pub master : Bool
  pub sf_access : Bool
  pub sf_corrupted : Bool
  pub excluded : Bool
  pub time_since_last_update_on_sf : ℕ
  pub time_since_last_hb : ℤ
  pub time_since_xapi_restart : ℕ
  pub hb_list_on_hb : ℕ → Bool
  pub sf_list_on_hb : ℕ → Bool
  pub hb_list_on_sf : ℕ → Bool
  pub sf_list_on_sf : ℕ → Bool
  pub xapi_err_string : Str

-- SCRIPT_DATA_RESPONSE_QUERY_LIVESET, less the UUIDs of the hosts.
pub record Response : Type 0 where
  pub status : LivesetStatus
  pub hostnum : ℕ
  pub localhost_index : ℕ
  pub sf_latency : ℤ
  pub sf_latency_max : ℤ
  pub sf_latency_min : ℤ
  pub hb_latency : ℤ
  pub hb_latency_max : ℤ
  pub hb_latency_min : ℤ
  pub xapi_latency : ℤ
  pub xapi_latency_max : ℤ
  pub xapi_latency_min : ℤ
  pub t1 : ℕ
  pub t2 : ℕ
  pub t3 : ℕ
  pub wh : ℕ
  pub ws : ℕ
  pub sf_lost : Bool
  pub hb_approaching_timeout : Bool
  pub sf_approaching_timeout : Bool
  pub xapi_approaching_timeout : Bool
  pub bonding_error : Bool
  pub host : ℕ → HostInfo

-- What the request reads and writes: the daemon with the state-file thread's fields, the latencies
-- and error strings of COM_DATA_HB, the warnings of COM_DATA_SM, the Xapi monitor's object, and
-- whether the bond is degraded or in error.
pub record QueryState : Type 0 where
  pub sf : SfState
  pub hb_latency : ℤ
  pub hb_latency_max : ℤ
  pub hb_latency_min : ℤ
  pub hb_err_string : ℕ → Str
  pub hb_approaching_timeout : Bool
  pub sf_approaching_timeout : Bool
  pub xapi_approaching_timeout : Bool
  pub xapimon : ComXapimon
  pub bond_error : Bool

-- A signed number kept in an MTC_U32.
unfoldable pub u32 : ℤ → ℕ
u32 (pos n) = n % 2 ^ 32
u32 (negsuc n) = 2 ^ 32 - 1 - n % 2 ^ 32

abbrev pub is_minus_one : ℤ → Bool
is_minus_one (negsuc zero) = true
is_minus_one x = false

-- The host of a response after memset.
abbrev pub empty_host : HostInfo
empty_host = record {
  liveness = false;
  master = false;
  sf_access = false;
  sf_corrupted = false;
  excluded = false;
  time_since_last_update_on_sf = 0;
  time_since_last_hb = pos 0;
  time_since_xapi_restart = 0;
  hb_list_on_hb = λ hi. false;
  sf_list_on_hb = λ hi. false;
  hb_list_on_sf = λ hi. false;
  sf_list_on_sf = λ hi. false;
  xapi_err_string = [];
}

module _ (cfg : Config) (xapi_cfg : XapiConfig) (now : ℤ) where
  -- From the configuration, over a response after memset.
  unfoldable pub fill_conf : Response
  fill_conf = record {
    status = status_starting;
    hostnum = cfg.hostnum;
    localhost_index = cfg.my_index;
    sf_latency = pos 0;
    sf_latency_max = pos 0;
    sf_latency_min = pos 0;
    hb_latency = pos 0;
    hb_latency_max = pos 0;
    hb_latency_min = pos 0;
    xapi_latency = pos 0;
    xapi_latency_max = pos 0;
    xapi_latency_min = pos 0;
    t1 = cfg.heartbeat_timeout * 1000 % 2 ^ 32;
    t2 = cfg.statefile_timeout * 1000 % 2 ^ 32;
    t3 = xapi_cfg.xapi_healthcheck_timeout * 1000 % 2 ^ 32;
    wh = cfg.heartbeat_watchdog_timeout * 1000 % 2 ^ 32;
    ws = cfg.statefile_watchdog_timeout * 1000 % 2 ^ 32;
    sf_lost = false;
    hb_approaching_timeout = false;
    sf_approaching_timeout = false;
    xapi_approaching_timeout = false;
    bonding_error = false;
    host = λ index. empty_host;
  }

  -- A loop over the configured hosts that sets each from its own fields.
  abbrev pub each_host : (ℕ → HostInfo → HostInfo) → Response → Response
  each_host f l = record l {
    host = λ index. if ltb index cfg.hostnum then f index (l.host index) else l.host index;
  }

  abbrev pub at_my_index : (HostInfo → HostInfo) → Response → Response
  at_my_index f l = record l { host = update l.host cfg.my_index (f (l.host cfg.my_index)) }

  unfoldable pub fill_sm : ComSm → Response → Response
  fill_sm sm l =
      each_host
        (λ index h. record h {
          liveness = is_on sm.current_liveset index;
          sf_corrupted = is_on sm.sf_corrupted index;
        })
        (record l {
          status = if phase_eq sm.phase starting then status_starting else status_online;
          sf_lost = sm.sr2;
        })

  -- A time that was measured, which is not the -1 of none, and is over half the limit.
  abbrev pub is_over_half : ℤ → ℕ → Bool
  is_over_half time limit = leb_ℤ (pos 0) time && ltb_ℤ (pos (limit / 2)) time

  -- The greatest latency of the heartbeat is compared as an MTC_U32, unless it is -1.
  abbrev pub is_hb_late : ℤ → ℕ → Bool
  is_hb_late time limit = not (is_minus_one time) && ltb (limit / 2) (u32 time)

  -- One host from the heartbeat's object, but for the warning.
  unfoldable pub hb_host : QueryState → ComHb → ℕ → HostInfo → HostInfo
  hb_host s hb index h =
      let raw = hb.raw index in
      let since =
        if ltb_ℤ (hb.time_last_hb index) (pos 0)
        then negsuc 0
        else s32 (now -ℤ hb.time_last_hb index) in
      let other = h.liveness && not (index == cfg.my_index) in
      record h {
        time_since_last_hb = since;
        hb_list_on_hb =
            λ hi. if other && ltb hi cfg.hostnum then is_on raw.hbdomain hi else h.hb_list_on_hb hi;
        sf_list_on_hb =
            λ hi. if other && ltb hi cfg.hostnum then is_on raw.sfdomain hi else h.sf_list_on_hb hi;
        time_since_xapi_restart = u32 (
            if ltb_ℤ raw.time_since_xapi_restart (pos 0)
            then negsuc 0
            else since +ℤ raw.time_since_xapi_restart);
        xapi_err_string = s.hb_err_string index;
      }

  -- Whether the loop finds a live host that was not heard for half of T1.
  unfoldable pub some_late : ℕ → (HostInfo → ℤ) → ℕ → (ℕ → HostInfo) → Bool
  some_late limit time zero host = false
  some_late limit time (suc n) host =
      some_late limit time n host || ((host n).liveness && is_over_half (time (host n)) limit)

  unfoldable pub fill_hb : QueryState → Response → Response
  unfolding hb_host some_late
  fill_hb s l =
      let hb = s.sf.daemon.hb in
      let filled = each_host (hb_host s hb) (record l {
        hb_latency = s.hb_latency;
        hb_latency_max = s.hb_latency_max;
        hb_latency_min = s.hb_latency_min;
      }) in
      at_my_index
        (λ h. record h {
          hb_list_on_sf =
              λ hi. if ltb hi cfg.hostnum then is_on hb.hbdomain hi else h.hb_list_on_sf hi;
          hb_list_on_hb =
              λ hi. if ltb hi cfg.hostnum then is_on hb.hbdomain hi else h.hb_list_on_hb hi;
        })
        (record filled {
          hb_approaching_timeout =
              is_hb_late s.hb_latency_max l.t1
              || some_late l.t1 (λ h. h.time_since_last_hb) cfg.hostnum filled.host;
        })

  module _ (same_uuid : Str → Str → Bool) (host_id : ℕ → Str) where
    -- sf_access of a host: SR2 is whether the pool lives by Survival Rule-2.
    unfoldable pub host_sf_access : Bool → ComSf → ℕ → HostInfo → Bool
    host_sf_access sf_lost sf index h =
        if not h.liveness
        then false
        else if not sf_lost
        then true
        else if index == cfg.my_index
        then sf.sf_access
        else h.sf_list_on_hb index

    -- One host from the state file's object, but for the warning.
    unfoldable pub sf_host : Bool → Str → ComSf → ℕ → HostInfo → HostInfo
    unfolding host_sf_access u32
    sf_host sf_lost master sf index h =
        let raw = sf.raw index in
        let other = h.liveness && not (index == cfg.my_index) in
        record h {
          master = same_uuid master (host_id index);
          sf_access = host_sf_access sf_lost sf index h;
          excluded = is_on sf.excluded index;
          time_since_last_update_on_sf = u32 (
              if ltb_ℤ (sf.time_last_sf index) (pos 0)
              then negsuc 0
              else now -ℤ sf.time_last_sf index);
          hb_list_on_sf = λ hi.
              if other && ltb hi cfg.hostnum
              then is_on sf.sfdomain index && is_on raw.hbdomain hi
              else h.hb_list_on_sf hi;
          sf_list_on_sf = λ hi.
              if other && ltb hi cfg.hostnum
              then is_on sf.sfdomain index && is_on raw.sfdomain hi
              else h.sf_list_on_sf hi;
        }

    unfoldable pub fill_sf : QueryState → Response → Response
    unfolding sf_host some_late
    fill_sf s l =
        let sf = s.sf.daemon.sf in
        let filled = each_host (sf_host l.sf_lost s.sf.master sf) (record l {
          sf_latency = s.sf.latency;
          sf_latency_max = s.sf.latency_max;
          sf_latency_min = s.sf.latency_min;
        }) in
        at_my_index
          (λ h. record h {
            sf_corrupted = s.sf.sf_corrupted;
            sf_list_on_sf =
                λ hi. if ltb hi cfg.hostnum then is_on sf.sfdomain hi else h.sf_list_on_sf hi;
            sf_list_on_hb =
                λ hi. if ltb hi cfg.hostnum then is_on sf.sfdomain hi else h.sf_list_on_hb hi;
          })
          (record filled {
            sf_approaching_timeout =
                not l.sf_lost
                && (is_over_half s.sf.latency_max l.t2
                    || some_late l.t2 (λ h. pos h.time_since_last_update_on_sf) cfg.hostnum
                        filled.host);
          })

    -- From the Xapi monitor's object.
    unfoldable pub fill_xapi : ComXapimon → Response → Response
    unfolding u32
    fill_xapi x l =
        at_my_index
          (λ h. record h {
            xapi_err_string = x.err_string;
            time_since_xapi_restart = u32 (
                if ltb_ℤ x.time_xapi_restart (pos 0) then negsuc 0 else now -ℤ x.time_xapi_restart);
          })
          (record l {
            xapi_latency = x.latency;
            xapi_latency_max = x.latency_max;
            xapi_latency_min = x.latency_min;
            xapi_approaching_timeout =
                is_over_half x.latency_max l.t3
                || (leb_ℤ (pos 0) x.time_healthcheck_start
                    && leb_ℤ (pos (l.t3 / 2)) (now -ℤ x.time_healthcheck_start));
          })

    -- The response.
    unfoldable pub query_response : QueryState → Response
    unfolding fill_conf fill_sm fill_hb fill_sf fill_xapi
    query_response s =
        record (fill_xapi s.xapimon (fill_sf s (fill_hb s (fill_sm s.sf.daemon.sm fill_conf)))) {
          bonding_error = s.bond_error;
        }

    -- What the request changes: the statistics of the interval are begun anew, if the host is
    -- online, the warnings are kept in the State Manager's object, and as the three objects are
    -- released, the State Manager's callbacks run. The callbacks of the lock manager and of the
    -- heartbeat's and the state file's threads change nothing of this state: their copies, the
    -- fencing modes of the two objects and the watchdogs' handles are not part of it.
    unfoldable pub query_state : Response → QueryState → QueryState
    unfolding sm_sm_updated sm_sf_updated sm_hb_updated
    query_state l s =
        let online = is_status_online l.status in
        record s {
          hb_latency_max = if online then negsuc 0 else s.hb_latency_max;
          hb_latency_min = if online then negsuc 0 else s.hb_latency_min;
          sf = record (s.sf) {
            daemon = sm_sm_updated false (sm_sf_updated false (sm_hb_updated false s.sf.daemon));
            latency_max = if online then negsuc 0 else s.sf.latency_max;
            latency_min = if online then negsuc 0 else s.sf.latency_min;
          };
          xapimon = record (s.xapimon) {
            latency_max = if online then negsuc 0 else s.xapimon.latency_max;
            latency_min = if online then negsuc 0 else s.xapimon.latency_min;
          };
          hb_approaching_timeout = l.hb_approaching_timeout;
          sf_approaching_timeout = l.sf_approaching_timeout;
          xapi_approaching_timeout = l.xapi_approaching_timeout;
        }

    -- script_service_do_query_liveset
    unfoldable pub query_liveset : QueryState → Response × QueryState
    unfolding query_response query_state
    query_liveset s = (query_response s, query_state (query_response s) s)
