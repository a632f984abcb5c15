-- ===== src/Examples/Query.antt =====
-- A pool of two hosts, one of which was never seen on the state file, whose state is asked for.
use xha.Prelude.{ℕ, ◌≡◌, refl, true, false, [], ◌∷◌, arith}
use xha.Prelude.Int.{pos, negsuc}
use xha.HostMap.{is_on}
use xha.HostWeight.{Str, str_eq}
use xha.Data.{Daemon}
use xha.XapiMon.{initial_com}
use xha.Script.Query.{QueryState, query_liveset}
use xha.Script.Report.{query_liveset_lem}
use xha.Examples.{cfg_of, daemon_of}
use xha.Examples.Disk.{sf_state}
use xha.Examples.Monitor.{xapi_cfg}

abbrev unseen_daemon : Daemon
unseen_daemon =
    let d = daemon_of 3 3 false in record d { sf = record (d.sf) { time_last_sf = λ i. negsuc 0 } }

abbrev asked : QueryState
asked = record {
  sf = record sf_state { daemon = unseen_daemon };
  hb_latency = pos 4000;
  hb_latency_max = pos 4100;
  hb_latency_min = pos 3900;
  hb_err_string = λ i. [];
  hb_approaching_timeout = false;
  sf_approaching_timeout = false;
  xapi_approaching_timeout = false;
  xapimon = initial_com;
  bond_error = false;
}

abbrev host_names : ℕ → Str
host_names i = i ∷ []

query_liveset_lem_example :
    (query_liveset (cfg_of 2) xapi_cfg (pos 100) str_eq host_names asked).0.sf_approaching_timeout
    ≡ true
unfolding is_on
query_liveset_lem_example =
    (query_liveset_lem (cfg_of 2) xapi_cfg (pos 100) str_eq host_names asked 1 (omega arith)).3 refl
      refl refl
