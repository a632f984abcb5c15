-- ===== src/Script/Report.antt =====
-- What script_service_do_query_liveset of daemon/sc_func.c answers.
use xha.Prelude.{
  ℕ, zero, suc, ◌^◌, ◌<◌, ◌≡◌, refl, ap, ◌∙◌, Bool, true, false, not, ◌&&◌, ◌||◌, ltb_iff, ◌==◌,
  inl, inr, Bool-cases, ==_iff, ℕ_discrete, arith,
}
use xha.Prelude.Int.{ℤ, pos, ltb_ℤ}
use xha.HostMap.{is_on}
use xha.Data.{Daemon}
use xha.Sm.Signals.{sm_sm_updated, sm_sf_updated, sm_hb_updated}
use xha.HostWeight.{Str}
use xha.Config.{Config}
use xha.XapiMon.{XapiConfig, ComXapimon}
use xha.Script.Query.{
  HostInfo, Response, QueryState, u32, fill_conf, each_host, at_my_index, fill_sm, is_over_half,
  hb_host, some_late, fill_hb, host_sf_access, sf_host, fill_sf, fill_xapi, query_response,
  query_state, query_liveset,
}

-- The callbacks of the State Manager, as the objects of the heartbeat, the state file and the State
-- Manager are released.
record IsReleased (d e : Daemon) : Type 0 where
  hb : e.hb ≡ d.hb
  sf : e.sf ≡ d.sf
  current : e.sm.current_liveset ≡ d.sm.current_liveset
  proposed : e.sm.proposed_liveset ≡ d.sm.proposed_liveset
  hb_woken : e.var.hb_sig ≡ true
  sf_woken : e.var.sf_sig ≡ true
  sm_woken : e.var.sm_sig ≡ true

release_lem :
    (d : Daemon) → IsReleased d (sm_sm_updated false (sm_sf_updated false (sm_hb_updated false d)))
unfolding sm_sm_updated sm_sf_updated sm_hb_updated
release_lem d = record {
  hb = ground arith;
  sf = ground arith;
  current = ground arith;
  proposed = ground arith;
  hb_woken = ground arith;
  sf_woken = ground arith;
  sm_woken = ground arith;
}

warn_on : (lost a b : Bool) → lost ≡ false → b ≡ true → (not lost && (a || b)) ≡ true
warn_on lost a b kept late = ground arith

module _ (cfg : Config) (xapi_cfg : XapiConfig) (now : ℤ) where
  -- A field that the host's own part leaves alone.
  at_my_index_keeps :
      {B : Type 0} (g : HostInfo → B) (f : HostInfo → HostInfo) (l : Response) (i : ℕ)
      → ((h : HostInfo) → g (f h) ≡ g h)
      → g ((at_my_index cfg xapi_cfg now f l).host i) ≡ g (l.host i)
  at_my_index_keeps g f l i keeps = elim (Bool-cases (cfg.my_index == i)) [
    | inl own ↦ rw own (keeps (l.host cfg.my_index) ∙ ap (λ k. g (l.host k)) ((==_iff _ _).0 own))
    | inr other ↦ rw other refl
  ]

  each_host_at :
      (f : ℕ → HostInfo → HostInfo) (l : Response) (i : ℕ)
      → i < cfg.hostnum
      → (each_host cfg xapi_cfg now f l).host i ≡ f i (l.host i)
  each_host_at f l i lt = rw ((ltb_iff i cfg.hostnum).1 lt) refl

  some_late-true :
      (limit : ℕ) (time : HostInfo → ℤ) (n i : ℕ) (host : ℕ → HostInfo)
      → i < n
      → (host i).liveness ≡ true
      → is_over_half cfg xapi_cfg now (time (host i)) limit ≡ true
      → some_late cfg xapi_cfg now limit time n host ≡ true
  unfolding some_late
  some_late-true limit time zero i host lt live late = absurd (omega arith)
  some_late-true limit time (suc n) i host lt live late = elim (ℕ_discrete i n) [
    | yes e ↦ ground (
      arith,
      ap (λ k. (host k).liveness) e,
      ap (λ k. is_over_half cfg xapi_cfg now (time (host k)) limit) e,
    )
    | no ne ↦ rw (some_late-true limit time n i host (omega arith) live late) refl
  ]

  -- The parts from the heartbeat, the state file and the Xapi monitor leave the liveness alone.
  fill_hb-liveness :
      (s : QueryState) (l : Response) (i : ℕ)
      → ((fill_hb cfg xapi_cfg now s l).host i).liveness ≡ (l.host i).liveness
  unfolding fill_hb hb_host
  fill_hb-liveness s l i = elim (Bool-cases (cfg.my_index == i)) [
    | inl own ↦ rw own (ground (arith, (==_iff _ _).0 own))
    | inr other ↦ rw other (ground arith)
  ]

  module _ (same_uuid : Str → Str → Bool) (host_id : ℕ → Str) where
    fill_sf-liveness :
        (s : QueryState) (l : Response) (i : ℕ)
        → ((fill_sf cfg xapi_cfg now same_uuid host_id s l).host i).liveness ≡ (l.host i).liveness
    unfolding fill_sf sf_host
    fill_sf-liveness s l i = elim (Bool-cases (cfg.my_index == i)) [
      | inl own ↦ rw own (ground (arith, (==_iff _ _).0 own))
      | inr other ↦ rw other (ground arith)
    ]

    fill_sf-access :
        (s : QueryState) (l : Response) (i : ℕ)
        → i < cfg.hostnum
        → ((fill_sf cfg xapi_cfg now same_uuid host_id s l).host i).sf_access
          ≡ host_sf_access cfg xapi_cfg now same_uuid host_id l.sf_lost s.sf.daemon.sf i (l.host i)
    unfolding fill_sf sf_host
    fill_sf-access s l i lt = elim (Bool-cases (cfg.my_index == i)) [
      | inl own ↦
          rw (own, (ltb_iff cfg.my_index cfg.hostnum).1 (omega (arith, (==_iff _ _).0 own)))
            (ap
              (λ k.
                host_sf_access cfg xapi_cfg now same_uuid host_id l.sf_lost s.sf.daemon.sf k
                  (l.host k))
              ((==_iff _ _).0 own))
      | inr other ↦ rw (other, (ltb_iff i cfg.hostnum).1 lt) refl
    ]

    sf_host_late :
        (s : QueryState) (l : Response) (i : ℕ)
        → l.t2 < 2 ^ 32
        → ltb_ℤ (s.sf.daemon.sf.time_last_sf i) (pos 0) ≡ true
        → is_over_half cfg xapi_cfg now
            (pos
              (sf_host cfg xapi_cfg now same_uuid host_id l.sf_lost s.sf.master s.sf.daemon.sf i
                (l.host i)).time_since_last_update_on_sf)
            l.t2
          ≡ true
    unfolding sf_host u32
    sf_host_late s l i small never = rw never (ground arith)

    fill_sf_late :
        (s : QueryState) (l : Response) (i : ℕ)
        → i < cfg.hostnum
        → l.t2 < 2 ^ 32
        → l.sf_lost ≡ false
        → (l.host i).liveness ≡ true
        → ltb_ℤ (s.sf.daemon.sf.time_last_sf i) (pos 0) ≡ true
        → (fill_sf cfg xapi_cfg now same_uuid host_id s l).sf_approaching_timeout ≡ true
    unfolding fill_sf sf_host
    fill_sf_late s l i lt small kept live never =
        let here = (ltb_iff i cfg.hostnum).1 lt in
        warn_on l.sf_lost _ _ kept (
          some_late-true l.t2 (λ h. pos h.time_since_last_update_on_sf) cfg.hostnum i
            (each_host cfg xapi_cfg now
              (sf_host cfg xapi_cfg now same_uuid host_id l.sf_lost s.sf.master s.sf.daemon.sf)
              l).host
            lt (rw here live) (rw here (sf_host_late s l i small never)))

    fill_xapi_keeps :
        (x : ComXapimon) (l : Response) (i : ℕ)
        → (((fill_xapi cfg xapi_cfg now same_uuid host_id x l).host i).liveness
            ≡ (l.host i).liveness)
          × (((fill_xapi cfg xapi_cfg now same_uuid host_id x l).host i).sf_access
              ≡ (l.host i).sf_access)
    unfolding fill_xapi
    fill_xapi_keeps x l i = elim (Bool-cases (cfg.my_index == i)) [
      | inl own ↦
          (rw own (ground (arith, (==_iff _ _).0 own)), rw own (ground (arith, (==_iff _ _).0 own)))
      | inr other ↦ (rw other refl, rw other refl)
    ]

    module _ (s : QueryState) (i : ℕ) (lt : i < cfg.hostnum) where
      abbrev answer : Response
      answer = query_response cfg xapi_cfg now same_uuid host_id s

      abbrev before_sf : Response
      before_sf =
          fill_hb cfg xapi_cfg now s
            (fill_sm cfg xapi_cfg now s.sf.daemon.sm (fill_conf cfg xapi_cfg now))

      before_sf-liveness : (before_sf.host i).liveness ≡ is_on s.sf.daemon.sm.current_liveset i
      unfolding fill_sm
      before_sf-liveness =
          fill_hb-liveness s (fill_sm cfg xapi_cfg now s.sf.daemon.sm (fill_conf cfg xapi_cfg now))
            i
          ∙ rw ((ltb_iff i cfg.hostnum).1 lt) refl

      before_sf_lost : before_sf.sf_lost ≡ s.sf.daemon.sm.sr2
      unfolding fill_hb fill_sm
      before_sf_lost = refl

      before_sf_t2 : before_sf.t2 < 2 ^ 32
      unfolding fill_hb fill_sm fill_conf
      before_sf_t2 = omega arith

      abbrev after_sf : Response
      after_sf = fill_sf cfg xapi_cfg now same_uuid host_id s before_sf

      answer-liveness : (answer.host i).liveness ≡ is_on s.sf.daemon.sm.current_liveset i
      unfolding query_response
      answer-liveness =
          (fill_xapi_keeps s.xapimon after_sf i).0
          ∙ fill_sf-liveness s before_sf i
          ∙ before_sf-liveness

      answer-access :
          (answer.host i).sf_access
          ≡ host_sf_access cfg xapi_cfg now same_uuid host_id s.sf.daemon.sm.sr2 s.sf.daemon.sf i
              (before_sf.host i)
      unfolding query_response
      answer-access =
          (fill_xapi_keeps s.xapimon after_sf i).1
          ∙ fill_sf-access s before_sf i lt
          ∙ ap
              (λ lost.
                host_sf_access cfg xapi_cfg now same_uuid host_id lost s.sf.daemon.sf i
                  (before_sf.host i))
              before_sf_lost

      -- The -1 of a host that was never seen is kept in an unsigned word.
      query_liveset-false_warning :
          is_on s.sf.daemon.sm.current_liveset i ≡ true
          → s.sf.daemon.sm.sr2 ≡ false
          → ltb_ℤ (s.sf.daemon.sf.time_last_sf i) (pos 0) ≡ true
          → (query_liveset cfg xapi_cfg now same_uuid host_id s).0.sf_approaching_timeout ≡ true
      unfolding query_liveset query_response fill_xapi
      query_liveset-false_warning live kept never =
          fill_sf_late s before_sf i lt before_sf_t2 (before_sf_lost ∙ kept)
            (before_sf-liveness ∙ live) never

      -- query_liveset tells of a configured host that it is alive exactly if it is in the State
      -- Manager's liveset, and that it has access to the state file only if it is alive, and always
      -- then unless the pool lives by Survival Rule-2. Unless it does, query_liveset warns of the
      -- state file's timeout whenever a host of the liveset was never seen to update its section,
      -- however short the time. It leaves the livesets and the objects of the heartbeat and the
      -- state file, as far as the daemon's record holds them, as they were, and wakes the State
      -- Manager's thread by its three signals.
      pub query_liveset_lem :
          let kept = (query_liveset cfg xapi_cfg now same_uuid host_id s).1.sf.daemon in
          (((query_liveset cfg xapi_cfg now same_uuid host_id s).0.host i).liveness
            ≡ is_on s.sf.daemon.sm.current_liveset i)
          × (((query_liveset cfg xapi_cfg now same_uuid host_id s).0.host i).sf_access ≡ true
              → is_on s.sf.daemon.sm.current_liveset i ≡ true)
          × (s.sf.daemon.sm.sr2 ≡ false
              → ((query_liveset cfg xapi_cfg now same_uuid host_id s).0.host i).sf_access
                ≡ is_on s.sf.daemon.sm.current_liveset i)
          × (is_on s.sf.daemon.sm.current_liveset i ≡ true
              → s.sf.daemon.sm.sr2 ≡ false
              → ltb_ℤ (s.sf.daemon.sf.time_last_sf i) (pos 0) ≡ true
              → (query_liveset cfg xapi_cfg now same_uuid host_id s).0.sf_approaching_timeout
                ≡ true)
          × (kept.hb ≡ s.sf.daemon.hb)
          × (kept.sf ≡ s.sf.daemon.sf)
          × (kept.sm.current_liveset ≡ s.sf.daemon.sm.current_liveset)
          × (kept.sm.proposed_liveset ≡ s.sf.daemon.sm.proposed_liveset)
          × (kept.var.hb_sig ≡ true)
          × (kept.var.sf_sig ≡ true)
          × (kept.var.sm_sig ≡ true)
      unfolding query_liveset query_state host_sf_access
      query_liveset_lem =
          let released = release_lem s.sf.daemon in
          (
            answer-liveness,
            λ h. ground (arith, h, answer-access, before_sf-liveness),
            λ h. ground (arith, h, answer-access, before_sf-liveness),
            query_liveset-false_warning,
            released.hb,
            released.sf,
            released.current,
            released.proposed,
            released.hb_woken,
            released.sf_woken,
            released.sm_woken,
          )
