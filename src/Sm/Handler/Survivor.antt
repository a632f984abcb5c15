-- ===== src/Sm/Handler/Survivor.antt =====
-- What a fault does to the liveset: phases 3 and 4 of fault_handler of daemon/sm.c.
use xha.Prelude.{
  ℕ, ◌<◌, ◌≤◌, ◌≡◌, refl, ap, ◌∙◌, Bool, true, false, ◌&&◌, ◌||◌, if◌then◌else◌, arith, Bool-cases,
  inl, inr, some,
}
use xha.HostMap.{is_on, intersection, subset_equal, max_host_num}
use xha.HostMap.Sets.{is_on-intersection, subset_equal_iff}
use xha.Config.{Config}
use xha.Data.{Status, fh3done, fh4, fh4done, error_sm_survivalrule_failed, ComSm, SmVar, Daemon}
use xha.Sm.Control.{self_fence, fence_request, cancel_fence_request}
use xha.Sm.Signals.{sm_hb_updated}
use xha.Sm.Survival.{
  is_armed, hbd, sfd, test_survival_rule, decide_survival, remove_hosts, mask_stable,
}
use xha.Sm.Survival.Rule.{wins_first, wins_second, test_survival_rule_lem, sm_sm_updated-livesets}
use xha.Sm.Handler.Quiet.{
  IsArmed, sm_sm_updated-IsArmed, IsQuiet, IsKept, AllQuiet, given, rendezvous-IsKept,
}
use xha.Sm.Handler.{FhRun, rendezvous, check_survival, sleep_before_fo, cut_liveset, update_liveset}

decide_survival-IsArmed :
    (cfg : Config) (d : Daemon) → IsArmed d → IsArmed (decide_survival cfg d).1
unfolding decide_survival mask_stable
decide_survival-IsArmed cfg d h = h

remove_hosts-IsArmed :
    (cfg : Config) (stays : ℕ → Bool) (d : Daemon) → IsArmed d → IsArmed (remove_hosts cfg stays d)
unfolding remove_hosts
remove_hosts-IsArmed cfg stays d h = h

test_survival_rule-IsArmed :
    (cfg : Config) (d : Daemon) → IsArmed d → IsArmed (test_survival_rule cfg d).1
unfolding test_survival_rule
test_survival_rule-IsArmed cfg d armed =
    sm_sm_updated-IsArmed true _
      (elim (Bool-cases ((decide_survival cfg d).0.winner && is_armed d.var.fencing)) [
        | inl removes ↦
            rw removes (remove_hosts-IsArmed cfg _ _ (decide_survival-IsArmed cfg d armed))
        | inr keeps ↦ rw keeps (decide_survival-IsArmed cfg d armed)
      ])

fence_request-quiet : (d : Daemon) → ((fence_request d).sm ≡ d.sm) × ((fence_request d).var ≡ d.var)
unfolding fence_request sm_hb_updated
fence_request-quiet d = (refl, refl)

cancel_fence_request-quiet :
    (d : Daemon)
    → ((cancel_fence_request d).sm ≡ d.sm) × ((cancel_fence_request d).hb.fence_request ≡ false)
unfolding cancel_fence_request sm_hb_updated
cancel_fence_request-quiet d = (refl, refl)

cut_liveset_lem :
    (d : Daemon) (j : ℕ)
    → is_on (cut_liveset d).sm.current_liveset j
      ≡ (is_on d.sm.current_liveset j && is_on d.sm.proposed_liveset j)
unfolding cut_liveset cancel_fence_request sm_hb_updated
cut_liveset_lem d j = ground (
  arith,
  is_on-intersection d.sm.current_liveset d.sm.proposed_liveset j,
  (sm_sm_updated-livesets true (record d {
    sm = record (d.sm) {
      current_liveset = intersection d.sm.current_liveset d.sm.proposed_liveset;
    };
  })).0,
)

-- Phase 4 cuts the liveset down to the proposed one.
module _ (cfg : Config) (run : FhRun) (quiet : IsQuiet run.sleep) (d : Daemon) where
  abbrev slept : Daemon
  slept = sleep_before_fo cfg run d

  abbrev requested : Daemon
  requested = if is_armed d.var.fencing then fence_request d else d

  requested-quiet : (requested.sm ≡ d.sm) × (requested.var ≡ d.var)
  requested-quiet = elim (Bool-cases (is_armed d.var.fencing)) [
    | inl asks ↦ rw asks (fence_request-quiet d)
    | inr idle ↦ rw idle (refl, refl)
  ]

  sleep_before_fo_lem :
      IsArmed d
      → (slept.sm.current_liveset ≡ d.sm.current_liveset)
        × (slept.sm.proposed_liveset ≡ d.sm.proposed_liveset)
        × (is_armed slept.var.fencing ≡ true)
  unfolding sleep_before_fo
  sleep_before_fo_lem armed =
      let (sm, var) = requested-quiet in
      (
        quiet.current _ ∙ ap (λ (x : ComSm). x.current_liveset) sm,
        quiet.proposed _ ∙ ap (λ (x : ComSm). x.proposed_liveset) sm,
        ap is_armed
            (quiet.armed _ (
              ap (λ (x : ComSm). x.fencing) sm ∙ armed.0,
              ap (λ (x : SmVar). x.fencing) var ∙ armed.1,
            )).1,
      )

  update_liveset_lem :
      (j : ℕ)
      → IsArmed d
      → j < max_host_num
      → is_on (update_liveset cfg run d).sm.current_liveset j
        ≡ (is_on d.sm.current_liveset j && is_on d.sm.proposed_liveset j)
  unfolding update_liveset
  update_liveset_lem j armed lt =
      let (current, proposed, ready) = sleep_before_fo_lem armed in
      elim (Bool-cases (subset_equal d.sm.current_liveset d.sm.proposed_liveset)) [
        | inl within ↦ rw within (ground (arith, (subset_equal_iff _ _).0 within j lt))
        | inr beyond ↦
            rw (beyond, ready) (ground (arith, cut_liveset_lem slept j, current, proposed))
      ]

self_fence-armed : (code : Status) (d : Daemon) → IsArmed d → (self_fence code d).exited ≡ some code
unfolding self_fence
self_fence-armed code d armed = rw armed.1 refl

-- What the phases 3 and 4 of the fault handler do to a host whose fencing is armed, in a pool of at
-- most 64 hosts, where the other threads leave the livesets and the fencing alone during the
-- rendezvous between the two phases and during the sleep of phase 4. If the host loses, its process
-- ends with the code of the Survival Rule. If it wins and the rendezvous ends, its new liveset is
-- what is left of the old one in its proposed liveset, in its stable heartbeat domain and, unless
-- it survives by Survival Rule-2, in its stable state-file domain.
pub fault_handler-liveset :
    (cfg : Config) (run : FhRun) (d : Daemon)
    → cfg.hostnum ≤ max_host_num
    → IsQuiet run.sleep
    → AllQuiet (run.wakes 6)
    → AllQuiet (run.wakes 7)
    → IsArmed d
    → ((wins_first cfg d || wins_second cfg d) ≡ false
        → (check_survival cfg d).exited ≡ some error_sm_survivalrule_failed)
      × ((wins_first cfg d || wins_second cfg d) ≡ true
          → (e : Daemon)
          → rendezvous cfg fh3done fh4 fh4done true false
              (run.wakes 6)
              (run.wakes 7)
              (check_survival cfg d)
            ≡ some e
          → (j : ℕ) → j < cfg.hostnum
          → is_on (update_liveset cfg run e).sm.current_liveset j ≡ (
              is_on d.sm.current_liveset j
              && (is_on d.sm.proposed_liveset j
                  && is_on (hbd cfg d) j
                  && ((if wins_first cfg d then d.var.sr2 else true) || is_on (sfd cfg d) j))))
unfolding check_survival
fault_handler-liveset cfg run d few quiet wakes6 wakes7 armed =
    let (verdict, current, cut, kept) = test_survival_rule_lem cfg d in
    let still = test_survival_rule-IsArmed cfg d armed in
    let tested = (test_survival_rule cfg d).1 in
    (
      λ lost. rw (verdict, lost) (self_fence-armed _ _ still),
      λ won.
          rw (verdict, won)
            (λ e met j lt.
              let (now, proposed, ready) = given (IsKept tested) _ e met (
                rendezvous-IsKept cfg fh3done fh4 fh4done true false (run.wakes 6) (run.wakes 7)
                  tested wakes6 wakes7) in
              ground (
                arith,
                update_liveset_lem cfg run quiet e j (ready still) (omega arith),
                now,
                proposed,
                current,
                cut (rw verdict won) (rw armed.1 refl) j lt,
              )),
    )
