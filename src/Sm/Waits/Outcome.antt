-- ===== src/Sm/Waits/Outcome.antt =====
-- What the waits of daemon/sm.c have established when they return.
use xha.Prelude.{
  ℕ, ◌<◌, ◌≡◌, ◌≢◌, refl, ap, Bool, true, false, ◌||◌, ◌==◌, [], ◌∷◌, arith, Bool-cases, inl, inr,
}
use xha.Prelude.Hosts.{all_hosts_elim, all_hosts-false}
use xha.HostMap.{is_on}
use xha.HostMap.Laws.{is_on-set, is_on-reset}
use xha.Config.{Config}
use xha.Data.{Status, success, error_sm_join_failed, Daemon}
use xha.Sm.Signals.{sm_sm_updated}
use xha.Sm.Waits.{Wakes, do_wait, is_joined, send_join, finish_join, join}

-- The answer of a wait is that of its last test.
pub do_wait-test :
    (test : Daemon → Bool) (wakes : Wakes) (d : Daemon)
    → test (do_wait test wakes d).1 ≡ (do_wait test wakes d).0
unfolding do_wait
do_wait-test test [] d = refl
do_wait-test test (wake ∷ wakes) d = ground (arith, do_wait-test test wakes (wake d))

module _ (cfg : Config) (d : Daemon) where
  is_joined_elim :
      is_joined cfg d ≡ true
      → (j : ℕ) → j < cfg.hostnum
      → j ≢ cfg.my_index
      → is_on d.sm.current_liveset j ≡ true
      → is_on (d.hb.raw j).proposed_liveset cfg.my_index ≡ true
  unfolding is_joined
  is_joined_elim h j lt ne on = ground (arith, all_hosts_elim cfg.hostnum _ h j lt)

  is_joined-false :
      is_joined cfg d ≡ false
      → (j : ℕ) × (j < cfg.hostnum)
        × (j ≢ cfg.my_index)
        × (is_on d.sm.current_liveset j ≡ true)
        × (is_on (d.hb.raw j).proposed_liveset cfg.my_index ≡ false)
  unfolding is_joined
  is_joined-false h =
      let (j, lt, bad) = all_hosts-false cfg.hostnum _ h in
      (j, lt, ground (arith, bad), ground arith, ground arith)

  -- What is left of a join that succeeded, and of one that failed.
  finish_join-true :
      ((finish_join cfg true d).hb.join ≡ false)
      × ((j : ℕ)
          → is_on (finish_join cfg true d).sm.current_liveset j
            ≡ ((cfg.my_index == j) || is_on d.sm.current_liveset j))
  unfolding finish_join sm_sm_updated
  finish_join-true =
      (ground arith, λ j. ground (arith, is_on-set d.sm.current_liveset cfg.my_index j))

  finish_join-false :
      ((finish_join cfg false d).hb.join ≡ false)
      × ((finish_join cfg false d).sm.current_liveset ≡ d.sm.current_liveset)
      × (is_on (finish_join cfg false d).sm.proposed_liveset cfg.my_index ≡ false)
  unfolding finish_join sm_sm_updated
  finish_join-false = (
    ground arith,
    ground arith,
    ground (arith, is_on-reset d.sm.proposed_liveset cfg.my_index cfg.my_index),
  )

module _ (cfg : Config) (wakes : Wakes) (d : Daemon) where
  -- The daemon when join last looked at the answers of the members.
  abbrev pub at_decision : Daemon
  at_decision = (do_wait (is_joined cfg) wakes (send_join cfg d)).1

  joins :
      d.hb.join ≡ true
      → (do_wait (is_joined cfg) wakes (send_join cfg d)).0 ≡ true
      → join cfg wakes d ≡ (success, finish_join cfg true at_decision)
  unfolding join
  joins asked ok = simp (asked, ok)

  fails :
      d.hb.join ≡ true
      → (do_wait (is_joined cfg) wakes (send_join cfg d)).0 ≡ false
      → join cfg wakes d ≡ (error_sm_join_failed, finish_join cfg false at_decision)
  unfolding join
  fails asked failed = simp (asked, failed)

  -- A requested join ends in one of two ways. It succeeds if every other member of the liveset
  -- proposes a liveset with this host; then this host enters the liveset, and no other. It fails if
  -- some other member does not; then the liveset stays, and this host leaves its own proposal.
  -- Either way the request is withdrawn.
  pub join_lem :
      d.hb.join ≡ true
      → ((join cfg wakes d).1.hb.join ≡ false)
        × ((join cfg wakes d).0 ≡ success
            → ((j : ℕ)
                → j < cfg.hostnum
                → j ≢ cfg.my_index
                → is_on at_decision.sm.current_liveset j ≡ true
                → is_on (at_decision.hb.raw j).proposed_liveset cfg.my_index ≡ true)
              × ((j : ℕ)
                  → is_on (join cfg wakes d).1.sm.current_liveset j
                    ≡ ((cfg.my_index == j) || is_on at_decision.sm.current_liveset j)))
        × ((join cfg wakes d).0 ≢ success
            → ((j : ℕ) × (j < cfg.hostnum)
                × (j ≢ cfg.my_index)
                × (is_on at_decision.sm.current_liveset j ≡ true)
                × (is_on (at_decision.hb.raw j).proposed_liveset cfg.my_index ≡ false))
              × ((join cfg wakes d).1.sm.current_liveset ≡ at_decision.sm.current_liveset)
              × (is_on (join cfg wakes d).1.sm.proposed_liveset cfg.my_index ≡ false))
  join_lem asked = elim (Bool-cases (do_wait (is_joined cfg) wakes (send_join cfg d)).0) [
    | inl ok ↦
        let (quiet, live) = finish_join-true cfg at_decision in
        (
          rw (joins asked ok) quiet,
          λ good. (is_joined_elim cfg at_decision (rw last ok), rw (joins asked ok) live),
          λ bad. absurd (bad (rw (joins asked ok))),
        )
    | inr failed ↦
        let (quiet, live, mine) = finish_join-false cfg at_decision in
        (
          rw (fails asked failed) quiet,
          λ good.
              absurd (ground (arith, good, ap (λ (r : Status × Daemon). r.0) (fails asked failed))),
          λ bad. (
            is_joined-false cfg at_decision (rw last failed),
            rw (fails asked failed) live,
            rw (fails asked failed) mine,
          ),
        )
  ]
    where
      last : is_joined cfg at_decision ≡ (do_wait (is_joined cfg) wakes (send_join cfg d)).0
      last = do_wait-test (is_joined cfg) wakes (send_join cfg d)
