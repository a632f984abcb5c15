-- ===== src/Sm/Worker.antt =====
-- sm_worker of daemon/sm.c: the second thread of the State Manager, which watches the pool.
use xha.Prelude.{ℕ, ◌≡◌, Bool, true, false, if◌then◌else◌, if-elim, arith, refl, ◌∙◌}
use xha.Prelude.Int.{ℤ}
use xha.HostMap.{is_on}
use xha.Config.{Config}
use xha.Data.{msleep, Status, error_sm_invalid_pool_state, error_sm_invalid_init_pool_state, Daemon}
use xha.Sm.Control.{call, check_pool_state, get_pool_state, sm_abort}
use xha.Sm.Domain.{update_sfdomain, update_sfdomain_sub}
use xha.Sm.Fault.{start_fh}
use xha.Sm.Join.{process_join_request}
use xha.Sm.Join.Admission.{process_join_request_admits}
use xha.Sm.Signals.{sm_sm_updated, sm_hb_updated, sm_sf_updated}
use xha.Sm.Survival.{surviving_by_sr2, is_recovered}
use xha.Sm.Survival.Rule.{sm_sm_updated-livesets}

abbrev pub sm_worker_interval : ℕ
sm_worker_interval = 100

module _ (cfg : Config) where
  -- One round of the loop, at the time `now`.
  unfoldable pub sm_worker_round : ℤ → Daemon → Daemon
  sm_worker_round now d =
      let (changed, scanned) =
        update_sfdomain cfg now (check_pool_state (call (msleep sm_worker_interval) d)) in
      let asked = if changed then start_fh cfg false scanned else scanned in
      let joined = process_join_request cfg asked in
      if joined.var.sr2 then surviving_by_sr2 cfg joined else joined

sm_abort-liveset :
    (own : Bool) (code : Status) (d : Daemon)
    → (sm_abort own code d).sm.current_liveset ≡ d.sm.current_liveset
unfolding sm_abort sm_hb_updated sm_sf_updated sm_sm_updated
sm_abort-liveset own code d = ground arith

abbrev Keeps : Daemon → Daemon → Type 0
Keeps d e = e.sm.current_liveset ≡ d.sm.current_liveset

check_pool_state-liveset : (d : Daemon) → Keeps d (check_pool_state d)
unfolding check_pool_state get_pool_state
check_pool_state-liveset d = ground (
  arith,
  sm_abort-liveset false error_sm_invalid_pool_state d,
  sm_abort-liveset false error_sm_invalid_init_pool_state d,
)

update_sfdomain-liveset :
    (cfg : Config) (now : ℤ) (d : Daemon) → Keeps d (update_sfdomain cfg now d).1
unfolding update_sfdomain sm_sf_updated
update_sfdomain-liveset cfg now d =
    if-elim (λ (r : Bool × Daemon). Keeps d r.1)
      (update_sfdomain_sub cfg now d.var.join_block (λ i. 0) false d.sf).changed (λ c. refl)
      (λ c. refl)

start_fh-liveset : (cfg : Config) (d : Daemon) → Keeps d (start_fh cfg false d)
unfolding start_fh sm_sf_updated sm_hb_updated
start_fh-liveset cfg d = ground arith

surviving_by_sr2-liveset : (cfg : Config) (d : Daemon) → Keeps d (surviving_by_sr2 cfg d)
unfolding surviving_by_sr2
surviving_by_sr2-liveset cfg d =
    if-elim (Keeps d) (is_recovered cfg d) (λ c. (sm_sm_updated-livesets false _).0) (λ c. refl)

-- The worker never takes a host out of the liveset.
pub sm_worker_round-grows :
    (cfg : Config) (now : ℤ) (d : Daemon) (j : ℕ)
    → is_on d.sm.current_liveset j ≡ true
    → is_on (sm_worker_round cfg now d).sm.current_liveset j ≡ true
unfolding sm_worker_round
sm_worker_round-grows cfg now d j on =
    let checked = check_pool_state (call (msleep sm_worker_interval) d) in
    let (changed, scanned) = update_sfdomain cfg now checked in
    let asked = if changed then start_fh cfg false scanned else scanned in
    let kept : Keeps d asked =
      if-elim (Keeps d) changed
        (λ c.
          start_fh-liveset cfg scanned
          ∙ update_sfdomain-liveset cfg now checked
          ∙ check_pool_state-liveset _)
        (λ c. update_sfdomain-liveset cfg now checked ∙ check_pool_state-liveset _) in
    let grown = (process_join_request_admits cfg asked j).0 (rw kept on) in
    if-elim (λ (e : Daemon). is_on e.sm.current_liveset j ≡ true)
      (process_join_request cfg asked).var.sr2
      (λ c. rw (surviving_by_sr2-liveset cfg (process_join_request cfg asked)) grown) (λ c. grown)
