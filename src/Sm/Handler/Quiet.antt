-- ===== src/Sm/Handler/Quiet.antt =====
-- What stays of the livesets and the fencing during a rendezvous of fault_handler of daemon/sm.c,
-- when the other threads leave them alone.
use xha.Prelude.{
  ◌≡◌, refl, subst, ◌∙◌, Bool, true, if-elim, if◌then◌else◌, [], ◌∷◌, Option, none, some, arith,
}
use xha.Config.{Config}
use xha.Data.{SmPhase, fencing_armed, Status, hb_send_hb_now, hb_sf_cancel_accelerate, Daemon}
use xha.Sm.Control.{call, set_sm_phase}
use xha.Sm.Signals.{sm_sm_updated}
use xha.Sm.Survival.Rule.{sm_sm_updated-livesets}
use xha.Sm.Waits.{Wakes}
use xha.Sm.Handler.{
  go_on, rendezvous_loop, is_rendezvous, rendezvous_wait, rendezvous,
  hb_acceleration_count_rendezvous,
}

-- Fencing is armed, in the common object and in the State Manager.
abbrev pub IsArmed : Daemon → Type 0
IsArmed d = (d.sm.fencing ≡ fencing_armed) × (d.var.fencing ≡ fencing_armed)

-- The releases of the common objects leave armed fencing armed.
pub sm_sm_updated-IsArmed : (own : Bool) (d : Daemon) → IsArmed d → IsArmed (sm_sm_updated own d)
unfolding sm_sm_updated
sm_sm_updated-IsArmed own d armed = ground (arith, armed.0, armed.1)

-- What other threads do leaves the livesets and armed fencing alone.
pub record IsQuiet (f : Daemon → Daemon) : Type 0 where
  pub current : (d : Daemon) → (f d).sm.current_liveset ≡ d.sm.current_liveset
  pub proposed : (d : Daemon) → (f d).sm.proposed_liveset ≡ d.sm.proposed_liveset
  pub armed : (d : Daemon) → IsArmed d → IsArmed (f d)

-- What stays of a daemon while only quiet threads run.
abbrev pub IsKept : Daemon → Daemon → Type 0
IsKept d e =
    (e.sm.current_liveset ≡ d.sm.current_liveset)
    × (e.sm.proposed_liveset ≡ d.sm.proposed_liveset)
    × (IsArmed d → IsArmed e)

abbrev pub AllQuiet : Wakes → Type 0
AllQuiet [] = Unit
AllQuiet (wake ∷ wakes) = IsQuiet wake × AllQuiet wakes

quiet-IsKept : (f : Daemon → Daemon) (d e : Daemon) → IsQuiet f → IsKept d e → IsKept d (f e)
quiet-IsKept f d e q (current, proposed, armed) =
    (q.current e ∙ current, q.proposed e ∙ proposed, λ h. q.armed e (armed h))

-- A predicate on what a wait gives, if it ends.
abbrev pub Gives : (Daemon → Type 0) → Option Daemon → Type 0
Gives P none = Unit
Gives P (some d) = P d

pub given : (P : Daemon → Type 0) (o : Option Daemon) (d : Daemon) → o ≡ some d → Gives P o → P d
given P o d e h = subst (Gives P) e h

rendezvous_loop-IsKept :
    (cfg : Config) (test : Daemon → Bool) (wakes : Wakes) (d0 d : Daemon)
    → AllQuiet wakes
    → IsKept d0 d
    → Gives (IsKept d0) (rendezvous_loop cfg test wakes d)
unfolding rendezvous_loop
rendezvous_loop-IsKept cfg test [] d0 d q kept = tt
rendezvous_loop-IsKept cfg test (wake ∷ wakes) d0 d (q, qs) kept =
    if-elim (Gives (IsKept d0)) (test d) (λ met. quiet-IsKept wake d0 d q kept)
      (λ alone.
        rendezvous_loop-IsKept cfg test wakes d0 (wake d) qs (quiet-IsKept wake d0 d q kept))

set_sm_phase-IsKept : (p : SmPhase) (d0 d : Daemon) → IsKept d0 d → IsKept d0 (set_sm_phase p d)
unfolding set_sm_phase
set_sm_phase-IsKept p d0 d (current, proposed, armed) =
    let d' = record d { sm = record (d.sm) { phase = p }; var = record (d.var) { phase = p } } in
    let (cur, prop) = sm_sm_updated-livesets true d' in
    (cur ∙ current, prop ∙ proposed, λ h. sm_sm_updated-IsArmed true d' (armed h))

go_on-Gives :
    (P R : Daemon → Type 0) (o : Option Daemon) (next : Daemon → Option Daemon)
    → Gives P o
    → ((d : Daemon) → P d → R d)
    → ((d : Daemon) → P d → Gives R (next d))
    → Gives R (go_on o next)
unfolding go_on
go_on-Gives P R none next h ended more = tt
go_on-Gives P R (some d) next h ended more = exits d.exited
  where
    exits : (x : Option Status) → Gives R (elim x [ none ↦ next d | some code ↦ some d ])
    exits none = more d h
    exits (some code) = ended d h

module _ (cfg : Config) where
  rendezvous_wait-IsKept :
      (p1 p2 : SmPhase) (hb sf : Bool) (wakes : Wakes) (d0 d : Daemon)
      → AllQuiet wakes
      → IsKept d0 d
      → Gives (IsKept d0) (rendezvous_wait cfg p1 p2 hb sf wakes d)
  unfolding rendezvous_wait
  rendezvous_wait-IsKept p1 p2 hb sf wakes d0 d q kept = cancels _ (
      rendezvous_loop-IsKept cfg (is_rendezvous cfg p1 p2 hb sf) wakes d0 _ q
        (if-elim (IsKept d0) sf (λ on. called) (λ off. called)))
    where
      called :
          IsKept d0 (if hb then call (hb_send_hb_now hb_acceleration_count_rendezvous) d else d)
      called = if-elim (IsKept d0) hb (λ on. kept) (λ off. kept)

      cancels :
          (o : Option Daemon)
          → Gives (IsKept d0) o
          → Gives (IsKept d0) (elim o [
            | none ↦ none
            | some e ↦ some (if sf then call hb_sf_cancel_accelerate e else e)
          ])
      cancels none h = tt
      cancels (some e) h = if-elim (IsKept d0) sf (λ on. h) (λ off. h)

  pub rendezvous-IsKept :
      (p1 p2 p3 : SmPhase) (hb sf : Bool) (first second : Wakes) (d : Daemon)
      → AllQuiet first
      → AllQuiet second
      → Gives (IsKept d) (rendezvous cfg p1 p2 p3 hb sf first second d)
  unfolding rendezvous
  rendezvous-IsKept p1 p2 p3 hb sf first second d q1 q2 =
      go_on-Gives (IsKept d) (IsKept d) _ _
        (rendezvous_wait-IsKept p1 p2 hb sf first d (set_sm_phase p1 d) q1
          (set_sm_phase-IsKept p1 d d (refl, refl, λ h. h)))
        (λ e h. h)
        (λ e h.
          rendezvous_wait-IsKept p2 p3 hb sf second d (set_sm_phase p2 e) q2
            (set_sm_phase-IsKept p2 d e h))
