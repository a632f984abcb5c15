-- ===== src/Sm/Signals/Waiting.antt =====
-- sm_wait_signals_sm_hb_sf of daemon/sm.c: when it returns, and what it returns.
use xha.Prelude.{
  ◌≡◌, ◌≢◌, Bool, true, false, ◌&&◌, ◌||◌, some, List, [], ◌∷◌, arith, ◌⊎◌, Bool-cases, inl, inr,
}
use xha.Prelude.Int.{ℤ, pos, ◌-ℤ◌, ltb_ℤ}
use xha.Data.{SmVar}
use xha.Sm.Signals.{Sigs, Round, send_signals, check_sigs, wait_loop, wait_signals}

-- A signal that is asked for is pending.
abbrev pub pending : Sigs → SmVar → Bool
pending s v = s.sm_sig && v.sm_sig || s.hb_sig && v.hb_sig || s.sf_sig && v.sf_sig

-- A round in which the wait has run out of time.
abbrev pub Expired : ℤ → ℤ → List Round → Type 0
Expired timeout start [] = ⊥
Expired timeout start (r ∷ rounds) =
    (ltb_ℤ (r.clock -ℤ start) timeout ≡ false) ⊎ Expired timeout start rounds

module _ (s : Sigs) (timeout start : ℤ) where
  check_sigs-pending : (v : SmVar) → pending s (check_sigs s v).1 ≡ false
  unfolding check_sigs
  check_sigs-pending v = ground arith

  wait_loop-returns :
      (rounds : List Round) (v : SmVar)
      → ltb_ℤ timeout (pos 0) ≡ false
      → Expired timeout start rounds
      → (r : Bool × SmVar) × (wait_loop s timeout start rounds v ≡ some r)
  unfolding wait_loop
  wait_loop-returns [] v bounded e = absurd e
  wait_loop-returns (r ∷ rounds) v bounded e =
      let v' = check_sigs s (send_signals r.arrived v) in
      elim (Bool-cases v'.0) [
        | inl signaled ↦ ((true, v'.1), ground arith)
        | inr quiet ↦ elim (Bool-cases (ltb_ℤ (r.clock -ℤ start) timeout)) [
          | inr late ↦ ((false, v'.1), ground arith)
          | inl early ↦
              let (res, eq) = wait_loop-returns rounds v'.1 bounded (ground (arith, e)) in
              (res, ground (arith, eq))
        ]
      ]

  wait_loop-pending :
      (rounds : List Round) (v : SmVar) {b : Bool} {v' : SmVar}
      → wait_loop s timeout start rounds v ≡ some (b, v')
      → pending s v' ≡ false
  unfolding wait_loop
  wait_loop-pending [] v h = cc
  wait_loop-pending (r ∷ rounds) v {b} {v'} h =
      let w = check_sigs s (send_signals r.arrived v) in
      ground (
        arith,
        check_sigs-pending (send_signals r.arrived v),
        wait_loop-pending rounds w.1 {b = b} {v' = v'},
      )

  -- For a wait whose time is not 0: with a time limit it returns once the clock has passed the
  -- limit. Whenever it returns, the signals that it was for have been consumed; and it returns TRUE
  -- at the first test if one of them was pending at the call.
  pub wait_signals_lem :
      timeout ≢ pos 0
      → ((rounds : List Round) (v : SmVar)
          → ltb_ℤ timeout (pos 0) ≡ false
          → Expired timeout start rounds
          → (r : Bool × SmVar) × (wait_signals s timeout start rounds v ≡ some r))
        × ((rounds : List Round) (v v' : SmVar) (b : Bool)
            → wait_signals s timeout start rounds v ≡ some (b, v')
            → pending s v' ≡ false)
        × ((r : Round) (rounds : List Round) (v : SmVar)
            → pending s v ≡ true
            → (v' : SmVar) × (wait_signals s timeout start (r ∷ rounds) v ≡ some (true, v')))
  unfolding wait_signals
  wait_signals_lem ne = (
    λ rounds v bounded e.
        let (r, eq) = wait_loop-returns rounds v bounded e in (r, ground (arith, ne, eq)),
    λ rounds v v' b h. wait_loop-pending rounds v {b = b} {v' = v'} (ground (arith, ne, h)),
    λ r rounds v h.
        ((check_sigs s (send_signals r.arrived v)).1, unfold wait_loop in ground (arith, ne, h)),
  )
