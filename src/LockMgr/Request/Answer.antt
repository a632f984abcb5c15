-- ===== src/LockMgr/Request/Answer.antt =====
-- What the answer of lm_request_lock says of the lock.
use xha.Prelude.{
  ℕ, ◌≡◌, ◌≢◌, ◌⊎◌, inl, inr, refl, sym, subst, Bool, true, false, not, ◌||◌, ◌==◌, Option, none,
  some, [], ◌∷◌, ◌++◌, arith, Option-cases, if-elim, ==_iff,
}
use xha.Prelude.Hosts.{find_host-some}
use xha.HostWeight.{Str}
use xha.Config.{Config}
use xha.LockMgr.{LmVar, is_locked, get_lock_node}
use xha.LockMgr.Request.{
  Wakes, LmAnswer, is_requesting, unless_locked, wait_lock, wait_cleanup, finish_request,
  finish_wait, after_cleanup, request_lock, lm_request_lock,
}

still_there :
    (asking : Bool) {access : Bool} → access ≡ false → (not asking || not access) ≡ false → ⊥
still_there asking lost waiting = ground (arith, lost, waiting)

wait_cleanup_done :
    (wakes : Wakes) (v : LmVar)
    → v.first_cleanup_done ≡ true
    → wait_cleanup wakes v ≡ some (wakes, v)
unfolding wait_cleanup
wait_cleanup_done [] v clean = rw clean refl
wait_cleanup_done (wake ∷ wakes) v clean = rw clean refl

module _ (cfg : Config) where
  get_lock_node-is_locked :
      (v : LmVar) {index : ℕ} → get_lock_node cfg v ≡ some index → is_locked cfg v index ≡ true
  unfolding get_lock_node
  get_lock_node-is_locked v {index} found =
      let (lt, locked, first) = find_host-some cfg.hostnum (is_locked cfg v) {i = index} found in
      locked

  -- A host that the wait names has the lock.
  abbrev IsNamed : Option ℕ × LmVar → Type 0
  IsNamed (some index, w) = is_locked cfg w index ≡ true
  IsNamed (none, w) = Unit

  -- Once access is lost, the wait ends.
  abbrev IsEnded : Option (Option ℕ × LmVar) → Type 0
  IsEnded o = (woken : Option ℕ × LmVar) × (o ≡ some woken) × IsNamed woken

  unless_locked-IsEnded :
      (v : LmVar) (next : Option (Option ℕ × LmVar))
      → IsEnded next
      → IsEnded (unless_locked (get_lock_node cfg v) v next)
  unless_locked-IsEnded v next h = elim (Option-cases (get_lock_node cfg v)) [
    | inl free ↦ subst (λ o. IsEnded (unless_locked o v next)) (sym free) h
    | inr (index, found) ↦
        subst (λ o. IsEnded (unless_locked o v next)) (sym found)
          ((some index, v), refl, get_lock_node-is_locked v found)
  ]

  wait_lock-IsEnded :
      (lose : LmVar → LmVar)
      → ((u : LmVar) → (lose u).sf.sf_access ≡ false)
      → (wakes : Wakes) (v : LmVar) → IsEnded (wait_lock cfg (wakes ++ lose ∷ []) v)
  unfolding wait_lock
  wait_lock-IsEnded lose loses [] v = unless_locked-IsEnded v _ (
      if-elim IsEnded (not (is_requesting (lose v) cfg.my_index) || not (lose v).sf.sf_access)
        (λ canceled. ((none, lose v), refl, tt))
        (λ waiting. absurd (still_there _ (loses v) waiting)))
  wait_lock-IsEnded lose loses (wake ∷ wakes) v = unless_locked-IsEnded v _ (
      if-elim IsEnded (not (is_requesting (wake v) cfg.my_index) || not (wake v).sf.sf_access)
        (λ canceled. ((none, wake v), refl, tt))
        (λ waiting. wait_lock-IsEnded lose loses wakes (wake v)))

  -- TRUE is answered with the lock held and the master handed over; FALSE without the master, and
  -- with another host that has the lock or the request given up.
  pub record IsAnswer (uuid : Str) (a : LmAnswer) : Type 0 where
    pub held : a.result ≡ true → (is_locked cfg a.var cfg.my_index ≡ true) × (a.master ≡ some uuid)
    pub refused :
        a.result ≡ false
        → (a.master ≡ none)
          × ((a.var.cancel_request ≡ true)
              ⊎ ((other : ℕ) × (other ≢ cfg.my_index) × (is_locked cfg a.var other ≡ true)))

  abbrev pub IsReturned : Str → Option LmAnswer → Type 0
  IsReturned uuid o = (a : LmAnswer) × (o ≡ some a) × IsAnswer uuid a

  finish_request-IsAnswer :
      (uuid : Str) (woken : Option ℕ × LmVar)
      → IsNamed woken
      → IsAnswer uuid (finish_request cfg uuid woken)
  unfolding finish_request
  finish_request-IsAnswer uuid (none, w) h = record {
    held = λ e. absurd (ground (arith, e));
    refused = λ e. (refl, inl refl);
  }
  finish_request-IsAnswer uuid (some index, w) h =
      if-elim (IsAnswer uuid) (index == cfg.my_index)
        (λ mine. record {
          held = λ e.
              (subst (λ i. is_locked cfg w i ≡ true) ((==_iff index cfg.my_index).0 mine) h, refl);
          refused = λ e. absurd (ground (arith, e));
        })
        (λ theirs. record {
          held = λ e. absurd (ground (arith, e));
          refused = λ e. (refl, inl refl);
        })

  request_lock-IsReturned :
      (uuid : Str) (lose : LmVar → LmVar)
      → ((u : LmVar) → (lose u).sf.sf_access ≡ false)
      → (wakes : Wakes) (v : LmVar) (o : Option ℕ) → get_lock_node cfg v ≡ o
      → IsReturned uuid (request_lock cfg uuid o (wakes ++ lose ∷ []) v)
  unfolding request_lock finish_wait
  request_lock-IsReturned uuid lose loses wakes v (some index) found =
      if-elim (IsReturned uuid) (index == cfg.my_index)
        (λ mine. (
          _,
          refl,
          record {
            held = λ e. (
              subst (λ i. is_locked cfg v i ≡ true) ((==_iff index cfg.my_index).0 mine)
                  (get_lock_node-is_locked v found),
              refl,
            );
            refused = λ e. absurd (ground (arith, e));
          },
        ))
        (λ theirs. (
          _,
          refl,
          record {
            held = λ e. absurd (ground (arith, e));
            refused =
                λ e. (refl, inr (index, ground (arith, theirs), get_lock_node-is_locked v found));
          },
        ))
  request_lock-IsReturned uuid lose loses wakes v none free =
      let (woken, ended, named) =
        wait_lock-IsEnded lose loses wakes (record v { pending_request = true }) in
      subst (λ o. IsReturned uuid (finish_wait cfg uuid o)) (sym ended)
        (_, refl, finish_request-IsAnswer uuid woken named)

  -- When the first cleanup is done, and the waits of the request end with a loss of access to the
  -- state file if they do not end before, lm_request_lock returns. It answers TRUE with the lock
  -- held by this host and its UUID handed over as the master's; it answers FALSE with no master
  -- handed over, and with the lock held by another host or the cancellation of the request asked
  -- for.
  pub lm_request_lock_lem :
      (uuid : Str) (lose : LmVar → LmVar) (wakes : Wakes) (v : LmVar)
      → ((u : LmVar) → (lose u).sf.sf_access ≡ false)
      → v.first_cleanup_done ≡ true
      → (a : LmAnswer) × (lm_request_lock cfg uuid (wakes ++ lose ∷ []) v ≡ some a)
        × IsAnswer uuid a
  unfolding lm_request_lock after_cleanup
  lm_request_lock_lem uuid lose wakes v loses clean =
      subst (λ o. IsReturned uuid (after_cleanup cfg uuid o))
        (sym (wait_cleanup_done (wakes ++ lose ∷ []) v clean))
        (request_lock-IsReturned uuid lose loses wakes v (get_lock_node cfg v) refl)
