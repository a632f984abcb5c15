-- ===== src/LockMgr/Exclusion.antt =====
-- Why at most one requesting host has the lock of daemon/lock_mgr.c.
use xha.Prelude.{
  ℕ, ◌<◌, ◌≡◌, true, false, not, ◌&&◌, ◌||◌, ◌==◌, leb, if◌then◌else◌, arith, Bool-cases, inl, inr,
  if-elim, ℕ_discrete, dec_lt, subst, sym,
}
use xha.Prelude.Hosts.{for_hosts_inv, all_hosts_elim}
use xha.HostMap.{HostMap, is_on}
use xha.HostMap.Laws.{is_on-set, is_on-reset}
use xha.Config.{Config}
use xha.Data.{ComSf, LmFields}
use xha.LockMgr.{
  LmVar, is_online, am_i_ready_to_request, is_locked, cancel_grants, grant_others, next_own,
  lock_round,
}

-- While host `me` requests the lock, it grants it to no online host of lower priority.
unfoldable pub IsPolite : HostMap → ℕ → ℕ → LmFields → Type 0
IsPolite liveset hostnum me own =
    own.request ≡ true
    → (i : ℕ) → me < i
    → i < hostnum
    → is_on liveset i ≡ true
    → is_on own.grant i ≡ false

module _ (cfg : Config) (v : LmVar) where
  cancel_grants_lem :
      (grant : HostMap) (i : ℕ)
      → is_on grant i ≡ false
      → is_on (cancel_grants cfg v grant) i ≡ false
  unfolding cancel_grants
  cancel_grants_lem grant i off =
      for_hosts_inv (λ k g. is_on g i ≡ false) cfg.hostnum _ grant off
        (λ k g lt h. ground (arith, h, is_on-reset g k i))

  grant_others_lem :
      (grant : HostMap) (i : ℕ)
      → cfg.my_index < i
      → is_on grant i ≡ false
      → is_on (grant_others cfg v true grant) i ≡ false
  unfolding grant_others
  grant_others_lem grant i lower off =
      for_hosts_inv (λ k g. is_on g i ≡ false) cfg.hostnum _ grant off
        (λ k g lt h. ground (arith, h, is_on-set g k i))

  ready_lem :
      am_i_ready_to_request cfg v ≡ true
      → (i : ℕ) → cfg.my_index < i
      → i < cfg.hostnum
      → is_on v.sm.current_liveset i ≡ true
      → is_on (v.sf.lm cfg.my_index).grant i ≡ false
  unfolding am_i_ready_to_request is_online
  ready_lem ready i lower lt on = ground (
    arith,
    all_hosts_elim cfg.hostnum
        (λ index.
          if not (leb index cfg.my_index) && is_on v.sm.current_liveset index
          then not (is_on (v.sf.lm cfg.my_index).grant index)
          else true)
        (ground (arith, ready)) i lt,
  )

  next_own-IsPolite :
      (own : LmFields)
      → (v.sf.lm cfg.my_index).grant ≡ own.grant
      → IsPolite v.sm.current_liveset cfg.hostnum cfg.my_index own
      → IsPolite v.sm.current_liveset cfg.hostnum cfg.my_index (next_own cfg v own)
  unfolding next_own IsPolite
  next_own-IsPolite own same polite asks i lower lt on =
      subst (λ r. is_on (grant_others cfg v r (cancel_grants cfg v own.grant)) i ≡ false) (sym asks)
        (grant_others_lem (cancel_grants cfg v own.grant) i lower
          (cancel_grants_lem own.grant i off))
    where
      ready_off : am_i_ready_to_request cfg v ≡ true → is_on own.grant i ≡ false
      ready_off ready = subst (λ g. is_on g i ≡ false) same (ready_lem ready i lower lt on)

      still_off : own.request ≡ true → is_on own.grant i ≡ false
      still_off asked = polite asked i lower lt on

      off : is_on own.grant i ≡ false
      off = elim (Bool-cases (am_i_ready_to_request cfg v)) [
        | inl ready ↦ ready_off ready
        | inr busy ↦ still_off (ground (arith, busy, asks))
      ]

-- A round of the lock manager whose copy of this host's grants is up to date keeps the host polite:
-- while it requests the lock, it grants it to no online host of lower priority.
pub lock_round-IsPolite :
    (cfg : Config) (v : LmVar) (psf : ComSf)
    → (v.sf.lm cfg.my_index).grant ≡ (psf.lm cfg.my_index).grant
    → IsPolite v.sm.current_liveset cfg.hostnum cfg.my_index (psf.lm cfg.my_index)
    → IsPolite v.sm.current_liveset cfg.hostnum cfg.my_index
        ((lock_round cfg v psf).1.lm cfg.my_index)
unfolding lock_round
lock_round-IsPolite cfg v psf same polite =
    if-elim
      (λ (r : LmVar × ComSf).
        IsPolite v.sm.current_liveset cfg.hostnum cfg.my_index (r.1.lm cfg.my_index))
      (not v.sf.sf_access || not (is_online v cfg.my_index)) (λ idle. polite)
      (λ runs.
        if-elim (IsPolite v.sm.current_liveset cfg.hostnum cfg.my_index)
          (cfg.my_index == cfg.my_index)
          (λ own. next_own-IsPolite cfg v (psf.lm cfg.my_index) same polite) (λ other. polite))

-- In a table in which every host that requests the lock grants it to no online host of lower
-- priority, two hosts of one liveset, both requesting, that both find in this table that they have
-- the lock are one.
pub lock_exclusive :
    (cfg : Config) (lm : ℕ → LmFields) (v w : LmVar) (a b : ℕ)
    → v.sf.lm ≡ lm
    → w.sf.lm ≡ lm
    → w.sm.current_liveset ≡ v.sm.current_liveset
    → a < cfg.hostnum
    → b < cfg.hostnum
    → ((m : ℕ) → IsPolite v.sm.current_liveset cfg.hostnum m (lm m))
    → (lm a).request ≡ true
    → (lm b).request ≡ true
    → is_locked cfg v a ≡ true
    → is_locked cfg w b ≡ true
    → a ≡ b
unfolding IsPolite is_locked is_online
lock_exclusive cfg lm v w a b ev ew live al bl polite asks_a asks_b has_a has_b =
    elim (ℕ_discrete a b) [
      | yes one ↦ one
      | no two ↦ elim (dec_lt a b) [
        | yes below ↦ absurd (
            ground (
              arith,
              polite a asks_a b below bl (ground (arith, has_b, live)),
              all_hosts_elim cfg.hostnum
                  (λ i. if is_on w.sm.current_liveset i then is_on (w.sf.lm i).grant b else true)
                  (ground (arith, has_b)) a al,
              has_a,
              live,
              ew,
            ))
        | no above ↦ absurd (
            ground (
              arith,
              polite b asks_b a (omega arith) al (ground (arith, has_a)),
              all_hosts_elim cfg.hostnum
                  (λ i. if is_on v.sm.current_liveset i then is_on (v.sf.lm i).grant a else true)
                  (ground (arith, has_a)) b bl,
              has_b,
              live,
              ev,
            ))
      ]
    ]
