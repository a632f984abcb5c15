-- ===== src/StateFile/Round.antt =====
-- A round of sfthread after sf_set_pool_state: what becomes of the request.
use xha.Prelude.{
  ℕ, ◌≡◌, inl, inr, refl, ap, ◌∙◌, Bool, true, false, ◌&&◌, if◌then◌else◌, none, some, if-elim,
  arith,
}
use xha.HostWeight.{Str}
use xha.Prelude.Int.{ℤ}
use xha.Config.{Config}
use xha.Data.{Status, error_sf_pending_write, PoolState}
use xha.Sm.Start.{is_success}
use xha.Sm.Signals.{sm_sf_updated}
use xha.StateFile.{GlobalSection, HostSection, Layout, SfState}
use xha.StateFile.Io.{sf_writeglobal}
use xha.StateFile.Write.{prepare, lose_access, write_hostspecific, sf_set_pool_state}
use xha.StateFile.Read.{readsf, SfRound, SfThread, finish_round, sf_round}
use xha.StateFile.Share.{IsSound}
use xha.StateFile.Pending.{pool_state_of, IsExchanged, readsf-IsExchanged}

-- What the write of the host's element leaves alone.
abbrev IsKept : SfState → SfState → Type 0
IsKept s t =
    (t.modified_pool_state ≡ s.modified_pool_state)
    × (t.daemon.sf.pool_state ≡ s.daemon.sf.pool_state)
    × (t.daemon.sf.enable_sf_read ≡ s.daemon.sf.enable_sf_read)

never_both : {b : Bool} → b ≡ true → b ≡ false → ⊥
never_both on off = ground (arith, on, off)

module _ (cfg : Config) (lay : Layout) (uuid my_uuid : Str) where
  write_hostspecific-IsKept :
      (now : ℤ) (result : Status) (s : SfState)
      → IsKept s (write_hostspecific cfg lay my_uuid now result s).1
  unfolding write_hostspecific prepare lose_access sm_sf_updated
  write_hostspecific-IsKept now result s =
      if-elim (λ (r : Status × SfState). IsKept s r.1) (is_success result)
        (λ wrote. (refl, refl, refl)) (λ failed. (refl, refl, refl))

  finish_round-read :
      (r : SfRound) (once : Bool) (s : SfState) (g : GlobalSection) (status : Status) (u : SfState)
      → IsExchanged s g (status, u)
      → ((finish_round cfg lay uuid my_uuid r once (status, u)).state.modified_pool_state ≡ false)
        × ((finish_round cfg lay uuid my_uuid r once (status, u)).state.daemon.sf ≡ u.daemon.sf)
  unfolding finish_round
  finish_round-read r once s g status u e = elim e.read [
    | inl good ↦ rw good (e.clean, refl)
    | inr pending ↦ rw pending (e.clean, refl)
  ]

  finish_round-written :
      (r : SfRound) (once : Bool) (status : Status) (u : SfState)
      → status ≡ error_sf_pending_write
      → (finish_round cfg lay uuid my_uuid r once (status, u)).written
        ≡ (if is_success r.global_written then some (sf_writeglobal lay u.buffer.global) else none)
  unfolding finish_round
  finish_round-written r once status u pending = rw pending refl

  -- What a round makes of the pool's state.
  record IsRound (r : SfRound) (s : SfState) (g : GlobalSection) (t : SfThread) : Type 0 where
    clean : t.state.modified_pool_state ≡ false
    pool_state : t.state.daemon.sf.pool_state ≡ pool_state_of s g
    readable : t.state.daemon.sf.enable_sf_read ≡ s.daemon.sf.enable_sf_read
    written :
        s.modified_pool_state ≡ true
        → (section : GlobalSection) × (section.contents.pool_state ≡ s.daemon.sf.pool_state)
          × (t.written ≡ (if is_success r.global_written then some section else none))

  finish_round-IsRound :
      (r : SfRound) (once : Bool) (s : SfState) (g : GlobalSection) (status : Status) (u : SfState)
      → IsExchanged s g (status, u)
      → IsRound r s g (finish_round cfg lay uuid my_uuid r once (status, u))
  unfolding sf_writeglobal
  finish_round-IsRound r once s g status u e =
      let (clean, same) = finish_round-read r once s g status u e in
      record {
        clean = clean;
        pool_state = ap (λ sf. sf.pool_state) same ∙ e.pool_state;
        readable = ap (λ sf. sf.enable_sf_read) same ∙ e.readable;
        written = λ asked. (
          sf_writeglobal lay u.buffer.global,
          e.buffered ∙ rw asked refl,
          finish_round-written r once status u (e.pending asked),
        );
      }

  -- The write of the host's element, if it is made, comes first.
  abbrev own_written : SfRound → Bool → SfState → SfState
  own_written r once s =
      if s.daemon.sf.enable_sf_write && once
      then (write_hostspecific cfg lay my_uuid r.now r.host_written s).1
      else s

  own_written-IsKept : (r : SfRound) (once : Bool) (s : SfState) → IsKept s (own_written r once s)
  own_written-IsKept r once s =
      if-elim (IsKept s) (s.daemon.sf.enable_sf_write && once)
        (λ writes. write_hostspecific-IsKept r.now r.host_written s) (λ rests. (refl, refl, refl))

  sf_round-IsRound :
      (r : SfRound) (once : Bool) (s : SfState) (g : GlobalSection) (h : ℕ → HostSection)
      → IsSound cfg lay uuid g h (r.attempts 2)
      → s.daemon.sf.enable_sf_read ≡ true
      → IsRound r s g (sf_round cfg lay uuid my_uuid r once s)
  unfolding sf_round
  sf_round-IsRound r once s g h sound reads =
      let wrote : SfState = own_written r once s in
      let (mask, pool, readable) = own_written-IsKept r once s in
      let same : pool_state_of wrote g ≡ pool_state_of s g = rw (mask, pool) refl in
      let (status, u) = readsf cfg lay uuid r.attempts wrote in
      let t =
        finish_round-IsRound r once wrote g status u
          (readsf-IsExchanged cfg lay uuid g h r.attempts wrote sound) in
      if-elim (IsRound r s g) s.daemon.sf.enable_sf_read
        (λ on. record {
          clean = t.clean;
          pool_state = t.pool_state ∙ same;
          readable = t.readable ∙ readable;
          written = λ asked.
              let (section, state, written) = t.written (mask ∙ asked) in
              (section, state ∙ pool, written);
        })
        (λ off. absurd (never_both reads off))

  -- After sf_set_pool_state, a round that may read and whose reads come through has the new state
  -- in the common object, and if the write of the global section succeeds, has written the new
  -- state.
  pub sf_round-sf_set_pool_state :
      (r : SfRound) (once : Bool) (s : SfState) (p : PoolState) (g : GlobalSection)
      (h : ℕ → HostSection)
      → IsSound cfg lay uuid g h (r.attempts 2)
      → s.daemon.sf.enable_sf_read ≡ true
      → let t = sf_round cfg lay uuid my_uuid r once (sf_set_pool_state cfg lay p s) in
        (t.state.daemon.sf.pool_state ≡ p)
        × ((section : GlobalSection) × (t.written
              ≡ (if is_success r.global_written then some section else none))
            × (section.contents.pool_state ≡ p))
  unfolding sf_set_pool_state sm_sf_updated
  sf_round-sf_set_pool_state r once s p g h sound reads =
      let t = sf_round-IsRound r once (sf_set_pool_state cfg lay p s) g h sound reads in
      let (section, state, written) = t.written refl in (t.pool_state, (section, written, state))

  -- After sf_set_pool_state, when the write of the global section fails, the change is forgotten:
  -- the round writes nothing, no change is pending after it, and the next round whose reads come
  -- through puts the disk's old state back into the common object.
  pub sf_set_pool_state_lost :
      (r r' : SfRound) (once : Bool) (s : SfState) (p : PoolState) (g : GlobalSection)
      (h h' : ℕ → HostSection)
      → IsSound cfg lay uuid g h (r.attempts 2)
      → IsSound cfg lay uuid g h' (r'.attempts 2)
      → s.daemon.sf.enable_sf_read ≡ true
      → is_success r.global_written ≡ false
      → let t = sf_round cfg lay uuid my_uuid r once (sf_set_pool_state cfg lay p s) in
        let t' = sf_round cfg lay uuid my_uuid r' t.read_once t.state in
        (t.written ≡ none)
        × (t.state.modified_pool_state ≡ false)
        × (t'.state.modified_pool_state ≡ false)
        × (t'.state.daemon.sf.pool_state ≡ g.contents.pool_state)
  unfolding sf_set_pool_state sm_sf_updated
  sf_set_pool_state_lost r r' once s p g h h' sound sound' reads fails =
      let asked : SfState = sf_set_pool_state cfg lay p s in
      let t = sf_round cfg lay uuid my_uuid r once asked in
      let first = sf_round-IsRound r once asked g h sound reads in
      let (section, state, written) = first.written refl in
      let next = sf_round-IsRound r' t.read_once t.state g h' sound' (first.readable ∙ reads) in
      (written ∙ rw fails refl, first.clean, next.clean, next.pool_state ∙ rw first.clean refl)
