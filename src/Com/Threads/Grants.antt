-- ===== src/Com/Threads/Grants.antt =====
-- The grants of an object's lock by pthreads, for daemon/com.c.
use xha.Prelude.{ℕ, ◌≡◌, sym, ◌∙◌, false, some, ◌==◌, inl, inr, Bool-cases, arith}
use xha.Prelude.Hosts.{update}
use xha.Com.Threads.{
  RwLock, Phase, reader_waits, reader_granted, writer_waits, writer_granted, has_writer,
}
use xha.Com.Threads.Safe.{IsApart, Holds}

module _ {L : Type 0} (lk : RwLock L) (phase : ℕ → Phase) (l l' : L) (t : ℕ) where
  -- A writer is let in when nobody has the lock.
  pub writer_enters-Holds :
      phase t ≡ writer_waits
      → lk.wrlock l t ≡ some l'
      → Holds lk l phase
      → Holds lk l' (update phase t writer_granted)
  writer_enters-Holds at e h v = elim (Bool-cases (t == v)) [
    | inl same ↦ (
      (lk.wrlock_grants l l' t e v).0 ∙ (lk.wrlock_free l l' t e v).0 ∙ rw same,
      (lk.wrlock_grants l l' t e v).1 ∙ rw (same),
    )
    | inr other ↦ (
      (lk.wrlock_grants l l' t e v).0 ∙ rw other ((h v).0),
      (lk.wrlock_grants l l' t e v).1 ∙ rw other ((h v).1),
    )
  ]

  pub reader_enters-Holds :
      phase t ≡ reader_waits
      → lk.rdlock l t ≡ some l'
      → Holds lk l phase
      → Holds lk l' (update phase t reader_granted)
  reader_enters-Holds at e h v = elim (Bool-cases (t == v)) [
    | inl same ↦ (
      (lk.rdlock_grants l l' t e v).0 ∙ rw (same),
      (lk.rdlock_grants l l' t e v).1 ∙ lk.rdlock_free l l' t e v ∙ rw same,
    )
    | inr other ↦ (
      (lk.rdlock_grants l l' t e v).0 ∙ rw other ((h v).0),
      (lk.rdlock_grants l l' t e v).1 ∙ rw other ((h v).1),
    )
  ]

  pub writer_enters-IsApart :
      lk.wrlock l t ≡ some l' → Holds lk l phase → IsApart (update phase t writer_granted)
  writer_enters-IsApart e h = record {
    alone = λ u v w ne. elim (Bool-cases (t == v)) [
      | inr other ↦ (
        rw other (sym ((h v).0) ∙ (lk.wrlock_free l l' t e v).0),
        rw other (sym ((h v).1) ∙ (lk.wrlock_free l l' t e v).1),
      )
      | inl same ↦
          let free : has_writer (phase u) ≡ false = sym ((h u).1) ∙ (lk.wrlock_free l l' t e u).1 in
          absurd (ground (arith, w))
    ];
  }

  pub reader_enters-IsApart :
      lk.rdlock l t ≡ some l' → Holds lk l phase → IsApart (update phase t reader_granted)
  reader_enters-IsApart e h = record {
    alone = λ u v w ne.
        let free : has_writer (phase u) ≡ false = sym ((h u).1) ∙ lk.rdlock_free l l' t e u in
        absurd (ground (arith, w));
  }
