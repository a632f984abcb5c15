-- ===== src/Com/Threads/Safe.antt =====
-- What holds of the threads at the lock of an object of daemon/com.c between two steps, and how it
-- fares when one thread moves.
use xha.Prelude.{ℕ, ◌≡◌, sym, ap, ◌∙◌, true, false, ◌==◌, ◌⊎◌, inl, inr, Bool-cases, ==_iff, arith}
use xha.Prelude.Hosts.{update}
use xha.Com.{Object, calc_checksum_object_buffer}
use xha.Com.Threads.{RwLock, Phase, writing, has_reader, has_writer, System}
use xha.Com.Threads.Account.{IsAccounted}

-- The checksum is that of the data, or a writer is at work.
abbrev pub IsClean : Object → (ℕ → Phase) → Type 0
IsClean o phase =
    (o.checksum ≡ calc_checksum_object_buffer o.buffer) ⊎ ((w : ℕ) × (phase w ≡ writing))

-- A writer is alone.
pub record IsApart (phase : ℕ → Phase) : Type 0 where
  pub alone :
      (t u : ℕ)
      → has_writer (phase t) ≡ true
      → (t == u) ≡ false
      → (has_reader (phase u) ≡ false) × (has_writer (phase u) ≡ false)

module _ {L : Type 0} (lk : RwLock L) where
  -- pthreads and the phases tell one story.
  abbrev pub Holds : L → (ℕ → Phase) → Type 0
  Holds l phase =
      (t : ℕ) → (lk.reads l t ≡ has_reader (phase t)) × (lk.writes l t ≡ has_writer (phase t))

  pub record IsSafe (n : ℕ) (s : System L) : Type 0 where
    pub account : IsAccounted n s.object.in_use s.object.thread_id_records s.phase
    pub holds : Holds s.rwlock s.phase
    pub apart : IsApart s.phase
    pub clean : IsClean s.object s.phase

-- A thread that moves and is no writer at work leaves the writers at work.
pub IsClean-move :
    (o o' : Object) (phase : ℕ → Phase) (t : ℕ) (p x : Phase)
    → phase t ≡ x
    → (x ≡ writing → p ≡ writing)
    → o'.checksum ≡ o.checksum
    → o'.buffer ≡ o.buffer
    → IsClean o phase
    → IsClean o' (update phase t p)
IsClean-move o o' phase t p x at keep sum buf (inl e) =
    inl (sum ∙ e ∙ ap calc_checksum_object_buffer (sym buf))
IsClean-move o o' phase t p x at keep sum buf (inr (w, e)) = elim (Bool-cases (t == w)) [
  | inl same ↦ inr (w, rw same (keep (sym at ∙ ap phase ((==_iff t w).0 same) ∙ e)))
  | inr other ↦ inr (w, rw other e)
]

-- A move that changes no hold on the lock.
module _ (phase : ℕ → Phase) (t : ℕ) (p : Phase) where
  same_reader :
      has_reader p ≡ has_reader (phase t)
      → (v : ℕ) → has_reader (update phase t p v) ≡ has_reader (phase v)
  same_reader e v = elim (Bool-cases (t == v)) [
    | inl same ↦ rw (same, ← (==_iff t v).0 same) e
    | inr other ↦ rw other
  ]

  same_writer :
      has_writer p ≡ has_writer (phase t)
      → (v : ℕ) → has_writer (update phase t p v) ≡ has_writer (phase v)
  same_writer e v = elim (Bool-cases (t == v)) [
    | inl same ↦ rw (same, ← (==_iff t v).0 same) e
    | inr other ↦ rw other
  ]

  -- A thread that lets go, or never held, leaves the writers alone.
  pub IsApart-move :
      (has_writer p ≡ true → has_writer (phase t) ≡ true)
      → (has_reader p ≡ true → has_reader (phase t) ≡ true)
      → IsApart phase
      → IsApart (update phase t p)
  IsApart-move writer reader a = record {
    alone = λ u v h ne.
        let hu : has_writer (phase u) ≡ true = was_writer u h in
        let (r, w) = a.alone u v hu ne in
        (
          elim (Bool-cases (has_reader (update phase t p v))) [
            | inl e ↦ ground (arith, was_reader v e)
            | inr e ↦ e
          ],
          elim (Bool-cases (has_writer (update phase t p v))) [
            | inl e ↦ ground (arith, was_writer v e)
            | inr e ↦ e
          ],
        );
  }
    where
      was_writer : (v : ℕ) → has_writer (update phase t p v) ≡ true → has_writer (phase v) ≡ true
      was_writer v h = elim (Bool-cases (t == v)) [
        | inl same ↦ rw (← (==_iff t v).0 same) (writer (rw same at h))
        | inr other ↦ rw other at h
      ]

      was_reader : (v : ℕ) → has_reader (update phase t p v) ≡ true → has_reader (phase v) ≡ true
      was_reader v h = elim (Bool-cases (t == v)) [
        | inl same ↦ rw (← (==_iff t v).0 same) (reader (rw same at h))
        | inr other ↦ rw other at h
      ]

  -- A thread that lets go.
  pub Holds-release :
      {L : Type 0} (lk : RwLock L) (l : L)
      → has_reader p ≡ false
      → has_writer p ≡ false
      → Holds lk l phase
      → Holds lk (lk.unlock l t) (update phase t p)
  Holds-release lk l r w h v = elim (Bool-cases (t == v)) [
    | inl same ↦
        ((lk.unlock_frees l t v).0 ∙ rw (same, r), (lk.unlock_frees l t v).1 ∙ rw (same, w))
    | inr other ↦ (
      (lk.unlock_frees l t v).0 ∙ rw other ((h v).0),
      (lk.unlock_frees l t v).1 ∙ rw other ((h v).1),
    )
  ]

  pub Holds-same :
      {L : Type 0} (lk : RwLock L) (l : L)
      → has_reader p ≡ has_reader (phase t)
      → has_writer p ≡ has_writer (phase t)
      → Holds lk l phase
      → Holds lk l (update phase t p)
  Holds-same lk l r w h v = ((h v).0 ∙ sym (same_reader r v), (h v).1 ∙ sym (same_writer w v))
