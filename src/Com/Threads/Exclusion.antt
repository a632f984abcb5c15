-- ===== src/Com/Threads/Exclusion.antt =====
-- The threads at the lock of an object, in any order of their steps: no assertion of daemon/com.c
-- fails, and in_use counts the threads.
use xha.Prelude.{
  ℕ, zero, suc, ◌≤◌, ◌<◌, ◌≡◌, refl, sym, ap, subst, ◌∙◌, false, List, [], Option, ◌==◌, inl, inr,
  Bool-cases, ==_iff, arith,
}
use xha.Prelude.Hosts.{update, sum_hosts}
use xha.HostWeight.{Str}
use xha.Com.{
  Object, Callback, Call, Outcome, done, com_writer_lock_begin, com_writer_lock_end,
  com_reader_lock_begin, com_reader_lock_end, com_writer_unlock, com_reader_unlock, fresh_object,
  object_safe_to_delete, new_records,
}
use xha.Com.Records.{states_of, count_used, length}
use xha.Com.Threads.{
  RwLock, Phase, idle, reader_waits, reader_granted, reading, writer_waits, writer_granted, writing,
  lock_states, is_busy, busy, System, Step, writer_begins, writer_enters, writer_ends,
  writer_writes, writer_leaves, reader_begins, reader_enters, reader_ends, reader_leaves, Reach,
  here, next, move,
}
use xha.Com.Threads.Account.{IsAccounted, busy-update}
use xha.Com.Threads.Safe.{IsSafe, IsClean-move}
use xha.Com.Threads.Grants.{
  writer_enters-Holds, reader_enters-Holds, writer_enters-IsApart, reader_enters-IsApart,
}
use xha.Com.Threads.Steps.{
  writer_begins_lem, writer_ends_lem, writer_leaves_lem, reader_begins_lem, reader_ends_lem,
  reader_leaves_lem,
}

done-inj {ℓ} : {A : Type ℓ} {a b : A} → done a ≡ done b → a ≡ b
done-inj e = cc

-- A call that was shown to return well returned so.
returned :
    {P : Object → Type 0} {r : Outcome Object} (o : Object)
    → r ≡ done o
    → (o' : Object) × (r ≡ done o') × P o'
    → P o
returned {P} o h (o', e, p) = subst P (done-inj (sym e ∙ h)) p

-- A grant changes no record.
account-enters :
    (n in_use : ℕ) (o : Object) (phase : ℕ → Phase) (t : ℕ) (p x : Phase)
    → t < n
    → phase t ≡ x
    → lock_states p ≡ lock_states x
    → is_busy p ≡ is_busy x
    → IsAccounted n in_use o.thread_id_records phase
    → IsAccounted n in_use o.thread_id_records (update phase t p)
account-enters n in_use o phase t p x lt at states one a = record {
  recorded = λ v. elim (Bool-cases (t == v)) [
    | inl same ↦
        rw same
          (a.recorded v ∙ ap lock_states (ap phase (sym ((==_iff t v).0 same)) ∙ at) ∙ sym states)
    | inr other ↦ rw other (a.recorded v)
  ];
  counted = ground (arith, same_busy, a.counted);
  used = ground (arith, same_busy, a.used);
  sized = a.sized;
}
  where
    same_busy : busy n (update phase t p) ≡ busy n phase
    same_busy = ground (arith, busy-update n t phase p lt)

module _ {L : Type 0} (lk : RwLock L) (n : ℕ) (small : n ≤ 16) where
  Step-IsSafe : {s s' : System L} → Step lk n s s' → IsSafe lk n s → IsSafe lk n s'
  Step-IsSafe (writer_begins {s} {o} t now lt at e) safe =
      returned {P = λ o'. IsSafe lk n (move s t writer_waits o' s.rwlock)} o e
        (writer_begins_lem lk n small s t now lt safe at)
  Step-IsSafe (writer_enters {s} {l} t lt at e) safe = record {
    account =
        account-enters n s.object.in_use s.object s.phase t writer_granted writer_waits lt at refl
          refl safe.account;
    holds = writer_enters-Holds lk s.phase s.rwlock l t at e safe.holds;
    apart = writer_enters-IsApart lk s.phase s.rwlock l t e safe.holds;
    clean =
        IsClean-move s.object s.object s.phase t writer_granted writer_waits at (λ h. cc) refl refl
          safe.clean;
  }
  Step-IsSafe (writer_ends {s} {o} t now lt at e) safe =
      returned {P = λ o'. IsSafe lk n (move s t writing o' s.rwlock)} o e
        (writer_ends_lem lk n small s t now lt safe at)
  Step-IsSafe (writer_writes {s} t f lt at) safe = record {
    account = safe.account;
    holds = safe.holds;
    apart = safe.apart;
    clean = inr (t, at);
  }
  Step-IsSafe (writer_leaves {s} {o} t now act lt at e) safe =
      let (o', e', keep) = writer_leaves_lem lk n small s t now lt safe act at in
      subst (λ v. IsSafe lk n (move s t idle v (lk.unlock s.rwlock t)))
        (ap (λ p. p.0) (done-inj (sym e' ∙ e))) keep
  Step-IsSafe (reader_begins {s} {o} t now lt at e) safe =
      returned {P = λ o'. IsSafe lk n (move s t reader_waits o' s.rwlock)} o e
        (reader_begins_lem lk n small s t now lt safe at)
  Step-IsSafe (reader_enters {s} {l} t lt at e) safe = record {
    account =
        account-enters n s.object.in_use s.object s.phase t reader_granted reader_waits lt at refl
          refl safe.account;
    holds = reader_enters-Holds lk s.phase s.rwlock l t at e safe.holds;
    apart = reader_enters-IsApart lk s.phase s.rwlock l t e safe.holds;
    clean =
        IsClean-move s.object s.object s.phase t reader_granted reader_waits at (λ h. cc) refl refl
          safe.clean;
  }
  Step-IsSafe (reader_ends {s} {o} t now lt at e) safe =
      returned {P = λ o'. IsSafe lk n (move s t reading o' s.rwlock)} o e
        (reader_ends_lem lk n small s t now lt safe at)
  Step-IsSafe (reader_leaves {s} {o} t now lt at e) safe =
      returned {P = λ o'. IsSafe lk n (move s t idle o' (lk.unlock s.rwlock t))} o e
        (reader_leaves_lem lk n small s t now lt safe at)

  Reach-IsSafe : {s s' : System L} → Reach lk n s s' → IsSafe lk n s → IsSafe lk n s'
  Reach-IsSafe here safe = safe
  Reach-IsSafe (next r st) safe = Step-IsSafe st (Reach-IsSafe r safe)

fresh_states : (n t : ℕ) → states_of t (new_records n) ≡ []
unfolding states_of new_records
fresh_states zero t = refl
fresh_states (suc n) t = fresh_states n t

none_busy : (n : ℕ) → busy n (λ t. idle) ≡ 0
unfolding sum_hosts
none_busy zero = refl
none_busy (suc n) = ground (arith, none_busy n)

-- The critical section that comes next for a thread returns.
abbrev pub CallReturns : Phase → ℕ → ℕ → Object → Type 0
CallReturns idle t now o =
    ((o' : Object) × (com_writer_lock_begin t now o ≡ done o'))
    × ((o' : Object) × (com_reader_lock_begin t now o ≡ done o'))
CallReturns reader_waits t now o = Unit {0}
CallReturns writer_waits t now o = Unit {0}
CallReturns reader_granted t now o = (o' : Object) × (com_reader_lock_end t now 0 o ≡ done o')
CallReturns writer_granted t now o = (o' : Object) × (com_writer_lock_end t now 0 o ≡ done o')
CallReturns reading t now o = (o' : Object) × (com_reader_unlock t now 0 o ≡ done o')
CallReturns writing t now o =
    (act : ℕ → Option (List ℕ) → Option (List ℕ))
    → (o' : Object) × (calls : List Call) × (com_writer_unlock act t now 0 o ≡ done (o', calls))

-- An object that was just created, at which callbacks were registered, with no thread at it.
abbrev pub start : {L : Type 0} → L → Str → Option (List ℕ) → List Callback → System L
start l object_id buffer callbacks = record {
  object = record (fresh_object object_id buffer) { callbacks = callbacks };
  rwlock = l;
  phase = λ t. idle;
}

module _ {L : Type 0} (lk : RwLock L) (n : ℕ) (small : n ≤ 16) (l : L)
    (free : (t : ℕ) → (lk.reads l t ≡ false) × (lk.writes l t ≡ false)) (object_id : Str)
    (buffer : Option (List ℕ)) (callbacks : List Callback) where
  start-IsSafe : IsSafe lk n (start l object_id buffer callbacks)
  unfolding new_records count_used length
  start-IsSafe = record {
    account = record {
      recorded = λ t. fresh_states 16 t;
      counted = sym (none_busy n);
      used = sym (none_busy n);
      sized = refl;
    };
    holds = free;
    apart = record { alone = λ t u h ne. absurd (ground arith) };
    clean = inl refl;
  }

  -- However the steps of at most 16 threads at one object interleave, the next critical section of
  -- a thread returns: no assertion fails, as the table of records has room for the thread's record
  -- or holds it, and a reader finds the checksum as it was, whatever the callbacks that a writer
  -- runs as it leaves make of the data.
  pub com_calls_return :
      (s : System L) (t now : ℕ)
      → Reach lk n (start l object_id buffer callbacks) s
      → t < n
      → CallReturns (s.phase t) t now s.object
  com_calls_return s t now r lt = phase_returns (s.phase t) refl
    where
      safe : IsSafe lk n s
      safe = Reach-IsSafe lk n small r start-IsSafe

      phase_returns : (p : Phase) → s.phase t ≡ p → CallReturns p t now s.object
      phase_returns idle at =
          let (o, e, keep) = writer_begins_lem lk n small s t now lt safe at in
          let (o', e', keep') = reader_begins_lem lk n small s t now lt safe at in
          ((o, e), (o', e'))
      phase_returns reader_waits at = tt
      phase_returns writer_waits at = tt
      phase_returns reader_granted at =
          let (o, e, keep) = reader_ends_lem lk n small s t now lt safe at in (o, e)
      phase_returns writer_granted at =
          let (o, e, keep) = writer_ends_lem lk n small s t now lt safe at in (o, e)
      phase_returns reading at =
          let (o, e, keep) = reader_leaves_lem lk n small s t now lt safe at in (o, e)
      phase_returns writing at =
          λ act. let (o, e, keep) = writer_leaves_lem lk n small s t now lt safe act at in (o, _, e)

  -- However the steps of at most 16 threads at one object interleave, in_use is the number of
  -- threads in a call, and while there is one, com_close does not free the object.
  pub com_object_in_use :
      (s : System L) (t : ℕ)
      → Reach lk n (start l object_id buffer callbacks) s
      → t < n
      → is_busy (s.phase t) ≡ 1
      → (s.object.in_use ≡ busy n s.phase) × (object_safe_to_delete s.object ≡ false)
  unfolding object_safe_to_delete
  com_object_in_use s t r lt one =
      let count = (Reach-IsSafe lk n small r start-IsSafe).account.counted in
      (count, ground (arith, count, busy-update n t s.phase idle lt))
