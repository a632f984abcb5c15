-- ===== src/Examples/Objects.antt =====
-- A concrete lock of a common object, and threads at it.
use xha.Prelude.{
  ℕ, ◌≡◌, refl, Bool, false, ◌||◌, not, ◌&&◌, List, [], ◌∷◌, Option, none, some, ◌==◌,
  if◌then◌else◌, arith,
}
use xha.Prelude.Hosts.{sum_hosts}
use xha.Com.{
  LockState, writer_acquiring, writer_acquired, Object, Callback, Call, object_safe_to_delete, done,
  lock_begin, lock_end, com_writer_unlock, new_records, take_record, change_record,
}
use xha.Com.Threads.{
  RwLock, writer_waits, writer_granted, writing, System, Reach, here, next, move, writer_begins,
  writer_enters, writer_ends,
}
use xha.Com.Threads.Exclusion.{start, com_object_in_use, com_calls_return}

-- Who has the lock: some readers, or a writer.
data Owner : Type 0 where
  readers : List ℕ → Owner
  writer : ℕ → Owner

abbrev member : ℕ → List ℕ → Bool
member t [] = false
member t (r ∷ rs) = r == t || member t rs

abbrev without : ℕ → List ℕ → List ℕ
without t [] = []
without t (r ∷ rs) = if t == r then without t rs else r ∷ without t rs

abbrev owner_reads : Owner → ℕ → Bool
owner_reads (readers rs) t = member t rs
owner_reads (writer w) t = false

abbrev owner_writes : Owner → ℕ → Bool
owner_writes (readers rs) t = false
owner_writes (writer w) t = w == t

abbrev owner_rdlock : Owner → ℕ → Option Owner
owner_rdlock (readers rs) t = some (readers (t ∷ rs))
owner_rdlock (writer w) t = none

abbrev owner_wrlock : Owner → ℕ → Option Owner
owner_wrlock (readers []) t = some (writer t)
owner_wrlock (readers (r ∷ rs)) t = none
owner_wrlock (writer w) t = none

abbrev owner_unlock : Owner → ℕ → Owner
owner_unlock (readers rs) t = readers (without t rs)
owner_unlock (writer w) t = if t == w then readers [] else writer w

member-without : (t u : ℕ) (rs : List ℕ) → member u (without t rs) ≡ (not (t == u) && member u rs)
member-without t u [] = ground arith
member-without t u (r ∷ rs) = ground (arith, member-without t u rs)

rdlock_free_lem :
    (l l' : Owner) (t : ℕ) → owner_rdlock l t ≡ some l' → (u : ℕ) → owner_writes l u ≡ false
rdlock_free_lem (readers rs) l' t h u = refl
rdlock_free_lem (writer w) l' t h u = cc

rdlock_grants_lem :
    (l l' : Owner) (t : ℕ)
    → owner_rdlock l t ≡ some l'
    → (u : ℕ)
    → (owner_reads l' u ≡ (t == u || owner_reads l u)) × (owner_writes l' u ≡ owner_writes l u)
rdlock_grants_lem (readers rs) (readers rs') t h u = ground arith
rdlock_grants_lem (readers rs) (writer w) t h u = cc
rdlock_grants_lem (writer w) l' t h u = cc

wrlock_free_lem :
    (l l' : Owner) (t : ℕ)
    → owner_wrlock l t ≡ some l'
    → (u : ℕ) → (owner_reads l u ≡ false) × (owner_writes l u ≡ false)
wrlock_free_lem (readers []) l' t h u = (refl, refl)
wrlock_free_lem (readers (r ∷ rs)) l' t h u = cc
wrlock_free_lem (writer w) l' t h u = cc

wrlock_grants_lem :
    (l l' : Owner) (t : ℕ)
    → owner_wrlock l t ≡ some l'
    → (u : ℕ)
    → (owner_reads l' u ≡ owner_reads l u) × (owner_writes l' u ≡ (t == u || owner_writes l u))
wrlock_grants_lem (readers []) (writer w) t h u = ground arith
wrlock_grants_lem (readers []) (readers rs) t h u = cc
wrlock_grants_lem (readers (r ∷ rs)) l' t h u = cc
wrlock_grants_lem (writer w) l' t h u = cc

unlock_frees_lem :
    (l : Owner) (t u : ℕ)
    → (owner_reads (owner_unlock l t) u ≡ (not (t == u) && owner_reads l u))
      × (owner_writes (owner_unlock l t) u ≡ (not (t == u) && owner_writes l u))
unlock_frees_lem (readers rs) t u = (member-without t u rs, ground arith)
unlock_frees_lem (writer w) t u = (ground arith, ground arith)

abbrev owner_lock : RwLock Owner
owner_lock = record {
  reads = owner_reads;
  writes = owner_writes;
  rdlock = owner_rdlock;
  wrlock = owner_wrlock;
  unlock = owner_unlock;
  rdlock_free = rdlock_free_lem;
  rdlock_grants = rdlock_grants_lem;
  wrlock_free = wrlock_free_lem;
  wrlock_grants = wrlock_grants_lem;
  unlock_frees = unlock_frees_lem;
}

nobody : (t : ℕ) → (owner_reads (readers []) t ≡ false) × (owner_writes (readers []) t ≡ false)
nobody t = (refl, refl)

abbrev one_callback : List Callback
one_callback = record { object_handle = 40; func = 41 } ∷ []

abbrev fresh_system : System Owner
fresh_system = start (readers []) (7 ∷ []) (some (1 ∷ 2 ∷ [])) one_callback

-- The object with the record of thread 3 in a state.
abbrev object_at : LockState → ℕ → Object
object_at state now = record (fresh_system.object) {
  in_use = 1;
  thread_id_records =
      record { lock_state = state; changed_time = now; thread_id = 3 } ∷ new_records 15;
}

abbrev waiting_system : System Owner
waiting_system = move fresh_system 3 writer_waits (object_at writer_acquiring 5) (readers [])

abbrev granted_system : System Owner
granted_system = move waiting_system 3 writer_granted (object_at writer_acquiring 5) (writer 3)

abbrev writing_system : System Owner
writing_system = move granted_system 3 writing (object_at writer_acquired 6) (writer 3)

writing_system-Reach : Reach owner_lock 4 fresh_system writing_system
unfolding lock_begin lock_end new_records take_record change_record
writing_system-Reach =
    next {u = granted_system}
      (next {u = waiting_system}
        (next here (
          writer_begins {s = fresh_system} {o = object_at writer_acquiring 5} 3 5 (omega arith) refl
            refl))
        (writer_enters {s = waiting_system} {l = writer 3} 3 (omega arith) refl refl))
      (writer_ends {s = granted_system} {o = object_at writer_acquired 6} 3 6 (omega arith) refl
        refl)

-- A callback that clears the first byte of the data.
abbrev clear_first : ℕ → Option (List ℕ) → Option (List ℕ)
clear_first func (some (b ∷ bs)) = some (0 ∷ bs)
clear_first func buffer = buffer

com_object_in_use_example :
    (writing_system.object.in_use ≡ 1) × (object_safe_to_delete writing_system.object ≡ false)
unfolding sum_hosts
com_object_in_use_example =
    com_object_in_use owner_lock 4 (omega arith) (readers []) nobody (7 ∷ []) (some (1 ∷ 2 ∷ []))
      one_callback writing_system 3 writing_system-Reach (omega arith) refl

com_calls_return_example :
    (o : Object) × (calls : List Call) × (com_writer_unlock clear_first 3 9 0 writing_system.object
      ≡ done (o, calls))
com_calls_return_example =
    com_calls_return owner_lock 4 (omega arith) (readers []) nobody (7 ∷ []) (some (1 ∷ 2 ∷ []))
      one_callback writing_system 3 9 writing_system-Reach (omega arith) clear_first
