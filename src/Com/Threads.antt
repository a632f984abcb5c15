-- ===== src/Com/Threads.antt =====
-- The threads at the lock of one common object: the calls that lock and unlock it in daemon/com.c,
-- as the steps of a system of `n` threads. A call that locks is three steps, the critical section
-- before pthread_rwlock_wrlock or pthread_rwlock_rdlock, its grant, and the critical section after
-- it; any step of another thread may come between.
pub mod Account
pub mod Safe
pub mod Grants
pub mod Steps
pub mod Exclusion
use xha.Prelude.{
  ℕ, ◌+◌, ◌≤◌, ◌<◌, ◌≡◌, Bool, true, false, ◌||◌, not, ◌&&◌, List, [], ◌∷◌, Option, none, some,
  ◌==◌,
}
use xha.Prelude.Hosts.{update, sum_hosts}
use mathlib.Core.Option
use xha.Com.{
  LockState, reader_acquiring, reader_acquired, writer_acquiring, writer_acquired, Object, done,
  Call, com_writer_lock_begin, com_writer_lock_end, com_reader_lock_begin, com_reader_lock_end,
  com_writer_unlock, com_reader_unlock,
}

-- pthread_rwlock_t with its calls, as POSIX describes them: who holds it, and a grant, which is
-- `none` while the caller waits.
pub record RwLock (L : Type 0) : Type 0 where
  pub reads : L → ℕ → Bool
  pub writes : L → ℕ → Bool
  pub rdlock : L → ℕ → Option L
  pub wrlock : L → ℕ → Option L
  pub unlock : L → ℕ → L
  pub rdlock_free : (l l' : L) (t : ℕ) → rdlock l t ≡ some l' → (u : ℕ) → writes l u ≡ false
  pub rdlock_grants :
      (l l' : L) (t : ℕ)
      → rdlock l t ≡ some l'
      → (u : ℕ) → (reads l' u ≡ (t == u || reads l u)) × (writes l' u ≡ writes l u)
  pub wrlock_free :
      (l l' : L) (t : ℕ)
      → wrlock l t ≡ some l'
      → (u : ℕ) → (reads l u ≡ false) × (writes l u ≡ false)
  pub wrlock_grants :
      (l l' : L) (t : ℕ)
      → wrlock l t ≡ some l'
      → (u : ℕ) → (reads l' u ≡ reads l u) × (writes l' u ≡ (t == u || writes l u))
  pub unlock_frees :
      (l : L) (t u : ℕ)
      → (reads (unlock l t) u ≡ (not (t == u) && reads l u))
        × (writes (unlock l t) u ≡ (not (t == u) && writes l u))

-- Where a thread stands in its calls.
pub data Phase : Type 0 where
  idle : Phase
  reader_waits reader_granted reading : Phase
  writer_waits writer_granted writing : Phase

abbrev pub lock_states : Phase → List LockState
lock_states idle = []
lock_states reader_waits = reader_acquiring ∷ []
lock_states reader_granted = reader_acquiring ∷ []
lock_states reading = reader_acquired ∷ []
lock_states writer_waits = writer_acquiring ∷ []
lock_states writer_granted = writer_acquiring ∷ []
lock_states writing = writer_acquired ∷ []

abbrev pub is_busy : Phase → ℕ
is_busy idle = 0
is_busy reader_waits = 1
is_busy reader_granted = 1
is_busy reading = 1
is_busy writer_waits = 1
is_busy writer_granted = 1
is_busy writing = 1

-- The thread has the lock for reading; for writing.
abbrev pub has_reader : Phase → Bool
has_reader reader_granted = true
has_reader reading = true
has_reader idle = false
has_reader reader_waits = false
has_reader writer_waits = false
has_reader writer_granted = false
has_reader writing = false

abbrev pub has_writer : Phase → Bool
has_writer writer_granted = true
has_writer writing = true
has_writer idle = false
has_writer reader_waits = false
has_writer reader_granted = false
has_writer reading = false
has_writer writer_waits = false

abbrev pub busy : ℕ → (ℕ → Phase) → ℕ
busy n phase = sum_hosts n (λ t. is_busy (phase t))

pub record System (L : Type 0) : Type 0 where
  pub object : Object
  pub rwlock : L
  pub phase : ℕ → Phase

-- A thread moves to its next phase.
abbrev pub move : {L : Type 0} → System L → ℕ → Phase → Object → L → System L
move s t p o l = record { object = o; rwlock = l; phase = update s.phase t p }

module _ {L : Type 0} (lk : RwLock L) (n : ℕ) where
  pub data Step : System L → System L → Type 0 where
    writer_begins :
        {s : System L} {o : Object} (t now : ℕ)
        → t < n
        → s.phase t ≡ idle
        → com_writer_lock_begin t now s.object ≡ done o
        → Step s (move s t writer_waits o s.rwlock)
    writer_enters :
        {s : System L} {l : L} (t : ℕ)
        → t < n
        → s.phase t ≡ writer_waits
        → lk.wrlock s.rwlock t ≡ some l
        → Step s (move s t writer_granted s.object l)
    writer_ends :
        {s : System L} {o : Object} (t now : ℕ)
        → t < n
        → s.phase t ≡ writer_granted
        → com_writer_lock_end t now 0 s.object ≡ done o
        → Step s (move s t writing o s.rwlock)
    writer_writes :
        {s : System L} (t : ℕ) (f : List ℕ → List ℕ)
        → t < n
        → s.phase t ≡ writing
        → Step s (record s { object = record (s.object) { buffer = Option.map f s.object.buffer } })
    writer_leaves :
        {s : System L} {o : Object} {calls : List Call} (t now : ℕ)
        (act : ℕ → Option (List ℕ) → Option (List ℕ))
        → t < n
        → s.phase t ≡ writing
        → com_writer_unlock act t now 0 s.object ≡ done (o, calls)
        → Step s (move s t idle o (lk.unlock s.rwlock t))
    reader_begins :
        {s : System L} {o : Object} (t now : ℕ)
        → t < n
        → s.phase t ≡ idle
        → com_reader_lock_begin t now s.object ≡ done o
        → Step s (move s t reader_waits o s.rwlock)
    reader_enters :
        {s : System L} {l : L} (t : ℕ)
        → t < n
        → s.phase t ≡ reader_waits
        → lk.rdlock s.rwlock t ≡ some l
        → Step s (move s t reader_granted s.object l)
    reader_ends :
        {s : System L} {o : Object} (t now : ℕ)
        → t < n
        → s.phase t ≡ reader_granted
        → com_reader_lock_end t now 0 s.object ≡ done o
        → Step s (move s t reading o s.rwlock)
    reader_leaves :
        {s : System L} {o : Object} (t now : ℕ)
        → t < n
        → s.phase t ≡ reading
        → com_reader_unlock t now 0 s.object ≡ done o
        → Step s (move s t idle o (lk.unlock s.rwlock t))

  pub data Reach (s : System L) : System L → Type 0 where
    here : Reach s s
    next : {u v : System L} → Reach s u → Step u v → Reach s v
