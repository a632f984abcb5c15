-- ===== src/Com/Threads/Steps.antt =====
-- The critical sections of daemon/com.c that lock and unlock an object, in a system where what
-- holds between two steps does: each returns, and it holds again.
use xha.Prelude.{
  ℕ, ◌≤◌, ◌<◌, ◌≡◌, refl, ap, ◌==◌, List, Option, inl, inr, Bool-cases, ==_iff, arith,
}
use xha.Com.{
  reader_acquiring, reader_acquired, writer_acquiring, writer_acquired, Object, done,
  calc_checksum_object_buffer, increment, decrement, call_callbacks, lock_begin, lock_end,
  com_writer_lock_begin, com_writer_lock_end, com_reader_lock_begin, com_reader_lock_end,
  com_writer_unlock, com_reader_unlock,
}
use xha.Com.Threads.{
  RwLock, Phase, idle, reader_waits, reader_granted, reading, writer_waits, writer_granted, writing,
  System, move,
}
use xha.Com.Threads.Account.{begin_lem, change_lem, release_lem}
use xha.Com.Threads.Safe.{
  IsClean, IsApart, IsSafe, IsClean-move, IsApart-move, Holds-release, Holds-same,
}

-- While a thread reads, the checksum is that of the data.
clean-reading :
    (o : Object) (phase : ℕ → Phase) (t : ℕ)
    → phase t ≡ reading
    → IsApart phase
    → IsClean o phase
    → o.checksum ≡ calc_checksum_object_buffer o.buffer
clean-reading o phase t at a (inl e) = e
clean-reading o phase t at a (inr (w, e)) = elim (Bool-cases (w == t)) [
  | inl same ↦ absurd (ground (arith, ap phase ((==_iff w t).0 same)))
  | inr other ↦ absurd (ground (arith, a.alone w t (rw e) other))
]

module _ {L : Type 0} (lk : RwLock L) (n : ℕ) (small : n ≤ 16) where
  module _ (s : System L) (t now : ℕ) (lt : t < n) (safe : IsSafe lk n s) where
    pub writer_begins_lem :
        s.phase t ≡ idle
        → (o : Object) × (com_writer_lock_begin t now s.object ≡ done o)
          × IsSafe lk n (move s t writer_waits o s.rwlock)
    unfolding lock_begin
    writer_begins_lem at =
        let (rs, e, acc) =
          begin_lem n t now s.object.in_use s.object.thread_id_records s.phase lt writer_acquiring
            writer_waits small at refl refl refl safe.account in
        let o = record (s.object) { in_use = increment s.object.in_use; thread_id_records = rs } in
        (
          o,
          rw e,
          record {
            account = acc;
            holds = Holds-same s.phase t writer_waits lk s.rwlock (rw at) (rw at) safe.holds;
            apart = IsApart-move s.phase t writer_waits (λ h. cc) (λ h. cc) safe.apart;
            clean =
                IsClean-move s.object o s.phase t writer_waits idle at (λ h. cc) refl refl
                  safe.clean;
          },
        )

    pub writer_ends_lem :
        s.phase t ≡ writer_granted
        → (o : Object) × (com_writer_lock_end t now 0 s.object ≡ done o)
          × IsSafe lk n (move s t writing o s.rwlock)
    unfolding lock_end
    writer_ends_lem at =
        let (rs, e, acc) =
          change_lem n t now s.object.in_use s.object.thread_id_records s.phase lt writer_acquired
            writer_acquiring writing refl (rw at) (rw at) refl refl safe.account in
        let o = record (s.object) { thread_id_records = rs } in
        (
          o,
          rw e,
          record {
            account = acc;
            holds = Holds-same s.phase t writing lk s.rwlock (rw at) (rw at) safe.holds;
            apart = IsApart-move s.phase t writing (λ h. rw at) (λ h. cc) safe.apart;
            clean =
                IsClean-move s.object o s.phase t writing writer_granted at (λ h. cc) refl refl
                  safe.clean;
          },
        )

    pub writer_leaves_lem :
        (act : ℕ → Option (List ℕ) → Option (List ℕ))
        → s.phase t ≡ writing
        → (o : Object) × (com_writer_unlock act t now 0 s.object
            ≡ done (o, (call_callbacks act s.object.callbacks s.object.buffer).1))
          × IsSafe lk n (move s t idle o (lk.unlock s.rwlock t))
    unfolding com_writer_unlock
    writer_leaves_lem act at =
        let (rs, e, acc) =
          release_lem n t now s.object.in_use s.object.thread_id_records s.phase lt writer_acquired
            small (rw at) (rw at) safe.account in
        let o = record (s.object) {
          in_use = decrement s.object.in_use;
          buffer = (call_callbacks act s.object.callbacks s.object.buffer).0;
          checksum =
              calc_checksum_object_buffer (call_callbacks act s.object.callbacks s.object.buffer).0;
          thread_id_records = rs;
        } in
        (
          o,
          rw e,
          record {
            account = acc;
            holds = Holds-release s.phase t idle lk s.rwlock refl refl safe.holds;
            apart = IsApart-move s.phase t idle (λ h. cc) (λ h. cc) safe.apart;
            clean = inl refl;
          },
        )

    pub reader_begins_lem :
        s.phase t ≡ idle
        → (o : Object) × (com_reader_lock_begin t now s.object ≡ done o)
          × IsSafe lk n (move s t reader_waits o s.rwlock)
    unfolding lock_begin
    reader_begins_lem at =
        let (rs, e, acc) =
          begin_lem n t now s.object.in_use s.object.thread_id_records s.phase lt reader_acquiring
            reader_waits small at refl refl refl safe.account in
        let o = record (s.object) { in_use = increment s.object.in_use; thread_id_records = rs } in
        (
          o,
          rw e,
          record {
            account = acc;
            holds = Holds-same s.phase t reader_waits lk s.rwlock (rw at) (rw at) safe.holds;
            apart = IsApart-move s.phase t reader_waits (λ h. cc) (λ h. cc) safe.apart;
            clean =
                IsClean-move s.object o s.phase t reader_waits idle at (λ h. cc) refl refl
                  safe.clean;
          },
        )

    pub reader_ends_lem :
        s.phase t ≡ reader_granted
        → (o : Object) × (com_reader_lock_end t now 0 s.object ≡ done o)
          × IsSafe lk n (move s t reading o s.rwlock)
    unfolding lock_end
    reader_ends_lem at =
        let (rs, e, acc) =
          change_lem n t now s.object.in_use s.object.thread_id_records s.phase lt reader_acquired
            reader_acquiring reading refl (rw at) (rw at) refl refl safe.account in
        let o = record (s.object) { thread_id_records = rs } in
        (
          o,
          rw e,
          record {
            account = acc;
            holds = Holds-same s.phase t reading lk s.rwlock (rw at) (rw at) safe.holds;
            apart = IsApart-move s.phase t reading (λ h. cc) (λ h. rw at) safe.apart;
            clean =
                IsClean-move s.object o s.phase t reading reader_granted at (λ h. cc) refl refl
                  safe.clean;
          },
        )

    pub reader_leaves_lem :
        s.phase t ≡ reading
        → (o : Object) × (com_reader_unlock t now 0 s.object ≡ done o)
          × IsSafe lk n (move s t idle o (lk.unlock s.rwlock t))
    unfolding com_reader_unlock
    reader_leaves_lem at =
        let (rs, e, acc) =
          release_lem n t now s.object.in_use s.object.thread_id_records s.phase lt reader_acquired
            small (rw at) (rw at) safe.account in
        let o = record (s.object) { in_use = decrement s.object.in_use; thread_id_records = rs } in
        let sum = clean-reading s.object s.phase t at safe.apart safe.clean in
        (
          o,
          rw ((==_iff _ _).1 sum, e),
          record {
            account = acc;
            holds = Holds-release s.phase t idle lk s.rwlock refl refl safe.holds;
            apart = IsApart-move s.phase t idle (λ h. cc) (λ h. cc) safe.apart;
            clean = inl sum;
          },
        )
