-- ===== src/Com/Records.antt =====
-- The records of the threads at an object's lock, in daemon/com.c: what set_thread_id_record does
-- to them, thread by thread.
use xha.Prelude.{
  ℕ, suc, ◌+◌, ◌≡◌, refl, false, not, ◌&&◌, List, [], ◌∷◌, none, some, ◌==◌, if◌then◌else◌, inl,
  inr, Bool-cases, Option-cases, arith,
}
use xha.Com.{LockState, is_unused, ThreadIdRecord, take_record, change_record}

-- The states of a thread's records in use, in the order of the table.
unfoldable pub states_of : ℕ → List ThreadIdRecord → List LockState
states_of t [] = []
states_of t (r ∷ rs) =
    if not (is_unused r.lock_state) && r.thread_id == t
    then r.lock_state ∷ states_of t rs
    else states_of t rs

unfoldable pub count_used : List ThreadIdRecord → ℕ
count_used [] = 0
count_used (r ∷ rs) = (if is_unused r.lock_state then 0 else 1) + count_used rs

unfoldable pub length : List ThreadIdRecord → ℕ
length [] = 0
length (r ∷ rs) = suc (length rs)

-- A table from which no record can be taken is full.
pub take_record-none :
    (s : LockState) (t now : ℕ) (rs : List ThreadIdRecord)
    → take_record s t now rs ≡ none
    → count_used rs ≡ length rs
unfolding take_record count_used length
take_record-none s t now [] h = refl
take_record-none s t now (r ∷ rs) h = ground (arith, take_record-none s t now rs)

pub take_record-count :
    (s : LockState) (t now : ℕ) (rs : List ThreadIdRecord) {rs' : List ThreadIdRecord}
    → is_unused s ≡ false
    → take_record s t now rs ≡ some rs'
    → (count_used rs' ≡ count_used rs + 1) × (length rs' ≡ length rs)
unfolding take_record count_used length
take_record-count s t now [] u h = absurd (ground arith)
take_record-count s t now (r ∷ rs) u h = elim (Option-cases (take_record s t now rs)) [
  | inl full ↦ ground arith
  | inr (rs'', some_rest) ↦ ground (arith, take_record-count s t now rs {rs' = rs''})
]

pub take_record-other :
    (s : LockState) (t now : ℕ) (rs : List ThreadIdRecord) {rs' : List ThreadIdRecord} (v : ℕ)
    → (t == v) ≡ false
    → take_record s t now rs ≡ some rs'
    → states_of v rs' ≡ states_of v rs
unfolding take_record states_of
take_record-other s t now [] v ne h = absurd (ground arith)
take_record-other s t now (r ∷ rs) v ne h = elim (Option-cases (take_record s t now rs)) [
  | inl full ↦ ground arith
  | inr (rs'', some_rest) ↦ ground (arith, take_record-other s t now rs {rs' = rs''} v)
]

pub take_record_self :
    (s : LockState) (t now : ℕ) (rs : List ThreadIdRecord) {rs' : List ThreadIdRecord}
    → is_unused s ≡ false
    → states_of t rs ≡ []
    → take_record s t now rs ≡ some rs'
    → states_of t rs' ≡ s ∷ []
unfolding take_record states_of
take_record_self s t now [] u idle h = absurd (ground arith)
take_record_self s t now (r ∷ rs) u idle h = elim (Option-cases (take_record s t now rs)) [
  | inl full ↦ ground arith
  | inr (rs'', some_rest) ↦ ground (arith, take_record_self s t now rs {rs' = rs''})
]

-- A thread with one record in use changes that one.
pub change_record_lem :
    (s : LockState) (t now : ℕ) (rs : List ThreadIdRecord) {x : LockState}
    → states_of t rs ≡ x ∷ []
    → (rs' : List ThreadIdRecord) × (change_record s t now rs ≡ some rs')
      × (states_of t rs' ≡ (if is_unused s then [] else s ∷ []))
      × (count_used rs' + (if is_unused s then 1 else 0) ≡ count_used rs)
      × (length rs' ≡ length rs)
unfolding change_record states_of count_used length
change_record_lem s t now [] h = absurd (ground arith)
change_record_lem s t now (r ∷ rs) {x} h =
    elim (Bool-cases (not (is_unused r.lock_state) && r.thread_id == t)) [
      | inl own ↦ (
        record r { lock_state = s; changed_time = now } ∷ rs,
        ground arith,
        ground arith,
        ground arith,
        refl,
      )
      | inr other ↦
          let (rs', e, self, count, len) = change_record_lem s t now rs {x = x} (ground arith) in
          (r ∷ rs', ground arith, ground arith, ground arith, ground arith)
    ]

pub change_record-other :
    (s : LockState) (t now : ℕ) (rs : List ThreadIdRecord) {rs' : List ThreadIdRecord} (v : ℕ)
    → (t == v) ≡ false
    → change_record s t now rs ≡ some rs'
    → states_of v rs' ≡ states_of v rs
unfolding change_record states_of
change_record-other s t now [] v ne h = absurd (ground arith)
change_record-other s t now (r ∷ rs) v ne h = elim (Option-cases (change_record s t now rs)) [
  | inl full ↦ ground arith
  | inr (rs'', some_rest) ↦ ground (arith, change_record-other s t now rs {rs' = rs''} v)
]
