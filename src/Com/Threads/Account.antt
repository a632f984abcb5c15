-- ===== src/Com/Threads/Account.antt =====
-- The records of the threads and the counter in_use of an object agree with where the threads
-- stand.
use xha.Prelude.{
  ℕ, zero, suc, ◌+◌, ◌≤◌, ◌<◌, ◌≡◌, refl, sym, ap, ◌∙◌, false, List, [], ◌∷◌, some, ◌==◌, inl, inr,
  Bool-cases, Option-cases, ==_iff, ℕ_discrete, arith,
}
use xha.Prelude.Hosts.{update, sum_hosts, sum_hosts_le_mul}
use xha.Com.{
  LockState, unused, is_unused, ThreadIdRecord, increment, decrement, take_record, change_record,
}
use xha.Com.Records.{
  states_of, count_used, length, take_record-none, take_record-count, take_record-other,
  take_record_self, change_record_lem, change_record-other,
}
use xha.Com.Threads.{Phase, idle, lock_states, is_busy, busy}

pub record IsAccounted (n in_use : ℕ) (rs : List ThreadIdRecord) (phase : ℕ → Phase) : Type 0 where
  pub recorded : (t : ℕ) → states_of t rs ≡ lock_states (phase t)
  pub counted : in_use ≡ busy n phase
  pub used : count_used rs ≡ busy n phase
  pub sized : length rs ≡ 16

busy-outside :
    (n i : ℕ) (phase : ℕ → Phase) (p : Phase) → n ≤ i → busy n (update phase i p) ≡ busy n phase
unfolding sum_hosts
busy-outside zero i phase p h = refl
busy-outside (suc n) i phase p h = ground (arith, busy-outside n i phase p)

-- The number of busy threads moves with the one that moves.
pub busy-update :
    (n i : ℕ) (phase : ℕ → Phase) (p : Phase)
    → i < n
    → busy n (update phase i p) + is_busy (phase i) ≡ busy n phase + is_busy p
unfolding sum_hosts
busy-update zero i phase p h = absurd (omega arith)
busy-update (suc n) i phase p h = elim (ℕ_discrete i n) [
  | yes e ↦ rw e (ground (arith, busy-outside n n phase p))
  | no ne ↦ ground (arith, busy-update n i phase p)
]

is_busy-le : (p : Phase) → is_busy p ≤ 1
is_busy-le p = ground arith

pub busy-le : (n : ℕ) (phase : ℕ → Phase) → busy n phase ≤ n
busy-le n phase =
    omega (arith, sum_hosts_le_mul n 1 (λ t. is_busy (phase t)) (λ t _. is_busy-le (phase t)))

-- The table is rewritten at one thread only.
recorded-update :
    (rs rs' : List ThreadIdRecord) (phase : ℕ → Phase) (t : ℕ) (p : Phase)
    → ((v : ℕ) → states_of v rs ≡ lock_states (phase v))
    → ((v : ℕ) → (t == v) ≡ false → states_of v rs' ≡ states_of v rs)
    → states_of t rs' ≡ lock_states p
    → (v : ℕ) → states_of v rs' ≡ lock_states (update phase t p v)
recorded-update rs rs' phase t p old other self v = elim (Bool-cases (t == v)) [
  | inl e ↦ rw (e, ← (==_iff t v).0 e) self
  | inr ne ↦ rw ne (other v ne ∙ old v)
]

module _ (n t now in_use : ℕ) (rs : List ThreadIdRecord) (phase : ℕ → Phase) (lt : t < n) where
  -- A thread that was idle takes a record.
  pub begin_lem :
      (s : LockState) (p : Phase)
      → n ≤ 16
      → phase t ≡ idle
      → is_unused s ≡ false
      → lock_states p ≡ s ∷ []
      → is_busy p ≡ 1
      → IsAccounted n in_use rs phase
      → (rs' : List ThreadIdRecord) × (take_record s t now rs ≡ some rs')
        × IsAccounted n (increment in_use) rs' (update phase t p)
  begin_lem s p small at used states one a = elim (Option-cases (take_record s t now rs)) [
    | inl full ↦ absurd (ground (arith, take_record-none s t now rs full, room, a.used, a.sized))
    | inr (rs', e) ↦
        let (count, len) = take_record-count s t now rs used e in
        (
          rs',
          e,
          record {
            recorded =
                recorded-update rs rs' phase t p a.recorded
                  (λ v ne. take_record-other s t now rs v ne e)
                  (take_record_self s t now rs used (a.recorded t ∙ ap lock_states at) e
                    ∙ sym states);
            counted = ground (arith, room, a.counted);
            used = ground (arith, room, a.used);
            sized = len ∙ a.sized;
          },
        )
  ]
    where
      room : (busy n phase + 1 ≡ busy n (update phase t p)) × (busy n (update phase t p) ≤ 16)
      room = (
        ground (arith, busy-update n t phase p lt),
        omega (arith, busy-le n (update phase t p), small),
      )

  -- A thread with a record changes it.
  pub change_lem :
      (s x : LockState) (p : Phase)
      → is_unused s ≡ false
      → lock_states (phase t) ≡ x ∷ []
      → is_busy (phase t) ≡ 1
      → lock_states p ≡ s ∷ []
      → is_busy p ≡ 1
      → IsAccounted n in_use rs phase
      → (rs' : List ThreadIdRecord) × (change_record s t now rs ≡ some rs')
        × IsAccounted n in_use rs' (update phase t p)
  change_lem s x p used held was states one a =
      let (rs', e, self, count, len) = change_record_lem s t now rs (a.recorded t ∙ held) in
      (
        rs',
        e,
        record {
          recorded =
              recorded-update rs rs' phase t p a.recorded
                (λ v ne. change_record-other s t now rs v ne e) (rw used at self ∙ sym states);
          counted = ground (arith, same, a.counted);
          used = ground (arith, same, a.used, count);
          sized = len ∙ a.sized;
        },
      )
    where
      same : busy n (update phase t p) ≡ busy n phase
      same = ground (arith, busy-update n t phase p lt)

  -- A thread with a record gives it back.
  pub release_lem :
      (x : LockState)
      → n ≤ 16
      → lock_states (phase t) ≡ x ∷ []
      → is_busy (phase t) ≡ 1
      → IsAccounted n in_use rs phase
      → (rs' : List ThreadIdRecord) × (change_record unused t now rs ≡ some rs')
        × IsAccounted n (decrement in_use) rs' (update phase t idle)
  release_lem x small held was a =
      let (rs', e, self, count, len) = change_record_lem unused t now rs (a.recorded t ∙ held) in
      (
        rs',
        e,
        record {
          recorded =
              recorded-update rs rs' phase t idle a.recorded
                (λ v ne. change_record-other unused t now rs v ne e) self;
          counted = ground (arith, fewer, a.counted);
          used = ground (arith, fewer, a.used, count);
          sized = len ∙ a.sized;
        },
      )
    where
      fewer : (busy n (update phase t idle) + 1 ≡ busy n phase) × (busy n phase ≤ 16)
      fewer = (ground (arith, busy-update n t phase idle lt), omega (arith, busy-le n phase, small))
