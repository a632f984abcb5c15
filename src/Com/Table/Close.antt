-- ===== src/Com/Table/Close.antt =====
-- com_close of daemon/com.c in a table that is in order.
use xha.Prelude.{
  ℕ, ◌+◌, ◌-◌, ◌^◌, ◌<◌, ◌≡◌, refl, sym, ap, ◌∙◌, Bool, true, false, List, none, some, ◌==◌,
  if◌then◌else◌, inl, inr, Bool-cases, Option-cases, ==_iff, ==_self, arith,
}
use xha.Prelude.Hosts.{update}
use xha.HostWeight.Table.{str_eq_self}
use xha.Com.{Object, Outcome, done, ◌>>=◌, decrement, object_safe_to_delete}
use xha.Com.Table.{
  ObjectTable, has_id, handle_object, free_handle, calc_hash, put_object, delete_object,
  close_object, com_close, close_handle, on_object,
}
use xha.Com.Table.Valid.{
  count_handles, IsValid, delete_from_chain_lem, free_handle_lem, has_id-some,
}
use xha.Com.Table.Put.{put-IsValid, remove-IsValid, update_hit}

-- An object with a handle is there.
pub handle-live :
    (char_word : ℕ → ℕ) (s : ObjectTable) (h a : ℕ)
    → IsValid char_word s
    → handle_object h s.handles ≡ some a
    → (o : Object) × (s.heap a ≡ some o)
handle-live char_word s h a v e = elim (Option-cases (s.heap a)) [
  | inl gone ↦
      absurd (omega (arith, rw (==_self a) at (free_handle_lem h a s.handles e a), v.held a gone))
  | inr there ↦ there
]

-- The object after com_close took a handle from it.
abbrev pub with_one_less : Object → Object
with_one_less o = record o { ref_count = o.ref_count - 1 }

module _ (char_word : ℕ → ℕ) (s : ObjectTable) (h a : ℕ) (o : Object) (v : IsValid char_word s)
    (open_handle : handle_object h s.handles ≡ some a) (eo : s.heap a ≡ some o)
    (bounded : count_handles a s.handles < 2 ^ 32) where
  one_less : count_handles a (free_handle h s.handles) + 1 ≡ count_handles a s.handles
  one_less = rw (==_self a) at (free_handle_lem h a s.handles open_handle a)

  others :
      (b : ℕ)
      → (a == b) ≡ false
      → count_handles b (free_handle h s.handles) ≡ count_handles b s.handles
  others b ne = omega (arith, rw ne at (free_handle_lem h a s.handles open_handle b))

  -- The handle is no longer counted.
  decremented : (if o.ref_count == 0 then 0 else decrement o.ref_count) ≡ o.ref_count - 1
  decremented = ground (arith, v.counted a o eo, one_less)

  -- What com_close does with the object of the handle.
  com_close-object :
      {r : Outcome (ObjectTable × Bool)}
      → close_object char_word a o s ≡ r
      → com_close char_word h s
        ≡ (r >>= λ q. done (record (q.0) { handles = free_handle h q.0.handles }, q.1))
  unfolding com_close
  com_close-object e =
      ap (λ x. close_handle char_word h x s) open_handle
      ∙ ap
          (λ x. on_object x λ p. close_object char_word a p s >>= λ r.
            done (record (r.0) { handles = free_handle h r.0.handles }, r.1))
          eo
      ∙ ap (λ r. r >>= λ q. done (record (q.0) { handles = free_handle h q.0.handles }, q.1)) e

  close_object-keeps :
      object_safe_to_delete (with_one_less o) ≡ false
      → close_object char_word a o s ≡ done (put_object a (with_one_less o) s, false)
  unfolding close_object
  close_object-keeps unsafe =
      ap
        (λ n.
          let o' = record o { ref_count = n } in
          if object_safe_to_delete o'
          then delete_object char_word a o' (put_object a o' s)
          else done (put_object a o' s, false))
        decremented
      ∙ rw unsafe

  keeps-IsValid :
      IsValid char_word
        (record (put_object a (with_one_less o) s) { handles = free_handle h s.handles })
  keeps-IsValid =
      put-IsValid char_word s a o (with_one_less o) (free_handle h s.handles) v eo refl
        (omega (arith, v.counted a o eo, one_less)) others

  -- The table once the handle is gone, and once the object is gone as well.
  abbrev pub kept : ObjectTable
  kept = record (put_object a (with_one_less o) s) { handles = free_handle h s.handles }

  abbrev removed : List ℕ → ObjectTable
  removed rest = record kept {
    heap = update kept.heap a none;
    chain = update s.chain (calc_hash char_word o.object_id) rest;
  }

  last_handle :
      object_safe_to_delete (with_one_less o) ≡ true → count_handles a (free_handle h s.handles) ≡ 0
  unfolding object_safe_to_delete
  last_handle safe = ground (arith, v.counted a o eo, one_less)

  has_name : has_id (kept.heap a) o.object_id ≡ true
  has_name = rw (==_self a) (str_eq_self o.object_id)

  only_one : (b : ℕ) → has_id (kept.heap b) o.object_id ≡ true → b ≡ a
  only_one b e = elim (Bool-cases (a == b)) [
    | inl same ↦ sym ((==_iff a b).0 same)
    | inr other ↦
        let (p, ep, ip) = has_id-some (s.heap b) o.object_id (rw other at e) in
        v.apart b a p o ep eo ip
  ]

  -- The object is taken out of its chain and freed.
  removed_lem :
      object_safe_to_delete (with_one_less o) ≡ true
      → (rest : List ℕ) × (close_object char_word a o s
          ≡ done (record (removed rest) { handles = s.handles }, true))
        × IsValid char_word (removed rest)
  unfolding close_object
  removed_lem safe =
      let (rest, e, left) =
        delete_from_chain_lem kept.heap o.object_id (s.chain (calc_hash char_word o.object_id)) a
          has_name only_one (omega (arith, v.chained a o eo)) in
      (
        rest,
        ap
              (λ n.
                let o' = record o { ref_count = n } in
                if object_safe_to_delete o'
                then delete_object char_word a o' (put_object a o' s)
                else done (put_object a o' s, false))
              decremented
            ∙ rw safe (rw (e, delete_object) refl),
        remove-IsValid char_word kept a (with_one_less o) rest kept.handles keeps-IsValid
            (update_hit s.heap a (some (with_one_less o))) left (last_handle safe) (λ b ne. refl),
      )

-- What com_close does to the table: the handle is gone, and the object with it if that was the last
-- one, no call is under way and no callback is registered.
pub record IsClosed (char_word : ℕ → ℕ) (s : ObjectTable) (h a : ℕ) (o : Object) (s' : ObjectTable)
    : Type 0 where
  pub returned : com_close char_word h s ≡ done (s', object_safe_to_delete (with_one_less o))
  pub valid : IsValid char_word s'
  pub handles_left : s'.handles ≡ free_handle h s.handles
  pub object_left :
      s'.heap a ≡ (if object_safe_to_delete (with_one_less o) then none else some (with_one_less o))
  pub others_left : (b : ℕ) → (a == b) ≡ false → s'.heap b ≡ s.heap b

close_returns :
    (char_word : ℕ → ℕ) (s : ObjectTable) (h a : ℕ) (o : Object)
    → IsValid char_word s
    → handle_object h s.handles ≡ some a
    → s.heap a ≡ some o
    → count_handles a s.handles < 2 ^ 32
    → (s' : ObjectTable) × IsClosed char_word s h a o s'
close_returns char_word s h a o v e eo bounded =
    elim (Bool-cases (object_safe_to_delete (with_one_less o))) [
      | inl safe ↦
          let (rest, r, v') = removed_lem char_word s h a o v e eo bounded safe in
          (
            removed char_word s h a o v e eo bounded rest,
            record {
              returned = rw safe (com_close-object char_word s h a o v e eo bounded r);
              valid = v';
              handles_left = refl;
              object_left =
                  rw safe (update_hit (kept char_word s h a o v e eo bounded).heap a none);
              others_left = λ b ne. rw ne refl;
            },
          )
      | inr unsafe ↦ (
        kept char_word s h a o v e eo bounded,
        record {
          returned = rw unsafe (
              com_close-object char_word s h a o v e eo bounded
                (close_object-keeps char_word s h a o v e eo bounded unsafe));
          valid = keeps-IsValid char_word s h a o v e eo bounded;
          handles_left = refl;
          object_left = rw unsafe (update_hit s.heap a (some (with_one_less o)));
          others_left = λ b ne. rw ne refl;
        },
      )
    ]

-- In a table that is in order, with fewer than 2^32 handles to an object: the object of an open
-- handle is there, com_close of the handle returns, and the table is in order again. The object
-- loses the handle, and it is freed exactly if that was the last one, no call is under way and no
-- callback is registered; the other objects stay as they were.
pub com_close_lem :
    (char_word : ℕ → ℕ) (s : ObjectTable) (h a : ℕ)
    → IsValid char_word s
    → handle_object h s.handles ≡ some a
    → count_handles a s.handles < 2 ^ 32
    → (o : Object) × (s.heap a ≡ some o) × (s' : ObjectTable) × IsClosed char_word s h a o s'
com_close_lem char_word s h a v e bounded =
    let (o, eo) = handle-live char_word s h a v e in
    let (s', closed) = close_returns char_word s h a o v e eo bounded in (o, eo, s', closed)
