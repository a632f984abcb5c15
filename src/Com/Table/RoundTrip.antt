-- ===== src/Com/Table/RoundTrip.antt =====
-- com_create of daemon/com.c for a name that has no object, and com_close after it.
use xha.Prelude.{
  ℕ, ◌^◌, ◌<◌, ◌≡◌, refl, sym, ap, ◌∙◌, true, false, List, [], Option, none, some, ◌==◌, ==_self,
  arith,
}
use xha.HostWeight.{Str}
use xha.HostWeight.Table.{str_eq_self}
use xha.Com.{Object, done, object_safe_to_delete, new_object, fresh_object}
use xha.Com.Table.{
  ObjectTable, CreateEnv, handle_object, free_handle, find_common_object, create_new, create_at,
  com_create, com_close,
}
use xha.Com.Table.Valid.{count_handles, IsValid, find_common_object_iff}
use xha.Com.Table.Close.{com_close_lem, with_one_less}
use xha.Com.Table.Create.{inserted, inserted-IsValid, no_name}

-- Every allocation and call of pthreads succeeds; malloc gives an object and a handle that are
-- free.
pub record IsGranted (env : CreateEnv) (s : ObjectTable) (h : ℕ) : Type 0 where
  pub object : env.got_object ≡ true
  pub id : env.got_id ≡ true
  pub buffer : env.got_buffer ≡ true
  pub init : env.init_ret ≡ 0
  pub handle : env.new_handle ≡ some h
  pub free : s.heap env.new_address ≡ none

abbrev pub first_object : Str → Option (List ℕ) → Object
first_object object_id buffer = record (fresh_object object_id buffer) { ref_count = 1 }

new_object_lem :
    (object_id : Str) (buffer : Option (List ℕ))
    → new_object true true true object_id buffer ≡ some (fresh_object object_id buffer)
unfolding new_object
new_object_lem object_id none = refl
new_object_lem object_id (some bytes) = refl

-- The table after com_create of a new name, its handle at `h`.
abbrev pub created : (ℕ → ℕ) → CreateEnv → ObjectTable → ℕ → Str → Option (List ℕ) → ObjectTable
created char_word env s h object_id buffer =
    inserted char_word env.new_address (first_object object_id buffer) h s

module _ (char_word : ℕ → ℕ) (env : CreateEnv) (s : ObjectTable) (h : ℕ) (object_id : Str)
    (buffer : Option (List ℕ)) (v : IsValid char_word s) (granted : IsGranted env s h)
    (miss : find_common_object char_word s object_id ≡ none) where
  created-IsValid : IsValid char_word (created char_word env s h object_id buffer)
  created-IsValid =
      inserted-IsValid char_word s env.new_address h (first_object object_id buffer) v granted.free
        refl (no_name char_word s object_id v miss)

  -- What com_create does with a name that is new.
  com_create_new :
      (com_create char_word env object_id buffer s
        ≡ done ((created char_word env s h object_id buffer), h, []))
      × IsValid char_word (created char_word env s h object_id buffer)
      × (handle_object h (created char_word env s h object_id buffer).handles
          ≡ some env.new_address)
      × ((created char_word env s h object_id buffer).heap env.new_address
          ≡ some (first_object object_id buffer))
      × (find_common_object char_word (created char_word env s h object_id buffer) object_id
          ≡ some env.new_address)
  unfolding com_create create_new handle_object
  com_create_new = (
    ap (λ x. create_at char_word env object_id buffer x s) miss
        ∙ rw
            (
              granted.object,
              granted.id,
              granted.buffer,
              granted.init,
              granted.handle,
              new_object_lem object_id buffer,
            )
            refl,
    created-IsValid,
    rw (==_self h) refl,
    rw (==_self env.new_address) refl,
    (find_common_object_iff char_word (created char_word env s h object_id buffer) object_id
          env.new_address created-IsValid).1
        (rw (==_self env.new_address) (str_eq_self object_id)),
  )

  same_object :
      (o : Object)
      → (created char_word env s h object_id buffer).heap env.new_address ≡ some o
      → first_object object_id buffer ≡ o
  same_object o e =
      let e' : some (first_object object_id buffer) ≡ some o = rw (==_self env.new_address) at e in
      cc

  only_handle :
      count_handles env.new_address (created char_word env s h object_id buffer).handles < 2 ^ 32
  unfolding count_handles
  only_handle = rw (==_self env.new_address) (omega (arith, v.held env.new_address granted.free))

  safe : object_safe_to_delete (with_one_less (first_object object_id buffer)) ≡ true
  unfolding object_safe_to_delete
  safe = refl

  -- In a table that is in order, where no object has the name and every allocation succeeds:
  -- com_create returns a handle that is open on a new object, which com_create finds by the name.
  -- com_close of the handle frees the object: the table is in order, the address is free again, and
  -- the other objects and the open handles are those before com_create.
  pub com_close-com_create :
      (com_create char_word env object_id buffer s
        ≡ done (created char_word env s h object_id buffer, h, []))
      × (handle_object h (created char_word env s h object_id buffer).handles
          ≡ some env.new_address)
      × (find_common_object char_word (created char_word env s h object_id buffer) object_id
          ≡ some env.new_address)
      × (s' : ObjectTable) × (com_close char_word h (created char_word env s h object_id buffer)
          ≡ done (s', true))
      × IsValid char_word s'
      × (s'.heap env.new_address ≡ none)
      × ((b : ℕ) → (env.new_address == b) ≡ false → s'.heap b ≡ s.heap b)
      × (s'.handles ≡ s.handles)
  unfolding free_handle
  com_close-com_create =
      let (new, v', opened, there, found) = com_create_new in
      let (o, eo, s', closed) =
        com_close_lem char_word (created char_word env s h object_id buffer) h env.new_address v'
          opened only_handle in
      let freed : object_safe_to_delete (with_one_less o) ≡ true =
        ap (λ x. object_safe_to_delete (with_one_less x)) (sym (same_object o eo)) ∙ safe in
      (
        new,
        opened,
        found,
        s',
        rw freed at (closed.returned),
        closed.valid,
        rw freed at (closed.object_left),
        λ b ne. closed.others_left b ne ∙ rw ne refl,
        closed.handles_left ∙ rw (==_self h) refl,
      )
