-- ===== src/Com/Table.antt =====
-- The table of common objects in daemon/com.c: com_create, com_open, com_close,
-- com_register_callback and com_deregister_callback. Objects and handles stand in stores by their
-- addresses, and a chain of the hash table is the list of its objects' addresses. The addresses
-- that malloc gives are arguments; `none` where it fails.
pub mod Valid
pub mod Put
pub mod Close
pub mod Create
pub mod RoundTrip
use xha.Prelude.{
  ℕ, zero, suc, ◌+◌, ◌*◌, ◌%◌, ◌^◌, Bool, true, false, not, List, [], ◌∷◌, Option, none, some, ◌==◌,
  if◌then◌else◌,
}
use xha.Prelude.Hosts.{update}
use xha.HostWeight.{Str, str_eq}
use xha.Data.{
  error_com_insufficient_resource, error_com_pthread, error_com_callback_not_exist,
  error_com_invalid_handle, Status, success,
}
use xha.Com.{
  writer_acquiring, writer_acquired, unused, Object, Callback, Call, Outcome, done, exit_process,
  failed_assertion, ◌>>=◌, increment, decrement, calc_checksum_object_buffer, set_thread_id_record,
  run_callbacks, object_safe_to_delete, new_object,
}

abbrev pub hash_table_place_constant : ℕ
hash_table_place_constant = 137

abbrev pub hash_table_prime_number : ℕ
hash_table_prime_number = 1021

-- The loop of calc_hash; `char_word` is the value of a character when it is made an MTC_U32.
unfoldable pub hash_from : (ℕ → ℕ) → Str → ℕ → ℕ
hash_from char_word [] h = h
hash_from char_word (c ∷ cs) h =
    hash_from char_word cs ((h * hash_table_place_constant + char_word c) % 2 ^ 32)

unfoldable pub calc_hash : (ℕ → ℕ) → Str → ℕ
calc_hash char_word object_id = hash_from char_word object_id 0 % hash_table_prime_number

-- The objects by address, the chains of common_object_hash, and the open handles: the address of
-- each with that of its object.
pub record ObjectTable : Type 0 where
  pub heap : ℕ → Option Object
  pub chain : ℕ → List ℕ
  pub handles : List (ℕ × ℕ)

abbrev pub has_id : Option Object → Str → Bool
has_id none object_id = false
has_id (some o) object_id = str_eq o.object_id object_id

-- The walk along a chain.
unfoldable pub find_in_chain : (ℕ → Option Object) → Str → List ℕ → Option ℕ
find_in_chain heap object_id [] = none
find_in_chain heap object_id (a ∷ rest) =
    if has_id (heap a) object_id then some a else find_in_chain heap object_id rest

-- The walk that takes the object out of its chain: the address and the chain that is left.
unfoldable pub delete_from_chain : (ℕ → Option Object) → Str → List ℕ → Option (ℕ × List ℕ)
delete_from_chain heap object_id [] = none
delete_from_chain heap object_id (a ∷ rest) =
    if has_id (heap a) object_id
    then some (a, rest)
    else elim (delete_from_chain heap object_id rest) [
      | none ↦ none
      | some (b, bs) ↦ some (b, a ∷ bs)
    ]

-- The object of a handle.
unfoldable pub handle_object : ℕ → List (ℕ × ℕ) → Option ℕ
handle_object h [] = none
handle_object h ((k, a) ∷ hs) = if k == h then some a else handle_object h hs

unfoldable pub free_handle : ℕ → List (ℕ × ℕ) → List (ℕ × ℕ)
free_handle h [] = []
free_handle h ((k, a) ∷ hs) = if k == h then hs else (k, a) ∷ free_handle h hs

abbrev pub put_object : ℕ → Object → ObjectTable → ObjectTable
put_object a o s = record s { heap = update s.heap a (some o) }

-- An access through a pointer to an object; it must be there.
abbrev pub on_object : {A : Type 0} → Option Object → (Object → Outcome A) → Outcome A
on_object none f = failed_assertion
on_object (some o) f = f o

-- The walk of com_deregister_callback.
unfoldable pub delete_callback : ℕ → List Callback → Option (List Callback)
delete_callback func [] = none
delete_callback func (c ∷ cs) =
    if c.func == func
    then some cs
    else elim (delete_callback func cs) [ none ↦ none | some cs' ↦ some (c ∷ cs') ]

-- The first critical section of com_create at an object that exists.
unfoldable pub open_begin : ℕ → ℕ → ℕ → Object → Option ℕ → ObjectTable → Outcome (ObjectTable × ℕ)
open_begin self now a o none s = exit_process error_com_insufficient_resource
open_begin self now a o (some h) s =
    set_thread_id_record writer_acquiring self now
      (record o { ref_count = increment o.ref_count; in_use = increment o.in_use })
    >>= λ o'. done (record (put_object a o' s) { handles = (h, a) ∷ s.handles }, h)

-- The second one, where the object has data or none are given.
unfoldable pub open_end : ℕ → ℕ → Object → Outcome Object
open_end self now o = set_thread_id_record unused self now o >>= λ o'.
    done (record o' { in_use = decrement o'.in_use })

-- The callbacks run on the new data, and the lock is given back.
unfoldable pub fill_end : ℕ → ℕ → ℕ → Object → Outcome (Object × List Call)
fill_end self now unlock_ret o =
    if unlock_ret == 0
    then set_thread_id_record unused self now (record o { in_use = decrement o.in_use })
      >>= (λ o'. done (o', run_callbacks o))
    else exit_process error_com_pthread

-- The second one, where the object has no data and some are given: under the writer lock the data
-- are put in and the callbacks run. The rwlock's two answers are `lock_ret` and `unlock_ret`.
unfoldable pub open_fill : ℕ → ℕ → ℕ → ℕ → Bool → List ℕ → Object → Outcome (Object × List Call)
unfolding fill_end
open_fill self now lock_ret unlock_ret got_buffer bytes o =
    set_thread_id_record writer_acquired self now o >>= λ o'.
    if not (lock_ret == 0)
    then exit_process error_com_pthread
    else if not got_buffer
    then exit_process error_com_insufficient_resource
    else fill_end self now unlock_ret
        (record o' { buffer = some bytes; checksum = calc_checksum_object_buffer (some bytes) })

module _ (char_word : ℕ → ℕ) where
  unfoldable pub find_common_object : ObjectTable → Str → Option ℕ
  unfolding calc_hash
  find_common_object s object_id =
      find_in_chain s.heap object_id (s.chain (calc_hash char_word object_id))

  unfoldable pub insert_common_object : ℕ → Object → ObjectTable → ObjectTable
  unfolding calc_hash
  insert_common_object a o s =
      let hash_value = calc_hash char_word o.object_id in
      record (put_object a o s) { chain = update s.chain hash_value (a ∷ s.chain hash_value) }

  -- What is left of com_create once there is no object of the name: its object, if it could be
  -- allocated, stands at `a`.
  unfoldable pub create_new :
      ℕ → Option Object → ℕ → Option ℕ → ObjectTable → Outcome (ObjectTable × ℕ)
  unfolding insert_common_object
  create_new a none pthread_ret new_handle s = exit_process error_com_insufficient_resource
  create_new a (some o) pthread_ret none s =
      if pthread_ret == 0
      then exit_process error_com_insufficient_resource
      else exit_process error_com_pthread
  create_new a (some o) pthread_ret (some h) s =
      if pthread_ret == 0
      then done (
        record (insert_common_object a (record o { ref_count = increment o.ref_count }) s) {
          handles = (h, a) ∷ s.handles;
        },
        h,
      )
      else exit_process error_com_pthread

  -- com_close where the object is to be freed; whether it was is returned with the table.
  unfoldable pub delete_object : ℕ → Object → ObjectTable → Outcome (ObjectTable × Bool)
  unfolding calc_hash
  delete_object a o s =
      let hash_value = calc_hash char_word o.object_id in
      elim (delete_from_chain s.heap o.object_id (s.chain hash_value)) [
        | none ↦ failed_assertion
        | some (b, rest) ↦
            done (
              record s { heap = update s.heap a none; chain = update s.chain hash_value rest },
              true,
            )
      ]

  unfoldable pub close_object : ℕ → Object → ObjectTable → Outcome (ObjectTable × Bool)
  unfolding delete_object
  close_object a o s =
      let o' = record o { ref_count = if o.ref_count == 0 then 0 else decrement o.ref_count } in
      if object_safe_to_delete o'
      then delete_object a o' (put_object a o' s)
      else done (put_object a o' s, false)

  unfoldable pub close_handle : ℕ → Option ℕ → ObjectTable → Outcome (ObjectTable × Bool)
  unfolding close_object
  close_handle h none s = failed_assertion
  close_handle h (some a) s = on_object (s.heap a) λ o.
      close_object a o s >>= λ r. done (record (r.0) { handles = free_handle h r.0.handles }, r.1)

  -- A handle that is not open is a dangling pointer, which the call takes for invalid at best.
  unfoldable pub com_close : ℕ → ObjectTable → Outcome (ObjectTable × Bool)
  unfolding close_handle
  com_close h s = close_handle h (handle_object h s.handles) s

-- What com_create gets from outside: the addresses from malloc and whether it succeeds, the answers
-- of pthreads, the thread and the time, and what other threads do between its two critical
-- sections.
pub record CreateEnv : Type 0 where
  pub self : ℕ
  pub now : ℕ
  pub new_address : ℕ
  pub got_object : Bool
  pub got_id : Bool
  pub got_buffer : Bool
  pub new_handle : Option ℕ
  pub init_ret : ℕ
  pub lock_ret : ℕ
  pub unlock_ret : ℕ
  pub between : ObjectTable → ObjectTable

-- The data to put in: some are given, and the object has none.
abbrev pub missing_data : Option (List ℕ) → Option (List ℕ) → Option (List ℕ)
missing_data none given = given
missing_data (some bytes) given = none

-- The second critical section of com_create at an object that exists.
unfoldable pub open_second :
    CreateEnv → Option (List ℕ) → ℕ → Object → ObjectTable → Outcome (ObjectTable × List Call)
open_second env buffer a o s = elim (missing_data o.buffer buffer) [
  | none ↦ open_end env.self env.now o >>= λ o'. done (put_object a o' s, [])
  | some bytes ↦
      open_fill env.self env.now env.lock_ret env.unlock_ret env.got_buffer bytes o >>= λ r.
      done (put_object a (r.0) s, r.1)
]

-- com_create at the object of the name, if there is one.
unfoldable pub create_at :
    (ℕ → ℕ)
    → CreateEnv
    → Str
    → Option (List ℕ)
    → Option ℕ
    → ObjectTable
    → Outcome (ObjectTable × ℕ × List Call)
unfolding create_new open_begin open_second
create_at char_word env object_id buffer none s =
    create_new char_word env.new_address
      (new_object env.got_object env.got_id env.got_buffer object_id buffer) env.init_ret
      env.new_handle s
    >>= λ r. done (r.0, r.1, [])
create_at char_word env object_id buffer (some a) s = on_object (s.heap a) λ o.
    open_begin env.self env.now a o env.new_handle s >>= λ r.
    on_object ((env.between (r.0)).heap a)
      λ o'. open_second env buffer a o' (env.between (r.0)) >>= λ q. done (q.0, r.1, q.1)

-- com_create: the table, the new handle, and the callbacks that ran.
unfoldable pub com_create :
    (ℕ → ℕ)
    → CreateEnv
    → Str
    → Option (List ℕ)
    → ObjectTable
    → Outcome (ObjectTable × ℕ × List Call)
unfolding create_at
com_create char_word env object_id buffer s =
    create_at char_word env object_id buffer (find_common_object char_word s object_id) s

abbrev pub com_open :
    (ℕ → ℕ) → CreateEnv → Str → ObjectTable → Outcome (ObjectTable × ℕ × List Call)
com_open char_word env object_id s = com_create char_word env object_id none s

-- com_register_callback; `got_item` is whether malloc gives the item, and a function NULL is
-- `none`.
unfoldable pub com_register_callback : ℕ → Option ℕ → Bool → Object → Outcome Object
com_register_callback h none got_item o = failed_assertion
com_register_callback h (some func) got_item o =
    if got_item
    then done (record o { callbacks = record { object_handle = h; func = func } ∷ o.callbacks })
    else exit_process error_com_insufficient_resource

unfoldable pub com_deregister_callback : Option ℕ → Object → Outcome Object
com_deregister_callback none o = failed_assertion
com_deregister_callback (some func) o = elim (delete_callback func o.callbacks) [
  | none ↦ failed_assertion
  | some cs ↦ done (record o { callbacks = cs })
]
