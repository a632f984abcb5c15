-- ===== src/Com.antt =====
-- The common objects of daemon/com.c: an object's record, the records of the threads at its lock,
-- and the critical sections of the calls that lock and unlock it. A pointer is a number, a buffer
-- is the list of its bytes (its length is `size`), and NULL is `none`. The answer of a call of
-- pthreads is an argument, and so are the clock and the calling thread. The checks of the debug
-- build are in.
pub mod Records
pub mod Table
pub mod Threads
use Prim.Native.Nat.{bit_xor}
use xha.Prelude.{
  ℕ, zero, suc, ◌+◌, ◌-◌, ◌*◌, ◌%◌, ◌^◌, Bool, true, false, not, ◌&&◌, List, [], ◌∷◌, Option, none,
  some, map, ◌==◌, if◌then◌else◌,
}
use xha.HostWeight.{Str}
use xha.Data.{Status, error_com_pthread}

-- LOCK_STATE_NONE and its kin.
pub data LockState : Type 0 where
  unused reader_acquiring reader_acquired writer_acquiring writer_acquired : LockState

abbrev pub is_unused : LockState → Bool
is_unused unused = true
is_unused reader_acquiring = false
is_unused reader_acquired = false
is_unused writer_acquiring = false
is_unused writer_acquired = false

abbrev pub thread_id_record_num : ℕ
thread_id_record_num = 16

-- THREAD_ID_RECORD
pub record ThreadIdRecord : Type 0 where
  pub lock_state : LockState
  pub changed_time : ℕ
  pub thread_id : ℕ

-- HA_COMMON_OBJECT_CALLBACK_LIST_ITEM; its list is a list.
pub record Callback : Type 0 where
  pub object_handle : ℕ
  pub func : ℕ

-- HA_COMMON_OBJECT without `next`, the order of a chain, and `rwlock`, which belongs to pthreads.
pub record Object : Type 0 where
  pub object_id : Str
  pub buffer : Option (List ℕ)
  pub callbacks : List Callback
  pub in_use : ℕ
  pub ref_count : ℕ
  pub checksum : ℕ
  pub thread_id_records : List ThreadIdRecord

-- A call of a callback: its function, with the handle and the data that it is given.
pub record Call : Type 0 where
  pub func : ℕ
  pub object_handle : ℕ
  pub buffer : Option (List ℕ)

-- How a call ends: it returns, it ends the process with a status, or an assertion fails.
pub data Outcome {ℓ} (A : Type ℓ) : Type ℓ where
  done : A → Outcome A
  exit_process : Status → Outcome A
  failed_assertion : Outcome A

infixl 5 ◌>>=◌
abbrev pub ◌>>=◌ {ℓ κ} : {A : Type ℓ} {B : Type κ} → Outcome A → (A → Outcome B) → Outcome B
done a >>= f = f a
exit_process e >>= f = exit_process e
failed_assertion >>= f = failed_assertion

-- `++` and `--` of a counter of 32 bits.
abbrev pub increment : ℕ → ℕ
increment n = (n + 1) % 2 ^ 32

abbrev pub decrement : ℕ → ℕ
decrement n = (n + 2 ^ 32 - 1) % 2 ^ 32

pub checksum_bytes : List ℕ → ℕ → ℕ
checksum_bytes [] checksum = checksum
checksum_bytes (b ∷ bs) checksum = checksum_bytes bs (bit_xor checksum b)

unfoldable pub calc_checksum_object_buffer : Option (List ℕ) → ℕ
calc_checksum_object_buffer none = 0
calc_checksum_object_buffer (some bytes) = checksum_bytes bytes 0

-- The first free record is taken; `none` when the table is full.
unfoldable pub take_record : LockState → ℕ → ℕ → List ThreadIdRecord → Option (List ThreadIdRecord)
take_record state self now [] = none
take_record state self now (r ∷ rs) =
    if is_unused r.lock_state
    then some (record { lock_state = state; thread_id = self; changed_time = now } ∷ rs)
    else elim (take_record state self now rs) [ none ↦ none | some rs' ↦ some (r ∷ rs') ]

-- The first record in use that is the thread's changes; `none` when the thread has none.
unfoldable pub change_record :
    LockState → ℕ → ℕ → List ThreadIdRecord → Option (List ThreadIdRecord)
change_record state self now [] = none
change_record state self now (r ∷ rs) =
    if not (is_unused r.lock_state) && r.thread_id == self
    then some (record r { lock_state = state; changed_time = now } ∷ rs)
    else elim (change_record state self now rs) [ none ↦ none | some rs' ↦ some (r ∷ rs') ]

abbrev set_record : Option (List ThreadIdRecord) → Object → Outcome Object
set_record none o = failed_assertion
set_record (some rs) o = done (record o { thread_id_records = rs })

unfoldable pub set_thread_id_record : LockState → ℕ → ℕ → Object → Outcome Object
set_thread_id_record reader_acquiring self now o =
    set_record (take_record reader_acquiring self now o.thread_id_records) o
set_thread_id_record writer_acquiring self now o =
    set_record (take_record writer_acquiring self now o.thread_id_records) o
set_thread_id_record state self now o =
    set_record (change_record state self now o.thread_id_records) o

-- com_writer_lock and com_reader_lock up to the call of pthreads.
unfoldable pub lock_begin : LockState → ℕ → ℕ → Object → Outcome Object
unfolding set_thread_id_record
lock_begin acquiring self now o =
    set_thread_id_record acquiring self now (record o { in_use = increment o.in_use })

abbrev check_pthread {ℓ} : {A : Type ℓ} → ℕ → A → Outcome A
check_pthread pthread_ret a = if pthread_ret == 0 then done a else exit_process error_com_pthread

-- com_writer_lock and com_reader_lock from there on; the object is returned with its buffer.
unfoldable pub lock_end : LockState → ℕ → ℕ → ℕ → Object → Outcome Object
unfolding set_thread_id_record
lock_end acquired self now pthread_ret o =
    set_thread_id_record acquired self now o >>= check_pthread pthread_ret

abbrev pub run_callbacks : Object → List Call
run_callbacks o =
    map
      (λ (c : Callback). record {
        func = c.func;
        object_handle = c.object_handle;
        buffer = o.buffer;
      })
      o.callbacks

-- The callbacks that run on the live data, each of which finds what the ones before it have made of
-- them; `act` is what a function makes of the data.
unfoldable pub call_callbacks :
    (ℕ → Option (List ℕ) → Option (List ℕ))
    → List Callback
    → Option (List ℕ)
    → Option (List ℕ) × List Call
call_callbacks act [] buffer = (buffer, [])
call_callbacks act (c ∷ cs) buffer =
    let (left, calls) = call_callbacks act cs (act c.func buffer) in
    (left, record { func = c.func; object_handle = c.object_handle; buffer = buffer } ∷ calls)

-- com_writer_unlock: the object after it, and the callbacks that have run.
unfoldable pub com_writer_unlock :
    (ℕ → Option (List ℕ) → Option (List ℕ)) → ℕ → ℕ → ℕ → Object → Outcome (Object × List Call)
unfolding set_thread_id_record call_callbacks
com_writer_unlock act self now pthread_ret o =
    let (buffer, calls) = call_callbacks act o.callbacks o.buffer in
    set_thread_id_record unused self now (record o {
      buffer = buffer;
      checksum = calc_checksum_object_buffer buffer;
      in_use = decrement o.in_use;
    })
    >>= λ o'. check_pthread pthread_ret (o', calls)

-- com_reader_unlock; it first checks that no reader changed the data.
unfoldable pub com_reader_unlock : ℕ → ℕ → ℕ → Object → Outcome Object
unfolding set_thread_id_record
com_reader_unlock self now pthread_ret o =
    if o.checksum == calc_checksum_object_buffer o.buffer
    then set_thread_id_record unused self now (record o { in_use = decrement o.in_use })
      >>= check_pthread pthread_ret
    else failed_assertion

abbrev pub com_writer_lock_begin : ℕ → ℕ → Object → Outcome Object
com_writer_lock_begin self now o = lock_begin writer_acquiring self now o

abbrev pub com_writer_lock_end : ℕ → ℕ → ℕ → Object → Outcome Object
com_writer_lock_end self now pthread_ret o = lock_end writer_acquired self now pthread_ret o

abbrev pub com_reader_lock_begin : ℕ → ℕ → Object → Outcome Object
com_reader_lock_begin self now o = lock_begin reader_acquiring self now o

abbrev pub com_reader_lock_end : ℕ → ℕ → ℕ → Object → Outcome Object
com_reader_lock_end self now pthread_ret o = lock_end reader_acquired self now pthread_ret o

-- A table with no record in use.
unfoldable pub new_records : ℕ → List ThreadIdRecord
new_records zero = []
new_records (suc n) =
    record { lock_state = unused; changed_time = 0; thread_id = 0 } ∷ new_records n

abbrev pub fresh_object : Str → Option (List ℕ) → Object
fresh_object object_id buffer = record {
  object_id = object_id;
  buffer = buffer;
  callbacks = [];
  in_use = 0;
  ref_count = 0;
  checksum = calc_checksum_object_buffer buffer;
  thread_id_records = new_records thread_id_record_num;
}

-- No handle, no call under way, and no callback.
unfoldable pub object_safe_to_delete : Object → Bool
object_safe_to_delete o =
    o.ref_count == 0 && o.in_use == 0 && elim (o.callbacks) [ [] ↦ true | c ∷ cs ↦ false ]

-- new_object; whether malloc and strdup give the object, its name and its buffer are arguments.
unfoldable pub new_object : Bool → Bool → Bool → Str → Option (List ℕ) → Option Object
new_object got_object got_id got_buffer object_id none =
    if got_object && got_id then some (fresh_object object_id none) else none
new_object got_object got_id got_buffer object_id (some bytes) =
    if got_object && got_id && got_buffer then some (fresh_object object_id (some bytes)) else none
