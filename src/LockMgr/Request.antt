-- ===== src/LockMgr/Request.antt =====
-- lm_request_lock, lm_cancel_lock and the callbacks of daemon/lock_mgr.c. A wait on the condition
-- variable takes the changes that the other threads make, one for each time that it is woken; a
-- call that still waits when there are no more gives `none`.
pub mod Answer
use xha.Prelude.{
  ℕ, Bool, true, false, not, ◌||◌, ◌==◌, if◌then◌else◌, Option, none, some, List, [], ◌∷◌, ◌++◌,
}
use xha.HostMap.{init_set, init_reset}
use xha.Prelude.Hosts.{update, for_hosts}
use xha.HostWeight.{Str}
use xha.Config.{Config}
use xha.Data.{ComSm, ComSf, Call, hb_sf_accelerate, hb_sf_cancel_accelerate}
use xha.LockMgr.{LmVar, get_lock_node}

-- What the other threads do until the caller is woken, at each wait.
abbrev pub Wakes : Type 0
Wakes = List (LmVar → LmVar)

unfoldable pub is_requesting : LmVar → ℕ → Bool
is_requesting v node_index = v.pending_request || (v.sf.lm node_index).request

-- The callbacks, which copy the objects as they are released.
unfoldable pub lm_sf_updated : ComSf → LmVar → LmVar
lm_sf_updated sf v = record v { sf = sf }

unfoldable pub lm_sm_updated : ComSm → LmVar → LmVar
lm_sm_updated sm v = record v { sm = sm }

-- Wait until the first cleanup is done; the changes that are left come with the result.
unfoldable pub wait_cleanup : Wakes → LmVar → Option (Wakes × LmVar)
wait_cleanup [] v = if v.first_cleanup_done then some ([], v) else none
wait_cleanup (wake ∷ wakes) v =
    let rest = wait_cleanup wakes (wake v) in
    if v.first_cleanup_done then some (wake ∷ wakes, v) else rest

-- What lm_request_lock returns, `lmvar` then, the UUID that it has handed to write_master_uuid, and
-- its calls of the heartbeat, the first one first.
pub record LmAnswer : Type 0 where
  pub result : Bool
  pub var : LmVar
  pub master : Option Str
  pub calls : List Call

-- The loop of the wait ends with the host that has the lock, if there is one.
abbrev pub unless_locked : Option ℕ → LmVar → Option (Option ℕ × LmVar) → Option (Option ℕ × LmVar)
unless_locked (some index) v next = some (some index, v)
unless_locked none v next = next

module _ (cfg : Config) where
  unfoldable pub lm_initialize_lm_fields : ComSf → ComSf
  lm_initialize_lm_fields psf = record psf {
    lm = λ index. record {
      request = false;
      grant = if index == cfg.my_index then init_set else init_reset;
    };
  }

  -- The wait until some host has the lock, or the request is canceled or access is lost.
  unfoldable pub wait_lock : Wakes → LmVar → Option (Option ℕ × LmVar)
  unfolding is_requesting
  wait_lock [] v = unless_locked (get_lock_node cfg v) v none
  wait_lock (wake ∷ wakes) v =
      let woken = wake v in
      let rest = wait_lock wakes woken in
      unless_locked (get_lock_node cfg v) v (
        if not (is_requesting woken cfg.my_index) || not woken.sf.sf_access
        then some (none, woken)
        else rest)

  abbrev pub is_mine : Option ℕ → Bool
  is_mine (some index) = index == cfg.my_index
  is_mine none = false

  -- After the wait.
  unfoldable pub finish_request : Str → Option ℕ × LmVar → LmAnswer
  finish_request uuid (index, v) =
      let calls = hb_sf_accelerate ∷ hb_sf_cancel_accelerate ∷ [] in
      if is_mine index
      then record { result = true; var = v; master = some uuid; calls = calls }
      else record {
        result = false;
        var = record v { cancel_request = true };
        master = none;
        calls = calls;
      }

  unfoldable pub finish_wait : Str → Option (Option ℕ × LmVar) → Option LmAnswer
  unfolding finish_request
  finish_wait uuid (some woken) = some (finish_request uuid woken)
  finish_wait uuid none = none

  -- From the test on whether someone has locked.
  unfoldable pub request_lock : Str → Option ℕ → Wakes → LmVar → Option LmAnswer
  unfolding wait_lock finish_wait
  request_lock uuid (some index) wakes v =
      if index == cfg.my_index
      then some (record { result = true; var = v; master = some uuid; calls = [] })
      else some (record { result = false; var = v; master = none; calls = [] })
  request_lock uuid none wakes v =
      finish_wait uuid (wait_lock wakes (record v { pending_request = true }))

  unfoldable pub after_cleanup : Str → Option (Wakes × LmVar) → Option LmAnswer
  unfolding request_lock
  after_cleanup uuid (some (left, clean)) = request_lock uuid (get_lock_node cfg clean) left clean
  after_cleanup uuid none = none

  unfoldable pub lm_request_lock : Str → Wakes → LmVar → Option LmAnswer
  unfolding wait_cleanup after_cleanup
  lm_request_lock uuid wakes v = after_cleanup uuid (wait_cleanup wakes v)

-- The wait until the cancellation is acknowledged.
unfoldable pub wait_cancel : Wakes → LmVar → Option LmVar
wait_cancel [] v = if v.cancel_request then none else some v
wait_cancel (wake ∷ wakes) v =
    let rest = wait_cancel wakes (wake v) in if v.cancel_request then rest else some v

unfoldable pub lm_cancel_lock : Wakes → LmVar → Option LmVar
unfolding wait_cancel
lm_cancel_lock wakes v = wait_cancel wakes (record v { cancel_request = true })
