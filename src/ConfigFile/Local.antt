-- ===== src/ConfigFile/Local.antt =====
-- Which host the reading of the configuration, lib/config.c, takes for this one.
use xha.Prelude.{
  ◌||◌, ◌-◌, ◌^◌, ℕ, zero, suc, ◌≤◌, ◌<◌, ◌≡◌, subst, Bool, true, false, List, [], ◌∷◌, Option,
  none, some, ltb, if◌then◌else◌, if-elim, arith, inl, inr, Bool-cases, ℕ_discrete,
}
use xha.Prelude.Int.{ℤ, pos}
use xha.HostWeight.{Str}
use xha.XapiMon.{length}
use xha.ConfigFile.Walk.{Gives, and_then-Gives, any-Gives}
use xha.ConfigFile.Bounds.{interpret_config_file-IsAccepted}
use xha.ConfigFile.{
  Address, HostEntry, HaConfig, CommonElement, LocalhostElement, localhost_id_element,
  heartbeat_interface_element, physical_interface_element, state_file_element,
  watchdog_mode_element, other_localhost_element, localhost_element, RootElement, common_config,
  local_config, walk, eq_ℤ, uuid_strcpy, find_localhost, set_index, localhost_step, local_step,
  walk_local_config, root_step, or_here, valid_config, check_config, interpret_config_file,
}

walk_one :
    {A C : Type 0} (P : C → Type 0) (step : A → C → Option C) (e : A) (c : C)
    → Gives P (step e c)
    → Gives P (walk step (e ∷ []) c)
unfolding walk
walk_one P step e c h = and_then-Gives P P (walk step []) (step e c) h (λ c' h'. h')

-- An element that names this host; and whether one of them does.
abbrev pub names_host : LocalhostElement → Bool
names_host (localhost_id_element txt) = true
names_host _ = false

abbrev pub any_names_host : List LocalhostElement → Bool
any_names_host [] = false
any_names_host (l ∷ ls) = names_host l || any_names_host ls

-- The first of the numbers below `n` that pass a test, if one does.
abbrev IsFound : (ℕ → Bool) → ℕ → Option ℕ → Type 0
IsFound test n none = (j : ℕ) → j < n → test j ≡ false
IsFound test n (some i) = (test i ≡ true) × ((j : ℕ) → j < i → test j ≡ false)

or_here-IsFound :
    (test : ℕ → Bool) (n : ℕ) (o : Option ℕ)
    → IsFound test n o
    → IsFound test (suc n) (or_here o (if test n then some n else none))
or_here-IsFound test n (some i) h = h
or_here-IsFound test n none h = elim (Bool-cases (test n)) [
  | inl here ↦ rw here (here, h)
  | inr other ↦
      rw other (λ j lt. elim (ℕ_discrete j n) [ yes e ↦ rw (e, other) | no ne ↦ h j (omega arith) ])
]

module _ (getaddrinfo : Str → Option Address) (strtol : Str → ℤ × Bool) (same_id : Str → Str → Bool)
    (qsort : ℕ → (ℕ → HostEntry) → ℕ → HostEntry) (path_max : ℕ) where
  -- This host is the first one whose UUID is the same as `uuid`.
  abbrev IsLocal : Str → HaConfig → Type 0
  IsLocal uuid c =
      (same_id uuid ((c.host c.localhost_index).host_id) ≡ true)
      × ((j : ℕ) → j < c.localhost_index → same_id uuid ((c.host j).host_id) ≡ false)

  -- The first of the `n` hosts that is the same.
  find_localhost_lem :
      (uuid : Str) (host : ℕ → HostEntry) (n : ℕ)
      → IsFound
          (λ j. same_id uuid ((host j).host_id))
          n
          (find_localhost getaddrinfo strtol same_id qsort path_max uuid host n)
  unfolding find_localhost
  find_localhost_lem uuid host zero = λ j lt. absurd (omega arith)
  find_localhost_lem uuid host (suc n) =
      or_here-IsFound (λ j. same_id uuid ((host j).host_id)) n
        (find_localhost getaddrinfo strtol same_id qsort path_max uuid host n)
        (find_localhost_lem uuid host n)

  localhost_step-IsLocal :
      (uuid : Str) (e : LocalhostElement) (c : HaConfig)
      → names_host e ≡ false
      → IsLocal uuid c
      → Gives (IsLocal uuid) (localhost_step getaddrinfo strtol same_id qsort path_max e c)
  unfolding localhost_step
  localhost_step-IsLocal uuid (localhost_id_element txt) c unnamed h =
      absurd (ground (arith, unnamed))
  localhost_step-IsLocal uuid (heartbeat_interface_element none) c unnamed h = tt
  localhost_step-IsLocal uuid (heartbeat_interface_element (some txt)) c unnamed h = h
  localhost_step-IsLocal uuid (physical_interface_element none) c unnamed h = tt
  localhost_step-IsLocal uuid (physical_interface_element (some txt)) c unnamed h =
      if-elim (Gives (IsLocal uuid)) (ltb (length txt) 64) (λ fits. h) (λ long. h)
  localhost_step-IsLocal uuid (state_file_element none) c unnamed h = tt
  localhost_step-IsLocal uuid (state_file_element (some txt)) c unnamed h = h
  localhost_step-IsLocal uuid (watchdog_mode_element none) c unnamed h = tt
  localhost_step-IsLocal uuid (watchdog_mode_element (some txt)) c unnamed h = h
  localhost_step-IsLocal uuid other_localhost_element c unnamed h = h

  set_index-IsLocal :
      (uuid : Str) (c : HaConfig) (o : Option ℕ)
      → IsFound (λ j. same_id uuid ((c.host j).host_id)) c.hostnum o
      → Gives (IsLocal uuid) (set_index getaddrinfo strtol same_id qsort path_max c o)
  set_index-IsLocal uuid c none h = tt
  set_index-IsLocal uuid c (some i) h = h

  rest-IsLocal :
      (uuid : Str) (ls : List LocalhostElement) (c : HaConfig)
      → any_names_host ls ≡ false
      → IsLocal uuid c
      → Gives (IsLocal uuid) (walk (localhost_step getaddrinfo strtol same_id qsort path_max) ls c)
  unfolding walk
  rest-IsLocal uuid [] c unnamed h = h
  rest-IsLocal uuid (l ∷ ls) c unnamed h =
      and_then-Gives (IsLocal uuid) (IsLocal uuid)
        (walk (localhost_step getaddrinfo strtol same_id qsort path_max) ls)
        (localhost_step getaddrinfo strtol same_id qsort path_max l c)
        (localhost_step-IsLocal uuid l c (ground (arith, unnamed)) h)
        (λ c' h'. rest-IsLocal uuid ls c' (ground (arith, unnamed)) h')

  localhost-IsLocal :
      (txt : Str) (ls : List LocalhostElement) (c : HaConfig)
      → any_names_host ls ≡ false
      → Gives (IsLocal (uuid_strcpy txt).0) (
          walk
            (localhost_step getaddrinfo strtol same_id qsort path_max)
            (localhost_id_element (some txt) ∷ ls)
            c)
  unfolding walk localhost_step
  localhost-IsLocal txt ls c unnamed =
      and_then-Gives (IsLocal (uuid_strcpy txt).0) (IsLocal (uuid_strcpy txt).0)
        (walk (localhost_step getaddrinfo strtol same_id qsort path_max) ls) _
        (if-elim (Gives (IsLocal (uuid_strcpy txt).0)) (eq_ℤ ((uuid_strcpy txt).1) (pos 0))
          (λ good.
            set_index-IsLocal (uuid_strcpy txt).0 c
              (find_localhost getaddrinfo strtol same_id qsort path_max (uuid_strcpy txt).0 c.host
                c.hostnum)
              (find_localhost_lem (uuid_strcpy txt).0 c.host c.hostnum))
          (λ bad. tt))
        (λ c' h. rest-IsLocal (uuid_strcpy txt).0 ls c' unnamed h)

  -- A file with the two parts of the documented form, whose local part starts with the HostID.
  abbrev pub file_of : List CommonElement → Str → List LocalhostElement → List RootElement
  file_of common txt ls =
      common_config common
      ∷ local_config (localhost_element (localhost_id_element (some txt) ∷ ls) ∷ [])
      ∷ []

  check_config-IsLocal :
      (uuid : Str) (c : HaConfig)
      → IsLocal uuid c
      → Gives (IsLocal uuid) (check_config getaddrinfo strtol same_id qsort path_max c)
  check_config-IsLocal uuid c h =
      if-elim (Gives (IsLocal uuid)) (valid_config getaddrinfo strtol same_id qsort path_max c)
        (λ good. h) (λ bad. tt)

  interpret_config_file-IsLocal :
      (common : List CommonElement) (txt : Str) (ls : List LocalhostElement) (c : HaConfig)
      → any_names_host ls ≡ false
      → Gives (IsLocal (uuid_strcpy txt).0) (
          interpret_config_file getaddrinfo strtol same_id qsort path_max (file_of common txt ls) c)
  unfolding interpret_config_file walk root_step walk_local_config local_step
  interpret_config_file-IsLocal common txt ls c unnamed =
      let P = IsLocal (uuid_strcpy txt).0 in
      let start = record c { localhost_index = 2 ^ 32 - 1 } in
      and_then-Gives P P (check_config getaddrinfo strtol same_id qsort path_max)
        (walk (root_step getaddrinfo strtol same_id qsort path_max) (file_of common txt ls) start)
        (and_then-Gives (λ c'. ℕ) P _
          (root_step getaddrinfo strtol same_id qsort path_max (common_config common) start)
          (any-Gives _)
          (λ c' any.
            walk_one P (root_step getaddrinfo strtol same_id qsort path_max)
              (local_config (localhost_element (localhost_id_element (some txt) ∷ ls) ∷ [])) c'
              (walk_one P (local_step getaddrinfo strtol same_id qsort path_max)
                (localhost_element (localhost_id_element (some txt) ∷ ls)) c'
                (localhost-IsLocal txt ls c' unnamed))))
        (check_config-IsLocal (uuid_strcpy txt).0)

  -- When interpret_config_file accepts a file of a common part and then a local part, whose one
  -- HostID comes first in it, into a configuration that has no host yet: there are at most 64
  -- hosts; this host is one of them, the first whose UUID strncmp finds the same as the HostID; and
  -- a port, a heartbeat interface and a path of the state file are set.
  pub interpret_config_file_lem :
      (common : List CommonElement) (txt : Str) (ls : List LocalhostElement) (c c' : HaConfig)
      → any_names_host ls ≡ false
      → c.hostnum ≡ 0
      → interpret_config_file getaddrinfo strtol same_id qsort path_max (file_of common txt ls) c
        ≡ some c'
      → (c'.hostnum ≤ 64)
        × (c'.localhost_index < c'.hostnum)
        × (same_id (uuid_strcpy txt).0 ((c'.host c'.localhost_index).host_id) ≡ true)
        × ((j : ℕ)
            → j < c'.localhost_index
            → same_id (uuid_strcpy txt).0 ((c'.host j).host_id) ≡ false)
        × (0 < c'.udp_port)
        × ¬ (c'.heartbeat_interface ≡ [])
        × ¬ (c'.statefile_path ≡ [])
  interpret_config_file_lem common txt ls c c' unnamed empty e =
      let (few, lt, port, interface, path) =
        interpret_config_file-IsAccepted getaddrinfo strtol same_id qsort path_max
          (file_of common txt ls) c c' empty e in
      let (same, first) =
        subst (Gives (IsLocal (uuid_strcpy txt).0)) e
          (interpret_config_file-IsLocal common txt ls c unnamed) in
      (few, lt, same, first, port, interface, path)
