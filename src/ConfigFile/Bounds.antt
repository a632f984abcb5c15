-- ===== src/ConfigFile/Bounds.antt =====
-- What lib/config.c promises of the configuration that it accepts.
use xha.Prelude.{
  ◌||◌, ℕ, zero, suc, ◌-◌, ◌^◌, ap, subst, ◌≤◌, ◌<◌, ◌≡◌, refl, Bool, not, List, [], Option, none,
  some, ltb, leb, ◌==◌, if-elim, arith, inl, inr, ◌⊎◌,
}
use xha.Prelude.Int.{ℤ, pos, ltb_ℤ}
use xha.HostWeight.{Str}
use xha.HostMap.{max_host_num}
use xha.Script.Query.{u32}
use xha.XapiMon.{length}
use xha.ConfigFile.Walk.{Gives, and_then-Gives, walk-Gives, any-Gives, or_here-Gives, Gives-weaken}
use xha.ConfigFile.{
  Address, inet, inet6, other_family, HostEntry, HaConfig, HostElement, host_id_element,
  ip_address_element, other_host_element, Parameter, CommonElement, generation_uuid_element,
  udp_port_element, host_element, parameters_element, other_common_element, LocalhostElement,
  localhost_id_element, heartbeat_interface_element, physical_interface_element, state_file_element,
  watchdog_mode_element, other_localhost_element, LocalElement, localhost_element,
  other_local_element, RootElement, common_config, local_config, other_root_element, walk,
  begins_with_nul, eq_ℤ, uuid_strcpy, set_address, host_step, add_host, walk_host_config,
  parameter_text, parameter_step, walk_parameters_config, common_step, sort_hosts,
  walk_common_config, find_localhost, set_index, localhost_step, local_step, walk_local_config,
  root_step, valid_config, check_config, interpret_config_file,
}

-- The number of hosts is in range, and this host is one of them or not yet known.
pub record IsInRange (c : HaConfig) : Type 0 where
  pub hostnum : c.hostnum ≤ 64
  pub index : (c.localhost_index < c.hostnum) ⊎ (64 ≤ c.localhost_index)

same-IsInRange :
    (c c' : HaConfig)
    → c'.hostnum ≡ c.hostnum
    → c'.localhost_index ≡ c.localhost_index
    → IsInRange c
    → IsInRange c'
same-IsInRange c c' e i v = record {
  hostnum = omega (arith, e, v.hostnum);
  index = elim v.index [
    | inl lt ↦ inl (omega (arith, e, i, lt))
    | inr ge ↦ inr (omega (arith, i, ge))
  ];
}

module _ (getaddrinfo : Str → Option Address) (strtol : Str → ℤ × Bool) (same_id : Str → Str → Bool)
    (qsort : ℕ → (ℕ → HostEntry) → ℕ → HostEntry) (path_max : ℕ) where
  -- What an element of a host leaves alone.
  abbrev AsBefore : HaConfig → HaConfig → Type 0
  AsBefore c c' = (c'.hostnum ≡ c.hostnum) × (c'.localhost_index ≡ c.localhost_index)

  find_localhost-bound :
      (uuid : Str) (host : ℕ → HostEntry) (n : ℕ)
      → Gives (λ i. i < n) (find_localhost getaddrinfo strtol same_id qsort path_max uuid host n)
  unfolding find_localhost
  find_localhost-bound uuid host zero = tt
  find_localhost-bound uuid host (suc n) =
      or_here-Gives (λ i. i < suc n)
        (find_localhost getaddrinfo strtol same_id qsort path_max uuid host n) _
        (Gives-weaken (λ i. i < n) (λ i. i < suc n) _ (λ i h. omega (arith, h))
          (find_localhost-bound uuid host n))
        (if-elim (λ o. Gives (λ i. i < suc n) o) (same_id uuid ((host n).host_id))
          (λ found. omega arith) (λ other. tt))

  set_address-AsBefore :
      (c0 c : HaConfig) (a : Address)
      → AsBefore c0 c
      → Gives (AsBefore c0) (set_address getaddrinfo strtol same_id qsort path_max c a)
  set_address-AsBefore c0 c (inet a) h = h
  set_address-AsBefore c0 c (inet6 a) h = h
  set_address-AsBefore c0 c (other_family a) h = tt

  host_step-AsBefore :
      (c0 : HaConfig) (e : HostElement) (c : HaConfig)
      → AsBefore c0 c
      → Gives (AsBefore c0) (host_step getaddrinfo strtol same_id qsort path_max e c)
  unfolding host_step
  host_step-AsBefore c0 (host_id_element none) c h = tt
  host_step-AsBefore c0 (host_id_element (some txt)) c h =
      if-elim (λ o. Gives (AsBefore c0) o) (ltb_ℤ ((uuid_strcpy txt).1) (pos 0)) (λ bad. tt)
        (λ good. h)
  host_step-AsBefore c0 (ip_address_element none) c h = tt
  host_step-AsBefore c0 (ip_address_element (some txt)) c h =
      and_then-Gives (λ a. ℕ) (AsBefore c0)
        (set_address getaddrinfo strtol same_id qsort path_max c) (getaddrinfo txt)
        (any-Gives (getaddrinfo txt)) (λ a any. set_address-AsBefore c0 c a h)
  host_step-AsBefore c0 other_host_element c h = h

  walk_host_config-IsInRange :
      (es : List HostElement) (c : HaConfig)
      → IsInRange c
      → Gives IsInRange (walk_host_config getaddrinfo strtol same_id qsort path_max es c)
  unfolding walk_host_config
  walk_host_config-IsInRange es c v =
      if-elim (λ o. Gives IsInRange o) (leb max_host_num c.hostnum) (λ full. tt)
        (λ room.
          and_then-Gives (AsBefore c) IsInRange (add_host getaddrinfo strtol same_id qsort path_max)
            (walk (host_step getaddrinfo strtol same_id qsort path_max) es c)
            (walk-Gives (AsBefore c) (host_step getaddrinfo strtol same_id qsort path_max)
              (host_step-AsBefore c) es c (refl, refl))
            (λ c' h. record {
              hostnum = ground (arith, h.0, room);
              index = elim v.index [
                | inl lt ↦ inl (omega (arith, h.0, h.1, lt))
                | inr ge ↦ inr (omega (arith, h.1, ge))
              ];
            }))

  parameter_text-IsInRange :
      (name : Option Parameter) (text : Option Str) (c : HaConfig)
      → IsInRange c
      → Gives IsInRange (parameter_text getaddrinfo strtol same_id qsort path_max name text c)
  parameter_text-IsInRange none text c v = v
  parameter_text-IsInRange (some p) none c v = tt
  parameter_text-IsInRange (some p) (some txt) c v =
      if-elim (λ o. Gives IsInRange o) (not (strtol txt).1) (λ bad. tt)
        (λ good. same-IsInRange c _ refl refl v)

  common_step-IsInRange :
      (e : CommonElement) (c : HaConfig)
      → IsInRange c
      → Gives IsInRange (common_step getaddrinfo strtol same_id qsort path_max e c)
  unfolding common_step walk_parameters_config
  common_step-IsInRange (generation_uuid_element none) c v = tt
  common_step-IsInRange (generation_uuid_element (some txt)) c v =
      if-elim (λ o. Gives IsInRange o) (eq_ℤ ((uuid_strcpy txt).1) (pos 0))
        (λ good. same-IsInRange c _ refl refl v) (λ bad. tt)
  common_step-IsInRange (udp_port_element none) c v = tt
  common_step-IsInRange (udp_port_element (some txt)) c v =
      if-elim (λ o. Gives IsInRange o) (not (strtol txt).1 || u32 ((strtol txt).0) == 0) (λ bad. tt)
        (λ good. same-IsInRange c _ refl refl v)
  common_step-IsInRange (host_element es) c v = walk_host_config-IsInRange es c v
  common_step-IsInRange (parameters_element es) c v =
      walk-Gives IsInRange (parameter_step getaddrinfo strtol same_id qsort path_max)
        (λ e c v. parameter_text-IsInRange e.name e.text c v) es c v
  common_step-IsInRange other_common_element c v = v

  set_index-IsInRange :
      (c : HaConfig) (o : Option ℕ)
      → Gives (λ i. i < c.hostnum) o
      → IsInRange c
      → Gives IsInRange (set_index getaddrinfo strtol same_id qsort path_max c o)
  set_index-IsInRange c none h v = tt
  set_index-IsInRange c (some i) h v = record { hostnum = v.hostnum; index = inl h }

  localhost_step-IsInRange :
      (e : LocalhostElement) (c : HaConfig)
      → IsInRange c
      → Gives IsInRange (localhost_step getaddrinfo strtol same_id qsort path_max e c)
  unfolding localhost_step
  localhost_step-IsInRange (localhost_id_element none) c v = tt
  localhost_step-IsInRange (localhost_id_element (some txt)) c v =
      if-elim (λ o. Gives IsInRange o) (eq_ℤ ((uuid_strcpy txt).1) (pos 0))
        (λ good.
          set_index-IsInRange c
            (find_localhost getaddrinfo strtol same_id qsort path_max ((uuid_strcpy txt).0) c.host
              c.hostnum)
            (find_localhost-bound ((uuid_strcpy txt).0) c.host c.hostnum) v)
        (λ bad. tt)
  localhost_step-IsInRange (heartbeat_interface_element none) c v = tt
  localhost_step-IsInRange (heartbeat_interface_element (some txt)) c v =
      same-IsInRange c _ refl refl v
  localhost_step-IsInRange (physical_interface_element none) c v = tt
  localhost_step-IsInRange (physical_interface_element (some txt)) c v =
      if-elim (λ o. Gives IsInRange o) (ltb (length txt) 64)
        (λ fits. same-IsInRange c _ refl refl v) (λ long. same-IsInRange c _ refl refl v)
  localhost_step-IsInRange (state_file_element none) c v = tt
  localhost_step-IsInRange (state_file_element (some txt)) c v = same-IsInRange c _ refl refl v
  localhost_step-IsInRange (watchdog_mode_element none) c v = tt
  localhost_step-IsInRange (watchdog_mode_element (some txt)) c v = same-IsInRange c _ refl refl v
  localhost_step-IsInRange other_localhost_element c v = v

  local_step-IsInRange :
      (e : LocalElement) (c : HaConfig)
      → IsInRange c
      → Gives IsInRange (local_step getaddrinfo strtol same_id qsort path_max e c)
  unfolding local_step
  local_step-IsInRange (localhost_element es) c v =
      walk-Gives IsInRange (localhost_step getaddrinfo strtol same_id qsort path_max)
        localhost_step-IsInRange es c v
  local_step-IsInRange other_local_element c v = v

  root_step-IsInRange :
      (e : RootElement) (c : HaConfig)
      → IsInRange c
      → Gives IsInRange (root_step getaddrinfo strtol same_id qsort path_max e c)
  unfolding root_step walk_common_config walk_local_config
  root_step-IsInRange (common_config es) c v =
      and_then-Gives IsInRange IsInRange (sort_hosts getaddrinfo strtol same_id qsort path_max)
        (walk (common_step getaddrinfo strtol same_id qsort path_max) es c)
        (walk-Gives IsInRange (common_step getaddrinfo strtol same_id qsort path_max)
          common_step-IsInRange es c v)
        (λ c' h. same-IsInRange c' _ refl refl h)
  root_step-IsInRange (local_config es) c v =
      walk-Gives IsInRange (local_step getaddrinfo strtol same_id qsort path_max)
        local_step-IsInRange es c v
  root_step-IsInRange other_root_element c v = v

  abbrev pub IsAccepted : HaConfig → Type 0
  IsAccepted c =
      (c.hostnum ≤ 64)
      × (c.localhost_index < c.hostnum)
      × (0 < c.udp_port)
      × ¬ (c.heartbeat_interface ≡ [])
      × ¬ (c.statefile_path ≡ [])

  check_config-IsAccepted :
      (c : HaConfig)
      → IsInRange c
      → Gives IsAccepted (check_config getaddrinfo strtol same_id qsort path_max c)
  check_config-IsAccepted c v =
      if-elim (λ o. Gives IsAccepted o) (valid_config getaddrinfo strtol same_id qsort path_max c)
        (λ good. (
          v.hostnum,
          elim v.index [ inl lt ↦ lt | inr ge ↦ absurd (ground (arith, good, ge)) ],
          ground (arith, good),
          λ e. ground (arith, good, ap begins_with_nul e),
          λ e. ground (arith, good, ap begins_with_nul e),
        ))
        (λ bad. tt)

  -- What interpret_config_file promises of any elements that it accepts.
  pub interpret_config_file-IsAccepted :
      (es : List RootElement) (c c' : HaConfig)
      → c.hostnum ≡ 0
      → interpret_config_file getaddrinfo strtol same_id qsort path_max es c ≡ some c'
      → IsAccepted c'
  unfolding interpret_config_file
  interpret_config_file-IsAccepted es c c' empty e = subst (Gives IsAccepted) e (
      and_then-Gives IsInRange IsAccepted (check_config getaddrinfo strtol same_id qsort path_max)
        (walk (root_step getaddrinfo strtol same_id qsort path_max) es _)
        (walk-Gives IsInRange (root_step getaddrinfo strtol same_id qsort path_max)
          root_step-IsInRange es (record c { localhost_index = 2 ^ 32 - 1 })
          (record { hostnum = omega (arith, empty); index = inr (omega arith) }))
        check_config-IsAccepted)
