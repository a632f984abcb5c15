-- ===== src/ConfigFile.antt =====
-- The reading of the configuration file, lib/config.c: the walks over the elements that libxml2
-- finds. An element is known by its name, as xmlStrcmp compares it, and its text is what
-- xmlNodeListGetString gives, `none` when it fails. `none` is the answer
-- MTC_ERROR_CF_INVALID_FORMAT.
pub mod Walk
pub mod Bounds
pub mod Local
use xha.Prelude.{
  ℕ, zero, suc, ◌+◌, ◌-◌, ◌^◌, Bool, true, false, not, ◌&&◌, ◌||◌, List, [], ◌∷◌, Option, none,
  some, ltb, leb, ◌==◌, if◌then◌else◌,
}
use xha.Prelude.Int.{ℤ, pos, ltb_ℤ}
use xha.Prelude.Hosts.{update}
use xha.HostMap.{max_host_num}
use xha.HostWeight.{Str, str_eq}
use xha.XapiMon.{take, length}
use xha.Script.Query.{u32}

-- The names of the table in walk_parameters_config.
pub data Parameter : Type 0 where
  heartbeat_interval heartbeat_timeout state_file_interval state_file_timeout : Parameter
  heartbeat_watchdog_timeout state_file_watchdog_timeout boot_join_timeout : Parameter
  enable_join_timeout xapi_health_check_interval xapi_health_check_timeout : Parameter
  xapi_restart_attempts xapi_restart_timeout xapi_license_check_timeout : Parameter

abbrev parameter_num : Parameter → ℕ
parameter_num heartbeat_interval = 0
parameter_num heartbeat_timeout = 1
parameter_num state_file_interval = 2
parameter_num state_file_timeout = 3
parameter_num heartbeat_watchdog_timeout = 4
parameter_num state_file_watchdog_timeout = 5
parameter_num boot_join_timeout = 6
parameter_num enable_join_timeout = 7
parameter_num xapi_health_check_interval = 8
parameter_num xapi_health_check_timeout = 9
parameter_num xapi_restart_attempts = 10
parameter_num xapi_restart_timeout = 11
parameter_num xapi_license_check_timeout = 12

-- What getaddrinfo makes of an address.
pub data Address : Type 0 where
  inet inet6 other_family : Str → Address

-- HA_CONFIG_HOST_INFO
pub record HostEntry : Type 0 where
  pub host_id : Str
  pub sock_address : Option Address

-- HA_CONFIG
pub record HaConfig : Type 0 where
  pub generation_uuid : Str
  pub udp_port : ℕ
  pub hostnum : ℕ
  pub host : ℕ → HostEntry
  pub parameter : Parameter → ℕ
  pub localhost_index : ℕ
  pub heartbeat_interface : Str
  pub heartbeat_physical_interface : Str
  pub statefile_path : Str
  pub watchdog_mode : Str

-- The elements that the walks tell apart.
pub data HostElement : Type 0 where
  host_id_element ip_address_element : Option Str → HostElement
  other_host_element : HostElement

pub record ParameterElement : Type 0 where
  pub name : Option Parameter
  pub text : Option Str

pub data CommonElement : Type 0 where
  generation_uuid_element udp_port_element : Option Str → CommonElement
  host_element : List HostElement → CommonElement
  parameters_element : List ParameterElement → CommonElement
  other_common_element : CommonElement

pub data LocalhostElement : Type 0 where
  localhost_id_element heartbeat_interface_element : Option Str → LocalhostElement
  physical_interface_element state_file_element : Option Str → LocalhostElement
  watchdog_mode_element : Option Str → LocalhostElement
  other_localhost_element : LocalhostElement

pub data LocalElement : Type 0 where
  localhost_element : List LocalhostElement → LocalElement
  other_local_element : LocalElement

pub data RootElement : Type 0 where
  common_config : List CommonElement → RootElement
  local_config : List LocalElement → RootElement
  other_root_element : RootElement

abbrev pub and_then : {A B : Type 0} → (A → Option B) → Option A → Option B
and_then f (some x) = f x
and_then f none = none

-- A loop over the elements that ends at the first error.
unfoldable pub walk : {A C : Type 0} → (A → C → Option C) → List A → C → Option C
walk step [] c = some c
walk step (e ∷ es) c = and_then (walk step es) (step e c)

abbrev mtc_uuid_size : ℕ
mtc_uuid_size = 32

abbrev mtc_error_cf_invalid_format : ℤ
mtc_error_cf_invalid_format = pos 1201

abbrev zeros : ℕ → Str
zeros zero = []
zeros (suc n) = 0 ∷ zeros n

abbrev put_char : ℕ → Str × ℤ → Str × ℤ
put_char c (uuid, ret) = (c ∷ uuid, ret)

-- The loop of uuid_strcpy with `room` left, over the characters before the NUL.
unfoldable pub uuid_copy : ℕ → Str → Str × ℤ
uuid_copy zero [] = ([], pos 0)
uuid_copy (suc room) [] = (zeros (suc room), mtc_error_cf_invalid_format)
uuid_copy zero (c ∷ cs) = if c == 45 then uuid_copy zero cs else ([], mtc_error_cf_invalid_format)
uuid_copy (suc room) (c ∷ cs) =
    let rest = uuid_copy room cs in if c == 45 then uuid_copy (suc room) cs else put_char c rest

unfoldable pub uuid_strcpy : Str → Str × ℤ
unfolding uuid_copy
uuid_strcpy uuid = uuid_copy mtc_uuid_size uuid

abbrev pub eq_ℤ : ℤ → ℤ → Bool
eq_ℤ x y = not (ltb_ℤ x y) && not (ltb_ℤ y x)

abbrev pub begins_with_nul : Str → Bool
begins_with_nul [] = true
begins_with_nul (c ∷ cs) = c == 0

abbrev pub or_here : Option ℕ → Option ℕ → Option ℕ
or_here (some i) here = some i
or_here none here = here

-- A text as it fits into `len` bytes with its NUL.
abbrev pub bounded : ℕ → Str → Str
bounded len txt = if ltb (length txt) len then txt else take (len - 1) txt

-- getaddrinfo; strtol to the base 10, with whether it read the whole text; whether strncmp finds
-- two UUIDs the same; qsort of the hosts by host_info_compar; PATH_MAX.
module _ (getaddrinfo : Str → Option Address) (strtol : Str → ℤ × Bool) (same_id : Str → Str → Bool)
    (qsort : ℕ → (ℕ → HostEntry) → ℕ → HostEntry) (path_max : ℕ) where
  abbrev pub set_host : (HostEntry → HostEntry) → HaConfig → HaConfig
  set_host f c = record c { host = update c.host c.hostnum (f (c.host c.hostnum)) }

  abbrev pub set_address : HaConfig → Address → Option HaConfig
  set_address c (other_family a) = none
  set_address c (inet a) = some (set_host (λ h. record h { sock_address = some (inet a) }) c)
  set_address c (inet6 a) = some (set_host (λ h. record h { sock_address = some (inet6 a) }) c)

  -- An element of walk_host_config.
  unfoldable pub host_step : HostElement → HaConfig → Option HaConfig
  unfolding uuid_strcpy
  host_step (host_id_element none) c = none
  host_step (host_id_element (some txt)) c =
      let (uuid, ret) = uuid_strcpy txt in
      if ltb_ℤ ret (pos 0) then none else some (set_host (λ h. record h { host_id = uuid }) c)
  host_step (ip_address_element none) c = none
  host_step (ip_address_element (some txt)) c = and_then (set_address c) (getaddrinfo txt)
  host_step other_host_element c = some c

  abbrev pub add_host : HaConfig → Option HaConfig
  add_host c = some (record c { hostnum = c.hostnum + 1 })

  unfoldable pub walk_host_config : List HostElement → HaConfig → Option HaConfig
  unfolding walk host_step
  walk_host_config es c =
      let walked = and_then add_host (walk host_step es c) in
      if leb max_host_num c.hostnum then none else walked

  abbrev set_parameter : Parameter → ℤ × Bool → HaConfig → Option HaConfig
  set_parameter p (value, whole) c =
      if not whole
      then none
      else some (record c {
        parameter = λ q. if parameter_num p == parameter_num q then u32 value else c.parameter q;
      })

  abbrev pub parameter_text : Option Parameter → Option Str → HaConfig → Option HaConfig
  parameter_text none text c = some c
  parameter_text (some p) none c = none
  parameter_text (some p) (some txt) c = set_parameter p (strtol txt) c

  abbrev pub parameter_step : ParameterElement → HaConfig → Option HaConfig
  parameter_step e c = parameter_text e.name e.text c

  unfoldable pub walk_parameters_config : List ParameterElement → HaConfig → Option HaConfig
  unfolding walk
  walk_parameters_config es c = walk parameter_step es c

  abbrev set_port : ℤ × Bool → HaConfig → Option HaConfig
  set_port (value, whole) c =
      if not whole || u32 value == 0 then none else some (record c { udp_port = u32 value })

  -- An element of walk_common_config.
  unfoldable pub common_step : CommonElement → HaConfig → Option HaConfig
  unfolding walk_host_config walk_parameters_config uuid_strcpy
  common_step (generation_uuid_element none) c = none
  common_step (generation_uuid_element (some txt)) c =
      let (uuid, ret) = uuid_strcpy txt in
      if eq_ℤ ret (pos 0) then some (record c { generation_uuid = uuid }) else none
  common_step (udp_port_element none) c = none
  common_step (udp_port_element (some txt)) c = set_port (strtol txt) c
  common_step (host_element es) c = walk_host_config es c
  common_step (parameters_element es) c = walk_parameters_config es c
  common_step other_common_element c = some c

  abbrev pub sort_hosts : HaConfig → Option HaConfig
  sort_hosts c = some (record c { host = qsort c.hostnum c.host })

  unfoldable pub walk_common_config : List CommonElement → HaConfig → Option HaConfig
  unfolding walk common_step
  walk_common_config es c = and_then sort_hosts (walk common_step es c)

  -- The loop of walk_localhost over the hosts, from the last of `n` down to the first that is the
  -- same.
  unfoldable pub find_localhost : Str → (ℕ → HostEntry) → ℕ → Option ℕ
  find_localhost uuid host zero = none
  find_localhost uuid host (suc n) =
      let earlier = find_localhost uuid host n in
      or_here earlier (if same_id uuid ((host n).host_id) then some n else none)

  abbrev pub set_index : HaConfig → Option ℕ → Option HaConfig
  set_index c (some i) = some (record c { localhost_index = i })
  set_index c none = none

  -- An element of walk_localhost. The text of the physical interface is cut to its room, and then
  -- the last byte of the other interface is cleared.
  unfoldable pub localhost_step : LocalhostElement → HaConfig → Option HaConfig
  unfolding find_localhost uuid_strcpy
  localhost_step (localhost_id_element none) c = none
  localhost_step (localhost_id_element (some txt)) c =
      let (uuid, ret) = uuid_strcpy txt in
      let found = find_localhost uuid c.host c.hostnum in
      if eq_ℤ ret (pos 0) then set_index c found else none
  localhost_step (heartbeat_interface_element none) c = none
  localhost_step (heartbeat_interface_element (some txt)) c =
      some (record c { heartbeat_interface = bounded 64 txt })
  localhost_step (physical_interface_element none) c = none
  localhost_step (physical_interface_element (some txt)) c =
      if ltb (length txt) 64
      then some (record c { heartbeat_physical_interface = txt })
      else some (record c {
        heartbeat_physical_interface = take 63 txt;
        heartbeat_interface = take 63 c.heartbeat_interface;
      })
  localhost_step (state_file_element none) c = none
  localhost_step (state_file_element (some txt)) c =
      some (record c { statefile_path = bounded (path_max + 1) txt })
  localhost_step (watchdog_mode_element none) c = none
  localhost_step (watchdog_mode_element (some txt)) c =
      some (record c { watchdog_mode = bounded 16 txt })
  localhost_step other_localhost_element c = some c

  unfoldable pub local_step : LocalElement → HaConfig → Option HaConfig
  unfolding walk localhost_step
  local_step (localhost_element es) c = walk localhost_step es c
  local_step other_local_element c = some c

  unfoldable pub walk_local_config : List LocalElement → HaConfig → Option HaConfig
  unfolding walk local_step
  walk_local_config es c = walk local_step es c

  unfoldable pub root_step : RootElement → HaConfig → Option HaConfig
  unfolding walk_common_config walk_local_config
  root_step (common_config es) c = walk_common_config es c
  root_step (local_config es) c = walk_local_config es c
  root_step other_root_element c = some c

  -- valid_config
  abbrev pub valid_config : HaConfig → Bool
  valid_config c =
      not (begins_with_nul c.generation_uuid)
      && (not (c.udp_port == 0)
          && (not (c.hostnum == 0)
              && (not (begins_with_nul c.heartbeat_interface)
                  && (not (begins_with_nul c.statefile_path)
                      && ltb c.localhost_index max_host_num))))

  abbrev pub check_config : HaConfig → Option HaConfig
  check_config c = if valid_config c then some c else none

  -- interpret_config_file from the root element on, into a configuration with the default values.
  unfoldable pub interpret_config_file : List RootElement → HaConfig → Option HaConfig
  unfolding walk root_step
  interpret_config_file es c =
      and_then check_config (walk root_step es (record c { localhost_index = 2 ^ 32 - 1 }))
