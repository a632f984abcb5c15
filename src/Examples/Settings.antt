-- ===== src/Examples/Settings.antt =====
-- A configuration file of a pool with one host.
use xha.Prelude.{◌≡◌, refl, ◌<◌, refl, true, List, [], ◌∷◌, none, some}
use xha.Prelude.Int.{pos}
use xha.Prelude.Hosts.{update}
use xha.HostWeight.{Str, str_eq}
use xha.ConfigFile.{
  inet, HaConfig, CommonElement, LocalhostElement, host_id_element, ip_address_element,
  generation_uuid_element, udp_port_element, host_element, heartbeat_interface_element,
  state_file_element, walk, uuid_strcpy, uuid_copy, host_step, walk_host_config, common_step,
  walk_common_config, find_localhost, localhost_step, local_step, walk_local_config, root_step,
  interpret_config_file,
}
use xha.ConfigFile.Local.{interpret_config_file_lem}
use xha.Script.Query.{u32}

abbrev eight : Str → Str
eight cs = 97 ∷ 98 ∷ 99 ∷ 100 ∷ 101 ∷ 102 ∷ 103 ∷ 104 ∷ cs

-- A UUID with a dash after its first eight characters.
abbrev host_uuid : Str
host_uuid = eight (45 ∷ eight (eight (eight [])))

abbrev packed : Str
packed = eight (eight (eight (eight [])))

abbrev common : List CommonElement
common =
    generation_uuid_element (some host_uuid)
    ∷ udp_port_element (some (54 ∷ 57 ∷ 52 ∷ []))
    ∷ host_element (host_id_element (some host_uuid) ∷ ip_address_element (some (49 ∷ [])) ∷ [])
    ∷ []

abbrev local : List LocalhostElement
local = heartbeat_interface_element (some (120 ∷ [])) ∷ state_file_element (some (47 ∷ [])) ∷ []

abbrev defaults : HaConfig
defaults = record {
  generation_uuid = [];
  udp_port = 0;
  hostnum = 0;
  host = λ i. record { host_id = []; sock_address = none };
  parameter = λ p. 30;
  localhost_index = 0;
  heartbeat_interface = [];
  heartbeat_physical_interface = [];
  statefile_path = [];
  watchdog_mode = [];
}

abbrev accepted : HaConfig
accepted = record defaults {
  generation_uuid = packed;
  udp_port = 694;
  hostnum = 1;
  host =
      update (update defaults.host 0 (record { host_id = packed; sock_address = none })) 0
        (record { host_id = packed; sock_address = some (inet (49 ∷ [])) });
  heartbeat_interface = 120 ∷ [];
  statefile_path = 47 ∷ [];
}

interpret_config_file_lem_example :
    (accepted.localhost_index < accepted.hostnum)
    × (str_eq (uuid_strcpy host_uuid).0 ((accepted.host accepted.localhost_index).host_id) ≡ true)
unfolding interpret_config_file root_step walk_common_config walk_local_config local_step
    localhost_step find_localhost common_step walk_host_config host_step walk uuid_strcpy uuid_copy
    u32 str_eq
interpret_config_file_lem_example =
    let (few, lt, same, first, port, interface, path) =
      interpret_config_file_lem (λ t. some (inet t)) (λ t. (pos 694, true)) str_eq (λ n h. h) 4096
        common host_uuid local defaults accepted refl refl refl in
    (lt, same)
