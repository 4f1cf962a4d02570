-- ===== src/Configuration/Tests.antt =====
-- The properties of the configuration at concrete values.
use ctfd_challenge_container.Prelude.{
  ℕ, ◌≤◌, true, ◌≡◌, refl, String, none, some, List, [], ◌∷◌, str_eq, All, length, if◌then◌else◌,
}
use ctfd_challenge_container.Volumes.{lookup}
use ctfd_challenge_container.Volumes.Json.{
  Json, number, text, object, no_member, member, members, require_object, as_text,
}
use ctfd_challenge_container.Volumes.Mounts.{◌>>=◌}
use ctfd_challenge_container.Volumes.Names.{full_match, chars_all, char_count}
use ctfd_challenge_container.Settings.Objects.{parse_json_object}
use ctfd_challenge_container.Settings.Shape.{validate_json_shape, member_count}
use ctfd_challenge_container.Configuration.{
  Python, FloatValue, is_blank, filled_string, optional_string, required_string, optional_int,
  optional_cpu, bounded_int, read_number, capabilities, collect_capabilities, add_capability,
  split_comma, environment,
}
use ctfd_challenge_container.Configuration.Services.{
  Reading, Service, is_service_name, service_volumes, normalize_service, normalize_each,
  normalize_services,
}
use ctfd_challenge_container.Configuration.Network.{
  v4, v4_subnet, IpParsers, NetworkConfig, hostname_valid, parse_subnet, parse_ips,
  normalize_network,
}
use ctfd_challenge_container.Configuration.Startable.{IsStartable, normalize_services-AllStartable}
use ctfd_challenge_container.Configuration.Usable.{
  IsAssignable, addresses, distinct, normalize_network-AllAssignable,
}

abbrev python : Python ℕ
python = record {
  strip = λ s. s;
  upper = λ s. s;
  digit = λ n. none;
  to_float = λ j. some 1;
  value_of = λ n. FloatValue.ratio n 1;
}

abbrev reading : Reading
reading = record {
  byte_length = λ s. 10;
  loads = λ s. none;
  load_mounts = λ s. none;
  dumps_length = λ j. some 10;
  sorted_dumps = λ j. "{}";
  normpath = λ s. s;
}

abbrev parsers : IpParsers
parsers = record {
  ip_address = λ s. if str_eq s "10.0.0.5" then some (v4 167772165) else none;
  ip_network = λ s. if str_eq s "10.0.0.0/24" then some (v4_subnet 167772160 167772415) else none;
}

abbrev network : Json
network = object (
    member "subnet" (text "10.0.0.0/24")
      (member "ips" (object (member "web" (text "10.0.0.5") no_member)) no_member))

abbrev network_config : NetworkConfig
network_config = record {
  hostname = none;
  subnet = some (167772160, 167772415);
  ips = ("web", 167772165) ∷ [];
}

network-accepted :
    normalize_network python reading parsers network ("web" ∷ []) ≡ some (some network_config)
unfolding normalize_network is_blank parse_json_object require_object members validate_json_shape
    member_count lookup parse_subnet as_text parse_ips optional_string ◌>>=◌
network-accepted = refl

normalize_network-AllAssignable_example :
    (hostname_valid network_config.hostname ≡ true)
    × All (IsAssignable ("entry" ∷ "web" ∷ []) network_config.subnet) network_config.ips
    × (distinct (addresses network_config.ips) ≡ true)
normalize_network-AllAssignable_example =
    normalize_network-AllAssignable python reading parsers network ("web" ∷ []) network_config
      network-accepted

abbrev companions : Json
companions = object (
    member "db"
      (object (
        member "image" (text "postgres") (
          member "cap_add" (text "NET_RAW,NET_ADMIN,NET_RAW")
            (member "max_memory_mb" (number 256) no_member))))
      no_member)

abbrev companion_services : List (String × Service ℕ)
companion_services =
    (
      "db",
      record {
        image = "postgres";
        command = none;
        environment = [];
        cap_add = "NET_ADMIN" ∷ "NET_RAW" ∷ [];
        volumes = none;
        max_memory_mb = some 256;
        max_cpu = none;
      },
    )
    ∷ []

companions-accepted : normalize_services python reading companions ≡ some companion_services
unfolding normalize_services is_blank parse_json_object require_object members validate_json_shape
    member_count normalize_each normalize_service is_service_name full_match chars_all char_count
    lookup required_string optional_string filled_string environment capabilities
    collect_capabilities add_capability split_comma service_volumes optional_int bounded_int
    read_number optional_cpu ◌>>=◌
companions-accepted = refl

normalize_services-AllStartable_example :
    All (IsStartable python) companion_services × (length companion_services ≤ 20)
normalize_services-AllStartable_example =
    normalize_services-AllStartable python reading companions companion_services companions-accepted
