-- ===== src/Configuration/Fields.antt =====
-- `normalize_challenge_fields` of src/challenge_config.py. Each field of the dict is replaced in place.
use ctfd_challenge_container.Prelude.{
  ℕ, String, Option, none, some, List, [], ◌∷◌, map, if◌then◌else◌,
}
use ctfd_challenge_container.Volumes.{MountScope, MountRequest, lookup, mem}
use ctfd_challenge_container.Volumes.Json.{Json}
use ctfd_challenge_container.Volumes.Mounts.{◌>>=◌, require, canonical_mount_config}
use ctfd_challenge_container.Configuration.{
  Python, is_blank, optional_string, required_string, bounded_int, optional_int, optional_cpu,
  capabilities,
}
use ctfd_challenge_container.Configuration.Services.{
  Reading, Service, parse_mounts_of, normalize_services,
}
use ctfd_challenge_container.Configuration.Network.{IpParsers, NetworkConfig, normalize_network}

-- The value of a field of the result.
pub data FieldValue (Float : Type 0) : Type 0 where
  kept : Json → FieldValue Float
  words : Option String → FieldValue Float
  amount : Option ℕ → FieldValue Float
  cpu : Option Float → FieldValue Float
  names : List String → FieldValue Float
  mounts : Option (List MountRequest) → FieldValue Float
  services : List (String × Service Float) → FieldValue Float
  network : Option NetworkConfig → FieldValue Float

-- What a field is normalized as.
pub data Rule : Type 0 where
  image_rule port_rule ctype_rule context_rule cpu_rule capability_rule volume_rule service_rule
        network_rule other_rule :
      Rule
  text_rule : Rule
  int_rule : ℕ → ℕ → Rule

abbrev rules : List (String × Rule)
rules =
    ("image", image_rule)
    ∷ ("port", port_rule)
    ∷ ("ctype", ctype_rule)
    ∷ ("command", text_rule)
    ∷ ("ssh_username", text_rule)
    ∷ ("ssh_password", text_rule)
    ∷ ("docker_context", context_rule)
    ∷ ("expiration_seconds", int_rule 1 604800)
    ∷ ("max_renewals", int_rule 0 1000)
    ∷ ("max_memory_mb", int_rule 6 1048576)
    ∷ ("max_cpu", cpu_rule)
    ∷ ("cap_add", capability_rule)
    ∷ ("volumes", volume_rule)
    ∷ ("services_json", service_rule)
    ∷ ("network_json", network_rule)
    ∷ []

abbrev pub rule_of : String → Rule
rule_of key = elim (lookup key rules) [ none ↦ other_rule | some rule ↦ rule ]

-- ALLOWED_CTYPES
abbrev pub allowed_ctypes : List String
allowed_ctypes = "web" ∷ "tcp" ∷ "ssh" ∷ []

module _ {Float : Type 0} (python : Python Float) (reading : Reading) (parsers : IpParsers) where
  unfoldable pub normalize_ctype : Json → Option String
  normalize_ctype value = do
    ctype ← required_string python 16 value
    _ ← require (mem ctype allowed_ctypes)
    some ctype

  unfoldable pub normalize_volumes : Json → Option (Option (List MountRequest))
  normalize_volumes value = if is_blank python value then some none else do
    declared ← parse_mounts_of python reading MountScope.entry value
    _ ← canonical_mount_config reading.sorted_dumps declared MountScope.entry
    some (some declared)

  -- A field with its rule, for the names of the services.
  unfoldable pub normalize_field : List String → Rule → Json → Option (FieldValue Float)
  normalize_field service_names image_rule value = do
    image ← required_string python 512 value
    some (words (some image))
  normalize_field service_names port_rule value = do
    port ← bounded_int python 1 65535 value
    some (amount (some port))
  normalize_field service_names ctype_rule value = do
    ctype ← normalize_ctype value
    some (words (some ctype))
  normalize_field service_names text_rule value = do
    s ← optional_string python 4096 value
    some (words s)
  normalize_field service_names context_rule value = do
    s ← optional_string python 512 value
    some (words s)
  normalize_field service_names (int_rule minimum maximum) value = do
    n ← optional_int python minimum maximum value
    some (amount n)
  normalize_field service_names cpu_rule value = do
    limit ← optional_cpu python value
    some (cpu limit)
  normalize_field service_names capability_rule value = do
    caps ← capabilities python value
    some (names caps)
  normalize_field service_names volume_rule value = do
    declared ← normalize_volumes value
    some (mounts declared)
  normalize_field service_names service_rule value = do
    companions ← normalize_services python reading value
    some (services companions)
  normalize_field service_names network_rule value = do
    config ← normalize_network python reading parsers value service_names
    some (network config)
  normalize_field service_names other_rule value = some (kept value)

  unfoldable pub normalize_fields :
      List String → List (String × Json) → Option (List (String × FieldValue Float))
  normalize_fields service_names [] = some []
  normalize_fields service_names ((key, value) ∷ fields) = do
    normalized ← normalize_field service_names (rule_of key) value
    rest ← normalize_fields service_names fields
    some ((key, normalized) ∷ rest)

  -- The names that the network may use: those of the new services, or the existing ones.
  unfoldable pub service_names_of : List (String × Json) → List String → Option (List String)
  service_names_of given existing = elim (lookup "services_json" given) [
    | none ↦ some existing
    | some value ↦ do
      companions ← normalize_services python reading value
      some (map (λ s. s.0) companions)
  ]

  unfoldable pub normalize_challenge_fields :
      List (String × Json) → List String → Option (List (String × FieldValue Float))
  normalize_challenge_fields given existing = do
    service_names ← service_names_of given existing
    normalize_fields service_names given
