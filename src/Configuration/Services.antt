-- ===== src/Configuration/Services.antt =====
-- `normalize_services` of src/challenge_config.py, up to the JSON that it writes.
use ctfd_challenge_container.Prelude.{
  ℕ, Bool, not, ◌&&◌, ◌||◌, String, Option, none, some, List, [], ◌∷◌, all, leb, str_eq, ◌==◌,
  length, if◌then◌else◌,
}
use ctfd_challenge_container.Volumes.{MountScope, MountRequest, mem}
use ctfd_challenge_container.Volumes.Json.{Json, text, require_object, keys}
use ctfd_challenge_container.Volumes.Mounts.{
  RawConfig, written, decoded, ◌>>=◌, require, parse_mount_config, canonical_mount_config,
}
use ctfd_challenge_container.Volumes.Names.{full_match}
use ctfd_challenge_container.Settings.Objects.{parse_json_object}
use ctfd_challenge_container.Configuration.{
  Python, field, is_blank, optional_string, required_string, optional_int, optional_cpu,
  capabilities, environment,
}

-- What a normalized service has; a key that the dict lacks is None or empty.
pub record Service (Float : Type 0) : Type 0 where
  pub image : String
  pub command : Option String
  pub environment : List (String × String)
  pub cap_add : List String
  pub volumes : Option (List MountRequest)
  pub max_memory_mb : Option ℕ
  pub max_cpu : Option Float

-- SERVICE_NAME_RE
unfoldable pub is_service_name : String → Bool
is_service_name s =
    full_match (λ n. leb 97 n && leb n 122 || leb 48 n && leb n 57)
      (λ n. leb 97 n && leb n 122 || leb 48 n && leb n 57 || n == 45) 62 s

abbrev pub allowed_fields : List String
allowed_fields =
    "image" ∷ "command" ∷ "environment" ∷ "cap_add" ∷ "volumes" ∷ "max_memory_mb" ∷ "max_cpu" ∷ []

abbrev pub as_config : Json → RawConfig
as_config (text s) = written s
as_config value = decoded value

-- The readers of JSON: the length in UTF-8, `json.loads` of the two modules, the length of
-- `json.dumps`, what `json.dumps` with sorted keys writes, and `posixpath.normpath`.
pub record Reading : Type 0 where
  pub byte_length : String → ℕ
  pub loads : String → Option Json
  pub load_mounts : String → Option Json
  pub dumps_length : Json → Option ℕ
  pub sorted_dumps : Json → String
  pub normpath : String → String

module _ {Float : Type 0} (python : Python Float) (reading : Reading) where
  abbrev pub parse_mounts_of : MountScope → Json → Option (List MountRequest)
  parse_mounts_of scope value =
      parse_mount_config reading.normpath reading.load_mounts reading.byte_length scope
        (as_config value)

  -- The canonical text is always written for mounts of the scope, and `json.loads` of it is their value.
  unfoldable pub service_volumes : List (String × Json) → Option (Option (List MountRequest))
  service_volumes config = if is_blank python (field "volumes" config) then some none else do
    mounts ← parse_mounts_of MountScope.service (field "volumes" config)
    _ ← canonical_mount_config reading.sorted_dumps mounts MountScope.service
    some (some mounts)

  unfoldable pub normalize_service : String → Json → Option (Service Float)
  normalize_service name value = do
    _ ← require (is_service_name name && not (str_eq name "entry"))
    config ← require_object value
    _ ← require (all (λ k. mem k allowed_fields) (keys config))
    image ← required_string python 512 (field "image" config)
    command ← optional_string python 4096 (field "command" config)
    environment ← environment python (field "environment" config)
    cap_add ← capabilities python (field "cap_add" config)
    volumes ← service_volumes config
    memory ← optional_int python 6 1048576 (field "max_memory_mb" config)
    cpu ← optional_cpu python (field "max_cpu" config)
    some (record {
      image = image;
      command = command;
      environment = environment;
      cap_add = cap_add;
      volumes = volumes;
      max_memory_mb = memory;
      max_cpu = cpu;
    })

  unfoldable pub normalize_each : List (String × Json) → Option (List (String × Service Float))
  normalize_each [] = some []
  normalize_each ((name, value) ∷ fields) = do
    service ← normalize_service name value
    rest ← normalize_each fields
    some ((name, service) ∷ rest)

  unfoldable pub normalize_services : Json → Option (List (String × Service Float))
  normalize_services value = if is_blank python value then some [] else do
    services ← parse_json_object reading.byte_length reading.loads reading.dumps_length value
    _ ← require (leb (length services) 20)
    normalize_each services
