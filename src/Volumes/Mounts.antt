-- ===== src/Volumes/Mounts.antt =====
-- `parse_mount_config` and `canonical_mount_config`. `json.loads` (None on a JSONDecodeError), the
-- length of the UTF-8 encoding and `posixpath.normpath` are parameters, as is
-- `json.dumps`.
use ctfd_challenge_container.Prelude.{
  ℕ, Bool, true, false, not, String, Option, none, some, List, [], ◌∷◌, map, all, length, leb,
  str_eq, ◌==◌,
}
use ctfd_challenge_container.Volumes.{MountScope, MountRequest, lookup, mem, scope_name, scope_eq}
use ctfd_challenge_container.Volumes.Json.{
  Json, boolean, number, text, array, object, no_member, member, to_items, require_object,
  require_exact_keys, as_text, as_number, as_items, is_true, is_text,
}
use ctfd_challenge_container.Volumes.Names.{is_logical_name, is_target}

infixl 5 ◌>>=◌
unfoldable pub ◌>>=◌ {ℓ κ} : {A : Type ℓ} {B : Type κ} → Option A → (A → Option B) → Option B
none >>= f = none
some a >>= f = f a

abbrev pub require : Bool → Option (Unit {0})
require true = some tt
require false = none

-- The argument `raw`: None, a string, or another value, that is already parsed.
pub data RawConfig : Type 0 where
  absent : RawConfig
  written : String → RawConfig
  decoded : Json → RawConfig

module _ (normpath : String → String) where
  -- One mount of the array, before the checks against the mounts so far.
  unfoldable pub parse_mount : MountScope → Json → Option MountRequest
  parse_mount scope value = do
    mount ← require_object value
    _ ← require (require_exact_keys ("type" ∷ "name" ∷ "target" ∷ "read_only" ∷ []) mount)
    kind ← lookup "type" mount
    _ ← require (is_text "volume" kind)
    read_only ← lookup "read_only" mount
    _ ← require (is_true read_only)
    name ← lookup "name" mount
    logical_name ← as_text name
    _ ← require (is_logical_name logical_name)
    place ← lookup "target" mount
    target ← as_text place
    _ ← require (is_target normpath target)
    some (record { logical_name = logical_name; target = target; scope = scope })

  -- The loop, with the sets of names and targets seen.
  unfoldable pub parse_mounts :
      MountScope → List String → List String → List Json → Option (List MountRequest)
  parse_mounts scope names targets [] = some []
  parse_mounts scope names targets (value ∷ values) = do
    mount ← parse_mount scope value
    _ ← require (not (mem mount.logical_name names))
    _ ← require (not (mem mount.target targets))
    mounts ← parse_mounts scope (mount.logical_name ∷ names) (mount.target ∷ targets) values
    some (mount ∷ mounts)

  unfoldable pub parse_mount_root : MountScope → Json → Option (List MountRequest)
  parse_mount_root scope value = do
    root ← require_object value
    _ ← require (require_exact_keys ("schema_version" ∷ "scope" ∷ "mounts" ∷ []) root)
    version ← lookup "schema_version" root
    schema_version ← as_number version
    _ ← require (schema_version == 1)
    declared ← lookup "scope" root
    _ ← require (is_text (scope_name scope) declared)
    mounts_raw ← lookup "mounts" root
    values ← as_items mounts_raw
    _ ← require (leb (length values) 16)
    parse_mounts scope [] [] values

  module _ (loads : String → Option Json) (byte_length : String → ℕ) where
    -- `_parse_json`
    unfoldable pub parse_json : ℕ → String → Option Json
    parse_json max_bytes raw = do _ ← require (leb (byte_length raw) max_bytes); loads raw

    unfoldable pub parse_mount_config : MountScope → RawConfig → Option (List MountRequest)
    parse_mount_config scope absent = some []
    parse_mount_config scope (written raw) = elim (str_eq raw "") [
      | true ↦ some []
      | false ↦ do value ← parse_json 16384 raw; parse_mount_root scope value
    ]
    parse_mount_config scope (decoded value) = parse_mount_root scope value

-- The keys of these two objects are in the order in which `sort_keys` writes them.
unfoldable pub mount_value : MountRequest → Json
mount_value m = object (
    member "name" (text m.logical_name) (
      member "read_only" (boolean true)
        (member "target" (text m.target) (member "type" (text "volume") no_member))))

abbrev pub canonical_value : List MountRequest → MountScope → Json
canonical_value mounts scope = object (
    member "mounts" (array (to_items (map mount_value mounts)))
      (member "schema_version" (number 1) (member "scope" (text (scope_name scope)) no_member)))

-- `dumps` is `json.dumps`, which escapes what is not ASCII.
unfoldable pub canonical_mount_config :
    (Json → String) → List MountRequest → MountScope → Option String
canonical_mount_config dumps mounts scope = do
  _ ← require (all (λ m. scope_eq m.scope scope) mounts)
  some (dumps (canonical_value mounts scope))
