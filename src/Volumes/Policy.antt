-- ===== src/Volumes/Policy.antt =====
-- `parse_volume_policy` and `required_volume_labels`. `str.strip`, `json.loads`, the length of the
-- UTF-8 encoding, `posixpath.normpath` and `str(int)` are parameters.
use ctfd_challenge_container.Prelude.{
  ℕ, true, false, not, ◌&&◌, String, Option, none, some, List, [], ◌∷◌, length, leb, ltb, str_eq,
  ◌==◌, is_empty,
}
use ctfd_challenge_container.Volumes.{
  VolumeRule, ContextVolumePolicy, VolumePolicy, disabled, lookup, assign, mem, no_repeat,
}
use ctfd_challenge_container.Volumes.Json.{
  Json, require_object, require_exact_keys, as_text, as_number, as_items,
}
use ctfd_challenge_container.Volumes.Names.{
  is_logical_name, is_docker_volume_name, is_context_name, is_policy_id, is_target,
}
use ctfd_challenge_container.Volumes.Mounts.{◌>>=◌, require, parse_json}

unfoldable pub parse_policy_id : List (String × Json) → Option String
parse_policy_id root = do
  identity ← lookup "policy_id" root
  policy_id ← as_text identity
  _ ← require (is_policy_id policy_id)
  some policy_id

unfoldable pub parse_revision : List (String × Json) → Option ℕ
parse_revision root = do
  revision_raw ← lookup "revision" root
  revision ← as_number revision_raw
  _ ← require (ltb 0 revision && leb revision 2147483647)
  some revision

module _ (normpath : String → String) where
  unfoldable pub parse_targets : List Json → Option (List String)
  parse_targets [] = some []
  parse_targets (value ∷ values) = do
    target ← as_text value
    _ ← require (is_target normpath target)
    targets ← parse_targets values
    some (target ∷ targets)

  -- `_parse_volume_rule`, with the Docker names that the context has so far.
  unfoldable pub parse_volume_rule : List String → String → Json → Option VolumeRule
  parse_volume_rule docker_names logical_name value = do
    _ ← require (is_logical_name logical_name)
    volume ← require_object value
    _ ← require (require_exact_keys ("docker_name" ∷ "targets" ∷ []) volume)
    named ← lookup "docker_name" volume
    docker_name ← as_text named
    _ ← require (is_docker_volume_name docker_name)
    _ ← require (not (mem docker_name docker_names))
    targets_raw ← lookup "targets" volume
    values ← as_items targets_raw
    _ ← require (not (is_empty values))
    _ ← require (leb (length values) 16)
    targets ← parse_targets values
    _ ← require (no_repeat targets)
    some (record { logical_name = logical_name; docker_name = docker_name; targets = targets })

  unfoldable pub parse_volumes :
      List String
      → List (String × VolumeRule)
      → List (String × Json)
      → Option (List (String × VolumeRule))
  parse_volumes docker_names volumes [] = some volumes
  parse_volumes docker_names volumes ((name, value) ∷ rest) = do
    rule ← parse_volume_rule docker_names name value
    parse_volumes (rule.docker_name ∷ docker_names) (assign rule.logical_name rule volumes) rest

  unfoldable pub parse_context : String → Json → Option ContextVolumePolicy
  parse_context context_name value = do
    _ ← require (is_context_name context_name)
    context ← require_object value
    _ ← require (require_exact_keys ("volumes" ∷ []) context)
    inner ← lookup "volumes" context
    volumes_raw ← require_object inner
    _ ← require (leb (length volumes_raw) 128)
    volumes ← parse_volumes [] [] volumes_raw
    some (record { context_name = context_name; volumes = volumes })

  unfoldable pub parse_contexts :
      List (String × ContextVolumePolicy)
      → List (String × Json)
      → Option (List (String × ContextVolumePolicy))
  parse_contexts contexts [] = some contexts
  parse_contexts contexts ((name, value) ∷ rest) = do
    context ← parse_context name value
    parse_contexts (assign name context contexts) rest

  unfoldable pub parse_policy_contexts :
      List (String × Json) → Option (List (String × ContextVolumePolicy))
  parse_policy_contexts root = do
    inner ← lookup "contexts" root
    contexts_raw ← require_object inner
    _ ← require (leb (length contexts_raw) 128)
    parse_contexts [] contexts_raw

  unfoldable pub parse_policy_root : Json → Option VolumePolicy
  parse_policy_root value = do
    root ← require_object value
    _ ←
        require
          (require_exact_keys ("schema_version" ∷ "policy_id" ∷ "revision" ∷ "contexts" ∷ []) root)
    version ← lookup "schema_version" root
    schema_version ← as_number version
    _ ← require (schema_version == 1)
    policy_id ← parse_policy_id root
    revision ← parse_revision root
    contexts ← parse_policy_contexts root
    some (record { policy_id = policy_id; revision = revision; contexts = contexts })

  module _ (loads : String → Option Json) (byte_length : String → ℕ) (strip : String → String) where
    unfoldable pub parse_volume_policy : Option String → Option VolumePolicy
    parse_volume_policy none = some disabled
    parse_volume_policy (some raw) = elim (str_eq (strip raw) "") [
      | true ↦ some disabled
      | false ↦ do value ← parse_json normpath loads byte_length 65536 raw; parse_policy_root value
    ]

unfoldable pub required_volume_labels :
    (ℕ → String) → VolumePolicy → String → Option (List (String × String))
required_volume_labels decimal policy logical_name = do
  _ ← require (is_logical_name logical_name)
  _ ← require (ltb 0 policy.revision)
  some (
      ("org.ctfd.challenge-containers.volume-policy", policy.policy_id)
      ∷ ("org.ctfd.challenge-containers.volume-policy-revision", decimal policy.revision)
      ∷ ("org.ctfd.challenge-containers.logical-volume", logical_name)
      ∷ [])
