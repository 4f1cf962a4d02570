-- ===== src/Volumes/Tests.antt =====
-- A policy for one context, a mount that it allows, and the properties of the volumes applied to them.
use ctfd_challenge_container.Prelude.{
  ℕ, ◌≤◌, true, false, ◌≡◌, refl, String, Option, none, some, List, [], ◌∷◌, map, All, is_some,
  if◌then◌else◌, leb,
}
use ctfd_challenge_container.Volumes.{
  assign, Code, MountScope, VolumeRule, ContextVolumePolicy, VolumePolicy, MountRequest,
  VolumeMetadata, ContextReadiness, eligible_contexts, lookup, no_repeat,
}
use ctfd_challenge_container.Volumes.Json.{
  Json, boolean, number, text, array, object, nil, item, no_member, member, items, members,
  require_object, require_exact_keys, as_text, as_number, as_items,
}
use ctfd_challenge_container.Volumes.Names.{
  is_policy_id, is_context_name, is_docker_volume_name, is_logical_name, is_target, full_match,
  chars_all, char_count, starts_with, is_forbidden, forbidden_roots,
}
use ctfd_challenge_container.Volumes.Mounts.{
  parse_json, ◌>>=◌, RawConfig, decoded, parse_mount, parse_mounts, parse_mount_root,
  parse_mount_config, canonical_mount_config, canonical_value, written,
}
use ctfd_challenge_container.Volumes.Policy.{
  parse_volume_policy, parse_policy_root, parse_policy_id, parse_revision, parse_policy_contexts,
  parse_contexts, parse_context, parse_volumes, parse_volume_rule, parse_targets,
  required_volume_labels,
}
use ctfd_challenge_container.Volumes.Readiness.{
  Bind, Inspection, found, resolve_each, resolve_mounts_for_context, volume_issues,
  inspected_issues, context_issues, context_readiness, evaluate_each, evaluate_volume_readiness,
}
use ctfd_challenge_container.Volumes.Eligible.{evaluate-eligible_contexts}
use ctfd_challenge_container.Volumes.Accepted.{AllSound, parse_volume_policy-AllSound}
use ctfd_challenge_container.Volumes.Declared.{IsValid, parse-no_repeat, canonical-parse}

abbrev data_rule : VolumeRule
data_rule = record { logical_name = "data"; docker_name = "vol1"; targets = "/data" ∷ [] }

abbrev east_policy : ContextVolumePolicy
east_policy = record { context_name = "east"; volumes = ("data", data_rule) ∷ [] }

abbrev pub policy : VolumePolicy
policy = record { policy_id = "p"; revision = 1; contexts = ("east", east_policy) ∷ [] }

abbrev mount : MountRequest
mount = record { logical_name = "data"; target = "/data"; scope = MountScope.entry }

abbrev pub mounts : List MountRequest
mounts = mount ∷ []

abbrev pub one : ℕ → String
one n = "1"

abbrev volume : VolumeMetadata
volume = record {
  name = "vol1";
  driver = "local";
  labels =
      ("org.ctfd.challenge-containers.volume-policy", "p")
      ∷ ("org.ctfd.challenge-containers.volume-policy-revision", "1")
      ∷ ("org.ctfd.challenge-containers.logical-volume", "data")
      ∷ [];
  has_driver_options = false;
}

abbrev pub inspect : String → String → Inspection
inspect context_name docker_name = found volume

abbrev names : List String
names = "east" ∷ "west" ∷ []

abbrev reports : List ContextReadiness
reports =
    record { context_name = "east"; ready = true; issues = [] }
    ∷ record {
      context_name = "west";
      ready = false;
      issues =
          record { context_name = "west"; logical_name = none; code = Code.context_policy_missing }
          ∷ [];
    }
    ∷ []

evaluated : evaluate_volume_readiness one inspect policy names mounts ≡ some reports
unfolding evaluate_volume_readiness evaluate_each context_readiness context_issues inspected_issues
    volume_issues required_volume_labels is_logical_name full_match chars_all char_count lookup
    ◌>>=◌
evaluated = refl

evaluate-eligible_contexts_example :
    All
      (λ name. is_some (resolve_mounts_for_context policy name mounts) ≡ true)
      (eligible_contexts reports)
evaluate-eligible_contexts_example =
    evaluate-eligible_contexts one inspect policy names mounts reports evaluated

abbrev binds : List Bind
binds = record { docker_name = "vol1"; bind = "/data"; mode = "ro" } ∷ []

policy_found : lookup "east" policy.contexts ≡ some east_policy
unfolding lookup
policy_found = refl

resolved : resolve_mounts_for_context policy "east" mounts ≡ some binds
unfolding resolve_mounts_for_context resolve_each lookup ◌>>=◌
resolved = refl

abbrev normal : String → String
normal s = s

abbrev no_json : String → Option Json
no_json s = none

abbrev bytes : String → ℕ
bytes s = 0

abbrev config : RawConfig
config = decoded (
    object (
      member "mounts"
        (array (
          item
            (object (
              member "read_only" (boolean true) (
                member "target" (text "/data")
                  (member "name" (text "data") (member "type" (text "volume") no_member)))))
            nil))
        (member "scope" (text "entry") (member "schema_version" (number 1) no_member))))

parsed : parse_mount_config normal no_json bytes MountScope.entry config ≡ some mounts
unfolding parse_mount_config parse_mount_root parse_mounts parse_mount is_logical_name is_target
    full_match chars_all char_count starts_with is_forbidden forbidden_roots lookup items members
    require_object require_exact_keys as_text as_number as_items ◌>>=◌
parsed = refl

parse-no_repeat_example :
    (1 ≤ 16)
    × All (IsValid normal MountScope.entry) mounts
    × (no_repeat (map (λ m. m.logical_name) mounts) ≡ true)
    × (no_repeat (map (λ m. m.target) mounts) ≡ true)
parse-no_repeat_example = parse-no_repeat normal no_json bytes MountScope.entry config mounts parsed

-- A text and the value that is read from it.
abbrev written_mounts : Json → String
written_mounts value = "canonical"

abbrev read_back : String → Option Json
read_back s = some (canonical_value mounts MountScope.entry)

parsed_again : parse_mount_config normal read_back bytes MountScope.entry config ≡ some mounts
unfolding parse_mount_config parse_mount_root parse_mounts parse_mount is_logical_name is_target
    full_match chars_all char_count starts_with is_forbidden forbidden_roots lookup items members
    require_object require_exact_keys as_text as_number as_items ◌>>=◌
parsed_again = refl

canonical-parse_example :
    (written_text : String) × (canonical_mount_config written_mounts mounts MountScope.entry
      ≡ some written_text)
    × (parse_mount_config normal read_back bytes MountScope.entry (written written_text)
        ≡ (if leb (bytes written_text) 16384 then some mounts else none))
canonical-parse_example =
    canonical-parse normal read_back bytes written_mounts MountScope.entry config mounts
      parsed_again refl refl

abbrev policy_value : Json
policy_value = object (
    member "schema_version" (number 1) (
      member "policy_id" (text "p") (
        member "revision" (number 1) (
          member "contexts"
            (object (
              member "east"
                (object (
                  member "volumes"
                    (object (
                      member "data"
                        (object (
                          member "docker_name" (text "vol1")
                            (member "targets" (array (item (text "/data") nil)) no_member)))
                        no_member))
                    no_member))
                no_member))
            no_member))))

abbrev reads_policy : String → Option Json
reads_policy s = some policy_value

policy_parsed : parse_volume_policy normal reads_policy bytes normal (some "{...}") ≡ some policy
unfolding parse_volume_policy parse_json parse_policy_root parse_policy_id parse_revision
    parse_policy_contexts parse_contexts parse_context parse_volumes parse_volume_rule parse_targets
    assign no_repeat is_policy_id is_context_name is_docker_volume_name is_logical_name is_target
    full_match chars_all char_count starts_with is_forbidden forbidden_roots lookup items members
    require_object require_exact_keys as_text as_number as_items ◌>>=◌
policy_parsed = refl

parse_volume_policy-AllSound_example : All (λ c. AllSound normal (c.1).volumes) policy.contexts
parse_volume_policy-AllSound_example =
    parse_volume_policy-AllSound normal reads_policy bytes normal (some "{...}") policy
      policy_parsed
