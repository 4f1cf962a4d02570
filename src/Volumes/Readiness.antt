-- ===== src/Volumes/Readiness.antt =====
-- `resolve_mounts_for_context` and `evaluate_volume_readiness`. The lookup of a volume is a parameter,
-- as it is in the source; None of `evaluate_volume_readiness` is a MountConfigError.
use ctfd_challenge_container.Prelude.{
  ℕ, Bool, true, false, not, String, Option, none, some, List, [], ◌∷◌, ◌++◌, map, all, str_eq,
  if◌then◌else◌, is_empty,
}
use ctfd_challenge_container.Volumes.{
  VolumeRule, ContextVolumePolicy, VolumePolicy, MountRequest, VolumeMetadata, Code, ReadinessIssue,
  ContextReadiness, lookup, mem,
}
use ctfd_challenge_container.Volumes.Mounts.{◌>>=◌, require}
use ctfd_challenge_container.Volumes.Policy.{required_volume_labels}

-- An entry of the dict that Docker gets.
pub record Bind : Type 0 where
  pub docker_name : String
  pub bind : String
  pub mode : String

unfoldable pub resolve_each :
    ContextVolumePolicy → List Bind → List MountRequest → Option (List Bind)
resolve_each context resolved [] = some resolved
resolve_each context resolved (mount ∷ mounts) = do
  rule ← lookup mount.logical_name context.volumes
  _ ← require (mem mount.target rule.targets)
  _ ← require (not (mem rule.docker_name (map (λ b. b.docker_name) resolved)))
  resolve_each context
      (resolved
        ++ (record { docker_name = rule.docker_name; bind = mount.target; mode = "ro" } ∷ []))
      mounts

unfoldable pub resolve_mounts_for_context :
    VolumePolicy → String → List MountRequest → Option (List Bind)
resolve_mounts_for_context policy context_name [] = some []
resolve_mounts_for_context policy context_name (m ∷ ms) = do
  context ← lookup context_name policy.contexts
  resolve_each context [] (m ∷ ms)

-- What the lookup gives: the volume, None for a confirmed absence, or an exception.
pub data Inspection : Type 0 where
  found : VolumeMetadata → Inspection
  missing : Inspection
  unavailable : Inspection

abbrev pub issue : String → String → Code → ReadinessIssue
issue context_name logical_name code = record {
  context_name = context_name;
  logical_name = some logical_name;
  code = code;
}

abbrev pub when : Bool → ReadinessIssue → List ReadinessIssue
when true i = i ∷ []
when false i = []

abbrev label_is : List (String × String) → String × String → Bool
label_is labels (key, expected) = elim (lookup key labels) [
  | none ↦ false
  | some value ↦ str_eq value expected
]

-- An issue before those of the later mounts.
abbrev pub followed : ReadinessIssue → Option (List ReadinessIssue) → Option (List ReadinessIssue)
followed i none = none
followed i (some is) = some (i ∷ is)

-- The issues of a mount before those of the later mounts.
abbrev pub joined :
    Option (List ReadinessIssue) → Option (List ReadinessIssue) → Option (List ReadinessIssue)
joined none later = none
joined (some is) none = none
joined (some is) (some js) = some (is ++ js)

module _ (decimal : ℕ → String) where
  -- `_volume_issues`
  unfoldable pub volume_issues :
      VolumePolicy → String → VolumeRule → Option VolumeMetadata → Option (List ReadinessIssue)
  volume_issues policy context_name rule none =
      some (issue context_name rule.logical_name Code.volume_missing ∷ [])
  volume_issues policy context_name rule (some metadata) = do
    required ← required_volume_labels decimal policy rule.logical_name
    some (
        when (not (str_eq metadata.name rule.docker_name))
          (issue context_name rule.logical_name Code.volume_identity_mismatch)
        ++ when (not (str_eq metadata.driver "local"))
            (issue context_name rule.logical_name Code.volume_driver_not_allowed)
        ++ when metadata.has_driver_options
            (issue context_name rule.logical_name Code.volume_driver_options_not_allowed)
        ++ when (not (all (label_is metadata.labels) required))
            (issue context_name rule.logical_name Code.volume_label_mismatch))

  module _ (inspect : String → String → Inspection) where
    unfoldable pub inspected_issues :
        VolumePolicy → String → VolumeRule → MountRequest → Option (List ReadinessIssue)
    inspected_issues policy context_name rule mount = elim (inspect context_name rule.docker_name) [
      | found metadata ↦ volume_issues policy context_name rule (some metadata)
      | missing ↦ volume_issues policy context_name rule none
      | unavailable ↦
          some (issue context_name mount.logical_name Code.volume_inspection_unavailable ∷ [])
    ]

    -- `_context_issues`, with the Docker names seen so far.
    unfoldable pub context_issues :
        VolumePolicy
        → String
        → ContextVolumePolicy
        → List String
        → List MountRequest
        → Option (List ReadinessIssue)
    context_issues policy context_name context seen [] = some []
    context_issues policy context_name context seen (mount ∷ mounts) =
        let rest = context_issues policy context_name context seen mounts in
        elim (lookup mount.logical_name context.volumes) [
          | none ↦
              followed (issue context_name mount.logical_name Code.logical_volume_not_allowed) rest
          | some rule ↦
              if not (mem mount.target rule.targets)
              then followed (issue context_name mount.logical_name Code.target_not_allowed) rest
              else if mem rule.docker_name seen
              then followed (issue context_name mount.logical_name Code.duplicate_resolved_volume)
                  rest
              else joined (inspected_issues policy context_name rule mount)
                  (context_issues policy context_name context (rule.docker_name ∷ seen) mounts)
        ]

    abbrev pub report : String → List ReadinessIssue → ContextReadiness
    report context_name issues = record {
      context_name = context_name;
      ready = is_empty issues;
      issues = issues;
    }

    unfoldable pub context_readiness :
        VolumePolicy → List MountRequest → String → Option ContextReadiness
    context_readiness policy [] context_name = some (report context_name [])
    context_readiness policy (m ∷ ms) context_name = elim (lookup context_name policy.contexts) [
      | none ↦ some (
          report context_name (
            record {
              context_name = context_name;
              logical_name = none;
              code = Code.context_policy_missing;
            }
            ∷ []))
      | some context ↦ do
        issues ← context_issues policy context_name context [] (m ∷ ms)
        some (report context_name issues)
    ]

    -- The loop over the names without repetition, with the names met so far.
    unfoldable pub evaluate_each :
        VolumePolicy
        → List MountRequest
        → List String
        → List String
        → Option (List ContextReadiness)
    evaluate_each policy mounts met [] = some []
    evaluate_each policy mounts met (name ∷ names) = elim (mem name met) [
      | true ↦ evaluate_each policy mounts met names
      | false ↦ do
        first ← context_readiness policy mounts name
        rest ← evaluate_each policy mounts (name ∷ met) names
        some (first ∷ rest)
    ]

    unfoldable pub evaluate_volume_readiness :
        VolumePolicy → List String → List MountRequest → Option (List ContextReadiness)
    evaluate_volume_readiness policy context_names mounts =
        evaluate_each policy mounts [] context_names
