-- ===== src/Volumes.antt =====
-- src/volume_policy.py: the policy and mount records. A function that raises the module's own error
-- answers None here: VolumePolicyError for the policy, MountConfigError for mounts.
pub mod Json
pub mod Names
pub mod Mounts
pub mod Policy
pub mod Readiness
pub mod Declared
pub mod Eligible
pub mod Accepted
pub mod Tests
use ctfd_challenge_container.Prelude.{
  ℕ, Bool, true, false, String, Option, none, some, List, [], ◌∷◌, map, ◌||◌, not, ◌&&◌, any,
  select, str_eq,
}

pub data MountScope : Type 0 where
  entry service : MountScope

pub record VolumeRule : Type 0 where
  pub logical_name : String
  pub docker_name : String
  pub targets : List String

pub record ContextVolumePolicy : Type 0 where
  pub context_name : String
  pub volumes : List (String × VolumeRule)

pub record VolumePolicy : Type 0 where
  pub policy_id : String
  pub revision : ℕ
  pub contexts : List (String × ContextVolumePolicy)

pub record MountRequest : Type 0 where
  pub logical_name : String
  pub target : String
  pub scope : MountScope

pub record VolumeMetadata : Type 0 where
  pub name : String
  pub driver : String
  pub labels : List (String × String)
  pub has_driver_options : Bool

-- The codes of a ReadinessIssue.
pub data Code : Type 0 where
  volume_missing volume_identity_mismatch volume_driver_not_allowed
        volume_driver_options_not_allowed volume_label_mismatch logical_volume_not_allowed
        target_not_allowed duplicate_resolved_volume volume_inspection_unavailable
        context_policy_missing :
      Code

pub record ReadinessIssue : Type 0 where
  pub context_name : String
  pub logical_name : Option String
  pub code : Code

pub record ContextReadiness : Type 0 where
  pub context_name : String
  pub ready : Bool
  pub issues : List ReadinessIssue

-- `VolumePolicy.disabled`
unfoldable pub disabled : VolumePolicy
disabled = record { policy_id = "disabled"; revision = 0; contexts = [] }

-- `ReadinessReport.eligible_contexts`
unfoldable pub eligible_contexts : List ContextReadiness → List String
eligible_contexts reports = map (λ r. r.context_name) (select (λ r. r.ready) reports)

abbrev pub scope_eq : MountScope → MountScope → Bool
scope_eq MountScope.entry MountScope.entry = true
scope_eq MountScope.service MountScope.service = true
scope_eq _ _ = false

abbrev pub scope_name : MountScope → String
scope_name MountScope.entry = "entry"
scope_name MountScope.service = "service"

-- `mapping.get(key)` of a dict that keeps its order of insertion.
unfoldable pub lookup {ℓ} : {A : Type ℓ} → String → List (String × A) → Option A
lookup key [] = none
lookup key ((k, a) ∷ rest) = elim (str_eq k key) [ true ↦ some a | false ↦ lookup key rest ]

-- A dict assigned key by key: an earlier entry of the key gets the new value.
unfoldable pub assign {ℓ} : {A : Type ℓ} → String → A → List (String × A) → List (String × A)
assign key a [] = (key, a) ∷ []
assign key a ((k, b) ∷ rest) = elim (str_eq k key) [
  | true ↦ (k, a) ∷ rest
  | false ↦ (k, b) ∷ assign key a rest
]

abbrev pub mem : String → List String → Bool
mem s ss = any (λ t. str_eq t s) ss

-- `len(set(xs)) == len(xs)`
unfoldable pub no_repeat : List String → Bool
no_repeat [] = true
no_repeat (s ∷ ss) = not (mem s ss) && no_repeat ss
