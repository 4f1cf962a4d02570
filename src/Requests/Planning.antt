-- ===== src/Requests/Planning.antt =====
-- `_runtime_volume_plan` and `_resolve_runtime_volumes` of src/views/helpers.py. The policy that is
-- loaded, the services that the challenge's row gives and the volumes of the Docker hosts are
-- arguments; the cache of a plan makes its lookup a function.
pub mod Eligible
pub mod Permitted
mod Tests
use ctfd_challenge_container.Prelude.{
  ℕ, Bool, true, false, String, Option, none, some, List, [], ◌∷◌, map, select, any, all, is_empty,
  not, str_eq, ◌&&◌,
}
use ctfd_challenge_container.Schema.{DockerContext, is_active, is_healthy}
use ctfd_challenge_container.Volumes.{
  Code, MountScope, VolumePolicy, MountRequest, ContextReadiness, eligible_contexts, mem, assign,
}
use ctfd_challenge_container.Volumes.Json.{Json}
use ctfd_challenge_container.Volumes.Mounts.{RawConfig, parse_mount_config, ◌>>=◌}
use ctfd_challenge_container.Volumes.Readiness.{
  Bind, Inspection, evaluate_volume_readiness, resolve_mounts_for_context,
}

-- The mounts of "entry" and of each service.
abbrev pub Plan : Type 0
Plan = List (String × List MountRequest)

pub record RuntimePlan : Type 0 where
  pub policy : VolumePolicy
  pub plan : Plan
  pub eligible : Option (List String)

-- A result, the ContainerException that stops the request, or a MountConfigError that escapes.
pub data Planned {ℓ} (A : Type ℓ) : Type ℓ where
  planned : A → Planned A
  stopped : Planned A
  escaped : Planned A

abbrev pub or_escaped {ℓ} : {A : Type ℓ} → Option A → Planned A
or_escaped none = Planned.escaped
or_escaped (some a) = Planned.planned a

-- `eligible.intersection_update(...)`
unfoldable pub intersection : List String → List String → List String
intersection eligible others = select (λ name. mem name others) eligible

module _ (normpath : String → String) (loads : String → Option Json)
    (byte_length : String → ℕ) where
  unfoldable pub service_mounts : Plan → List (String × RawConfig) → Option Plan
  service_mounts plan [] = some plan
  service_mounts plan ((name, volumes) ∷ services) = do
    mounts ← parse_mount_config normpath loads byte_length MountScope.service volumes
    service_mounts (assign name mounts plan) services

  -- The mounts that the row of a challenge declares.
  unfoldable pub declared_mounts : RawConfig → Option (List (String × RawConfig)) → Option Plan
  declared_mounts volumes services = do
    mounts ← parse_mount_config normpath loads byte_length MountScope.entry volumes
    named ← services
    service_mounts (("entry", mounts) ∷ []) named

unfoldable pub candidates : List String → List DockerContext → List String
candidates configured contexts =
    map (λ c. c.context_name)
      (select (λ c. is_active c.state && is_healthy c.health_state && mem c.context_name configured)
        contexts)

abbrev pub with_eligible : VolumePolicy → Plan → Option (List String) → Option RuntimePlan
with_eligible policy plan none = none
with_eligible policy plan (some names) =
    some (record { policy = policy; plan = plan; eligible = some names })

abbrev pub and_binds :
    String
    → Planned (List Bind)
    → Planned (List (String × List Bind))
    → Planned (List (String × List Bind))
and_binds service (Planned.planned binds) (Planned.planned rest) =
    Planned.planned ((service, binds) ∷ rest)
and_binds service (Planned.planned binds) Planned.stopped = Planned.stopped
and_binds service (Planned.planned binds) Planned.escaped = Planned.escaped
and_binds service Planned.stopped rest = Planned.stopped
and_binds service Planned.escaped rest = Planned.escaped

module _ (decimal : ℕ → String) where
  -- The loop over the plan, with the contexts that are left.
  unfoldable pub narrow :
      (String → String → Inspection)
      → VolumePolicy
      → List String
      → List String
      → Plan
      → Option (List String)
  narrow inspect policy names eligible [] = some eligible
  narrow inspect policy names eligible ((service, []) ∷ plan) =
      narrow inspect policy names eligible plan
  narrow inspect policy names eligible ((service, m ∷ ms) ∷ plan) = do
    reports ← evaluate_volume_readiness decimal inspect policy names (m ∷ ms)
    narrow inspect policy names (intersection eligible (eligible_contexts reports)) plan

  -- `_runtime_volume_plan` from the parsed mounts on.
  unfoldable pub plan_contexts :
      (String → String → Inspection)
      → List String
      → List DockerContext
      → VolumePolicy
      → Plan
      → Option RuntimePlan
  plan_contexts inspect configured contexts policy plan = elim (all (λ e. is_empty e.1) plan) [
    | true ↦ some (record { policy = policy; plan = plan; eligible = none })
    | false ↦
        let names = candidates configured contexts in
        with_eligible policy plan (narrow inspect policy names names plan)
  ]

  -- `_runtime_volume_plan`; `policy` is what `load_volume_policy` answers, `declared` what
  -- `declared_mounts` does.
  unfoldable pub runtime_volume_plan :
      (String → String → Inspection)
      → List String
      → List DockerContext
      → Option VolumePolicy
      → Option Plan
      → Planned RuntimePlan
  runtime_volume_plan inspect configured contexts none declared = Planned.stopped
  runtime_volume_plan inspect configured contexts (some policy) none = Planned.stopped
  runtime_volume_plan inspect configured contexts (some policy) (some plan) =
      or_escaped (plan_contexts inspect configured contexts policy plan)

  -- The volumes of one service on the context that was chosen.
  unfoldable pub resolve_service :
      (String → String → Inspection)
      → VolumePolicy
      → String
      → List MountRequest
      → Planned (List Bind)
  resolve_service inspect policy context_name [] = Planned.planned []
  resolve_service inspect policy context_name (m ∷ ms) =
      elim (evaluate_volume_readiness decimal inspect policy (context_name ∷ []) (m ∷ ms)) [
        | none ↦ Planned.escaped
        | some reports ↦ elim (eligible_contexts reports) [
          | [] ↦ Planned.stopped
          | name ∷ names ↦ or_escaped (resolve_mounts_for_context policy context_name (m ∷ ms))
        ]
      ]

  -- `_resolve_runtime_volumes`, before "entry" is taken out; the volumes may change from service to
  -- service.
  unfoldable pub resolve_runtime_volumes :
      (String → String → String → Inspection)
      → VolumePolicy
      → String
      → Plan
      → Planned (List (String × List Bind))
  resolve_runtime_volumes inspect policy context_name [] = Planned.planned []
  resolve_runtime_volumes inspect policy context_name ((service, mounts) ∷ plan) =
      and_binds service (resolve_service (inspect service) policy context_name mounts)
        (resolve_runtime_volumes inspect policy context_name plan)
