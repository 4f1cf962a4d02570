-- ===== src/Requests/Planning/Tests.antt =====
-- The plan of a challenge whose entry mounts one volume.
use ctfd_challenge_container.Prelude.{◌≡◌, refl, String, List, All, some, [], ◌∷◌}
use ctfd_challenge_container.Coordination.Tests.{db}
use ctfd_challenge_container.Volumes.{lookup, eligible_contexts}
use ctfd_challenge_container.Volumes.Names.{is_logical_name, full_match, chars_all, char_count}
use ctfd_challenge_container.Volumes.Mounts.{◌>>=◌}
use ctfd_challenge_container.Volumes.Policy.{required_volume_labels}
use ctfd_challenge_container.Volumes.Readiness.{
  evaluate_volume_readiness, evaluate_each, context_readiness, context_issues, inspected_issues,
  volume_issues, Bind, resolve_mounts_for_context, resolve_each,
}
use ctfd_challenge_container.Volumes.Tests.{policy, one, inspect, mounts}
use ctfd_challenge_container.Requests.Planning.{
  Plan, RuntimePlan, planned, runtime_volume_plan, plan_contexts, candidates, narrow, intersection,
  resolve_service, resolve_runtime_volumes,
}
use ctfd_challenge_container.Requests.Planning.Permitted.{
  AllBound, resolve_runtime_volumes-AllBound,
}
use ctfd_challenge_container.Requests.Planning.Eligible.{Resolves, runtime_volume_plan-AllResolve}

abbrev plan : Plan
plan = ("entry", mounts) ∷ ("web", []) ∷ []

abbrev result : RuntimePlan
result = record { policy = policy; plan = plan; eligible = some ("east" ∷ []) }

planned_east :
    runtime_volume_plan one inspect ("east" ∷ []) db.contexts (some policy) (some plan)
    ≡ planned result
unfolding runtime_volume_plan plan_contexts candidates narrow intersection eligible_contexts
    evaluate_volume_readiness evaluate_each context_readiness context_issues inspected_issues
    volume_issues required_volume_labels is_logical_name full_match chars_all char_count lookup
    ◌>>=◌
planned_east = refl

runtime_volume_plan-AllResolve_example : All (λ e. All (Resolves policy e.1) ("east" ∷ [])) plan
runtime_volume_plan-AllResolve_example =
    runtime_volume_plan-AllResolve one inspect ("east" ∷ []) db.contexts (some policy) (some plan)
      result ("east" ∷ []) planned_east refl

abbrev bound : List (String × List Bind)
bound =
    ("entry", record { docker_name = "vol1"; bind = "/data"; mode = "ro" } ∷ []) ∷ ("web", []) ∷ []

bound_east : resolve_runtime_volumes one (λ service. inspect) policy "east" plan ≡ planned bound
unfolding resolve_runtime_volumes resolve_service resolve_mounts_for_context resolve_each
    eligible_contexts evaluate_volume_readiness evaluate_each context_readiness context_issues
    inspected_issues volume_issues required_volume_labels is_logical_name full_match chars_all
    char_count lookup ◌>>=◌
bound_east = refl

resolve_runtime_volumes-AllBound_example : AllBound policy "east" plan bound
resolve_runtime_volumes-AllBound_example =
    resolve_runtime_volumes-AllBound one (λ service. inspect) policy "east" plan bound bound_east
