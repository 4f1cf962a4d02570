-- ===== src/Requests/Planning/Eligible.antt =====
-- The contexts that a plan leaves to a reservation.
use ctfd_challenge_container.Prelude.{
  ℕ, true, ◌≡◌, refl, ◌∙◌, subst, String, Option, none, some, List, [], ◌∷◌, All, is_some,
  Bool-cases, inl, inr, str_eq, str_eq_iff, Option-cases, some_injective, arith, is_empty, all,
}
use ctfd_challenge_container.Schema.{DockerContext}
use ctfd_challenge_container.Table.Laws.{All-select}
use ctfd_challenge_container.Volumes.{VolumePolicy, MountRequest, eligible_contexts, mem}
use ctfd_challenge_container.Volumes.Declared.{bind-some}
use ctfd_challenge_container.Volumes.Eligible.{evaluate-eligible_contexts}
use ctfd_challenge_container.Volumes.Readiness.{Inspection, resolve_mounts_for_context}
use ctfd_challenge_container.Requests.Planning.{
  Plan, RuntimePlan, intersection, narrow, planned, runtime_volume_plan, plan_contexts, candidates,
}
use ctfd_challenge_container.Requests.Planning.Permitted.{or_escaped-planned}

-- The context resolves the mounts of a service.
abbrev pub Resolves : VolumePolicy → List MountRequest → String → Type 0
Resolves policy mounts name = is_some (resolve_mounts_for_context policy name mounts) ≡ true

mem_All :
    (P : String → Type 0) (name : String) (names : List String)
    → mem name names ≡ true
    → All P names
    → P name
mem_All P name [] h k = absurd (ground arith)
mem_All P name (n ∷ ns) h k = elim (Bool-cases (str_eq n name)) [
  | inl e ↦ subst P ((str_eq_iff n name).0 e) k.0
  | inr e ↦ mem_All P name ns (rw e at h) k.1
]

nothing_declared : (policy : VolumePolicy) (names : List String) → All (Resolves policy []) names
unfolding resolve_mounts_for_context
nothing_declared policy [] = tt
nothing_declared policy (n ∷ ns) = (refl, nothing_declared policy ns)

-- The contexts that are kept have what all reported ones have.
kept-All :
    (P : String → Type 0) (eligible others : List String)
    → All P others
    → All P (intersection eligible others)
unfolding intersection
kept-All P [] others h = tt
kept-All P (n ∷ ns) others h = elim (Bool-cases (mem n others)) [
  | inl e ↦ rw e (mem_All P n others e h, kept-All P ns others h)
  | inr e ↦ rw e (kept-All P ns others h)
]

module _ (decimal : ℕ → String) (inspect : String → String → Inspection) (policy : VolumePolicy)
    (names : List String) where
  narrow-All :
      (P : String → Type 0) (eligible : List String) (plan : Plan) (left : List String)
      → narrow decimal inspect policy names eligible plan ≡ some left
      → All P eligible
      → All P left
  unfolding narrow intersection
  narrow-All P eligible [] left h k = subst (All P) (some_injective eligible left h) k
  narrow-All P eligible ((service, []) ∷ plan) left h k = narrow-All P eligible plan left h k
  narrow-All P eligible ((service, m ∷ ms) ∷ plan) left h k =
      let (reports, e, h1) = bind-some _ _ left h in
      narrow-All P (intersection eligible (eligible_contexts reports)) plan left h1
        (All-select P _ eligible k)

  -- What is left resolves the mounts of every service.
  narrow-AllResolve :
      (eligible : List String) (plan : Plan) (left : List String)
      → narrow decimal inspect policy names eligible plan ≡ some left
      → All (λ e. All (Resolves policy e.1) left) plan
  unfolding narrow intersection
  narrow-AllResolve eligible [] left h = tt
  narrow-AllResolve eligible ((service, []) ∷ plan) left h =
      (nothing_declared policy left, narrow-AllResolve eligible plan left h)
  narrow-AllResolve eligible ((service, m ∷ ms) ∷ plan) left h =
      let (reports, e, h1) = bind-some _ _ left h in
      let ready = evaluate-eligible_contexts decimal inspect policy names (m ∷ ms) reports e in
      (
        narrow-All (Resolves policy (m ∷ ms)) _ plan left h1
            (kept-All (Resolves policy (m ∷ ms)) eligible (eligible_contexts reports) ready),
        narrow-AllResolve (intersection eligible (eligible_contexts reports)) plan left h1,
      )

none_not_some : (r : RuntimePlan) → none ≡ some r → ⊥
none_not_some r h = ground arith

-- The contexts that the plan leaves, if it leaves out any, resolve the mounts of every service.
abbrev pub IsResolvable : RuntimePlan → Type 0
IsResolvable result =
    (names : List String)
    → result.eligible ≡ some names
    → All (λ e. All (Resolves result.policy e.1) names) result.plan

plan_contexts-IsResolvable :
    (decimal : ℕ → String) (inspect : String → String → Inspection) (configured : List String)
    (contexts : List DockerContext) (policy : VolumePolicy) (plan : Plan) (result : RuntimePlan)
    → plan_contexts decimal inspect configured contexts policy plan ≡ some result
    → IsResolvable result
unfolding plan_contexts
plan_contexts-IsResolvable decimal inspect configured contexts policy plan result h =
    let left = candidates configured contexts in
    elim (Bool-cases (all (λ e. is_empty e.1) plan)) [
      | inl e ↦
          subst IsResolvable (some_injective _ _ (rw (plan_contexts, e) at h))
            (λ names k. absurd (ground arith))
      | inr e ↦ elim (Option-cases (narrow decimal inspect policy left left plan)) [
        | inl f ↦ absurd (none_not_some result (rw (plan_contexts, e, f) at h))
        | inr (found, f) ↦
            subst IsResolvable (some_injective _ _ (rw (plan_contexts, e, f) at h))
              (λ names k. narrow-AllResolve decimal inspect policy left left plan names (f ∙ k))
      ]
    ]

-- A plan of a request leaves a reservation only contexts on which the mounts of the entry and of every
-- service resolve, so that the resolution of the chosen context meets no MountConfigError.
pub runtime_volume_plan-AllResolve :
    (decimal : ℕ → String) (inspect : String → String → Inspection) (configured : List String)
    (contexts : List DockerContext) (policy : Option VolumePolicy) (declared : Option Plan)
    (result : RuntimePlan) (names : List String)
    → runtime_volume_plan decimal inspect configured contexts policy declared ≡ planned result
    → result.eligible ≡ some names
    → All (λ e. All (Resolves result.policy e.1) names) result.plan
unfolding runtime_volume_plan
runtime_volume_plan-AllResolve decimal inspect configured contexts none declared result names h k =
    absurd (ground arith)
runtime_volume_plan-AllResolve decimal inspect configured contexts (some policy) none result names h
      k =
    absurd (ground arith)
runtime_volume_plan-AllResolve decimal inspect configured contexts (some policy) (some plan) result
      names h k =
    plan_contexts-IsResolvable decimal inspect configured contexts policy plan result
      (or_escaped-planned (plan_contexts decimal inspect configured contexts policy plan) result h)
      names k
