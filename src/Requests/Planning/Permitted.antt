-- ===== src/Requests/Planning/Permitted.antt =====
-- The binds that the containers of a request get.
use ctfd_challenge_container.Prelude.{
  ℕ, true, ◌≡◌, refl, sym, subst, String, Option, none, some, List, [], ◌∷◌, map, Option-cases,
  List-cases, inl, inr, arith,
}
use ctfd_challenge_container.Volumes.{
  VolumePolicy, ContextVolumePolicy, MountRequest, eligible_contexts, lookup, no_repeat,
}
use ctfd_challenge_container.Volumes.Declared.{bind-some}
use ctfd_challenge_container.Volumes.Eligible.{AllPermitted, resolve-AllPermitted}
use ctfd_challenge_container.Volumes.Readiness.{
  Bind, Inspection, evaluate_volume_readiness, resolve_mounts_for_context,
}
use ctfd_challenge_container.Requests.Planning.{
  Plan, Planned, planned, stopped, escaped, or_escaped, and_binds, resolve_service,
  resolve_runtime_volumes,
}

-- The binds of one service: none without mounts, else one permitted bind for each mount by the policy
-- of the context, and no Docker volume twice.
abbrev pub IsBound : VolumePolicy → String → List MountRequest → List Bind → Type 0
IsBound policy name [] binds = binds ≡ []
IsBound policy name (m ∷ ms) binds =
    (context : ContextVolumePolicy) × (lookup name policy.contexts ≡ some context)
    × AllPermitted context (m ∷ ms) binds
    × (no_repeat (map (λ b. b.docker_name) binds) ≡ true)

-- Service by service, in the order of the plan.
abbrev pub AllBound : VolumePolicy → String → Plan → List (String × List Bind) → Type 0
AllBound policy name [] [] = Unit
AllBound policy name (e ∷ plan) (b ∷ bound) =
    (e.0 ≡ b.0) × IsBound policy name e.1 b.1 × AllBound policy name plan bound
AllBound policy name _ _ = ⊥

planned_injective {ℓ} : {A : Type ℓ} (a b : A) → planned a ≡ planned b → a ≡ b
planned_injective a b h = cc

escaped_not_planned {ℓ} : {A : Type ℓ} (a : A) → escaped ≡ planned a → ⊥
escaped_not_planned a h = ground arith

stopped_not_planned {ℓ} : {A : Type ℓ} (a : A) → stopped ≡ planned a → ⊥
stopped_not_planned a h = ground arith

-- If all services are resolved, so is the first.
and_binds-planned :
    (service : String) (first : Planned (List Bind)) (others : Planned (List (String × List Bind)))
    (bound : List (String × List Bind))
    → and_binds service first others ≡ planned bound
    → (binds : List Bind) × (rest : List (String × List Bind)) × (first ≡ planned binds)
      × (others ≡ planned rest)
      × ((service, binds) ∷ rest ≡ bound)
and_binds-planned service (planned binds) (planned rest) bound h =
    (binds, rest, refl, refl, planned_injective ((service, binds) ∷ rest) bound h)
and_binds-planned service (planned binds) stopped bound h = absurd (stopped_not_planned bound h)
and_binds-planned service (planned binds) escaped bound h = absurd (escaped_not_planned bound h)
and_binds-planned service stopped others bound h = absurd (stopped_not_planned bound h)
and_binds-planned service escaped others bound h = absurd (escaped_not_planned bound h)

pub or_escaped-planned {ℓ} :
    {A : Type ℓ} (o : Option A) (b : A) → or_escaped o ≡ planned b → o ≡ some b
or_escaped-planned none b h = absurd (ground arith)
or_escaped-planned (some a) b h = cc

resolve-IsBound :
    (policy : VolumePolicy) (name : String) (m : MountRequest) (ms : List MountRequest)
    (binds : List Bind)
    → resolve_mounts_for_context policy name (m ∷ ms) ≡ some binds
    → IsBound policy name (m ∷ ms) binds
unfolding resolve_mounts_for_context
resolve-IsBound policy name m ms binds h =
    let (context, e, h1) = bind-some _ _ binds h in
    let (permitted, distinct) = resolve-AllPermitted policy name context (m ∷ ms) binds e h in
    (context, e, permitted, distinct)

module _ (decimal : ℕ → String) (policy : VolumePolicy) (name : String) where
  resolve_service-IsBound :
      (inspect : String → String → Inspection) (mounts : List MountRequest) (binds : List Bind)
      → resolve_service decimal inspect policy name mounts ≡ planned binds
      → IsBound policy name mounts binds
  unfolding resolve_service
  resolve_service-IsBound inspect [] binds h = sym (planned_injective [] binds h)
  resolve_service-IsBound inspect (m ∷ ms) binds h =
      elim (Option-cases (evaluate_volume_readiness decimal inspect policy (name ∷ []) (m ∷ ms))) [
        | inl e ↦ absurd (escaped_not_planned binds (rw (resolve_service, e) at h))
        | inr (reports, e) ↦ elim (List-cases (eligible_contexts reports)) [
          | inl f ↦ absurd (stopped_not_planned binds (rw (resolve_service, e, f) at h))
          | inr (first, rest, f) ↦
              resolve-IsBound policy name m ms binds
                (or_escaped-planned _ binds (rw (resolve_service, e, f) at h))
        ]
      ]

-- If the volumes of a request are resolved, each service gets one read-only bind for each of its mounts,
-- of the volume and the target that the policy allows on the context, and no Docker volume twice;
-- a service without mounts gets none.
pub resolve_runtime_volumes-AllBound :
    (decimal : ℕ → String) (inspect : String → String → String → Inspection) (policy : VolumePolicy)
    (name : String) (plan : Plan) (bound : List (String × List Bind))
    → resolve_runtime_volumes decimal inspect policy name plan ≡ planned bound
    → AllBound policy name plan bound
unfolding resolve_runtime_volumes
resolve_runtime_volumes-AllBound decimal inspect policy name [] bound h =
    subst (AllBound policy name []) (planned_injective [] bound h) tt
resolve_runtime_volumes-AllBound decimal inspect policy name ((service, mounts) ∷ plan) bound h =
    let (binds, rest, e, f, same) = and_binds-planned service _ _ bound h in
    subst (AllBound policy name ((service, mounts) ∷ plan)) same (
      refl,
      resolve_service-IsBound decimal policy name (inspect service) mounts binds e,
      resolve_runtime_volumes-AllBound decimal inspect policy name plan rest f,
    )
