-- ===== src/Volumes/Eligible.antt =====
-- What a placement relies on: a context that is reported ready resolves the mounts, and what is
-- resolved is what the policy allows.
use ctfd_challenge_container.Prelude.{
  ℕ, true, false, ◌||◌, ◌≡◌, refl, ap, sym, subst, str_eq_iff, ◌∙◌, inl, inr, String, Option, none,
  some, List, [], ◌∷◌, ◌++◌, map, arith, All, Bool-cases, Option-cases, is_some, str_eq,
}
use ctfd_challenge_container.Volumes.{
  VolumeRule, ContextVolumePolicy, VolumePolicy, MountRequest, ReadinessIssue, ContextReadiness,
  lookup, mem, no_repeat, eligible_contexts,
}
use ctfd_challenge_container.Volumes.Mounts.{◌>>=◌}
use ctfd_challenge_container.Volumes.Readiness.{
  Bind, Inspection, resolve_each, resolve_mounts_for_context, followed, joined, context_issues,
  context_readiness, evaluate_each, evaluate_volume_readiness,
}

abbrev docker_names : List Bind → List String
docker_names binds = map (λ b. b.docker_name) binds

str_eq-swap : (a b : String) → str_eq a b ≡ true → str_eq b a ≡ true
str_eq-swap a b h = (str_eq_iff b a).1 (sym ((str_eq_iff a b).0 h))

mem-appended :
    (d : String) (binds : List Bind) (b : Bind)
    → mem d (docker_names (binds ++ (b ∷ [])))
      ≡ (str_eq b.docker_name d || mem d (docker_names binds))
mem-appended d [] b = refl
mem-appended d (c ∷ binds) b = rw (mem-appended d binds b) (ground arith)

module _ (decimal : ℕ → String) (inspect : String → String → Inspection) (policy : VolumePolicy)
    (context_name : String) where
  joined-none : (a b : Option (List ReadinessIssue)) → joined a b ≡ some [] → b ≡ some []
  joined-none (some []) (some js) h = ground arith
  joined-none (some (i ∷ is)) (some js) h = absurd (ground arith)
  joined-none none b h = absurd (ground arith)
  joined-none (some is) none h = absurd (ground arith)

  followed-some :
      (i : ReadinessIssue) (rest : Option (List ReadinessIssue)) → followed i rest ≡ some [] → ⊥
  followed-some i none h = ground arith
  followed-some i (some is) h = ground arith

  -- A context without issues resolves the mounts, after any that used the Docker names seen.
  resolve_each-some :
      (context : ContextVolumePolicy) (seen : List String) (resolved : List Bind)
      (mounts : List MountRequest)
      → ((d : String) → mem d seen ≡ mem d (docker_names resolved))
      → context_issues decimal inspect policy context_name context seen mounts ≡ some []
      → is_some (resolve_each context resolved mounts) ≡ true
  unfolding context_issues resolve_each ◌>>=◌
  resolve_each-some context seen resolved [] agree h = refl
  resolve_each-some context seen resolved (mount ∷ mounts) agree h =
      elim (Option-cases (lookup mount.logical_name context.volumes)) [
        | inl e ↦ absurd (followed-some _ _ (rw (context_issues, e) at h))
        | inr (rule, e) ↦ elim (Bool-cases (mem mount.target rule.targets)) [
          | inr t ↦ absurd (followed-some _ _ (rw (context_issues, e, t) at h))
          | inl t ↦ elim (Bool-cases (mem rule.docker_name seen)) [
            | inl s ↦ absurd (followed-some _ _ (rw (context_issues, e, t, s) at h))
            | inr s ↦
                let b : Bind = record {
                  docker_name = rule.docker_name;
                  bind = mount.target;
                  mode = "ro";
                } in
                let untaken : mem rule.docker_name (docker_names resolved) ≡ false =
                  sym (agree rule.docker_name) ∙ s in
                rw (e, t, untaken)
                  (resolve_each-some context (rule.docker_name ∷ seen) (resolved ++ (b ∷ [])) mounts
                    (λ d. rw (mem-appended d resolved b, agree d) refl)
                    (joined-none _ _ (rw (context_issues, e, t, s) at h)))
          ]
        ]
      ]

  ready-resolves :
      (mounts : List MountRequest) (r : ContextReadiness)
      → context_readiness decimal inspect policy mounts context_name ≡ some r
      → r.ready ≡ true
      → (r.context_name ≡ context_name)
        × (is_some (resolve_mounts_for_context policy context_name mounts) ≡ true)
  unfolding context_readiness resolve_mounts_for_context ◌>>=◌
  ready-resolves [] r h ready = (ground arith, refl)
  ready-resolves (m ∷ ms) r h ready = elim (Option-cases (lookup context_name policy.contexts)) [
    | inl e ↦ absurd (ground arith)
    | inr (context, e) ↦
        elim (Option-cases
          (context_issues decimal inspect policy context_name context [] (m ∷ ms))) [
            | inl i ↦ absurd (ground arith)
            | inr (i ∷ is, f) ↦ absurd (ground arith)
            | inr ([], f) ↦
                (ground arith, rw e (resolve_each-some context [] [] (m ∷ ms) (λ d. refl) f))
          ]
  ]

module _ (decimal : ℕ → String) (inspect : String → String → Inspection) (policy : VolumePolicy)
    (mounts : List MountRequest) where
  abbrev Resolves : String → Type 0
  Resolves name = is_some (resolve_mounts_for_context policy name mounts) ≡ true

  evaluate_each-Resolves :
      (met names : List String) (reports : List ContextReadiness)
      → evaluate_each decimal inspect policy mounts met names ≡ some reports
      → All Resolves (eligible_contexts reports)
  unfolding evaluate_each eligible_contexts ◌>>=◌
  evaluate_each-Resolves met [] reports h = let same : reports ≡ [] = ground arith in rw same tt
  evaluate_each-Resolves met (name ∷ names) reports h = elim (Bool-cases (mem name met)) [
    | inl m ↦ evaluate_each-Resolves met names reports (rw (evaluate_each, m) at h)
    | inr m ↦ elim (Option-cases (context_readiness decimal inspect policy mounts name)) [
      | inl e ↦ absurd (ground arith)
      | inr (r, e) ↦
          elim (Option-cases (evaluate_each decimal inspect policy mounts (name ∷ met) names)) [
            | inl f ↦ absurd (ground arith)
            | inr (rest, f) ↦
                let later = evaluate_each-Resolves (name ∷ met) names rest f in
                let here = ready-resolves decimal inspect policy name mounts r e in
                let same : reports ≡ (r ∷ rest) = ground arith in
                rw same (elim (Bool-cases r.ready) [
                  | inl y ↦ rw y (subst Resolves (sym (here y).0) (here y).1, later)
                  | inr n ↦ rw n later
                ])
          ]
    ]
  ]

-- A context that is reported ready for some mounts resolves them: when `evaluate_volume_readiness`
-- answers, `resolve_mounts_for_context` raises on none of its eligible contexts.
pub evaluate-eligible_contexts :
    (decimal : ℕ → String) (inspect : String → String → Inspection) (policy : VolumePolicy)
    (names : List String) (mounts : List MountRequest) (reports : List ContextReadiness)
    → evaluate_volume_readiness decimal inspect policy names mounts ≡ some reports
    → All
        (λ name. is_some (resolve_mounts_for_context policy name mounts) ≡ true)
        (eligible_contexts reports)
unfolding evaluate_volume_readiness
evaluate-eligible_contexts decimal inspect policy names mounts reports h =
    evaluate_each-Resolves decimal inspect policy mounts [] names reports h

-- A bind of a mount: the policy gives the mount's volume to the context, at the mount's target, and
-- the bind is read only.
pub record IsPermitted (context : ContextVolumePolicy) (m : MountRequest) (b : Bind) : Type 0 where
  pub rule : VolumeRule
  pub allowed : lookup m.logical_name context.volumes ≡ some rule
  pub same_volume : b.docker_name ≡ rule.docker_name
  pub same_target : b.bind ≡ m.target
  pub listed : mem b.bind rule.targets ≡ true
  pub read_only : b.mode ≡ "ro"

-- Mount by mount, in order.
abbrev pub AllPermitted : ContextVolumePolicy → List MountRequest → List Bind → Type 0
AllPermitted context [] [] = Unit
AllPermitted context (m ∷ ms) (b ∷ bs) = IsPermitted context m b × AllPermitted context ms bs
AllPermitted context _ _ = ⊥

no_repeat-appended :
    (binds : List Bind) (b : Bind)
    → no_repeat (docker_names binds) ≡ true
    → mem b.docker_name (docker_names binds) ≡ false
    → no_repeat (docker_names (binds ++ (b ∷ []))) ≡ true
unfolding no_repeat
no_repeat-appended [] b h free = refl
no_repeat-appended (c ∷ binds) b h free =
    rw (mem-appended c.docker_name binds b)
      (ground (arith, no_repeat-appended binds b, str_eq-swap b.docker_name c.docker_name))

append_assoc :
    (xs : List Bind) (b : Bind) (ys : List Bind) → (xs ++ (b ∷ [])) ++ ys ≡ xs ++ (b ∷ ys)
append_assoc [] b ys = refl
append_assoc (x ∷ xs) b ys = ap (λ zs. x ∷ zs) (append_assoc xs b ys)

append_nil : (xs : List Bind) → xs ≡ xs ++ []
append_nil [] = refl
append_nil (x ∷ xs) = ap (λ zs. x ∷ zs) (append_nil xs)

record Resolution (context : ContextVolumePolicy) (resolved : List Bind)
    (mounts : List MountRequest) (out : List Bind) : Type 0 where
  added : List Bind
  extends : out ≡ resolved ++ added
  permitted : AllPermitted context mounts added
  distinct : no_repeat (docker_names out) ≡ true

resolve_each-Resolution :
    (context : ContextVolumePolicy) (resolved : List Bind) (mounts : List MountRequest)
    (out : List Bind)
    → no_repeat (docker_names resolved) ≡ true
    → resolve_each context resolved mounts ≡ some out
    → Resolution context resolved mounts out
unfolding resolve_each ◌>>=◌
resolve_each-Resolution context resolved [] out free h =
    let same : out ≡ resolved = ground arith in
    rw same (record { added = []; extends = append_nil resolved; permitted = tt; distinct = free })
resolve_each-Resolution context resolved (m ∷ ms) out free h =
    elim (Option-cases (lookup m.logical_name context.volumes)) [
      | inl e ↦ absurd (ground arith)
      | inr (rule, e) ↦ elim (Bool-cases (mem m.target rule.targets)) [
        | inr t ↦ absurd (ground arith)
        | inl t ↦ elim (Bool-cases (mem rule.docker_name (docker_names resolved))) [
          | inl s ↦ absurd (ground arith)
          | inr s ↦
              let b : Bind = record {
                docker_name = rule.docker_name;
                bind = m.target;
                mode = "ro";
              } in
              let later =
                resolve_each-Resolution context (resolved ++ (b ∷ [])) ms out
                  (no_repeat-appended resolved b free s) (rw (resolve_each, e, t, s) at h) in
              record {
                added = b ∷ later.added;
                extends = later.extends ∙ append_assoc resolved b later.added;
                permitted = (
                  record {
                    rule = rule;
                    allowed = e;
                    same_volume = refl;
                    same_target = refl;
                    listed = t;
                    read_only = refl;
                  },
                  later.permitted,
                );
                distinct = later.distinct;
              }
        ]
      ]
    ]

-- What `resolve_mounts_for_context` gives for a context with a policy is one read-only bind for each
-- mount, in order, at the mount's target, of the volume that the policy names and allows there, and no
-- two binds are of the same Docker volume.
pub resolve-AllPermitted :
    (policy : VolumePolicy) (name : String) (context : ContextVolumePolicy)
    (mounts : List MountRequest) (binds : List Bind)
    → lookup name policy.contexts ≡ some context
    → resolve_mounts_for_context policy name mounts ≡ some binds
    → AllPermitted context mounts binds × (no_repeat (map (λ b. b.docker_name) binds) ≡ true)
unfolding resolve_mounts_for_context no_repeat ◌>>=◌
resolve-AllPermitted policy name context [] binds found h =
    let same : binds ≡ [] = ground arith in rw same (tt, refl)
resolve-AllPermitted policy name context (m ∷ ms) binds found h =
    let r = resolve_each-Resolution context [] (m ∷ ms) binds refl (rw found at h) in
    (subst (AllPermitted context (m ∷ ms)) (sym r.extends) r.permitted, r.distinct)
