-- ===== src/Volumes/Accepted.antt =====
-- What `parse_volume_policy` accepts.
use ctfd_challenge_container.Prelude.{
  ℕ, true, false, ◌≡◌, refl, inl, inr, String, Option, none, some, List, [], ◌∷◌, map, arith, All,
  Bool-cases, str_eq, str_eq_iff, some_injective,
}
use ctfd_challenge_container.Volumes.{
  VolumeRule, ContextVolumePolicy, VolumePolicy, disabled, assign, mem, no_repeat,
}
use ctfd_challenge_container.Volumes.Json.{Json}
use ctfd_challenge_container.Volumes.Names.{is_logical_name, is_docker_volume_name, is_target}
use ctfd_challenge_container.Volumes.Mounts.{parse_json}
use ctfd_challenge_container.Volumes.Policy.{
  parse_targets, parse_volume_rule, parse_volumes, parse_context, parse_contexts,
  parse_policy_contexts, parse_policy_root, parse_volume_policy,
}
use ctfd_challenge_container.Volumes.Declared.{bind-some, require-some}

abbrev pub Volumes : Type 0
Volumes = List (String × VolumeRule)

abbrev pub docker_names : Volumes → List String
docker_names volumes = map (λ v. v.1.docker_name) volumes

assign-All {ℓ} :
    {A : Type ℓ} (P : A → Type 0) (k : String) (a : A) (entries : List (String × A))
    → P a
    → All (λ e. P e.1) entries
    → All (λ e. P e.1) (assign k a entries)
unfolding assign
assign-All P k a [] p h = (p, tt)
assign-All P k a ((j, b) ∷ entries) p h = elim (Bool-cases (str_eq j k)) [
  | inl e ↦ rw (assign, e) (p, h.1)
  | inr e ↦ rw (assign, e) (h.0, assign-All P k a entries p h.1)
]

mem-assign :
    (d k : String) (r : VolumeRule) (volumes : Volumes)
    → str_eq r.docker_name d ≡ false
    → mem d (docker_names volumes) ≡ false
    → mem d (docker_names (assign k r volumes)) ≡ false
unfolding assign
mem-assign d k r [] ne h = rw ne refl
mem-assign d k r ((j, b) ∷ volumes) ne h = elim (Bool-cases (str_eq j k)) [
  | inl e ↦ rw (assign, e, ne) (ground arith)
  | inr e ↦ rw (assign, e) (ground (arith, mem-assign d k r volumes ne))
]

no_repeat-assign :
    (k : String) (r : VolumeRule) (volumes : Volumes)
    → mem r.docker_name (docker_names volumes) ≡ false
    → no_repeat (docker_names volumes) ≡ true
    → no_repeat (docker_names (assign k r volumes)) ≡ true
unfolding assign no_repeat
no_repeat-assign k r [] new h = refl
no_repeat-assign k r ((j, b) ∷ volumes) new h =
    let other : str_eq r.docker_name b.docker_name ≡ false =
      ground
        (arith, str_eq_iff r.docker_name b.docker_name, str_eq_iff b.docker_name r.docker_name) in
    elim (Bool-cases (str_eq j k)) [
      | inl e ↦ rw (assign, e) (ground arith)
      | inr e ↦
          rw (assign, e)
            (ground
              (arith, no_repeat-assign k r volumes, mem-assign b.docker_name k r volumes other))
    ]

module _ (normpath : String → String) where
  -- A rule of the policy: valid names and targets, and no target twice.
  pub record IsSound (r : VolumeRule) : Type 0 where
    pub valid_name : is_logical_name r.logical_name ≡ true
    pub valid_docker_name : is_docker_volume_name r.docker_name ≡ true
    pub valid_targets : All (λ t. is_target normpath t ≡ true) r.targets
    pub distinct_targets : no_repeat r.targets ≡ true

  -- The rules are sound, and no two are for one Docker volume.
  abbrev pub AllSound : Volumes → Type 0
  AllSound volumes = All (λ v. IsSound v.1) volumes × (no_repeat (docker_names volumes) ≡ true)

  parse_targets-All :
      (values : List Json) (targets : List String)
      → parse_targets normpath values ≡ some targets
      → All (λ t. is_target normpath t ≡ true) targets
  unfolding parse_targets
  parse_targets-All [] targets h = let same : targets ≡ [] = ground arith in rw same tt
  parse_targets-All (value ∷ values) targets h =
      let (target, e1, h1) = bind-some _ _ targets h in
      let (u2, e2, h2) = bind-some _ _ targets h1 in
      let (rest, e3, h3) = bind-some _ _ targets h2 in
      let same : (target ∷ rest) ≡ targets = some_injective _ _ h3 in
      rw (← same) (require-some _ u2 e2, parse_targets-All values rest e3)

  parse_volume_rule-IsSound :
      (taken : List String) (name : String) (value : Json) (rule : VolumeRule)
      → parse_volume_rule normpath taken name value ≡ some rule
      → IsSound rule × (mem rule.docker_name taken ≡ false)
  unfolding parse_volume_rule
  parse_volume_rule-IsSound taken name value rule h =
      let (u1, e1, h1) = bind-some _ _ rule h in
      let (volume, e2, h2) = bind-some _ _ rule h1 in
      let (u3, e3, h3) = bind-some _ _ rule h2 in
      let (named, e4, h4) = bind-some _ _ rule h3 in
      let (docker_name, e5, h5) = bind-some _ _ rule h4 in
      let (u6, e6, h6) = bind-some _ _ rule h5 in
      let (u7, e7, h7) = bind-some _ _ rule h6 in
      let (raw, e8, h8) = bind-some _ _ rule h7 in
      let (values, e9, h9) = bind-some _ _ rule h8 in
      let (u10, e10, h10) = bind-some _ _ rule h9 in
      let (u11, e11, h11) = bind-some _ _ rule h10 in
      let (targets, e12, h12) = bind-some _ _ rule h11 in
      let (u13, e13, h13) = bind-some _ _ rule h12 in
      let same : record { logical_name = name; docker_name = docker_name; targets = targets }
          ≡ rule =
        some_injective _ _ h13 in
      let free = require-some _ u7 e7 in
      rw (← same) (
        record {
          valid_name = require-some _ u1 e1;
          valid_docker_name = require-some _ u6 e6;
          valid_targets = parse_targets-All values targets e12;
          distinct_targets = require-some _ u13 e13;
        },
        ground (arith, free),
      )

  parse_volumes-AllSound :
      (taken : List String) (volumes : Volumes) (values : List (String × Json)) (out : Volumes)
      → ((d : String) → mem d taken ≡ false → mem d (docker_names volumes) ≡ false)
      → AllSound volumes
      → parse_volumes normpath taken volumes values ≡ some out
      → AllSound out
  unfolding parse_volumes
  parse_volumes-AllSound taken volumes [] out known sound h = rw (← some_injective _ _ h) sound
  parse_volumes-AllSound taken volumes ((name, value) ∷ values) out known sound h =
      let (rule, e1, h1) = bind-some _ _ out h in
      let (good, free) = parse_volume_rule-IsSound taken name value rule e1 in
      parse_volumes-AllSound (rule.docker_name ∷ taken) (assign rule.logical_name rule volumes)
        values out
        (λ d f. mem-assign d rule.logical_name rule volumes (ground arith) (known d (ground arith)))
        (
          assign-All IsSound rule.logical_name rule volumes good sound.0,
          no_repeat-assign rule.logical_name rule volumes (known rule.docker_name free) sound.1,
        )
        h1

  parse_contexts-AllSound :
      (contexts : List (String × ContextVolumePolicy)) (values : List (String × Json))
      (out : List (String × ContextVolumePolicy))
      → All (λ c. AllSound (c.1).volumes) contexts
      → parse_contexts normpath contexts values ≡ some out
      → All (λ c. AllSound (c.1).volumes) out
  unfolding parse_contexts parse_context
  parse_contexts-AllSound contexts [] out sound h = rw (← some_injective _ _ h) sound
  parse_contexts-AllSound contexts ((name, value) ∷ values) out sound h =
      let (context, e, h') = bind-some _ _ out h in
      let (u1, e1, h1) = bind-some _ _ context e in
      let (fields, e2, h2) = bind-some _ _ context h1 in
      let (u3, e3, h3) = bind-some _ _ context h2 in
      let (inner, e4, h4) = bind-some _ _ context h3 in
      let (raw, e5, h5) = bind-some _ _ context h4 in
      let (u6, e6, h6) = bind-some _ _ context h5 in
      let (volumes, e7, h7) = bind-some _ _ context h6 in
      let good : AllSound volumes =
        parse_volumes-AllSound [] [] raw volumes (λ d f. refl) (tt, unfold no_repeat in refl) e7 in
      let same : record { context_name = name; volumes = volumes } ≡ context =
        some_injective _ _ h7 in
      parse_contexts-AllSound (assign name context contexts) values out
        (assign-All (λ c. AllSound c.volumes) name context contexts (rw (← same) good) sound) h'

  parse_root-AllSound :
      (value : Json) (policy : VolumePolicy)
      → parse_policy_root normpath value ≡ some policy
      → All (λ c. AllSound (c.1).volumes) policy.contexts
  unfolding parse_policy_root parse_policy_contexts
  parse_root-AllSound value policy h =
      let (root, e1, h1) = bind-some _ _ policy h in
      let (u2, e2, h2) = bind-some _ _ policy h1 in
      let (version, e3, h3) = bind-some _ _ policy h2 in
      let (schema_version, e4, h4) = bind-some _ _ policy h3 in
      let (u5, e5, h5) = bind-some _ _ policy h4 in
      let (policy_id, e6, h6) = bind-some _ _ policy h5 in
      let (revision, e7, h7) = bind-some _ _ policy h6 in
      let (contexts, e8, h8) = bind-some _ _ policy h7 in
      let (inner, e9, h9) = bind-some _ _ contexts e8 in
      let (values, e10, h10) = bind-some _ _ contexts h9 in
      let (u11, e11, h11) = bind-some _ _ contexts h10 in
      let same : record { policy_id = policy_id; revision = revision; contexts = contexts }
          ≡ policy =
        some_injective _ _ h8 in
      rw (← same) (parse_contexts-AllSound [] values contexts tt h11)

  module _ (loads : String → Option Json) (byte_length : String → ℕ) (strip : String → String) where
    -- In a policy that `parse_volume_policy` accepts, every rule of every context has a valid logical
    -- name, a valid Docker name and valid targets without repetition, and no two rules of a context
    -- are for the same Docker volume.
    pub parse_volume_policy-AllSound :
        (raw : Option String) (policy : VolumePolicy)
        → parse_volume_policy normpath loads byte_length strip raw ≡ some policy
        → All (λ c. AllSound (c.1).volumes) policy.contexts
    unfolding parse_volume_policy disabled
    parse_volume_policy-AllSound none policy h = rw (← some_injective _ _ h) tt
    parse_volume_policy-AllSound (some raw) policy h = elim (Bool-cases (str_eq (strip raw) "")) [
      | inl e ↦ rw (← some_injective _ _ (rw (parse_volume_policy, e) at h)) tt
      | inr e ↦
          let (value, e0, h0) =
            bind-some (parse_json normpath loads byte_length 65536 raw) _ policy
              (rw (parse_volume_policy, e) at h) in
          parse_root-AllSound value policy h0
    ]
