-- ===== src/Coordination/Reserve/Ranking.antt =====
-- `placement_counts` and the sort of `_ranked_contexts`. The score weight / (count + 1) is compared
-- as a fraction, by cross multiplication.
use Prim.Native.Nat.{Ordering}
use Prim.Native.String.{compare as compare_str}
use ctfd_challenge_container.Prelude.{
  ℕ, ◌+◌, ◌*◌, Bool, true, false, ◌&&◌, ◌||◌, List, [], ◌∷◌, map, if◌then◌else◌, ◌==◌, ltb, select,
  sum, String,
}
use ctfd_challenge_container.Schema.{DockerContext, Instance, InstanceState}

-- RESOURCE_OWNING_STATES
abbrev pub owns_resources : InstanceState → Bool
owns_resources InstanceState.provisioning = true
owns_resources InstanceState.running = true
owns_resources InstanceState.cleanup_pending = true

-- `placement_counts().get(context_id, 0)`
unfoldable pub placement_count : List Instance → ℕ → ℕ
placement_count rows context_id = sum (
    map (λ r. r.placement_units)
      (select (λ r. r.docker_context_id == context_id && owns_resources r.state) rows))

abbrev pub name_le : String → String → Bool
name_le a b = elim (compare_str a b) [ Ordering.gt ↦ false | _ ↦ true ]

-- The sort key (-(weight / (count + 1)), context_name) of `a` is at most that of `b`.
unfoldable pub ranks_before : (ℕ → ℕ) → DockerContext → DockerContext → Bool
ranks_before counts a b =
    let left = a.weight * (counts b.id + 1) in
    let right = b.weight * (counts a.id + 1) in
    ltb right left || (left == right && name_le a.context_name b.context_name)

unfoldable pub insert_ranked : (ℕ → ℕ) → DockerContext → List DockerContext → List DockerContext
insert_ranked counts a [] = a ∷ []
insert_ranked counts a (b ∷ bs) =
    if ranks_before counts a b then a ∷ b ∷ bs else b ∷ insert_ranked counts a bs

unfoldable pub ranked : (ℕ → ℕ) → List DockerContext → List DockerContext
ranked counts [] = []
ranked counts (a ∷ contexts) = insert_ranked counts a (ranked counts contexts)
