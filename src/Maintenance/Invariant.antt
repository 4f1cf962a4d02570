-- ===== src/Maintenance/Invariant.antt =====
-- What the maintenance leaves of the instances.
use ctfd_challenge_container.Prelude.{
  ℕ, ◌≡◌, refl, ◌∙◌, is_some, inl, inr, String, none, some, Option-cases,
}
use ctfd_challenge_container.Schema.{Instance, Db}
use ctfd_challenge_container.Coordination.{Result-cases, find_context, find_instance}
use ctfd_challenge_container.Coordination.Lifecycle.Cleanup.{
  claim_args_valid, is_claimable, claimed, claim_operation,
}
use ctfd_challenge_container.Coordination.Presence.{
  update_instance-present, release_operation-present,
}
use ctfd_challenge_container.Maintenance.{Visit, maintenance_claim, end_claimed, end_instance}

claim_operation-present :
    (id : String) (now : ℕ) (r : Instance) (token : String) (clock : ℕ) (db : Db)
    → is_some
        (find_instance id (claim_operation (maintenance_claim now r) token clock db).1.instances)
      ≡ is_some (find_instance id db.instances)
unfolding claim_operation claim_args_valid
claim_operation-present id now r token clock db =
    update_instance-present id (is_claimable (maintenance_claim now r) clock)
      (claimed (maintenance_claim now r) token clock) db (λ r. refl)

end_claimed-present :
    (id : String) (now : ℕ) (r : Instance) (visit : Visit) (db : Db) (error : String)
    → visit.removal_error ≡ some error
    → is_some (find_instance id (end_claimed now r visit db).1.instances)
      ≡ is_some (find_instance id db.instances)
unfolding end_claimed
end_claimed-present id now r visit db error failed =
    elim (Option-cases (find_context r.docker_context_id db.contexts)) [
      | inl e ↦
          rw (end_claimed, e)
            (release_operation-present id r.id visit.token
              (some "configured Docker context is missing") visit.ended_at db)
      | inr (context, e) ↦
          rw (end_claimed, e, failed)
            (release_operation-present id r.id visit.token (some error) visit.ended_at db)
    ]

-- An instance whose containers could not be removed is never forgotten: when Docker's removal for an
-- instance raises, the maintenance of it leaves the same ids in the table of instances.
pub end_instance-present :
    (id : String) (now : ℕ) (r : Instance) (visit : Visit) (db : Db) (error : String)
    → visit.removal_error ≡ some error
    → is_some (find_instance id (end_instance now r visit db).1.instances)
      ≡ is_some (find_instance id db.instances)
unfolding end_instance
end_instance-present id now r visit db error failed =
    let claimed_db =
      (claim_operation (maintenance_claim now r) visit.token visit.claimed_at db).1 in
    let kept = claim_operation-present id now r visit.token visit.claimed_at db in
    elim (Result-cases
      (claim_operation (maintenance_claim now r) visit.token visit.claimed_at db).0) [
        | inr (x, g) ↦ rw (end_instance, g) kept
        | inl (none, g) ↦ rw (end_instance, g) kept
        | inl (some token, g) ↦
            rw (end_instance, g) (end_claimed-present id now r visit claimed_db error failed ∙ kept)
      ]
