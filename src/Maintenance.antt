-- ===== src/Maintenance.antt =====
-- src/container_manager.py: `_kill_expired_containers_inner` from the reconciliation of solves on, which
-- ends expired, abandoned and half-cleaned instances. Docker is a parameter: a `Visit` says what the
-- removal of an instance's resources raises, and gives the clock and the token of the calls for it.
pub mod Invariant
pub mod Spared
mod Tests
use ctfd_challenge_container.Prelude.{
  ℕ, Bool, true, false, ◌&&◌, String, Option, none, some, List, [], ◌∷◌, ◌++◌, if◌then◌else◌, ltb,
  find, select, str_eq, ◌==◌,
}
use ctfd_challenge_container.Schema.{
  DockerContext, Instance, ContainerInfo, InstanceState, Reason, Db,
}
use ctfd_challenge_container.Coordination.{Error, Result, ok, err, find_context}
use ctfd_challenge_container.Coordination.Lifecycle.Cleanup.{
  Claim, Deletion, is_due, claim_operation, release_operation, delete_after_confirmed_cleanup,
}
use ctfd_challenge_container.Coordination.Lifecycle.Solves.{reconcile_solved_instances}

-- RECONCILE_SAFETY_AGE_SECONDS
abbrev pub safety_age : ℕ
safety_age = 300

pub record Visit : Type 0 where
  pub token : String
  pub claimed_at : ℕ
  pub ended_at : ℕ
  pub removal_error : Option String

-- The event that is logged for an ended instance: its reason and its entry container.
pub record Ended : Type 0 where
  pub reason : Reason
  pub container_id : String

abbrev pub maintenance_claim : ℕ → Instance → Claim
maintenance_claim now r = record {
  instance_id = r.id;
  expected_states = r.state ∷ [];
  target_state = InstanceState.cleanup_pending;
  stale_after_seconds = 120;
  expected_state_version = some r.state_version;
  maintenance_cutoff = some now;
  reconcile_safety_age_seconds = some safety_age;
}

abbrev pub end_reason : ℕ → Instance → Reason
end_reason now r = if ltb r.expires now then Reason.expired else Reason.reconciled

abbrev pub proven_gone : ℕ → Instance → Visit → Deletion
proven_gone now r visit = record {
  instance_id = r.id;
  provision_token = none;
  operation_token = some visit.token;
  reason = some (end_reason now r);
  stopped_at = some visit.ended_at;
}

abbrev pub entry_of : String → List ContainerInfo → Option ContainerInfo
entry_of id infos = find (λ i. str_eq i.instance_id id && i.is_entry) infos

abbrev pub logged : ℕ → Instance → Option ContainerInfo → List Ended
logged now r none = []
logged now r (some entry) =
    record { reason = end_reason now r; container_id = entry.container_id } ∷ []

-- An instance that was claimed.
unfoldable pub end_claimed : ℕ → Instance → Visit → Db → Result (List Ended) × Db
end_claimed now r visit db = elim (find_context r.docker_context_id db.contexts) [
  | none ↦ (
    ok [],
    (release_operation r.id visit.token (some "configured Docker context is missing") visit.ended_at
        db).1,
  )
  | some context ↦ elim visit.removal_error [
    | some error ↦ (ok [], (release_operation r.id visit.token (some error) visit.ended_at db).1)
    | none ↦
        let (result, db') =
          delete_after_confirmed_cleanup (proven_gone now r visit) visit.ended_at db in
        elim result [
          | err e ↦ (err e, db')
          | ok deleted ↦ (ok (if deleted then logged now r (entry_of r.id db.infos) else []), db')
        ]
  ]
]

-- The body of the loop, for the row as the query read it.
unfoldable pub end_instance : ℕ → Instance → Visit → Db → Result (List Ended) × Db
end_instance now r visit db =
    let (result, db') = claim_operation (maintenance_claim now r) visit.token visit.claimed_at db in
    elim result [
      | err e ↦ (err e, db')
      | ok none ↦ (ok [], db')
      | ok (some token) ↦ end_claimed now r visit db'
    ]

-- The loop; an exception ends it, and what was logged before is left out of the answer then.
unfoldable pub end_each : ℕ → (Instance → Visit) → List Instance → Db → Result (List Ended) × Db
end_each now visits [] db = (ok [], db)
end_each now visits (r ∷ rs) db =
    let (result, db') = end_instance now r (visits r) db in
    elim result [
      | err e ↦ (err e, db')
      | ok ended ↦
          let (later, db'') = end_each now visits rs db' in
          (elim later [ err e ↦ err e | ok more ↦ ok (ended ++ more) ], db'')
    ]

-- An exception of the reconciliation is logged and passed over.
unfoldable pub reconcile_solves : (Instance → Option ℕ) → ℕ → Db → Db
reconcile_solves first_solve post_solve_expiry db =
    if ltb 0 post_solve_expiry
    then (reconcile_solved_instances first_solve post_solve_expiry db).1
    else db

unfoldable pub kill_expired :
    (Instance → Option ℕ) → ℕ → ℕ → (Instance → Visit) → Db → Result (List Ended) × Db
kill_expired first_solve post_solve_expiry now visits db =
    let reconciled = reconcile_solves first_solve post_solve_expiry db in
    end_each now visits (select (is_due now safety_age) reconciled.instances) reconciled
