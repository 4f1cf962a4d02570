-- ===== src/Requests/Cleanup.antt =====
-- `cleanup_instance` and `kill_container` of src/views/helpers.py.
use ctfd_challenge_container.Prelude.{
  ℕ, true, false, String, Option, none, some, List, [], ◌∷◌, find, str_eq,
}
use ctfd_challenge_container.Schema.{InstanceState, Reason, Db}
use ctfd_challenge_container.Coordination.{Result, ok, err, find_instance, find_context}
use ctfd_challenge_container.Coordination.Lifecycle.Cleanup.{
  Claim, Deletion, claim_operation, release_operation, delete_after_confirmed_cleanup,
}
use ctfd_challenge_container.Coordination.Steps.{Op, run}
use ctfd_challenge_container.Requests.{Body}
use ctfd_challenge_container.Requests.Errors.{ErrorKind, Failure, error_body}
use ctfd_challenge_container.Requests.Messages.{
  instance_not_found, context_unavailable, cleanup_already_running, host_unavailable_cleanup,
  cleanup_finalizing, container_not_found,
}

-- The outside of one cleanup: the token that it draws, its clock, what Docker's removal of the
-- instance's resources raises, and what other workers commit while it runs.
pub record Cleaning : Type 0 where
  pub token : String
  pub claimed_at : ℕ
  pub removal_error : Option Failure
  pub meanwhile : List Op
  pub ended_at : ℕ

abbrev pub request_claim : String → Claim
request_claim id = record {
  instance_id = id;
  expected_states =
      InstanceState.running ∷ InstanceState.provisioning ∷ InstanceState.cleanup_pending ∷ [];
  target_state = InstanceState.cleanup_pending;
  stale_after_seconds = 120;
  expected_state_version = none;
  maintenance_cutoff = none;
  reconcile_safety_age_seconds = none;
}

abbrev pub request_deletion : String → Reason → Cleaning → Deletion
request_deletion id reason cleaning = record {
  instance_id = id;
  provision_token = none;
  operation_token = some cleaning.token;
  reason = some reason;
  stopped_at = some cleaning.ended_at;
}

abbrev pub transient : String → Body
transient message = Body.error (error_body message (some ErrorKind.transient))

-- From the granted claim on; `db` is what Docker's removal leaves time for.
unfoldable pub finish_cleanup : String → Reason → Cleaning → Db → Result Body × Db
finish_cleanup id reason cleaning db = elim cleaning.removal_error [
  | some failure ↦ (
    ok (transient host_unavailable_cleanup),
    (release_operation id cleaning.token (some failure.text) cleaning.ended_at db).1,
  )
  | none ↦
      let (result, db') =
        delete_after_confirmed_cleanup (request_deletion id reason cleaning) cleaning.ended_at db in
      elim result [
        | err e ↦ (err e, db')
        | ok false ↦ (ok (transient cleanup_finalizing), db')
        | ok true ↦ (ok (Body.success "container cleaned"), db')
      ]
]

unfoldable pub cleanup_instance : String → Reason → Cleaning → Db → Result Body × Db
cleanup_instance id reason cleaning db = elim (find_instance id db.instances) [
  | none ↦ (ok (transient instance_not_found), db)
  | some row ↦ elim (find_context row.docker_context_id db.contexts) [
    | none ↦ (ok (transient context_unavailable), db)
    | some context ↦
        let (result, db') =
          claim_operation (request_claim id) cleaning.token cleaning.claimed_at db in
        elim result [
          | err e ↦ (err e, db')
          | ok none ↦ (ok (transient cleanup_already_running), db')
          | ok (some token) ↦ finish_cleanup id reason cleaning (run cleaning.meanwhile db')
        ]
  ]
]

abbrev killed_body : Body → Body
killed_body (Body.success text) = Body.success "container killed"
killed_body body = body

unfoldable pub kill_container : String → Cleaning → Db → Result Body × Db
kill_container container_id cleaning db =
    elim (find (λ i. str_eq i.container_id container_id) db.infos) [
      | none ↦ (ok (Body.error (error_body container_not_found (some ErrorKind.user))), db)
      | some info ↦
          let (result, db') = cleanup_instance info.instance_id Reason.stopped cleaning db in
          elim result [ err e ↦ (err e, db') | ok body ↦ (ok (killed_body body), db') ]
    ]
