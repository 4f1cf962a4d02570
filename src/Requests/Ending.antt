-- ===== src/Requests/Ending.antt =====
-- What an answer of `cleanup_instance` and `kill_container` says about the database.
use ctfd_challenge_container.Prelude.{
  ℕ, true, false, ◌&&◌, ◌≡◌, arith, inl, inr, String, none, some, Bool-cases, Option-cases, find,
  str_eq, &&_both, is_none, All,
}
use ctfd_challenge_container.Schema.{ContainerInfo, Reason, Db, clash}
use ctfd_challenge_container.Table.Laws.{by_key-of_find, find-test}
use ctfd_challenge_container.Coordination.{ok, Result-cases, find_instance, find_context}
use ctfd_challenge_container.Coordination.Lease.{delete_found}
use ctfd_challenge_container.Coordination.Lifecycle.Cleanup.{
  Deletion, claim_operation, delete_after_confirmed_cleanup, is_deletable,
}
use ctfd_challenge_container.Coordination.Steps.{claims, perform, perform-Effect, run}
use ctfd_challenge_container.Coordination.Invariant.Progress.{clash_of_id}
use ctfd_challenge_container.Coordination.Invariant.Uniqueness.{
  IsUnique, run-IsUnique, Effect-NoClash,
}
use ctfd_challenge_container.Requests.{Body}
use ctfd_challenge_container.Requests.Cleanup.{
  Cleaning, request_claim, request_deletion, finish_cleanup, cleanup_instance, kill_container,
}

-- No row of the instance is left.
pub record IsGone (id : String) (db : Db) : Type 0 where
  pub no_instance : find_instance id db.instances ≡ none
  pub no_container : All (λ i. str_eq i.instance_id id ≡ false) db.infos

delete-IsGone :
    (d : Deletion) (now : ℕ) (db : Db)
    → IsUnique db
    → (delete_after_confirmed_cleanup d now db).0 ≡ ok true
    → IsGone d.instance_id (delete_after_confirmed_cleanup d now db).1
unfolding delete_after_confirmed_cleanup
delete-IsGone d now db unique e =
    elim (Bool-cases (is_none d.provision_token && is_none d.operation_token)) [
      | inl missing ↦ absurd (ground arith)
      | inr given ↦ elim (Option-cases (find (is_deletable d) db.instances)) [
        | inl f ↦ absurd (ground arith)
        | inr (r, f) ↦
            let hit = find-test (is_deletable d) db.instances r f in
            let there =
              by_key-of_find (λ x. x.id) clash d.instance_id (is_deletable d) db.instances r
                clash_of_id unique (λ x t. (&&_both _ _ t).0) f in
            let (_, gone, bare) = delete_found d now db r unique given there (&&_both _ _ hit).1 in
            record { no_instance = gone; no_container = bare }
      ]
    ]

module _ (id : String) (reason : Reason) (cleaning : Cleaning) where
  finish_cleanup-IsGone :
      (db : Db) (text : String)
      → IsUnique db
      → (finish_cleanup id reason cleaning db).0 ≡ ok (Body.success text)
      → (cleaning.removal_error ≡ none) × IsGone id (finish_cleanup id reason cleaning db).1
  unfolding finish_cleanup
  finish_cleanup-IsGone db text unique e = elim (Option-cases cleaning.removal_error) [
    | inr (failure, f) ↦ absurd (ground arith)
    | inl f ↦
        let d = request_deletion id reason cleaning in
        elim (Result-cases (delete_after_confirmed_cleanup d cleaning.ended_at db).0) [
          | inr (x, g) ↦ absurd (ground arith)
          | inl (false, g) ↦ absurd (ground arith)
          | inl (true, g) ↦
              (f, rw (finish_cleanup, f, g) (delete-IsGone d cleaning.ended_at db unique g))
        ]
  ]

  claimed-IsUnique :
      (db : Db)
      → IsUnique db
      → IsUnique (
          run cleaning.meanwhile
            (claim_operation (request_claim id) cleaning.token cleaning.claimed_at db).1)
  claimed-IsUnique db unique = run-IsUnique cleaning.meanwhile _ (
      unfold perform in
      Effect-NoClash
        (perform-Effect (claims (request_claim id) cleaning.token cleaning.claimed_at) db) unique)

  cleanup_instance-IsGone :
      (db : Db) (text : String)
      → IsUnique db
      → (cleanup_instance id reason cleaning db).0 ≡ ok (Body.success text)
      → (cleaning.removal_error ≡ none) × IsGone id (cleanup_instance id reason cleaning db).1
  unfolding cleanup_instance
  cleanup_instance-IsGone db text unique e = elim (Option-cases (find_instance id db.instances)) [
    | inl f ↦ absurd (ground arith)
    | inr (row, f) ↦ elim (Option-cases (find_context row.docker_context_id db.contexts)) [
      | inl c ↦ absurd (ground arith)
      | inr (context, c) ↦
          elim (Result-cases
            (claim_operation (request_claim id) cleaning.token cleaning.claimed_at db).0) [
              | inr (x, g) ↦ absurd (ground arith)
              | inl (none, g) ↦ absurd (ground arith)
              | inl (some token, g) ↦
                  rw (cleanup_instance, f, c, g)
                    (finish_cleanup-IsGone _ text (claimed-IsUnique db unique)
                      (rw (cleanup_instance, f, c, g) at e))
            ]
    ]
  ]

-- A user is told that a container was killed only if it is so: when `kill_container` answers a
-- success, in a database that meets its unique constraints and whatever other workers commit
-- meanwhile, Docker's removal raised nothing, the container was a row, and of its instance neither the
-- row nor a container is left.
pub kill_container-IsGone :
    (container_id : String) (cleaning : Cleaning) (db : Db) (text : String)
    → IsUnique db
    → (kill_container container_id cleaning db).0 ≡ ok (Body.success text)
    → (cleaning.removal_error ≡ none)
      × ((info : ContainerInfo) × (find (λ i. str_eq i.container_id container_id) db.infos
            ≡ some info)
          × IsGone info.instance_id (kill_container container_id cleaning db).1)
unfolding kill_container
kill_container-IsGone container_id cleaning db text unique e =
    elim (Option-cases
      (find (λ (i : ContainerInfo). str_eq i.container_id container_id) db.infos)) [
        | inl f ↦ absurd (ground arith)
        | inr (info, f) ↦
            elim (Result-cases (cleanup_instance info.instance_id Reason.stopped cleaning db).0) [
              | inr (x, g) ↦ absurd (ground arith)
              | inl (Body.success was, g) ↦
                  let (removed, gone) =
                    cleanup_instance-IsGone info.instance_id Reason.stopped cleaning db was unique
                      g in
                  (removed, (info, f, rw (kill_container, f, g) gone))
              | inl (Body.error body, g) ↦ absurd (ground arith)
              | inl (Body.connection c, g) ↦ absurd (ground arith)
              | inl (Body.renewed c, g) ↦ absurd (ground arith)
              | inl (Body.unreachable c m, g) ↦ absurd (ground arith)
              | inl (Body.notice s m k, g) ↦ absurd (ground arith)
              | inl (Body.uncaught, g) ↦ absurd (ground arith)
            ]
      ]
