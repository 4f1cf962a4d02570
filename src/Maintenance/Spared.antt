-- ===== src/Maintenance/Spared.antt =====
-- Instances that the maintenance leaves alone.
use ctfd_challenge_container.Prelude.{
  ℕ, ◌+◌, ◌*◌, ◌/◌, ◌≤◌, Bool, false, ◌&&◌, ◌≡◌, refl, ◌∙◌, arith, inl, inr, String, Option, none,
  some, List, [], ◌∷◌, All, Bool-cases, Option-cases, ltb, select, str_eq, str_eq_iff,
}
use ctfd_challenge_container.Schema.{Instance, InstanceState, Db, clash}
use ctfd_challenge_container.Table.{delete_where, count_where}
use ctfd_challenge_container.Table.Laws.{count-by_key, by_key-delete_ne}
use ctfd_challenge_container.Coordination.{Result-cases, find_context, find_instance}
use ctfd_challenge_container.Coordination.Cases.{claim-cases, delete-cases}
use ctfd_challenge_container.Coordination.Lifecycle.Expiry.{shorten_after_solve}
use ctfd_challenge_container.Coordination.Lifecycle.Solves.{
  solve_time, reconcile_each, reconcile_solved_instances,
}
use ctfd_challenge_container.Coordination.Renewal.{find-update_other, shorten-IsUnique}
use ctfd_challenge_container.Coordination.Invariant.Progress.{clash_of_id}
use ctfd_challenge_container.Coordination.Invariant.Uniqueness.{IsUnique}
use ctfd_challenge_container.Coordination.Lifecycle.Cleanup.{
  Claim, Deletion, is_due, claim_operation, release_operation, delete_after_confirmed_cleanup,
  tokens_match,
}
use ctfd_challenge_container.Maintenance.{
  Visit, safety_age, maintenance_claim, proven_gone, end_claimed, end_instance, end_each,
  reconcile_solves, kill_expired,
}

claim_operation-other :
    (id : String) (c : Claim) (token : String) (now : ℕ) (db : Db)
    → str_eq id c.instance_id ≡ false
    → find_instance id (claim_operation c token now db).1.instances ≡ find_instance id db.instances
claim_operation-other id c token now db apart = elim (claim-cases c token now db) [
  | inl e ↦ rw e refl
  | inr (valid, e) ↦ rw e (find-update_other c.instance_id id _ _ db (λ r. refl) apart)
]

release_operation-other :
    (id other token : String) (error : Option String) (now : ℕ) (db : Db)
    → str_eq id other ≡ false
    → find_instance id (release_operation other token error now db).1.instances
      ≡ find_instance id db.instances
unfolding release_operation
release_operation-other id other token error now db apart =
    find-update_other other id _ _ db (λ r. refl) apart

delete-other :
    (id : String) (d : Deletion) (now : ℕ) (db : Db)
    → str_eq id d.instance_id ≡ false
    → find_instance id (delete_after_confirmed_cleanup d now db).1.instances
      ≡ find_instance id db.instances
unfolding delete_where
delete-other id d now db apart = elim (delete-cases d now db) [
  | inl e ↦ rw e refl
  | inr (given, e) ↦
      rw e (by_key-delete_ne (λ r. r.id) id d.instance_id (tokens_match d) db.instances apart)
]

end_claimed-other :
    (id : String) (now : ℕ) (r : Instance) (visit : Visit) (db : Db)
    → str_eq id r.id ≡ false
    → find_instance id (end_claimed now r visit db).1.instances ≡ find_instance id db.instances
unfolding end_claimed
end_claimed-other id now r visit db apart =
    elim (Option-cases (find_context r.docker_context_id db.contexts)) [
      | inl e ↦
          rw (end_claimed, e)
            (release_operation-other id r.id visit.token _ visit.ended_at db apart)
      | inr (context, e) ↦ elim (Option-cases visit.removal_error) [
        | inr (error, f) ↦
            rw (end_claimed, e, f)
              (release_operation-other id r.id visit.token _ visit.ended_at db apart)
        | inl f ↦
            let deleted = delete-other id (proven_gone now r visit) visit.ended_at db apart in
            elim (Result-cases
              (delete_after_confirmed_cleanup (proven_gone now r visit) visit.ended_at db).0) [
                | inl (d, g) ↦ rw (end_claimed, e, f, g) deleted
                | inr (x, g) ↦ rw (end_claimed, e, f, g) deleted
              ]
      ]
    ]

end_instance-other :
    (id : String) (now : ℕ) (r : Instance) (visit : Visit) (db : Db)
    → str_eq id r.id ≡ false
    → find_instance id (end_instance now r visit db).1.instances ≡ find_instance id db.instances
unfolding end_instance
end_instance-other id now r visit db apart =
    let claimed =
      claim_operation-other id (maintenance_claim now r) visit.token visit.claimed_at db apart in
    elim (Result-cases
      (claim_operation (maintenance_claim now r) visit.token visit.claimed_at db).0) [
        | inr (x, g) ↦ rw (end_instance, g) claimed
        | inl (none, g) ↦ rw (end_instance, g) claimed
        | inl (some token, g) ↦
            rw (end_instance, g) (end_claimed-other id now r visit _ apart ∙ claimed)
      ]

end_each-other :
    (id : String) (now : ℕ) (visits : Instance → Visit) (rows : List Instance) (db : Db)
    → All (λ r. str_eq id r.id ≡ false) rows
    → find_instance id (end_each now visits rows db).1.instances ≡ find_instance id db.instances
unfolding end_each
end_each-other id now visits [] db apart = refl
end_each-other id now visits (r ∷ rs) db (apart, later) =
    let first = end_instance-other id now r (visits r) db apart in
    elim (Result-cases (end_instance now r (visits r) db).0) [
      | inr (x, g) ↦ rw (end_each, g) first
      | inl (ended, g) ↦ rw (end_each, g) (end_each-other id now visits rs _ later ∙ first)
    ]

-- A row that is not due: running and not past its expiry, provisioning without a deadline that lies more
-- than 300 seconds back, or awaiting cleanup since 300 seconds or less.
abbrev pub IsSparedIn : InstanceState → ℕ → Instance → Type 0
IsSparedIn InstanceState.running now r = now ≤ r.expires
IsSparedIn InstanceState.provisioning now r = elim r.provision_deadline [
  | none ↦ Unit
  | some deadline ↦ now * 1000000 ≤ deadline + 300000000
]
IsSparedIn InstanceState.cleanup_pending now r = now * 1000000 ≤ r.updated_at + 300000000

IsSparedIn-is_due :
    (state : InstanceState) (now : ℕ) (r : Instance)
    → r.state ≡ state
    → IsSparedIn state now r
    → is_due now safety_age r ≡ false
IsSparedIn-is_due InstanceState.running now r e h = rw e (ground arith)
IsSparedIn-is_due InstanceState.provisioning now r e h = elim (Option-cases r.provision_deadline) [
  | inl f ↦ rw (e, f) refl
  | inr (deadline, f) ↦
      let late : now * 1000000 ≤ deadline + 300000000 = rw f at h in rw (e, f) (ground arith)
]
IsSparedIn-is_due InstanceState.cleanup_pending now r e h = rw e (ground arith)

-- Where no row under an id passes a test, no row that passes it is under the id.
none_counted :
    (id : String) (test : Instance → Bool) (rows : List Instance)
    → count_where (λ r. str_eq r.id id && test r) rows ≡ 0
    → All (λ r. str_eq id r.id ≡ false) (select test rows)
unfolding count_where
none_counted id test [] h = tt
none_counted id test (r ∷ rows) h = elim (Bool-cases (test r)) [
  | inr out ↦ rw out (none_counted id test rows (ground arith))
  | inl on ↦ elim (Bool-cases (str_eq r.id id)) [
    | inl same ↦ absurd (ground arith)
    | inr apart ↦ rw on (
      ground (arith, str_eq_iff id r.id, str_eq_iff r.id id),
      none_counted id test rows (ground arith),
    )
  ]
]

reconcile_each-IsUnique :
    (first_solve : Instance → Option ℕ) (shorten : ℕ) (rows : List Instance) (n : ℕ) (db : Db)
    → IsUnique db
    → IsUnique (reconcile_each first_solve shorten rows n db).1
unfolding reconcile_each
reconcile_each-IsUnique first_solve shorten [] n db unique = unique
reconcile_each-IsUnique first_solve shorten (r ∷ rs) n db unique =
    elim (Option-cases (solve_time first_solve r)) [
      | inl e ↦ rw (reconcile_each, e) (reconcile_each-IsUnique first_solve shorten rs n db unique)
      | inr (solved, e) ↦
          let target = solved / 1000000 + shorten in
          let kept = shorten-IsUnique r.id target solved db unique in
          elim (Result-cases (shorten_after_solve r.id target solved db).0) [
            | inr (x, g) ↦ rw (reconcile_each, e, g) kept
            | inl (update, g) ↦
                rw (reconcile_each, e, g) (reconcile_each-IsUnique first_solve shorten rs _ _ kept)
          ]
    ]

reconcile_solves-IsUnique :
    (first_solve : Instance → Option ℕ) (shorten : ℕ) (db : Db)
    → IsUnique db
    → IsUnique (reconcile_solves first_solve shorten db)
unfolding reconcile_solves reconcile_solved_instances
reconcile_solves-IsUnique first_solve shorten db unique = elim (Bool-cases (ltb 0 shorten)) [
  | inl e ↦ rw e (reconcile_each-IsUnique first_solve shorten _ 0 db unique)
  | inr e ↦ rw e unique
]

-- In a database that meets its unique constraints, a maintenance pass leaves the row of an instance as
-- the reconciliation of solves left it, if that row then runs and is not past its expiry, provisions
-- without a deadline that lies more than 300 seconds back, or awaits cleanup since 300 seconds or less,
-- whatever Docker answers for the other instances.
pub kill_expired_spares :
    (first_solve : Instance → Option ℕ) (shorten now : ℕ) (visits : Instance → Visit) (id : String)
    (r : Instance) (db : Db)
    → IsUnique db
    → find_instance id (reconcile_solves first_solve shorten db).instances ≡ some r
    → IsSparedIn r.state now r
    → find_instance id (kill_expired first_solve shorten now visits db).1.instances ≡ some r
unfolding kill_expired
kill_expired_spares first_solve shorten now visits id r db unique found spared =
    let reconciled = reconcile_solves first_solve shorten db in
    let due = is_due now safety_age in
    let idle = IsSparedIn-is_due r.state now r refl spared in
    let counted =
      count-by_key (λ (x : Instance). x.id) clash id due reconciled.instances clash_of_id
        (reconcile_solves-IsUnique first_solve shorten db unique) in
    end_each-other id now visits (select due reconciled.instances) reconciled
      (none_counted id due reconciled.instances (counted ∙ rw (found, idle) refl))
    ∙ found
