-- ===== src/Coordination/Tests.antt =====
-- A small database with one context, a running and a provisioning instance, and the properties of the
-- coordination applied to it.
use ctfd_challenge_container.Prelude.{
  ℕ, ◌≤◌, true, false, ◌≡◌, ◌≢◌, refl, ◌⊎◌, none, some, List, [], ◌∷◌, arith, All, length, select,
  str_eq,
}
use ctfd_challenge_container.Schema.{
  OwnerKind, OwnerKey, InstanceState, ContextState, HealthState, Reason, DockerContext, Instance,
  ContainerInfo, Db, clash, owner_eq,
}
use ctfd_challenge_container.Table.{fits, update_where, count_where}
use ctfd_challenge_container.Table.Laws.{passes}
use ctfd_challenge_container.Coordination.{
  Error, ok, err, InstanceReservation, find_instance, lifecycle_of, get_lifecycle,
}
use ctfd_challenge_container.Coordination.Reserve.{
  ReserveRequest, Draw, attempt_reserve, used_create_slots,
}
use ctfd_challenge_container.Coordination.Lifecycle.Finalize.{Finalization, mark_running}
use ctfd_challenge_container.Coordination.Lifecycle.Cleanup.{
  Claim, claim_args_valid, claim_operation, delete_after_confirmed_cleanup, update_instance,
}
use ctfd_challenge_container.Coordination.Lifecycle.Expiry.{
  shorten_after_solve, shortened, renew, after_update,
}
use ctfd_challenge_container.Coordination.Steps.{
  Op, reserves, finalizes, claims, renews, shortens, perform, run,
}
use ctfd_challenge_container.Coordination.Invariant.Uniqueness.{IsUnique}
use ctfd_challenge_container.Coordination.Invariant.Rows.{AllCoherent, run-AllCoherent}
use ctfd_challenge_container.Coordination.Invariant.Progress.{Passes, perform-Passes}
use ctfd_challenge_container.Coordination.Invariant.Mirror.{IsMirrored, run-IsMirrored}
use ctfd_challenge_container.Coordination.Invariant.Quota.{run_limits}
use ctfd_challenge_container.Coordination.Renewal.{
  may_renew, IsRenewed, renew-answer, solved_no_renewal,
}
use ctfd_challenge_container.Coordination.Lease.{
  confirmed, claim_exclusive, claim-delete, late_finalize,
}
use ctfd_challenge_container.Coordination.Admission.Commit.{attempt_calm}

abbrev east : DockerContext
east = record {
  id = 1;
  context_name = "east";
  hostname = some "10.0.0.1";
  pub_hostname = "east.example";
  weight = 3;
  state = ContextState.active;
  placement_version = 0;
  health_state = HealthState.healthy;
  health_checked_at = none;
  health_error = none;
}

abbrev red : OwnerKey
red = record { kind = OwnerKind.team; number = 7 }

-- A running instance of team 7.
abbrev pub live : Instance
live = record {
  id = "live";
  ssh_password = none;
  owner_key = red;
  user_id = some 11;
  team_id = some 7;
  challenge_id = 1;
  quota_slot = 0;
  state = InstanceState.running;
  state_version = 1;
  docker_context_id = 1;
  create_slot = none;
  placement_units = 1;
  stack_id = none;
  entry_container_id = some "c1";
  provision_token = "t1";
  operation_token = none;
  provision_deadline = none;
  created_at = 1000000;
  updated_at = 2000000;
  expires = 100;
  renewals_used = 0;
  solved_at = none;
  last_error = none;
}

-- Its teammate's next one, still provisioning.
abbrev pub fresh : Instance
fresh = record live {
  id = "fresh";
  challenge_id = 2;
  quota_slot = 1;
  state = InstanceState.provisioning;
  state_version = 0;
  create_slot = some 0;
  entry_container_id = none;
  provision_token = "t2";
  provision_deadline = some 9000000;
}

abbrev live_info : ContainerInfo
live_info = record {
  container_id = "c1";
  instance_id = "live";
  challenge_id = 1;
  team_id = some 7;
  user_id = some 11;
  port = 4000;
  timestamp = 1;
  expires = 100;
  renewals_used = 0;
  docker_context = "east";
  stack_id = none;
  is_entry = true;
}

abbrev pub db : Db
db = record {
  instances = live ∷ fresh ∷ [];
  infos = live_info ∷ [];
  history = [];
  contexts = east ∷ [];
}

abbrev no_instances : Db
no_instances = record db { instances = []; infos = [] }

abbrev wish : ReserveRequest
wish = record {
  identity = red;
  challenge_id = 3;
  xid = 7;
  is_team = true;
  submitter_user_id = 11;
  max_instances = 3;
  max_concurrent_creates = 2;
  placement_units = 1;
  expires = 200;
  provision_timeout_seconds = 30;
  preferred_context_name = none;
  eligible_context_names = none;
  instance_id = "new";
  provision_token = "t3";
  generate_ssh_password = false;
}

abbrev draw : Draw
draw = record { now = 3000000; choice = 5; password = "p" }

abbrev cleanup : Claim
cleanup = record {
  instance_id = "live";
  expected_states = InstanceState.running ∷ InstanceState.cleanup_pending ∷ [];
  target_state = InstanceState.cleanup_pending;
  stale_after_seconds = 60;
  expected_state_version = none;
  maintenance_cutoff = none;
  reconcile_safety_age_seconds = none;
}

abbrev start : Finalization
start = record {
  instance_id = "fresh";
  provision_token = "t2";
  entry_container_id = "c2";
  stack_id = none;
  physical_members =
      record { container_id = "c2"; port = 4001; is_entry = true; service_name = "web" } ∷ [];
}

abbrev ops : List Op
ops =
    reserves wish draw db
    ∷ finalizes start 4000000
    ∷ renews "live" 50 150 2 5000000
    ∷ shortens "live" 90 6000000
    ∷ claims cleanup "op" 7000000
    ∷ []

pub db-IsUnique : IsUnique db
unfolding fits clash
db-IsUnique = (refl, (refl, tt))

pub db-AllCoherent : AllCoherent db
db-AllCoherent = (ground arith, (ground arith, tt))

pub db-IsMirrored : IsMirrored db
db-IsMirrored = ((refl, refl, refl), tt)

cleanup-valid : claim_args_valid cleanup ≡ true
unfolding claim_args_valid
cleanup-valid = refl

cleanup-granted : (claim_operation cleanup "op" 7000000 db).0 ≡ ok (some "op")
unfolding claim_operation claim_args_valid update_instance count_where
cleanup-granted = refl

run-AllCoherent_example : AllCoherent (run ops db)
run-AllCoherent_example = run-AllCoherent ops db db-AllCoherent

run-IsMirrored_example : IsMirrored (run ops db)
run-IsMirrored_example = run-IsMirrored ops db db-IsUnique db-IsMirrored

perform-Passes_example :
    Passes
      (claims cleanup "op" 7000000)
      (find_instance "live" db.instances)
      (find_instance "live" (perform (claims cleanup "op" 7000000) db).instances)
perform-Passes_example = perform-Passes (claims cleanup "op" 7000000) "live" db db-IsUnique

run_limits_example :
    ((identity : OwnerKey)
      → length (select (λ r. owner_eq r.owner_key identity) (run ops no_instances).instances) ≤ 3)
    × ((context : ℕ) → length (used_create_slots context (run ops no_instances).instances) ≤ 2)
run_limits_example =
    run_limits 3 2 ops no_instances refl ((omega arith, omega arith), (tt, (tt, (tt, (tt, tt)))))

renew-answer_example :
    let (result, db') = renew "live" 50 150 2 5000000 db in
    ((r : Instance) × IsRenewed "live" 50 150 2 5000000 db r result db')
    ⊎ ((passes (may_renew 50 2) (find_instance "live" db.instances) ≡ false)
        × (result ≡ ok none)
        × (db' ≡ db))
renew-answer_example = renew-answer "live" 50 150 2 5000000 db db-IsUnique

shortened-granted :
    (shorten_after_solve "live" 90 6000000 db).0
    ≡ ok (some (lifecycle_of (shortened 90 6000000 live)))
unfolding shorten_after_solve after_update update_instance count_where update_where
shortened-granted = refl

solved_no_renewal_example :
    let db' = (shorten_after_solve "live" 90 6000000 db).1 in
    (90 ≤ 90)
    × (get_lifecycle "live" db' ≡ some (lifecycle_of (shortened 90 6000000 live)))
    × ((renew "live" 50 150 2 7000000 db').0 ≡ ok none)
solved_no_renewal_example =
    solved_no_renewal "live" 90 6000000 50 150 2 7000000 db
      (lifecycle_of (shortened 90 6000000 live)) db-IsUnique shortened-granted

claim_exclusive_example :
    (claim_operation cleanup "other" 8000000 (claim_operation cleanup "op" 7000000 db).1).0
    ≡ ok none
claim_exclusive_example =
    claim_exclusive cleanup cleanup "op" "other" 7000000 8000000 db db-IsUnique cleanup-valid
      cleanup-valid refl (omega arith) cleanup-granted

claim-delete_example :
    let (result, db') =
      delete_after_confirmed_cleanup
        (confirmed cleanup "op" (some Reason.stopped) none)
        8000000
        (claim_operation cleanup "op" 7000000 db).1 in
    (result ≡ ok true)
    × (find_instance "live" db'.instances ≡ none)
    × All (λ i. str_eq i.instance_id "live" ≡ false) db'.infos
claim-delete_example =
    claim-delete cleanup "op" 7000000 8000000 (some Reason.stopped) none db db-IsUnique
      cleanup-valid cleanup-granted

abbrev late : Finalization
late = record start { instance_id = "live"; provision_token = "t1" }

late_finalize_example :
    (((mark_running late 4000000 db).0 ≡ ok none)
      ⊎ ((mark_running late 4000000 db).0 ≡ err Error.value_error))
    × ((mark_running late 4000000 db).1 ≡ db)
late_finalize_example = late_finalize late 4000000 db live db-IsUnique refl refl

attempt_calm_example : (attempt_reserve wish draw (λ d. d) db).0 ≢ err Error.integrity_error
attempt_calm_example = attempt_calm wish draw db ((refl, refl), ((refl, refl), tt))

abbrev granted : InstanceReservation
granted = record {
  instance_id = "new";
  provision_token = "t3";
  context_id = 1;
  context_name = "east";
  quota_slot = 2;
  create_slot = some 1;
  placement_units = 1;
  state = InstanceState.provisioning;
  created = true;
  ssh_password = none;
}

-- The next request of the owner for the challenge.
abbrev next_wish : ReserveRequest
next_wish = record wish {
  instance_id = "later";
  provision_token = "t9";
  expires = 900;
  placement_units = 3;
}
