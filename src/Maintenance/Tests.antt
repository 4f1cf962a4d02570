-- ===== src/Maintenance/Tests.antt =====
-- The properties of the maintenance, applied to the database of the coordination's tests.
use ctfd_challenge_container.Prelude.{ℕ, ◌≡◌, refl, arith, [], ◌∷◌, Option, none, some, is_some}
use ctfd_challenge_container.Schema.{Instance, Db, clash}
use ctfd_challenge_container.Coordination.{find_instance}
use ctfd_challenge_container.Coordination.Lifecycle.Solves.{
  solve_time, reconcile_each, reconcile_solved_instances,
}
use ctfd_challenge_container.Table.{fits}
use ctfd_challenge_container.Coordination.Invariant.Uniqueness.{IsUnique}
use ctfd_challenge_container.Coordination.Tests.{live, fresh, db}
use ctfd_challenge_container.Maintenance.Spared.{kill_expired_spares}
use ctfd_challenge_container.Maintenance.{kill_expired, reconcile_solves, Visit, end_instance}
use ctfd_challenge_container.Maintenance.Invariant.{end_instance-present}

abbrev reached : Instance → Visit
reached r = record {
  token = "op";
  claimed_at = 200000000;
  ended_at = 201000000;
  removal_error = none;
}

abbrev unreachable : Visit
unreachable = record {
  token = "op";
  claimed_at = 200000000;
  ended_at = 201000000;
  removal_error = some "timeout";
}

abbrev unsolved : Instance → Option ℕ
unsolved r = none

end_instance-present_example :
    is_some (find_instance "live" (end_instance 200 live unreachable db).1.instances)
    ≡ is_some (find_instance "live" db.instances)
end_instance-present_example = end_instance-present "live" 200 live unreachable db "timeout" refl

-- The running instance has time left, and the deadline of the other one is long past.
abbrev unexpired : Instance
unexpired = record live { expires = 900 }

abbrev later_db : Db
later_db = record db { instances = unexpired ∷ fresh ∷ [] }

later_db-IsUnique : IsUnique later_db
unfolding clash fits
later_db-IsUnique = (refl, (refl, tt))

kept_live : find_instance "live" (reconcile_solves unsolved 30 later_db).instances ≡ some unexpired
unfolding reconcile_solves reconcile_solved_instances reconcile_each solve_time
kept_live = refl

kill_expired_spares_example :
    find_instance "live" (kill_expired unsolved 30 400 reached later_db).1.instances
    ≡ some unexpired
kill_expired_spares_example =
    kill_expired_spares unsolved 30 400 reached "live" unexpired later_db later_db-IsUnique
      kept_live (omega arith)
