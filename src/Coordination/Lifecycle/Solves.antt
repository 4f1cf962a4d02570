-- ===== src/Coordination/Lifecycle/Solves.antt =====
-- `reconcile_solved_instances`: shortens what was solved while the shortening failed. The table of
-- solves is CTFd's: `first_solve` gives the time of the earliest solve of the instance's challenge by
-- its team, or by its user if it has no team.
use ctfd_challenge_container.Prelude.{
  ℕ, suc, ◌+◌, ◌/◌, Bool, ◌&&◌, Option, none, some, List, [], ◌∷◌, if◌then◌else◌, ltb, select,
  is_none,
}
use ctfd_challenge_container.Schema.{Instance, Db, is_running}
use ctfd_challenge_container.Coordination.{Result, ok, err, LifecycleUpdate}
use ctfd_challenge_container.Coordination.Lifecycle.Expiry.{shorten_after_solve}

abbrev pub is_unsolved : Instance → Bool
is_unsolved r = is_running r.state && is_none r.solved_at

-- The time at which an instance counts as solved, if it does.
unfoldable pub solve_time : (Instance → Option ℕ) → Instance → Option ℕ
solve_time first_solve r =
    if is_none r.team_id && is_none r.user_id then none else elim (first_solve r) [
      | none ↦ none
      | some solved ↦ if ltb solved r.created_at then none else some solved
    ]

abbrev tallied : ℕ → Option LifecycleUpdate → ℕ
tallied n none = n
tallied n (some update) = suc n

-- The loop over the candidates, with the number reconciled so far; an exception ends it.
unfoldable pub reconcile_each : (Instance → Option ℕ) → ℕ → List Instance → ℕ → Db → Result ℕ × Db
reconcile_each first_solve shorten [] n db = (ok n, db)
reconcile_each first_solve shorten (r ∷ rs) n db = elim (solve_time first_solve r) [
  | none ↦ reconcile_each first_solve shorten rs n db
  | some solved ↦
      let (result, db') = shorten_after_solve r.id (solved / 1000000 + shorten) solved db in
      elim result [
        | err e ↦ (err e, db')
        | ok update ↦ reconcile_each first_solve shorten rs (tallied n update) db'
      ]
]

unfoldable pub reconcile_solved_instances : (Instance → Option ℕ) → ℕ → Db → Result ℕ × Db
reconcile_solved_instances first_solve shorten db =
    if ltb 0 shorten
    then reconcile_each first_solve shorten (select is_unsolved db.instances) 0 db
    else (ok 0, db)
