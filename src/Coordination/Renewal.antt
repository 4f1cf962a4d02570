-- ===== src/Coordination/Renewal.antt =====
-- What `renew`, `shorten_after_solve` and `extend_by_admin` answer, from the row that the id finds.
use ctfd_challenge_container.Prelude.{
  ℕ, suc, ◌<◌, ◌≤◌, ◌⊎◌, Bool, true, false, ◌&&◌, str_eq_iff, ◌≡◌, refl, ap, sym, ◌∙◌, String,
  Option, none, some, arith, Bool-cases, Option-cases, inl, inr, if◌then◌else◌, ltb, leb, is_none,
  str_eq,
}
use ctfd_challenge_container.Schema.{Instance, Db, clash, is_running}
use ctfd_challenge_container.Table.{rewritten, update_where}
use ctfd_challenge_container.Table.Laws.{
  applied, passes, counted-is_one, count-by_key, by_key-map, find-test,
}
use ctfd_challenge_container.Coordination.{
  Result, ok, LifecycleUpdate, lifecycle_of, find_instance, get_lifecycle,
}
use ctfd_challenge_container.Coordination.Lifecycle.Cleanup.{update_instance}
use ctfd_challenge_container.Coordination.Lifecycle.Expiry.{
  after_update, shorten_after_solve, renew, extend_by_admin, shortened, renewed, extended,
  is_renewable,
}
use ctfd_challenge_container.Coordination.Invariant.Progress.{clash_of_id}
use ctfd_challenge_container.Coordination.Invariant.Uniqueness.{IsUnique, Effect-NoClash}
use ctfd_challenge_container.Coordination.Steps.{shortens, perform, perform-Effect}

-- The UPDATE under one id reports whether the row found passes the rest of its test.
pub update_instance-passes :
    (id : String) (test : Instance → Bool) (change : Instance → Instance) (db : Db)
    → IsUnique db
    → (update_instance (λ r. str_eq r.id id && test r) change db).0
      ≡ passes test (find_instance id db.instances)
unfolding update_instance
update_instance-passes id test change db unique =
    rw (count-by_key (λ r. r.id) clash id test db.instances clash_of_id unique)
      (counted-is_one test (find_instance id db.instances))

-- And puts the changed row in its place.
pub find-update_instance :
    (id : String) (test : Instance → Bool) (change : Instance → Instance) (db : Db)
    → ((r : Instance) → (change r).id ≡ r.id)
    → find_instance id (update_instance test change db).1.instances
      ≡ applied (rewritten test change) (find_instance id db.instances)
unfolding update_instance update_where
find-update_instance id test change db same_id =
    by_key-map (λ r. r.id) id (rewritten test change) db.instances
      (λ r. elim (Bool-cases (test r)) [ inl e ↦ rw e (same_id r) | inr e ↦ rw e refl ])

-- The answer to an operation on the expiry, and the row that it leaves.
abbrev pub answer :
    (Instance → Bool) → (Instance → Instance) → Option Instance → Result (Option LifecycleUpdate)
answer test change none = ok none
answer test change (some r) = if test r then ok (some (lifecycle_of (change r))) else ok none

abbrev pub outcome : (Instance → Bool) → (Instance → Instance) → Option Instance → Option Instance
outcome test change none = none
outcome test change (some r) = some (if test r then change r else r)

after_update-answer :
    (id : String) (mirror : Instance → Db → Db) (test : Instance → Bool)
    (change : Instance → Instance) (db : Db)
    → ((r : Instance) → (change r).id ≡ r.id)
    → ((r : Instance) (d : Db) → (mirror r d).instances ≡ d.instances)
    → IsUnique db
    → let (result, db') =
        after_update id mirror (update_instance (λ r. str_eq r.id id && test r) change db) db in
      (result ≡ answer test change (find_instance id db.instances))
      × (find_instance id db'.instances ≡ outcome test change (find_instance id db.instances))
unfolding after_update
after_update-answer id mirror test change db same_id keeps unique =
    let here = λ (r : Instance). str_eq r.id id && test r in
    let reported = update_instance-passes id test change db unique in
    let moved = find-update_instance id here change db same_id in
    elim (Option-cases (find_instance id db.instances)) [
      | inl e ↦ (ground (arith, reported), ground (arith, reported))
      | inr (r, e) ↦
          let own = find-test (λ (s : Instance). str_eq s.id id) db.instances r e in
          elim (Bool-cases (test r)) [
            | inr t ↦ (ground (arith, reported), ground (arith, reported))
            | inl t ↦ (
              ground (arith, reported, moved),
              ground (arith, reported, moved, keeps (change r) (update_instance here change db).1),
            )
          ]
    ]

-- Who may renew: an instance that runs, is unsolved and unexpired, and has renewals left.
abbrev pub may_renew : ℕ → ℕ → Instance → Bool
may_renew now limit r =
    is_running r.state && is_none r.solved_at && ltb now r.expires && ltb r.renewals_used limit

-- In a database that meets its unique constraints `renew` answers from the row found under the id: if
-- that row may be renewed the answer is its new lifecycle, and the row has the new expiry, one more
-- renewal and one more version; else the answer is None and the row is as it was.
pub renew_row :
    (id : String) (now new_expires limit clock : ℕ) (db : Db)
    → IsUnique db
    → let (result, db') = renew id now new_expires limit clock db in
      (result
        ≡ answer (may_renew now limit) (renewed new_expires clock) (find_instance id db.instances))
      × (find_instance id db'.instances
          ≡ outcome
              (may_renew now limit)
              (renewed new_expires clock)
              (find_instance id db.instances))
unfolding renew
renew_row id now new_expires limit clock db unique =
    after_update-answer id _ (may_renew now limit) (renewed new_expires clock) db (λ r. refl)
      (λ r d. refl) unique

after_update-done :
    (id : String) (mirror : Instance → Db → Db) (written : Bool × Db) (db : Db) (row : Instance)
    → written.0 ≡ true
    → find_instance id written.1.instances ≡ some row
    → after_update id mirror written db ≡ (ok (some (lifecycle_of row)), mirror row written.1)
unfolding after_update
after_update-done id mirror (true, db') db row t f = rw (after_update, f) refl
after_update-done id mirror (false, db') db row t f = absurd (ground arith)

after_update-undone :
    (id : String) (mirror : Instance → Db → Db) (written : Bool × Db) (db : Db)
    → written.0 ≡ false
    → after_update id mirror written db ≡ (ok none, db)
unfolding after_update
after_update-undone id mirror (true, db') db t = absurd (ground arith)
after_update-undone id mirror (false, db') db t = refl

-- An UPDATE under one id leaves the rows of the other ids.
pub find-update_other :
    (id other : String) (test : Instance → Bool) (change : Instance → Instance) (db : Db)
    → ((r : Instance) → (change r).id ≡ r.id)
    → str_eq other id ≡ false
    → find_instance other (update_instance (λ r. str_eq r.id id && test r) change db).1.instances
      ≡ find_instance other db.instances
unfolding update_instance update_where
find-update_other id other test change db same_id apart =
    by_key-map (λ r. r.id) other (rewritten (λ r. str_eq r.id id && test r) change) db.instances
      (λ r. elim (Bool-cases (str_eq r.id id && test r)) [
        | inl e ↦ rw e (same_id r)
        | inr e ↦ rw e refl
      ])
    ∙ elim (Option-cases (find_instance other db.instances)) [
      | inl e ↦ rw e refl
      | inr (s, e) ↦
          let own = find-test (λ (x : Instance). str_eq x.id other) db.instances s e in
          let same : s.id ≡ other = (str_eq_iff s.id other).0 own in
          let outside : str_eq s.id id ≡ false = ap (λ k. str_eq k id) same ∙ apart in
          rw (e, outside) refl
    ]

-- What a renewal leaves: the row with the new expiry, one more renewal and one more version, its
-- containers with its expiry and renewals, and all else as it was.
pub record IsRenewed (id : String) (now new_expires limit clock : ℕ) (db : Db) (r : Instance)
    (result : Result (Option LifecycleUpdate)) (db' : Db) : Type 0 where
  pub was_found : find_instance id db.instances ≡ some r
  pub was_running : is_running r.state ≡ true
  pub was_unsolved : r.solved_at ≡ none
  pub was_unexpired : now < r.expires
  pub was_below : r.renewals_used < limit
  pub reported :
      result
      ≡ ok (
          some (record {
            expires = new_expires;
            renewals_used = suc r.renewals_used;
            solved_at = none;
          }))
  pub row_written :
      find_instance id db'.instances
      ≡ some (record r {
        expires = new_expires;
        renewals_used = suc r.renewals_used;
        state_version = suc r.state_version;
        updated_at = clock;
      })
  pub infos_written :
      db'.infos
      ≡ update_where
          (λ i. str_eq i.instance_id id)
          (λ i. record i { expires = new_expires; renewals_used = suc r.renewals_used })
          db.infos
  pub others_kept :
      (other : String)
      → str_eq other id ≡ false
      → find_instance other db'.instances ≡ find_instance other db.instances
  pub history_kept : db'.history ≡ db.history
  pub contexts_kept : db'.contexts ≡ db.contexts

written-IsRenewed :
    (id : String) (now new_expires limit clock : ℕ) (db : Db) (r : Instance)
    → find_instance id db.instances ≡ some r
    → may_renew now limit r ≡ true
    → let written = update_instance (is_renewable id now limit) (renewed new_expires clock) db in
      find_instance id written.1.instances ≡ some (renewed new_expires clock r)
      → ((other : String)
          → str_eq other id ≡ false
          → find_instance other written.1.instances ≡ find_instance other db.instances)
      → IsRenewed id now new_expires limit clock db r
          (ok (some (lifecycle_of (renewed new_expires clock r))))
          (record written.1 {
            infos =
                update_where
                  (λ i. str_eq i.instance_id id)
                  (λ i. record i { expires = new_expires; renewals_used = suc r.renewals_used })
                  written.1.infos;
          })
unfolding update_instance
written-IsRenewed id now new_expires limit clock db r found may row others =
    let nothing : r.solved_at ≡ none = ground arith in
    record {
      was_found = found;
      was_running = ground arith;
      was_unsolved = nothing;
      was_unexpired = ground arith;
      was_below = ground arith;
      reported = rw nothing refl;
      row_written = row;
      infos_written = refl;
      others_kept = others;
      history_kept = refl;
      contexts_kept = refl;
    }

renew-granted :
    (id : String) (now new_expires limit clock : ℕ) (db : Db) (r : Instance)
    → IsUnique db
    → find_instance id db.instances ≡ some r
    → may_renew now limit r ≡ true
    → IsRenewed id now new_expires limit clock db r
        (renew id now new_expires limit clock db).0
        (renew id now new_expires limit clock db).1
unfolding renew
renew-granted id now new_expires limit clock db r unique found may =
    let here = is_renewable id now limit in
    let reported =
      update_instance-passes id (may_renew now limit) (renewed new_expires clock) db unique in
    let own = find-test (λ (x : Instance). str_eq x.id id) db.instances r found in
    let row : find_instance id (update_instance here (renewed new_expires clock) db).1.instances
        ≡ some (renewed new_expires clock r) =
      find-update_instance id here (renewed new_expires clock) db (λ r. refl)
      ∙ rw (found, own, may) refl in
    let others = λ (other : String) (apart : str_eq other id ≡ false).
      find-update_other id other (may_renew now limit) (renewed new_expires clock) db (λ r. refl)
        apart in
    rw
      (after_update-done id _ (update_instance here (renewed new_expires clock) db) db
        (renewed new_expires clock r) (reported ∙ rw found may) row)
      (written-IsRenewed id now new_expires limit clock db r found may row others)

-- In a database that meets its unique constraints, `renew` either finds under the id an instance that
-- runs, is unsolved, has not expired and has renewals left: then the answer, its row and its containers
-- have the new expiry and one more renewal, the row one more version, and all other rows, the history and
-- the contexts are as they were; or there is no such instance under the id: then the answer is None and
-- the database as it was.
pub renew-answer :
    (id : String) (now new_expires limit clock : ℕ) (db : Db)
    → IsUnique db
    → let (result, db') = renew id now new_expires limit clock db in
      ((r : Instance) × IsRenewed id now new_expires limit clock db r result db')
      ⊎ ((passes (may_renew now limit) (find_instance id db.instances) ≡ false)
          × (result ≡ ok none)
          × (db' ≡ db))
unfolding renew
renew-answer id now new_expires limit clock db unique =
    let reported =
      update_instance-passes id (may_renew now limit) (renewed new_expires clock) db unique in
    elim (Option-cases (find_instance id db.instances)) [
      | inl e ↦
          let undone =
            after_update-undone id _
              (update_instance (is_renewable id now limit) (renewed new_expires clock) db) db
              (reported ∙ rw e refl) in
          inr (rw e refl, ap (λ p. p.0) undone, ap (λ p. p.1) undone)
      | inr (r, e) ↦ elim (Bool-cases (may_renew now limit r)) [
        | inl may ↦ inl (r, renew-granted id now new_expires limit clock db r unique e may)
        | inr may ↦
            let undone =
              after_update-undone id _
                (update_instance (is_renewable id now limit) (renewed new_expires clock) db) db
                (reported ∙ rw e may) in
            inr (rw e may, ap (λ p. p.0) undone, ap (λ p. p.1) undone)
      ]
    ]

-- Who is shortened by a solve: an unsolved instance that runs since the solve or before.
abbrev pub may_shorten : ℕ → Instance → Bool
may_shorten solved r = is_running r.state && is_none r.solved_at && leb r.created_at solved

-- In a database that meets its unique constraints `shorten_after_solve` records the solve of a running,
-- unsolved instance created no later than the solve, and lowers its expiry to the target if that is
-- earlier; in any other case it answers None and leaves the row as it was.
pub shorten_answer :
    (id : String) (target solved : ℕ) (db : Db)
    → IsUnique db
    → let (result, db') = shorten_after_solve id target solved db in
      (result
        ≡ answer (may_shorten solved) (shortened target solved) (find_instance id db.instances))
      × (find_instance id db'.instances
          ≡ outcome (may_shorten solved) (shortened target solved) (find_instance id db.instances))
unfolding shorten_after_solve
shorten_answer id target solved db unique =
    after_update-answer id _ (may_shorten solved) (shortened target solved) db (λ r. refl)
      (λ r d. refl) unique

abbrev pub may_extend : ℕ → Instance → Bool
may_extend new_expires r = is_running r.state && ltb r.expires new_expires

-- In a database that meets its unique constraints `extend_by_admin` moves the expiry of a running
-- instance to a later time; in any other case it answers None and leaves the row as it was.
pub extend_answer :
    (id : String) (new_expires clock : ℕ) (db : Db)
    → IsUnique db
    → let (result, db') = extend_by_admin id new_expires clock db in
      (result
        ≡ answer
            (may_extend new_expires)
            (extended new_expires clock)
            (find_instance id db.instances))
      × (find_instance id db'.instances
          ≡ outcome
              (may_extend new_expires)
              (extended new_expires clock)
              (find_instance id db.instances))
unfolding extend_by_admin
extend_answer id new_expires clock db unique =
    after_update-answer id _ (may_extend new_expires) (extended new_expires clock) db (λ r. refl)
      (λ r d. refl) unique

-- The unique constraints hold after an operation on the expiry.
pub shorten-IsUnique :
    (id : String) (target solved : ℕ) (db : Db)
    → IsUnique db
    → IsUnique (shorten_after_solve id target solved db).1
shorten-IsUnique id target solved db unique =
    unfold perform in Effect-NoClash (perform-Effect (shortens id target solved) db) unique

-- Once `shorten_after_solve` has recorded a solve, the expiry is at most the target, `get_lifecycle` reads back what was answered, and every `renew` of the instance answers None.
pub solved_no_renewal :
    (id : String) (target solved now new_expires limit clock : ℕ) (db : Db) (u : LifecycleUpdate)
    → IsUnique db
    → (shorten_after_solve id target solved db).0 ≡ ok (some u)
    → let db' = (shorten_after_solve id target solved db).1 in
      (u.expires ≤ target)
      × (get_lifecycle id db' ≡ some u)
      × ((renew id now new_expires limit clock db').0 ≡ ok none)
unfolding get_lifecycle
solved_no_renewal id target solved now new_expires limit clock db u unique e =
    let (said, left) = shorten_answer id target solved db unique in
    let db' = (shorten_after_solve id target solved db).1 in
    let (refused, _) =
      renew_row id now new_expires limit clock db' (shorten-IsUnique id target solved db unique) in
    elim (Option-cases (find_instance id db.instances)) [
      | inl f ↦ absurd (ground (arith, said))
      | inr (r, f) ↦ elim (Bool-cases (may_shorten solved r)) [
        | inr t ↦ absurd (ground (arith, said))
        | inl t ↦
            let row : find_instance id db'.instances ≡ some (shortened target solved r) =
              ground (arith, left) in
            let same : u ≡ lifecycle_of (shortened target solved r) = ground (arith, said) in
            (
              rw same (ground arith),
              rw (row, get_lifecycle) (ap some (sym same)),
              refused ∙ rw row (ground arith),
            )
      ]
    ]
