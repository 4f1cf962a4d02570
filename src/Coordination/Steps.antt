-- ===== src/Coordination/Steps.antt =====
-- Every transaction that the coordination commits, as a step of the database, and what a step does to
-- the table of instances.
use ctfd_challenge_container.Prelude.{
  ℕ, Bool, true, false, ◌&&◌, is_none, ◌≡◌, refl, String, Option, List, [], ◌∷◌, arith, Bool-cases,
  inl, inr, ap,
}
use ctfd_challenge_container.Schema.{DockerContext, Instance, Db, clash}
use ctfd_challenge_container.Table.{update_where, delete_where, fits}
use ctfd_challenge_container.Table.Unique.{is_clash_free}
use ctfd_challenge_container.Coordination.{Result, ok, err}
use ctfd_challenge_container.Coordination.Reserve.{
  ReserveRequest, Draw, Plan, already, place, plan_reserve, commit_place, provisioning_row,
  insert_instance, bump_placement_version,
}
use ctfd_challenge_container.Coordination.Cases.{
  start_rows-instances, mark_running-cases, after_update-cases, delete-cases, claim-cases,
}
use ctfd_challenge_container.Coordination.Lifecycle.Finalize.{
  Finalization, mark_running, start_rows, is_reserved, started,
}
use ctfd_challenge_container.Coordination.Lifecycle.Cleanup.{
  Claim, Deletion, mark_cleanup_pending, claim_operation, claim_args_valid, release_operation,
  delete_after_confirmed_cleanup, is_abandoned, abandoned, is_claimable, claimed, is_held, released,
  is_deletable, update_instance,
}
use ctfd_challenge_container.Coordination.Lifecycle.Expiry.{
  shorten_after_solve, renew, extend_by_admin, after_update, is_solvable, shortened, is_renewable,
  renewed, is_extendable, extended,
}

-- `reserves` carries the snapshot that the attempt read: other workers may have committed since.
-- `edits_contexts` stands for the administration and the health check, which own that table.
pub data Op : Type 0 where
  reserves : ReserveRequest → Draw → Db → Op
  finalizes : Finalization → ℕ → Op
  abandons : String → String → String → ℕ → Op
  claims : Claim → String → ℕ → Op
  releases : String → String → Option String → ℕ → Op
  deletes : Deletion → ℕ → Op
  shortens : String → ℕ → ℕ → Op
  renews : String → ℕ → ℕ → ℕ → ℕ → Op
  extends : String → ℕ → ℕ → Op
  edits_contexts : List DockerContext → Op

abbrev pub commit_plan : ReserveRequest → Draw → Result Plan → Db → Db
commit_plan request draw (err e) db = db
commit_plan request draw (ok (already r)) db = db
commit_plan request draw (ok (place context quota create)) db =
    (commit_place request draw context quota create db).1

unfoldable pub perform : Op → Db → Db
perform (reserves request draw snapshot) db =
    commit_plan request draw (plan_reserve request draw snapshot) db
perform (finalizes f now) db = (mark_running f now db).1
perform (abandons id token error now) db = (mark_cleanup_pending id token error now db).1
perform (claims c token now) db = (claim_operation c token now db).1
perform (releases id token error now) db = (release_operation id token error now db).1
perform (deletes d now) db = (delete_after_confirmed_cleanup d now db).1
perform (shortens id target solved) db = (shorten_after_solve id target solved db).1
perform (renews id now new_expires limit clock) db = (renew id now new_expires limit clock db).1
perform (extends id new_expires clock) db = (extend_by_admin id new_expires clock db).1
perform (edits_contexts contexts) db = record db { contexts = contexts }

unfoldable pub run : List Op → Db → Db
run [] db = db
run (op ∷ ops) db = run ops (perform op db)

-- The UPDATE statements of `container_instances` that write no unique column.
pub data Rewriting : (Instance → Bool) → (Instance → Instance) → Type 0 where
  abandoning :
      (id token error : String) (now : ℕ) → Rewriting (is_abandoned id token) (abandoned error now)
  claiming :
      (c : Claim) (token : String) (now : ℕ)
      → claim_args_valid c ≡ true
      → Rewriting (is_claimable c now) (claimed c token now)
  releasing :
      (id token : String) (error : Option String) (now : ℕ)
      → Rewriting (is_held id token) (released error now)
  shortening :
      (id : String) (target solved : ℕ)
      → Rewriting (is_solvable id solved) (shortened target solved)
  renewing :
      (id : String) (now new_expires limit clock : ℕ)
      → Rewriting (is_renewable id now limit) (renewed new_expires clock)
  extending :
      (id : String) (new_expires clock : ℕ)
      → Rewriting (is_extendable id new_expires) (extended new_expires clock)

-- How the table of instances may change in one step.
pub data Effect (op : Op) (rows rows' : List Instance) : Type 0 where
  same : rows' ≡ rows → Effect op rows rows'
  inserting :
      (request : ReserveRequest) (draw : Draw) (snapshot : Db) (context : DockerContext)
      (quota create : ℕ)
      → op ≡ reserves request draw snapshot
      → plan_reserve request draw snapshot ≡ ok (place context quota create)
      → fits clash (provisioning_row request draw context.id quota create) rows ≡ true
      → rows' ≡ provisioning_row request draw context.id quota create ∷ rows
      → Effect op rows rows'
  starting :
      (f : Finalization) (now : ℕ)
      → is_clash_free clash rows' ≡ true
      → rows' ≡ update_where (is_reserved f) (started f now) rows
      → Effect op rows rows'
  rewriting :
      (test : Instance → Bool) (change : Instance → Instance)
      → Rewriting test change
      → rows' ≡ update_where test change rows
      → Effect op rows rows'
  removing :
      (d : Deletion) (now : ℕ)
      → op ≡ deletes d now
      → (is_none d.provision_token && is_none d.operation_token) ≡ false
      → rows' ≡ delete_where (is_deletable d) rows
      → Effect op rows rows'

commit_place-Effect :
    (request : ReserveRequest) (draw : Draw) (snapshot : Db) (context : DockerContext)
    (quota create : ℕ) (db : Db)
    → plan_reserve request draw snapshot ≡ ok (place context quota create)
    → Effect
        (reserves request draw snapshot)
        db.instances
        (commit_place request draw context quota create db).1.instances
unfolding commit_place bump_placement_version insert_instance
commit_place-Effect request draw snapshot context quota create db planned =
    elim (Bool-cases (bump_placement_version db context).0) [
      | inl one ↦
          elim (Bool-cases
            (fits clash (provisioning_row request draw context.id quota create) db.instances)) [
              | inl free ↦
                  inserting request draw snapshot context quota create refl planned free
                    (ground arith)
              | inr taken ↦ same (ground arith)
            ]
      | inr none_left ↦ same (ground arith)
    ]

start_rows-Effect :
    (op : Op) (f : Finalization) (now : ℕ) (r : Instance) (context : DockerContext) (db db' : Db)
    → start_rows f now r context db ≡ ok db'
    → Effect op db.instances db'.instances
start_rows-Effect op f now r context db db' e =
    let (free, rows) = start_rows-instances f now r context db db' e in starting f now free rows

mark_running-Effect :
    (op : Op) (f : Finalization) (now : ℕ) (db : Db)
    → Effect op db.instances (mark_running f now db).1.instances
mark_running-Effect op f now db = elim (mark_running-cases f now db) [
  | inl unchanged ↦ same (ap (λ (d : Db). d.instances) unchanged)
  | inr s ↦ rw (s.done) (start_rows-Effect op f now s.row s.context db s.result s.rows_written)
]

update_instance-Effect :
    (op : Op) (test : Instance → Bool) (change : Instance → Instance) (db : Db)
    → Rewriting test change
    → Effect op db.instances (update_instance test change db).1.instances
unfolding update_instance
update_instance-Effect op test change db rule = rewriting test change rule refl

after_update-Effect :
    (op : Op) (id : String) (mirror : Instance → Db → Db) (test : Instance → Bool)
    (change : Instance → Instance) (db : Db)
    → Rewriting test change
    → ((r : Instance) (d : Db) → (mirror r d).instances ≡ d.instances)
    → Effect op db.instances
        (after_update id mirror (update_instance test change db) db).1.instances
unfolding update_instance
after_update-Effect op id mirror test change db rule keeps =
    elim (after_update-cases id mirror (update_instance test change db) db) [
      | inl unchanged ↦ same (ap (λ (d : Db). d.instances) unchanged)
      | inr (row, _, _, _, done) ↦ rw done (rewriting test change rule (keeps row _))
    ]

delete-Effect :
    (d : Deletion) (now : ℕ) (db : Db)
    → Effect (deletes d now) db.instances (delete_after_confirmed_cleanup d now db).1.instances
delete-Effect d now db = elim (delete-cases d now db) [
  | inl e ↦ rw e (same refl)
  | inr (given, done) ↦ rw done (removing d now refl given refl)
]

commit_plan-Effect :
    (request : ReserveRequest) (draw : Draw) (snapshot : Db) (planned : Result Plan) (db : Db)
    → plan_reserve request draw snapshot ≡ planned
    → Effect
        (reserves request draw snapshot)
        db.instances
        (commit_plan request draw planned db).instances
commit_plan-Effect request draw snapshot (err e) db p = same refl
commit_plan-Effect request draw snapshot (ok (already r)) db p = same refl
commit_plan-Effect request draw snapshot (ok (place context quota create)) db p =
    commit_place-Effect request draw snapshot context quota create db p

claim-Effect :
    (op : Op) (c : Claim) (token : String) (now : ℕ) (db : Db)
    → Effect op db.instances (claim_operation c token now db).1.instances
claim-Effect op c token now db = elim (claim-cases c token now db) [
  | inl unchanged ↦ same (ap (λ (d : Db). d.instances) unchanged)
  | inr (valid, done) ↦ rw done (update_instance-Effect _ _ _ db (claiming c token now valid))
]

-- Whatever a transaction commits, it changes the instances in one of the ways of `Effect`.
pub perform-Effect : (op : Op) (db : Db) → Effect op db.instances (perform op db).instances
unfolding perform
perform-Effect (reserves request draw snapshot) db =
    commit_plan-Effect request draw snapshot (plan_reserve request draw snapshot) db refl
perform-Effect (finalizes f now) db = mark_running-Effect _ f now db
perform-Effect (abandons id token error now) db =
    unfold mark_cleanup_pending in update_instance-Effect _ _ _ db (abandoning id token error now)
perform-Effect (claims c token now) db = claim-Effect _ c token now db
perform-Effect (releases id token error now) db =
    unfold release_operation in update_instance-Effect _ _ _ db (releasing id token error now)
perform-Effect (deletes d now) db = delete-Effect d now db
perform-Effect (shortens id target solved) db =
    unfold shorten_after_solve in
    after_update-Effect _ id _ _ _ db (shortening id target solved) (λ r d. refl)
perform-Effect (renews id now new_expires limit clock) db =
    unfold renew in
    after_update-Effect _ id _ _ _ db (renewing id now new_expires limit clock) (λ r d. refl)
perform-Effect (extends id new_expires clock) db =
    unfold extend_by_admin in
    after_update-Effect _ id _ _ _ db (extending id new_expires clock) (λ r d. refl)
perform-Effect (edits_contexts contexts) db = same refl
