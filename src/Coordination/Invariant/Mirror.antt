-- ===== src/Coordination/Invariant/Mirror.antt =====
-- The rows of `container_info` repeat the expiry and the renewals of their instance.
use ctfd_challenge_container.Prelude.{
  ℕ, Bool, true, false, ◌≡◌, refl, ap, sym, subst, ◌∙◌, String, Option, none, some, List, [], ◌∷◌,
  map, arith, find, &&_both, Bool-cases, inl, inr, All, str_eq, str_eq_iff,
}
use ctfd_challenge_container.Schema.{
  DockerContext, Instance, ContainerInfo, Db, clash, is_provisioning,
}
use ctfd_challenge_container.Table.{rewritten, update_where, delete_where, fits}
use ctfd_challenge_container.Table.Unique.{NoClash}
use ctfd_challenge_container.Table.Laws.{
  applied, All-map, All-imp, All-select_imp, by_key-map, by_key-delete_ne, absent_of_fits,
  by_key-of_find, find-test,
}
use ctfd_challenge_container.Coordination.{
  Result, ok, err, Result-cases, find_instance, PhysicalMember,
}
use ctfd_challenge_container.Coordination.Cases.{
  start_rows-instances, start_rows-infos, mark_running-cases, after_update-cases, delete-cases,
  claim-cases,
}
use ctfd_challenge_container.Coordination.Reserve.{
  ReserveRequest, Draw, Plan, already, place, plan_reserve, provisioning_row, commit_place,
  bump_placement_version, insert_instance,
}
use ctfd_challenge_container.Coordination.Lifecycle.Finalize.{
  Finalization, is_reserved, started, insert_infos, member_info, mark_running,
}
use ctfd_challenge_container.Coordination.Lifecycle.Cleanup.{
  Claim, Deletion, claim_args_valid, claim_operation, mark_cleanup_pending, release_operation,
  update_instance, tokens_match, delete_after_confirmed_cleanup,
}
use ctfd_challenge_container.Coordination.Lifecycle.Expiry.{
  after_update, of_instance, is_solvable, shortened, is_renewable, renewed, is_extendable, extended,
  shorten_after_solve, renew, extend_by_admin,
}
use ctfd_challenge_container.Coordination.Steps
use ctfd_challenge_container.Coordination.Steps.{Op, perform, run, commit_plan, perform-Effect}
use ctfd_challenge_container.Coordination.Invariant.Progress.{clash_of_id}
use ctfd_challenge_container.Coordination.Invariant.Uniqueness.{IsUnique, Effect-NoClash}

abbrev pub Matches : ContainerInfo → Option Instance → Type 0
Matches i none = ⊥
Matches i (some r) =
    (r.expires ≡ i.expires)
    × (r.renewals_used ≡ i.renewals_used)
    × (is_provisioning r.state ≡ false)

-- Each container row belongs to an instance that has left provisioning, and repeats its lifecycle.
abbrev pub MirrorsRow : List Instance → ContainerInfo → Type 0
MirrorsRow rows i = Matches i (find_instance i.instance_id rows)

abbrev pub IsMirrored : Db → Type 0
IsMirrored db = All (MirrorsRow db.instances) db.infos

-- A change of instances that the container rows do not see.
abbrev Silent : (Instance → Bool) → (Instance → Instance) → Type 0
Silent test change =
    (r : Instance)
    → ((change r).id ≡ r.id)
      × (test r ≡ true
          → is_provisioning r.state ≡ false
          → ((change r).expires ≡ r.expires)
            × ((change r).renewals_used ≡ r.renewals_used)
            × (is_provisioning (change r).state ≡ false))

Matches-rewritten :
    (test : Instance → Bool) (change : Instance → Instance)
    → Silent test change
    → (i : ContainerInfo) (o : Option Instance) → Matches i o
    → Matches i (applied (rewritten test change) o)
Matches-rewritten test change silent i none h = h
Matches-rewritten test change silent i (some r) h = elim (Bool-cases (test r)) [
  | inl e ↦ let kept = (silent r).1 e h.2 in rw e (ground arith)
  | inr e ↦ rw e h
]

rewritten-id :
    (test : Instance → Bool) (change : Instance → Instance)
    → ((r : Instance) → (change r).id ≡ r.id)
    → (r : Instance) → (rewritten test change r).id ≡ r.id
rewritten-id test change same_id r = elim (Bool-cases (test r)) [
  | inl e ↦ rw e (same_id r)
  | inr e ↦ rw e refl
]

Silent-MirrorsRow :
    (test : Instance → Bool) (change : Instance → Instance)
    → Silent test change
    → (rows : List Instance) (i : ContainerInfo) → MirrorsRow rows i
    → MirrorsRow (update_where test change rows) i
unfolding update_where
Silent-MirrorsRow test change silent rows i h =
    rw
      (by_key-map (λ r. r.id) i.instance_id (rewritten test change) rows
        (rewritten-id test change (λ r. (silent r).0)))
      (Matches-rewritten test change silent i (find_instance i.instance_id rows) h)

update_instance-IsMirrored :
    (test : Instance → Bool) (change : Instance → Instance) (db : Db)
    → Silent test change
    → IsMirrored db
    → IsMirrored (update_instance test change db).1
unfolding update_instance
update_instance-IsMirrored test change db silent h =
    All-imp (MirrorsRow db.instances) _ db.infos (Silent-MirrorsRow test change silent db.instances)
      h

-- A new instance has no containers yet.
MirrorsRow-cons :
    (row : Instance) (rows : List Instance) (i : ContainerInfo)
    → fits clash row rows ≡ true
    → MirrorsRow rows i
    → MirrorsRow (row ∷ rows) i
MirrorsRow-cons row rows i free h = elim (Bool-cases (str_eq row.id i.instance_id)) [
  | inl e ↦
      absurd (rw (absent_of_fits (λ r. r.id) clash i.instance_id row rows clash_of_id free e) at h)
  | inr e ↦ rw e h
]

-- An UPDATE that sets the expiry of one instance, with the copy to its containers. `copy` is what the
-- statement on `container_info` does to one row, given the instance as it is read again.
module _ (id : String) (test : Instance → Bool) (change : Instance → Instance)
    (copy : Instance → ContainerInfo → ContainerInfo)
    (narrow : (r : Instance) → test r ≡ true → str_eq r.id id ≡ true)
    (same_id : (r : Instance) → (change r).id ≡ r.id)
    (same_state : (r : Instance) → (change r).state ≡ r.state)
    (same_owner : (row : Instance) (i : ContainerInfo) → (copy row i).instance_id ≡ i.instance_id)
    (copies : (row r : Instance) (i : ContainerInfo)
      → Matches i (some r)
      → row ≡ rewritten test change r
      → Matches (copy row i) (some row)) where
  Matches-elsewhere :
      (i : ContainerInfo) (o : Option Instance)
      → ((r : Instance) → o ≡ some r → test r ≡ false)
      → Matches i o
      → Matches i (applied (rewritten test change) o)
  Matches-elsewhere i none other h = h
  Matches-elsewhere i (some r) other h = rw (other r refl) h

  Matches-here :
      (i : ContainerInfo) (row : Instance) (o : Option Instance)
      → applied (rewritten test change) o ≡ some row
      → Matches i o
      → Matches (copy row i) (some row)
  Matches-here i row none e h = absurd h
  Matches-here i row (some r) e h = copies row r i h (cc)

  copied-MirrorsRow :
      (rows : List Instance) (row : Instance) (i : ContainerInfo)
      → find_instance id (update_where test change rows) ≡ some row
      → MirrorsRow rows i
      → MirrorsRow (update_where test change rows) (rewritten (of_instance id) (copy row) i)
  unfolding update_where
  copied-MirrorsRow rows row i found h = elim (Bool-cases (str_eq i.instance_id id)) [
    | inl e ↦
        let own : i.instance_id ≡ id = (str_eq_iff i.instance_id id).0 e in
        let mapped =
          by_key-map (λ r. r.id) id (rewritten test change) rows
            (rewritten-id test change same_id) in
        rw e (
          subst (λ k. Matches (copy row i) (find_instance k (map (rewritten test change) rows)))
            (sym (same_owner row i ∙ own))
            (rw found (
              Matches-here i row (find_instance id rows) (sym mapped ∙ found)
                (subst (λ k. Matches i (find_instance k rows)) own h))))
    | inr e ↦
        rw
          (
            e,
            by_key-map (λ r. r.id) i.instance_id (rewritten test change) rows
                (rewritten-id test change same_id),
          )
          (Matches-elsewhere i (find_instance i.instance_id rows)
            (λ r at. ground (
              arith,
              narrow r,
              find-test (λ s. str_eq s.id i.instance_id) rows r at,
              str_eq_iff r.id id,
              str_eq_iff r.id i.instance_id,
              str_eq_iff i.instance_id id,
            ))
            h)
  ]

  copied-IsMirrored :
      (mirror : Instance → Db → Db) (db : Db)
      → ((row : Instance) (d : Db) → (mirror row d).instances ≡ d.instances)
      → ((row : Instance) (d : Db)
          → (mirror row d).infos ≡ update_where (of_instance id) (copy row) d.infos)
      → IsMirrored db
      → IsMirrored (after_update id mirror (update_instance test change db) db).1
  unfolding update_instance
  copied-IsMirrored mirror db keeps copied h =
      elim (after_update-cases id mirror (update_instance test change db) db) [
        | inl unchanged ↦ rw unchanged h
        | inr (row, _, found, _, done) ↦
            rw (done, keeps row _, copied row _)
              (unfold update_where in
                All-map (MirrorsRow db.instances)
                  (MirrorsRow (map (rewritten test change) db.instances)) _ db.infos
                  (λ i m. copied-MirrorsRow db.instances row i found m) h)
      ]

insert_infos-All :
    (P : ContainerInfo → Type 0) (is infos infos' : List ContainerInfo)
    → insert_infos is infos ≡ ok infos'
    → All P is
    → All P infos
    → All P infos'
unfolding insert_infos
insert_infos-All P [] infos infos' e h k = let same : infos ≡ infos' = cc in rw same at k
insert_infos-All P (i ∷ is) infos infos' e h k = elim (Result-cases (insert_infos is infos)) [
  | inr (x, failed) ↦ absurd (ground arith)
  | inl (rest, done) ↦
      let kept = insert_infos-All P is infos rest done h.1 k in
      let same : infos' ≡ i ∷ rest = ground arith in rw same (h.0, kept)
]

members-Mirror :
    (f : Finalization) (r : Instance) (context : String) (rows : List Instance)
    (members : List PhysicalMember)
    → ((m : PhysicalMember) → MirrorsRow rows (member_info r context f.stack_id m))
    → All (MirrorsRow rows) (map (member_info r context f.stack_id) members)
members-Mirror f r context rows [] h = tt
members-Mirror f r context rows (m ∷ members) h = (h m, members-Mirror f r context rows members h)

started-Silent : (f : Finalization) (now : ℕ) → Silent (is_reserved f) (started f now)
started-Silent f now r = (refl, λ t p. ground arith)

-- The reserved instance is found under its id, and after the start in its new form.
started-found :
    (f : Finalization) (now : ℕ) (r : Instance) (rows : List Instance)
    → NoClash clash rows
    → find (is_reserved f) rows ≡ some r
    → find_instance r.id (update_where (is_reserved f) (started f now) rows)
      ≡ some (started f now r)
unfolding update_where
started-found f now r rows unique found =
    let reserved : is_reserved f r ≡ true = find-test (is_reserved f) rows r found in
    let own : r.id ≡ f.instance_id = (str_eq_iff r.id f.instance_id).0 (&&_both _ _ reserved).0 in
    let there : find_instance f.instance_id rows ≡ some r =
      by_key-of_find (λ s. s.id) clash f.instance_id (is_reserved f) rows r clash_of_id unique
        (λ x e. (&&_both _ _ e).0) found in
    let at_id : find_instance r.id rows ≡ some r =
      subst (λ k. find_instance k rows ≡ some r) (sym own) there in
    by_key-map (λ s. s.id) r.id (rewritten (is_reserved f) (started f now)) rows
      (rewritten-id _ _ (λ s. refl))
    ∙ ap (applied (rewritten (is_reserved f) (started f now))) at_id
    ∙ rw reserved refl

start-IsMirrored :
    (f : Finalization) (now : ℕ) (r : Instance) (context : String) (rows : List Instance)
    (infos infos' : List ContainerInfo)
    → NoClash clash rows
    → find (is_reserved f) rows ≡ some r
    → insert_infos (map (member_info r context f.stack_id) f.physical_members) infos ≡ ok infos'
    → All (MirrorsRow rows) infos
    → All (MirrorsRow (update_where (is_reserved f) (started f now) rows)) infos'
start-IsMirrored f now r context rows infos infos' unique found inserted h =
    insert_infos-All (MirrorsRow (update_where (is_reserved f) (started f now) rows)) _ infos infos'
      inserted
      (members-Mirror f r context _ f.physical_members
        (λ m. rw (started-found f now r rows unique found) (refl, refl, refl)))
      (All-imp (MirrorsRow rows) _ infos (Silent-MirrorsRow _ _ (started-Silent f now) rows) h)

mark_running-IsMirrored :
    (f : Finalization) (now : ℕ) (db : Db)
    → IsUnique db
    → IsMirrored db
    → IsMirrored (mark_running f now db).1
mark_running-IsMirrored f now db unique h = elim (mark_running-cases f now db) [
  | inl unchanged ↦ rw unchanged h
  | inr s ↦ rw (s.done) (
      subst (λ rows. All (MirrorsRow rows) s.result.infos)
        (sym (start_rows-instances f now s.row s.context db s.result s.rows_written).1)
        (start-IsMirrored f now s.row s.context.context_name db.instances db.infos s.result.infos
          unique s.row_found (start_rows-infos f now s.row s.context db s.result s.rows_written) h))
]

delete-IsMirrored :
    (d : Deletion) (now : ℕ) (db : Db)
    → IsMirrored db
    → IsMirrored (delete_after_confirmed_cleanup d now db).1
delete-IsMirrored d now db h = elim (delete-cases d now db) [
  | inl unchanged ↦ rw unchanged h
  | inr (given, done) ↦ rw done (
      unfold delete_where in
      All-select_imp (MirrorsRow db.instances) _ _ db.infos
        (λ i other m.
          rw
            (by_key-delete_ne (λ r. r.id) i.instance_id d.instance_id (tokens_match d) db.instances
              (ground arith))
            m)
        h)
]

commit_place-IsMirrored :
    (request : ReserveRequest) (draw : Draw) (context : DockerContext) (quota create : ℕ) (db : Db)
    → IsMirrored db
    → IsMirrored (commit_place request draw context quota create db).1
unfolding commit_place bump_placement_version insert_instance
commit_place-IsMirrored request draw context quota create db h =
    elim (Bool-cases (bump_placement_version db context).0) [
      | inr moved ↦ rw moved h
      | inl one ↦
          elim (Bool-cases
            (fits clash (provisioning_row request draw context.id quota create) db.instances)) [
              | inr taken ↦ rw (one, taken) h
              | inl free ↦
                  rw (one, free)
                    (All-imp (MirrorsRow db.instances) _ db.infos
                      (λ i m. MirrorsRow-cons _ db.instances i free m) h)
            ]
    ]

commit_plan-IsMirrored :
    (request : ReserveRequest) (draw : Draw) (planned : Result Plan) (db : Db)
    → IsMirrored db
    → IsMirrored (commit_plan request draw planned db)
commit_plan-IsMirrored request draw (err e) db h = h
commit_plan-IsMirrored request draw (ok (already r)) db h = h
commit_plan-IsMirrored request draw (ok (place context quota create)) db h =
    commit_place-IsMirrored request draw context quota create db h

claim-IsMirrored :
    (c : Claim) (token : String) (now : ℕ) (db : Db)
    → IsMirrored db
    → IsMirrored (claim_operation c token now db).1
claim-IsMirrored c token now db h = elim (claim-cases c token now db) [
  | inl unchanged ↦ rw unchanged h
  | inr (valid, done) ↦ rw done (
      update_instance-IsMirrored _ _ db
        (λ r. (refl, λ t p. unfold claim_args_valid in ground arith)) h)
]

perform-IsMirrored : (op : Op) (db : Db) → IsUnique db → IsMirrored db → IsMirrored (perform op db)
unfolding perform
perform-IsMirrored (Steps.reserves request draw snapshot) db unique h =
    commit_plan-IsMirrored request draw (plan_reserve request draw snapshot) db h
perform-IsMirrored (Steps.finalizes f now) db unique h = mark_running-IsMirrored f now db unique h
perform-IsMirrored (Steps.abandons id token error now) db unique h =
    unfold mark_cleanup_pending in
    update_instance-IsMirrored _ _ db (λ r. (refl, λ t p. ground arith)) h
perform-IsMirrored (Steps.claims c token now) db unique h = claim-IsMirrored c token now db h
perform-IsMirrored (Steps.releases id token error now) db unique h =
    unfold release_operation in
    update_instance-IsMirrored _ _ db (λ r. (refl, λ t p. ground arith)) h
perform-IsMirrored (Steps.deletes d now) db unique h = delete-IsMirrored d now db h
perform-IsMirrored (Steps.shortens id target solved) db unique h =
    unfold shorten_after_solve in
    copied-IsMirrored id (is_solvable id solved) (shortened target solved)
      (λ row i. record i { expires = row.expires }) (λ r e. (&&_both _ _ e).0) (λ r. refl)
      (λ r. refl) (λ row i. refl) (λ row r i m e. ground arith) _ db (λ row d. refl) (λ row d. refl)
      h
perform-IsMirrored (Steps.renews id now new_expires limit clock) db unique h =
    unfold renew in
    copied-IsMirrored id (is_renewable id now limit) (renewed new_expires clock)
      (λ row i. record i { expires = row.expires; renewals_used = row.renewals_used })
      (λ r e. (&&_both _ _ e).0) (λ r. refl) (λ r. refl) (λ row i. refl)
      (λ row r i m e. ground arith) _ db (λ row d. refl) (λ row d. refl) h
perform-IsMirrored (Steps.extends id new_expires clock) db unique h =
    unfold extend_by_admin in
    copied-IsMirrored id (is_extendable id new_expires) (extended new_expires clock)
      (λ row i. record i { expires = row.expires }) (λ r e. (&&_both _ _ e).0) (λ r. refl)
      (λ r. refl) (λ row i. refl) (λ row r i m e. ground arith) _ db (λ row d. refl) (λ row d. refl)
      h
perform-IsMirrored (Steps.edits_contexts contexts) db unique h = h

-- After any transactions, started from a database that meets its unique constraints and in which
-- containers mirror instances, every container row still belongs to an instance that has left
-- provisioning, and has its expiry and its count of renewals.
pub run-IsMirrored :
    (ops : List Op) (db : Db) → IsUnique db → IsMirrored db → IsMirrored (run ops db)
unfolding run
run-IsMirrored [] db unique h = h
run-IsMirrored (op ∷ ops) db unique h =
    run-IsMirrored ops (perform op db) (Effect-NoClash (perform-Effect op db) unique)
      (perform-IsMirrored op db unique h)
