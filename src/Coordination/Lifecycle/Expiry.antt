-- ===== src/Coordination/Lifecycle/Expiry.antt =====
-- `shorten_after_solve`, `renew` and `extend_by_admin`: the operations on the expiry of an instance.
-- Each copies the new expiry to the rows of `container_info`, or is rolled back.
use ctfd_challenge_container.Prelude.{
  ℕ, suc, Bool, true, false, ◌&&◌, String, Option, none, some, List, if◌then◌else◌, ltb, leb,
  str_eq, is_none,
}
use ctfd_challenge_container.Schema.{Instance, ContainerInfo, History, Reason, Db, is_running}
use ctfd_challenge_container.Table.{update_where}
use ctfd_challenge_container.Coordination.{
  Error, Result, ok, err, LifecycleUpdate, lifecycle_of, find_instance,
}
use ctfd_challenge_container.Coordination.Lifecycle.Cleanup.{update_instance}

abbrev pub of_instance : String → ContainerInfo → Bool
of_instance id i = str_eq i.instance_id id

-- What follows an UPDATE: rolled back if it did not change one row, else the row is read again
-- (`one()` raises if there is none) and `mirror` copies its columns.
unfoldable pub after_update :
    String → (Instance → Db → Db) → Bool × Db → Db → Result (Option LifecycleUpdate) × Db
after_update id mirror (false, db') db = (ok none, db)
after_update id mirror (true, db') db = elim (find_instance id db'.instances) [
  | none ↦ (err Error.attribute_error, db)
  | some row ↦ (ok (some (lifecycle_of row)), mirror row db')
]

abbrev pub copy_expires : String → Instance → Db → Db
copy_expires id row db = record db {
  infos = update_where (of_instance id) (λ i. record i { expires = row.expires }) db.infos;
}

abbrev pub is_solvable : String → ℕ → Instance → Bool
is_solvable id solved r =
    str_eq r.id id && (is_running r.state && is_none r.solved_at && leb r.created_at solved)

abbrev pub shortened : ℕ → ℕ → Instance → Instance
shortened target solved r = record r {
  expires = if ltb target r.expires then target else r.expires;
  solved_at = some solved;
  state_version = suc r.state_version;
  updated_at = solved;
}

abbrev note_solved : String → List History → List History
note_solved id =
    update_where (λ h. str_eq h.instance_id id) (λ h. record h { reason = some Reason.solved })

-- `solved` is the argument, or the clock where the caller leaves it out.
unfoldable pub shorten_after_solve : String → ℕ → ℕ → Db → Result (Option LifecycleUpdate) × Db
shorten_after_solve id target solved db =
    after_update id
      (λ row db'. record (copy_expires id row db') { history = note_solved id db'.history })
      (update_instance (is_solvable id solved) (shortened target solved) db) db

abbrev pub is_renewable : String → ℕ → ℕ → Instance → Bool
is_renewable id now max_renewals r =
    str_eq r.id id
    && (is_running r.state
        && is_none r.solved_at
        && ltb now r.expires
        && ltb r.renewals_used max_renewals)

abbrev pub renewed : ℕ → ℕ → Instance → Instance
renewed new_expires clock r = record r {
  expires = new_expires;
  renewals_used = suc r.renewals_used;
  state_version = suc r.state_version;
  updated_at = clock;
}

-- `now` is the argument in seconds, `clock` what `time.time()` returns.
unfoldable pub renew : String → ℕ → ℕ → ℕ → ℕ → Db → Result (Option LifecycleUpdate) × Db
renew id now new_expires max_renewals clock db =
    after_update id
      (λ row db'. record db' {
        infos =
            update_where (of_instance id)
              (λ i. record i { expires = row.expires; renewals_used = row.renewals_used })
              db'.infos;
      })
      (update_instance (is_renewable id now max_renewals) (renewed new_expires clock) db) db

abbrev pub is_extendable : String → ℕ → Instance → Bool
is_extendable id new_expires r = str_eq r.id id && (is_running r.state && ltb r.expires new_expires)

abbrev pub extended : ℕ → ℕ → Instance → Instance
extended new_expires clock r = record r {
  expires = new_expires;
  state_version = suc r.state_version;
  updated_at = clock;
}

unfoldable pub extend_by_admin : String → ℕ → ℕ → Db → Result (Option LifecycleUpdate) × Db
extend_by_admin id new_expires clock db =
    after_update id (copy_expires id)
      (update_instance (is_extendable id new_expires) (extended new_expires clock) db) db
