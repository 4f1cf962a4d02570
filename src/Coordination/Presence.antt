-- ===== src/Coordination/Presence.antt =====
-- Transactions that leave the same ids in the table of instances.
use ctfd_challenge_container.Prelude.{
  ℕ, Bool, ◌≡◌, refl, ap, ◌∙◌, is_some, inl, inr, String, Option, Option-cases,
}
use ctfd_challenge_container.Schema.{Instance, Db}
use ctfd_challenge_container.Coordination.{find_instance}
use ctfd_challenge_container.Coordination.Cases.{mark_running-cases, start_rows-instances}
use ctfd_challenge_container.Coordination.Lifecycle.Finalize.{
  Finalization, mark_running, is_reserved, started,
}
use ctfd_challenge_container.Coordination.Lifecycle.Cleanup.{
  is_held, released, is_abandoned, abandoned, update_instance, release_operation,
  mark_cleanup_pending,
}
use ctfd_challenge_container.Coordination.Renewal.{find-update_instance}

pub update_instance-present :
    (id : String) (test : Instance → Bool) (change : Instance → Instance) (db : Db)
    → ((r : Instance) → (change r).id ≡ r.id)
    → is_some (find_instance id (update_instance test change db).1.instances)
      ≡ is_some (find_instance id db.instances)
update_instance-present id test change db same_id =
    let moved = find-update_instance id test change db same_id in
    elim (Option-cases (find_instance id db.instances)) [
      | inl e ↦ ap is_some moved ∙ rw e refl
      | inr (r, e) ↦ ap is_some moved ∙ rw e refl
    ]

pub release_operation-present :
    (id key token : String) (error : Option String) (clock : ℕ) (db : Db)
    → is_some (find_instance id (release_operation key token error clock db).1.instances)
      ≡ is_some (find_instance id db.instances)
unfolding release_operation
release_operation-present id key token error clock db =
    update_instance-present id (is_held key token) (released error clock) db (λ r. refl)

pub mark_cleanup_pending-present :
    (id key token error : String) (clock : ℕ) (db : Db)
    → is_some (find_instance id (mark_cleanup_pending key token error clock db).1.instances)
      ≡ is_some (find_instance id db.instances)
unfolding mark_cleanup_pending
mark_cleanup_pending-present id key token error clock db =
    update_instance-present id (is_abandoned key token) (abandoned error clock) db (λ r. refl)

pub mark_running-present :
    (id : String) (f : Finalization) (now : ℕ) (db : Db)
    → is_some (find_instance id (mark_running f now db).1.instances)
      ≡ is_some (find_instance id db.instances)
unfolding update_instance
mark_running-present id f now db = elim (mark_running-cases f now db) [
  | inl unchanged ↦ rw unchanged refl
  | inr s ↦
      let (_, rows) = start_rows-instances f now s.row s.context db s.result s.rows_written in
      rw (s.done, rows) (update_instance-present id (is_reserved f) (started f now) db (λ r. refl))
]
