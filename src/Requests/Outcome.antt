-- ===== src/Requests/Outcome.antt =====
-- What the answer of `create_container` says about the database.
use ctfd_challenge_container.Prelude.{
  ℕ, Bool, true, false, ◌||◌, ◌≡◌, refl, ◌∙◌, inl, inr, String, none, some, is_some, Bool-cases,
  Option-cases, str_eq,
}
use ctfd_challenge_container.Schema.{Db}
use ctfd_challenge_container.Coordination.{Result-cases, InstanceReservation, find_instance}
use ctfd_challenge_container.Coordination.Lifecycle.Finalize.{mark_running, finalized}
use ctfd_challenge_container.Coordination.Steps.{run}
use ctfd_challenge_container.Coordination.Presence.{
  mark_cleanup_pending-present, mark_running-present,
}
use ctfd_challenge_container.Requests.{Challenge, Request}
use ctfd_challenge_container.Requests.Errors.{Failure}
use ctfd_challenge_container.Requests.Create.{
  Made, Creation, Creating, give_up, cleanup_failed_reservation, finalization, finalize, provision,
  use_reservation, failed, made, refused_volumes, escaping,
}

give_up-present :
    (id : String) (r : InstanceReservation) (text : String) (creating : Creating) (db : Db)
    → is_some (find_instance id (give_up r text creating db).1.instances)
      ≡ is_some (find_instance id db.instances)
unfolding give_up
give_up-present id r text creating db =
    mark_cleanup_pending-present id r.instance_id r.provision_token text creating.failed_at db

module _ (id : String) (creating : Creating) (failure : Failure)
    (failing : creating.removal_error ≡ some failure)
    (apart : (d : Db)
      → is_some (find_instance id (run creating.removing d).instances)
        ≡ is_some (find_instance id d.instances)) where
  cleanup-present :
      (r : InstanceReservation) (text : String) (ambiguous : Bool) (db : Db)
      → is_some
          (find_instance id (cleanup_failed_reservation r text ambiguous creating db).1.instances)
        ≡ is_some (find_instance id db.instances)
  unfolding cleanup_failed_reservation
  cleanup-present r text ambiguous db = elim (Bool-cases (ambiguous || str_eq r.context_name "")) [
    | inl a ↦ rw (cleanup_failed_reservation, a) (give_up-present id r text creating db)
    | inr a ↦
        rw (cleanup_failed_reservation, a, failing)
          (give_up-present id r text creating (run creating.removing db) ∙ apart db)
  ]

  finalize-present :
      (request : Request) (challenge : Challenge) (r : InstanceReservation) (m : Made) (port : ℕ)
      (db : Db)
      → is_some (find_instance id (finalize request challenge r m port creating db).1.instances)
        ≡ is_some (find_instance id db.instances)
  unfolding finalize
  finalize-present request challenge r m port db =
      let f = finalization challenge r m port in
      let kept = mark_running-present id f creating.finalized_at db in
      elim (Result-cases (mark_running f creating.finalized_at db).0) [
        | inr (e, g) ↦ rw (finalize, g) (cleanup-present r _ false _ ∙ kept)
        | inl (none, g) ↦ rw (finalize, g) (cleanup-present r _ false _ ∙ kept)
        | inl (some finalized, g) ↦ rw (finalize, g) kept
      ]

  provision-present :
      (request : Request) (challenge : Challenge) (r : InstanceReservation) (creation : Creation)
      (db : Db)
      → is_some (find_instance id (provision request challenge r creation creating db).1.instances)
        ≡ is_some (find_instance id db.instances)
  unfolding provision
  provision-present request challenge r (failed why) db = cleanup-present r why.text true db
  provision-present request challenge r (made m) db = elim (Option-cases m.port) [
    | inl e ↦ rw (provision, e) (cleanup-present r _ false db)
    | inr (port, e) ↦ rw (provision, e) (finalize-present request challenge r m port db)
  ]

-- A request never forgets an instance whose resources it could not remove: when Docker's removal
-- raises and what other workers commit during it neither brings in nor deletes an id, the id is in the
-- table of instances after the request has used its reservation exactly if it was before, whatever else
-- failed or succeeded.
pub use_reservation-present :
    (id : String) (request : Request) (challenge : Challenge) (r : InstanceReservation)
    (creating : Creating) (db : Db) (failure : Failure)
    → creating.removal_error ≡ some failure
    → ((d : Db)
        → is_some (find_instance id (run creating.removing d).instances)
          ≡ is_some (find_instance id d.instances))
    → is_some (find_instance id (use_reservation request challenge r creating db).1.instances)
      ≡ is_some (find_instance id db.instances)
unfolding use_reservation
use_reservation-present id request challenge r creating db failure failing apart =
    let cleaned = cleanup-present id creating failure failing apart r in
    elim (Bool-cases (str_eq r.context_name "")) [
      | inl a ↦ rw (use_reservation, a) (cleaned _ false db)
      | inr a ↦ elim (Option-cases creating.load_error) [
        | inr (why, e) ↦ rw (use_reservation, a, e) (cleaned _ true db)
        | inl e ↦ elim (Option-cases creating.volumes_error) [
          | inr (refused_volumes why, v) ↦ rw (use_reservation, a, e, v) (cleaned _ false db)
          | inr (escaping, v) ↦ rw (use_reservation, a, e, v) refl
          | inl v ↦
              rw (use_reservation, a, e, v)
                (provision-present id creating failure failing apart request challenge r
                  creating.creation db)
        ]
      ]
    ]
