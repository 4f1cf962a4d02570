-- ===== src/Requests/Settled.antt =====
-- What a creation that fails leaves of its reservation.
use ctfd_challenge_container.Prelude.{
  ℕ, Bool, true, false, ◌||◌, ◌≡◌, refl, ◌⊎◌, inl, inr, arith, String, none, some, List, [], ◌∷◌,
  Bool-cases, Option-cases, str_eq, find,
}
use ctfd_challenge_container.Schema.{Instance, Db}
use ctfd_challenge_container.Table.{delete_where}
use ctfd_challenge_container.Table.Laws.{passes}
use ctfd_challenge_container.Coordination.{Result-cases, InstanceReservation, find_instance}
use ctfd_challenge_container.Coordination.Lifecycle.Finalize.{mark_running}
use ctfd_challenge_container.Coordination.Lifecycle.Cleanup.{
  mark_cleanup_pending, is_abandoned, abandoned, is_deletable, delete_after_confirmed_cleanup,
}
use ctfd_challenge_container.Coordination.Steps.{run}
use ctfd_challenge_container.Coordination.Renewal.{find-update_instance}
use ctfd_challenge_container.Requests.{Challenge, Request, Answer}
use ctfd_challenge_container.Requests.Create.{
  Made, Creation, Creating, unstarted, give_up, cleanup_failed_reservation, finalization, finalize,
  provision, use_reservation, failed, made, refused_volumes, escaping, uncaught,
}

-- The row of the reservation is gone, or no longer provisions under its token.
abbrev pub IsSettled : InstanceReservation → Db → Type 0
IsSettled r db =
    passes (is_abandoned r.instance_id r.provision_token) (find_instance r.instance_id db.instances)
    ≡ false

give_up-IsSettled :
    (r : InstanceReservation) (text : String) (creating : Creating) (db : Db)
    → IsSettled r (give_up r text creating db).1
unfolding give_up mark_cleanup_pending
give_up-IsSettled r text creating db =
    let test = is_abandoned r.instance_id r.provision_token in
    let moved =
      find-update_instance r.instance_id test (abandoned text creating.failed_at) db (λ s. refl) in
    rw moved elim (Option-cases (find_instance r.instance_id db.instances)) [
      | inl e ↦ rw e refl
      | inr (s, e) ↦ elim (Bool-cases (test s)) [
        | inl t ↦ rw (e, t) (ground arith)
        | inr t ↦ rw (e, t) t
      ]
    ]

-- After the deletion, and where there was nothing to delete.
deleted-IsSettled :
    (r : InstanceReservation) (rows : List Instance)
    → passes
        (is_abandoned r.instance_id r.provision_token)
        (find_instance r.instance_id (delete_where (is_deletable (unstarted r)) rows))
      ≡ false
unfolding delete_where
deleted-IsSettled r [] = refl
deleted-IsSettled r (s ∷ rows) = elim (Bool-cases (is_deletable (unstarted r) s)) [
  | inl t ↦ rw t (deleted-IsSettled r rows)
  | inr t ↦ elim (Bool-cases (str_eq s.id r.instance_id)) [
    | inl e ↦ rw (t, e) (ground arith)
    | inr e ↦ rw (t, e) (deleted-IsSettled r rows)
  ]
]

missing-IsSettled :
    (r : InstanceReservation) (rows : List Instance)
    → find (is_deletable (unstarted r)) rows ≡ none
    → passes (is_abandoned r.instance_id r.provision_token) (find_instance r.instance_id rows)
      ≡ false
missing-IsSettled r [] h = refl
missing-IsSettled r (s ∷ rows) h = elim (Bool-cases (is_deletable (unstarted r) s)) [
  | inl t ↦ absurd (ground arith)
  | inr t ↦ elim (Bool-cases (str_eq s.id r.instance_id)) [
    | inl e ↦ rw e (ground arith)
    | inr e ↦ rw e (missing-IsSettled r rows (rw t at h))
  ]
]

delete-IsSettled :
    (r : InstanceReservation) (now : ℕ) (db : Db)
    → IsSettled r (delete_after_confirmed_cleanup (unstarted r) now db).1
unfolding delete_after_confirmed_cleanup
delete-IsSettled r now db = elim (Option-cases (find (is_deletable (unstarted r)) db.instances)) [
  | inl e ↦ rw (delete_after_confirmed_cleanup, e) (missing-IsSettled r db.instances e)
  | inr (s, e) ↦ rw (delete_after_confirmed_cleanup, e) (deleted-IsSettled r db.instances)
]

cleanup-IsSettled :
    (r : InstanceReservation) (text : String) (ambiguous : Bool) (creating : Creating) (db : Db)
    → IsSettled r (cleanup_failed_reservation r text ambiguous creating db).1
unfolding cleanup_failed_reservation
cleanup-IsSettled r text ambiguous creating db =
    elim (Bool-cases (ambiguous || str_eq r.context_name "")) [
      | inl a ↦ rw (cleanup_failed_reservation, a) (give_up-IsSettled r text creating db)
      | inr a ↦ elim (Option-cases creating.removal_error) [
        | inr (why, e) ↦ rw (cleanup_failed_reservation, a, e) (give_up-IsSettled r text creating _)
        | inl e ↦
            elim (Result-cases
              (delete_after_confirmed_cleanup (unstarted r) creating.failed_at
                (run creating.removing db)).0) [
                  | inl (deleted, f) ↦
                      rw (cleanup_failed_reservation, a, e, f)
                        (delete-IsSettled r creating.failed_at _)
                  | inr (x, f) ↦
                      rw (cleanup_failed_reservation, a, e, f) (give_up-IsSettled r text creating _)
                ]
      ]
    ]

-- How a creation that has made a reservation may end.
abbrev pub Ends : InstanceReservation → Answer × Db → Type 0
Ends r outcome = (outcome.0.status ≡ 200) ⊎ (outcome.0 ≡ uncaught) ⊎ IsSettled r outcome.1

finalize-Ends :
    (request : Request) (challenge : Challenge) (r : InstanceReservation) (m : Made) (port : ℕ)
    (creating : Creating) (db : Db)
    → Ends r (finalize request challenge r m port creating db)
unfolding finalize
finalize-Ends request challenge r m port creating db =
    elim (Result-cases
      (mark_running (finalization challenge r m port) creating.finalized_at db).0) [
        | inr (e, g) ↦ rw (finalize, g) (inr (inr (cleanup-IsSettled r _ false creating _)))
        | inl (none, g) ↦ rw (finalize, g) (inr (inr (cleanup-IsSettled r _ false creating _)))
        | inl (some finalized, g) ↦ rw (finalize, g) (inl refl)
      ]

provision-Ends :
    (request : Request) (challenge : Challenge) (r : InstanceReservation) (creation : Creation)
    (creating : Creating) (db : Db)
    → Ends r (provision request challenge r creation creating db)
unfolding provision
provision-Ends request challenge r (failed why) creating db =
    inr (inr (cleanup-IsSettled r why.text true creating db))
provision-Ends request challenge r (made m) creating db = elim (Option-cases m.port) [
  | inl e ↦ rw (provision, e) (inr (inr (cleanup-IsSettled r _ false creating db)))
  | inr (port, e) ↦ rw (provision, e) (finalize-Ends request challenge r m port creating db)
]

-- The use of a reservation by a creation is answered with 200, or ends in an exception that no clause
-- names, or leaves no row that still provisions under the reservation's token: the row awaits cleanup,
-- or is gone, or another operation has moved it on.
pub use_reservation-Ends :
    (request : Request) (challenge : Challenge) (r : InstanceReservation) (creating : Creating)
    (db : Db)
    → Ends r (use_reservation request challenge r creating db)
unfolding use_reservation
use_reservation-Ends request challenge r creating db =
    elim (Bool-cases (str_eq r.context_name "")) [
      | inl a ↦ rw (use_reservation, a) (inr (inr (cleanup-IsSettled r _ false creating db)))
      | inr a ↦ elim (Option-cases creating.load_error) [
        | inr (why, e) ↦
            rw (use_reservation, a, e) (inr (inr (cleanup-IsSettled r _ true creating db)))
        | inl e ↦ elim (Option-cases creating.volumes_error) [
          | inr (refused_volumes why, v) ↦
              rw (use_reservation, a, e, v) (inr (inr (cleanup-IsSettled r _ false creating db)))
          | inr (escaping, v) ↦ rw (use_reservation, a, e, v) (inr (inl refl))
          | inl v ↦
              rw (use_reservation, a, e, v)
                (provision-Ends request challenge r creating.creation creating db)
        ]
      ]
    ]
