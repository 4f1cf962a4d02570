-- ===== src/Requests/Success.antt =====
-- What a creation that succeeds has written, and what it reports.
use ctfd_challenge_container.Prelude.{
  ℕ, Bool, true, ◌&&◌, ◌≡◌, refl, ap, ◌∙◌, arith, inl, inr, String, none, some, List, ◌∷◌,
  Bool-cases, Option-cases, List-cases, find, any, select, str_eq, &&_both,
}
use ctfd_challenge_container.Schema.{ContainerInfo, Instance, Db, clash, is_running}
use ctfd_challenge_container.Table.Laws.{by_key-of_find, find-test}
use ctfd_challenge_container.Coordination.{
  ok, Result-cases, InstanceReservation, PhysicalMember, find_instance,
}
use ctfd_challenge_container.Coordination.Cases.{
  mark_running-outcome, start_rows-instances, start_rows-infos,
}
use ctfd_challenge_container.Coordination.Lifecycle.Cleanup.{update_instance}
use ctfd_challenge_container.Coordination.Lifecycle.Finalize.{
  Finalization, mark_running, is_reserved, started, insert_infos, member_info, checked_entry,
}
use ctfd_challenge_container.Coordination.Invariant.Progress.{clash_of_id}
use ctfd_challenge_container.Coordination.Invariant.Uniqueness.{IsUnique}
use ctfd_challenge_container.Coordination.Renewal.{find-update_instance}
use ctfd_challenge_container.Requests.{
  Challenge, Request, Body, Answer, Connection, build_connection_response,
}
use ctfd_challenge_container.Requests.Create.{
  Made, Creation, Creating, finalization, finalize, provision, use_reservation, entry_member,
  failed, made,
}

-- The container that serves an instance.
abbrev pub serves : String → ContainerInfo → Bool
serves id i = str_eq i.instance_id id && i.is_entry

-- An answer reports an instance that runs: it names the port and the expiry of the instance's entry
-- container.
pub record Reports (answer : Answer) (id : String) (db : Db) : Type 0 where
  pub row : Instance
  pub info : ContainerInfo
  pub reported : Connection
  pub body_reports : answer.body ≡ Body.connection reported
  pub row_found : find_instance id db.instances ≡ some row
  pub row_runs : is_running row.state ≡ true
  pub info_found : find (serves id) db.infos ≡ some info
  pub entered : row.entry_container_id ≡ some info.container_id
  pub port_reported : reported.port ≡ info.port
  pub expiry_reported : reported.expires ≡ info.expires
  pub expiry_shared : row.expires ≡ info.expires

insert_infos-first :
    (i : ContainerInfo) (is infos out : List ContainerInfo)
    → insert_infos (i ∷ is) infos ≡ ok out
    → (rest : List ContainerInfo) × (out ≡ i ∷ rest)
unfolding insert_infos
insert_infos-first i is infos out e = elim (Result-cases (insert_infos is infos)) [
  | inr (x, f) ↦ absurd (ground arith)
  | inl (rest, f) ↦ elim (Bool-cases (any (λ j. str_eq j.container_id i.container_id) rest)) [
    | inl taken ↦ absurd (ground arith)
    | inr free ↦ (rest, ground arith)
  ]
]

checked_entry-first :
    (f : Finalization) (m entry : PhysicalMember) (ms : List PhysicalMember)
    → f.physical_members ≡ m ∷ ms
    → m.is_entry ≡ true
    → checked_entry f ≡ ok entry
    → entry ≡ m
unfolding checked_entry
checked_entry-first f m entry ms e first checked =
    elim (List-cases (select (λ (p : PhysicalMember). p.is_entry) ms)) [
      | inl none_left ↦ ground arith
      | inr (x, more, left) ↦ absurd (ground arith)
    ]

finalize-Reports :
    (request : Request) (challenge : Challenge) (r : InstanceReservation) (m : Made) (port : ℕ)
    (creating : Creating) (db : Db)
    → IsUnique db
    → (finalize request challenge r m port creating db).0.status ≡ 200
    → Reports
        (finalize request challenge r m port creating db).0
        r.instance_id
        (finalize request challenge r m port creating db).1
unfolding finalize build_connection_response update_instance
finalize-Reports request challenge r m port creating db unique success =
    let f = finalization challenge r m port in
    let now = creating.finalized_at in
    elim (mark_running-outcome f now db) [
      | inl (unchanged, refused) ↦ elim (Result-cases (mark_running f now db).0) [
        | inr (e, g) ↦ absurd (ground arith)
        | inl (none, g) ↦ absurd (ground arith)
        | inl (some x, g) ↦ absurd (refused x g)
      ]
      | inr s ↦
          let (_, rows) = start_rows-instances f now s.row s.context db s.result s.rows_written in
          let infos = start_rows-infos f now s.row s.context db s.result s.rows_written in
          let (rest, listed) = insert_infos-first _ _ db.infos s.result.infos infos in
          let after = ap (λ out. out.1) s.done in
          let entry : s.entry ≡ entry_member m port =
            checked_entry-first f _ s.entry _ refl refl s.entry_checked in
          let reserved = find-test (is_reserved f) db.instances s.row s.row_found in
          let found =
            by_key-of_find (λ x. x.id) clash r.instance_id (is_reserved f) db.instances s.row
              clash_of_id unique (λ x e. (&&_both _ _ e).0) s.row_found in
          let moved =
            find-update_instance r.instance_id (is_reserved f) (started f now) db (λ x. refl) in
          rw (finalize, s.done)
            (record {
              row = started f now s.row;
              info = member_info s.row s.context.context_name f.stack_id (entry_member m port);
              reported = _;
              body_reports = refl;
              row_found = rw (after, rows) (moved ∙ rw (found, reserved) refl);
              row_runs = refl;
              info_found = rw (after, listed) (ground arith);
              entered = refl;
              port_reported = rw entry refl;
              expiry_reported = refl;
              expiry_shared = refl;
            })
    ]

provision-Reports :
    (request : Request) (challenge : Challenge) (r : InstanceReservation) (creation : Creation)
    (creating : Creating) (db : Db)
    → IsUnique db
    → (provision request challenge r creation creating db).0.status ≡ 200
    → Reports
        (provision request challenge r creation creating db).0
        r.instance_id
        (provision request challenge r creation creating db).1
unfolding provision
provision-Reports request challenge r (failed failure) creating db unique success =
    absurd (ground arith)
provision-Reports request challenge r (made m) creating db unique success =
    elim (Option-cases m.port) [
      | inl e ↦ absurd (ground arith)
      | inr (port, e) ↦
          rw (provision, e)
            (finalize-Reports request challenge r m port creating db unique
              (rw (provision, e) at success))
    ]

-- A creation that succeeds reports what the database has: when the use of a reservation is answered
-- with 200, in a database that meets its unique constraints, then afterwards the instance of the
-- reservation runs, and the answer names the port and the expiry of its entry container.
pub use_reservation-Reports :
    (request : Request) (challenge : Challenge) (r : InstanceReservation) (creating : Creating)
    (db : Db)
    → IsUnique db
    → (use_reservation request challenge r creating db).0.status ≡ 200
    → Reports
        (use_reservation request challenge r creating db).0
        r.instance_id
        (use_reservation request challenge r creating db).1
unfolding use_reservation
use_reservation-Reports request challenge r creating db unique success =
    elim (Bool-cases (str_eq r.context_name "")) [
      | inl a ↦ absurd (ground arith)
      | inr a ↦ elim (Option-cases creating.load_error) [
        | inr (why, e) ↦ absurd (ground arith)
        | inl e ↦ elim (Option-cases creating.volumes_error) [
          | inr (why, v) ↦ absurd (ground arith)
          | inl v ↦
              rw (use_reservation, a, e, v)
                (provision-Reports request challenge r creating.creation creating db unique
                  (rw (use_reservation, a, e, v) at success))
        ]
      ]
    ]
