-- ===== src/Coordination/Admission/Commit.antt =====
-- An attempt that no other worker disturbs commits what it read.
use ctfd_challenge_container.Prelude.{
  ℕ, Bool, String, not, range, true, false, ◌≡◌, ◌≢◌, inl, inr, Option, none, some, List, [], ◌∷◌,
  arith, Bool-cases, Option-cases, is_empty, select, find,
}
use ctfd_challenge_container.Schema.{OwnerKey, DockerContext, Instance, Db, clash}
use ctfd_challenge_container.Table.{fits}
use ctfd_challenge_container.Coordination.{Error, err, Result-cases, reservation, find_context}
use ctfd_challenge_container.Coordination.Cases.{plan_reserve-place}
use ctfd_challenge_container.Coordination.Reserve.{
  ReserveRequest, Draw, already, place, plan_reserve, place_plan, existing_reservation,
  holds_challenge, pick_quota_slot, pick_create_slot, free_slots, used_quota, mem_num,
  ranked_contexts, is_candidate, provisioning_row, insert_instance, bump_placement_version,
  commit_place, attempt_reserve, created_reservation,
}
use ctfd_challenge_container.Coordination.Admission.Fresh.{
  IsFresh, existing-none, quota-free, create-free, provisioning_row-fits,
}

reservation-error :
    (db : Db) (row : Instance) (created : Bool) (e : Error)
    → reservation db row created ≡ err e
    → e ≡ Error.coordination_error
unfolding reservation
reservation-error db row created e h =
    elim (Option-cases (find_context row.docker_context_id db.contexts)) [
      | inl f ↦ ground arith
      | inr (c, f) ↦ absurd (ground arith)
    ]

existing-error :
    (db : Db) (identity : OwnerKey) (challenge : ℕ) (e : Error)
    → existing_reservation db identity challenge ≡ err e
    → e ≡ Error.coordination_error
unfolding existing_reservation
existing-error db identity challenge e h =
    elim (Option-cases (find (holds_challenge identity challenge) db.instances)) [
      | inl f ↦ absurd (ground arith)
      | inr (r, f) ↦ elim (Result-cases (reservation db r false)) [
        | inl (a, g) ↦ absurd (ground arith)
        | inr (x, g) ↦ reservation-error db r false e (ground arith)
      ]
    ]

pick-error :
    (rows : List Instance) (contexts : List DockerContext) (limit draw : ℕ) (e : Error)
    → pick_create_slot rows contexts limit draw ≡ err e
    → e ≡ Error.create_capacity_unavailable
unfolding pick_create_slot
pick-error rows [] limit draw e h = ground arith
pick-error rows (c ∷ cs) limit draw e h =
    elim (Bool-cases (is_empty (free_slots c.id rows limit))) [
      | inl full ↦ pick-error rows cs limit draw e (ground arith)
      | inr free ↦ absurd (ground arith)
    ]

quota-error :
    (db : Db) (identity : OwnerKey) (limit : ℕ) (e : Error)
    → pick_quota_slot db identity limit ≡ err e
    → e ≡ Error.quota_exceeded
unfolding pick_quota_slot
quota-error db identity limit e h =
    elim (Option-cases
      (find (λ s. not (mem_num s (used_quota identity db.instances))) (range limit))) [
        | inl f ↦ ground arith
        | inr (s, f) ↦ absurd (ground arith)
      ]

ranked-error :
    (db : Db) (preferred : Option String) (eligible : Option (List String)) (e : Error)
    → ranked_contexts db preferred eligible ≡ err e
    → e ≡ Error.context_unavailable
unfolding ranked_contexts
ranked-error db preferred eligible e h =
    elim (Bool-cases (is_empty (select (is_candidate preferred eligible) db.contexts))) [
      | inl f ↦ ground arith
      | inr f ↦ absurd (ground arith)
    ]

plan-error :
    (request : ReserveRequest) (draw : Draw) (db : Db) (e : Error)
    → plan_reserve request draw db ≡ err e
    → e ≢ Error.integrity_error
unfolding plan_reserve place_plan
plan-error request draw db e h bad =
    elim (Result-cases (existing_reservation db request.identity request.challenge_id)) [
      | inr (x, g) ↦
          let what = existing-error db request.identity request.challenge_id x g in
          absurd (ground arith)
      | inl (some a, g) ↦ absurd (ground arith)
      | inl (none, g) ↦
          elim (Result-cases (pick_quota_slot db request.identity request.max_instances)) [
            | inr (x, q) ↦
                let what = quota-error db request.identity request.max_instances x q in
                absurd (ground arith)
            | inl (slot, q) ↦
                elim (Result-cases (
                  ranked_contexts db request.preferred_context_name
                    request.eligible_context_names)) [
                      | inr (x, c) ↦ let what = ranked-error db _ _ x c in absurd (ground arith)
                      | inl (contexts, c) ↦
                          elim (Result-cases (
                            pick_create_slot db.instances contexts request.max_concurrent_creates
                              draw.choice)) [
                                | inr (x, p) ↦
                                    let what = pick-error db.instances contexts _ _ x p in
                                    absurd (ground arith)
                                | inl (picked, p) ↦ absurd (ground arith)
                              ]
                    ]
          ]
    ]

commit-error :
    (request : ReserveRequest) (draw : Draw) (context : DockerContext) (quota create : ℕ) (db : Db)
    → fits clash (provisioning_row request draw context.id quota create) db.instances ≡ true
    → (commit_place request draw context quota create db).0 ≢ err Error.integrity_error
unfolding commit_place created_reservation insert_instance bump_placement_version
commit-error request draw context quota create db free bad =
    let row = provisioning_row request draw context.id quota create in
    let placed = record (bump_placement_version db context).1 { instances = row ∷ db.instances } in
    elim (Bool-cases ((bump_placement_version db context).0)) [
      | inr b ↦ absurd (ground arith)
      | inl b ↦ elim (Result-cases (reservation placed row true)) [
        | inl (a, g) ↦ absurd (ground arith)
        | inr (x, g) ↦ let what = reservation-error placed row true x g in absurd (ground arith)
      ]
    ]

-- An attempt that no other worker disturbs, with an id and a token that no row has, picks slots that
-- its INSERT finds free: it never meets an IntegrityError.
pub attempt_calm :
    (request : ReserveRequest) (draw : Draw) (db : Db)
    → IsFresh request db.instances
    → (attempt_reserve request draw (λ d. d) db).0 ≢ err Error.integrity_error
unfolding attempt_reserve
attempt_calm request draw db fresh bad = elim (Result-cases (plan_reserve request draw db)) [
  | inr (e, h) ↦ plan-error request draw db e h (ground arith)
  | inl (already r, h) ↦ absurd (ground arith)
  | inl (place context quota create, h) ↦
      let p = plan_reserve-place request draw db context quota create h in
      commit-error request draw context quota create db
        (provisioning_row-fits request draw context.id quota create db.instances fresh
          (existing-none db request.identity request.challenge_id p.nothing_yet)
          (quota-free db request.identity request.max_instances quota p.quota_picked)
          (create-free db.instances p.contexts request.max_concurrent_creates draw.choice
            (context, create) p.create_picked))
        (ground arith)
]
