-- ===== src/Coordination/Cases.antt =====
-- How `mark_running` and the operations on the expiry can end: with the database as it was, or with
-- all that they write.
use ctfd_challenge_container.Prelude.{
  ℕ, Bool, true, false, ◌≡◌, ◌≢◌, refl, ◌⊎◌, inl, inr, String, none, some, List, map, ◌++◌, arith,
  Bool-cases, Option-cases, find, length, ◌==◌, ◌&&◌, is_none, str_eq,
}
use ctfd_challenge_container.Schema.{DockerContext, Instance, Db, clash}
use ctfd_challenge_container.Table.{update_where, count_where, delete_where}
use ctfd_challenge_container.Table.Unique.{is_clash_free}
use ctfd_challenge_container.Coordination.{
  ok, Result-cases, PhysicalMember, FinalizedInstance, lifecycle_of, find_instance, find_context,
}
use ctfd_challenge_container.Coordination.Reserve.{
  ReserveRequest, Draw, place, plan_reserve, existing_reservation, pick_quota_slot, ranked_contexts,
  pick_create_slot,
}
use ctfd_challenge_container.Coordination.Lifecycle.Finalize.{
  Finalization, checked_entry, is_reserved, started, finalized, insert_infos, member_info,
  member_history, start_rows, mark_running,
}
use ctfd_challenge_container.Coordination.Lifecycle.Cleanup.{
  Claim, Deletion, claim_operation, claim_args_valid, delete_after_confirmed_cleanup, is_claimable,
  claimed, is_deletable, closed, update_instance,
}
use ctfd_challenge_container.Coordination.Lifecycle.Expiry.{after_update}

-- Where an attempt that found no reservation places the instance.
pub record Placed (request : ReserveRequest) (draw : Draw) (db : Db) (context : DockerContext)
    (quota create : ℕ) : Type 0 where
  pub contexts : List DockerContext
  pub nothing_yet : existing_reservation db request.identity request.challenge_id ≡ ok none
  pub quota_picked : pick_quota_slot db request.identity request.max_instances ≡ ok quota
  pub contexts_ranked :
      ranked_contexts db request.preferred_context_name request.eligible_context_names ≡ ok contexts
  pub create_picked :
      pick_create_slot db.instances contexts request.max_concurrent_creates draw.choice
      ≡ ok (context, create)

pub plan_reserve-place :
    (request : ReserveRequest) (draw : Draw) (db : Db) (context : DockerContext) (quota create : ℕ)
    → plan_reserve request draw db ≡ ok (place context quota create)
    → Placed request draw db context quota create
unfolding plan_reserve
plan_reserve-place request draw db context quota create e =
    elim (Result-cases (existing_reservation db request.identity request.challenge_id)) [
      | inr (x, h) ↦ absurd (ground arith)
      | inl (found, h) ↦ elim (Option-cases found) [
        | inr (r, f) ↦ absurd (ground arith)
        | inl f ↦ elim (Result-cases (pick_quota_slot db request.identity request.max_instances)) [
          | inr (x, q) ↦ absurd (ground arith)
          | inl (slot, q) ↦
              elim (Result-cases (
                ranked_contexts db request.preferred_context_name request.eligible_context_names)) [
                  | inr (x, c) ↦ absurd (ground arith)
                  | inl (contexts, c) ↦
                      elim (Result-cases (
                        pick_create_slot db.instances contexts request.max_concurrent_creates
                          draw.choice)) [
                            | inr (x, p) ↦ absurd (ground arith)
                            | inl (picked, p) ↦ record {
                              contexts = contexts;
                              nothing_yet = ground arith;
                              quota_picked = ground arith;
                              contexts_ranked = c;
                              create_picked = ground arith;
                            }
                          ]
                ]
        ]
      ]
    ]

-- What the session of `mark_running` has written, and to where.
pub record Started (f : Finalization) (now : ℕ) (db : Db) : Type 0 where
  pub entry : PhysicalMember
  pub row : Instance
  pub context : DockerContext
  pub result : Db
  pub entry_checked : checked_entry f ≡ ok entry
  pub row_found : find (is_reserved f) db.instances ≡ some row
  pub counted : length f.physical_members ≡ row.placement_units
  pub context_found : find_context row.docker_context_id db.contexts ≡ some context
  pub rows_written : start_rows f now row context db ≡ ok result
  pub done :
      mark_running f now db ≡ (ok (some (finalized f entry row context.context_name)), result)

module _ (f : Finalization) (now : ℕ) (r : Instance) (context : DockerContext) (db db' : Db)
    (e : start_rows f now r context db ≡ ok db') where
  pub start_rows-instances :
      (is_clash_free clash db'.instances ≡ true)
      × (db'.instances ≡ update_where (is_reserved f) (started f now) db.instances)
  unfolding start_rows
  start_rows-instances = ground arith

  pub start_rows-infos :
      insert_infos (map (member_info r context.context_name f.stack_id) f.physical_members) db.infos
      ≡ ok db'.infos
  unfolding start_rows
  start_rows-infos = ground arith

  pub start_rows-history :
      db'.history
      ≡ map (member_history r context.context_name f.stack_id now) f.physical_members ++ db.history
  unfolding start_rows
  start_rows-history = ground arith

-- It answers an instance only if it has written its rows.
pub mark_running-outcome :
    (f : Finalization) (now : ℕ) (db : Db)
    → (((mark_running f now db).1 ≡ db)
        × ((x : FinalizedInstance) → (mark_running f now db).0 ≢ ok (some x)))
      ⊎ Started f now db
unfolding mark_running
mark_running-outcome f now db = elim (Result-cases (checked_entry f)) [
  | inr (e, checked) ↦ inl (ground arith, λ x h. ground arith)
  | inl (entry, checked) ↦ elim (Option-cases (find (is_reserved f) db.instances)) [
    | inl found ↦ inl (ground arith, λ x h. ground arith)
    | inr (r, found) ↦ elim (Bool-cases (length f.physical_members == r.placement_units)) [
      | inr units ↦ inl (ground arith, λ x h. ground arith)
      | inl units ↦ elim (Option-cases (find_context r.docker_context_id db.contexts)) [
        | inl placed ↦ inl (ground arith, λ x h. ground arith)
        | inr (context, placed) ↦ elim (Result-cases (start_rows f now r context db)) [
          | inr (e, written) ↦ inl (ground arith, λ x h. ground arith)
          | inl (db', written) ↦ elim (Bool-cases (count_where (is_reserved f) db.instances == 1)) [
            | inr one ↦ inl (ground arith, λ x h. ground arith)
            | inl one ↦ inr (record {
              entry = entry;
              row = r;
              context = context;
              result = db';
              entry_checked = checked;
              row_found = found;
              counted = ground arith;
              context_found = placed;
              rows_written = written;
              done = ground arith;
            })
          ]
        ]
      ]
    ]
  ]
]

pub mark_running-cases :
    (f : Finalization) (now : ℕ) (db : Db) → ((mark_running f now db).1 ≡ db) ⊎ Started f now db
mark_running-cases f now db = elim (mark_running-outcome f now db) [
  | inl (unchanged, _) ↦ inl unchanged
  | inr s ↦ inr s
]

module _ (id : String) (mirror : Instance → Db → Db) where
  -- The row is written and mirrored, or nothing changes.
  pub after_update-cases :
      (updated : Bool × Db) (db : Db)
      → ((after_update id mirror updated db).1 ≡ db)
        ⊎ ((row : Instance) × (updated.0 ≡ true)
            × (find_instance id updated.1.instances ≡ some row)
            × ((after_update id mirror updated db).0 ≡ ok (some (lifecycle_of row)))
            × ((after_update id mirror updated db).1 ≡ mirror row updated.1))
  unfolding after_update
  after_update-cases (false, db') db = inl refl
  after_update-cases (true, db') db = elim (Option-cases (find_instance id db'.instances)) [
    | inl found ↦ inl (ground arith)
    | inr (row, found) ↦ inr (row, refl, found, ground arith, ground arith)
  ]

-- The row, its containers and its history are closed together, or nothing changes.
pub delete-cases :
    (d : Deletion) (now : ℕ) (db : Db)
    → ((delete_after_confirmed_cleanup d now db).1 ≡ db)
      ⊎ (((is_none d.provision_token && is_none d.operation_token) ≡ false)
          × ((delete_after_confirmed_cleanup d now db).1 ≡ record db {
            instances = delete_where (is_deletable d) db.instances;
            infos = delete_where (λ i. str_eq i.instance_id d.instance_id) db.infos;
            history = closed d now db.history;
          }))
unfolding delete_after_confirmed_cleanup
delete-cases d now db = elim (Bool-cases (is_none d.provision_token && is_none d.operation_token)) [
  | inl none_given ↦ inl (rw none_given refl)
  | inr given ↦ elim (Option-cases (find (is_deletable d) db.instances)) [
    | inl found ↦ inl (rw (given, found) refl)
    | inr (r, found) ↦ inr (given, rw (given, found) refl)
  ]
]

-- A claim with bad arguments changes nothing; any other is one UPDATE.
pub claim-cases :
    (c : Claim) (token : String) (now : ℕ) (db : Db)
    → ((claim_operation c token now db).1 ≡ db)
      ⊎ ((claim_args_valid c ≡ true)
          × ((claim_operation c token now db).1
              ≡ (update_instance (is_claimable c now) (claimed c token now) db).1))
unfolding claim_operation
claim-cases c token now db = elim (Bool-cases (claim_args_valid c)) [
  | inl valid ↦ inr (valid, rw valid refl)
  | inr invalid ↦ inl (rw invalid refl)
]
