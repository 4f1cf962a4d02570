-- ===== src/Coordination/Invariant/Rows.antt =====
-- What each row of `container_instances` satisfies, and how one transaction may change it.
use ctfd_challenge_container.Prelude.{
  ℕ, Bool, true, ◌≡◌, List, [], ◌∷◌, arith, Bool-cases, inl, inr, All, is_some, is_none,
}
use ctfd_challenge_container.Schema.{Instance, Db, is_provisioning, is_running, is_cleanup_pending}
use ctfd_challenge_container.Table.{rewritten, update_where, delete_where}
use ctfd_challenge_container.Table.Laws.{All-map, All-select}
use ctfd_challenge_container.Coordination.Reserve.{ReserveRequest, Draw, provisioning_row}
use ctfd_challenge_container.Coordination.Lifecycle.Finalize.{Finalization, is_reserved, started}
use ctfd_challenge_container.Coordination.Lifecycle.Cleanup.{claim_args_valid}
use ctfd_challenge_container.Coordination.Steps.{
  Op, perform, run, Effect, same, inserting, starting, rewriting, removing, Rewriting, abandoning,
  claiming, releasing, shortening, renewing, extending, perform-Effect,
}

-- An operation holds only rows that await cleanup. A provisioning row has its deadline and its create
-- slot, and neither containers nor solves; a running row has an entry container and neither of those.
pub record IsCoherent (r : Instance) : Type 0 where
  pub held : is_some r.operation_token ≡ true → is_cleanup_pending r.state ≡ true
  pub admitted : is_provisioning r.state ≡ true → is_some r.create_slot ≡ true
  pub timed : is_provisioning r.state ≡ true → is_some r.provision_deadline ≡ true
  pub bare : is_provisioning r.state ≡ true → is_none r.entry_container_id ≡ true
  pub unsolved : is_provisioning r.state ≡ true → is_none r.solved_at ≡ true
  pub entered : is_running r.state ≡ true → is_some r.entry_container_id ≡ true
  pub relieved : is_running r.state ≡ true → is_none r.create_slot ≡ true
  pub untimed : is_running r.state ≡ true → is_none r.provision_deadline ≡ true

Rewriting-IsCoherent :
    {test : Instance → Bool} {change : Instance → Instance}
    → Rewriting test change
    → (r : Instance) → test r ≡ true
    → IsCoherent r
    → IsCoherent (change r)
Rewriting-IsCoherent (abandoning id token error now) r t h = ground arith
Rewriting-IsCoherent (claiming c token now valid) r t h = unfold claim_args_valid in ground arith
Rewriting-IsCoherent (releasing id token error now) r t h = ground arith
Rewriting-IsCoherent (shortening id target solved) r t h = ground arith
Rewriting-IsCoherent (renewing id now new_expires limit clock) r t h = ground arith
Rewriting-IsCoherent (extending id new_expires clock) r t h = ground arith

started-IsCoherent :
    (f : Finalization) (now : ℕ) (r : Instance)
    → is_reserved f r ≡ true
    → IsCoherent r
    → IsCoherent (started f now r)
started-IsCoherent f now r t h = ground arith

provisioning_row-IsCoherent :
    (request : ReserveRequest) (draw : Draw) (context quota create : ℕ)
    → IsCoherent (provisioning_row request draw context quota create)
unfolding provisioning_row
provisioning_row-IsCoherent request draw context quota create = ground arith

rewritten-IsCoherent :
    (test : Instance → Bool) (change : Instance → Instance)
    → ((r : Instance) → test r ≡ true → IsCoherent r → IsCoherent (change r))
    → (r : Instance) → IsCoherent r
    → IsCoherent (rewritten test change r)
rewritten-IsCoherent test change step r h = elim (Bool-cases (test r)) [
  | inl e ↦ rw e (step r e h)
  | inr e ↦ rw e h
]

abbrev pub AllCoherent : Db → Type 0
AllCoherent db = All IsCoherent db.instances

pub Effect-AllCoherent :
    {op : Op} {rows rows' : List Instance}
    → Effect op rows rows'
    → All IsCoherent rows
    → All IsCoherent rows'
Effect-AllCoherent (same e) h = rw e h
Effect-AllCoherent (inserting request draw snapshot context quota create asked planned free e) h =
    rw e (provisioning_row-IsCoherent request draw context.id quota create, h)
Effect-AllCoherent {rows} (starting f now free e) h = rw e (
    unfold update_where in
    All-map IsCoherent IsCoherent _ rows (rewritten-IsCoherent _ _ (started-IsCoherent f now)) h)
Effect-AllCoherent {rows} (rewriting test change rule e) h = rw e (
    unfold update_where in
    All-map IsCoherent IsCoherent _ rows (rewritten-IsCoherent _ _ (Rewriting-IsCoherent rule)) h)
Effect-AllCoherent {rows} (removing d now asked given e) h =
    rw e (unfold delete_where in All-select IsCoherent _ rows h)

-- After any transactions, started from coherent rows, every row is coherent: an operation token is
-- held only while cleanup is pending, and create slot, deadline and containers fit the state.
pub run-AllCoherent : (ops : List Op) (db : Db) → AllCoherent db → AllCoherent (run ops db)
unfolding run
run-AllCoherent [] db h = h
run-AllCoherent (op ∷ ops) db h =
    run-AllCoherent ops (perform op db) (Effect-AllCoherent (perform-Effect op db) h)
