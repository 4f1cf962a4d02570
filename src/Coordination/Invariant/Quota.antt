-- ===== src/Coordination/Invariant/Quota.antt =====
-- The limits: an owner never holds more instances than the quota, nor a context more pending creates
-- than its slots, whatever the interleaving, since each slot is below the limit and held once.
use ctfd_challenge_container.Prelude.{
  ℕ, zero, suc, ◌+◌, ◌≤◌, ◌<◌, Bool, true, not, ◌≡◌, refl, none, some, List, [], ◌∷◌, arith,
  Bool-cases, inl, inr, All, length, Differs, Distinct, length-Distinct, range, range_from, find,
  is_empty, Option-cases, select, ◌⊎◌, sym, ◌∙◌, length-map, ◌==◌,
}
use ctfd_challenge_container.Schema.{OwnerKey, Instance, DockerContext, Db, clash, owner_eq}
use ctfd_challenge_container.Table.{rewritten, update_where, delete_where, fits}
use ctfd_challenge_container.Table.Unique.{NoClash}
use ctfd_challenge_container.Table.Laws.{All-map, All-select, All-imp}
use ctfd_challenge_container.Coordination.{ok}
use ctfd_challenge_container.Coordination.Reserve.{
  ReserveRequest, Draw, place, plan_reserve, pick_quota_slot, pick_create_slot, provisioning_row,
  mem_num, used_quota, used_create_slots, choose, free_slots,
}
use ctfd_challenge_container.Coordination.Cases.{plan_reserve-place}
use ctfd_challenge_container.Coordination.Reserve.Choice.{choose-All}
use ctfd_challenge_container.Coordination.Steps.{
  Op, reserves, perform, run, Effect, same, inserting, starting, rewriting, removing, Rewriting,
  abandoning, claiming, releasing, shortening, renewing, extending, perform-Effect,
}
use ctfd_challenge_container.Coordination.Invariant.Uniqueness.{IsUnique, run-IsUnique}

-- The slots of a row are below the limits.
abbrev pub InSlots : ℕ → ℕ → Instance → Type 0
InSlots quota creates r = (r.quota_slot < quota) × ((s : ℕ) → r.create_slot ≡ some s → s < creates)

-- The reservations among the transactions ask for no more than the limits.
abbrev pub Within : ℕ → ℕ → Op → Type 0
Within quota creates (reserves request draw snapshot) =
    (request.max_instances ≤ quota) × (request.max_concurrent_creates ≤ creates)
Within quota creates _ = Unit

find-range :
    (test : ℕ → Bool) (a n slot : ℕ) → find test (range_from a n) ≡ some slot → slot < a + n
find-range test a zero slot e = cc
find-range test a (suc n) slot e = ground (arith, find-range test (suc a) n slot)

All-range : (a n : ℕ) → All (λ s. s < a + n) (range_from a n)
All-range a zero = tt
All-range a (suc n) = (
  omega arith,
  All-imp (λ s. s < suc a + n) (λ s. s < a + suc n) _ (λ s h. omega arith) (All-range (suc a) n),
)

range-below : (n : ℕ) → All (λ s. s < n) (range n)
range-below n = All-imp (λ s. s < 0 + n) (λ s. s < n) (range n) (λ s h. omega arith) (All-range 0 n)

pick_quota_slot-lt :
    (db : Db) (identity : OwnerKey) (limit slot : ℕ)
    → pick_quota_slot db identity limit ≡ ok slot
    → slot < limit
unfolding pick_quota_slot
pick_quota_slot-lt db identity limit slot e =
    elim (Option-cases
      (find (λ s. not (mem_num s (used_quota identity db.instances))) (range limit))) [
        | inl nothing ↦ ground arith
        | inr (s, found) ↦ let below : s < 0 + limit = find-range _ 0 limit s found in ground arith
      ]

pick_create_slot-lt :
    (rows : List Instance) (contexts : List DockerContext) (limit draw : ℕ)
    (picked : DockerContext × ℕ)
    → pick_create_slot rows contexts limit draw ≡ ok picked
    → picked.1 < limit
unfolding pick_create_slot
pick_create_slot-lt rows [] limit draw picked e = cc
pick_create_slot-lt rows (c ∷ cs) limit draw picked e =
    elim (Bool-cases (is_empty (free_slots c.id rows limit))) [
      | inl full ↦ pick_create_slot-lt rows cs limit draw picked (ground arith)
      | inr free ↦
          let below : choose draw (free_slots c.id rows limit) < limit =
            choose-All (λ s. s < limit) draw _ free
              (All-select (λ s. s < limit) _ _ (range-below limit)) in
          ground arith
    ]

plan_reserve-InSlots :
    (request : ReserveRequest) (draw : Draw) (db : Db) (context : DockerContext) (quota create : ℕ)
    → plan_reserve request draw db ≡ ok (place context quota create)
    → (quota < request.max_instances) × (create < request.max_concurrent_creates)
plan_reserve-InSlots request draw db context quota create e =
    let planned = plan_reserve-place request draw db context quota create e in
    (
      pick_quota_slot-lt db request.identity request.max_instances quota planned.quota_picked,
      pick_create_slot-lt db.instances planned.contexts request.max_concurrent_creates draw.choice
          (context, create) planned.create_picked,
    )

Rewriting-InSlots :
    {test : Instance → Bool} {change : Instance → Instance}
    → Rewriting test change
    → (r : Instance)
    → ((change r).quota_slot ≡ r.quota_slot) × ((change r).create_slot ≡ r.create_slot)
Rewriting-InSlots (abandoning id token error now) r = (refl, refl)
Rewriting-InSlots (claiming c token now valid) r = (refl, refl)
Rewriting-InSlots (releasing id token error now) r = (refl, refl)
Rewriting-InSlots (shortening id target solved) r = (refl, refl)
Rewriting-InSlots (renewing id now new_expires limit clock) r = (refl, refl)
Rewriting-InSlots (extending id new_expires clock) r = (refl, refl)

InSlots-refl :
    (quota creates : ℕ) (r s : Instance)
    → s.quota_slot ≡ r.quota_slot
    → (s.create_slot ≡ r.create_slot) ⊎ (s.create_slot ≡ none)
    → InSlots quota creates r
    → InSlots quota creates s
InSlots-refl quota creates r s q (inl c) h = (rw q (h.0), λ k e. h.1 k (sym c ∙ e))
InSlots-refl quota creates r s q (inr c) h = (rw q (h.0), λ k e. ground arith)

rewritten-InSlots :
    (quota creates : ℕ) (test : Instance → Bool) (change : Instance → Instance)
    → ((r : Instance)
        → ((change r).quota_slot ≡ r.quota_slot)
          × (((change r).create_slot ≡ r.create_slot) ⊎ ((change r).create_slot ≡ none)))
    → (r : Instance) → InSlots quota creates r
    → InSlots quota creates (rewritten test change r)
rewritten-InSlots quota creates test change keeps r h = elim (Bool-cases (test r)) [
  | inl e ↦ rw e (InSlots-refl quota creates r (change r) ((keeps r).0) ((keeps r).1) h)
  | inr e ↦ rw e h
]

module _ (quota creates : ℕ) where
  abbrev AllInSlots : List Instance → Type 0
  AllInSlots rows = All (InSlots quota creates) rows

  update-AllInSlots :
      (test : Instance → Bool) (change : Instance → Instance) (rows : List Instance)
      → ((r : Instance)
          → ((change r).quota_slot ≡ r.quota_slot)
            × (((change r).create_slot ≡ r.create_slot) ⊎ ((change r).create_slot ≡ none)))
      → AllInSlots rows
      → AllInSlots (update_where test change rows)
  unfolding update_where
  update-AllInSlots test change rows keeps h =
      All-map (InSlots quota creates) (InSlots quota creates) (rewritten test change) rows
        (rewritten-InSlots quota creates test change keeps) h

  Effect-AllInSlots :
      {op : Op} {rows rows' : List Instance}
      → Effect op rows rows'
      → Within quota creates op
      → AllInSlots rows
      → AllInSlots rows'
  Effect-AllInSlots (same e) w h = rw e h
  Effect-AllInSlots (inserting request draw snapshot context q c asked planned free e) w h =
      let (wq, wc) : (request.max_instances ≤ quota) × (request.max_concurrent_creates ≤ creates) =
        rw asked at w in
      let (lq, lc) = plan_reserve-InSlots request draw snapshot context q c planned in
      rw e ((unfold provisioning_row in (omega arith, λ s same_slot. ground arith)), h)
  Effect-AllInSlots {rows} (starting f now free e) w h =
      rw e (update-AllInSlots _ _ rows (λ r. (refl, inr refl)) h)
  Effect-AllInSlots {rows} (rewriting test change rule e) w h = rw e (
      update-AllInSlots test change rows
        (λ r. ((Rewriting-InSlots rule r).0, inl ((Rewriting-InSlots rule r).1))) h)
  Effect-AllInSlots {rows} (removing d now asked given e) w h =
      rw e (unfold delete_where in All-select (InSlots quota creates) _ rows h)

  run-AllInSlots :
      (ops : List Op) (db : Db)
      → All (Within quota creates) ops
      → AllInSlots db.instances
      → AllInSlots (run ops db).instances
  unfolding run
  run-AllInSlots [] db w h = h
  run-AllInSlots (op ∷ ops) db w h =
      run-AllInSlots ops (perform op db) w.1 (Effect-AllInSlots (perform-Effect op db) w.0 h)

  Differs-owner :
      (identity : OwnerKey) (r : Instance) (rows : List Instance)
      → owner_eq r.owner_key identity ≡ true
      → fits clash r rows ≡ true
      → Differs r.quota_slot (used_quota identity rows)
  unfolding fits clash
  Differs-owner identity r [] own free = tt
  Differs-owner identity r (s ∷ rows) own free = ground (arith, Differs-owner identity r rows own)

  Distinct-owner :
      (identity : OwnerKey) (rows : List Instance)
      → NoClash clash rows
      → Distinct (used_quota identity rows)
  Distinct-owner identity [] h = tt
  Distinct-owner identity (r ∷ rows) h = elim (Bool-cases (owner_eq r.owner_key identity)) [
    | inl own ↦ rw own (Differs-owner identity r rows own h.0, Distinct-owner identity rows h.1)
    | inr other ↦ rw other (Distinct-owner identity rows h.1)
  ]

  All-owner :
      (identity : OwnerKey) (rows : List Instance)
      → AllInSlots rows
      → All (λ s. s < quota) (used_quota identity rows)
  All-owner identity [] h = tt
  All-owner identity (r ∷ rows) h = elim (Bool-cases (owner_eq r.owner_key identity)) [
    | inl own ↦ rw own (h.0.0, All-owner identity rows h.1)
    | inr other ↦ rw other (All-owner identity rows h.1)
  ]

  Differs-context :
      (context s : ℕ) (r : Instance) (rows : List Instance)
      → (r.docker_context_id == context) ≡ true
      → r.create_slot ≡ some s
      → fits clash r rows ≡ true
      → Differs s (used_create_slots context rows)
  unfolding fits clash used_create_slots
  Differs-context context s r [] here slot free = tt
  Differs-context context s r (t ∷ rows) here slot free =
      ground (arith, Differs-context context s r rows here slot)

  Distinct-context :
      (context : ℕ) (rows : List Instance)
      → NoClash clash rows
      → Distinct (used_create_slots context rows)
  unfolding used_create_slots
  Distinct-context context [] h = tt
  Distinct-context context (r ∷ rows) h = elim (Option-cases r.create_slot) [
    | inl no_slot ↦ rw (no_slot, used_create_slots) (Distinct-context context rows h.1)
    | inr (s, slot) ↦ elim (Bool-cases (r.docker_context_id == context)) [
      | inl here ↦
          rw (slot, here, used_create_slots)
            (Differs-context context s r rows here slot h.0, Distinct-context context rows h.1)
      | inr there ↦ rw (slot, there, used_create_slots) (Distinct-context context rows h.1)
    ]
  ]

  All-context :
      (context : ℕ) (rows : List Instance)
      → AllInSlots rows
      → All (λ s. s < creates) (used_create_slots context rows)
  unfolding used_create_slots
  All-context context [] h = tt
  All-context context (r ∷ rows) h = elim (Option-cases r.create_slot) [
    | inl no_slot ↦ rw (no_slot, used_create_slots) (All-context context rows h.1)
    | inr (s, slot) ↦ elim (Bool-cases (r.docker_context_id == context)) [
      | inl here ↦ rw (slot, here, used_create_slots) (h.0.1 s slot, All-context context rows h.1)
      | inr there ↦ rw (slot, there, used_create_slots) (All-context context rows h.1)
    ]
  ]

-- Start from no instances and let transactions interleave in any order, with any stale snapshots. If
-- every reservation asks for a quota of at most `quota` and for at most `creates` concurrent creates,
-- then no owner ever holds more than `quota` instances, and no context more than `creates` create slots.
pub run_limits :
    (quota creates : ℕ) (ops : List Op) (db : Db)
    → db.instances ≡ []
    → All (Within quota creates) ops
    → ((identity : OwnerKey)
        → length (select (λ r. owner_eq r.owner_key identity) (run ops db).instances) ≤ quota)
      × ((context : ℕ) → length (used_create_slots context (run ops db).instances) ≤ creates)
run_limits quota creates ops db none_yet within =
    let unique : IsUnique (run ops db) = run-IsUnique ops db (rw none_yet tt) in
    let slots : All (InSlots quota creates) (run ops db).instances =
      run-AllInSlots quota creates ops db within (rw none_yet tt) in
    (
      λ identity.
          rw
            (← length-map (select (λ r. owner_eq r.owner_key identity) (run ops db).instances)
              (λ r. r.quota_slot))
            (length-Distinct quota (used_quota identity (run ops db).instances)
              (Distinct-owner quota creates identity (run ops db).instances unique)
              (All-owner quota creates identity (run ops db).instances slots)),
      λ context.
          length-Distinct creates (used_create_slots context (run ops db).instances)
            (Distinct-context quota creates context (run ops db).instances unique)
            (All-context quota creates context (run ops db).instances slots),
    )
