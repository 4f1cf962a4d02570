-- ===== src/Coordination/Admission/Fresh.antt =====
-- The slots that an attempt picks are free in what it read, so its INSERT meets no constraint there.
use ctfd_challenge_container.Prelude.{
  ℕ, true, false, not, ◌&&◌, ◌≡◌, refl, inl, inr, none, some, List, [], ◌∷◌, arith, Bool-cases,
  Option-cases, is_empty, str_eq, ◌==◌, All, All-selected, find, range, sql_eq,
}
use ctfd_challenge_container.Schema.{OwnerKey, Instance, DockerContext, Db, clash, owner_eq}
use ctfd_challenge_container.Table.{fits}
use ctfd_challenge_container.Table.Laws.{find-test}
use ctfd_challenge_container.Coordination.{ok, Result-cases, reservation}
use ctfd_challenge_container.Coordination.Reserve.Choice.{choose-All}
use ctfd_challenge_container.Coordination.Reserve.{
  ReserveRequest, Draw, existing_reservation, holds_challenge, pick_quota_slot, used_quota, mem_num,
  pick_create_slot, used_create_slots, free_slots, choose, provisioning_row,
}

-- An instance id and a provision token that no row has, as `uuid4` makes them.
abbrev pub IsFresh : ReserveRequest → List Instance → Type 0
IsFresh request rows =
    All
      (λ r.
        (str_eq request.instance_id r.id ≡ false)
        × (str_eq request.provision_token r.provision_token ≡ false))
      rows

pub existing-none :
    (db : Db) (identity : OwnerKey) (challenge : ℕ)
    → existing_reservation db identity challenge ≡ ok none
    → find (holds_challenge identity challenge) db.instances ≡ none
unfolding existing_reservation
existing-none db identity challenge e =
    elim (Option-cases (find (holds_challenge identity challenge) db.instances)) [
      | inl f ↦ f
      | inr (r, f) ↦ elim (Result-cases (reservation db r false)) [
        | inl (a, h) ↦ absurd (ground arith)
        | inr (x, h) ↦ absurd (ground arith)
      ]
    ]

pub quota-free :
    (db : Db) (identity : OwnerKey) (limit slot : ℕ)
    → pick_quota_slot db identity limit ≡ ok slot
    → mem_num slot (used_quota identity db.instances) ≡ false
unfolding pick_quota_slot
quota-free db identity limit slot e =
    elim (Option-cases
      (find (λ s. not (mem_num s (used_quota identity db.instances))) (range limit))) [
        | inl f ↦ absurd (ground arith)
        | inr (s, f) ↦
            let free =
              find-test (λ (s : ℕ). not (mem_num s (used_quota identity db.instances)))
                (range limit) s f in
            let same : s ≡ slot = ground arith in rw (← same) (ground arith)
      ]

pub create-free :
    (rows : List Instance) (contexts : List DockerContext) (limit draw : ℕ)
    (picked : DockerContext × ℕ)
    → pick_create_slot rows contexts limit draw ≡ ok picked
    → mem_num picked.1 (used_create_slots (picked.0).id rows) ≡ false
unfolding pick_create_slot
create-free rows [] limit draw picked e = cc
create-free rows (c ∷ cs) limit draw picked e =
    elim (Bool-cases (is_empty (free_slots c.id rows limit))) [
      | inl full ↦ create-free rows cs limit draw picked (ground arith)
      | inr free ↦
          let taken = λ (s : ℕ). mem_num s (used_create_slots c.id rows) in
          let untaken : not (taken (choose draw (free_slots c.id rows limit))) ≡ true =
            choose-All (λ s. not (taken s) ≡ true) draw _ free
              (All-selected (λ s. not (taken s)) (range limit)) in
          let same : picked ≡ (c, choose draw (free_slots c.id rows limit)) = ground arith in
          rw same (ground arith)
    ]

clash-parts :
    (a b : Instance)
    → str_eq a.id b.id ≡ false
    → (owner_eq a.owner_key b.owner_key && a.challenge_id == b.challenge_id) ≡ false
    → (owner_eq a.owner_key b.owner_key && a.quota_slot == b.quota_slot) ≡ false
    → (a.docker_context_id == b.docker_context_id && sql_eq ◌==◌ a.create_slot b.create_slot)
      ≡ false
    → sql_eq str_eq a.stack_id b.stack_id ≡ false
    → sql_eq str_eq a.entry_container_id b.entry_container_id ≡ false
    → str_eq a.provision_token b.provision_token ≡ false
    → clash a b ≡ false
unfolding clash
clash-parts a b e1 e2 e3 e4 e5 e6 e7 = rw (e1, e2, e3, e4, e5, e6, e7)

module _ (request : ReserveRequest) (context : ℕ) (r : Instance) (rows : List Instance) where
  head-absent :
      find (holds_challenge request.identity request.challenge_id) (r ∷ rows) ≡ none
      → ((owner_eq request.identity r.owner_key && request.challenge_id == r.challenge_id) ≡ false)
        × (find (holds_challenge request.identity request.challenge_id) rows ≡ none)
  head-absent h = ground arith

  head-quota :
      (quota : ℕ)
      → mem_num quota (used_quota request.identity (r ∷ rows)) ≡ false
      → ((owner_eq request.identity r.owner_key && quota == r.quota_slot) ≡ false)
        × (mem_num quota (used_quota request.identity rows) ≡ false)
  head-quota quota h = ground arith

  head-create :
      (create : ℕ)
      → mem_num create (used_create_slots context (r ∷ rows)) ≡ false
      → ((context == r.docker_context_id && sql_eq ◌==◌ (some create) r.create_slot) ≡ false)
        × (mem_num create (used_create_slots context rows) ≡ false)
  unfolding used_create_slots
  head-create create h = elim (Option-cases r.create_slot) [
    | inl e ↦ ground arith
    | inr (s, e) ↦ ground arith
  ]

-- A row fits a table in which nothing holds its challenge, its slots or its identities.
pub provisioning_row-fits :
    (request : ReserveRequest) (draw : Draw) (context quota create : ℕ) (rows : List Instance)
    → IsFresh request rows
    → find (holds_challenge request.identity request.challenge_id) rows ≡ none
    → mem_num quota (used_quota request.identity rows) ≡ false
    → mem_num create (used_create_slots context rows) ≡ false
    → fits clash (provisioning_row request draw context quota create) rows ≡ true
unfolding fits provisioning_row
provisioning_row-fits request draw context quota create [] fresh absent q c = refl
provisioning_row-fits request draw context quota create (r ∷ rows) fresh absent q c =
    let e : clash (provisioning_row request draw context quota create) r ≡ false =
      clash-parts _ r fresh.0.0 (head-absent request context r rows absent).0
        (head-quota request context r rows quota q).0
        (head-create request context r rows create c).0 refl refl fresh.0.1 in
    rw e (
      provisioning_row-fits request draw context quota create rows fresh.1
        (head-absent request context r rows absent).1 (head-quota request context r rows quota q).1
        (head-create request context r rows create c).1)
