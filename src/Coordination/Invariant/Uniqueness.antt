-- ===== src/Coordination/Invariant/Uniqueness.antt =====
-- The unique constraints of `container_instances`: only the INSERT and the start of an instance can
-- meet them, and the database checks those; no other UPDATE makes two rows clash.
use ctfd_challenge_container.Prelude.{Bool, ◌≡◌, refl, List, [], ◌∷◌, Bool-cases, inl, inr}
use ctfd_challenge_container.Schema.{Instance, Db, clash}
use ctfd_challenge_container.Table.{rewritten, update_where, delete_where}
use ctfd_challenge_container.Table.Unique.{
  NoClash, NoClash-map, NoClash-select, is_clash_free_sound,
}
use ctfd_challenge_container.Coordination.Steps.{
  Op, perform, run, Effect, same, inserting, starting, rewriting, removing, Rewriting, abandoning,
  claiming, releasing, shortening, renewing, extending, perform-Effect,
}

abbrev pub IsUnique : Db → Type 0
IsUnique db = NoClash clash db.instances

Rewriting-clash :
    {test : Instance → Bool} {change : Instance → Instance}
    → Rewriting test change
    → (x y : Instance) → (clash (change x) y ≡ clash x y) × (clash x (change y) ≡ clash x y)
unfolding clash
Rewriting-clash (abandoning id token error now) x y = (refl, refl)
Rewriting-clash (claiming c token now valid) x y = (refl, refl)
Rewriting-clash (releasing id token error now) x y = (refl, refl)
Rewriting-clash (shortening id target solved) x y = (refl, refl)
Rewriting-clash (renewing id now new_expires limit clock) x y = (refl, refl)
Rewriting-clash (extending id new_expires clock) x y = (refl, refl)

module _ {test : Instance → Bool} {change : Instance → Instance}
    (rule : Rewriting test change) where
  clash-rewritten_left : (x y : Instance) → clash (rewritten test change x) y ≡ clash x y
  clash-rewritten_left x y = elim (Bool-cases (test x)) [
    | inl e ↦ rw e ((Rewriting-clash rule x y).0)
    | inr e ↦ rw e refl
  ]

  clash-rewritten_right : (x y : Instance) → clash x (rewritten test change y) ≡ clash x y
  clash-rewritten_right x y = elim (Bool-cases (test y)) [
    | inl e ↦ rw e ((Rewriting-clash rule x y).1)
    | inr e ↦ rw e refl
  ]

  Rewriting-NoClash :
      (rows : List Instance) → NoClash clash rows → NoClash clash (update_where test change rows)
  unfolding update_where
  Rewriting-NoClash rows h =
      NoClash-map clash (rewritten test change)
        (λ x y e.
          rw (clash-rewritten_left x (rewritten test change y), clash-rewritten_right x y) at e)
        rows h

pub Effect-NoClash :
    {op : Op} {rows rows' : List Instance}
    → Effect op rows rows'
    → NoClash clash rows
    → NoClash clash rows'
Effect-NoClash (same e) h = rw e h
Effect-NoClash (inserting request draw snapshot context quota create asked planned free e) h =
    rw e (free, h)
Effect-NoClash {rows' = rows'} (starting f now free e) h = is_clash_free_sound clash rows' free
Effect-NoClash {rows} (rewriting test change rule e) h = rw e (Rewriting-NoClash rule rows h)
Effect-NoClash {rows} (removing d now asked given e) h =
    rw e (unfold delete_where in NoClash-select clash _ rows h)

-- No sequence of transactions, whatever stale snapshots the reservations read, brings two instances
-- to share an id, a provision token, a stack, an entry container, an owner's challenge, an owner's
-- quota slot or a context's create slot.
pub run-IsUnique : (ops : List Op) (db : Db) → IsUnique db → IsUnique (run ops db)
unfolding run
run-IsUnique [] db h = h
run-IsUnique (op ∷ ops) db h =
    run-IsUnique ops (perform op db) (Effect-NoClash (perform-Effect op db) h)
