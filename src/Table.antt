-- ===== src/Table.antt =====
-- A database table as a list of rows, with the statements that the program sends: SELECT by a key,
-- UPDATE ... WHERE, DELETE ... WHERE, and the test that a unique constraint makes at an INSERT.
pub mod Laws
pub mod Unique
use ctfd_challenge_container.Prelude.{
  ℕ, suc, Bool, true, not, ◌&&◌, String, Option, none, some, List, [], ◌∷◌, if◌then◌else◌, str_eq,
  find, select, map,
}

module _ {ℓ} {A : Type ℓ} where
  -- What an UPDATE does to one row.
  abbrev pub rewritten : (A → Bool) → (A → A) → A → A
  rewritten test change r = if test r then change r else r

  unfoldable pub update_where : (A → Bool) → (A → A) → List A → List A
  update_where test change rows = map (rewritten test change) rows

  -- The number of rows that an UPDATE or a DELETE reports.
  unfoldable pub count_where : (A → Bool) → List A → ℕ
  count_where test [] = 0
  count_where test (r ∷ rows) =
      if test r then suc (count_where test rows) else count_where test rows

  unfoldable pub delete_where : (A → Bool) → List A → List A
  delete_where test rows = select (λ r. not (test r)) rows

  abbrev pub by_key : (A → String) → String → List A → Option A
  by_key key k rows = find (λ r. str_eq (key r) k) rows

  -- No row of the list stands in the relation with `x`.
  unfoldable pub fits : (A → A → Bool) → A → List A → Bool
  fits clash x [] = true
  fits clash x (y ∷ ys) = not (clash x y) && fits clash x ys
