-- ===== src/Table/Unique.antt =====
-- Lists in which no two rows clash, and what keeps them so.
use ctfd_challenge_container.Prelude.{
  ◌≡◌, refl, Bool, true, ◌&&◌, List, [], ◌∷◌, map, select, arith,
}
use ctfd_challenge_container.Table.{fits}

module _ {ℓ} {A : Type ℓ} (clash : A → A → Bool) where
  abbrev pub NoClash : List A → Type 0
  NoClash [] = Unit
  NoClash (x ∷ xs) = (fits clash x xs ≡ true) × NoClash xs

  -- The check that the database makes when an UPDATE writes unique columns.
  unfoldable pub is_clash_free : List A → Bool
  is_clash_free [] = true
  is_clash_free (x ∷ xs) = fits clash x xs && is_clash_free xs

  pub is_clash_free_sound : (xs : List A) → is_clash_free xs ≡ true → NoClash xs
  unfolding is_clash_free
  is_clash_free_sound [] h = tt
  is_clash_free_sound (x ∷ xs) h = ground (arith, is_clash_free_sound xs)

  pub is_clash_free_complete : (xs : List A) → NoClash xs → is_clash_free xs ≡ true
  unfolding is_clash_free
  is_clash_free_complete [] h = refl
  is_clash_free_complete (x ∷ xs) h = ground (arith, is_clash_free_complete xs h.1)

module _ {ℓ} {A : Type ℓ} (clash : A → A → Bool) (g : A → A)
    (shrinks : (x y : A) → clash (g x) (g y) ≡ true → clash x y ≡ true) where
  fits-map : (x : A) (ys : List A) → fits clash x ys ≡ true → fits clash (g x) (map g ys) ≡ true
  unfolding fits
  fits-map x [] h = refl
  fits-map x (y ∷ ys) h = ground (arith, shrinks x y, fits-map x ys)

  -- A change of rows that makes no two of them clash anew.
  pub NoClash-map : (xs : List A) → NoClash clash xs → NoClash clash (map g xs)
  NoClash-map [] h = tt
  NoClash-map (x ∷ xs) h = (fits-map x xs h.0, NoClash-map xs h.1)

module _ {ℓ} {A : Type ℓ} (clash : A → A → Bool) (test : A → Bool) where
  fits-select :
      (x : A) (ys : List A) → fits clash x ys ≡ true → fits clash x (select test ys) ≡ true
  unfolding fits
  fits-select x [] h = refl
  fits-select x (y ∷ ys) h = ground (arith, fits-select x ys)

  pub NoClash-select : (xs : List A) → NoClash clash xs → NoClash clash (select test xs)
  NoClash-select [] h = tt
  NoClash-select (x ∷ xs) h = ground (arith, fits-select x xs h.0, NoClash-select xs h.1)
