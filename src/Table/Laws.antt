-- ===== src/Table/Laws.antt =====
-- What UPDATE and DELETE leave of a row that is looked up by its key, and of a predicate of rows.
use ctfd_challenge_container.Prelude.{
  ℕ, ◌==◌, ◌≡◌, refl, Bool, true, false, not, ◌&&◌, String, Option, none, some, List, [], ◌∷◌, ◌++◌,
  map, select, find, All, arith, str_eq, str_eq_iff, if◌then◌else◌, Bool-cases, inl, inr,
}
use ctfd_challenge_container.Table.{fits, by_key, count_where}
use ctfd_challenge_container.Table.Unique.{NoClash}

module _ {ℓ} {A : Type ℓ} where
  abbrev pub applied : (A → A) → Option A → Option A
  applied g none = none
  applied g (some r) = some (g r)

  abbrev pub kept : (A → Bool) → Option A → Option A
  kept test none = none
  kept test (some r) = if test r then some r else none

  abbrev pub passes : (A → Bool) → Option A → Bool
  passes test none = false
  passes test (some r) = test r

  abbrev pub counted : (A → Bool) → Option A → ℕ
  counted test none = 0
  counted test (some r) = if test r then 1 else 0

  pub counted-is_one : (test : A → Bool) (o : Option A) → (counted test o == 1) ≡ passes test o
  counted-is_one test none = refl
  counted-is_one test (some r) = ground arith

  pub All-map :
      (P Q : A → Type 0) (g : A → A) (rows : List A)
      → ((r : A) → P r → Q (g r))
      → All P rows
      → All Q (map g rows)
  All-map P Q g [] step h = tt
  All-map P Q g (r ∷ rows) step h = (step r h.0, All-map P Q g rows step h.1)

  pub All-select :
      (P : A → Type 0) (test : A → Bool) (rows : List A) → All P rows → All P (select test rows)
  All-select P test [] h = tt
  All-select P test (r ∷ rows) h = elim (Bool-cases (test r)) [
    | inl e ↦ rw e (h.0, All-select P test rows h.1)
    | inr e ↦ rw e (All-select P test rows h.1)
  ]

  pub All-select_imp :
      (P Q : A → Type 0) (test : A → Bool) (rows : List A)
      → ((r : A) → test r ≡ true → P r → Q r)
      → All P rows
      → All Q (select test rows)
  All-select_imp P Q test [] step h = tt
  All-select_imp P Q test (r ∷ rows) step h = elim (Bool-cases (test r)) [
    | inl e ↦ rw e (step r e h.0, All-select_imp P Q test rows step h.1)
    | inr e ↦ rw e (All-select_imp P Q test rows step h.1)
  ]

  pub All-append : (P : A → Type 0) (xs ys : List A) → All P xs → All P ys → All P (xs ++ ys)
  All-append P [] ys h k = k
  All-append P (x ∷ xs) ys h k = (h.0, All-append P xs ys h.1 k)

  pub All-imp : (P Q : A → Type 0) (rows : List A) → ((r : A) → P r → Q r) → All P rows → All Q rows
  All-imp P Q [] step h = tt
  All-imp P Q (r ∷ rows) step h = (step r h.0, All-imp P Q rows step h.1)

  -- A row that a search finds has the property of all rows, and passes the test.
  pub All-find :
      (P : A → Type 0) (test : A → Bool) (rows : List A) (r : A)
      → find test rows ≡ some r
      → All P rows
      → P r
  All-find P test [] r e h = cc
  All-find P test (x ∷ rows) r e h = elim (Bool-cases (test x)) [
    | inl t ↦ let e' : some x ≡ some r = ground arith in let same : x ≡ r = cc in rw same at h.0
    | inr t ↦ All-find P test rows r (ground arith) h.1
  ]

  pub find-test :
      (test : A → Bool) (rows : List A) (r : A) → find test rows ≡ some r → test r ≡ true
  find-test test [] r e = cc
  find-test test (x ∷ rows) r e = ground (arith, find-test test rows r)

module _ {ℓ} {A : Type ℓ} (key : A → String) where
  -- An UPDATE that keeps the keys changes the row found under a key, if the row passes its test.
  pub by_key-map :
      (k : String) (g : A → A) (rows : List A)
      → ((r : A) → key (g r) ≡ key r)
      → by_key key k (map g rows) ≡ applied g (by_key key k rows)
  by_key-map k g [] keeps = refl
  by_key-map k g (r ∷ rows) keeps = rw (keeps r) (ground (arith, by_key-map k g rows keeps))

  -- A row that fits a list has a key that the list does not hold.
  pub absent_of_fits :
      (clash : A → A → Bool) (k : String) (x : A) (rows : List A)
      → ((x y : A) → str_eq (key x) (key y) ≡ true → clash x y ≡ true)
      → fits clash x rows ≡ true
      → str_eq (key x) k ≡ true
      → by_key key k rows ≡ none
  unfolding fits
  absent_of_fits clash k x [] same_key h e = refl
  absent_of_fits clash k x (r ∷ rows) same_key h e = ground (
    arith,
    str_eq_iff (key x) k,
    str_eq_iff (key r) k,
    str_eq_iff (key x) (key r),
    same_key x r,
    absent_of_fits clash k x rows same_key,
  )

  -- Rows under other keys are out of reach of a DELETE of one key.
  pub by_key-delete_ne :
      (k j : String) (test : A → Bool) (rows : List A)
      → str_eq k j ≡ false
      → by_key key k (select (λ r. not (str_eq (key r) j && test r)) rows) ≡ by_key key k rows
  by_key-delete_ne k j test [] ne = refl
  by_key-delete_ne k j test (r ∷ rows) ne = ground (
    arith,
    str_eq_iff (key r) k,
    str_eq_iff (key r) j,
    str_eq_iff k j,
    by_key-delete_ne k j test rows ne,
  )

  -- Where rows with one key clash, a DELETE leaves the row found under a key or nothing.
  pub by_key-select :
      (clash : A → A → Bool) (k : String) (test : A → Bool) (rows : List A)
      → ((x y : A) → str_eq (key x) (key y) ≡ true → clash x y ≡ true)
      → NoClash clash rows
      → by_key key k (select test rows) ≡ kept test (by_key key k rows)
  by_key-select clash k test [] same_key h = refl
  by_key-select clash k test (r ∷ rows) same_key h = ground (
    arith,
    by_key-select clash k test rows same_key h.1,
    absent_of_fits clash k r rows same_key h.0,
  )

  -- A row that a narrower search finds is the one found under its key.
  pub by_key-of_find :
      (clash : A → A → Bool) (k : String) (test : A → Bool) (rows : List A) (r : A)
      → ((x y : A) → str_eq (key x) (key y) ≡ true → clash x y ≡ true)
      → NoClash clash rows
      → ((x : A) → test x ≡ true → str_eq (key x) k ≡ true)
      → find test rows ≡ some r
      → by_key key k rows ≡ some r
  by_key-of_find clash k test [] r same_key h narrow e = cc
  by_key-of_find clash k test (x ∷ rows) r same_key h narrow e = elim (Bool-cases (test x)) [
    | inl t ↦ ground (arith, narrow x t)
    | inr t ↦
        let rest = by_key-of_find clash k test rows r same_key h.1 narrow (ground arith) in
        ground (arith, rest, absent_of_fits clash k x rows same_key h.0)
  ]

  -- An UPDATE of one key counts the row found under it, if that row passes the rest of the test.
  pub count-by_key :
      (clash : A → A → Bool) (k : String) (test : A → Bool) (rows : List A)
      → ((x y : A) → str_eq (key x) (key y) ≡ true → clash x y ≡ true)
      → NoClash clash rows
      → count_where (λ r. str_eq (key r) k && test r) rows ≡ counted test (by_key key k rows)
  unfolding count_where
  count-by_key clash k test [] same_key h = refl
  count-by_key clash k test (r ∷ rows) same_key h = ground (
    arith,
    count-by_key clash k test rows same_key h.1,
    absent_of_fits clash k r rows same_key h.0,
  )
