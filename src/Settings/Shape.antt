-- ===== src/Settings/Shape.antt =====
-- `_validate_json_shape` of src/utils.py, and what it accepts.
use ctfd_challenge_container.Prelude.{
  ℕ, suc, ◌+◌, Bool, true, false, ◌&&◌, ◌≡◌, refl, ap, ◌∙◌, arith, inl, inr, Option, none, some,
  leb, ltb, Bool-cases, Option-cases, if◌then◌else◌,
}
use ctfd_challenge_container.Volumes.Json.{
  Json, Items, nil, item, Members, no_member, member, null, boolean, number, other_number,
  not_finite, text, array, object,
}

unfoldable pub item_count : Items → ℕ
item_count nil = 0
item_count (item j js) = suc (item_count js)

unfoldable pub member_count : Members → ℕ
member_count no_member = 0
member_count (member k j ms) = suc (member_count ms)

-- The counter after a value that was looked through, if it is within the limit.
abbrev within : ℕ → Option ℕ → Option ℕ
within max_items none = none
within max_items (some counter) = if ltb max_items counter then none else some counter

-- The function on a value at a depth with the counter so far; None is a ValidationError.
unfoldable mutual
  pub validate_json_shape : ℕ → ℕ → ℕ → ℕ → Json → Option ℕ
  validate_json_shape max_depth max_items depth counter (object ms) =
      let rest = validate_members max_depth max_items depth (counter + member_count ms) ms in
      if ltb max_depth depth then none else within max_items rest
  validate_json_shape max_depth max_items depth counter (array js) =
      let rest = validate_items max_depth max_items depth (counter + item_count js) js in
      if ltb max_depth depth then none else within max_items rest
  validate_json_shape max_depth max_items depth counter not_finite = none
  validate_json_shape max_depth max_items depth counter value =
      if ltb max_depth depth then none else within max_items (some counter)

  pub validate_items : ℕ → ℕ → ℕ → ℕ → Items → Option ℕ
  validate_items max_depth max_items depth counter nil = some counter
  validate_items max_depth max_items depth counter (item j js) =
      elim (validate_json_shape max_depth max_items (suc depth) counter j) [
        | none ↦ none
        | some counter' ↦ validate_items max_depth max_items depth counter' js
      ]

  pub validate_members : ℕ → ℕ → ℕ → ℕ → Members → Option ℕ
  validate_members max_depth max_items depth counter no_member = some counter
  validate_members max_depth max_items depth counter (member k j ms) =
      elim (validate_json_shape max_depth max_items (suc depth) counter j) [
        | none ↦ none
        | some counter' ↦ validate_members max_depth max_items depth counter' ms
      ]

unfoldable pub max : ℕ → ℕ → ℕ
max a b = if leb a b then b else a

-- How many levels of arrays and objects stand below a value, and how many items and members in it.
unfoldable mutual
  pub height : Json → ℕ
  height (object ms) = members_height ms
  height (array js) = items_height js
  height value = 0

  pub items_height : Items → ℕ
  items_height nil = 0
  items_height (item j js) = max (suc (height j)) (items_height js)

  pub members_height : Members → ℕ
  members_height no_member = 0
  members_height (member k j ms) = max (suc (height j)) (members_height ms)

unfoldable mutual
  pub total : Json → ℕ
  total (object ms) = member_count ms + members_total ms
  total (array js) = item_count js + items_total js
  total value = 0

  pub items_total : Items → ℕ
  items_total nil = 0
  items_total (item j js) = total j + items_total js

  pub members_total : Members → ℕ
  members_total no_member = 0
  members_total (member k j ms) = total j + members_total ms

-- No number in the value is infinite or undefined.
unfoldable mutual
  pub all_finite : Json → Bool
  all_finite (object ms) = members_finite ms
  all_finite (array js) = items_finite js
  all_finite not_finite = false
  all_finite value = true

  pub items_finite : Items → Bool
  items_finite nil = true
  items_finite (item j js) = all_finite j && items_finite js

  pub members_finite : Members → Bool
  members_finite no_member = true
  members_finite (member k j ms) = all_finite j && members_finite ms

abbrev pub limited : ℕ → ℕ → Bool → ℕ → ℕ → Option ℕ
limited max_depth max_items finite deepest counter =
    if finite && leb deepest max_depth && leb counter max_items then some counter else none

module _ (max_depth max_items : ℕ) where
  scalar-limited :
      (depth counter : ℕ)
      → (if ltb max_depth depth then none else within max_items (some counter))
        ≡ limited max_depth max_items true (depth + 0) (counter + 0)
  scalar-limited depth counter = ground arith

  deep-limited :
      (finite : Bool) (depth below counter : ℕ)
      → ltb max_depth depth ≡ true
      → none ≡ limited max_depth max_items finite (depth + below) counter
  deep-limited finite depth below counter deep = ground arith

  empty-limited :
      (depth counter : ℕ)
      → ltb max_depth depth ≡ false
      → within max_items (some counter) ≡ limited max_depth max_items true (depth + 0) (counter + 0)
  empty-limited depth counter shallow = ground arith

  -- A first child that is refused, and one that is accepted.
  refused-limited :
      (finite finite' : Bool) (depth counter below below' inside inside' : ℕ)
      → none ≡ limited max_depth max_items finite (suc depth + below) (counter + inside)
      → none
        ≡ limited max_depth max_items
            (finite && finite')
            (depth + max (suc below) below')
            (counter + (inside + inside'))
  unfolding max
  refused-limited finite finite' depth counter below below' inside inside' refused = ground arith

  accepted-limited :
      (finite finite' : Bool) (depth counter below below' inside inside' counter' : ℕ)
      → some counter' ≡ limited max_depth max_items finite (suc depth + below) (counter + inside)
      → limited max_depth max_items finite' (depth + below') (counter' + inside')
        ≡ limited max_depth max_items
            (finite && finite')
            (depth + max (suc below) below')
            (counter + (inside + inside'))
  unfolding max
  accepted-limited finite finite' depth counter below below' inside inside' counter' accepted =
      ground arith

  mutual
    unfolding validate_json_shape all_finite height total item_count member_count

    shape-limited :
        (depth counter : ℕ) (j : Json)
        → validate_json_shape max_depth max_items depth counter j
          ≡ limited max_depth max_items (all_finite j) (depth + height j) (counter + total j)
    shape-limited depth counter (object ms) = elim (Bool-cases (ltb max_depth depth)) [
      | inl deep ↦ rw deep (deep-limited _ depth _ _ deep)
      | inr shallow ↦ rw shallow (
          members-limited depth (counter + member_count ms) ms shallow
          ∙ ap (limited max_depth max_items (members_finite ms) (depth + members_height ms))
              (omega arith))
    ]
    shape-limited depth counter (array js) = elim (Bool-cases (ltb max_depth depth)) [
      | inl deep ↦ rw deep (deep-limited _ depth _ _ deep)
      | inr shallow ↦ rw shallow (
          items-limited depth (counter + item_count js) js shallow
          ∙ ap (limited max_depth max_items (items_finite js) (depth + items_height js))
              (omega arith))
    ]
    shape-limited depth counter null = scalar-limited depth counter
    shape-limited depth counter (boolean b) = scalar-limited depth counter
    shape-limited depth counter (number n) = scalar-limited depth counter
    shape-limited depth counter other_number = scalar-limited depth counter
    shape-limited depth counter not_finite = refl
    shape-limited depth counter (text s) = scalar-limited depth counter

    items-limited :
        (depth counter : ℕ) (js : Items)
        → ltb max_depth depth ≡ false
        → within max_items (validate_items max_depth max_items depth counter js)
          ≡ limited max_depth max_items
              (items_finite js)
              (depth + items_height js)
              (counter + items_total js)
    items-limited depth counter nil shallow = empty-limited depth counter shallow
    items-limited depth counter (item j js) shallow =
        let first = shape-limited (suc depth) counter j in
        elim (Option-cases (validate_json_shape max_depth max_items (suc depth) counter j)) [
          | inl e ↦ rw e (refused-limited _ _ depth counter _ _ _ _ (rw e at first))
          | inr (counter', e) ↦ rw e (
              items-limited depth counter' js shallow
              ∙ accepted-limited _ _ depth counter _ _ _ _ counter' (rw e at first))
        ]

    members-limited :
        (depth counter : ℕ) (ms : Members)
        → ltb max_depth depth ≡ false
        → within max_items (validate_members max_depth max_items depth counter ms)
          ≡ limited max_depth max_items
              (members_finite ms)
              (depth + members_height ms)
              (counter + members_total ms)
    members-limited depth counter no_member shallow = empty-limited depth counter shallow
    members-limited depth counter (member k j ms) shallow =
        let first = shape-limited (suc depth) counter j in
        elim (Option-cases (validate_json_shape max_depth max_items (suc depth) counter j)) [
          | inl e ↦ rw e (refused-limited _ _ depth counter _ _ _ _ (rw e at first))
          | inr (counter', e) ↦ rw e (
              members-limited depth counter' ms shallow
              ∙ accepted-limited _ _ depth counter _ _ _ _ counter' (rw e at first))
        ]

-- A JSON value is refused with a ValidationError unless its numbers are finite and its nesting and its
-- items are in the limits, and the counter that the recursion passes along is the number of items seen:
-- on a value at a depth, with a count so far, the function accepts exactly if every number in it is
-- finite, the deepest level is within the maximal depth and the
-- count with all the items and members below is within the maximal number, and then it gives that count.
pub validate_json_shape-limited :
    (max_depth max_items depth counter : ℕ) (j : Json)
    → validate_json_shape max_depth max_items depth counter j ≡ (
        if all_finite j && leb (depth + height j) max_depth && leb (counter + total j) max_items
        then some (counter + total j)
        else none)
validate_json_shape-limited max_depth max_items depth counter j =
    shape-limited max_depth max_items depth counter j
