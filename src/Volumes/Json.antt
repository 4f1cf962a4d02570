-- ===== src/Volumes/Json.antt =====
-- The values that `json.loads` gives, and `_require_object` and `_require_exact_keys`. A number that is
-- no natural number is `other_number`, and an infinite or undefined one (`json.loads` of "1e999" is
-- infinite) `not_finite`; the keys of an object differ, since Python's are a dict's.
use ctfd_challenge_container.Prelude.{
  ℕ, Bool, false, String, Option, none, some, List, [], ◌∷◌, map, all, ◌&&◌, str_eq,
}
use ctfd_challenge_container.Volumes.{mem}

mutual
  pub data Json : Type 0 where
    null : Json
    boolean : Bool → Json
    number : ℕ → Json
    other_number : Json
    not_finite : Json
    text : String → Json
    array : Items → Json
    object : Members → Json

  pub data Items : Type 0 where
    nil : Items
    item : Json → Items → Items

  pub data Members : Type 0 where
    no_member : Members
    member : String → Json → Members → Members

unfoldable pub items : Items → List Json
items nil = []
items (item j js) = j ∷ items js

unfoldable pub members : Members → List (String × Json)
members no_member = []
members (member k j ms) = (k, j) ∷ members ms

-- The list as a JSON array.
unfoldable pub to_items : List Json → Items
to_items [] = nil
to_items (j ∷ js) = item j (to_items js)

-- `_require_object`
unfoldable pub require_object : Json → Option (List (String × Json))
require_object (object ms) = some (members ms)
require_object _ = none

abbrev pub keys : List (String × Json) → List String
keys fields = map (λ f. f.0) fields

-- `_require_exact_keys` without optional fields.
unfoldable pub require_exact_keys : List String → List (String × Json) → Bool
require_exact_keys required fields =
    all (λ k. mem k (keys fields)) required && all (λ k. mem k required) (keys fields)

unfoldable pub as_text : Json → Option String
as_text (text s) = some s
as_text _ = none

unfoldable pub as_number : Json → Option ℕ
as_number (number n) = some n
as_number _ = none

unfoldable pub as_items : Json → Option (List Json)
as_items (array js) = some (items js)
as_items _ = none

-- `value is True`
abbrev pub is_true : Json → Bool
is_true (boolean b) = b
is_true _ = false

-- `value == s` for a string `s`.
abbrev pub is_text : String → Json → Bool
is_text s (text t) = str_eq t s
is_text s _ = false
