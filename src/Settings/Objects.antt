-- ===== src/Settings/Objects.antt =====
-- `parse_json_object` and `_object_without_duplicate_keys` of src/utils.py. `json.loads` (None where it
-- raises what the function catches), the length in UTF-8 and that of `json.dumps` are parameters.
use ctfd_challenge_container.Prelude.{ℕ, not, String, Option, none, some, List, [], ◌∷◌, leb}
use ctfd_challenge_container.Volumes.{assign, mem}
use ctfd_challenge_container.Volumes.Json.{Json, text, object, require_object, keys}
use ctfd_challenge_container.Volumes.Mounts.{◌>>=◌, require}
use ctfd_challenge_container.Settings.Shape.{validate_json_shape}

-- The loop over the pairs, with the dict so far.
unfoldable pub without_duplicates :
    List (String × Json) → List (String × Json) → Option (List (String × Json))
without_duplicates result [] = some result
without_duplicates result ((key, value) ∷ pairs) = do
  _ ← require (not (mem key (keys result)))
  without_duplicates (assign key value result) pairs

abbrev pub max_json_bytes : ℕ
max_json_bytes = 65536

module _ (byte_length : String → ℕ) (loads : String → Option Json)
    (dumps_length : Json → Option ℕ) where
  abbrev read_object : Json → Option Json
  read_object (text s) = do _ ← require (leb (byte_length s) max_json_bytes); loads s
  read_object (object ms) = do
    n ← dumps_length (object ms)
    _ ← require (leb n max_json_bytes)
    some (object ms)
  read_object _ = none

  unfoldable pub parse_json_object : Json → Option (List (String × Json))
  parse_json_object value = do
    parsed ← read_object value
    fields ← require_object parsed
    _ ← validate_json_shape 8 1000 1 0 parsed
    some fields
