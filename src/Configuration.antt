-- ===== src/Configuration.antt =====
-- src/challenge_config.py: the fields of a challenge as they are written to its row. A ValidationError,
-- and an OverflowError or a MountConfigError that passes through, is None. `str.strip`, `str.upper`, the value of a digit
-- and `float` are parameters, with the exact value that a float stands for.
pub mod Services
pub mod Network
pub mod Fields
pub mod Startable
pub mod Usable
mod Tests
use Prim.Native.Char.{code}
use ctfd_challenge_container.Prelude.{
  ℕ, suc, ◌*◌, ◌^◌, Bool, true, false, not, ◌&&◌, ◌||◌, String, Option, none, some, List, [], ◌∷◌,
  ◌++◌, map, leb, str_eq, ◌==◌, length, if◌then◌else◌,
}
use ctfd_challenge_container.Volumes.{lookup, mem}
use ctfd_challenge_container.Volumes.Json.{
  Json, null, boolean, number, other_number, text, array, object, members,
}
use ctfd_challenge_container.Volumes.Mounts.{◌>>=◌, require}
use ctfd_challenge_container.Volumes.Names.{char_count, chars_all}
use ctfd_challenge_container.Settings.Stored.{ℤ, pos, negsuc, read_int}

-- What a float stands for: `ratio n d` is n / d, at least 0, as `as_integer_ratio` gives it.
pub data FloatValue : Type 0 where
  undefined infinite below_zero : FloatValue
  ratio : ℕ → ℕ → FloatValue

-- What the module calls of Python. `value_of` is no call: a float is compared by the number it stands for.
pub record Python (Float : Type 0) : Type 0 where
  pub strip : String → String
  pub upper : String → String
  pub digit : ℕ → Option ℕ
  pub to_float : Json → Option Float
  pub value_of : Float → FloatValue

-- `math.isfinite` and the bounds 0.01 and 1024.0 of `_float`; the float 0.01 stands for
-- 5764607523034235 / 2 ^ 59.
unfoldable pub in_cpu_range : FloatValue → Bool
in_cpu_range (ratio n d) = leb (5764607523034235 * d) (n * 2 ^ 59) && leb n (1024 * d)
in_cpu_range _ = false

-- `value.get(name)`
abbrev pub field : String → List (String × Json) → Json
field name fields = elim (lookup name fields) [ none ↦ null | some value ↦ value ]

abbrev pub has_nul : String → Bool
has_nul s = not (chars_all (λ n. not (n == 0)) s)

-- `value.split(",")`
unfoldable pub split_comma : String → List String
split_comma String.[] = String.[] ∷ []
split_comma (String.◌∷◌ c s) =
    let rest = split_comma s in
    if code c == 44 then String.[] ∷ rest else elim rest [
      | [] ↦ String.◌∷◌ c String.[] ∷ []
      | piece ∷ pieces ↦ String.◌∷◌ c piece ∷ pieces
    ]

-- ALLOWED_CAPABILITIES
abbrev pub allowed_capabilities : List String
allowed_capabilities = "NET_ADMIN" ∷ "NET_RAW" ∷ "SYS_PTRACE" ∷ "SYS_NICE" ∷ []

module _ {Float : Type 0} (python : Python Float) where
  unfoldable pub is_blank : Json → Bool
  is_blank null = true
  is_blank (text s) = str_eq (python.strip s) ""
  is_blank _ = false

  -- `_string` of a value that is not blank.
  unfoldable pub filled_string : ℕ → Json → Option String
  filled_string maximum (text s) = do
    _ ← require (leb (char_count (python.strip s)) maximum && not (has_nul (python.strip s)))
    some (python.strip s)
  filled_string maximum _ = none

  unfoldable pub optional_string : ℕ → Json → Option (Option String)
  optional_string maximum value =
      if is_blank value then some none else do s ← filled_string maximum value; some (some s)

  unfoldable pub required_string : ℕ → Json → Option String
  required_string maximum value = if is_blank value then none else filled_string maximum value

  abbrev pub as_natural : Option ℤ → Option ℕ
  as_natural (some (pos n)) = some n
  as_natural _ = none

  -- `_int` up to the bounds; a negative number is below every minimum that the module passes.
  unfoldable pub read_number : Json → Option ℕ
  read_number (text s) = as_natural (read_int python.strip python.digit (python.strip s))
  read_number (number n) = some n
  read_number _ = none

  unfoldable pub bounded_int : ℕ → ℕ → Json → Option ℕ
  bounded_int minimum maximum value = do
    n ← read_number value
    _ ← require (leb minimum n && leb n maximum)
    some n

  unfoldable pub optional_int : ℕ → ℕ → Json → Option (Option ℕ)
  optional_int minimum maximum value =
      if is_blank value then some none else do n ← bounded_int minimum maximum value; some (some n)

  abbrev is_bool : Json → Bool
  is_bool (boolean b) = true
  is_bool _ = false

  -- `_float` with the bounds of a CPU limit, nullable.
  unfoldable pub optional_cpu : Json → Option (Option Float)
  optional_cpu value = if is_blank value then some none else do
    _ ← require (not (is_bool value))
    cpu ← python.to_float value
    _ ← require (in_cpu_range (python.value_of cpu))
    some (some cpu)

  -- One round of the loop of `_capabilities`, with the values so far.
  unfoldable pub add_capability : List String → String → Option (List String)
  add_capability values capability = if str_eq capability "" then some values else do
    _ ← require (mem capability allowed_capabilities)
    some (if mem capability values then values else capability ∷ values)

  -- The values are the newest first.
  unfoldable pub collect_capabilities : List String → List String → Option (List String)
  collect_capabilities values [] = some values
  collect_capabilities values (raw ∷ pieces) = do
    values' ← add_capability values (python.upper (python.strip raw))
    collect_capabilities values' pieces

  -- The names that `_capabilities` joins with commas, the last one first.
  unfoldable pub capabilities : Json → Option (List String)
  capabilities value =
      if is_blank value
      then some []
      else elim value [ text s ↦ collect_capabilities [] (split_comma s) | other ↦ none ]

  abbrev pub valid_name : String → Bool
  valid_name key = not (str_eq key "") && leb (char_count key) 256 && not (has_nul key)

  unfoldable pub environment_each : List (String × Json) → Option (List (String × String))
  environment_each [] = some []
  environment_each ((key, value) ∷ fields) = do
    _ ← require (valid_name key)
    item ← elim value [ text s ↦ some s | other ↦ none ]
    _ ← require (leb (char_count item) 4096 && not (has_nul item))
    rest ← environment_each fields
    some ((key, item) ∷ rest)

  unfoldable pub environment : Json → Option (List (String × String))
  environment null = some []
  environment (object ms) = do
    _ ← require (leb (length (members ms)) 128)
    environment_each (members ms)
  environment _ = none
