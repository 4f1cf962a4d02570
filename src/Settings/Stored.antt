-- ===== src/Settings/Stored.antt =====
-- `set_setting`, `get_setting` and `_coerce` of src/utils.py. `str.strip` and the value of a character
-- that `\d` matches are parameters.
use Prim.Native.Char.{Char, code}
use Prim.Native.String.{char_at}
use ctfd_challenge_container.Prelude.{
  ℕ, zero, suc, ◌+◌, ◌*◌, ◌/◌, ◌%◌, Bool, true, false, String, Option, none, some, List, ltb, ◌==◌,
  if◌then◌else◌,
}
use ctfd_challenge_container.Volumes.{lookup, assign}
use ctfd_challenge_container.Volumes.Mounts.{◌>>=◌}
use ctfd_challenge_container.Settings.{SettingValue, int, str, setting_specs}

pub data ℤ : Type 0 where
  pos negsuc : ℕ → ℤ

abbrev pub negated : ℕ → ℤ
negated zero = pos zero
negated (suc n) = negsuc n

abbrev pub with_sign : (ℕ → ℤ) → Option ℕ → Option ℤ
with_sign sign none = none
with_sign sign (some n) = some (sign n)

abbrev pub digit_char : ℕ → Char
digit_char n = char_at "0123456789" n

-- `str` of a number, in front of a text.
unfoldable pub decimal_onto : ℕ → ℕ → String → String
decimal_onto zero n onto = onto
decimal_onto (suc fuel) n onto = elim (ltb n 10) [
  | true ↦ String.◌∷◌ (digit_char n) onto
  | false ↦ decimal_onto fuel (n / 10) (String.◌∷◌ (digit_char (n % 10)) onto)
]

unfoldable pub decimal : ℕ → String
decimal n = decimal_onto (suc n) n ""

abbrev pub written : SettingValue → String
written (int n) = decimal n
written (str s) = s

unfoldable pub set_setting : String → SettingValue → List (String × String) → List (String × String)
set_setting key value rows = assign key (written value) rows

-- What a stored setting is read as.
pub data Stored : Type 0 where
  whole : ℤ → Stored
  words : String → Stored

abbrev pub of_value : SettingValue → Stored
of_value (int n) = whole (pos n)
of_value (str s) = words s

-- DEFAULTS
unfoldable pub default_of : String → Option SettingValue
default_of key = do spec ← lookup key setting_specs; some spec.default

module _ (strip : String → String) (digit : ℕ → Option ℕ) where
  unfoldable pub read_digits : ℕ → String → Option ℕ
  read_digits so_far String.[] = some so_far
  read_digits so_far (String.◌∷◌ c s) = do d ← digit (code c); read_digits (so_far * 10 + d) s

  abbrev pub some_digits : String → Option ℕ
  some_digits String.[] = none
  some_digits (String.◌∷◌ c s) = read_digits 0 (String.◌∷◌ c s)

  -- A text that matches `^[+-]?\d+$`, as `int` reads it.
  unfoldable pub read_int : String → Option ℤ
  read_int String.[] = none
  read_int (String.◌∷◌ c s) =
      if code c == 43
      then with_sign pos (some_digits s)
      else if code c == 45
      then with_sign negated (some_digits s)
      else with_sign pos (read_digits 0 (String.◌∷◌ c s))

  -- `_coerce` to the type of a default.
  unfoldable pub coerce : String → SettingValue → Option Stored
  coerce raw (int n) = do value ← read_int (strip raw); some (whole value)
  coerce raw (str s) = some (words raw)

  abbrev pub or_default : Option Stored → SettingValue → Stored
  or_default none default = of_value default
  or_default (some value) default = value

  -- `get_setting(key)`, for a key of the table; the first argument says whether there is a `current_app`.
  -- An invalid stored value is passed over.
  unfoldable pub get_setting : Bool → String → SettingValue → List (String × String) → Stored
  get_setting false key default rows = of_value default
  get_setting true key default rows = elim (lookup key rows) [
    | none ↦ of_value default
    | some raw ↦ or_default (coerce raw default) default
  ]
