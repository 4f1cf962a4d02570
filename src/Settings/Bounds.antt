-- ===== src/Settings/Bounds.antt =====
-- What `validate_settings_patch` accepts.
use ctfd_challenge_container.Prelude.{
  ℕ, Bool, true, false, not, ◌&&◌, ◌||◌, ◌≡◌, refl, ap, arith, String, Option, some, List, [], ◌∷◌,
  map, some_injective, str_eq, All,
}
use ctfd_challenge_container.Volumes.{lookup}
use ctfd_challenge_container.Volumes.Declared.{bind-some, require-some}
use ctfd_challenge_container.Volumes.Json.{
  Json, null, boolean, number, other_number, not_finite, text, array, object, require_object,
}
use ctfd_challenge_container.Volumes.Mounts.{◌>>=◌}
use ctfd_challenge_container.Volumes.Names.{char_count}
use ctfd_challenge_container.Settings.{
  SettingValue, int, str, SettingKind, integer, duration, string, SettingSpec, setting_specs,
  at_least, at_most, or_zero, parse, parse_string, parse_strict_int, parse_duration_seconds,
  validate_each, validate_settings_patch,
}

-- A value that a specification allows.
abbrev pub allowed_as : SettingKind → SettingSpec → SettingValue → Bool
allowed_as string spec (str s) =
    (not (str_eq s "") || spec.allow_empty) && at_most spec.max_length (char_count s)
allowed_as integer spec (int n) = at_least spec.minimum n && at_most spec.maximum n
allowed_as duration spec (int n) = at_least spec.minimum n && at_most spec.maximum n
allowed_as _ spec _ = false

abbrev pub allowed : SettingSpec → SettingValue → Bool
allowed spec value = allowed_as spec.kind spec value

abbrev pub as_json : SettingValue → Json
as_json (int n) = number n
as_json (str s) = text s

strict_int-allowed :
    (value : Json) (low high : Option ℕ) (n : ℕ)
    → parse_strict_int value low high ≡ some n
    → (at_least low n && at_most high n) ≡ true
unfolding parse_strict_int ◌>>=◌
strict_int-allowed (number m) low high n e = ground arith
strict_int-allowed null low high n e = absurd (ground arith)
strict_int-allowed (boolean b) low high n e = absurd (ground arith)
strict_int-allowed other_number low high n e = absurd (ground arith)
strict_int-allowed not_finite low high n e = absurd (ground arith)
strict_int-allowed (text s) low high n e = absurd (ground arith)
strict_int-allowed (array js) low high n e = absurd (ground arith)
strict_int-allowed (object ms) low high n e = absurd (ground arith)

strict_int-accepts :
    (low high : Option ℕ) (n : ℕ)
    → (at_least low n && at_most high n) ≡ true
    → parse_strict_int (number n) low high ≡ some n
unfolding parse_strict_int ◌>>=◌
strict_int-accepts low high n e = ground arith

duration-allowed :
    (spec : SettingSpec) (n : ℕ)
    → (at_least (some (or_zero spec.minimum)) n && at_most spec.maximum n) ≡ true
    → (at_least spec.minimum n && at_most spec.maximum n) ≡ true
duration-allowed spec n e = ground arith

string-allowed :
    (spec : SettingSpec) (value : Json) (parsed : SettingValue)
    → parse_string spec value ≡ some parsed
    → allowed_as string spec parsed ≡ true
unfolding parse_string
string-allowed spec (text s) parsed e =
    let (u, filled, e1) = bind-some _ _ parsed e in
    let (u', short, e2) = bind-some _ _ parsed e1 in
    rw (← some_injective _ _ e2, require-some _ u filled, require-some _ u' short) refl
string-allowed spec null parsed e = absurd (ground arith)
string-allowed spec (boolean b) parsed e = absurd (ground arith)
string-allowed spec (number n) parsed e = absurd (ground arith)
string-allowed spec other_number parsed e = absurd (ground arith)
string-allowed spec not_finite parsed e = absurd (ground arith)
string-allowed spec (array js) parsed e = absurd (ground arith)
string-allowed spec (object ms) parsed e = absurd (ground arith)

parse-allowed :
    (spec : SettingSpec) (value : Json) (parsed : SettingValue)
    → parse spec value ≡ some parsed
    → allowed spec parsed ≡ true
unfolding parse parse_duration_seconds parse_string
parse-allowed spec value parsed e =
    elim spec.kind
        as (λ k.
          parse (record spec { kind = k }) value ≡ some parsed → allowed_as k spec parsed ≡ true) [
            | integer ↦ λ h.
                let (n, found, same) = bind-some _ _ parsed h in
                rw (← some_injective _ _ same)
                  (strict_int-allowed value spec.minimum spec.maximum n found)
            | duration ↦ λ h.
                let (n, found, same) = bind-some _ _ parsed h in
                rw (← some_injective _ _ same) (
                  duration-allowed spec n
                    (strict_int-allowed value (some (or_zero spec.minimum)) spec.maximum n found))
            | string ↦ λ h. string-allowed spec value parsed h
          ]
      e

-- A setting with a value that the table of specifications allows.
pub record IsSetting (setting : String × SettingValue) : Type 0 where
  pub spec : SettingSpec
  pub known : lookup setting.0 setting_specs ≡ some spec
  pub permitted : allowed spec setting.1 ≡ true

validate_each-AllSettings :
    (fields : List (String × Json)) (settings : List (String × SettingValue))
    → validate_each fields ≡ some settings
    → All IsSetting settings × (map (λ s. s.0) settings ≡ map (λ f. f.0) fields)
unfolding validate_each
validate_each-AllSettings [] settings e = rw (← some_injective _ _ e) (tt, refl)
validate_each-AllSettings ((key, value) ∷ fields) settings e =
    let (spec, known, e1) = bind-some _ _ settings e in
    let (parsed, taken, e2) = bind-some _ _ settings e1 in
    let (rest, valid, e3) = bind-some _ _ settings e2 in
    let (all, same) = validate_each-AllSettings fields rest valid in
    rw (← some_injective _ _ e3) (
      (
        record { spec = spec; known = known; permitted = parse-allowed spec value parsed taken },
        all,
      ),
      ap (λ keys. key ∷ keys) same,
    )

-- A patch of the settings that is accepted has settings of the table only, each with a value that its
-- specification allows: a number within its minimum and its maximum, or a text within its length; and
-- they are the settings that the payload names, in its order.
pub validate_settings_patch-AllSettings :
    (payload : Json) (settings : List (String × SettingValue))
    → validate_settings_patch payload ≡ some settings
    → All IsSetting settings
      × ((fields : List (String × Json)) × (require_object payload ≡ some fields)
          × (map (λ s. s.0) settings ≡ map (λ f. f.0) fields))
unfolding validate_settings_patch
validate_settings_patch-AllSettings payload settings e =
    let (fields, object_read, valid) = bind-some _ _ settings e in
    let (all, same) = validate_each-AllSettings fields settings valid in
    (all, (fields, object_read, same))
