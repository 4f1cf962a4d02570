-- ===== src/Settings/Tests.antt =====
-- The properties of the settings at concrete values.
use ctfd_challenge_container.Prelude.{
  ℕ, true, ◌-◌, ◌+◌, ◌&&◌, ◌≡◌, refl, arith, String, Option, none, some, List, [], ◌∷◌, map, leb,
  All, if◌then◌else◌,
}
use ctfd_challenge_container.Volumes.{lookup}
use ctfd_challenge_container.Volumes.Json.{
  Json, number, array, nil, object, no_member, member, require_object, members,
}
use ctfd_challenge_container.Volumes.Mounts.{◌>>=◌}
use ctfd_challenge_container.Settings.{
  SettingValue, int, validate_settings_patch, validate_each, parse, parse_strict_int,
}
use ctfd_challenge_container.Settings.Bounds.{IsSetting, validate_settings_patch-AllSettings}
use ctfd_challenge_container.Settings.RoundTrip.{IsPython, get_setting-set_setting}
use ctfd_challenge_container.Settings.Shape.{
  validate_json_shape, all_finite, height, total, validate_json_shape-limited,
}
use ctfd_challenge_container.Settings.Stored.{get_setting, set_setting, whole, pos}

abbrev nested : Json
nested = object (member "ips" (array nil) no_member)

validate_json_shape-limited_example : validate_json_shape 8 1000 1 0 nested ≡ (
    if all_finite nested && leb (1 + height nested) 8 && leb (0 + total nested) 1000
    then some (0 + total nested)
    else none)
validate_json_shape-limited_example = validate_json_shape-limited 8 1000 1 0 nested

abbrev ascii_digit : ℕ → Option ℕ
ascii_digit n = if leb 48 n && leb n 57 then some (n - 48) else none

abbrev no_strip : String → String
no_strip s = s

ascii-IsPython : IsPython no_strip ascii_digit
ascii-IsPython = record { strip_keeps = λ s h. refl; digit_reads = λ n h. ground arith }

get_setting-set_setting_example :
    get_setting no_strip ascii_digit true "max_concurrent_creates"
      (int 2)
      (set_setting "max_concurrent_creates" (int 32) (("rate_limit_requests", "45") ∷ []))
    ≡ whole (pos 32)
get_setting-set_setting_example =
    get_setting-set_setting no_strip ascii_digit ascii-IsPython "max_concurrent_creates" 32 2
      (("rate_limit_requests", "45") ∷ [])

abbrev patch : Json
patch = object (member "max_concurrent_creates" (number 32) no_member)

abbrev patched : List (String × SettingValue)
patched = ("max_concurrent_creates", int 32) ∷ []

patch-accepted : validate_settings_patch patch ≡ some patched
unfolding validate_settings_patch validate_each parse parse_strict_int lookup require_object members
    ◌>>=◌
patch-accepted = refl

validate_settings_patch-AllSettings_example :
    All IsSetting patched
    × ((fields : List (String × Json)) × (require_object patch ≡ some fields)
        × (map (λ s. s.0) patched ≡ map (λ f. f.0) fields))
validate_settings_patch-AllSettings_example =
    validate_settings_patch-AllSettings patch patched patch-accepted
