-- ===== src/Volumes/Names.antt =====
-- The regular expressions of volume_policy.py and `_validate_target`. `posixpath.normpath` is a
-- parameter.
use Prim.Native.Char.{code}
use ctfd_challenge_container.Prelude.{
  ℕ, suc, Bool, true, false, not, ◌&&◌, ◌||◌, String, List, [], ◌∷◌, any, str_eq, ◌==◌, leb, ltb,
}

abbrev between : ℕ → ℕ → ℕ → Bool
between a b n = leb a n && leb n b

abbrev is_digit : ℕ → Bool
is_digit n = between 48 57 n

abbrev is_lower : ℕ → Bool
is_lower n = between 97 122 n

abbrev is_upper : ℕ → Bool
is_upper n = between 65 90 n

-- One of `_`, `.` and `-`.
abbrev is_mark : ℕ → Bool
is_mark n = n == 95 || n == 46 || n == 45

unfoldable pub chars_all : (ℕ → Bool) → String → Bool
chars_all p String.[] = true
chars_all p (String.◌∷◌ c s) = p (code c) && chars_all p s

unfoldable pub char_count : String → ℕ
char_count String.[] = 0
char_count (String.◌∷◌ c s) = suc (char_count s)

-- A pattern `^[first][rest]{0,most}$`.
unfoldable pub full_match : (ℕ → Bool) → (ℕ → Bool) → ℕ → String → Bool
full_match first rest most String.[] = false
full_match first rest most (String.◌∷◌ c s) =
    first (code c) && chars_all rest s && leb (char_count s) most

unfoldable pub is_logical_name : String → Bool
is_logical_name s =
    full_match (λ n. is_lower n || is_digit n) (λ n. is_lower n || is_digit n || is_mark n) 63 s

abbrev is_alphanumeric : ℕ → Bool
is_alphanumeric n = is_upper n || is_lower n || is_digit n

unfoldable pub is_docker_volume_name : String → Bool
is_docker_volume_name s = full_match is_alphanumeric (λ n. is_alphanumeric n || is_mark n) 254 s

unfoldable pub is_context_name : String → Bool
is_context_name s = full_match is_alphanumeric (λ n. is_alphanumeric n || is_mark n) 127 s

unfoldable pub is_policy_id : String → Bool
is_policy_id s = full_match is_alphanumeric (λ n. is_alphanumeric n || is_mark n || n == 58) 127 s

unfoldable pub starts_with : String → String → Bool
starts_with s String.[] = true
starts_with String.[] (String.◌∷◌ d p) = false
starts_with (String.◌∷◌ c s) (String.◌∷◌ d p) = code c == code d && starts_with s p

-- `_FORBIDDEN_TARGET_ROOTS`, each with its `root + "/"`.
unfoldable pub forbidden_roots : List (String × String)
forbidden_roots =
    ("/dev", "/dev/")
    ∷ ("/proc", "/proc/")
    ∷ ("/run", "/run/")
    ∷ ("/sys", "/sys/")
    ∷ ("/var/run", "/var/run/")
    ∷ []

unfoldable pub is_forbidden : String → Bool
is_forbidden value = any (λ root. str_eq value root.0 || starts_with value root.1) forbidden_roots

-- `_validate_target`: no control character, so no NUL either.
unfoldable pub is_target : (String → String) → String → Bool
is_target normpath value =
    not (str_eq value "")
    && leb (char_count value) 512
    && starts_with value "/"
    && not (starts_with value "//")
    && str_eq (normpath value) value
    && not (str_eq value "/")
    && chars_all (λ n. not (ltb n 32 || n == 127)) value
    && not (is_forbidden value)
