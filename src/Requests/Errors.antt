-- ===== src/Requests/Errors.antt =====
-- src/utils.py: what a request is told of an exception. `str.lower` is modelled on ASCII letters.
use Prim.Native.Char.{code}
use ctfd_challenge_container.Prelude.{
  ℕ, ◌+◌, Bool, true, false, ◌&&◌, ◌||◌, String, Option, none, some, List, [], ◌∷◌, ◌==◌, leb, any,
  if◌then◌else◌,
}
use ctfd_challenge_container.Coordination.Reserve.{mem_str}
use ctfd_challenge_container.Requests.Messages.{
  no_renewals, container_not_found, container_not_found_reset, challenge_not_found,
  request_in_progress, image_not_found, memory_limit_invalid, cpu_limit_invalid, start_timeout,
  server_error,
}

pub data ErrorKind : Type 0 where
  user transient permanent : ErrorKind

-- An exception: whether it is a ContainerStartTimeout, and its `str`.
pub record Failure : Type 0 where
  pub is_start_timeout : Bool
  pub text : String

abbrev pub codes : String → List ℕ
codes String.[] = []
codes (String.◌∷◌ c s) = code c ∷ codes s

abbrev lower_code : ℕ → ℕ
lower_code n = if leb 65 n && leb n 90 then n + 32 else n

abbrev lower : String → List ℕ
lower String.[] = []
lower (String.◌∷◌ c s) = lower_code (code c) ∷ lower s

abbrev is_prefix : List ℕ → List ℕ → Bool
is_prefix [] s = true
is_prefix (p ∷ ps) [] = false
is_prefix (p ∷ ps) (c ∷ s) = p == c && is_prefix ps s

-- `pattern in text`
unfoldable pub is_part : List ℕ → List ℕ → Bool
is_part pattern [] = is_prefix pattern []
is_part pattern (c ∷ s) = is_prefix pattern (c ∷ s) || is_part pattern s

abbrev permanent_error_patterns : List String
permanent_error_patterns = "image not found" ∷ "challenge not found" ∷ []

abbrev user_error_patterns : List String
user_error_patterns =
    "you can only spawn" ∷ "rate limit" ∷ "too many" ∷ "not a member of a team" ∷ "invalid"
    ∷ "no container found" ∷ []

abbrev matches : List String → String → Bool
matches patterns message = any (λ p. is_part (codes p) (lower message)) patterns

unfoldable pub classify_error_kind : String → ErrorKind
classify_error_kind message =
    if matches permanent_error_patterns message
    then ErrorKind.permanent
    else if matches user_error_patterns message
    then ErrorKind.user
    else ErrorKind.transient

pub record ErrorBody : Type 0 where
  pub error : String
  pub error_kind : ErrorKind

unfoldable pub error_body : String → Option ErrorKind → ErrorBody
error_body message none = record { error = message; error_kind = classify_error_kind message }
error_body message (some kind) = record { error = message; error_kind = kind }

abbrev pub user_safe : List String
user_safe =
    no_renewals ∷ container_not_found ∷ container_not_found_reset ∷ challenge_not_found
    ∷ request_in_progress ∷ image_not_found ∷ memory_limit_invalid ∷ cpu_limit_invalid ∷ []

unfoldable pub sanitize_container_error : Failure → String
sanitize_container_error failure =
    if failure.is_start_timeout
    then start_timeout
    else if mem_str failure.text user_safe
    then failure.text
    else server_error
