-- ===== src/Flags.antt =====
-- src/freshness.py and src/flag_type.py: flags that differ from owner to owner. HMAC-SHA256, `str` of a
-- number and `str.lower` are parameters.
pub mod Digits
pub mod Extract
mod Tests
use Prim.Native.Char.{code}
use Prim.Native.String.{char_at}
use ctfd_challenge_container.Prelude.{
  ℕ, zero, suc, ◌+◌, ◌*◌, ◌/◌, ◌%◌, Bool, true, false, not, ◌&&◌, ◌||◌, String, Option, none, some,
  List, [], ◌∷◌, ◌==◌, leb, str_eq, is_some, if◌then◌else◌,
}
use ctfd_challenge_container.Volumes.Names.{char_count}

unfoldable pub append : String → String → String
append String.[] t = t
append (String.◌∷◌ c s) t = String.◌∷◌ c (append s t)

-- `BASE36_ALPHABET[rem]` for each remainder, the least significant first.
unfoldable pub token_chars : ℕ → ℕ → String
token_chars zero num = String.[]
token_chars (suc length) num =
    String.◌∷◌ (char_at "0123456789abcdefghijklmnopqrstuvwxyz" (num % 36))
      (token_chars length (num / 36))

abbrev first_bytes : ℕ → List ℕ → List ℕ
first_bytes zero bytes = []
first_bytes (suc n) [] = []
first_bytes (suc n) (b ∷ bytes) = b ∷ first_bytes n bytes

-- `int.from_bytes(bytes, "big")`, with the number so far.
unfoldable pub from_bytes : ℕ → List ℕ → ℕ
from_bytes num [] = num
from_bytes num (b ∷ bytes) = from_bytes (num * 256 + b) bytes

-- The digest of a text in UTF-8 under a secret, and `str` of a number.
pub record Hashing : Type 0 where
  pub hmac : String → String → List ℕ
  pub decimal : ℕ → String

unfoldable pub token_number : Hashing → String → ℕ → ℕ → ℕ
token_number hashing secret challenge_id xid = from_bytes 0 (
    first_bytes 8 (
      hashing.hmac secret
        (append (hashing.decimal challenge_id) (append ":" (hashing.decimal xid)))))

unfoldable pub compute_token : Hashing → String → ℕ → ℕ → ℕ → String
compute_token hashing secret challenge_id xid length =
    token_chars length (token_number hashing secret challenge_id xid)

unfoldable pub drop_prefix : String → String → Option String
drop_prefix String.[] s = some s
drop_prefix (String.◌∷◌ p prefix) String.[] = none
drop_prefix (String.◌∷◌ p prefix) (String.◌∷◌ c s) = elim (code p == code c) [
  | true ↦ drop_prefix prefix s
  | false ↦ none
]

-- PLACEHOLDER
abbrev pub placeholder : String
placeholder = "%TOKEN%"

abbrev pub onto_first : String → List String → List String
onto_first c [] = c ∷ []
onto_first c (piece ∷ pieces) = append c piece ∷ pieces

-- `template.split(PLACEHOLDER)`; the number counts the characters of a placeholder still to pass.
unfoldable pub split_template : ℕ → String → List String
split_template skip String.[] = String.[] ∷ []
split_template (suc skip) (String.◌∷◌ c s) = split_template skip s
split_template zero (String.◌∷◌ c s) = elim (is_some (drop_prefix placeholder (String.◌∷◌ c s))) [
  | true ↦ String.[] ∷ split_template 6 s
  | false ↦ onto_first (String.◌∷◌ c String.[]) (split_template 0 s)
]

unfoldable pub join : String → List String → String
join token [] = String.[]
join token (piece ∷ []) = piece
join token (piece ∷ rest) = append piece (append token (join token rest))

-- `template.replace(PLACEHOLDER, token)`: the pieces around the placeholders, joined by the token.
unfoldable pub render_flag : String → String → String
render_flag template token = join token (split_template 0 template)

-- What `$` matches: the end, or a line feed at the end.
abbrev at_end : String → Bool
at_end s = str_eq s "" || str_eq s "\n"

-- `(.+)` before what the test accepts: the longest text that has a character and no line feed.
unfoldable pub longest : (String → Bool) → String → Option String
longest test String.[] = none
longest test (String.◌∷◌ c s) = elim (code c == 10) [
  | true ↦ none
  | false ↦ elim (longest test s) [
    | some t ↦ some (String.◌∷◌ c t)
    | none ↦ elim (test s) [ true ↦ some (String.◌∷◌ c String.[]) | false ↦ none ]
  ]
]

-- Whether a text matches the rest of the pattern, from a piece of the template on.
unfoldable pub rest_matches : List String → String → Bool
rest_matches [] s = at_end s
rest_matches (piece ∷ []) s = elim (drop_prefix piece s) [ none ↦ false | some r ↦ at_end r ]
rest_matches (piece ∷ rest) s = elim (drop_prefix piece s) [
  | none ↦ false
  | some r ↦ is_some (longest (rest_matches rest) r)
]

-- The first group of the pattern of the template.
abbrev pub match_pieces : List String → String → Option String
match_pieces [] s = none
match_pieces (piece ∷ []) s = none
match_pieces (piece ∷ rest) s = elim (drop_prefix piece s) [
  | none ↦ none
  | some r ↦ longest (rest_matches rest) r
]

unfoldable pub extract_token : String → String → Option String
extract_token template submission = match_pieces (split_template 0 template) submission

-- What `FreshnessFlag.compare` reads: the setting and the length of tokens, the owner of the current
-- user (None where there is no user, or no team in team mode), the flag and `str.lower`.
pub record Attempt : Type 0 where
  pub secret : String
  pub token_length : ℕ
  pub xid : Option ℕ
  pub challenge_id : ℕ
  pub content : String
  pub case_insensitive : Bool
  pub lower : String → String

abbrev token_length_of : Attempt → ℕ
token_length_of attempt = if attempt.token_length == 0 then 6 else attempt.token_length

unfoldable pub compare : Hashing → Attempt → String → Bool
compare hashing attempt provided = if str_eq attempt.secret "" then false else elim attempt.xid [
  | none ↦ false
  | some xid ↦
      let token =
        compute_token hashing attempt.secret attempt.challenge_id xid (token_length_of attempt) in
      let expected = render_flag attempt.content token in
      if attempt.case_insensitive
      then str_eq (attempt.lower expected) (attempt.lower provided)
      else str_eq expected provided
]
