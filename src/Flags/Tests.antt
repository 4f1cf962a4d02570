-- ===== src/Flags/Tests.antt =====
-- The properties of the flags at a concrete template.
use ctfd_challenge_container.Prelude.{ℕ, ◌+◌, ◌*◌, ◌<◌, ◌≤◌, ◌≡◌, refl, arith, true, some, [], ◌∷◌}
use ctfd_challenge_container.Volumes.Names.{chars_all, char_count}
use ctfd_challenge_container.Flags.{
  Hashing, first_bytes, compute_token, split_template, drop_prefix, append, extract_token,
  render_flag,
}
use ctfd_challenge_container.Flags.Digits.{
  big_endian, is_alphabet, pow36, token_value, compute_token-value,
}
use ctfd_challenge_container.Flags.Extract.{one_line, extract_token-render_flag}

pieces : split_template 0 "flag{%TOKEN%}" ≡ "flag{" ∷ "}" ∷ []
unfolding split_template drop_prefix append
pieces = refl

token-count : 1 ≤ char_count "a1b2c3"
unfolding char_count
token-count = omega arith

token-line : one_line "a1b2c3" ≡ true
unfolding chars_all
token-line = refl

extract_token-render_flag_example :
    extract_token "flag{%TOKEN%}" (render_flag "flag{%TOKEN%}" "a1b2c3") ≡ some "a1b2c3"
extract_token-render_flag_example =
    extract_token-render_flag "flag{%TOKEN%}" "flag{" "}" "a1b2c3" pieces token-count token-line

abbrev hashing : Hashing
hashing = record { hmac = λ secret text. 1 ∷ 2 ∷ 3 ∷ []; decimal = λ n. "7" }

compute_token-value_example :
    let token = compute_token hashing "secret" 1 7 6 in
    (char_count token ≡ 6)
    × (chars_all is_alphabet token ≡ true)
    × (token_value token < pow36 6)
    × ((k : ℕ) × (big_endian (first_bytes 8 (1 ∷ 2 ∷ 3 ∷ [])) ≡ token_value token + pow36 6 * k))
compute_token-value_example = compute_token-value hashing "secret" 1 7 6
