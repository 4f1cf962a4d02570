-- ===== src/Flags/Digits.antt =====
-- The tokens of numbers.
use Prim.Native.Char.{Char, code}
use Prim.Native.String.{char_at}
use native.Mathlib.Nat.{mul_assoc, add-mul, pow-succ'}
use ctfd_challenge_container.Prelude.{
  ℕ, zero, suc, ◌+◌, ◌-◌, ◌*◌, ◌/◌, ◌%◌, ◌<◌, Bool, true, ◌≡◌, refl, ap, arith, inl, inr, String,
  List, [], ◌∷◌, ◌^◌, length, ◌∙◌, sym, ◌||◌, ◌&&◌, ◌==◌, leb, range, if◌then◌else◌, all,
  range_from, ◌≤◌, ==_eq, &&_both, Bool-cases,
}
use ctfd_challenge_container.Volumes.Names.{char_count, chars_all}
use ctfd_challenge_container.Flags.{
  Hashing, token_chars, token_number, compute_token, from_bytes, first_bytes, append,
}

abbrev digit_char : ℕ → Char
digit_char n = char_at "0123456789abcdefghijklmnopqrstuvwxyz" n

-- The remainder that a character of the alphabet stands for.
abbrev digit_of : ℕ → ℕ
digit_of n = if leb n 57 then n - 48 else n - 87

-- The number that a token is written for.
unfoldable pub token_value : String → ℕ
token_value String.[] = 0
token_value (String.◌∷◌ c s) = digit_of (code c) + 36 * token_value s

abbrev pub is_alphabet : ℕ → Bool
is_alphabet n = leb 48 n && leb n 57 || leb 97 n && leb n 122

below-all_from :
    (p : ℕ → Bool) (a k n : ℕ) → all p (range_from a k) ≡ true → a ≤ n → n < a + k → p n ≡ true
below-all_from p a zero n h low high = absurd (omega arith)
below-all_from p a (suc k) n h low high = elim (Bool-cases (a == n)) [
  | inl e ↦ let same : a ≡ n = ==_eq a n e in rw (← same) (&&_both _ _ h).0
  | inr e ↦ below-all_from p (suc a) k n (&&_both _ _ h).1 (ground arith) (omega arith)
]

digits_read : all (λ n. digit_of (code (digit_char n)) == n) (range 36) ≡ true
digits_read = refl

digits_plain : all (λ n. is_alphabet (code (digit_char n))) (range 36) ≡ true
digits_plain = refl

digit_of-digit_char : (n : ℕ) → n < 36 → digit_of (code (digit_char n)) ≡ n
digit_of-digit_char n small = ==_eq _ _ (
    below-all_from (λ n. digit_of (code (digit_char n)) == n) 0 36 n digits_read (omega arith)
      (omega arith))

-- `36 ** n`
abbrev pub pow36 : ℕ → ℕ
pow36 zero = 1
pow36 (suc n) = 36 * pow36 n

token_chars-value :
    (length num : ℕ)
    → (token_value (token_chars length num) < pow36 length)
      × ((k : ℕ) × (num ≡ token_value (token_chars length num) + pow36 length * k))
unfolding token_chars token_value
token_chars-value zero num = (omega arith, (num, omega arith))
token_chars-value (suc length) num =
    let (small, (k, same)) = token_chars-value length (num / 36) in
    let read = digit_of-digit_char (num % 36) (omega arith) in
    let regroup = mul_assoc 36 (pow36 length) k in
    rw read (omega arith, (k, omega (arith, regroup)))

token_chars-count : (length num : ℕ) → char_count (token_chars length num) ≡ length
unfolding token_chars char_count
token_chars-count zero num = refl
token_chars-count (suc length) num = ap suc (token_chars-count length (num / 36))

digit_char-plain : (n : ℕ) → n < 36 → is_alphabet (code (digit_char n)) ≡ true
digit_char-plain n small =
    below-all_from (λ n. is_alphabet (code (digit_char n))) 0 36 n digits_plain (omega arith)
      (omega arith)

token_chars-plain : (length num : ℕ) → chars_all is_alphabet (token_chars length num) ≡ true
unfolding token_chars chars_all
token_chars-plain zero num = refl
token_chars-plain (suc length) num =
    rw (digit_char-plain (num % 36) (omega arith), token_chars-plain length (num / 36)) refl

-- The number that bytes stand for, the most significant first.
unfoldable pub big_endian : List ℕ → ℕ
big_endian [] = 0
big_endian (b ∷ bytes) = b * 256 ^ length bytes + big_endian bytes

from_bytes-big_endian :
    (num : ℕ) (bytes : List ℕ) → from_bytes num bytes ≡ num * 256 ^ length bytes + big_endian bytes
unfolding from_bytes big_endian
from_bytes-big_endian num [] = omega arith
from_bytes-big_endian num (b ∷ bytes) =
    from_bytes-big_endian (num * 256 + b) bytes
    ∙ (let spread = add-mul (num * 256) b (256 ^ length bytes) in
        let regroup = mul_assoc num 256 (256 ^ length bytes) in
        let power = pow-succ' 256 (length bytes) in rw (power, spread, regroup) omega arith)

-- A token has as many characters as asked for, all digits or lower-case letters, and written to base 36,
-- its first character the least significant, it is the number of the first 8 bytes of the HMAC of
-- "challenge:owner" under the secret, modulo 36 to the power of its length.
pub compute_token-value :
    (hashing : Hashing) (secret : String) (challenge_id xid size : ℕ)
    → let token = compute_token hashing secret challenge_id xid size in
      let message = append (hashing.decimal challenge_id) (append ":" (hashing.decimal xid)) in
      (char_count token ≡ size)
      × (chars_all is_alphabet token ≡ true)
      × (token_value token < pow36 size)
      × ((k : ℕ) × (big_endian (first_bytes 8 (hashing.hmac secret message))
            ≡ token_value token + pow36 size * k))
unfolding compute_token token_number
compute_token-value hashing secret challenge_id xid size =
    let num = token_number hashing secret challenge_id xid in
    let (small, split) = token_chars-value size num in
    let bytes = first_bytes 8 (
      hashing.hmac secret
        (append (hashing.decimal challenge_id) (append ":" (hashing.decimal xid)))) in
    let read : num ≡ big_endian bytes = from_bytes-big_endian 0 bytes ∙ omega arith in
    (token_chars-count size num, token_chars-plain size num, small, (split.0, sym read ∙ split.1))
