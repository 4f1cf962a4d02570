-- ===== src/Settings/RoundTrip.antt =====
-- A number that was set is read back.
use Prim.Native.Char.{code}
use ctfd_challenge_container.Prelude.{
  ℕ, zero, suc, ◌+◌, ◌*◌, ◌/◌, ◌%◌, ◌<◌, Bool, true, false, ◌&&◌, ◌≡◌, refl, ap, ◌∙◌, arith, inl,
  inr, String, Option, some, List, [], ◌∷◌, ltb, leb, ◌==◌, str_eq, str_eq_iff, Bool-cases,
}
use ctfd_challenge_container.Volumes.{lookup, assign}
use ctfd_challenge_container.Volumes.Mounts.{◌>>=◌}
use ctfd_challenge_container.Volumes.Names.{chars_all}
use ctfd_challenge_container.Settings.{int}
use ctfd_challenge_container.Settings.Stored.{
  pos, digit_char, decimal_onto, decimal, set_setting, get_setting, coerce, read_int, read_digits,
  whole,
}

abbrev pub is_ascii_digit : ℕ → Bool
is_ascii_digit n = leb 48 n && leb n 57

-- The code of a decimal digit.
digit-code : (n : ℕ) → n < 10 → code (digit_char n) ≡ 48 + n
digit-code zero h = refl
digit-code (suc zero) h = refl
digit-code (suc (suc zero)) h = refl
digit-code (suc (suc (suc zero))) h = refl
digit-code (suc (suc (suc (suc zero)))) h = refl
digit-code (suc (suc (suc (suc (suc zero))))) h = refl
digit-code (suc (suc (suc (suc (suc (suc zero)))))) h = refl
digit-code (suc (suc (suc (suc (suc (suc (suc zero))))))) h = refl
digit-code (suc (suc (suc (suc (suc (suc (suc (suc zero)))))))) h = refl
digit-code (suc (suc (suc (suc (suc (suc (suc (suc (suc zero))))))))) h = refl
digit-code (suc (suc (suc (suc (suc (suc (suc (suc (suc (suc n)))))))))) h = absurd (omega arith)

pub lookup-assign {ℓ} :
    {A : Type ℓ} (key : String) (a : A) (rows : List (String × A))
    → lookup key (assign key a rows) ≡ some a
unfolding lookup assign
lookup-assign key a [] = rw (lookup, (str_eq_iff key key).1 refl) refl
lookup-assign key a ((k, b) ∷ rest) = elim (Bool-cases (str_eq k key)) [
  | inl e ↦ rw (assign, e, lookup, e) refl
  | inr e ↦ rw (assign, e, lookup, e) (lookup-assign key a rest)
]

digit_first :
    (n : ℕ) (onto : String)
    → n < 10
    → chars_all is_ascii_digit onto ≡ true
    → chars_all is_ascii_digit (String.◌∷◌ (digit_char n) onto) ≡ true
unfolding chars_all
digit_first n onto small h = rw (digit-code n small, h) (ground arith)

decimal_onto-digits :
    (fuel n : ℕ) (onto : String)
    → chars_all is_ascii_digit onto ≡ true
    → chars_all is_ascii_digit (decimal_onto fuel n onto) ≡ true
unfolding decimal_onto
decimal_onto-digits zero n onto h = h
decimal_onto-digits (suc fuel) n onto h = elim (Bool-cases (ltb n 10)) [
  | inl e ↦ rw (decimal_onto, e) (digit_first n onto (ground arith) h)
  | inr e ↦
      rw (decimal_onto, e)
        (decimal_onto-digits fuel (n / 10) _ (digit_first (n % 10) onto (omega arith) h))
]

-- What Python documents of `str.strip` and of `int`: a text of digits has no space to strip, and each
-- of the ten ASCII digits has its value.
pub record IsPython (strip : String → String) (digit : ℕ → Option ℕ) : Type 0 where
  pub strip_keeps : (s : String) → chars_all is_ascii_digit s ≡ true → strip s ≡ s
  pub digit_reads : (n : ℕ) → n < 10 → digit (48 + n) ≡ some n

module _ (strip : String → String) (digit : ℕ → Option ℕ) (python : IsPython strip digit) where
  read_first :
      (so_far n : ℕ) (onto : String)
      → n < 10
      → read_digits strip digit so_far (String.◌∷◌ (digit_char n) onto)
        ≡ read_digits strip digit (so_far * 10 + n) onto
  unfolding read_digits ◌>>=◌
  read_first so_far n onto small = rw (digit-code n small, python.digit_reads n small) refl

  read_one :
      (n : ℕ) (onto : String)
      → n < 10
      → read_digits strip digit 0 (String.◌∷◌ (digit_char n) onto) ≡ read_digits strip digit n onto
  read_one n onto small =
      read_first 0 n onto small ∙ ap (λ m. read_digits strip digit m onto) (omega arith)

  read_int_first :
      (n : ℕ) (onto : String) (value : ℕ)
      → n < 10
      → read_digits strip digit 0 (String.◌∷◌ (digit_char n) onto) ≡ some value
      → read_int strip digit (String.◌∷◌ (digit_char n) onto) ≡ some (pos value)
  unfolding read_int
  read_int_first n onto value small r =
      let coded = digit-code n small in
      let plus : (code (digit_char n) == 43) ≡ false = rw coded (ground arith) in
      let minus : (code (digit_char n) == 45) ≡ false = rw coded (ground arith) in
      rw (plus, minus, r) refl

  -- The first character of a number is a digit, and no sign.
  read_int-decimal_onto :
      (fuel n : ℕ) (onto : String) (value : ℕ)
      → n < fuel
      → read_digits strip digit n onto ≡ some value
      → read_int strip digit (decimal_onto fuel n onto) ≡ some (pos value)
  unfolding decimal_onto
  read_int-decimal_onto zero n onto value h r = absurd (omega arith)
  read_int-decimal_onto (suc fuel) n onto value h r = elim (Bool-cases (ltb n 10)) [
    | inl e ↦
        rw (decimal_onto, e)
          (read_int_first n onto value (ground arith) (read_one n onto (ground arith) ∙ r))
    | inr e ↦
        rw (decimal_onto, e)
          (read_int-decimal_onto fuel (n / 10) _ value (ground arith) (
            read_first (n / 10) (n % 10) onto (omega arith)
            ∙ ap (λ m. read_digits strip digit m onto) (omega arith)
            ∙ r))
  ]

  strip-decimal : (n : ℕ) → strip (decimal n) ≡ decimal n
  unfolding decimal chars_all
  strip-decimal n = python.strip_keeps (decimal n) (decimal_onto-digits (suc n) n "" refl)

  read_int-decimal : (n : ℕ) → read_int strip digit (decimal n) ≡ some (pos n)
  unfolding decimal read_digits
  read_int-decimal n = read_int-decimal_onto (suc n) n "" n (omega arith) refl

  -- A number that was set under a key is what is read under it within the app, whatever else is stored, if `str.strip`
  -- and `int` do what Python documents of them.
  pub get_setting-set_setting :
      (key : String) (n default : ℕ) (rows : List (String × String))
      → get_setting strip digit true key (int default) (set_setting key (int n) rows)
        ≡ whole (pos n)
  unfolding get_setting set_setting coerce ◌>>=◌
  get_setting-set_setting key n default rows =
      rw
        (
          get_setting,
          set_setting,
          lookup-assign key (decimal n) rows,
          coerce,
          strip-decimal n,
          read_int-decimal n,
        )
        refl
