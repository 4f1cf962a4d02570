-- ===== src/Requests/Safe.antt =====
-- What a participant is told of an exception.
use ctfd_challenge_container.Prelude.{
  true, ◌||◌, ◌≡◌, refl, subst, arith, inl, inr, String, none, List, [], ◌∷◌, if◌then◌else◌, str_eq,
  str_eq_iff, Bool-cases, All,
}
use ctfd_challenge_container.Coordination.Reserve.{mem_str}
use ctfd_challenge_container.Requests.Messages.{
  challenge_not_found, image_not_found, start_timeout, server_error,
}
use ctfd_challenge_container.Requests.Errors.{
  ErrorKind, Failure, user_safe, is_part, classify_error_kind, error_body, sanitize_container_error,
}

mem_str-All {ℓ} :
    (P : String → Type ℓ) (s : String) (names : List String)
    → All P names
    → mem_str s names ≡ true
    → P s
mem_str-All P s [] all e = absurd (ground arith)
mem_str-All P s (n ∷ names) (here, rest) e = elim (Bool-cases (str_eq n s)) [
  | inl same ↦ subst P ((str_eq_iff n s).0 same) here
  | inr other ↦ mem_str-All P s names rest (rw other at e)
]

-- All that an exception may be told as.
abbrev pub tellable : List String
tellable = start_timeout ∷ server_error ∷ user_safe

abbrev pub kind_told : String → ErrorKind
kind_told message =
    if str_eq message challenge_not_found || str_eq message image_not_found
    then ErrorKind.permanent
    else ErrorKind.transient

tellable-kinds : All (λ s. classify_error_kind s ≡ kind_told s) tellable
unfolding classify_error_kind is_part
tellable-kinds = (refl, (refl, (refl, (refl, (refl, (refl, (refl, (refl, (refl, (refl, tt))))))))))

told_later :
    (s n : String) (names : List String) → mem_str s names ≡ true → mem_str s (n ∷ names) ≡ true
told_later s n names e = ground arith

sanitize-tellable : (failure : Failure) → mem_str (sanitize_container_error failure) tellable ≡ true
unfolding sanitize_container_error
sanitize-tellable failure = elim (Bool-cases failure.is_start_timeout) [
  | inl e ↦ rw e refl
  | inr e ↦ elim (Bool-cases (mem_str failure.text user_safe)) [
    | inl safe ↦
        rw (sanitize_container_error, e, safe)
          (told_later failure.text start_timeout (server_error ∷ user_safe)
            (told_later failure.text server_error user_safe safe))
    | inr unsafe ↦ rw (sanitize_container_error, e, unsafe) refl
  ]
]

-- Whatever text an exception carries, the body made from it has one of ten fixed texts, and its kind
-- is permanent exactly when a challenge or an image was not found, and transient else.
pub error_body-sanitized :
    (failure : Failure)
    → let body = error_body (sanitize_container_error failure) none in
      (mem_str body.error tellable ≡ true) × (body.error_kind ≡ kind_told body.error)
unfolding error_body
error_body-sanitized failure =
    let known = sanitize-tellable failure in
    (
      known,
      mem_str-All (λ s. classify_error_kind s ≡ kind_told s) (sanitize_container_error failure)
          tellable tellable-kinds known,
    )
