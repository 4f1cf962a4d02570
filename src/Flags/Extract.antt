-- ===== src/Flags/Extract.antt =====
-- The token of a rendered flag is found again.
use Prim.Native.Char.{Char, code}
use ctfd_challenge_container.Prelude.{
  ◌≤◌, ◌<◌, Bool, true, false, not, ◌≡◌, refl, ◌∙◌, arith, inl, inr, String, none, some, [], ◌∷◌,
  ◌==◌, ==_refl, Bool-cases,
}
use ctfd_challenge_container.Volumes.Names.{char_count, chars_all}
use ctfd_challenge_container.Flags.{
  append, drop_prefix, split_template, join, render_flag, longest, rest_matches, extract_token,
  match_pieces,
}

drop_prefix-append : (p s : String) → drop_prefix p (append p s) ≡ some s
unfolding drop_prefix append
drop_prefix-append String.[] s = refl
drop_prefix-append (String.◌∷◌ c p) s = rw (drop_prefix, ==_refl (code c)) (drop_prefix-append p s)

drop_prefix_self : (p : String) → drop_prefix p p ≡ some ""
unfolding drop_prefix
drop_prefix_self String.[] = refl
drop_prefix_self (String.◌∷◌ c p) = rw (drop_prefix, ==_refl (code c)) (drop_prefix_self p)

drop_prefix_short : (p s : String) → char_count s < char_count p → drop_prefix p s ≡ none
unfolding drop_prefix char_count
drop_prefix_short String.[] s short = absurd (omega arith)
drop_prefix_short (String.◌∷◌ c p) String.[] short = refl
drop_prefix_short (String.◌∷◌ c p) (String.◌∷◌ d s) short = elim (Bool-cases (code c == code d)) [
  | inl e ↦ rw (drop_prefix, e) (drop_prefix_short p s (omega arith))
  | inr e ↦ rw (drop_prefix, e) refl
]

-- No longer text than the token is left in front of the last piece.
longest-none :
    (post s : String) → char_count s ≤ char_count post → longest (rest_matches (post ∷ [])) s ≡ none
unfolding longest char_count rest_matches
longest-none post String.[] short = refl
longest-none post (String.◌∷◌ c s) short = elim (Bool-cases (code c == 10)) [
  | inl e ↦ rw (longest, e) refl
  | inr e ↦
      rw
        (
          longest,
          e,
          longest-none post s (omega arith),
          rest_matches,
          drop_prefix_short post s (omega arith),
        )
        refl
]

last_matches : (post : String) → rest_matches (post ∷ []) post ≡ true
unfolding rest_matches
last_matches post = rw (rest_matches, drop_prefix_self post) refl

-- A text that `(.+)` can match.
abbrev pub one_line : String → Bool
one_line s = chars_all (λ n. not (n == 10)) s

longest_step :
    (test : String → Bool) (c : Char) (s t : String)
    → (code c == 10) ≡ false
    → longest test s ≡ some t
    → longest test (String.◌∷◌ c s) ≡ some (String.◌∷◌ c t)
unfolding longest
longest_step test c s t line found = rw (longest, line, found) refl

longest_last :
    (post : String) (c : Char)
    → (code c == 10) ≡ false
    → longest (rest_matches (post ∷ [])) (String.◌∷◌ c post) ≡ some (String.◌∷◌ c "")
unfolding longest
longest_last post c line =
    rw (longest, line, longest-none post post (omega arith), last_matches post) refl

longest-append :
    (post token : String)
    → 1 ≤ char_count token
    → one_line token ≡ true
    → longest (rest_matches (post ∷ [])) (append token post) ≡ some token
unfolding append chars_all char_count
longest-append post String.[] filled line = absurd (omega arith)
longest-append post (String.◌∷◌ c String.[]) filled line = longest_last post c (ground arith)
longest-append post (String.◌∷◌ c (String.◌∷◌ d token)) filled line =
    longest_step _ c _ _ (ground arith)
      (longest-append post (String.◌∷◌ d token) (omega arith) (ground arith))

match_two :
    (before after rendered t : String)
    → drop_prefix before rendered ≡ some t
    → match_pieces (before ∷ after ∷ []) rendered ≡ longest (rest_matches (after ∷ [])) t
match_two before after rendered t e = rw (match_pieces, e) refl

-- What a participant submits is read back to the owner's token: if the template has the placeholder
-- once, the token that was rendered into it, of one line and not empty, is the one that is extracted
-- from the flag.
pub extract_token-render_flag :
    (template before after token : String)
    → split_template 0 template ≡ before ∷ after ∷ []
    → 1 ≤ char_count token
    → one_line token ≡ true
    → extract_token template (render_flag template token) ≡ some token
unfolding extract_token render_flag join
extract_token-render_flag template before after token pieces filled line =
    rw (extract_token, render_flag, pieces)
      (match_two before after _ (append token after)
          (drop_prefix-append before (append token after))
        ∙ longest-append after token filled line)
