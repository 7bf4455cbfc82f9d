-- ===== src/Core/Text/Escape.antt =====
-- What a LIKE pattern with the escape character `\` denotes, and escaped keywords.
use green_garden_api.Prelude.{
  ◌≡◌, refl, Option, none, some, false, inl, inr, Bool-cases, [], ◌∷◌, Text, ◌==◌, if◌then◌else◌,
  arith, ℕ,
}
use green_garden_api.Core.Text.{is_ilike_meta, escape_ilike_pattern}
use mathlib.Core.Option

-- The one text that a pattern without wildcards matches: an escaped character stands for itself,
-- and a bare `%` or `_`, or an escape character at the end, makes it no such pattern.
pub like_literal : Text → Option Text
like_literal [] = some []
like_literal (c ∷ []) =
    if c == 92 then none else if c == b'%' then none else if c == b'_' then none else some (c ∷ [])
like_literal (c ∷ d ∷ s) =
    let escaped = Option.map (λ r. d ∷ r) (like_literal s) in
    let plain = Option.map (λ r. c ∷ r) (like_literal (d ∷ s)) in
    if c == 92 then escaped else if c == b'%' then none else if c == b'_' then none else plain

plain_lem :
    (c : ℕ) (s : Text)
    → is_ilike_meta c ≡ false
    → like_literal (c ∷ s) ≡ Option.map (λ r. c ∷ r) (like_literal s)
unfolding like_literal is_ilike_meta
plain_lem c [] h = ground arith
plain_lem c (d ∷ s) h = ground arith

escaped_lem :
    (c : ℕ) (s : Text) → like_literal (92 ∷ c ∷ s) ≡ Option.map (λ r. c ∷ r) (like_literal s)
unfolding like_literal
escaped_lem c s = refl

-- A keyword that is escaped, read as a LIKE pattern with the backslash as escape character, has no
-- wildcards and stands for the keyword itself.
pub like_literal-escape_ilike_pattern : (s : Text) → like_literal (escape_ilike_pattern s) ≡ some s
unfolding escape_ilike_pattern
like_literal-escape_ilike_pattern [] = unfold like_literal in refl
like_literal-escape_ilike_pattern (c ∷ s) = elim (Bool-cases (is_ilike_meta c)) [
  | inl meta ↦ rw meta (rw escaped_lem (rw (like_literal-escape_ilike_pattern s)))
  | inr bare ↦
      rw bare
        (rw (plain_lem c (escape_ilike_pattern s) bare) (rw (like_literal-escape_ilike_pattern s)))
]
