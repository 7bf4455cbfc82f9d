-- ===== src/Core/Text.antt =====
-- app/core/text.py: normalisation of slugs, SKUs, phone numbers and search keywords.
-- A regular expression that replaces runs of a class is a loop over the text with a flag that says
-- whether the run has begun. The case mapping of Unicode is a parameter.
pub mod Stripping
pub mod Slug
pub mod Phone
pub mod Escape
use green_garden_api.Prelude.{
  ℕ, ◌≡◌, Bool, true, false, not, ◌&&◌, ◌||◌, Option, none, some, [], ◌∷◌, ◌++◌, ◌≤◌, ◌+◌, ◌-◌,
  Text, codes, text_eq, leb, ◌==◌, if◌then◌else◌, select, length, take, drop, All, map, is_nonempty,
}

-- `str.isspace`, which is also `\s` of `re`.
unfoldable pub is_space : ℕ → Bool
is_space c =
    (leb 9 c && leb c 13)
    || (leb 28 c && leb c 32)
    || c == 0x85
    || c == 0xa0
    || c == 0x1680
    || (leb 0x2000 c && leb c 0x200a)
    || c == 0x2028
    || c == 0x2029
    || c == 0x202f
    || c == 0x205f
    || c == 0x3000

-- `str.lower` of one ASCII character.
unfoldable pub ascii_lower : ℕ → ℕ
ascii_lower c = if leb b'A' c && leb c b'Z' then c + 32 else c

unfoldable pub ascii_upper : ℕ → ℕ
ascii_upper c = if leb b'a' c && leb c b'z' then c - 32 else c

-- `str.lower` and `str.upper`, by their tables in the Unicode database.
pub record CaseMap : Type 0 where
  pub lower : Text → Text
  pub upper : Text → Text
  pub lower_ascii : (s : Text) → All (λ c. c ≤ 127) s → lower s ≡ map ascii_lower s
  pub upper_ascii : (s : Text) → All (λ c. c ≤ 127) s → upper s ≡ map ascii_upper s

-- `s.lstrip(…)`, `s.rstrip(…)` and `s.strip(…)` for a class of characters.
unfoldable pub lstrip : (ℕ → Bool) → Text → Text
lstrip p [] = []
lstrip p (c ∷ s) = if p c then lstrip p s else c ∷ s

unfoldable pub rstrip : (ℕ → Bool) → Text → Text
rstrip p [] = []
rstrip p (c ∷ s) = let rest = rstrip p s in if p c && not (is_nonempty rest) then [] else c ∷ rest

unfoldable pub strip : (ℕ → Bool) → Text → Text
unfolding lstrip rstrip
strip p s = rstrip p (lstrip p s)

-- Each run of the class becomes one `r`; the flag says that a run has begun.
unfoldable pub sub_runs : (ℕ → Bool) → ℕ → Bool → Text → Text
sub_runs p r begun [] = []
sub_runs p r begun (c ∷ s) =
    let rest = sub_runs p r (p c) s in if p c then (if begun then rest else r ∷ rest) else c ∷ rest

-- The class's characters are dropped: `re.sub(class, "", s)`.
abbrev pub remove : (ℕ → Bool) → Text → Text
remove p s = select (λ c. not (p c)) s

unfoldable pub normalize_search_query : Text → Text
unfolding strip
normalize_search_query query = strip is_space query

-- `_ILIKE_META`
unfoldable pub is_ilike_meta : ℕ → Bool
is_ilike_meta c = c == 92 || c == b'%' || c == b'_'

unfoldable pub escape_ilike_pattern : Text → Text
unfolding is_ilike_meta
escape_ilike_pattern [] = []
escape_ilike_pattern (c ∷ s) =
    let rest = escape_ilike_pattern s in if is_ilike_meta c then 92 ∷ c ∷ rest else c ∷ rest

-- `_SLUG_SEPARATORS`, the complement of `_SLUG_INVALID`, and the class of `_SLUG_DASHES`.
unfoldable pub is_slug_separator : ℕ → Bool
unfolding is_space
is_slug_separator c = is_space c || c == b'_'

unfoldable pub is_slug_char : ℕ → Bool
is_slug_char c = (leb b'a' c && leb c b'z') || (leb b'0' c && leb c b'9') || c == b'-'

abbrev pub is_dash : ℕ → Bool
is_dash c = c == b'-'

module _ (cases : CaseMap) where
  unfoldable pub normalize_slug : Text → Text
  unfolding is_slug_separator is_slug_char sub_runs strip
  normalize_slug slug =
      let value = sub_runs is_slug_separator b'-' false (cases.lower (strip is_space slug)) in
      let valid = select is_slug_char value in strip is_dash (sub_runs is_dash b'-' false valid)

  unfoldable pub normalize_sku : Text → Text
  unfolding strip
  normalize_sku sku = cases.upper (strip is_space sku)

unfoldable pub normalize_phone : Text → Text
unfolding strip is_space
normalize_phone phone = remove is_space (strip is_space phone)

-- `_PHONE_SEPARATORS`
unfoldable pub is_phone_separator : ℕ → Bool
unfolding is_space
is_phone_separator c = is_space c || c == b'(' || c == b')' || c == b'.' || c == b'-'

-- `s.startswith(prefix)` with `s.removeprefix(prefix)`: what follows the prefix.
unfoldable pub after_prefix : Text → Text → Option Text
after_prefix [] s = some s
after_prefix (c ∷ p) [] = none
after_prefix (c ∷ p) (d ∷ s) = if c == d then after_prefix p s else none

-- The digits behind the country code, for the two forms that are rewritten.
unfoldable pub national_part : Text → Option Text
unfolding after_prefix
national_part value = elim (after_prefix (codes "+84") value) [
  | some rest ↦ some rest
  | none ↦ if length value == 11 then after_prefix (codes "84") value else none
]

abbrev pub is_zero_digit : ℕ → Bool
is_zero_digit c = c == b'0'

-- The last lines of `normalize_vn_phone`.
unfoldable pub localized : Text → Option Text → Text
unfolding lstrip
localized value none = value
localized value (some national) =
    let subscriber = lstrip is_zero_digit national in
    if is_nonempty subscriber then b'0' ∷ subscriber else value

unfoldable pub normalize_vn_phone : Text → Text
unfolding localized national_part is_phone_separator strip
normalize_vn_phone phone =
    let value = remove is_phone_separator (strip is_space phone) in
    localized value (national_part value)
