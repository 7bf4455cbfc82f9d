-- ===== src/Core/Text/Slug.antt =====
-- The form of a normalised slug, and that normalising it again changes nothing.
use green_garden_api.Prelude.{
  ℕ, ◌≤◌, ◌≡◌, refl, ◌∙◌, ap, Bool, true, false, not, ◌&&◌, [], ◌∷◌, Text, All, select, is_nonempty,
  arith, if◌then◌else◌, Bool-cases, inl, inr, ◌⊎◌, ◌==◌, map,
}
use green_garden_api.Core.Text.{
  CaseMap, ascii_lower, is_space, is_slug_separator, is_slug_char, is_dash, sub_runs, lstrip,
  rstrip, strip, normalize_slug,
}
use green_garden_api.Core.Text.Stripping.{IsFree, strip_of_IsFree}

-- Lower-case letters and digits in words that single dashes separate; the flag says that the text
-- before ends with a dash, or is empty.
abbrev pub IsWords : Bool → Text → Type 0
IsWords dash [] = dash ≡ false
IsWords dash (c ∷ s) =
    (is_slug_char c ≡ true) × ((c == b'-') && dash ≡ false) × IsWords (c == b'-') s

-- A slug is empty, or words joined by single dashes.
abbrev pub IsSlug : Text → Type 0
IsSlug s = (s ≡ []) ⊎ IsWords true s

-- The same with no demand on the end of the text.
abbrev IsSingle : Bool → Text → Type 0
IsSingle dash [] = Unit
IsSingle dash (c ∷ s) =
    (is_slug_char c ≡ true) × ((c == b'-') && dash ≡ false) × IsSingle (c == b'-') s

select-All : (p : ℕ → Bool) (s : Text) → All (λ c. p c ≡ true) (select p s)
select-All p [] = tt
select-All p (c ∷ s) = elim (Bool-cases (p c)) [
  | inl kept ↦ rw kept (kept, select-All p s)
  | inr dropped ↦ rw dropped (select-All p s)
]

dash-is_slug_char : is_slug_char b'-' ≡ true
unfolding is_slug_char
dash-is_slug_char = refl

sub_runs-IsSingle :
    (begun : Bool) (s : Text)
    → All (λ c. is_slug_char c ≡ true) s
    → IsSingle begun (sub_runs is_dash b'-' begun s)
unfolding sub_runs
sub_runs-IsSingle begun [] h = tt
sub_runs-IsSingle true (c ∷ s) h = elim (Bool-cases (c == b'-')) [
  | inl dash ↦ rw dash (sub_runs-IsSingle true s h.1)
  | inr other ↦ rw other (h.0, rw other refl, rw other (sub_runs-IsSingle false s h.1))
]
sub_runs-IsSingle false (c ∷ s) h = elim (Bool-cases (c == b'-')) [
  | inl dash ↦ rw dash (dash-is_slug_char, refl, sub_runs-IsSingle true s h.1)
  | inr other ↦ rw other (h.0, rw other refl, rw other (sub_runs-IsSingle false s h.1))
]

lstrip-IsSingle : (dash : Bool) (s : Text) → IsSingle dash s → IsSingle true (lstrip is_dash s)
unfolding lstrip
lstrip-IsSingle dash [] h = tt
lstrip-IsSingle dash (c ∷ s) h = elim (Bool-cases (c == b'-')) [
  | inl begins ↦ rw begins (lstrip-IsSingle (c == b'-') s h.2)
  | inr other ↦ rw other (h.0, rw other refl, h.2)
]

rstrip-IsWords :
    (dash : Bool) (s : Text)
    → IsSingle dash s
    → (rstrip is_dash s ≡ []) ⊎ IsWords dash (rstrip is_dash s)
unfolding rstrip
rstrip-IsWords dash [] h = inl refl
rstrip-IsWords dash (c ∷ s) h = elim (rstrip-IsWords (c == b'-') s h.2) [
  | inl nothing ↦ elim (Bool-cases (c == b'-')) [
    | inl ends ↦ inl (rw (nothing, ends) refl)
    | inr other ↦ inr (rw (nothing, other) (h.0, rw other refl, other))
  ]
  | inr more ↦ inr (words-cons dash c (rstrip is_dash s) h.0 h.1 more)
]
  where
    words-cons :
        (d : Bool) (k : ℕ) (r : Text)
        → is_slug_char k ≡ true
        → ((k == b'-') && d ≡ false)
        → IsWords (k == b'-') r
        → IsWords d (if (k == b'-') && not (is_nonempty r) then [] else k ∷ r)
    words-cons d k [] a b w = rw w (a, b, w)
    words-cons d k (x ∷ r) a b w = ground arith

-- A normalised slug is a slug: nothing, or words of `a-z0-9` joined by single dashes.
pub normalize_slug-IsSlug : (cases : CaseMap) (slug : Text) → IsSlug (normalize_slug cases slug)
unfolding normalize_slug
normalize_slug-IsSlug cases slug =
    let value = sub_runs is_slug_separator b'-' false (cases.lower (strip is_space slug)) in
    let valid = select is_slug_char value in
    rstrip-IsWords true (lstrip is_dash (sub_runs is_dash b'-' false valid)) (
      lstrip-IsSingle false (sub_runs is_dash b'-' false valid)
        (sub_runs-IsSingle false valid (select-All is_slug_char value)))

IsWords-chars : (d : Bool) (s : Text) → IsWords d s → All (λ c. is_slug_char c ≡ true) s
IsWords-chars d [] h = tt
IsWords-chars d (c ∷ s) h = (h.0, IsWords-chars (c == b'-') s h.2)

separator-of-slug : (c : ℕ) → is_slug_char c ≡ true → is_slug_separator c ≡ false
unfolding is_slug_char is_slug_separator is_space
separator-of-slug c h = ground arith

space-of-slug : (c : ℕ) → is_slug_char c ≡ true → is_space c ≡ false
unfolding is_slug_char is_space
space-of-slug c h = ground arith

ascii_of-slug : (c : ℕ) → is_slug_char c ≡ true → c ≤ 127
unfolding is_slug_char
ascii_of-slug c h = ground arith

lower-of-slug : (c : ℕ) → is_slug_char c ≡ true → ascii_lower c ≡ c
unfolding is_slug_char ascii_lower
lower-of-slug c h = ground arith

All-map {κ} :
    {P : ℕ → Type κ} (s : Text)
    → ((c : ℕ) → is_slug_char c ≡ true → P c)
    → All (λ c. is_slug_char c ≡ true) s
    → All P s
All-map [] f h = tt
All-map (c ∷ s) f h = (f c h.0, All-map s f h.1)

map-ascii_lower : (s : Text) → All (λ c. is_slug_char c ≡ true) s → map ascii_lower s ≡ s
map-ascii_lower [] h = refl
map-ascii_lower (c ∷ s) h = cc (lower-of-slug c h.0, map-ascii_lower s h.1)

lower-slug : (cases : CaseMap) (s : Text) → All (λ c. is_slug_char c ≡ true) s → cases.lower s ≡ s
lower-slug cases s h = cases.lower_ascii s (All-map s ascii_of-slug h) ∙ map-ascii_lower s h

select_of_All : (p : ℕ → Bool) (s : Text) → All (λ c. p c ≡ true) s → select p s ≡ s
select_of_All p [] h = refl
select_of_All p (c ∷ s) h = rw h.0 (ap (λ r. c ∷ r) (select_of_All p s h.1))

sub_runs_of_IsFree :
    (p : ℕ → Bool) (r : ℕ) (begun : Bool) (s : Text) → IsFree p s → sub_runs p r begun s ≡ s
unfolding sub_runs
sub_runs_of_IsFree p r begun [] h = refl
sub_runs_of_IsFree p r begun (c ∷ s) h =
    rw h.0 (ap (λ t. c ∷ t) (sub_runs_of_IsFree p r false s h.1))

sub_runs_of_IsWords : (d : Bool) (s : Text) → IsWords d s → sub_runs is_dash b'-' d s ≡ s
unfolding sub_runs
sub_runs_of_IsWords d [] h = refl
sub_runs_of_IsWords d (c ∷ s) h = ground (arith, sub_runs_of_IsWords (c == b'-') s h.2)

lstrip_of_IsWords : (s : Text) → IsWords true s → lstrip is_dash s ≡ s
unfolding lstrip
lstrip_of_IsWords [] h = refl
lstrip_of_IsWords (c ∷ s) h = ground (arith, h.1)

rstrip_of_IsWords : (d : Bool) (s : Text) → IsWords d s → rstrip is_dash s ≡ s
unfolding rstrip
rstrip_of_IsWords d [] h = refl
rstrip_of_IsWords d (c ∷ []) h = rw h.2 refl
rstrip_of_IsWords d (c ∷ e ∷ s) h =
    let ih = rstrip_of_IsWords (c == b'-') (e ∷ s) h.2 in ground (arith, ih)

IsWords-false : (s : Text) → IsWords true s → IsWords false s
IsWords-false [] h = refl
IsWords-false (c ∷ s) h = (h.0, ground arith, h.2)

normalize_slug_of_IsWords :
    (cases : CaseMap) (s : Text) → IsWords true s → normalize_slug cases s ≡ s
unfolding normalize_slug
normalize_slug_of_IsWords cases s h =
    let chars = IsWords-chars true s h in
    rw (strip_of_IsFree is_space s (All-map s space-of-slug chars)) (
      rw (lower-slug cases s chars) (
        rw (sub_runs_of_IsFree is_slug_separator b'-' false s (All-map s separator-of-slug chars)) (
          rw (select_of_All is_slug_char s chars) (
            rw (sub_runs_of_IsWords false s (IsWords-false s h))
              (rw (lstrip_of_IsWords s h) (rstrip_of_IsWords true s h))))))

normalize_slug-nil : (cases : CaseMap) → normalize_slug cases [] ≡ []
unfolding normalize_slug
normalize_slug-nil cases = rw (lower-slug cases [] tt) refl

-- Every slug is its own normal form.
pub normalize_slug_of_IsSlug : (cases : CaseMap) (s : Text) → IsSlug s → normalize_slug cases s ≡ s
normalize_slug_of_IsSlug cases s (inl e) = rw e (normalize_slug-nil cases)
normalize_slug_of_IsSlug cases s (inr h) = normalize_slug_of_IsWords cases s h

-- Whatever Unicode's case tables are, normalising a slug twice is normalising it once, and the
-- result is empty or consists of words of `a-z0-9` joined by single dashes.
pub normalize_slug_canonical :
    (cases : CaseMap) (slug : Text)
    → IsSlug (normalize_slug cases slug)
      × (normalize_slug cases (normalize_slug cases slug) ≡ normalize_slug cases slug)
normalize_slug_canonical cases slug = (
  normalize_slug-IsSlug cases slug,
  normalize_slug_of_IsSlug cases (normalize_slug cases slug) (normalize_slug-IsSlug cases slug),
)
