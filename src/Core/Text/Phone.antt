-- ===== src/Core/Text/Phone.antt =====
-- Phone numbers: one canonical form for the spellings of a Vietnamese number.
use green_garden_api.Prelude.{
  ℕ, ◌≡◌, refl, ◌∙◌, true, false, Option, none, some, [], ◌∷◌, ◌++◌, Text, codes, is_nonempty,
  arith, Bool-cases, inl, inr, length,
}
use green_garden_api.Core.Text.{
  is_space, is_phone_separator, lstrip, strip, remove, after_prefix, national_part, is_zero_digit,
  localized, normalize_vn_phone,
}
use green_garden_api.Core.Text.Stripping.{
  after_prefix-append, IsFree, remove-IsFree, remove_of_IsFree, strip_of_IsFree, lstrip-All,
}

is_space-of-separator : (c : ℕ) → is_phone_separator c ≡ false → is_space c ≡ false
unfolding is_phone_separator
is_space-of-separator c h = ground arith

IsFree-space : (s : Text) → IsFree is_phone_separator s → IsFree is_space s
IsFree-space [] h = tt
IsFree-space (c ∷ s) h = (is_space-of-separator c h.0, IsFree-space s h.1)

-- A text without separators goes to the last lines as it is.
normalize_vn_phone_of_IsFree :
    (s : Text) → IsFree is_phone_separator s → normalize_vn_phone s ≡ localized s (national_part s)
unfolding normalize_vn_phone
normalize_vn_phone_of_IsFree s h =
    rw (strip_of_IsFree is_space s (IsFree-space s h))
      (rw (remove_of_IsFree is_phone_separator s h))

after_prefix-IsFree :
    (p s r : Text)
    → IsFree is_phone_separator s
    → after_prefix p s ≡ some r
    → IsFree is_phone_separator r
unfolding after_prefix
after_prefix-IsFree [] s r h e = ground arith
after_prefix-IsFree (c ∷ p) [] r h e = cc
after_prefix-IsFree (c ∷ p) (d ∷ s) r h e = ground (arith, after_prefix-IsFree p s r h.1)

national_part-IsFree :
    (s r : Text)
    → IsFree is_phone_separator s
    → national_part s ≡ some r
    → IsFree is_phone_separator r
unfolding national_part
national_part-IsFree s r h e =
    ground (arith, after_prefix-IsFree (codes "+84") s r h, after_prefix-IsFree (codes "84") s r h)

zero_free : is_phone_separator b'0' ≡ false
unfolding is_phone_separator is_space
zero_free = refl

localized-IsFree :
    (s : Text) (o : Option Text)
    → IsFree is_phone_separator s
    → ((r : Text) → o ≡ some r → IsFree is_phone_separator r)
    → IsFree is_phone_separator (localized s o)
unfolding localized
localized-IsFree s none h k = h
localized-IsFree s (some r) h k = elim (Bool-cases (is_nonempty (lstrip is_zero_digit r))) [
  | inl left ↦
      rw left (zero_free, lstrip-All (λ c. is_phone_separator c ≡ false) is_zero_digit r (k r refl))
  | inr nothing ↦ rw nothing h
]

-- A normalised number holds no white space and none of `( ) . -`.
pub normalize_vn_phone-IsFree :
    (phone : Text) → IsFree is_phone_separator (normalize_vn_phone phone)
unfolding normalize_vn_phone
normalize_vn_phone-IsFree phone =
    let value = remove is_phone_separator (strip is_space phone) in
    let free = remove-IsFree is_phone_separator (strip is_space phone) in
    localized-IsFree value (national_part value) free (λ r e. national_part-IsFree value r free e)

-- A local number is not rewritten.
national_part-zero : (s : Text) → national_part (b'0' ∷ s) ≡ none
unfolding national_part after_prefix
national_part-zero s = ground arith

-- What the last lines return is not rewritten again.
localized-again :
    (s : Text) (o : Option Text)
    → national_part s ≡ o
    → localized (localized s o) (national_part (localized s o)) ≡ localized s o
unfolding localized
localized-again s none e = rw e refl
localized-again s (some r) e = elim (Bool-cases (is_nonempty (lstrip is_zero_digit r))) [
  | inl left ↦ rw left (rw (national_part-zero (lstrip is_zero_digit r)) refl)
  | inr nothing ↦ rw nothing (rw e (rw nothing refl))
]

-- Normalising a phone number twice is normalising it once.
pub normalize_vn_phone_idempotent :
    (phone : Text) → normalize_vn_phone (normalize_vn_phone phone) ≡ normalize_vn_phone phone
normalize_vn_phone_idempotent phone =
    normalize_vn_phone_of_IsFree (normalize_vn_phone phone) (normalize_vn_phone-IsFree phone)
    ∙ unfold normalize_vn_phone in
      localized-again (remove is_phone_separator (strip is_space phone)) _ refl

-- A subscriber number: nine characters, no separators among them, not begun by the trunk zero.
pub record IsSubscriber (s : Text) : Type 0 where
  pub free : IsFree is_phone_separator s
  pub begins : lstrip is_zero_digit s ≡ s
  pub nine : length s ≡ 9

is_nonempty_of_nine : (s : Text) → length s ≡ 9 → is_nonempty s ≡ true
is_nonempty_of_nine [] h = absurd (omega arith)
is_nonempty_of_nine (c ∷ s) h = refl

localized-subscriber :
    (value r s : Text)
    → lstrip is_zero_digit r ≡ s
    → length s ≡ 9
    → localized value (some r) ≡ b'0' ∷ s
unfolding localized
localized-subscriber value r s e h = rw e (rw (is_nonempty_of_nine s h) refl)

free_prefix :
    (is_phone_separator b'+' ≡ false)
    × (is_phone_separator b'8' ≡ false)
    × (is_phone_separator b'4' ≡ false)
unfolding is_phone_separator is_space
free_prefix = (refl, refl, refl)

national_part-plus : (r : Text) → national_part (codes "+84" ++ r) ≡ some r
unfolding national_part
national_part-plus r = rw (after_prefix-append (codes "+84") r) refl

national_part-bare : (s : Text) → length s ≡ 9 → national_part (codes "84" ++ s) ≡ some s
unfolding national_part after_prefix
national_part-bare s h = rw h refl

lstrip-zero : (s : Text) → lstrip is_zero_digit (b'0' ∷ s) ≡ lstrip is_zero_digit s
unfolding lstrip
lstrip-zero s = refl

-- For a subscriber number `s` of nine characters, `+84s`, `+840s`, `84s` and `0s` are all rewritten
-- to `0s`.
pub normalize_vn_phone_spellings :
    (s : Text)
    → IsSubscriber s
    → (normalize_vn_phone (codes "+84" ++ s) ≡ b'0' ∷ s)
      × (normalize_vn_phone (codes "+840" ++ s) ≡ b'0' ∷ s)
      × (normalize_vn_phone (codes "84" ++ s) ≡ b'0' ∷ s)
      × (normalize_vn_phone (b'0' ∷ s) ≡ b'0' ∷ s)
normalize_vn_phone_spellings s h =
    let (plus, eight, four) = free_prefix in
    (
      normalize_vn_phone_of_IsFree (codes "+84" ++ s) (plus, (eight, (four, h.free)))
          ∙ rw (national_part-plus s) (localized-subscriber _ s s h.begins h.nine),
      normalize_vn_phone_of_IsFree (codes "+840" ++ s) (plus, (eight, (four, (zero_free, h.free))))
          ∙ rw (national_part-plus (b'0' ∷ s))
              (localized-subscriber _ (b'0' ∷ s) s (lstrip-zero s ∙ h.begins) h.nine),
      normalize_vn_phone_of_IsFree (codes "84" ++ s) (eight, (four, h.free))
          ∙ rw (national_part-bare s h.nine) (localized-subscriber _ s s h.begins h.nine),
      normalize_vn_phone_of_IsFree (b'0' ∷ s) (zero_free, h.free)
          ∙ rw (national_part-zero s) (unfold localized in refl),
    )
