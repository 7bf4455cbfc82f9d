-- ===== src/Core/Text/Stripping.antt =====
-- Stripping and removal, for a class of characters.
use green_garden_api.Prelude.{
  ℕ, ◌≡◌, refl, ap, Bool, false, [], ◌∷◌, ◌++◌, some, ==_refl, arith, Text, All, Bool-cases, inl,
  inr,
}
use green_garden_api.Core.Text.{lstrip, rstrip, strip, remove, after_prefix}

-- No character of the text is in the class.
abbrev pub IsFree : (ℕ → Bool) → Text → Type 0
IsFree p s = All (λ c. p c ≡ false) s

pub remove-IsFree : (p : ℕ → Bool) (s : Text) → IsFree p (remove p s)
remove-IsFree p [] = tt
remove-IsFree p (c ∷ s) = elim (Bool-cases (p c)) [
  | inl taken ↦ rw taken (remove-IsFree p s)
  | inr kept ↦ rw kept (kept, remove-IsFree p s)
]

pub remove_of_IsFree : (p : ℕ → Bool) (s : Text) → IsFree p s → remove p s ≡ s
remove_of_IsFree p [] h = refl
remove_of_IsFree p (c ∷ s) h = rw h.0 (ap (λ r. c ∷ r) (remove_of_IsFree p s h.1))

pub lstrip_of_IsFree : (p : ℕ → Bool) (s : Text) → IsFree p s → lstrip p s ≡ s
unfolding lstrip
lstrip_of_IsFree p [] h = refl
lstrip_of_IsFree p (c ∷ s) h = rw h.0

pub rstrip_of_IsFree : (p : ℕ → Bool) (s : Text) → IsFree p s → rstrip p s ≡ s
unfolding rstrip
rstrip_of_IsFree p [] h = refl
rstrip_of_IsFree p (c ∷ s) h = rw h.0 (ap (λ r. c ∷ r) (rstrip_of_IsFree p s h.1))

pub strip_of_IsFree : (p : ℕ → Bool) (s : Text) → IsFree p s → strip p s ≡ s
unfolding strip
strip_of_IsFree p s h = rw (lstrip_of_IsFree p s h) (rstrip_of_IsFree p s h)

module _ {κ} (P : ℕ → Type κ) where
  pub lstrip-All : (p : ℕ → Bool) (s : Text) → All P s → All P (lstrip p s)
  unfolding lstrip
  lstrip-All p [] h = tt
  lstrip-All p (c ∷ s) h = elim (Bool-cases (p c)) [
    | inl taken ↦ rw taken (lstrip-All p s h.1)
    | inr kept ↦ rw kept h
  ]

pub remove-append : (p : ℕ → Bool) (s t : Text) → remove p (s ++ t) ≡ remove p s ++ remove p t
remove-append p [] t = refl
remove-append p (c ∷ s) t = ground (arith, remove-append p s t)

pub after_prefix-append : (p s : Text) → after_prefix p (p ++ s) ≡ some s
unfolding after_prefix
after_prefix-append [] s = refl
after_prefix-append (c ∷ p) s = rw (==_refl c) (after_prefix-append p s)

rstrip_twice : (p : ℕ → Bool) (s : Text) → rstrip p (rstrip p s) ≡ rstrip p s
unfolding rstrip
rstrip_twice p [] = refl
rstrip_twice p (c ∷ s) = ground (arith, rstrip_twice p s)

strip_of_lstrip :
    (p : ℕ → Bool) (s : Text) → lstrip p (rstrip p (lstrip p s)) ≡ rstrip p (lstrip p s)
unfolding lstrip rstrip
strip_of_lstrip p [] = refl
strip_of_lstrip p (c ∷ s) = elim (Bool-cases (p c)) [
  | inl yes' ↦ rw yes' (strip_of_lstrip p s)
  | inr no' ↦ ground (arith, no')
]

pub strip_twice : (p : ℕ → Bool) (s : Text) → strip p (strip p s) ≡ strip p s
unfolding strip
strip_twice p s = rw (strip_of_lstrip p s) (rstrip_twice p (lstrip p s))
