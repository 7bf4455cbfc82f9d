-- ===== src/Chat/Dsml/Runs.antt =====
-- The walks of the regular expressions over runs of white space and bars, and the words behind them,
-- with more text behind.
use green_garden_api.Prelude.{
  le→leb, ℕ, ◌≤◌, ◌≡◌, ◌∙◌, refl, ap, sym, Bool, true, false, ◌&&◌, ◌||◌, [], ◌∷◌, ◌++◌, Text,
  codes, is_nonempty, leb, ◌==◌, if◌then◌else◌, length, map, all, All, arith, Bool-cases, inl, inr,
}
use green_garden_api.Core.Text.{is_space, lstrip, ascii_lower}
use green_garden_api.Chat.Dsml.{
  is_bar, fold, has_prefix, skip, begins_word, begins_bars, is_letter, may_be_word, begins_bar,
}

-- No character is U+017F, or a `<`.
abbrev pub IsPlain : Text → Type 0
IsPlain s = All (λ (c : ℕ). (c == 0x17f) ≡ false) s

abbrev pub IsClosed : Text → Type 0
IsClosed s = All (λ (c : ℕ). (c == b'<') ≡ false) s

pub lstrip-append :
    (p : ℕ → Bool) (s u : Text)
    → lstrip p (s ++ u) ≡ (if is_nonempty (lstrip p s) then lstrip p s ++ u else lstrip p u)
unfolding lstrip
lstrip-append p [] u = refl
lstrip-append p (c ∷ s) u = elim (Bool-cases (p c)) [
  | inl yes' ↦ rw yes' (lstrip-append p s u)
  | inr no' ↦ rw no' refl
]

pub lstrip-IsClosed :
    (p : ℕ → Bool) (s : Text)
    → ((c : ℕ) → p c ≡ true → (c == b'<') ≡ false)
    → IsClosed (lstrip p s)
    → IsClosed s
unfolding lstrip
lstrip-IsClosed p [] none' h = tt
lstrip-IsClosed p (c ∷ s) none' h = elim (Bool-cases (p c)) [
  | inl yes' ↦ (none' c yes', lstrip-IsClosed p s none' (rw yes' at h))
  | inr no' ↦ rw no' at h
]

pub lstrip-IsPlain : (p : ℕ → Bool) (s : Text) → IsPlain s → IsPlain (lstrip p s)
unfolding lstrip
lstrip-IsPlain p [] h = tt
lstrip-IsPlain p (c ∷ s) h = elim (Bool-cases (p c)) [
  | inl yes' ↦ rw yes' (lstrip-IsPlain p s h.1)
  | inr no' ↦ rw no' h
]

pub is_space-lt : (c : ℕ) → is_space c ≡ true → (c == b'<') ≡ false
unfolding is_space
is_space-lt c h = ground (arith, h)

pub is_bar-lt : (c : ℕ) → is_bar c ≡ true → (c == b'<') ≡ false
unfolding is_bar
is_bar-lt c h = ground (arith, h)

pub map-fold : (s : Text) → IsPlain s → map fold s ≡ map ascii_lower s
unfolding fold
map-fold [] h = refl
map-fold (c ∷ s) h = rw (h.0, map-fold s h.1) refl

-- A prefix of a longer text is a prefix of it, or goes on behind it.
pub prefix-split :
    (w a b : Text) → has_prefix w (a ++ b) ≡ true → has_prefix w a ≡ false → has_prefix a w ≡ true
unfolding has_prefix
prefix-split [] a b h k = ground (arith, h, k)
prefix-split (c ∷ w) [] b h k = refl
prefix-split (c ∷ w) (d ∷ a) b h k = ground (arith, h, k, prefix-split w a b)

abbrev pub is_small : ℕ → Bool
is_small c = leb b'a' c && leb c b'z'

pub lower-letter :
    (c d : ℕ)
    → is_small d ≡ true
    → (ascii_lower c == d) ≡ true
    → (is_letter c ≡ true) × ((c == b'<') ≡ false)
unfolding ascii_lower is_letter
lower-letter c d h k = (ground (arith, h, k), ground (arith, h, k))

-- Letters that begin a word of small letters.
pub prefix-letters :
    (s w : Text)
    → all is_small w ≡ true
    → has_prefix (map ascii_lower s) w ≡ true
    → (all is_letter s ≡ true) × (length s ≤ length w) × IsClosed s
unfolding has_prefix
prefix-letters [] w small h = (refl, omega arith, tt)
prefix-letters (c ∷ s) [] small h = absurd (clash h)
  where
    clash : false ≡ true → ⊥
    clash k = cc
prefix-letters (c ∷ s) (d ∷ w) small h =
    let first = lower-letter c d (ground (arith, small)) (ground (arith, h)) in
    let later = prefix-letters s w (ground (arith, small)) (ground (arith, h)) in
    (ground (arith, first.0, later.0), omega (arith, later.1), (first.1, later.2))

pub map-append : (f : ℕ → ℕ) (s u : Text) → map f (s ++ u) ≡ map f s ++ map f u
map-append f [] u = refl
map-append f (c ∷ s) u = ap (λ r. f c ∷ r) (map-append f s u)

pub false≢true : {P : Type 0} → false ≡ true → P
false≢true k = absurd (clash k)
  where
    clash : false ≡ true → ⊥
    clash h = cc

pub word_part :
    (w s : Text)
    → all is_small w ≡ true
    → length w ≡ 4
    → has_prefix (map ascii_lower s) w ≡ true
    → (all is_letter s ≡ true) × (leb (length s) 4 ≡ true) × IsClosed s
word_part w s small four h =
    let (letters, short, closed) = prefix-letters s w small h in
    (letters, le→leb (length s) 4 (omega (arith, short, four)), closed)

-- The word of a marker.
pub begins_word-grows :
    (s u : Text)
    → IsPlain s
    → begins_word (s ++ u) ≡ true
    → begins_word s ≡ false
    → (may_be_word true s ≡ true) × IsClosed s
unfolding begins_word may_be_word
begins_word-grows s u plain h k =
    let folded : map fold (s ++ u) ≡ map ascii_lower s ++ map fold u =
      map-append fold s u ∙ ap (λ (r : Text). r ++ map fold u) (map-fold s plain) in
    let low = map ascii_lower s in
    let grown : (has_prefix (codes "dsml") (low ++ map fold u)
          || has_prefix (codes "tool") (low ++ map fold u))
        ≡ true =
      rw folded at h in
    let not_yet : (has_prefix (codes "dsml") low || has_prefix (codes "tool") low) ≡ false =
      rw (map-fold s plain) at k in
    elim (Bool-cases (has_prefix (codes "dsml") (low ++ map fold u))) [
      | inl dsml ↦
          let begun = prefix-split (codes "dsml") low (map fold u) dsml (ground (arith, not_yet)) in
          let (letters, short, closed) = word_part (codes "dsml") s refl refl begun in
          (ground (arith, letters, short, begun), closed)
      | inr other ↦
          let begun =
            prefix-split (codes "tool") low (map fold u) (ground (arith, grown, other))
              (ground (arith, not_yet)) in
          let (letters, short, closed) = word_part (codes "tool") s refl refl begun in
          (ground (arith, letters, short, begun), closed)
    ]

-- What stands behind a class of characters that a walk skips.
abbrev pub after_bars : Text → Bool
after_bars s = may_be_word (begins_bar s) (skip (lstrip is_bar s))

pub after_bars-IsClosed :
    (c : ℕ) (s : Text) → is_bar c ≡ true → IsClosed (skip (lstrip is_bar s)) → IsClosed (c ∷ s)
after_bars-IsClosed c s bar h = (
  is_bar-lt c bar,
  lstrip-IsClosed is_bar s is_bar-lt (lstrip-IsClosed is_space (lstrip is_bar s) is_space-lt h),
)

pub nil_of_empty : (r : Text) → is_nonempty r ≡ false → r ≡ []
nil_of_empty [] h = refl
nil_of_empty (c ∷ r) h = absurd (false≢true {P = ⊥} (sym h))

pub empty_run :
    (q : ℕ → Bool) (r : Text) → is_nonempty r ≡ false → is_nonempty (lstrip q r) ≡ true → ⊥
unfolding lstrip
empty_run q [] e k = false≢true {P = ⊥} k
empty_run q (c ∷ r) e k = false≢true {P = ⊥} (sym e)

-- The same walk over two runs, with more text behind.
pub two_runs :
    (p q : ℕ → Bool) (s u : Text)
    → is_nonempty (lstrip q (lstrip p s)) ≡ true
    → lstrip q (lstrip p (s ++ u)) ≡ lstrip q (lstrip p s) ++ u
two_runs p q s u h = elim (Bool-cases (is_nonempty (lstrip p s))) [
  | inl some' ↦
      let first : lstrip p (s ++ u) ≡ lstrip p s ++ u = lstrip-append p s u ∙ rw some' refl in
      ap (λ (r : Text). lstrip q r) first ∙ lstrip-append q (lstrip p s) u ∙ rw h refl
  | inr none' ↦ absurd (empty_run q (lstrip p s) none' h)
]

pub no_word : may_be_word true [] ≡ true
unfolding may_be_word
no_word = refl

pub no_bars : after_bars [] ≡ true
unfolding may_be_word lstrip
no_bars = refl

pub lstrip-in : (p : ℕ → Bool) (c : ℕ) (s : Text) → p c ≡ true → lstrip p (c ∷ s) ≡ lstrip p s
unfolding lstrip
lstrip-in p c s h = rw h refl

pub begins_bars-bar :
    (c : ℕ) (s : Text)
    → is_bar c ≡ true
    → begins_bars (c ∷ s) ≡ begins_word (skip (lstrip is_bar s))
unfolding begins_bars
begins_bars-bar c s bar = rw bar refl

pub begins_bars-other : (c : ℕ) (s : Text) → is_bar c ≡ false → begins_bars (c ∷ s) ≡ false
unfolding begins_bars
begins_bars-other c s other = rw other refl

pub after_bars-bar :
    (c : ℕ) (s : Text)
    → is_bar c ≡ true
    → after_bars (c ∷ s) ≡ may_be_word true (skip (lstrip is_bar s))
after_bars-bar c s bar = rw (bar, lstrip-in is_bar c s bar) refl

pub begins_bars-grows :
    (s u : Text)
    → IsPlain s
    → begins_bars (s ++ u) ≡ true
    → begins_bars s ≡ false
    → (after_bars s ≡ true) × IsClosed s
begins_bars-grows [] u plain h k = (no_bars, tt)
begins_bars-grows (c ∷ s) u plain h k = elim (Bool-cases (is_bar c)) [
  | inr none' ↦ absurd (false≢true {P = ⊥} (sym (begins_bars-other c (s ++ u) none') ∙ h))
  | inl bar ↦
      let rest = skip (lstrip is_bar s) in
      elim (Bool-cases (is_nonempty rest)) [
        | inr none' ↦
            let nil = nil_of_empty rest none' in
            (
              after_bars-bar c s bar ∙ ap (λ (r : Text). may_be_word true r) nil ∙ no_word,
              after_bars-IsClosed c s bar (rw nil tt),
            )
        | inl some' ↦
            let more = two_runs is_bar is_space s u some' in
            let (word, closed) =
              begins_word-grows rest u
                (lstrip-IsPlain is_space (lstrip is_bar s) (lstrip-IsPlain is_bar s plain.1))
                (ap begins_word (sym more) ∙ sym (begins_bars-bar c (s ++ u) bar) ∙ h)
                (sym (begins_bars-bar c s bar) ∙ k) in
            (after_bars-bar c s bar ∙ word, after_bars-IsClosed c s bar closed)
      ]
]
