-- ===== src/Chat/Dsml/Growth.antt =====
-- A text that becomes a marker when more follows is one that the guard holds back.
use green_garden_api.Prelude.{
  ℕ, ◌≡◌, ◌∙◌, refl, ap, sym, Bool, true, false, [], ◌∷◌, ◌++◌, Text, codes, is_nonempty, ◌==◌, map,
  arith, Bool-cases, inl, inr,
}
use green_garden_api.Core.Text.{is_space, lstrip}
use green_garden_api.Chat.Dsml.{
  is_bar, fold, has_prefix, skip, skip_slash, begins_word, begins_bars, begins_marker,
  may_be_marker,
}
use green_garden_api.Chat.Dsml.Runs.{
  IsPlain, IsClosed, lstrip-append, lstrip-IsClosed, lstrip-IsPlain, is_space-lt, map-append,
  false≢true, after_bars, nil_of_empty, empty_run, two_runs, no_bars, begins_bars-bar,
  begins_bars-other, begins_bars-grows,
}

skip_slash-append : (a u : Text) → is_nonempty a ≡ true → skip_slash (a ++ u) ≡ skip_slash a ++ u
skip_slash-append [] u h = absurd (false≢true {P = ⊥} h)
skip_slash-append (c ∷ a) u h = elim (Bool-cases (c == b'/')) [
  | inl yes' ↦ rw yes' refl
  | inr no' ↦ rw no' refl
]

skip_slash-IsPlain : (a : Text) → IsPlain a → IsPlain (skip_slash a)
skip_slash-IsPlain [] h = tt
skip_slash-IsPlain (c ∷ a) h = elim (Bool-cases (c == b'/')) [
  | inl yes' ↦ rw yes' h.1
  | inr no' ↦ rw no' h
]

skip_slash-IsClosed : (a : Text) → IsClosed (skip_slash a) → IsClosed a
skip_slash-IsClosed [] h = tt
skip_slash-IsClosed (c ∷ a) h = elim (Bool-cases (c == b'/')) [
  | inl yes' ↦ (ground (arith, yes'), rw yes' at h)
  | inr no' ↦ rw no' at h
]

opening-IsClosed : (s : Text) → IsClosed (skip (skip_slash (skip s))) → IsClosed s
opening-IsClosed s h =
    lstrip-IsClosed is_space s is_space-lt
      (skip_slash-IsClosed (skip s) (lstrip-IsClosed is_space (skip_slash (skip s)) is_space-lt h))

may_be-after : (s : Text) → may_be_marker s ≡ after_bars (skip (skip_slash (skip s)))
unfolding may_be_marker
may_be-after s = refl

empty_skip : (s : Text) → s ≡ [] → skip s ≡ []
unfolding lstrip
empty_skip s e = ap (λ (r : Text). skip r) e

opening-empty : (s : Text) → skip (skip_slash (skip s)) ≡ [] → (may_be_marker s ≡ true) × IsClosed s
opening-empty s e =
    (may_be-after s ∙ ap (λ (r : Text). after_bars r) e ∙ no_bars, opening-IsClosed s (rw e tt))

opening-append :
    (s u : Text)
    → is_nonempty (skip s) ≡ true
    → is_nonempty (skip (skip_slash (skip s))) ≡ true
    → skip (skip_slash (skip (s ++ u))) ≡ skip (skip_slash (skip s)) ++ u
opening-append s u first second =
    let one : skip (s ++ u) ≡ skip s ++ u = lstrip-append is_space s u ∙ rw first refl in
    ap (λ (r : Text). skip (skip_slash r)) one
    ∙ ap (λ (r : Text). skip r) (skip_slash-append (skip s) u first)
    ∙ lstrip-append is_space (skip_slash (skip s)) u
    ∙ rw second refl

opening-grows :
    (s u : Text)
    → IsPlain s
    → begins_bars (skip (skip_slash (skip (s ++ u)))) ≡ true
    → begins_bars (skip (skip_slash (skip s))) ≡ false
    → (may_be_marker s ≡ true) × IsClosed s
opening-grows s u plain h k = elim (Bool-cases (is_nonempty (skip s))) [
  | inr none' ↦
      let nil = nil_of_empty (skip s) none' in
      opening-empty s (empty_skip (skip_slash (skip s)) (ap (λ (r : Text). skip_slash r) nil))
  | inl first ↦ elim (Bool-cases (is_nonempty (skip (skip_slash (skip s))))) [
    | inr none' ↦ opening-empty s (nil_of_empty _ none')
    | inl second ↦
        let plain' =
          lstrip-IsPlain is_space (skip_slash (skip s))
            (skip_slash-IsPlain (skip s) (lstrip-IsPlain is_space s plain)) in
        let (after, closed) =
          begins_bars-grows (skip (skip_slash (skip s))) u plain'
            (ap begins_bars (sym (opening-append s u first second)) ∙ h) k in
        (may_be-after s ∙ after, opening-IsClosed s closed)
  ]
]

-- A marker that more text completes begins at a `<` behind which the text may be one, and there is
-- no other `<` behind it.
pub begins_marker-grows :
    (c : ℕ) (s u : Text)
    → IsPlain s
    → begins_marker (c ∷ (s ++ u)) ≡ true
    → begins_marker (c ∷ s) ≡ false
    → ((c == b'<') ≡ true) × (may_be_marker s ≡ true) × IsClosed s
unfolding begins_marker
begins_marker-grows c s u plain h k =
    let open' : (c == b'<') ≡ true = ground (arith, h) in
    let (may, closed) = opening-grows s u plain (ground (arith, h)) (ground (arith, k, open')) in
    (open', may, closed)

has_prefix-append : (w a b : Text) → has_prefix w a ≡ true → has_prefix w (a ++ b) ≡ true
unfolding has_prefix
has_prefix-append [] a b h = refl
has_prefix-append (c ∷ w) [] b h = absurd (false≢true {P = ⊥} h)
has_prefix-append (c ∷ w) (d ∷ a) b h = ground (arith, h, has_prefix-append w a b)

nonempty_of : (f : Text → Bool) (r : Text) → f [] ≡ false → f r ≡ true → is_nonempty r ≡ true
nonempty_of f [] e h = absurd (false≢true {P = ⊥} (sym e ∙ h))
nonempty_of f (c ∷ r) e h = refl

begins_word-append : (s u : Text) → begins_word s ≡ true → begins_word (s ++ u) ≡ true
unfolding begins_word
begins_word-append s u h = rw (map-append fold s u) (
    ground (
      arith,
      h,
      has_prefix-append (codes "dsml") (map fold s) (map fold u),
      has_prefix-append (codes "tool") (map fold s) (map fold u),
    ))

no_begun_word : begins_word [] ≡ false
unfolding begins_word has_prefix
no_begun_word = refl

no_begun_bars : begins_bars [] ≡ false
unfolding begins_bars
no_begun_bars = refl

begins_bars-append : (s u : Text) → begins_bars s ≡ true → begins_bars (s ++ u) ≡ true
begins_bars-append [] u h = absurd (false≢true {P = ⊥} (sym no_begun_bars ∙ h))
begins_bars-append (c ∷ s) u h = elim (Bool-cases (is_bar c)) [
  | inr none' ↦ absurd (false≢true {P = ⊥} (sym (begins_bars-other c s none') ∙ h))
  | inl bar ↦
      let word = sym (begins_bars-bar c s bar) ∙ h in
      let some' = nonempty_of begins_word (skip (lstrip is_bar s)) no_begun_word word in
      begins_bars-bar c (s ++ u) bar
      ∙ ap begins_word (two_runs is_bar is_space s u some')
      ∙ begins_word-append (skip (lstrip is_bar s)) u word
]

opening_first :
    (s : Text) → is_nonempty (skip (skip_slash (skip s))) ≡ true → is_nonempty (skip s) ≡ true
opening_first s h = elim (Bool-cases (is_nonempty (skip s))) [
  | inl yes' ↦ yes'
  | inr no' ↦
      let nil = ap (λ (r : Text). skip_slash r) (nil_of_empty (skip s) no') in
      absurd (empty_run is_space (skip_slash (skip s)) (ap (λ (r : Text). is_nonempty r) nil) h)
]

-- More text behind a marker changes nothing.
pub begins_marker-append : (s u : Text) → begins_marker s ≡ true → begins_marker (s ++ u) ≡ true
unfolding begins_marker
begins_marker-append [] u h = absurd (false≢true {P = ⊥} h)
begins_marker-append (c ∷ s) u h =
    let body : begins_bars (skip (skip_slash (skip s))) ≡ true = ground (arith, h) in
    let second = nonempty_of begins_bars (skip (skip_slash (skip s))) no_begun_bars body in
    let later =
      ap begins_bars (opening-append s u (opening_first s second) second)
      ∙ begins_bars-append (skip (skip_slash (skip s))) u body in
    ground (arith, h, later)
