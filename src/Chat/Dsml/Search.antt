-- ===== src/Chat/Dsml/Search.antt =====
-- What the search for a marker finds when more text follows.
use green_garden_api.Prelude.{
  ℕ, ◌≡◌, ◌∙◌, refl, ap, sym, true, false, Option, none, some, [], ◌∷◌, ◌++◌, Text, ◌==◌,
  Bool-cases, inl, inr, eq_of_some,
}
use green_garden_api.Chat.Dsml.{
  begins_marker, may_be_marker, moved, search_marker, before_or, split_last,
}
use green_garden_api.Chat.Dsml.Growth.{begins_marker-grows, begins_marker-append}
use green_garden_api.Chat.Dsml.Runs.{IsPlain, IsClosed}

-- A result of the search, with a text before it.
abbrev pub shifted : Text → Option (Text × Text) → Option (Text × Text)
shifted e none = none
shifted e (some (before, rest)) = some (e ++ before, rest)

pub shifted-nil : (o : Option (Text × Text)) → shifted [] o ≡ o
shifted-nil none = refl
shifted-nil (some (before, rest)) = refl

pub moved-shifted :
    (c : ℕ) (e : Text) (o : Option (Text × Text)) → moved c (shifted e o) ≡ shifted (c ∷ e) o
moved-shifted c e none = refl
moved-shifted c e (some (before, rest)) = refl

pub true≢false : {P : Type 0} → true ≡ false → P
true≢false k = absurd (clash k)
  where
    clash : true ≡ false → ⊥
    clash h = cc

pub search-in :
    (c : ℕ) (s : Text) → begins_marker (c ∷ s) ≡ true → search_marker (c ∷ s) ≡ some ([], c ∷ s)
unfolding search_marker
search-in c s h = rw h refl

pub search-on :
    (c : ℕ) (s : Text)
    → begins_marker (c ∷ s) ≡ false
    → search_marker (c ∷ s) ≡ moved c (search_marker s)
unfolding search_marker
search-on c s h = rw h refl

pub search-nil : search_marker [] ≡ none
unfolding search_marker
search-nil = refl

pub not_open : (c : ℕ) (s : Text) → (c == b'<') ≡ false → begins_marker (c ∷ s) ≡ false
unfolding begins_marker
not_open c s h = rw h refl

pub closed-search : (s : Text) → IsClosed s → search_marker s ≡ none
unfolding search_marker
closed-search [] h = refl
closed-search (c ∷ s) h = rw (not_open c s h.0, closed-search s h.1) refl

pub closed-split_last : (s : Text) → IsClosed s → split_last s ≡ none
unfolding split_last
closed-split_last [] h = refl
closed-split_last (c ∷ s) h = rw (closed-split_last s h.1, h.0) refl

-- Nothing begins here with more text behind, where there is a `<` further on.
pub not_begun :
    (c : ℕ) (s u : Text)
    → IsPlain s
    → begins_marker (c ∷ s) ≡ false
    → (IsClosed s → may_be_marker s ≡ true → (c == b'<') ≡ true → ⊥)
    → begins_marker (c ∷ (s ++ u)) ≡ false
not_begun c s u plain now never = elim (Bool-cases (begins_marker (c ∷ (s ++ u)))) [
  | inr no' ↦ no'
  | inl yes' ↦
      let (open', may, closed) = begins_marker-grows c s u plain yes' now in
      absurd (never closed may open')
]

pub none≢some : {A : Type 0} {P : Type 0} {a : A} → none ≡ some a → P
none≢some {A} {P} {a} k = absurd (clash k)
  where
    clash : none ≡ some a → ⊥
    clash h = cc

abbrev pub extended : Text → Option (Text × Text) → Option (Text × Text)
extended u none = none
extended u (some (before, rest)) = some (before, rest ++ u)

pub moved-extended :
    (c : ℕ) (u : Text) (o : Option (Text × Text)) → moved c (extended u o) ≡ extended u (moved c o)
moved-extended c u none = refl
moved-extended c u (some (before, rest)) = refl

pub moved-none : (c : ℕ) (o : Option (Text × Text)) → moved c o ≡ none → o ≡ none
moved-none c none h = refl
moved-none c (some (before, rest)) h = none≢some (sym h)

pub some-moved :
    (c : ℕ) (o : Option (Text × Text)) {found : Text × Text}
    → moved c o ≡ some found
    → (first : Text × Text) × (o ≡ some first)
some-moved c none {found} h = none≢some h
some-moved c (some first) {found} h = (first, refl)

-- What a search found stays found.
pub search-append :
    (s u : Text) {found : Text × Text}
    → IsPlain s
    → search_marker s ≡ some found
    → search_marker (s ++ u) ≡ extended u (search_marker s)
search-append [] u {found} plain h = none≢some (sym search-nil ∙ h)
search-append (c ∷ s) u {found} plain h = elim (Bool-cases (begins_marker (c ∷ s))) [
  | inl yes' ↦
      search-in c (s ++ u) (begins_marker-append (c ∷ s) u yes')
      ∙ sym (ap (extended u) (search-in c s yes'))
  | inr no' ↦
      let (first, later) = some-moved c (search_marker s) (sym (search-on c s no') ∙ h) in
      let never = λ (closed : IsClosed s) (may : may_be_marker s ≡ true) (e : (c == b'<') ≡ true).
        none≢some {P = ⊥} (sym (closed-search s closed) ∙ later) in
      search-on c (s ++ u) (not_begun c s u plain.1 no' never)
      ∙ ap (moved c) (search-append s u plain.1 later)
      ∙ moved-extended c u (search_marker s)
      ∙ sym (ap (extended u) (search-on c s no'))
]

moved-eq :
    (c : ℕ) (s : Text) (o : Option (Text × Text))
    → ((found : Text × Text) → o ≡ some found → found.0 ++ found.1 ≡ s)
    → (found : Text × Text) → moved c o ≡ some found
    → found.0 ++ found.1 ≡ c ∷ s
moved-eq c s none same found h = none≢some h
moved-eq c s (some first) same found h =
    let e = eq_of_some h in
    ap (λ (r : Text × Text). r.0 ++ r.1) (sym e) ∙ ap (λ (r : Text). c ∷ r) (same first refl)

search-eq : (s : Text) (found : Text × Text) → search_marker s ≡ some found → found.0 ++ found.1 ≡ s
search-eq [] found h = none≢some (sym search-nil ∙ h)
search-eq (c ∷ s) found h = elim (Bool-cases (begins_marker (c ∷ s))) [
  | inl yes' ↦
      ap (λ (r : Text × Text). r.0 ++ r.1) (sym (eq_of_some (sym (search-in c s yes') ∙ h)))
  | inr no' ↦ moved-eq c s (search_marker s) (search-eq s) found (sym (search-on c s no') ∙ h)
]

-- A text that is cut at its first marker has none.
pub strip-clean : (s : Text) → search_marker (before_or (search_marker s) s) ≡ none
strip-clean [] =
    ap (λ (o : Option (Text × Text)). search_marker (before_or o [])) search-nil ∙ search-nil
strip-clean (c ∷ s) = elim (Bool-cases (begins_marker (c ∷ s))) [
  | inl yes' ↦
      ap (λ (o : Option (Text × Text)). search_marker (before_or o (c ∷ s))) (search-in c s yes')
      ∙ search-nil
  | inr no' ↦
      ap (λ (o : Option (Text × Text)). search_marker (before_or o (c ∷ s))) (search-on c s no')
      ∙ clean c s no' (search_marker s) refl (strip-clean s)
]
  where
    clean :
        (c : ℕ) (s : Text)
        → begins_marker (c ∷ s) ≡ false
        → (o : Option (Text × Text)) → search_marker s ≡ o
        → search_marker (before_or o s) ≡ none
        → search_marker (before_or (moved c o) (c ∷ s)) ≡ none
    clean c s no' none e h = search-on c s no' ∙ ap (moved c) h
    clean c s no' (some (before, rest)) e h = elim (Bool-cases (begins_marker (c ∷ before))) [
      | inr clear ↦ search-on c before clear ∙ ap (moved c) h
      | inl begun ↦
          let same : before ++ rest ≡ s = search-eq s (before, rest) e in
          let more : begins_marker (c ∷ (before ++ rest)) ≡ true =
            begins_marker-append (c ∷ before) rest begun in
          true≢false (sym more ∙ ap (λ (r : Text). begins_marker (c ∷ r)) same ∙ no')
    ]
