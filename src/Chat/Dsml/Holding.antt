-- ===== src/Chat/Dsml/Holding.antt =====
-- What the guard sends and what it holds back, of a text in which no marker is found yet.
use green_garden_api.Prelude.{
  ℕ, ◌≡◌, ◌∙◌, refl, ap, sym, true, false, Option, none, some, [], ◌∷◌, ◌++◌, Text, ◌==◌, ==→eq,
  Bool-cases, inl, inr,
}
use green_garden_api.Chat.Dsml.{
  begins_marker, may_be_marker, moved, search_marker, before_or, strip_tool_markup, also,
  split_last, held_from, hold,
}
use green_garden_api.Chat.Dsml.Runs.{IsPlain, IsClosed}
use green_garden_api.Chat.Dsml.Search.{
  shifted, shifted-nil, moved-shifted, true≢false, search-in, search-on, closed-split_last,
  not_begun, none≢some, moved-none,
}

-- A marker in the text and what follows begins in what is held back, or later.
abbrev pub Carries : Text → Text → Text × Text → Type 0
Carries s u held = search_marker (s ++ u) ≡ shifted held.0 (search_marker (held.1 ++ u))

pub Carries-on :
    (c : ℕ) (s u : Text) (held : Text × Text)
    → begins_marker (c ∷ (s ++ u)) ≡ false
    → Carries s u held
    → Carries (c ∷ s) u (c ∷ held.0, held.1)
Carries-on c s u held no' h =
    search-on c (s ++ u) no' ∙ ap (moved c) h ∙ moved-shifted c held.0 (search_marker (held.1 ++ u))

pub Carries-step :
    (c : ℕ) (s u : Text)
    → IsPlain s
    → begins_marker (c ∷ s) ≡ false
    → (o : Option (Text × Text)) → split_last s ≡ o
    → Carries s u (held_from s o)
    → Carries (c ∷ s) u (held_from (c ∷ s) (also c o s))
Carries-step c s u plain no' (some (before, behind)) e h =
    let never = λ (closed : IsClosed s) (may : may_be_marker s ≡ true) (k : (c == b'<') ≡ true).
      none≢some {P = ⊥} (sym (closed-split_last s closed) ∙ e) in
    let no_more = not_begun c s u plain no' never in
    elim (Bool-cases (may_be_marker behind)) [
      | inl may ↦ rw may (Carries-on c s u (before, b'<' ∷ behind) no_more (rw may at h))
      | inr closed ↦ rw closed (Carries-on c s u (s, []) no_more (rw closed at h))
    ]
Carries-step c s u plain no' none e h = elim (Bool-cases (c == b'<')) [
  | inr other ↦
      let never = λ (closed : IsClosed s) (may : may_be_marker s ≡ true) (k : (c == b'<') ≡ true).
        true≢false {P = ⊥} (sym k ∙ other) in
      rw other (Carries-on c s u (s, []) (not_begun c s u plain no' never) h)
  | inl open' ↦ elim (Bool-cases (may_be_marker s)) [
    | inl may ↦
        rw (open', may)
          (ap (λ (d : ℕ). search_marker (d ∷ (s ++ u))) (==→eq c b'<' open')
            ∙ sym (shifted-nil (search_marker (b'<' ∷ (s ++ u)))))
    | inr closed ↦
        let never = λ (all' : IsClosed s) (may : may_be_marker s ≡ true) (k : (c == b'<') ≡ true).
          true≢false {P = ⊥} (sym may ∙ closed) in
        rw (open', closed) (Carries-on c s u (s, []) (not_begun c s u plain no' never) h)
  ]
]

pub search-hold : (s u : Text) → IsPlain s → search_marker s ≡ none → Carries s u (hold s)
unfolding hold split_last
search-hold [] u plain h = sym (shifted-nil (search_marker u))
search-hold (c ∷ s) u plain h = elim (Bool-cases (begins_marker (c ∷ s))) [
  | inl yes' ↦ none≢some (sym h ∙ search-in c s yes')
  | inr no' ↦
      let later = moved-none c (search_marker s) (sym (search-on c s no') ∙ h) in
      Carries-step c s u plain.1 no' (split_last s) refl (search-hold s u plain.1 later)
]

abbrev pub IsCut : Text → Option (Text × Text) → Type 0
IsCut s none = Unit
IsCut s (some (before, behind)) = before ++ b'<' ∷ behind ≡ s

pub also-IsCut :
    (c : ℕ) (s : Text) (o : Option (Text × Text)) → IsCut s o → IsCut (c ∷ s) (also c o s)
also-IsCut c s (some (before, behind)) h = ap (λ (r : Text). c ∷ r) h
also-IsCut c s none h = elim (Bool-cases (c == b'<')) [
  | inl open' ↦ rw open' (ap (λ (d : ℕ). d ∷ s) (sym (==→eq c b'<' open')))
  | inr other ↦ rw other tt
]

pub split_last-IsCut : (s : Text) → IsCut s (split_last s)
unfolding split_last
split_last-IsCut [] = tt
split_last-IsCut (c ∷ s) = also-IsCut c s (split_last s) (split_last-IsCut s)

pub append-nil : (s : Text) → s ++ [] ≡ s
append-nil [] = refl
append-nil (c ∷ s) = ap (λ (r : Text). c ∷ r) (append-nil s)

-- What is sent and what is held back are the text.
pub held-append :
    (s : Text) (o : Option (Text × Text)) → IsCut s o → (held_from s o).0 ++ (held_from s o).1 ≡ s
held-append s none h = append-nil s
held-append s (some (before, behind)) h = elim (Bool-cases (may_be_marker behind)) [
  | inl may ↦ rw may h
  | inr closed ↦ rw closed (append-nil s)
]

pub hold-append : (s : Text) → (hold s).0 ++ (hold s).1 ≡ s
unfolding hold
hold-append s = held-append s (split_last s) (split_last-IsCut s)

pub IsPlain-append : (s t : Text) → IsPlain s → IsPlain t → IsPlain (s ++ t)
IsPlain-append [] t h k = k
IsPlain-append (c ∷ s) t h k = (h.0, IsPlain-append s t h.1 k)

pub IsPlain-end : (s t : Text) → IsPlain (s ++ t) → IsPlain t
IsPlain-end [] t h = h
IsPlain-end (c ∷ s) t h = IsPlain-end s t h.1

pub shifted-none : (e : Text) (o : Option (Text × Text)) → shifted e o ≡ none → o ≡ none
shifted-none e none h = refl
shifted-none e (some (before, rest)) h = none≢some (sym h)

pub held-search : (s : Text) → IsPlain s → search_marker s ≡ none → search_marker (hold s).1 ≡ none
held-search s plain h =
    let whole = ap (λ (r : Text). search_marker r) (append-nil s) ∙ h in
    let carried = sym (search-hold s [] plain h) ∙ whole in
    sym (ap (λ (r : Text). search_marker r) (append-nil (hold s).1))
    ∙ shifted-none (hold s).0 (search_marker ((hold s).1 ++ [])) carried

pub append_assoc : (a b c : Text) → (a ++ b) ++ c ≡ a ++ (b ++ c)
append_assoc [] b c = refl
append_assoc (d ∷ a) b c = ap (λ (r : Text). d ∷ r) (append_assoc a b c)

pub before-shifted :
    (e s : Text) (o : Option (Text × Text)) → before_or (shifted e o) (e ++ s) ≡ e ++ before_or o s
before-shifted e s none = refl
before-shifted e s (some (before, rest)) = refl

-- With nothing found yet, what is sent is what the whole text begins with.
pub strip-hold :
    (s u : Text)
    → IsPlain s
    → search_marker s ≡ none
    → strip_tool_markup (s ++ u) ≡ (hold s).0 ++ strip_tool_markup ((hold s).1 ++ u)
unfolding strip_tool_markup
strip-hold s u plain h =
    let e = (hold s).0 in
    let p = (hold s).1 in
    let whole : s ++ u ≡ e ++ (p ++ u) =
      ap (λ (r : Text). r ++ u) (sym (hold-append s)) ∙ append_assoc e p u in
    ap (λ (o : Option (Text × Text)). before_or o (s ++ u)) (search-hold s u plain h)
    ∙ ap (λ (r : Text). before_or (shifted e (search_marker (p ++ u))) r) whole
    ∙ before-shifted e (p ++ u) (search_marker (p ++ u))
