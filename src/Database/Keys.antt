-- ===== src/Database/Keys.antt =====
-- Tables whose rows have an identifier and a text that no two rows share, such as a phone number or
-- a slug. The services ask whether another row takes the text before they write it.
use green_garden_api.Prelude.{
  ℕ, ◌≡◌, refl, ap, ◌∙◌, Bool, false, not, ◌&&◌, List, [], ◌∷◌, ◌++◌, Text, text_eq, text_eq_iff,
  ◌==◌, ==→eq, arith, any, find?, select, some, eq_of_some, text_eq_refl, update_where,
  update_where-absent, Bool-cases, inl, inr,
}

module _ {A : Type 0} (id : A → ℕ) (key : A → Text) where
  abbrev pub row_has_id : ℕ → A → Bool
  row_has_id k a = id a == k

  abbrev pub row_has_key : Text → A → Bool
  row_has_key s a = text_eq (key a) s

  abbrev pub other_has_key : Text → ℕ → A → Bool
  other_has_key s k a = text_eq (key a) s && not (id a == k)

  -- No two rows share an identifier or a key.
  abbrev pub HasUniqueKeys : List A → Type 0
  HasUniqueKeys [] = Unit
  HasUniqueKeys (a ∷ rows) =
      (any (row_has_id (id a)) rows ≡ false)
      × (any (row_has_key (key a)) rows ≡ false)
      × HasUniqueKeys rows

  -- A test on a row that is added last.
  pub any-last :
      (p : A → Bool) (rows : List A) (b : A)
      → any p rows ≡ false
      → p b ≡ false
      → any p (rows ++ b ∷ []) ≡ false
  any-last p [] b h k = ground arith
  any-last p (a ∷ rows) b h k = ground (arith, any-last p rows b)

  pub HasUniqueKeys-add :
      (rows : List A) (b : A)
      → HasUniqueKeys rows
      → any (row_has_id (id b)) rows ≡ false
      → any (row_has_key (key b)) rows ≡ false
      → HasUniqueKeys (rows ++ b ∷ [])
  HasUniqueKeys-add [] b u h k = (refl, refl, tt)
  HasUniqueKeys-add (a ∷ rows) b u h k = (
    any-last (row_has_id (id a)) rows b u.0 (ground arith),
    any-last (row_has_key (key a)) rows b u.1
        (ground (arith, text_eq_iff (key a) (key b), text_eq_iff (key b) (key a))),
    HasUniqueKeys-add rows b u.2 (ground arith) (ground arith),
  )

  pub absent-select : (p : A → Bool) (rows : List A) → any p rows ≡ false → select p rows ≡ []
  absent-select p [] h = refl
  absent-select p (a ∷ rows) h = ground (arith, absent-select p rows)

  -- Nothing after the row that has the identifier, and nothing else, has its key.
  pub any-other_has_key :
      (k : ℕ) (rows : List A) {a : A}
      → HasUniqueKeys rows
      → find? (row_has_id k) rows ≡ some a
      → any (other_has_key (key a) k) rows ≡ false
  any-other_has_key k [] {a} u e = cc
  any-other_has_key k (b ∷ rows) {a} u e = elim (Bool-cases (id b == k)) [
    | inl here ↦
        let same : b ≡ a = eq_of_some (rw here at e) in
        rw here (ground (arith, weaker rows (rw same at u.1)))
    | inr later ↦
        let found : find? (row_has_id k) rows ≡ some a = rw later at e in
        let here : text_eq (key b) (key a) ≡ false = apart rows found u.1 in
        rw (later, here) (any-other_has_key k rows {a = a} u.2 found)
  ]
    where
      weaker :
          (rows : List A)
          → any (row_has_key (key a)) rows ≡ false
          → any (other_has_key (key a) k) rows ≡ false
      weaker [] h = refl
      weaker (c ∷ rows) h = ground (arith, weaker rows)

      apart :
          (rows : List A)
          → find? (row_has_id k) rows ≡ some a
          → any (row_has_key (key b)) rows ≡ false
          → text_eq (key b) (key a) ≡ false
      apart [] e h = cc
      apart (c ∷ rows) e h = elim (Bool-cases (id c == k)) [
        | inl here ↦
            let same : c ≡ a = eq_of_some (rw here at e) in
            let other : text_eq (key c) (key b) ≡ false = ground arith in
            rw (← same) (ground (arith, text_eq_iff (key b) (key c), text_eq_iff (key c) (key b)))
        | inr later ↦ apart rows (rw later at e) (ground arith)
      ]

  -- A row is the only one with its identifier.
  pub select-row_has_id :
      (k : ℕ) (rows : List A) {a : A}
      → HasUniqueKeys rows
      → find? (row_has_id k) rows ≡ some a
      → select (row_has_id k) rows ≡ a ∷ []
  select-row_has_id k [] {a} u e = cc
  select-row_has_id k (b ∷ rows) {a} u e = elim (Bool-cases (id b == k)) [
    | inl here ↦
        let same : b ≡ a = eq_of_some (rw here at e) in
        let gone : any (row_has_id k) rows ≡ false = rw (==→eq (id b) k here) at u.0 in
        rw (here, absent-select (row_has_id k) rows gone) (ap (λ (c : A). c ∷ []) same)
    | inr later ↦ rw later (select-row_has_id k rows {a = a} u.2 (rw later at e))
  ]

  -- A row is the only one with its key.
  pub select-row_has_key :
      (k : ℕ) (rows : List A) {a : A}
      → HasUniqueKeys rows
      → find? (row_has_id k) rows ≡ some a
      → select (row_has_key (key a)) rows ≡ a ∷ []
  select-row_has_key k [] {a} u e = cc
  select-row_has_key k (b ∷ rows) {a} u e = elim (Bool-cases (id b == k)) [
    | inl here ↦
        let same : b ≡ a = eq_of_some (rw here at e) in
        let gone : any (row_has_key (key a)) rows ≡ false = rw same at u.1 in
        rw (same, text_eq_refl (key a), absent-select (row_has_key (key a)) rows gone) refl
    | inr later ↦
        let found : find? (row_has_id k) rows ≡ some a = rw later at e in
        let other = any-other_has_key k (b ∷ rows) {a = a} u e in
        let here : text_eq (key b) (key a) ≡ false = ground (arith, later) in
        rw here (select-row_has_key k rows {a = a} u.2 found)
  ]

  module _ (f : A → A) (keeps : (a : A) → id (f a) ≡ id a) where
    any-id :
        (j k : ℕ) (rows : List A)
        → any (row_has_id j) (update_where (row_has_id k) f rows) ≡ any (row_has_id j) rows
    any-id j k [] = refl
    any-id j k (a ∷ rows) = elim (Bool-cases (id a == k)) [
      | inl here ↦ rw (here, keeps a, any-id j k rows) refl
      | inr other ↦ rw (other, any-id j k rows) refl
    ]

    -- An update that keeps the keys.
    pub any-same-key :
        ((a : A) → key (f a) ≡ key a)
        → (s : Text) (k : ℕ) (rows : List A)
        → any (row_has_key s) (update_where (row_has_id k) f rows) ≡ any (row_has_key s) rows
    any-same-key same s k [] = refl
    any-same-key same s k (a ∷ rows) = elim (Bool-cases (id a == k)) [
      | inl here ↦ rw (here, same a, any-same-key same s k rows) refl
      | inr other ↦ rw (other, any-same-key same s k rows) refl
    ]

    pub HasUniqueKeys-keep :
        ((a : A) → key (f a) ≡ key a)
        → (k : ℕ) (rows : List A) → HasUniqueKeys rows
        → HasUniqueKeys (update_where (row_has_id k) f rows)
    HasUniqueKeys-keep same k [] u = tt
    HasUniqueKeys-keep same k (a ∷ rows) u = elim (Bool-cases (id a == k)) [
      | inl here ↦ rw here (
        rw (keeps a) (any-id (id a) k rows ∙ u.0),
        rw (same a) (any-same-key same (key a) k rows ∙ u.1),
        HasUniqueKeys-keep same k rows u.2,
      )
      | inr other ↦ rw other (
        any-id (id a) k rows ∙ u.0,
        any-same-key same (key a) k rows ∙ u.1,
        HasUniqueKeys-keep same k rows u.2,
      )
    ]

    -- An update that writes the key `s`, which no other row has.
    module _ (s : Text) (writes : (a : A) → key (f a) ≡ s) where
      pub any-new-key :
          (t : Text) (k : ℕ) (rows : List A)
          → text_eq s t ≡ false
          → any (row_has_key t) rows ≡ false
          → any (row_has_key t) (update_where (row_has_id k) f rows) ≡ false
      any-new-key t k [] h e = refl
      any-new-key t k (a ∷ rows) h e = elim (Bool-cases (id a == k)) [
        | inl here ↦ rw (here, writes a, h) (any-new-key t k rows h (ground arith))
        | inr other ↦ rw other (ground (arith, any-new-key t k rows h))
      ]

      -- The key that the row had is free afterwards.
      pub any-old-key :
          (t : Text) (k : ℕ) (rows : List A)
          → text_eq s t ≡ false
          → any (other_has_key t k) rows ≡ false
          → any (row_has_key t) (update_where (row_has_id k) f rows) ≡ false
      any-old-key t k [] h e = refl
      any-old-key t k (a ∷ rows) h e = elim (Bool-cases (id a == k)) [
        | inl here ↦ rw (here, writes a, h) (any-old-key t k rows h (ground arith))
        | inr other ↦ rw other (ground (arith, any-old-key t k rows h))
      ]

      free-key :
          (k : ℕ) (rows : List A)
          → any (row_has_id k) rows ≡ false
          → any (other_has_key s k) rows ≡ false
          → any (row_has_key s) rows ≡ false
      free-key k [] h e = refl
      free-key k (a ∷ rows) h e = ground (arith, free-key k rows)

      pub HasUniqueKeys-set :
          (k : ℕ) (rows : List A)
          → HasUniqueKeys rows
          → any (other_has_key s k) rows ≡ false
          → HasUniqueKeys (update_where (row_has_id k) f rows)
      HasUniqueKeys-set k [] u e = tt
      HasUniqueKeys-set k (a ∷ rows) u e = elim (Bool-cases (id a == k)) [
        | inl here ↦
            let gone : any (row_has_id k) rows ≡ false = rw (==→eq (id a) k here) at u.0 in
            rw (here, update_where-absent (row_has_id k) f rows gone)
              (rw (keeps a) u.0, rw (writes a) (free-key k rows gone (ground arith)), u.2)
        | inr other ↦ rw other (
          any-id (id a) k rows ∙ u.0,
          any-new-key (key a) k rows (ground (arith, text_eq_iff (key a) s, text_eq_iff s (key a)))
              u.1,
          HasUniqueKeys-set k rows u.2 (ground arith),
        )
      ]
