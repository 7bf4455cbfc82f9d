-- ===== src/Grouping.antt =====
-- `GROUP BY` and the dicts that the services fill from its rows.
use green_garden_api.Prelude.{
  ℕ, ◌≡◌, refl, Bool, false, ◌||◌, Option, none, some, List, [], ◌∷◌, ◌==◌, if◌then◌else◌, any,
  select, arith, Bool-cases, inl, inr,
}

module _ {A : Type 0} where
  put : ℕ → A → List (ℕ × List A) → List (ℕ × List A)
  put key a [] = (key, a ∷ []) ∷ []
  put key a ((k, group) ∷ groups) =
      let later = put key a groups in
      if k == key then (k, a ∷ group) ∷ groups else (k, group) ∷ later

  -- `GROUP BY key`: one group for each key that occurs, with its rows.
  unfoldable pub group_by : (A → ℕ) → List A → List (ℕ × List A)
  unfolding put
  group_by key [] = []
  group_by key (a ∷ rows) = put (key a) a (group_by key rows)

  -- The rows of a key, none where the key does not occur.
  abbrev pub group_at : ℕ → List (ℕ × List A) → List A
  group_at key [] = []
  group_at key ((k, group) ∷ groups) = if k == key then group else group_at key groups

  abbrev pub has_key : ℕ → ℕ × List A → Bool
  has_key key row = row.0 == key

  abbrev pub IsGrouped : List (ℕ × List A) → Type 0
  IsGrouped [] = Unit
  IsGrouped (row ∷ groups) = (any (has_key row.0) groups ≡ false) × IsGrouped groups

  group_at-put :
      (key k : ℕ) (a : A) (groups : List (ℕ × List A))
      → group_at key (put k a groups)
        ≡ (if k == key then a ∷ group_at key groups else group_at key groups)
  unfolding put
  group_at-put key k a [] = ground arith
  group_at-put key k a ((l, group) ∷ groups) = ground (arith, group_at-put key k a groups)

  pub group_at-group_by :
      (key : A → ℕ) (k : ℕ) (rows : List A)
      → group_at k (group_by key rows) ≡ select (λ a. key a == k) rows
  unfolding group_by
  group_at-group_by key k [] = refl
  group_at-group_by key k (a ∷ rows) =
      ground (arith, group_at-put k (key a) a (group_by key rows), group_at-group_by key k rows)

  any-put :
      (key k : ℕ) (a : A) (groups : List (ℕ × List A))
      → any (has_key key) (put k a groups) ≡ (any (has_key key) groups || k == key)
  unfolding put
  any-put key k a [] = ground arith
  any-put key k a ((l, group) ∷ groups) = ground (arith, any-put key k a groups)

  put-IsGrouped :
      (k : ℕ) (a : A) (groups : List (ℕ × List A)) → IsGrouped groups → IsGrouped (put k a groups)
  unfolding put
  put-IsGrouped k a [] h = (refl, tt)
  put-IsGrouped k a ((l, group) ∷ groups) h = elim (Bool-cases (l == k)) [
    | inl same ↦ rw same h
    | inr other ↦ rw other (ground (arith, any-put l k a groups, h.0), put-IsGrouped k a groups h.1)
  ]

  pub group_by-IsGrouped : (key : A → ℕ) (rows : List A) → IsGrouped (group_by key rows)
  unfolding group_by
  group_by-IsGrouped key [] = tt
  group_by-IsGrouped key (a ∷ rows) =
      put-IsGrouped (key a) a (group_by key rows) (group_by-IsGrouped key rows)

  -- No group is empty.
  abbrev pub AreFull : List (ℕ × List A) → Type 0
  AreFull [] = Unit
  AreFull ((k, []) ∷ groups) = ⊥
  AreFull ((k, a ∷ group) ∷ groups) = AreFull groups

  put-AreFull :
      (key : ℕ) (a : A) (groups : List (ℕ × List A)) → AreFull groups → AreFull (put key a groups)
  unfolding put
  put-AreFull key a [] h = tt
  put-AreFull key a ((k, []) ∷ groups) h = absurd h
  put-AreFull key a ((k, b ∷ group) ∷ groups) h = elim (Bool-cases (k == key)) [
    | inl same ↦ rw same h
    | inr other ↦ rw other (put-AreFull key a groups h)
  ]

  pub group_by-AreFull : (key : A → ℕ) (rows : List A) → AreFull (group_by key rows)
  unfolding group_by
  group_by-AreFull key [] = tt
  group_by-AreFull key (a ∷ rows) =
      put-AreFull (key a) a (group_by key rows) (group_by-AreFull key rows)

-- `counts[key] = count`
unfoldable pub set_key : ℕ → ℕ → List (ℕ × ℕ) → List (ℕ × ℕ)
set_key key count [] = (key, count) ∷ []
set_key key count ((k, old) ∷ counts) =
    let later = set_key key count counts in
    if k == key then (k, count) ∷ counts else (k, old) ∷ later

abbrev pub value_at : ℕ → List (ℕ × ℕ) → Option ℕ
value_at key [] = none
value_at key ((k, count) ∷ counts) = if k == key then some count else value_at key counts

pub value_at-set_key :
    (key k count : ℕ) (counts : List (ℕ × ℕ))
    → value_at key (set_key k count counts) ≡ (if k == key then some count else value_at key counts)
unfolding set_key
value_at-set_key key k count [] = ground arith
value_at-set_key key k count ((l, old) ∷ counts) =
    ground (arith, value_at-set_key key k count counts)
