-- ===== src/Listing/Laws.antt =====
-- The pages of a listing, put together, are the rows that pass its filters, each once.
use mathlib.Core.List.{Perm}
use mathlib.Core.List.Perm
use green_garden_api.Prelude.{
  ℕ, zero, suc, ◌+◌, ◌-◌, ◌*◌, ◌≤◌, ◌≡◌, refl, ◌∙◌, ap, sym, Bool, true, false, List, [], ◌∷◌, ◌++◌,
  select, take, drop, length, All, Bool-cases, inl, inr, arith,
}
use green_garden_api.Listing.{insert_row, order_by, paginate, list_page}

module _ {A : Type 0} where
  -- The first `n` pages, one after the other.
  abbrev pub pages : (ℕ → List A) → ℕ → List A
  pages page zero = []
  pages page (suc n) = pages page n ++ page (suc n)

  take-nil : (n : ℕ) → take {A = A} n [] ≡ []
  take-nil zero = refl
  take-nil (suc n) = refl

  take-add : (m n : ℕ) (rows : List A) → take (m + n) rows ≡ take m rows ++ take n (drop m rows)
  take-add zero n rows = ap (λ (k : ℕ). take k rows) (omega arith)
  take-add (suc m) n [] = take-nil (suc m + n) ∙ sym (take-nil n)
  take-add (suc m) n (a ∷ rows) =
      let more : suc m + n ≡ suc (m + n) = omega arith in
      ap (λ (k : ℕ). take k (a ∷ rows)) more ∙ ap (λ r. a ∷ r) (take-add m n rows)

  pages-paginate :
      (size n : ℕ) (rows : List A)
      → pages (λ page. paginate page size rows) n ≡ take (n * size) rows
  unfolding paginate
  pages-paginate size zero rows =
      let none' : 0 ≡ 0 * size = omega arith in ap (λ (k : ℕ). take k rows) none'
  pages-paginate size (suc n) rows =
      let so_far : (suc n - 1) * size ≡ n * size = ap (λ (k : ℕ). k * size) (omega arith) in
      let both : n * size + size ≡ suc n * size = grind arith in
      rw (pages-paginate size n rows, so_far)
        (sym (take-add (n * size) size rows) ∙ ap (λ (k : ℕ). take k rows) both)

  take-all : (n : ℕ) (rows : List A) → length rows ≤ n → take n rows ≡ rows
  take-all n [] h = take-nil n
  take-all zero (a ∷ rows) h = absurd (omega arith)
  take-all (suc n) (a ∷ rows) h = ap (λ r. a ∷ r) (take-all n rows (omega arith))

  module _ (precedes : A → A → Bool) where
    insert_row-perm : (a : A) (rows : List A) → Perm (insert_row precedes a rows) (a ∷ rows)
    unfolding insert_row
    insert_row-perm a [] = Perm.refl (a ∷ [])
    insert_row-perm a (b ∷ rows) = elim (Bool-cases (precedes a b)) [
      | inl first ↦ rw first (Perm.refl (a ∷ b ∷ rows))
      | inr later ↦
          rw later (Perm.trans (Perm.cons b (insert_row-perm a rows)) (Perm.swap a b rows))
    ]

    pub order_by-perm : (rows : List A) → Perm (order_by precedes rows) rows
    unfolding order_by
    order_by-perm [] = Perm.refl []
    order_by-perm (a ∷ rows) =
        Perm.trans (insert_row-perm a (order_by precedes rows)) (Perm.cons a (order_by-perm rows))

    length-insert_row :
        (a : A) (rows : List A) → length (insert_row precedes a rows) ≡ suc (length rows)
    unfolding insert_row
    length-insert_row a [] = refl
    length-insert_row a (b ∷ rows) = ground (arith, length-insert_row a rows)

    pub length-order_by : (rows : List A) → length (order_by precedes rows) ≡ length rows
    unfolding order_by
    length-order_by [] = refl
    length-order_by (a ∷ rows) =
        length-insert_row a (order_by precedes rows) ∙ ap suc (length-order_by rows)

    count-insert_row :
        (p : A → Bool) (a : A) (rows : List A)
        → length (select p (insert_row precedes a rows)) ≡ length (select p (a ∷ rows))
    unfolding insert_row
    count-insert_row p a [] = refl
    count-insert_row p a (b ∷ rows) = ground (arith, count-insert_row p a rows)

    -- Sorting changes no count.
    pub count-order_by :
        (p : A → Bool) (rows : List A)
        → length (select p (order_by precedes rows)) ≡ length (select p rows)
    unfolding order_by
    count-order_by p [] = refl
    count-order_by p (a ∷ rows) =
        count-insert_row p a (order_by precedes rows) ∙ ground (arith, count-order_by p rows)

    All-insert_row :
        (P : A → Type 0) (a : A) (rows : List A)
        → P a
        → All P rows
        → All P (insert_row precedes a rows)
    unfolding insert_row
    All-insert_row P a [] u h = (u, tt)
    All-insert_row P a (b ∷ rows) u h = elim (Bool-cases (precedes a b)) [
      | inl first ↦ rw first (u, h)
      | inr later ↦ rw later (h.0, All-insert_row P a rows u h.1)
    ]

    pub All-order_by :
        (P : A → Type 0) (rows : List A) → All P rows → All P (order_by precedes rows)
    unfolding order_by
    All-order_by P [] h = tt
    All-order_by P (a ∷ rows) h =
        All-insert_row P a (order_by precedes rows) h.0 (All-order_by P rows h.1)

    -- Each row precedes the next one.
    abbrev pub InOrder : List A → Type 0
    InOrder [] = Unit
    InOrder (a ∷ []) = Unit
    InOrder (a ∷ b ∷ rows) = (precedes a b ≡ true) × InOrder (b ∷ rows)

    module _ (total : (a b : A) → precedes a b ≡ false → precedes b a ≡ true) where
      InOrder-insert : (a : A) (rows : List A) → InOrder rows → InOrder (insert_row precedes a rows)
      unfolding insert_row
      InOrder-insert a [] h = tt
      InOrder-insert a (b ∷ rows) h = elim (Bool-cases (precedes a b)) [
        | inl first ↦ rw first (first, h)
        | inr later ↦ rw later (behind b rows (total a b later) h)
      ]
        where
          behind :
              (b : A) (rows : List A)
              → precedes b a ≡ true
              → InOrder (b ∷ rows)
              → InOrder (b ∷ insert_row precedes a rows)
          behind b [] k h = (k, tt)
          behind b (c ∷ rows) k h = elim (Bool-cases (precedes a c)) [
            | inl first ↦ rw first (k, (first, h.1))
            | inr later ↦ rw later (h.0, behind c rows (total a c later) h.1)
          ]

      pub InOrder-order_by : (rows : List A) → InOrder (order_by precedes rows)
      unfolding order_by
      InOrder-order_by [] = tt
      InOrder-order_by (a ∷ rows) =
          InOrder-insert a (order_by precedes rows) (InOrder-order_by rows)

-- For a total order: the first `n` pages, put together, are the selected rows in that order, each as
-- often as it is stored, once `n` pages can hold them; and every page reports how many there are.
module _ {A : Type 0} (precedes : A → A → Bool) (keep : A → Bool) (size : ℕ) (rows : List A) where
  abbrev pub listed_pages : ℕ → List A
  listed_pages n = pages (λ page. (list_page precedes keep page size rows).0) n

  listed_pages-eq :
      (n : ℕ)
      → length (select keep rows) ≤ n * size
      → listed_pages n ≡ order_by precedes (select keep rows)
  unfolding list_page
  listed_pages-eq n enough =
      let sorted = order_by precedes (select keep rows) in
      pages-paginate size n sorted
      ∙ take-all (n * size) sorted (omega (arith, length-order_by precedes (select keep rows)))

  pub listed_pages-perm :
      (n : ℕ) → length (select keep rows) ≤ n * size → Perm (listed_pages n) (select keep rows)
  listed_pages-perm n enough =
      rw (listed_pages-eq n enough) (order_by-perm precedes (select keep rows))

  pub listed_pages-InOrder :
      ((a b : A) → precedes a b ≡ false → precedes b a ≡ true)
      → (n : ℕ) → length (select keep rows) ≤ n * size
      → InOrder precedes (listed_pages n)
  listed_pages-InOrder total n enough =
      rw (listed_pages-eq n enough) (InOrder-order_by precedes total (select keep rows))
