-- ===== src/Orders/Number/Laws.antt =====
-- Order numbers are fresh, and payment references tell orders apart.
use green_garden_api.Prelude.{
  ℕ, zero, suc, ◌+◌, ◌≤◌, ◌<◌, ◌≡◌, refl, ◌∙◌, ap, sym, Bool, true, false, List, [], ◌∷◌, ◌++◌,
  arith, ◌==◌, leb, select, length, take, drop, take-append, drop-append, Text, codes, text_eq,
  text_eq_iff, mem_text, Bool-cases, inl, inr, All, length-select-le,
}
use mathlib.Core.Path.{ap₂}
use mathlib.Core.List.{append-nil}
use green_garden_api.Prelude.Digits.{
  print_padded, read, read-print_padded, IsDigit, print_padded-IsDigit,
}
use green_garden_api.Core.Text.{remove}
use green_garden_api.Core.Text.Stripping.{
  IsFree, remove-append, remove_of_IsFree, after_prefix-append,
}
use green_garden_api.Database.Models.{Db}
use green_garden_api.Orders.Number.{
  number_prefix, order_number_at, starts_with, to_set, order_numbers, taken_numbers, next_sequence,
  generate_order_number, payment_reference_for,
}

module _ (today : Text) where
  -- The sequence that a number of this date carries.
  sequence_of : Text → ℕ
  sequence_of number = read (drop (length (number_prefix today)) number)

  sequence_of-at : (n : ℕ) → sequence_of (order_number_at today n) ≡ n
  unfolding sequence_of order_number_at
  sequence_of-at n = rw (drop-append (number_prefix today) (print_padded n)) (read-print_padded n)

  -- How many taken numbers the loop can still meet.
  remaining : List Text → ℕ → ℕ
  remaining taken n = length (select (λ t. leb n (sequence_of t)) taken)

  remaining_mono : (taken : List Text) (n : ℕ) → remaining taken (n + 1) ≤ remaining taken n
  unfolding remaining
  remaining_mono [] n = omega arith
  remaining_mono (t ∷ taken) n = ground (arith, remaining_mono taken n)

  sequence_of-same :
      (t : Text) (n : ℕ) → text_eq (order_number_at today n) t ≡ true → sequence_of t ≡ n
  sequence_of-same t n h = rw (← (text_eq_iff (order_number_at today n) t).0 h) (sequence_of-at n)

  remaining-step :
      (taken : List Text) (n : ℕ)
      → mem_text (order_number_at today n) taken ≡ true
      → remaining taken (n + 1) < remaining taken n
  unfolding remaining
  remaining-step [] n h = cc
  remaining-step (t ∷ taken) n h = elim (Bool-cases (text_eq (order_number_at today n) t)) [
    | inl same ↦ ground (arith, remaining_mono taken n, sequence_of-same t n same)
    | inr other ↦ ground (arith, remaining-step taken n)
  ]

  next_sequence-free :
      (taken : List Text) (fuel n : ℕ)
      → remaining taken n < fuel
      → mem_text (order_number_at today (next_sequence today taken fuel n)) taken ≡ false
  unfolding next_sequence
  next_sequence-free taken zero n h = elim h [ ]
  next_sequence-free taken (suc fuel) n h =
      elim (Bool-cases (mem_text (order_number_at today n) taken)) [
        | inl hit ↦
            rw hit
              (next_sequence-free taken fuel (n + 1) (omega (arith, remaining-step taken n hit)))
        | inr free ↦ rw free free
      ]

mem_text-to_set : (t : Text) (ts : List Text) → mem_text t (to_set ts) ≡ mem_text t ts
unfolding to_set
mem_text-to_set t [] = refl
mem_text-to_set t (u ∷ ts) =
    ground (arith, mem_text-to_set t ts, mem_text-to_set u ts, text_eq_iff t u)

mem_text-select :
    (p : Text → Bool) (t : Text) (ts : List Text)
    → p t ≡ true
    → mem_text t (select p ts) ≡ mem_text t ts
mem_text-select p t [] h = refl
mem_text-select p t (u ∷ ts) h = ground (arith, mem_text-select p t ts h, text_eq_iff t u)

order_number_at-starts :
    (today : Text) (n : ℕ) → starts_with (number_prefix today) (order_number_at today n) ≡ true
unfolding order_number_at
order_number_at-starts today n =
    rw (after_prefix-append (number_prefix today) (print_padded n), starts_with) refl

-- The number that is generated is no order's number: the loop's fuel is enough.
pub generate_order_number-fresh :
    (today : Text) (db : Db) → mem_text (generate_order_number today db) (order_numbers db) ≡ false
unfolding generate_order_number
generate_order_number-fresh today db =
    let taken = taken_numbers today db in
    let prefix = number_prefix today in
    let n = next_sequence today taken (length taken + 1) (length taken + 1) in
    let fits : remaining today taken (length taken + 1) < length taken + 1 =
      unfold remaining in
      omega (arith, length-select-le (λ t. leb (length taken + 1) (sequence_of today t)) taken) in
    sym (
      mem_text-select (starts_with prefix) (order_number_at today n) (order_numbers db)
        (order_number_at-starts today n))
    ∙ (sym (
          mem_text-to_set (order_number_at today n)
            (select (starts_with prefix) (order_numbers db)))
        ∙ unfold taken_numbers in
          next_sequence-free today taken (length taken + 1) (length taken + 1) fits)

-- A date as `%Y%m%d` prints it.
abbrev pub IsDate : Text → Type 0
IsDate d = (length d ≡ 8) × All IsDigit d

IsFree-digits : (s : Text) → All IsDigit s → IsFree (λ c. c == b'-') s
IsFree-digits [] h = tt
IsFree-digits (c ∷ s) h = (ground (arith, h.0), IsFree-digits s h.1)

-- The reference is the number without its three dashes.
pub reference_lem :
    (d : Text) (n : ℕ)
    → All IsDigit d
    → payment_reference_for (order_number_at d n) ≡ codes "GG" ++ (d ++ print_padded n)
unfolding payment_reference_for order_number_at
reference_lem d n h =
    let dash = λ (c : ℕ). c == b'-' in
    let date : remove dash (d ++ codes "-") ≡ d =
      remove-append dash d (codes "-")
      ∙ (append-nil (remove dash d) ∙ remove_of_IsFree dash d (IsFree-digits d h)) in
    let sequence : remove dash (print_padded n) ≡ print_padded n =
      remove_of_IsFree dash (print_padded n)
        (IsFree-digits (print_padded n) (print_padded-IsDigit n)) in
    ap (λ (r : Text). codes "GG" ++ r)
      (remove-append dash (d ++ codes "-") (print_padded n) ∙ ap₂ ◌++◌ date sequence)

-- Orders with different numbers have different payment references: for dates of eight digits, equal
-- references have equal dates and equal sequence numbers.
pub payment_reference_for-injective :
    (d e : Text) (m n : ℕ)
    → IsDate d
    → IsDate e
    → payment_reference_for (order_number_at d m) ≡ payment_reference_for (order_number_at e n)
    → (d ≡ e) × (m ≡ n)
payment_reference_for-injective d e m n hd he p =
    let tails : d ++ print_padded m ≡ e ++ print_padded n =
      ap (drop 2) (sym (reference_lem d m hd.1) ∙ (p ∙ reference_lem e n he.1)) in
    let same_length : length d ≡ length e = hd.0 ∙ sym he.0 in
    let dates : d ≡ e =
      sym (take-append d (print_padded m))
      ∙ (ap (take (length d)) tails
          ∙ (ap (λ (k : ℕ). take k (e ++ print_padded n)) same_length
              ∙ take-append e (print_padded n))) in
    let numbers : print_padded m ≡ print_padded n =
      sym (drop-append d (print_padded m))
      ∙ (ap (drop (length d)) tails
          ∙ (ap (λ (k : ℕ). drop k (e ++ print_padded n)) same_length
              ∙ drop-append e (print_padded n))) in
    (dates, sym (read-print_padded m) ∙ (ap read numbers ∙ read-print_padded n))
