-- ===== src/Payments/Matching.antt =====
-- A transfer's content leads to the order whose reference it holds.
use green_garden_api.Prelude.{
  ℕ, ◌≤◌, ◌≡◌, refl, ◌∙◌, ap, sym, Bool, true, false, not, ◌||◌, some, List, [], ◌∷◌, ◌++◌, Text,
  arith, codes, text_eq, text_eq_iff, text_eq_refl, mem_text, is_nonempty, all, select, map, length,
  take, take-append, length-append, All, All-append, Bool-cases, inl, inr,
}
use green_garden_api.Prelude.Digits.{
  IsDigit, print_padded, print_padded-IsDigit, length-print_padded,
}
use green_garden_api.Core.Text.{CaseMap, ascii_upper}
use green_garden_api.Orders.Number.{order_number_at, payment_reference_for}
use green_garden_api.Orders.Number.Laws.{IsDate, reference_lem}
use green_garden_api.Payments.{
  SePayWebhookPayload, is_g, begins_reference, find_references, from_keys, candidate_references,
}

mem_text-append :
    (t : Text) (us vs : List Text) → mem_text t (us ++ vs) ≡ (mem_text t us || mem_text t vs)
mem_text-append t [] vs = refl
mem_text-append t (u ∷ us) vs = ground (arith, mem_text-append t us vs)

mem_text-select :
    (t u : Text) (ts : List Text)
    → text_eq u t ≡ false
    → mem_text t (select (λ v. not (text_eq u v)) ts) ≡ mem_text t ts
mem_text-select t u [] h = refl
mem_text-select t u (v ∷ ts) h = ground (arith, mem_text-select t u ts h, text_eq_iff t v)

mem_text-from_keys : (t : Text) (ts : List Text) → mem_text t (from_keys ts) ≡ mem_text t ts
unfolding from_keys
mem_text-from_keys t [] = refl
mem_text-from_keys t (u ∷ ts) = elim (Bool-cases (text_eq t u)) [
  | inl same ↦ rw same refl
  | inr other ↦
      let swapped : text_eq u t ≡ false = ground (arith, text_eq_iff t u, text_eq_iff u t) in
      rw other (mem_text-select t u (from_keys ts) swapped ∙ mem_text-from_keys t ts)
]

-- `d` is a decimal digit of Unicode if it is one of ASCII.
abbrev pub KnowsAscii : (ℕ → Bool) → Type 0
KnowsAscii is_decimal = (c : ℕ) → IsDigit c → is_decimal c ≡ true

-- No reference begins inside the text.
abbrev pub IsPlain : Text → Type 0
IsPlain s = All (λ c. is_g c ≡ false) s

module _ (is_decimal : ℕ → Bool) (knows : KnowsAscii is_decimal) where
  all-digits : (ds : Text) → All IsDigit ds → all is_decimal ds ≡ true
  all-digits [] h = refl
  all-digits (d ∷ ds) h = rw (knows d h.0) (all-digits ds h.1)

  -- Behind a plain text the search finds what it would find without it.
  find_references-plain :
      (before s : Text)
      → IsPlain before
      → find_references is_decimal 0 (before ++ s) ≡ find_references is_decimal 0 s
  unfolding find_references begins_reference
  find_references-plain [] s h = refl
  find_references-plain (c ∷ before) s h = rw h.0 (find_references-plain before s h.1)

  find_references-here :
      (ds after : Text)
      → length ds ≡ 12
      → All IsDigit ds
      → find_references is_decimal 0 (codes "GG" ++ (ds ++ after))
        ≡ (codes "GG" ++ ds) ∷ find_references is_decimal 13 (codes "G" ++ (ds ++ after))
  unfolding find_references begins_reference is_g
  find_references-here ds after long digits =
      let cut : take 12 (ds ++ after) ≡ ds =
        ap (λ (k : ℕ). take k (ds ++ after)) (sym long) ∙ take-append ds after in
      rw (cut, all-digits ds digits, long) refl

map-upper_digits : (ds : Text) → All IsDigit ds → map ascii_upper ds ≡ ds
unfolding ascii_upper
map-upper_digits [] h = refl
map-upper_digits (d ∷ ds) h = ground (arith, map-upper_digits ds h.1, h.0)

IsAscii-digits : (ds : Text) → All IsDigit ds → All (λ c. c ≤ 127) ds
IsAscii-digits [] h = tt
IsAscii-digits (d ∷ ds) h = (omega (arith, h.0), IsAscii-digits ds h.1)

upper-reference :
    (cases : CaseMap) (ds : Text)
    → All IsDigit ds
    → cases.upper (codes "GG" ++ ds) ≡ codes "GG" ++ ds
unfolding ascii_upper
upper-reference cases ds h =
    cases.upper_ascii (codes "GG" ++ ds) (omega arith, (omega arith, IsAscii-digits ds h))
    ∙ ap (λ (s : Text). codes "GG" ++ s) (map-upper_digits ds h)

is_nonempty-later : (before : Text) (c : ℕ) (s : Text) → is_nonempty (before ++ c ∷ s) ≡ true
is_nonempty-later [] c s = refl
is_nonempty-later (b ∷ before) c s = refl

-- The reference of an order of a day's first 9999, put anywhere into the transfer's content behind a
-- text without the letter G, is among the candidates that the webhook looks up.
pub candidate_references-found :
    (cases : CaseMap) (is_decimal : ℕ → Bool)
    → KnowsAscii is_decimal
    → (date : Text) (n : ℕ) (before after : Text) (payload : SePayWebhookPayload) → IsDate date
    → n ≤ 9999
    → IsPlain before
    → payload.content ≡ some (before ++ (payment_reference_for (order_number_at date n) ++ after))
    → mem_text
        (payment_reference_for (order_number_at date n))
        (candidate_references cases is_decimal payload)
      ≡ true
unfolding candidate_references
candidate_references-found cases is_decimal knows date n before after payload hd hn hb hc =
    let digits = date ++ print_padded n in
    let are_digits : All IsDigit digits =
      All-append IsDigit date (print_padded n) hd.1 (print_padded-IsDigit n) in
    let long : length digits ≡ 12 =
      omega (arith, length-append date (print_padded n), hd.0, length-print_padded n hn) in
    let found =
      find_references-plain is_decimal knows before (codes "GG" ++ (digits ++ after)) hb
      ∙ find_references-here is_decimal knows digits after long are_digits in
    let filled = is_nonempty-later before b'G' (codes "G" ++ (digits ++ after)) in
    let reference = codes "GG" ++ digits in
    let content : payload.content ≡ some (before ++ (codes "GG" ++ (digits ++ after))) =
      hc ∙ ap (λ (r : Text). some (before ++ (r ++ after))) (reference_lem date n hd.1) in
    rw
      (
        reference_lem date n hd.1,
        mem_text-from_keys reference _,
        mem_text-append reference _ _,
        content,
        filled,
        found,
        upper-reference cases digits are_digits,
        text_eq_refl reference,
      )
      (ground arith)
