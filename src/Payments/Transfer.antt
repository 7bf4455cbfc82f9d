-- ===== src/Payments/Transfer.antt =====
-- `bank_transfer_info`: the amount and the reference that a customer is told to transfer.
use green_garden_api.Prelude.{
  ℕ, ◌+◌, ◌*◌, ◌/◌, ◌%◌, ◌^◌, ◌≡◌, ◌↔◌, ◌∙◌, sym, true, not, Option, none, some, List, [], ◌∷◌,
  ◌++◌, Text, arith, codes, is_nonempty, ltb, if◌then◌else◌, Bool-cases, inl, inr, ==→eq, eq→==,
  Option-cases, eq_of_some,
}
use green_garden_api.Prelude.Digits.{print}
use green_garden_api.Database.Models.{Order, Decimal}
use green_garden_api.Payments.{equals_cents, is_bank_transfer}

-- The fields of `Settings` that are read; a text that is set is not blank.
pub record Settings : Type 0 where
  pub sepay_bank_code : Text
  pub sepay_bank_name : Option Text
  pub sepay_account_number : Option Text
  pub sepay_account_holder : Option Text

pub record BankTransferDetails : Type 0 where
  pub bank_code : Text
  pub bank_name : Text
  pub account_number : Text
  pub account_holder : Option Text
  pub amount : Decimal
  pub reference : Text
  pub qr_url : Text

-- `cents.quantize(Decimal("1"))` in whole units; a half goes to the even neighbour.
unfoldable pub quantize_to_whole : ℕ → ℕ
quantize_to_whole cents =
    let whole = cents / 100 in
    let part = cents % 100 in
    if ltb part 50 then whole else if ltb 50 part then whole + 1 else whole + whole % 2

abbrev pub or_text : Option Text → Text → Text
or_text none t = t
or_text (some s) t = if is_nonempty s then s else t

-- `urlencode` takes the pairs of names and values.
module _ (urlencode : List (Text × Text) → Text) where
  abbrev pub details : Settings → Text → Text → Order → BankTransferDetails
  details settings account reference order =
      let amount = quantize_to_whole order.total_amount in
      record {
        bank_code = settings.sepay_bank_code;
        bank_name = or_text settings.sepay_bank_name settings.sepay_bank_code;
        account_number = account;
        account_holder = settings.sepay_account_holder;
        amount = record { coefficient = amount; scale = 0 };
        reference = reference;
        qr_url =
            codes "https://qr.sepay.vn/img?"
            ++ urlencode (
                (codes "acc", account)
                ∷ (codes "bank", settings.sepay_bank_code)
                ∷ (codes "amount", print amount)
                ∷ (codes "des", reference)
                ∷ (codes "template", codes "compact")
                ∷ []);
      }

  abbrev for_account : Settings → Option Text → Text → Order → Option BankTransferDetails
  for_account settings none reference order = none
  for_account settings (some account) reference order =
      if is_nonempty account then some (details settings account reference order) else none

  abbrev for_reference : Settings → Option Text → Order → Option BankTransferDetails
  for_reference settings none order = none
  for_reference settings (some reference) order =
      for_account settings settings.sepay_account_number reference order

  unfoldable pub bank_transfer_info : Settings → Order → Option BankTransferDetails
  bank_transfer_info settings order =
      if not (is_bank_transfer order.payment_method)
      then none
      else for_reference settings order.payment_reference order

whole_iff : (cents : ℕ) → (quantize_to_whole cents * 100 ≡ cents) ↔ (cents % 100 ≡ 0)
unfolding quantize_to_whole
whole_iff cents = (forth, back)
  where
    forth : quantize_to_whole cents * 100 ≡ cents → cents % 100 ≡ 0
    forth h = ground arith

    back : cents % 100 ≡ 0 → quantize_to_whole cents * 100 ≡ cents
    back h = ground arith

accepts_lem :
    (cents : ℕ)
    → (equals_cents (record { coefficient = quantize_to_whole cents; scale = 0 }) cents ≡ true)
      ↔ (cents % 100 ≡ 0)
unfolding equals_cents
accepts_lem cents =
    let paid = quantize_to_whole cents * 100 in
    let asked = cents * 10 ^ 0 in
    let one : asked ≡ cents = omega arith in
    (
      λ h. (whole_iff cents).0 (==→eq paid asked h ∙ one),
      λ h. eq→== paid asked ((whole_iff cents).1 h ∙ sym one),
    )

-- What a customer is shown belongs to an order that is paid by transfer: its own reference and an
-- amount which the webhook accepts for it exactly when the total is a whole number of units.
pub bank_transfer_info-settles :
    (urlencode : List (Text × Text) → Text) (settings : Settings) (order : Order)
    {shown : BankTransferDetails}
    → bank_transfer_info urlencode settings order ≡ some shown
    → (is_bank_transfer order.payment_method ≡ true)
      × (order.payment_reference ≡ some shown.reference)
      × ((equals_cents shown.amount order.total_amount ≡ true) ↔ (order.total_amount % 100 ≡ 0))
unfolding bank_transfer_info
bank_transfer_info-settles urlencode settings order {shown} h =
    elim (Bool-cases (is_bank_transfer order.payment_method)) [
      | inr cash ↦ absurd (clash (rw cash at h))
      | inl transfer ↦ elim (Option-cases order.payment_reference) [
        | inl none' ↦ absurd (clash (rw (transfer, none') at h))
        | inr (reference, named) ↦ elim (Option-cases settings.sepay_account_number) [
          | inl none' ↦ absurd (clash (rw (transfer, named, none') at h))
          | inr (account, set) ↦ elim (Bool-cases (is_nonempty account)) [
            | inr blank ↦ absurd (clash (rw (transfer, named, set, blank) at h))
            | inl filled ↦
                let same : some (details urlencode settings account reference order) ≡ some shown =
                  rw (transfer, named, set, filled) at h in
                let (shown_reference, accepted) =
                  finish account reference named (eq_of_some same) in
                (transfer, shown_reference, accepted)
          ]
        ]
      ]
    ]
  where
    clash : none ≡ some shown → ⊥
    clash k = cc

    finish :
        (account reference : Text)
        → order.payment_reference ≡ some reference
        → details urlencode settings account reference order ≡ shown
        → (order.payment_reference ≡ some shown.reference)
          × ((equals_cents shown.amount order.total_amount ≡ true) ↔ (order.total_amount % 100 ≡ 0))
    finish account reference named same = rw (← same) (named, accepts_lem order.total_amount)
