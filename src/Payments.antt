-- ===== src/Payments.antt =====
-- app/features/payments/service.py: what a bank transfer needs, and the webhook that SePay calls
-- for each transaction. `\d` of `re` also takes the decimal digits of other scripts: which they are
-- is a parameter, as is the case mapping.
pub mod Matching
pub mod Laws
pub mod Ledger
pub mod Transfer
use green_garden_api.Prelude.{
  ℕ, zero, suc, ◌+◌, ◌*◌, ◌/◌, ◌^◌, ◌-◌, ◌≡◌, Bool, true, false, not, ◌&&◌, ◌||◌, Option, none,
  some, List, [], ◌∷◌, ◌++◌, Text, codes, text_eq, mem_text, is_nonempty, ◌==◌, leb, if◌then◌else◌,
  any, all, select, map, update_where, length, take, drop,
}
use green_garden_api.Core.Errors.{AppError, Result, ok, err}
use green_garden_api.Core.Text.{CaseMap, strip, is_space}
use green_garden_api.Database.Models.{
  Order, PaymentMethod, PaymentStatus, PaymentMatchStatus, PaymentTransaction, Decimal, Db,
}
use green_garden_api.Database.Session.{
  World, Env, Action, pure, gets, modify, atomically, rollback, flush, commit, ◌>>=◌, ◌>>◌,
}
use green_garden_api.Orders.Create.{has_order_id}

pub record SePayWebhookPayload : Type 0 where
  pub id : ℕ
  pub gateway : Option Text
  pub transaction_date : Option Text
  pub account_number : Option Text
  pub sub_account : Option Text
  pub code : Option Text
  pub content : Option Text
  pub transfer_type : Option Text
  pub description : Option Text
  pub transfer_amount : Decimal
  pub reference_code : Option Text

-- `[gG]` of the pattern, which ignores case.
unfoldable pub is_g : ℕ → Bool
is_g c = c == b'G' || c == b'g'

-- Whether `_REFERENCE_PATTERN` matches where the text begins.
unfoldable pub begins_reference : (ℕ → Bool) → Text → Bool
begins_reference is_decimal s =
    all is_g (take 2 s) && all is_decimal (take 12 (drop 2 s)) && length (take 14 s) == 14

-- `_REFERENCE_PATTERN.findall(s)`: after a match the search goes on behind its fourteen characters,
-- of which `skip` are still to pass.
unfoldable pub find_references : (ℕ → Bool) → ℕ → Text → List Text
find_references is_decimal skip [] = []
find_references is_decimal zero (c ∷ s) =
    let matched = find_references is_decimal 13 s in
    let later = find_references is_decimal 0 s in
    if begins_reference is_decimal (c ∷ s) then take 14 (c ∷ s) ∷ matched else later
find_references is_decimal (suc skip) (c ∷ s) = find_references is_decimal skip s

-- `list(dict.fromkeys(texts))`: each text once, in the order of its first appearance.
unfoldable pub from_keys : List Text → List Text
from_keys [] = []
from_keys (t ∷ ts) = t ∷ select (λ u. not (text_eq t u)) (from_keys ts)

-- `d != cents / 100`, negated: both sides over the denominator `100 * 10 ^ scale`.
unfoldable pub equals_cents : Decimal → ℕ → Bool
equals_cents d cents = d.coefficient * 100 == cents * 10 ^ d.scale

unfoldable pub is_bank_transfer : PaymentMethod → Bool
is_bank_transfer PaymentMethod.bank_transfer = true
is_bank_transfer PaymentMethod.cod = false

unfoldable pub is_paid : PaymentStatus → Bool
is_paid PaymentStatus.paid = true
is_paid PaymentStatus.pending = false

abbrev pub has_reference_in : List Text → Order → Bool
has_reference_in references order = elim order.payment_reference [
  | none ↦ false
  | some reference ↦ mem_text reference references
]

-- The rows of the query of `_lock_order_by_reference`.
unfoldable pub is_payable : List Text → Order → Bool
is_payable references order =
    has_reference_in references order && is_bank_transfer order.payment_method

-- `ORDER BY created_at LIMIT 1`
unfoldable pub earliest : List Order → Option Order
earliest [] = none
earliest (o ∷ os) = elim (earliest os) [
  | none ↦ some o
  | some p ↦ if leb o.created_at p.created_at then some o else some p
]

unfoldable pub lock_order_by_reference : List Text → List Order → Option Order
lock_order_by_reference [] orders = none
lock_order_by_reference (r ∷ references) orders =
    earliest (select (is_payable (r ∷ references)) orders)

-- `payload.transfer_type != "in"`, negated
abbrev pub is_incoming : Option Text → Bool
is_incoming none = false
is_incoming (some t) = text_eq t (codes "in")

abbrev pub has_provider_id : ℕ → PaymentTransaction → Bool
has_provider_id id t = t.provider_transaction_id == id

abbrev pub has_transaction_id : ℕ → PaymentTransaction → Bool
has_transaction_id id t = t.id == id

-- The column `Numeric(14, 2)` rounds to hundredths, of which it then holds this number; PostgreSQL
-- rounds a half up.
unfoldable pub in_cents : Decimal → ℕ
in_cents d = (2 * (d.coefficient * 100) + 10 ^ d.scale) / (2 * 10 ^ d.scale)

-- The row that the webhook inserts.
abbrev pub transaction_row : ℕ → SePayWebhookPayload → PaymentTransaction
transaction_row id payload = record {
  id = id;
  provider_transaction_id = payload.id;
  order_id = none;
  gateway = payload.gateway;
  account_number = payload.account_number;
  sub_account = payload.sub_account;
  code = payload.code;
  content = payload.content;
  transfer_type = payload.transfer_type;
  transfer_amount = in_cents payload.transfer_amount;
  reference_code = payload.reference_code;
  transaction_date = payload.transaction_date;
  match_status = PaymentMatchStatus.unmatched;
}

abbrev pub with_match : Option ℕ × PaymentMatchStatus → PaymentTransaction → PaymentTransaction
with_match verdict t = record t { order_id = verdict.0; match_status = verdict.1 }

abbrev pub as_paid : ℕ → Order → Order
as_paid now order = record order { payment_status = PaymentStatus.paid; paid_at = some now }

abbrev pub set_paid : ℕ → ℕ → Db → Db
set_paid order_id now db = record db {
  orders = update_where (has_order_id order_id) (as_paid now) db.orders;
}

abbrev pub insert_transaction : PaymentTransaction → Db → Db
insert_transaction t db = record db { payments = db.payments ++ t ∷ [] }

abbrev pub set_match : ℕ → Option ℕ × PaymentMatchStatus → Db → Db
set_match id verdict db = record db {
  payments = update_where (has_transaction_id id) (with_match verdict) db.payments;
}

-- `(text for text in (payload.content, payload.description) if text)`
abbrev pub present : Option Text → List Text
present none = []
present (some t) = if is_nonempty t then t ∷ [] else []

module _ (cases : CaseMap) (is_decimal : ℕ → Bool) where
  -- The references of one text, in upper case.
  abbrev pub references_in : List Text → List Text
  references_in [] = []
  references_in (t ∷ ts) = map cases.upper (find_references is_decimal 0 t) ++ references_in ts

  unfoldable pub candidate_references : SePayWebhookPayload → List Text
  candidate_references payload = from_keys (
      map (λ code. cases.upper (strip is_space code)) (present payload.code)
      ++ references_in (present payload.content ++ present payload.description))

  module _ (env : Env) where
    unfoldable pub match_order :
        SePayWebhookPayload → Option Order → Action (Option ℕ × PaymentMatchStatus)
    match_order payload none = pure (none, PaymentMatchStatus.unmatched)
    match_order payload (some order) =
        if is_paid order.payment_status
        then pure (some order.id, PaymentMatchStatus.already_paid)
        else if not (equals_cents payload.transfer_amount order.total_amount)
        then pure (some order.id, PaymentMatchStatus.amount_mismatch)
        else do modify (set_paid order.id env.now); pure (some order.id, PaymentMatchStatus.matched)

    unfoldable pub match_payment : SePayWebhookPayload → Action (Option ℕ × PaymentMatchStatus)
    match_payment payload =
        if not (is_incoming payload.transfer_type)
        then pure (none, PaymentMatchStatus.ignored)
        else do
          order ← gets (λ db. lock_order_by_reference (candidate_references payload) db.orders)
          match_order payload order

    -- The branch of the delivery that inserted the row.
    unfoldable pub record_payment : SePayWebhookPayload → Action (Option PaymentMatchStatus)
    record_payment payload = do
      modify (insert_transaction (transaction_row (env.uuid 0) payload))
      flush env
      verdict ← match_payment payload
      modify (set_match (env.uuid 0) verdict)
      commit env
      pure (some verdict.1)

    -- `ON CONFLICT DO NOTHING` returns no row when the provider's identifier is recorded.
    unfoldable pub insert_or_skip : SePayWebhookPayload → Action (Option PaymentMatchStatus)
    insert_or_skip payload w =
        if any (has_provider_id payload.id) w.working.payments
        then (ok none, rollback w)
        else record_payment payload w

    unfoldable pub process_sepay_webhook : SePayWebhookPayload → Action (Option PaymentMatchStatus)
    process_sepay_webhook payload = atomically (insert_or_skip payload)
