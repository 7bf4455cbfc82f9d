-- ===== src/Payments/Laws.antt =====
-- What one delivery of the webhook does, on every branch.
use green_garden_api.Prelude.{
  ℕ, ◌≡◌, refl, Bool, true, false, Option, none, some, List, [], ◌∷◌, ◌++◌, any, update_where,
  update_where-last, ==_refl, Bool-cases, Option-cases, inl, inr, ◌⊎◌,
}
use green_garden_api.Core.Errors.{AppError, Result, ok, err}
use green_garden_api.Core.Text.{CaseMap}
use green_garden_api.Database.Models.{Order, PaymentMatchStatus, PaymentTransaction, Db}
use green_garden_api.Database.Session.{World, Env, continue, settle, rollback, flush, commit}
use green_garden_api.Orders.Create.{has_order_id}
use green_garden_api.Payments.{
  SePayWebhookPayload, equals_cents, is_paid, lock_order_by_reference, is_incoming, has_provider_id,
  has_transaction_id, transaction_row, with_match, as_paid, insert_transaction,
  candidate_references, match_order, match_payment, record_payment, insert_or_skip,
  process_sepay_webhook,
}

module _ (cases : CaseMap) (is_decimal : ℕ → Bool) (env : Env) (payload : SePayWebhookPayload) where
  -- The order that the references of the delivery lead to.
  abbrev pub target : List Order → Option Order
  target os = lock_order_by_reference (candidate_references cases is_decimal payload) os

  abbrev pub pays : Order → Bool
  pays order = equals_cents payload.transfer_amount order.total_amount

  -- When a verdict is the right one for the database that the delivery finds, and what becomes of
  -- the orders: only a transfer that comes in, leads to an unpaid order and has its amount pays it.
  abbrev pub Judged : List Order → Option ℕ × PaymentMatchStatus → List Order → Type 0
  Judged os (order_id, PaymentMatchStatus.ignored) orders =
      (is_incoming payload.transfer_type ≡ false) × (order_id ≡ none) × (orders ≡ os)
  Judged os (order_id, PaymentMatchStatus.unmatched) orders =
      (is_incoming payload.transfer_type ≡ true)
      × (target os ≡ none)
      × (order_id ≡ none)
      × (orders ≡ os)
  Judged os (order_id, PaymentMatchStatus.already_paid) orders =
      (is_incoming payload.transfer_type ≡ true)
      × (order : Order) × (target os ≡ some order)
      × (order_id ≡ some order.id)
      × (is_paid order.payment_status ≡ true)
      × (orders ≡ os)
  Judged os (order_id, PaymentMatchStatus.amount_mismatch) orders =
      (is_incoming payload.transfer_type ≡ true)
      × (order : Order) × (target os ≡ some order)
      × (order_id ≡ some order.id)
      × (is_paid order.payment_status ≡ false)
      × (pays order ≡ false)
      × (orders ≡ os)
  Judged os (order_id, PaymentMatchStatus.matched) orders =
      (is_incoming payload.transfer_type ≡ true)
      × (order : Order) × (target os ≡ some order)
      × (order_id ≡ some order.id)
      × (is_paid order.payment_status ≡ false)
      × (pays order ≡ true)
      × (orders ≡ update_where (has_order_id order.id) (as_paid env.now) os)

  abbrev with_orders : List Order → World → World
  with_orders orders w = record w { working = record w.working { orders = orders } }

  -- The matching step returns a verdict, and changes the orders as the verdict says.
  abbrev Judges : World → Type 0
  Judges w =
      (verdict : Option ℕ × PaymentMatchStatus) × (orders : List Order) × (match_payment cases
          is_decimal env payload w
        ≡ (ok verdict, with_orders orders w))
      × Judged w.working.orders verdict orders

  match_payment-Judges : (w : World) → Judges w
  unfolding match_payment match_order
  match_payment-Judges w = elim (Bool-cases (is_incoming payload.transfer_type)) [
    | inr out ↦
        ((none, PaymentMatchStatus.ignored), w.working.orders, rw out refl, (out, refl, refl))
    | inl incoming ↦ elim (Option-cases (target w.working.orders)) [
      | inl nobody ↦ (
        (none, PaymentMatchStatus.unmatched),
        w.working.orders,
        rw (incoming, nobody, continue) refl,
        (incoming, nobody, refl, refl),
      )
      | inr (order, found) ↦ elim (Bool-cases (is_paid order.payment_status)) [
        | inl paid ↦ (
          (some order.id, PaymentMatchStatus.already_paid),
          w.working.orders,
          rw (incoming, found, continue, paid) refl,
          (incoming, order, found, refl, paid, refl),
        )
        | inr unpaid ↦ elim (Bool-cases (pays order)) [
          | inr wrong ↦ (
            (some order.id, PaymentMatchStatus.amount_mismatch),
            w.working.orders,
            rw (incoming, found, continue, unpaid, wrong) refl,
            (incoming, order, found, refl, unpaid, wrong, refl),
          )
          | inl right ↦ (
            (some order.id, PaymentMatchStatus.matched),
            update_where (has_order_id order.id) (as_paid env.now) w.working.orders,
            rw (incoming, found, continue, unpaid, right) refl,
            (incoming, order, found, refl, unpaid, right, refl),
          )
        ]
      ]
    ]
  ]

  -- The row that stays of the delivery.
  abbrev pub recorded_row : Option ℕ × PaymentMatchStatus → PaymentTransaction
  recorded_row verdict = with_match verdict (transaction_row (env.uuid 0) payload)

  -- The database after the delivery.
  abbrev pub settled_db : Option ℕ × PaymentMatchStatus → List Order → Db → Db
  settled_db verdict orders db = record db {
    orders = orders;
    payments = db.payments ++ recorded_row verdict ∷ [];
  }

  -- The database refused: the error is raised and the session rolled back.
  abbrev Refused : World → Result (Option PaymentMatchStatus) × World → Type 0
  Refused w r = settle r ≡ (err AppError.database_error, rollback w)

  -- Everything the recording branch can do.
  abbrev Records : World → Result (Option PaymentMatchStatus) × World → Type 0
  Records w r =
      (verdict : Option ℕ × PaymentMatchStatus) × (orders : List Order) × Judged w.working.orders
        verdict orders
      × ((r ≡ (
        ok (some verdict.1),
        record w {
          committed = settled_db verdict orders w.working;
          working = settled_db verdict orders w.working;
        },
      ))
          ⊎ Refused w r)

  record_payment-Records :
      (w : World)
      → any (has_transaction_id (env.uuid 0)) w.working.payments ≡ false
      → Records w (record_payment cases is_decimal env payload w)
  unfolding record_payment flush commit
  record_payment-Records w fresh =
      let inserted = insert_transaction (transaction_row (env.uuid 0) payload) w.working in
      let v : World = record w { working = inserted } in
      let (verdict, orders, judgement, judged) = match_payment-Judges v in
      let last =
        update_where-last (has_transaction_id (env.uuid 0)) (with_match verdict) w.working.payments
          (transaction_row (env.uuid 0) payload) fresh (==_refl (env.uuid 0)) in
      let final = settled_db verdict orders w.working in
      (
        verdict,
        orders,
        judged,
        elim (Bool-cases (env.accepts inserted)) [
          | inr refused ↦ inr (rw (refused, continue, settle) refl)
          | inl taken ↦ elim (Bool-cases (env.accepts final)) [
            | inl stored ↦ inl (rw (taken, continue, judgement, last, stored) refl)
            | inr refused ↦ inr (rw (taken, continue, judgement, last, refused) refl)
          ]
        ],
      )

  -- One delivery of a transaction, on every branch. A transaction that is recorded changes nothing.
  -- Any other one is recorded with the right verdict and committed together with the change that the
  -- verdict makes to the orders; or the database refuses and nothing of it stays. The row's own
  -- identifier is supposed to be new.
  pub process_sepay_webhook-cases :
      (w : World)
      → any (has_transaction_id (env.uuid 0)) w.working.payments ≡ false
      → ((any (has_provider_id payload.id) w.working.payments ≡ true)
          × (process_sepay_webhook cases is_decimal env payload w ≡ (ok none, rollback w)))
        ⊎ ((any (has_provider_id payload.id) w.working.payments ≡ false)
            × (verdict : Option ℕ × PaymentMatchStatus) × (orders : List Order) × Judged
                w.working.orders verdict orders
            × ((process_sepay_webhook cases is_decimal env payload w ≡ (
              ok (some verdict.1),
              record w {
                committed = settled_db verdict orders w.working;
                working = settled_db verdict orders w.working;
              },
            ))
                ⊎ (process_sepay_webhook cases is_decimal env payload w
                    ≡ (err AppError.database_error, rollback w))))
  unfolding process_sepay_webhook insert_or_skip
  process_sepay_webhook-cases w fresh =
      elim (Bool-cases (any (has_provider_id payload.id) w.working.payments)) [
        | inl known ↦ inl (known, rw (known, settle) refl)
        | inr new ↦
            let (verdict, orders, judged, outcome) = record_payment-Records w fresh in
            inr (
              new,
              verdict,
              orders,
              judged,
              elim outcome [
                | inl stored ↦ inl (rw (new, stored, settle) refl)
                | inr refused ↦ inr (rw new refused)
              ],
            )
      ]
