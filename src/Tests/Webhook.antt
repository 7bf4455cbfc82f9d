-- ===== src/Tests/Webhook.antt =====
-- The webhook on the transfer for the shop's one order.
use green_garden_api.Prelude.{
  ◌≡◌, ◌⊎◌, ◌↔◌, ◌&&◌, ◌%◌, refl, codes, ◌∷◌, ◌++◌, ℕ, Bool, Text, leb, [], List, Option, some,
  none, false, true, any, text_eq, mem_text, arith, Bool-cases, inl, inr, ◌==◌, sum_of,
}
use green_garden_api.Core.Errors.{AppError, ok, err}
use green_garden_api.Database.Models.{Order, PaymentMatchStatus, Db}
use green_garden_api.Database.Session.{World, Env, rollback}
use green_garden_api.Orders.Histories.{session}
use green_garden_api.Orders.Number.{order_number_at, payment_reference_for}
use green_garden_api.Orders.Number.Laws.{IsDate}
use green_garden_api.Payments.{
  SePayWebhookPayload, has_provider_id, candidate_references, process_sepay_webhook, is_paid,
  is_bank_transfer, equals_cents,
}
use green_garden_api.Payments.Laws.{Judged, settled_db, process_sepay_webhook-cases}
use green_garden_api.Payments.Ledger.{
  deliver, paid_by, IsSettled, deliver_all, DrawsNewRows, process_sepay_webhook_twice,
  deliver_all-IsSettled,
}
use green_garden_api.Payments.Matching.{KnowsAscii, IsPlain, candidate_references-found}
use green_garden_api.Payments.Transfer.{
  Settings, BankTransferDetails, details, bank_transfer_info, bank_transfer_info-settles,
}
use green_garden_api.Tests.Shop.{ascii, shop, env_at, placed, transfer}

abbrev is_digit : ℕ → Bool
is_digit c = leb 48 c && leb c 57

KnowsAscii-is_digit : KnowsAscii is_digit
KnowsAscii-is_digit c h = ground arith

abbrev owed : Db
owed = record shop { orders = placed ∷ [] }

abbrev paid : World
paid = (process_sepay_webhook ascii is_digit (env_at 50) transfer (session owed)).1

paid_run :
    process_sepay_webhook ascii is_digit (env_at 50) transfer (session owed)
    ≡ (ok (some PaymentMatchStatus.matched), paid)
unfolding process_sepay_webhook green_garden_api.Payments.insert_or_skip
    green_garden_api.Payments.record_payment green_garden_api.Payments.match_payment
    green_garden_api.Payments.match_order candidate_references
    green_garden_api.Payments.find_references green_garden_api.Payments.begins_reference
    green_garden_api.Payments.is_g green_garden_api.Payments.from_keys
    green_garden_api.Payments.earliest green_garden_api.Payments.is_payable
    green_garden_api.Payments.lock_order_by_reference equals_cents is_bank_transfer is_paid
    green_garden_api.Core.Text.ascii_upper green_garden_api.Core.Text.is_space
    green_garden_api.Core.Text.strip green_garden_api.Database.Session.commit
    green_garden_api.Database.Session.flush text_eq
paid_run = refl

process_sepay_webhook_twice_example :
    process_sepay_webhook ascii is_digit (env_at 60) transfer (session paid.committed)
    ≡ (ok none, session paid.committed)
process_sepay_webhook_twice_example =
    process_sepay_webhook_twice ascii is_digit (env_at 50) (env_at 60) transfer owed refl paid_run

process_sepay_webhook-cases_example :
    ((any (has_provider_id 77) owed.payments ≡ true)
      × (process_sepay_webhook ascii is_digit (env_at 50) transfer (session owed)
          ≡ (ok none, rollback (session owed))))
    ⊎ ((any (has_provider_id 77) owed.payments ≡ false)
        × (verdict : Option ℕ × PaymentMatchStatus) × (orders : List Order) × Judged ascii is_digit
            (env_at 50)
            transfer
            owed.orders
            verdict
            orders
        × ((process_sepay_webhook ascii is_digit (env_at 50) transfer (session owed) ≡ (
          ok (some verdict.1),
          record (session owed) {
            committed = settled_db ascii is_digit (env_at 50) transfer verdict orders owed;
            working = settled_db ascii is_digit (env_at 50) transfer verdict orders owed;
          },
        ))
            ⊎ (process_sepay_webhook ascii is_digit (env_at 50) transfer (session owed)
                ≡ (err AppError.database_error, rollback (session owed)))))
process_sepay_webhook-cases_example =
    process_sepay_webhook-cases ascii is_digit (env_at 50) transfer (session owed) refl

-- The transfer is delivered, delivered again, and a second transfer pays the order once more.
abbrev deliveries : List (Env × SePayWebhookPayload)
deliveries =
    (env_at 50, transfer) ∷ (env_at 60, transfer) ∷ (env_at 70, record transfer { id = 78 }) ∷ []

deliveries-DrawsNewRows : DrawsNewRows ascii is_digit deliveries owed
unfolding deliver deliver_all process_sepay_webhook green_garden_api.Payments.insert_or_skip
    green_garden_api.Payments.record_payment green_garden_api.Payments.match_payment
    green_garden_api.Payments.match_order candidate_references
    green_garden_api.Payments.find_references green_garden_api.Payments.begins_reference
    green_garden_api.Payments.is_g green_garden_api.Payments.from_keys
    green_garden_api.Payments.earliest green_garden_api.Payments.is_payable
    green_garden_api.Payments.lock_order_by_reference equals_cents is_bank_transfer is_paid
    green_garden_api.Core.Text.ascii_upper green_garden_api.Core.Text.is_space
    green_garden_api.Core.Text.strip green_garden_api.Database.Session.commit
    green_garden_api.Database.Session.flush text_eq
deliveries-DrawsNewRows = (refl, (refl, (refl, tt)))

unpaid : (id : ℕ) → 0 ≡ sum_of (paid_by id) owed.orders
unfolding is_paid
unpaid id = elim (Bool-cases (11 == id)) [ inl e ↦ rw e refl | inr e ↦ rw e refl ]

IsSettled-owed : IsSettled owed
IsSettled-owed = record { orders = (refl, tt); transactions = tt; balanced = unpaid }

deliver_all-IsSettled_example : IsSettled (deliver_all ascii is_digit deliveries owed)
deliver_all-IsSettled_example =
    deliver_all-IsSettled ascii is_digit deliveries owed deliveries-DrawsNewRows IsSettled-owed

abbrev day : Text
day = codes "20250102"

IsDate-day : IsDate day
IsDate-day = (refl, ground arith)

IsPlain-before : IsPlain (codes "from An ")
unfolding green_garden_api.Payments.is_g
IsPlain-before = (refl, (refl, (refl, (refl, (refl, (refl, (refl, (refl, tt))))))))

content_run :
    transfer.content
    ≡ some (codes "from An " ++ (payment_reference_for (order_number_at day 1) ++ codes " thanks"))
unfolding payment_reference_for order_number_at
content_run = refl

candidate_references-found_example :
    mem_text
      (payment_reference_for (order_number_at day 1))
      (candidate_references ascii is_digit transfer)
    ≡ true
candidate_references-found_example =
    candidate_references-found ascii is_digit KnowsAscii-is_digit day 1 (codes "from An ")
      (codes " thanks") transfer IsDate-day (omega arith) IsPlain-before content_run

abbrev settings : Settings
settings = record {
  sepay_bank_code = codes "MB";
  sepay_bank_name = none;
  sepay_account_number = some (codes "12345");
  sepay_account_holder = none;
}

-- The names alone stand for the query.
abbrev first_names : List (Text × Text) → Text
first_names [] = []
first_names (pair ∷ pairs) = pair.0 ++ first_names pairs

abbrev shown : BankTransferDetails
shown = details first_names settings (codes "12345") (codes "GG202501020001") placed

shown_run : bank_transfer_info first_names settings placed ≡ some shown
unfolding bank_transfer_info is_bank_transfer
shown_run = refl

bank_transfer_info-settles_example :
    (is_bank_transfer placed.payment_method ≡ true)
    × (placed.payment_reference ≡ some shown.reference)
    × ((equals_cents shown.amount placed.total_amount ≡ true)
        ↔ (◌≡◌ {A = ℕ} (placed.total_amount % 100) 0))
bank_transfer_info-settles_example =
    bank_transfer_info-settles first_names settings placed shown_run
