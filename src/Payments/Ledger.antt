-- ===== src/Payments/Ledger.antt =====
-- Histories of deliveries: each transaction is recorded once, and each paid order was paid by one.
use green_garden_api.Prelude.{
  ℕ, ◌≡◌, refl, ◌∙◌, ap, sym, Bool, true, false, Option, none, some, List, [], ◌∷◌, ◌++◌, Text,
  arith, ◌==◌, ◌+◌, ◌||◌, ◌&&◌, if◌then◌else◌, any, update_where, update_where-absent, eq_of_some,
  leb, ==_refl, Bool-cases, Option-cases, inl, inr, ==→eq, sum_of, sum_of-append, find?, select,
}
use mathlib.Core.Path.{subst}
use green_garden_api.Core.Errors.{AppError, Result, ok}
use green_garden_api.Core.Text.{CaseMap}
use green_garden_api.Database.Models.{Order, PaymentMatchStatus, PaymentTransaction, Db}
use green_garden_api.Database.Session.{World, Env, settle}
use green_garden_api.Orders.Create.{has_order_id}
use green_garden_api.Orders.Status.Ledger.{HasUniqueIds}
use green_garden_api.Orders.Histories.{session}
use green_garden_api.Payments.{
  SePayWebhookPayload, is_paid, lock_order_by_reference, has_provider_id, has_transaction_id,
  as_paid, candidate_references, insert_or_skip, is_payable, earliest, process_sepay_webhook,
}
use green_garden_api.Payments.Laws.{Judged, target, recorded_row, process_sepay_webhook-cases}

any-append-last :
    (p : PaymentTransaction → Bool) (ts : List PaymentTransaction) (t : PaymentTransaction)
    → any p (ts ++ t ∷ []) ≡ (any p ts || p t)
any-append-last p [] t = ground arith
any-append-last p (u ∷ ts) t = ground (arith, any-append-last p ts t)

module _ (cases : CaseMap) (is_decimal : ℕ → Bool) where
  -- After a delivery that returned, the next delivery of the same transaction in a new session
  -- returns `None` and changes nothing, whatever the environment is then. The identifier of the
  -- first delivery's row is supposed to be new.
  pub process_sepay_webhook_twice :
      (env env' : Env) (payload : SePayWebhookPayload) (db : Db)
      → any (has_transaction_id (env.uuid 0)) db.payments ≡ false
      → {result : Option PaymentMatchStatus} {w : World}
      → process_sepay_webhook cases is_decimal env payload (session db) ≡ (ok result, w)
      → process_sepay_webhook cases is_decimal env' payload (session w.committed)
        ≡ (ok none, session w.committed)
  unfolding process_sepay_webhook insert_or_skip
  process_sepay_webhook_twice env env' payload db fresh {result} {w} h = rw (recorded, settle) refl
    where
      clash : {e : AppError} → Result.err e ≡ ok result → ⊥
      clash k = cc

      recorded : any (has_provider_id payload.id) w.committed.payments ≡ true
      recorded =
          elim (process_sepay_webhook-cases cases is_decimal env payload (session db) fresh) [
            | inl (known, same) ↦
                ap
                  (λ (r : Result (Option PaymentMatchStatus) × World).
                    any (has_provider_id payload.id) r.1.committed.payments)
                  (sym h ∙ same)
                ∙ known
            | inr (new, verdict, orders, judged, inl stored) ↦
                ap
                  (λ (r : Result (Option PaymentMatchStatus) × World).
                    any (has_provider_id payload.id) r.1.committed.payments)
                  (sym h ∙ stored)
                ∙ (any-append-last (has_provider_id payload.id) db.payments
                      (recorded_row cases is_decimal env payload verdict)
                    ∙ ground (arith, ==_refl payload.id))
            | inr (new, verdict, orders, judged, inr refused) ↦ absurd (
                clash
                  (ap (λ (r : Result (Option PaymentMatchStatus) × World). r.0) (sym refused ∙ h)))
          ]

abbrev is_matched : PaymentMatchStatus → Bool
is_matched PaymentMatchStatus.matched = true
is_matched _ = false

abbrev names_order : ℕ → Option ℕ → Bool
names_order id none = false
names_order id (some k) = k == id

-- One for a transaction that settled the order.
abbrev pub settles : ℕ → PaymentTransaction → ℕ
settles id t = if is_matched t.match_status && names_order id t.order_id then 1 else 0

-- One for the order itself when it is paid.
abbrev pub paid_by : ℕ → Order → ℕ
paid_by id o = if o.id == id && is_paid o.payment_status then 1 else 0

-- No transaction of the provider is recorded twice.
abbrev pub HasUniqueTransactions : List PaymentTransaction → Type 0
HasUniqueTransactions [] = Unit
HasUniqueTransactions (t ∷ ts) =
    (any (has_provider_id t.provider_transaction_id) ts ≡ false) × HasUniqueTransactions ts

append-HasUniqueTransactions :
    (ts : List PaymentTransaction) (t : PaymentTransaction)
    → HasUniqueTransactions ts
    → any (has_provider_id t.provider_transaction_id) ts ≡ false
    → HasUniqueTransactions (ts ++ t ∷ [])
append-HasUniqueTransactions [] t h e = (refl, tt)
append-HasUniqueTransactions (u ∷ ts) t h e = (
  any-append-last (has_provider_id u.provider_transaction_id) ts t ∙ ground (arith, h.0),
  append-HasUniqueTransactions ts t h.1 (ground arith),
)

any-as_paid :
    (id k now : ℕ) (orders : List Order)
    → any (has_order_id id) (update_where (has_order_id k) (as_paid now) orders)
      ≡ any (has_order_id id) orders
any-as_paid id k now [] = refl
any-as_paid id k now (o ∷ orders) = ground (arith, any-as_paid id k now orders)

as_paid-HasUniqueIds :
    (k now : ℕ) (orders : List Order)
    → HasUniqueIds orders
    → HasUniqueIds (update_where (has_order_id k) (as_paid now) orders)
as_paid-HasUniqueIds k now [] h = tt
as_paid-HasUniqueIds k now (o ∷ orders) h = (
  elim (Bool-cases (o.id == k)) [
    | inl here ↦ rw here (any-as_paid o.id k now orders ∙ h.0)
    | inr other ↦ rw other (any-as_paid o.id k now orders ∙ h.0)
  ],
  as_paid-HasUniqueIds k now orders h.1,
)

other_id :
    (j k : ℕ) (orders : List Order) {o : Order}
    → find? (has_order_id k) orders ≡ some o
    → any (has_order_id j) orders ≡ false
    → (j == k) ≡ false
other_id j k [] {o} e h = cc
other_id j k (x ∷ orders) {o} e h = elim (Bool-cases (x.id == k)) [
  | inl here ↦ ground arith
  | inr later ↦ other_id j k orders {o = o} (rw later at e) (ground arith)
]

-- The order that a query finds is the one that its identifier leads to.
find?-earliest :
    (p : Order → Bool) (orders : List Order) {o : Order}
    → HasUniqueIds orders
    → earliest (select p orders) ≡ some o
    → (find? (has_order_id o.id) orders ≡ some o) × (p o ≡ true)
unfolding earliest
find?-earliest p [] {o} h e = cc
find?-earliest p (x ∷ orders) {o} h e =
    let step =
      λ (k : earliest (select p orders) ≡ some o). later (find?-earliest p orders {o = o} h.1 k) in
    elim (Bool-cases (p x)) [
      | inl yes' ↦ elim (Option-cases (earliest (select p orders))) [
        | inl alone ↦ here yes' (rw (yes', alone) at e)
        | inr (q, found) ↦ elim (Bool-cases (leb x.created_at q.created_at)) [
          | inl first ↦ here yes' (rw (yes', found, first) at e)
          | inr second ↦ step (found ∙ rw (yes', found, second) at e)
        ]
      ]
      | inr no' ↦ step (rw no' at e)
    ]
  where
    here :
        p x ≡ true
        → some x ≡ some o
        → (find? (has_order_id o.id) (x ∷ orders) ≡ some o) × (p o ≡ true)
    here yes' same =
        let equal : x ≡ o = eq_of_some same in (rw (← equal, ==_refl x.id) refl, rw (← equal) yes')

    later :
        (find? (has_order_id o.id) orders ≡ some o) × (p o ≡ true)
        → (find? (has_order_id o.id) (x ∷ orders) ≡ some o) × (p o ≡ true)
    later (there, good) = (rw (other_id x.id o.id orders there h.0) there, good)

-- Among orders with distinct identifiers a payment adds one paid order.
paid-update :
    (id k now : ℕ) (orders : List Order) (o : Order)
    → HasUniqueIds orders
    → find? (has_order_id k) orders ≡ some o
    → is_paid o.payment_status ≡ false
    → sum_of (paid_by id) (update_where (has_order_id k) (as_paid now) orders)
      ≡ sum_of (paid_by id) orders + (if k == id then 1 else 0)
unfolding is_paid
paid-update id k now [] o h e unpaid = cc
paid-update id k now (x ∷ orders) o h e unpaid = elim (Bool-cases (x.id == k)) [
  | inl here ↦
      let same : x ≡ o = eq_of_some (rw here at e) in
      let gone : any (has_order_id k) orders ≡ false = rw (==→eq x.id k here) at h.0 in
      let pending : is_paid x.payment_status ≡ false = rw same unpaid in
      let key = ==→eq x.id k here in
      rw (here, update_where-absent (has_order_id k) (as_paid now) orders gone)
        (ground (arith, pending, key))
  | inr later ↦ rw later (omega (arith, paid-update id k now orders o h.1 (rw later at e) unpaid))
]

-- What deliveries keep: distinct orders and transactions, and, for each order, as many transactions
-- that settled it as it is paid.
pub record IsSettled (db : Db) : Type 0 where
  pub orders : HasUniqueIds db.orders
  pub transactions : HasUniqueTransactions db.payments
  pub balanced : (id : ℕ) → sum_of (settles id) db.payments ≡ sum_of (paid_by id) db.orders

module _ (cases : CaseMap) (is_decimal : ℕ → Bool) where
  -- The order that the delivery's references lead to is listed.
  find?-target :
      (env : Env) (payload : SePayWebhookPayload) (orders : List Order) {o : Order}
      → HasUniqueIds orders
      → target cases is_decimal env payload orders ≡ some o
      → find? (has_order_id o.id) orders ≡ some o
  unfolding lock_order_by_reference
  find?-target env payload orders {o} unique h =
      go (candidate_references cases is_decimal payload) refl
    where
      go :
          (references : List Text)
          → candidate_references cases is_decimal payload ≡ references
          → find? (has_order_id o.id) orders ≡ some o
      go [] e = absurd (clash (rw e at h))
        where
          clash : none ≡ some o → ⊥
          clash k = cc
      go (r ∷ references) e =
          (find?-earliest (is_payable (r ∷ references)) orders unique (rw e at h)).0

  Judged-balanced :
      (env : Env) (payload : SePayWebhookPayload) (old : List Order)
      (verdict : Option ℕ × PaymentMatchStatus) (new : List Order)
      → HasUniqueIds old
      → Judged cases is_decimal env payload old verdict new
      → HasUniqueIds new
        × ((id : ℕ)
            → sum_of (paid_by id) new
              ≡ sum_of (paid_by id) old
                + settles id (recorded_row cases is_decimal env payload verdict))
  Judged-balanced env payload old (order_id, PaymentMatchStatus.ignored) new unique (_, _, same) =
      (subst HasUniqueIds (sym same) unique, λ id. rw same (omega arith))
  Judged-balanced env payload old (order_id, PaymentMatchStatus.unmatched) new unique
        (_, _, _, same) =
      (subst HasUniqueIds (sym same) unique, λ id. rw same (omega arith))
  Judged-balanced env payload old (order_id, PaymentMatchStatus.already_paid) new unique
        (_, _, _, _, _, same) =
      (subst HasUniqueIds (sym same) unique, λ id. rw same (omega arith))
  Judged-balanced env payload old (order_id, PaymentMatchStatus.amount_mismatch) new unique
        (_, _, _, _, _, _, same) =
      (subst HasUniqueIds (sym same) unique, λ id. rw same (omega arith))
  Judged-balanced env payload old (order_id, PaymentMatchStatus.matched) new unique
        (_, o, found, named, unpaid, _, same) =
      (
        subst HasUniqueIds (sym same) (as_paid-HasUniqueIds o.id env.now old unique),
        λ id.
            rw (same, named)
              (paid-update id o.id env.now old o unique (find?-target env payload old unique found)
                unpaid),
      )

  -- What is committed after a delivery, whether it was acknowledged or not.
  unfoldable pub deliver : Env → SePayWebhookPayload → Db → Db
  deliver env payload db =
      (process_sepay_webhook cases is_decimal env payload (session db)).1.committed

  deliver-IsSettled :
      (env : Env) (payload : SePayWebhookPayload) (db : Db)
      → any (has_transaction_id (env.uuid 0)) db.payments ≡ false
      → IsSettled db
      → IsSettled (deliver env payload db)
  unfolding deliver
  deliver-IsSettled env payload db fresh settled =
      elim (process_sepay_webhook-cases cases is_decimal env payload (session db) fresh) [
        | inl (known, same) ↦ subst IsSettled (sym (committed same)) settled
        | inr (new, verdict, orders, judged, inr refused) ↦
            subst IsSettled (sym (committed refused)) settled
        | inr (new, verdict, orders, judged, inl stored) ↦
            let (unique, balanced) =
              Judged-balanced env payload db.orders verdict orders settled.orders judged in
            let row = recorded_row cases is_decimal env payload verdict in
            subst IsSettled (sym (committed stored)) (record {
              orders = unique;
              transactions = append-HasUniqueTransactions db.payments row settled.transactions new;
              balanced = λ id. omega (
                arith,
                sum_of-append (settles id) db.payments (row ∷ []),
                balanced id,
                settled.balanced id,
              );
            })
      ]
    where
      committed :
          {r : Result (Option PaymentMatchStatus) × World}
          → process_sepay_webhook cases is_decimal env payload (session db) ≡ r
          → (process_sepay_webhook cases is_decimal env payload (session db)).1.committed
            ≡ r.1.committed
      committed h = ap (λ (r : Result (Option PaymentMatchStatus) × World). r.1.committed) h

  unfoldable pub deliver_all : List (Env × SePayWebhookPayload) → Db → Db
  deliver_all [] db = db
  deliver_all ((env, payload) ∷ history) db = deliver_all history (deliver env payload db)

  -- At each delivery the identifier that a new row would get is new.
  abbrev pub DrawsNewRows : List (Env × SePayWebhookPayload) → Db → Type 0
  DrawsNewRows [] db = Unit
  DrawsNewRows ((env, payload) ∷ history) db =
      (any (has_transaction_id (env.uuid 0)) db.payments ≡ false)
      × DrawsNewRows history (deliver env payload db)

  -- If the orders have distinct identifiers, each transaction is recorded at most once, and for each
  -- order the number of recorded transactions that settled it is one if it is paid and else none, the
  -- same holds after any sequence of deliveries, repeated and refused ones included, in which every
  -- delivery draws a new identifier for its row.
  pub deliver_all-IsSettled :
      (history : List (Env × SePayWebhookPayload)) (db : Db)
      → DrawsNewRows history db
      → IsSettled db
      → IsSettled (deliver_all history db)
  unfolding deliver_all
  deliver_all-IsSettled [] db fresh settled = settled
  deliver_all-IsSettled ((env, payload) ∷ history) db fresh settled =
      deliver_all-IsSettled history (deliver env payload db) fresh.1
        (deliver-IsSettled env payload db fresh.0 settled)
