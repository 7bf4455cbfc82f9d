-- ===== src/Orders/Listing.antt =====
-- app/features/orders/service.py: the listing of orders. Days are counted from the epoch.
use green_garden_api.Prelude.{
  ℕ, ◌+◌, ◌*◌, ◌/◌, ◌≡◌, ◌≤◌, ◌↔◌, Bool, true, false, ◌&&◌, ◌||◌, refl, Option, none, some, List,
  Text, ltb, leb, ◌==◌, any, arith,
}
use green_garden_api.Database.Models.{Customer, Order, OrderStatus}
use green_garden_api.Database.Session.{Action, gets}
use green_garden_api.Listing.{Sql, list_page, newest_first, if_given, if_searched}
use green_garden_api.Orders.Status.{same_status}

-- The length of a day, in microseconds.
abbrev pub microseconds_per_day : ℕ
microseconds_per_day = 86_400_000_000

-- `datetime.combine(day, time.min, tzinfo=UTC)`
abbrev pub midnight : ℕ → ℕ
midnight day = day * microseconds_per_day

-- The arguments of `_apply_filters`.
pub record OrderFilters : Type 0 where
  pub search : Option Text
  pub status : Option OrderStatus
  pub customer_id : Option ℕ
  pub date_from : Option ℕ
  pub date_to : Option ℕ

module _ (sql : Sql) where
  -- The condition on an order and the customer that the join puts beside it; an order has one
  -- customer, so the join repeats no order.
  unfoldable pub order_matches : List Customer → Text → Order → Bool
  order_matches customers pattern o =
      any
        (λ (c : Customer).
          c.id == o.customer_id
          && (sql.ilike o.order_number pattern
              || (sql.ilike c.phone pattern || sql.ilike c.name pattern)))
        customers

  unfoldable pub order_filters : List Customer → OrderFilters → Order → Bool
  unfolding order_matches
  order_filters customers filters o =
      if_searched filters.search (λ pattern (p : Order). order_matches customers pattern p) o
      && (if_given filters.status (λ status (p : Order). same_status p.status status) o
          && (if_given filters.customer_id (λ id (p : Order). p.customer_id == id) o
              && (if_given filters.date_from (λ day (p : Order). leb (midnight day) p.created_at) o
                  && if_given filters.date_to
                      (λ day (p : Order). ltb p.created_at (midnight (day + 1))) o)))

  unfoldable pub list_orders : ℕ → ℕ → OrderFilters → Action (List Order × ℕ)
  list_orders page page_size filters = gets (λ db.
      list_page (newest_first (λ (o : Order). o.created_at) (λ (o : Order). o.id))
        (order_filters db.customers filters) page page_size db.orders)

day_start_iff :
    (t day : ℕ) → (leb (day * microseconds_per_day) t ≡ true) ↔ (day ≤ t / microseconds_per_day)
day_start_iff t day = (λ h. ground arith, λ h. ground arith)

day_end_iff :
    (t day : ℕ)
    → (ltb t ((day + 1) * microseconds_per_day) ≡ true) ↔ (t / microseconds_per_day ≤ day)
day_end_iff t day = (λ h. ground arith, λ h. ground arith)

days_iff :
    (a b c : Bool) (t first last : ℕ)
    → ((a
          && (b
              && (c
                  && (leb (first * microseconds_per_day) t
                      && ltb t ((last + 1) * microseconds_per_day)))))
        ≡ true)
      ↔ (((a && (b && (c && true))) ≡ true)
          × (first ≤ t / microseconds_per_day)
          × (t / microseconds_per_day ≤ last))
days_iff false b c t first last = (λ h. ground arith, λ h. ground arith)
days_iff true false c t first last = (λ h. ground arith, λ h. ground arith)
days_iff true true false t first last = (λ h. ground arith, λ h. ground arith)
days_iff true true true t first last = (
  λ h. (refl, (day_start_iff t first).0 (ground arith), (day_end_iff t last).0 (ground arith)),
  λ h. ground (arith, (day_start_iff t first).1 h.1, (day_end_iff t last).1 h.2),
)

-- A listing by two dates keeps the orders that were made on a day from the first to the last, both
-- included, in UTC; the other filters stay as they are.
pub order_filters-days :
    (sql : Sql) (customers : List Customer) (filters : OrderFilters) (o : Order) (first last : ℕ)
    → filters.date_from ≡ some first
    → filters.date_to ≡ some last
    → (order_filters sql customers filters o ≡ true) ↔ (
        (order_filters sql customers (record filters { date_from = none; date_to = none }) o ≡ true)
        × (first ≤ o.created_at / microseconds_per_day)
        × (o.created_at / microseconds_per_day ≤ last))
unfolding order_filters order_matches
order_filters-days sql customers filters o first last h k =
    rw (h, k)
      (days_iff
        (if_searched filters.search (λ pattern (p : Order). order_matches sql customers pattern p)
          o)
        (if_given filters.status (λ status (p : Order). same_status p.status status) o)
        (if_given filters.customer_id (λ id (p : Order). p.customer_id == id) o) o.created_at first
        last)
