-- ===== src/Orders/Status/Ledger.antt =====
-- The ledger of a plant: its stock together with what the orders that are not cancelled hold.
-- Orders and cancellations move units between the two and never change the sum.
use green_garden_api.Prelude.{
  ℕ, ◌+◌, ◌≡◌, refl, ◌∙◌, Bool, true, false, some, List, [], ◌∷◌, arith, ◌==◌, if◌then◌else◌, find?,
  any, map, Bool-cases, inl, inr, update_where, ==→eq, eq_of_some, find?-sound, sum_of,
}
use green_garden_api.Core.Errors.{ok}
use green_garden_api.Database.Models.{Plant, OrderStatus, Order, Db}
use green_garden_api.Orders.Pricing.{has_plant_id}
use green_garden_api.Orders.Stock.{sum_quantities}
use green_garden_api.Orders.Stock.Laws.{
  stock_of, requested_of, quantity_of-sum, stock_of-restock, any-restock,
}
use green_garden_api.Orders.Create.{as_input, has_order_id}
use green_garden_api.Orders.Status.{is_cancelled, is_terminal, ensure_transition_allowed}
use green_garden_api.Orders.Status.Laws.{restored, moved_db}

-- What an order still holds of a plant.
abbrev pub held_by : ℕ → Order → ℕ
held_by id o = if is_cancelled o.status then 0 else requested_of id (map as_input o.items)

-- The units of a plant: in stock, or in orders that are not cancelled.
abbrev pub units_of : ℕ → Db → ℕ
units_of id db = stock_of id db.plants + sum_of (held_by id) db.orders

-- No two orders have one identifier.
abbrev pub HasUniqueIds : List Order → Type 0
HasUniqueIds [] = Unit
HasUniqueIds (o ∷ os) = (any (has_order_id o.id) os ≡ false) × HasUniqueIds os

abbrev pub with_status : OrderStatus → Order → Order
with_status status o = record o { status = status }

absent-update :
    (id : ℕ) (status : OrderStatus) (orders : List Order)
    → any (has_order_id id) orders ≡ false
    → update_where (has_order_id id) (with_status status) orders ≡ orders
absent-update id status [] h = refl
absent-update id status (o ∷ orders) h = ground (arith, absent-update id status orders)

any-update :
    (id k : ℕ) (status : OrderStatus) (orders : List Order)
    → any (has_order_id id) (update_where (has_order_id k) (with_status status) orders)
      ≡ any (has_order_id id) orders
any-update id k status [] = refl
any-update id k status (o ∷ orders) = ground (arith, any-update id k status orders)

pub update-HasUniqueIds :
    (k : ℕ) (status : OrderStatus) (orders : List Order)
    → HasUniqueIds orders
    → HasUniqueIds (update_where (has_order_id k) (with_status status) orders)
update-HasUniqueIds k status [] h = tt
update-HasUniqueIds k status (o ∷ orders) h = (
  elim (Bool-cases (o.id == k)) [
    | inl here ↦ rw here (any-update o.id k status orders ∙ h.0)
    | inr other ↦ rw other (any-update o.id k status orders ∙ h.0)
  ],
  update-HasUniqueIds k status orders h.1,
)

-- Among orders with distinct identifiers a change of status moves one order's holding.
pub held-update :
    (id k : ℕ) (status : OrderStatus) (orders : List Order) (o : Order)
    → HasUniqueIds orders
    → find? (has_order_id k) orders ≡ some o
    → sum_of (held_by id) (update_where (has_order_id k) (with_status status) orders) + held_by id o
      ≡ sum_of (held_by id) orders + held_by id (with_status status o)
held-update id k status [] o h e = cc
held-update id k status (x ∷ orders) o h e = elim (Bool-cases (x.id == k)) [
  | inl here ↦
      let same : x ≡ o = eq_of_some (rw here at e) in
      let gone : any (has_order_id k) orders ≡ false = rw (==→eq x.id k here) at h.0 in
      rw (here, absent-update k status orders gone) (rw same (omega arith))
  | inr later ↦ rw later (omega (arith, held-update id k status orders o h.1 (rw later at e)))
]

-- An allowed change starts from a status that is not `cancelled`.
allowed-open :
    (current target : OrderStatus)
    → ensure_transition_allowed current target ≡ ok tt
    → is_cancelled current ≡ false
unfolding ensure_transition_allowed is_terminal is_cancelled
allowed-open OrderStatus.cancelled target h = cc
allowed-open _ target h = refl

pub stock_of-restored :
    (id : ℕ) (b : Bool) (o : Order) (plants : List Plant)
    → any (has_plant_id id) plants ≡ true
    → stock_of id (restored b o plants)
      ≡ stock_of id plants + (if b then requested_of id (map as_input o.items) else 0)
stock_of-restored id true o plants h = omega (
  arith,
  stock_of-restock id (sum_quantities (map as_input o.items) []) plants h,
  quantity_of-sum id (map as_input o.items) [],
)
stock_of-restored id false o plants h = omega arith

pub any-restored :
    (id : ℕ) (b : Bool) (o : Order) (plants : List Plant)
    → any (has_plant_id id) (restored b o plants) ≡ any (has_plant_id id) plants
any-restored id true o plants = any-restock id (sum_quantities (map as_input o.items) []) plants
any-restored id false o plants = refl

-- An allowed change of an order's status keeps the units of every listed plant.
pub moved-units :
    (id k : ℕ) (status : OrderStatus) (o : Order) (db : Db)
    → HasUniqueIds db.orders
    → any (has_plant_id id) db.plants ≡ true
    → find? (has_order_id k) db.orders ≡ some o
    → ensure_transition_allowed o.status status ≡ ok tt
    → units_of id (moved_db o status db) ≡ units_of id db
moved-units id k status o db unique listed found allowed =
    let same : o.id ≡ k = ==→eq o.id k (find?-sound (has_order_id k) db.orders found) in
    let moved = held-update id k status db.orders o unique found in
    let open' = allowed-open o.status status allowed in
    let stock = stock_of-restored id (is_cancelled status) o db.plants listed in
    rw same (ground (arith, moved, open', stock))
