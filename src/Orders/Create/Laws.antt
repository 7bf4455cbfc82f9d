-- ===== src/Orders/Create/Laws.antt =====
-- A created order: what the customer is charged, what is taken from the stock, and that the quote
-- has shown the same.
use green_garden_api.Prelude.{
  ℕ, ◌+◌, ◌≡◌, refl, ◌∙◌, ap, sym, false, Option, some, List, find?, any, select, mem_text,
}
use green_garden_api.Core.Errors.{AppError, Result, ok, or_raise, or_raise-eq-ok}
use green_garden_api.Database.Models.{Plant, Order, Db}
use green_garden_api.Database.Session.{World, Env, StorefrontEntity, atomically, notify_storefront}
use green_garden_api.Database.Session.Rules.{bind-eq-ok, atomically-eq-ok, notify_storefront-frame}
use green_garden_api.Orders.Number.{order_numbers}
use green_garden_api.Orders.Number.Laws.{generate_order_number-fresh}
use green_garden_api.Orders.Pricing.{OrderPrice, price_order}
use green_garden_api.Orders.Stock.Laws.{stock_of, requested_of}
use green_garden_api.Orders.Admission.{is_ordered, ordered_plants}
use green_garden_api.Orders.Create.{
  NewOrder, has_order_id, place_order, create_order, quote_order, get_order,
}
use green_garden_api.Orders.Create.Inversion.{IsPlaced, place_order-IsPlaced}
use green_garden_api.Orders.Create.Placed.{placed-orders, placed-stock, admission, find?-last}
use green_garden_api.Orders.Create.Charges.{row, IsCharged, placed-row, placed-IsCharged}

pub get_order-eq-ok :
    (id : ℕ) (w : World) {order : Order} {w' : World}
    → get_order id w ≡ (ok order, w')
    → (find? (has_order_id id) w.working.orders ≡ some order) × (w' ≡ w)
unfolding get_order
get_order-eq-ok id w h = (
  or_raise-eq-ok (find? (has_order_id id) w.working.orders) AppError.order_not_found
      (ap (λ (r : Result Order × World). r.0) h),
  sym (ap (λ (r : Result Order × World). r.1) h),
)

-- `create_order` that returned has placed the order, and returns the row with the new identifier.
pub create_order-eq-ok :
    (env : Env) (input : NewOrder) (w : World) {order : Order} {w' : World}
    → create_order env input w ≡ (ok order, w')
    → (u : World) × IsPlaced env input w u
      × (w'.working ≡ u.working)
      × (w'.committed ≡ u.committed)
      × (find? (has_order_id (env.uuid 1)) u.working.orders ≡ some order)
unfolding create_order
create_order-eq-ok env input w {order} {w'} h =
    let (slugs, u, placed, told) = bind-eq-ok (atomically (place_order env input)) _ w h in
    let (_, x, noticed, last) =
      bind-eq-ok (notify_storefront env StorefrontEntity.plants slugs) (λ _. get_order (env.uuid 1))
        u told in
    let frame = rw noticed at (notify_storefront-frame env StorefrontEntity.plants slugs u) in
    let (found, same) = get_order-eq-ok (env.uuid 1) x last in
    (
      u,
      place_order-IsPlaced env input w (atomically-eq-ok (place_order env input) w placed),
      ap (λ (v : World). v.working) same ∙ frame.0,
      ap (λ (v : World). v.committed) same ∙ frame.1,
      rw frame.0 at found,
    )

-- A created order has taken from the stock of each plant exactly the sum over its lines, so no
-- plant had less than that sum.
pub create_order-stock :
    (env : Env) (input : NewOrder) (w : World) {order : Order} {w' : World}
    → create_order env input w ≡ (ok order, w')
    → (id : ℕ)
    → stock_of id w'.committed.plants + requested_of id input.items ≡ stock_of id w.working.plants
create_order-stock env input w h id =
    let (u, placed, _, stored, _) = create_order-eq-ok env input w h in
    ap (λ (db : Db). stock_of id db.plants + requested_of id input.items)
      (stored ∙ placed.committed)
    ∙ placed-stock env input placed id

-- A created order, whose identifier was new, holds the lines that were asked for. Its subtotal is
-- the sum of unit price times quantity over these lines, its total is subtotal plus fee and fits the
-- column, and it is pending in both respects. The fee is the flat fee for a subtotal below the
-- threshold and none above it (at exactly the threshold it is one of the two), and none without lines.
pub create_order-IsCharged :
    (env : Env) (input : NewOrder) (w : World) {order : Order} {w' : World}
    → any (has_order_id (env.uuid 1)) w.working.orders ≡ false
    → create_order env input w ≡ (ok order, w')
    → IsCharged input.items order
create_order-IsCharged env input w fresh h =
    let (u, placed, _, _, found) = create_order-eq-ok env input w h in
    rw (placed-row env input placed fresh found) (placed-IsCharged env input placed)

-- A quote of the same cart in the same state shows the amounts that the order then charges, if the
-- order is created and its identifier was new.
pub quote_order-create_order :
    (env : Env) (input : NewOrder) (w : World) {order : Order} {w' : World}
    → any (has_order_id (env.uuid 1)) w.working.orders ≡ false
    → create_order env input w ≡ (ok order, w')
    → (quote : OrderPrice) × (quote_order input.items w ≡ (ok quote, w))
      × (quote.subtotal ≡ order.subtotal_amount)
      × (quote.shipping_fee ≡ order.shipping_fee)
      × (quote.total ≡ order.total_amount)
      × (quote.currency ≡ order.currency)
unfolding quote_order
quote_order-create_order env input w {order} fresh h =
    let (u, placed, _, _, found) = create_order-eq-ok env input w h in
    let quote = price_order input.items (ordered_plants input.items w.working) in
    let same : quote ≡ placed.priced =
      ap (λ (plants : List Plant). price_order input.items (select (is_ordered input.items) plants))
        (sym placed.untouched.2)
      ∙ sym (admission env input placed).priced_lem in
    let row = placed-row env input placed fresh found in
    (
      quote,
      refl,
      ap (λ (p : OrderPrice). p.subtotal) same ∙ sym (ap (λ (o : Order). o.subtotal_amount) row),
      ap (λ (p : OrderPrice). p.shipping_fee) same ∙ sym (ap (λ (o : Order). o.shipping_fee) row),
      ap (λ (p : OrderPrice). p.total) same ∙ sym (ap (λ (o : Order). o.total_amount) row),
      ap (λ (p : OrderPrice). p.currency) same ∙ sym (ap (λ (o : Order). o.currency) row),
    )

-- The number of a created order, whose identifier was new, is none of the numbers that the orders
-- had before.
pub create_order-number :
    (env : Env) (input : NewOrder) (w : World) {order : Order} {w' : World}
    → any (has_order_id (env.uuid 1)) w.working.orders ≡ false
    → create_order env input w ≡ (ok order, w')
    → mem_text order.order_number (order_numbers w.working) ≡ false
create_order-number env input w fresh h =
    let (u, placed, _, _, found) = create_order-eq-ok env input w h in
    rw (placed-row env input placed fresh found)
      (rw (← placed.untouched.3) (generate_order_number-fresh env.today placed.session.working))

-- A placed order is found again under its identifier.
pub get_order-placed :
    (env : Env) (input : NewOrder) (w u x : World) (placed : IsPlaced env input w u)
    → any (has_order_id (env.uuid 1)) w.working.orders ≡ false
    → x.working ≡ u.working
    → (get_order (env.uuid 1) x).0 ≡ ok (row env input placed)
unfolding get_order
get_order-placed env input w u x placed fresh same =
    let found : find? (has_order_id (env.uuid 1)) x.working.orders ≡ some (row env input placed) =
      ap (λ (db : Db). find? (has_order_id (env.uuid 1)) db.orders) same
      ∙ (ap (find? (has_order_id (env.uuid 1))) (placed-orders env input placed fresh)
          ∙ find?-last (env.uuid 1) w.working.orders (row env input placed) fresh refl) in
    ap (λ (o : Option Order). or_raise o AppError.order_not_found) found
