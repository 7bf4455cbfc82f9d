-- ===== src/Orders/Create/Charges.antt =====
-- What a placed order charges, against the sums over its own lines.
use green_garden_api.Prelude.{
  ℕ, ◌+◌, ◌*◌, ◌≤◌, ◌≡◌, refl, ◌∙◌, ap, sym, Bool, true, false, some, List, [], ◌∷◌, arith, find?,
  any, eq_of_some, map, sum_of, All,
}
use mathlib.Core.Path.{ap₂, subst}
use green_garden_api.Database.Models.{Plant, OrderStatus, PaymentStatus, OrderItem, Order}
use green_garden_api.Database.Session.{World, Env}
use green_garden_api.Orders.Number.{generate_order_number}
use green_garden_api.Orders.Pricing.{
  OrderItemInput, OrderPrice, max_total_amount, available, price_line,
}
use green_garden_api.Orders.Pricing.Laws.{charge, is_offered, IsFeeDue, price_order_lem}
use green_garden_api.Orders.Admission.{ordered_plants}
use green_garden_api.Orders.Create.{as_input, NewOrder, has_order_id, order_item}
use green_garden_api.Orders.Create.Inversion.{IsPlaced}
use green_garden_api.Orders.Create.Placed.{placed_order, placed-orders, admission, find?-last}

abbrev pub item_total : OrderItem → ℕ
item_total item = item.unit_price * item.quantity

abbrev pub has_items : List OrderItemInput → Bool
has_items [] = false
has_items (_ ∷ _) = true

-- The order holds the lines that were asked for; its subtotal is the sum of unit price times
-- quantity over its lines, the fee is one that is due for that subtotal, the total is their sum and
-- fits the column, and the order is pending in both respects.
pub record IsCharged (items : List OrderItemInput) (order : Order) : Type 0 where
  pub lines : map as_input order.items ≡ items
  pub subtotal : order.subtotal_amount ≡ sum_of item_total order.items
  pub fee : IsFeeDue (has_items items) order.subtotal_amount order.shipping_fee
  pub total : order.total_amount ≡ order.subtotal_amount + order.shipping_fee
  pub fits : order.total_amount ≤ max_total_amount
  pub begins : (order.status ≡ OrderStatus.pending) × (order.payment_status ≡ PaymentStatus.pending)

price_line-item :
    (plants : List Plant) (item : OrderItemInput) → (price_line plants item).item ≡ item
unfolding price_line
price_line-item plants item = ground arith

lines_lem :
    (locked plants : List Plant) (items : List OrderItemInput)
    → map as_input (map (order_item locked) (map (price_line plants) items)) ≡ items
lines_lem locked plants [] = refl
lines_lem locked plants (item ∷ items) =
    ap₂ ◌∷◌ (price_line-item plants item) (lines_lem locked plants items)

line_total_lem :
    (plants : List Plant) (item : OrderItemInput)
    → available (price_line plants item) ≡ true
    → (charge plants item
        ≡ (price_line plants item).unit_price * (price_line plants item).item.quantity)
      × (is_offered plants item ≡ true)
unfolding price_line
line_total_lem plants item h = (ground arith, ground arith)

subtotal_lem :
    (locked plants : List Plant) (items : List OrderItemInput)
    → All (λ l. available l ≡ true) (map (price_line plants) items)
    → sum_of (charge plants) items
      ≡ sum_of item_total (map (order_item locked) (map (price_line plants) items))
subtotal_lem locked plants [] h = refl
subtotal_lem locked plants (item ∷ items) h =
    ap₂ ◌+◌ (line_total_lem plants item h.0).0 (subtotal_lem locked plants items h.1)

offered_lem :
    (plants : List Plant) (items : List OrderItemInput)
    → All (λ l. available l ≡ true) (map (price_line plants) items)
    → any (is_offered plants) items ≡ has_items items
offered_lem plants [] h = refl
offered_lem plants (item ∷ items) h = rw (line_total_lem plants item h.0).1 refl

module _ (env : Env) (input : NewOrder) {w u : World} (placed : IsPlaced env input w u) where
  abbrev locked : List Plant
  locked = ordered_plants input.items placed.session.working

  abbrev pub row : Order
  row =
      placed_order env input placed.customer placed.priced
        (generate_order_number env.today placed.session.working) locked

  pub placed-row :
      any (has_order_id (env.uuid 1)) w.working.orders ≡ false
      → {order : Order} → find? (has_order_id (env.uuid 1)) u.working.orders ≡ some order
      → order ≡ row
  placed-row fresh {order} found =
      let there = rw (placed-orders env input placed fresh) at found in
      eq_of_some (sym there ∙ find?-last (env.uuid 1) w.working.orders row fresh refl)

  pub placed-IsCharged : IsCharged input.items row
  placed-IsCharged =
      let adm = admission env input placed in
      let spec = price_order_lem input.items locked in
      let same = adm.priced_lem in
      let lines : placed.priced.lines ≡ map (price_line locked) input.items =
        ap (λ (p : OrderPrice). p.lines) same ∙ spec.0 in
      let sells : All (λ l. available l ≡ true) (map (price_line locked) input.items) =
        rw lines at adm.lines in
      let subtotal : placed.priced.subtotal ≡ sum_of (charge locked) input.items =
        ap (λ (p : OrderPrice). p.subtotal) same ∙ spec.1 in
      record {
        lines = rw lines (lines_lem locked locked input.items);
        subtotal = rw lines (subtotal ∙ subtotal_lem locked locked input.items sells);
        fee =
            rw (subtotal, ap (λ (p : OrderPrice). p.shipping_fee) same)
              (rw (offered_lem locked input.items sells) at spec.2);
        total = subst (λ (p : OrderPrice). p.total ≡ p.subtotal + p.shipping_fee) (sym same) spec.3;
        fits = adm.fits;
        begins = (refl, refl);
      }
