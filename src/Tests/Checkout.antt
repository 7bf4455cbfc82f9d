-- ===== src/Tests/Checkout.antt =====
-- A checkout in the shop, and what becomes of its order.
use green_garden_api.Prelude.{
  ◌≡◌, ◌⊎◌, ◌↔◌, ◌+◌, refl, codes, ◌∷◌, ℕ, Text, [], List, some, false, any, map, find?, sum_of,
  mem_text, arith,
}
use green_garden_api.Core.Errors.{AppError, ok, err}
use green_garden_api.Database.Models.{Order, OrderStatus}
use green_garden_api.Database.Session.{World, Env}
use green_garden_api.Orders.Pricing.{
  OrderPrice, price_order, price_line, order_currency, shipping_fee_for, has_plant_id,
}
use green_garden_api.Orders.Pricing.Laws.{charge, is_offered, IsFeeDue, price_order_lem}
use green_garden_api.Orders.Number.{
  order_number_at, payment_reference_for, order_numbers, generate_order_number,
}
use green_garden_api.Orders.Number.Laws.{
  IsDate, generate_order_number-fresh, payment_reference_for-injective,
}
use green_garden_api.Orders.Stock.Laws.{stock_of, requested_of}
use green_garden_api.Orders.Create.{create_order, quote_order, has_order_id}
use green_garden_api.Orders.Create.Charges.{IsCharged}
use green_garden_api.Orders.Create.Laws.{
  create_order-stock, create_order-IsCharged, quote_order-create_order, create_order-number,
}
use green_garden_api.Orders.Create.Refusal.{create_order-refused}
use green_garden_api.Orders.Status.{ensure_transition_allowed, update_order_status}
use green_garden_api.Orders.Status.Transitions.{MayMove, ensure_transition_allowed_iff}
use green_garden_api.Orders.Status.Laws.{moved_db, update_order_status-committed}
use green_garden_api.Orders.Status.Ledger.{units_of}
use green_garden_api.Orders.Histories.{
  Request, session, serve, serve_all, DrawsNewIds, serve_all-units,
}
use green_garden_api.Orders.Status.{change_status}
use green_garden_api.Orders.Overlap.{change_status-restocks_twice}
use green_garden_api.Orders.Pricing.{has_plant_id}
use green_garden_api.Orders.Create.{as_input}
use green_garden_api.Prelude.{◌*◌, true}
use green_garden_api.Tests.Shop.{shop, env_at, refusing_at, cart, large_cart, placed}

abbrev after : World
after = (create_order (env_at 10) cart (session shop)).1

create_order_run : create_order (env_at 10) cart (session shop) ≡ (ok placed, after)
unfolding create_order green_garden_api.Orders.Create.place_order
    green_garden_api.Customers.resolve_customer_for_order green_garden_api.Orders.Admission.admit
    green_garden_api.Orders.Create.write_order green_garden_api.Database.Session.commit
    green_garden_api.Database.Session.notify_storefront green_garden_api.Orders.Create.get_order
    generate_order_number green_garden_api.Orders.Create.reference_of
    green_garden_api.Orders.Pricing.snapshot_name
create_order_run = refl

create_order-stock_example :
    stock_of 1 after.committed.plants + requested_of 1 cart.items ≡ stock_of 1 shop.plants
create_order-stock_example = create_order-stock (env_at 10) cart (session shop) create_order_run 1

create_order-IsCharged_example : IsCharged cart.items placed
create_order-IsCharged_example =
    create_order-IsCharged (env_at 10) cart (session shop) refl create_order_run

quote_order-create_order_example :
    (quote : OrderPrice) × (quote_order cart.items (session shop) ≡ (ok quote, session shop))
    × (quote.subtotal ≡ placed.subtotal_amount)
    × (quote.shipping_fee ≡ placed.shipping_fee)
    × (quote.total ≡ placed.total_amount)
    × (quote.currency ≡ placed.currency)
quote_order-create_order_example =
    quote_order-create_order (env_at 10) cart (session shop) refl create_order_run

create_order-number_example : mem_text placed.order_number (order_numbers shop) ≡ false
create_order-number_example =
    create_order-number (env_at 10) cart (session shop) refl create_order_run

-- The database refuses the commit, behind all writes.
abbrev refused : World
refused = (create_order (refusing_at 10) cart (session shop)).1

refused_run :
    create_order (refusing_at 10) cart (session shop) ≡ (err AppError.database_error, refused)
unfolding create_order green_garden_api.Orders.Create.place_order
    green_garden_api.Customers.resolve_customer_for_order green_garden_api.Orders.Admission.admit
    green_garden_api.Orders.Create.write_order green_garden_api.Database.Session.commit
    green_garden_api.Database.Session.notify_storefront green_garden_api.Orders.Create.get_order
    generate_order_number green_garden_api.Orders.Create.reference_of
    green_garden_api.Orders.Pricing.snapshot_name
refused_run = refl

create_order-refused_example :
    (refused.committed ≡ shop) × (refused.outbox ≡ []) × (refused.working ≡ shop)
create_order-refused_example =
    create_order-refused (refusing_at 10) cart (session shop) refl refused_run

-- There are fewer palms than the cart asks for.
large_cart_run :
    (create_order (env_at 10) large_cart (session shop)).0
    ≡ err (AppError.insufficient_stock (codes "palm") 4 3)
unfolding create_order green_garden_api.Orders.Create.place_order
    green_garden_api.Customers.resolve_customer_for_order green_garden_api.Orders.Admission.admit
    green_garden_api.Orders.Create.write_order green_garden_api.Database.Session.commit
    green_garden_api.Database.Session.notify_storefront green_garden_api.Orders.Create.get_order
    generate_order_number green_garden_api.Orders.Create.reference_of
    green_garden_api.Orders.Pricing.snapshot_name
large_cart_run = refl

-- The order is confirmed, and cancelled later; a third change is refused.
abbrev history : List (Env × Request)
history =
    (env_at 10, Request.place cart)
    ∷ (env_at 20, Request.move 11 OrderStatus.confirmed)
    ∷ (env_at 30, Request.move 11 OrderStatus.cancelled)
    ∷ (env_at 40, Request.move 11 OrderStatus.pending)
    ∷ []

history-DrawsNewIds : DrawsNewIds history shop
unfolding serve serve_all update_order_status green_garden_api.Orders.Status.change_status
    green_garden_api.Orders.Status.ensure_transition_allowed
    green_garden_api.Orders.Status.move_order green_garden_api.Orders.Status.notify_restocked
    green_garden_api.Orders.Status.restore_if green_garden_api.Orders.Status.restore_stock
    green_garden_api.Orders.Status.same_status create_order
    green_garden_api.Orders.Create.place_order green_garden_api.Customers.resolve_customer_for_order
    green_garden_api.Orders.Admission.admit green_garden_api.Orders.Create.write_order
    green_garden_api.Database.Session.commit green_garden_api.Database.Session.notify_storefront
    green_garden_api.Orders.Create.get_order green_garden_api.Orders.Number.generate_order_number
    green_garden_api.Orders.Create.reference_of green_garden_api.Orders.Pricing.snapshot_name
    green_garden_api.Orders.Status.flow_index green_garden_api.Orders.Status.is_terminal
    green_garden_api.Orders.Status.is_cancelled green_garden_api.Orders.Status.restocked_slugs
    green_garden_api.Orders.Stock.deduct
history-DrawsNewIds = (refl, (refl, (refl, (refl, tt))))

history_run : stock_of 1 (serve_all history shop).plants ≡ 5
unfolding serve serve_all update_order_status green_garden_api.Orders.Status.change_status
    green_garden_api.Orders.Status.ensure_transition_allowed
    green_garden_api.Orders.Status.move_order green_garden_api.Orders.Status.notify_restocked
    green_garden_api.Orders.Status.restore_if green_garden_api.Orders.Status.restore_stock
    green_garden_api.Orders.Status.same_status create_order
    green_garden_api.Orders.Create.place_order green_garden_api.Customers.resolve_customer_for_order
    green_garden_api.Orders.Admission.admit green_garden_api.Orders.Create.write_order
    green_garden_api.Database.Session.commit green_garden_api.Database.Session.notify_storefront
    green_garden_api.Orders.Create.get_order green_garden_api.Orders.Number.generate_order_number
    green_garden_api.Orders.Create.reference_of green_garden_api.Orders.Pricing.snapshot_name
    green_garden_api.Orders.Status.flow_index green_garden_api.Orders.Status.is_terminal
    green_garden_api.Orders.Status.is_cancelled green_garden_api.Orders.Status.restocked_slugs
    green_garden_api.Orders.Stock.deduct green_garden_api.Orders.Stock.restock
history_run = refl

serve_all-units_example : units_of 1 (serve_all history shop) ≡ units_of 1 shop
serve_all-units_example = serve_all-units 1 history shop refl tt history-DrawsNewIds

update_order_status-committed_example :
    ((update_order_status
        (env_at 20)
        11
        OrderStatus.cancelled
        (session after.committed)).1.committed
      ≡ after.committed)
    ⊎ ((order : Order) × (find? (has_order_id 11) after.committed.orders ≡ some order)
        × (ensure_transition_allowed order.status OrderStatus.cancelled ≡ ok tt)
        × ((update_order_status
              (env_at 20)
              11
              OrderStatus.cancelled
              (session after.committed)).1.committed
            ≡ moved_db order OrderStatus.cancelled after.committed))
update_order_status-committed_example =
    update_order_status-committed (env_at 20) 11 OrderStatus.cancelled (session after.committed)

ensure_transition_allowed_iff_example :
    (ensure_transition_allowed OrderStatus.confirmed OrderStatus.shipping ≡ ok tt)
    ↔ MayMove OrderStatus.confirmed OrderStatus.shipping
ensure_transition_allowed_iff_example =
    ensure_transition_allowed_iff OrderStatus.confirmed OrderStatus.shipping

price_order_lem_example :
    ((price_order cart.items shop.plants).lines ≡ map (price_line shop.plants) cart.items)
    × ((price_order cart.items shop.plants).subtotal ≡ sum_of (charge shop.plants) cart.items)
    × IsFeeDue
        (any (is_offered shop.plants) cart.items)
        (sum_of (charge shop.plants) cart.items)
        (price_order cart.items shop.plants).shipping_fee
    × ((price_order cart.items shop.plants).total
        ≡ (price_order cart.items shop.plants).subtotal
          + (price_order cart.items shop.plants).shipping_fee)
    × ((price_order cart.items shop.plants).currency ≡ order_currency)
price_order_lem_example = price_order_lem cart.items shop.plants

-- At exactly the threshold the code charges no fee.
threshold_run : shipping_fee_for 50_000_000 ≡ 0
unfolding shipping_fee_for
threshold_run = refl

generate_order_number-fresh_example :
    mem_text
      (generate_order_number (codes "20250102") after.committed)
      (order_numbers after.committed)
    ≡ false
generate_order_number-fresh_example = generate_order_number-fresh (codes "20250102") after.committed

abbrev day : Text
day = codes "20250102"

IsDate-day : IsDate day
IsDate-day = (refl, ground arith)

payment_reference_for-injective_example : (day ≡ day) × (◌≡◌ {A = ℕ} 12 12)
payment_reference_for-injective_example =
    payment_reference_for-injective day day 12 12 IsDate-day IsDate-day refl

-- Two requests read the order while it is pending, and cancel it one after the other.
abbrev cancelled : World
cancelled = (change_status (env_at 20) placed OrderStatus.cancelled (session after.committed)).1

abbrev cancelled_again : World
cancelled_again =
    (change_status (env_at 30) placed OrderStatus.cancelled (session cancelled.committed)).1

abbrev gone : Order
gone = record placed { status = OrderStatus.cancelled }

cancelled_run :
    change_status (env_at 20) placed OrderStatus.cancelled (session after.committed)
    ≡ (ok gone, cancelled)
unfolding serve serve_all update_order_status green_garden_api.Orders.Status.change_status
    green_garden_api.Orders.Status.ensure_transition_allowed
    green_garden_api.Orders.Status.move_order green_garden_api.Orders.Status.notify_restocked
    green_garden_api.Orders.Status.restore_if green_garden_api.Orders.Status.restore_stock
    green_garden_api.Orders.Status.same_status create_order
    green_garden_api.Orders.Create.place_order green_garden_api.Customers.resolve_customer_for_order
    green_garden_api.Orders.Admission.admit green_garden_api.Orders.Create.write_order
    green_garden_api.Database.Session.commit green_garden_api.Database.Session.notify_storefront
    green_garden_api.Orders.Create.get_order green_garden_api.Orders.Number.generate_order_number
    green_garden_api.Orders.Create.reference_of green_garden_api.Orders.Pricing.snapshot_name
    green_garden_api.Orders.Status.flow_index green_garden_api.Orders.Status.is_terminal
    green_garden_api.Orders.Status.is_cancelled green_garden_api.Orders.Status.restocked_slugs
    green_garden_api.Orders.Stock.deduct green_garden_api.Orders.Stock.restock
cancelled_run = refl

cancelled_again_run :
    change_status (env_at 30) placed OrderStatus.cancelled (session cancelled.committed)
    ≡ (ok gone, cancelled_again)
unfolding serve serve_all update_order_status green_garden_api.Orders.Status.change_status
    green_garden_api.Orders.Status.ensure_transition_allowed
    green_garden_api.Orders.Status.move_order green_garden_api.Orders.Status.notify_restocked
    green_garden_api.Orders.Status.restore_if green_garden_api.Orders.Status.restore_stock
    green_garden_api.Orders.Status.same_status create_order
    green_garden_api.Orders.Create.place_order green_garden_api.Customers.resolve_customer_for_order
    green_garden_api.Orders.Admission.admit green_garden_api.Orders.Create.write_order
    green_garden_api.Database.Session.commit green_garden_api.Database.Session.notify_storefront
    green_garden_api.Orders.Create.get_order green_garden_api.Orders.Number.generate_order_number
    green_garden_api.Orders.Create.reference_of green_garden_api.Orders.Pricing.snapshot_name
    green_garden_api.Orders.Status.flow_index green_garden_api.Orders.Status.is_terminal
    green_garden_api.Orders.Status.is_cancelled green_garden_api.Orders.Status.restocked_slugs
    green_garden_api.Orders.Stock.deduct green_garden_api.Orders.Stock.restock
cancelled_again_run = refl

listed_run : any (has_plant_id 1) after.committed.plants ≡ true
unfolding serve serve_all update_order_status green_garden_api.Orders.Status.change_status
    green_garden_api.Orders.Status.ensure_transition_allowed
    green_garden_api.Orders.Status.move_order green_garden_api.Orders.Status.notify_restocked
    green_garden_api.Orders.Status.restore_if green_garden_api.Orders.Status.restore_stock
    green_garden_api.Orders.Status.same_status create_order
    green_garden_api.Orders.Create.place_order green_garden_api.Customers.resolve_customer_for_order
    green_garden_api.Orders.Admission.admit green_garden_api.Orders.Create.write_order
    green_garden_api.Database.Session.commit green_garden_api.Database.Session.notify_storefront
    green_garden_api.Orders.Create.get_order green_garden_api.Orders.Number.generate_order_number
    green_garden_api.Orders.Create.reference_of green_garden_api.Orders.Pricing.snapshot_name
    green_garden_api.Orders.Status.flow_index green_garden_api.Orders.Status.is_terminal
    green_garden_api.Orders.Status.is_cancelled green_garden_api.Orders.Status.restocked_slugs
    green_garden_api.Orders.Stock.deduct green_garden_api.Orders.Stock.restock
listed_run = refl

change_status-restocks_twice_example :
    stock_of 1 cancelled_again.committed.plants
    ≡ stock_of 1 after.committed.plants + 2 * requested_of 1 (map as_input placed.items)
change_status-restocks_twice_example =
    change_status-restocks_twice (env_at 20) (env_at 30) placed after.committed cancelled_run
      cancelled_again_run 1 listed_run
