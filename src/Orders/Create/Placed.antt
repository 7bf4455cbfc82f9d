-- ===== src/Orders/Create/Placed.antt =====
-- A placed order: the rows that it writes, and the stock that it takes.
use green_garden_api.Prelude.{
  ℕ, ◌+◌, ◌≤◌, ◌≡◌, refl, ◌∙◌, ap, false, some, List, [], ◌∷◌, ◌++◌, arith, find?, any, map, Text,
  update_where, eq→==,
}
use native.Mathlib.Nat.{le_trans}
use green_garden_api.Database.Models.{Notification, Customer, Plant, OrderItem, Order, Db}
use green_garden_api.Database.Session.{World, Env}
use green_garden_api.Orders.Number.{generate_order_number}
use green_garden_api.Orders.Pricing.{OrderPrice, has_plant_id}
use green_garden_api.Orders.Stock.{sum_quantities, deduct}
use green_garden_api.Orders.Stock.Laws.{
  stock_of, requested_of, stock_of-deduct, quantity_of-sum, any-deduct,
}
use green_garden_api.Orders.Admission.{ordered_plants}
use green_garden_api.Orders.Admission.Laws.{IsAdmitted, admit-IsAdmitted, stock_of-ordered}
use green_garden_api.Orders.Create.{
  OrderSource, queue_notification, new_order_notification, deduct_stock, add_items, NewOrder,
  has_order_id, add_order, new_order, order_item,
}
use green_garden_api.Orders.Create.Inversion.{IsPlaced}

-- The row that `get_order` returns: the new order with its items.
abbrev pub placed_order : Env → NewOrder → Customer → OrderPrice → Text → List Plant → Order
placed_order env input customer priced number plants =
    record (new_order env input customer priced number) {
      items = map (order_item plants) priced.lines;
    }

update-last :
    (id : ℕ) (items : List OrderItem) (orders : List Order) (o : Order)
    → any (has_order_id id) orders ≡ false
    → o.id ≡ id
    → update_where (has_order_id id) (λ (x : Order). record x { items = items }) (orders ++ o ∷ [])
      ≡ orders ++ record o { items = items } ∷ []
update-last id items [] o h e = rw ((eq→== o.id id e)) refl
update-last id items (x ∷ orders) o h e = ground (arith, update-last id items orders o)

pub find?-last :
    (id : ℕ) (orders : List Order) (o : Order)
    → any (has_order_id id) orders ≡ false
    → o.id ≡ id
    → find? (has_order_id id) (orders ++ o ∷ []) ≡ some o
find?-last id [] o h e = rw (eq→== o.id id e) refl
find?-last id (x ∷ orders) o h e = ground (arith, find?-last id orders o)

queue-keeps :
    (source : OrderSource) (n : Notification) (db : Db)
    → ((queue_notification source n db).plants ≡ db.plants)
      × ((queue_notification source n db).orders ≡ db.orders)
queue-keeps OrderSource.admin n db = (refl, refl)
queue-keeps OrderSource.storefront n db = (refl, refl)

module _ (env : Env) (input : NewOrder) {w u : World} (placed : IsPlaced env input w u) where
  abbrev locked : List Plant
  locked = ordered_plants input.items placed.session.working

  abbrev number : Text
  number = generate_order_number env.today placed.session.working

  -- The view before the notification is queued.
  abbrev deducted : Db
  deducted = deduct_stock (sum_quantities input.items []) (
      add_items (env.uuid 1) (map (order_item locked) placed.priced.lines) (
        add_order (new_order env input placed.customer placed.priced number)
          placed.session.working))

  abbrev notification : Notification
  notification = new_order_notification env (env.uuid 1) number placed.customer.name

  placed-plants : u.working.plants ≡ deduct (sum_quantities input.items []) w.working.plants
  placed-plants =
      ap (λ (db : Db). db.plants) placed.written
      ∙ ((queue-keeps input.source notification deducted).0
          ∙ ap (deduct (sum_quantities input.items [])) placed.untouched.2)

  -- The table of orders has one more row, and no other row has changed.
  pub placed-orders :
      any (has_order_id (env.uuid 1)) w.working.orders ≡ false
      → u.working.orders
        ≡ w.working.orders
          ++ placed_order env input placed.customer placed.priced number locked ∷ []
  placed-orders fresh =
      ap (λ (db : Db). db.orders) placed.written
      ∙ ((queue-keeps input.source notification deducted).1
          ∙ (update-last (env.uuid 1) (map (order_item locked) placed.priced.lines)
                placed.session.working.orders
                (new_order env input placed.customer placed.priced number)
                (rw placed.untouched.3 fresh) refl
              ∙ ap
                  (λ (os : List Order).
                    os ++ placed_order env input placed.customer placed.priced number locked ∷ [])
                  placed.untouched.3))

  pub admission : IsAdmitted input.items locked placed.priced
  admission = admit-IsAdmitted input.items locked placed.admitted

  -- No plant is oversold, and each loses exactly what the order asks of it.
  pub placed-stock :
      (id : ℕ)
      → stock_of id u.working.plants + requested_of id input.items ≡ stock_of id w.working.plants
  placed-stock id =
      let covered : requested_of id input.items ≤ stock_of id w.working.plants =
        le_trans (admission.covered id) (
          rw (← placed.untouched.2)
            (stock_of-ordered id input.items placed.session.working.plants)) in
      rw placed-plants (
        omega (
          arith,
          stock_of-deduct id (sum_quantities input.items []) w.working.plants,
          quantity_of-sum id input.items [],
        ))

  pub placed-any-plant :
      (id : ℕ) → any (has_plant_id id) u.working.plants ≡ any (has_plant_id id) w.working.plants
  placed-any-plant id =
      rw placed-plants (any-deduct id (sum_quantities input.items []) w.working.plants)
