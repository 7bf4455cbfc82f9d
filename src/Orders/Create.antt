-- ===== src/Orders/Create.antt =====
-- `create_order` and `quote_order`: the checks under the row locks, and the writes of one
-- transaction.
pub mod Frame
pub mod Inversion
pub mod Placed
pub mod Charges
pub mod Laws
pub mod Refusal
use green_garden_api.Prelude.{
  ℕ, ◌+◌, ◌≡◌, Bool, true, false, not, ◌&&◌, ◌||◌, Option, none, some, List, [], ◌∷◌, ◌++◌, Text,
  codes, ◌==◌, ltb, if◌then◌else◌, find?, any, select, map, update_where,
}
use green_garden_api.Core.Errors.{AppError, Result, ok, err, raise_if, or_raise}
use green_garden_api.Core.Text.{normalize_vn_phone}
use green_garden_api.Database.Models.{
  Customer, Plant, OrderStatus, PaymentMethod, PaymentStatus, OrderItem, Order, NotificationType,
  Notification, Db,
}
use green_garden_api.Database.Session.{
  World, Env, Action, StorefrontEntity, pure, raise, gets, lift, modify, atomically, flush, commit,
  notify_storefront, ◌>>=◌, ◌>>◌,
}
use green_garden_api.Customers.{resolve_customer_for_order}
use green_garden_api.Orders.Pricing.{
  OrderItemInput, PricedLine, OrderPrice, order_currency, max_total_amount, has_plant_id,
  snapshot_name, price_order,
}
use green_garden_api.Orders.Admission.{ordered_plants, admit}
use green_garden_api.Orders.Number.{generate_order_number, payment_reference_for}
use green_garden_api.Orders.Stock.{Quantities, sum_quantities, check_stock, deduct}

pub data OrderSource : Type 0 where
  admin storefront : OrderSource

-- The keyword arguments of `create_order`.
pub record NewOrder : Type 0 where
  pub customer_phone : Text
  pub customer_name : Text
  pub customer_email : Option Text
  pub shipping_address : Text
  pub note : Option Text
  pub items : List OrderItemInput
  pub source : OrderSource
  pub payment_method : PaymentMethod

abbrev pub has_order_id : ℕ → Order → Bool
has_order_id id o = o.id == id

-- `payment_reference_for(order_number) if payment_method is BANK_TRANSFER else None`
unfoldable pub reference_of : PaymentMethod → Text → Option Text
unfolding payment_reference_for
reference_of PaymentMethod.cod number = none
reference_of PaymentMethod.bank_transfer number = some (payment_reference_for number)

-- The row of `orders`; its items follow after the flush.
abbrev pub new_order : Env → NewOrder → Customer → OrderPrice → Text → Order
new_order env input customer priced number = record {
  id = env.uuid 1;
  customer_id = customer.id;
  order_number = number;
  status = OrderStatus.pending;
  currency = priced.currency;
  subtotal_amount = priced.subtotal;
  shipping_fee = priced.shipping_fee;
  total_amount = priced.total;
  shipping_address = input.shipping_address;
  note = input.note;
  payment_method = input.payment_method;
  payment_status = PaymentStatus.pending;
  payment_reference = reference_of input.payment_method number;
  paid_at = none;
  items = [];
  created_at = env.now;
}

abbrev pub name_of : Option Plant → Text
name_of none = []
name_of (some plant) = snapshot_name plant

-- `OrderItem(…)` of a line; `plants[line.item.plant_id]` is the line's own plant.
abbrev pub order_item : List Plant → PricedLine → OrderItem
order_item plants line = record {
  plant_id = line.item.plant_id;
  plant_name = name_of (find? (has_plant_id line.item.plant_id) plants);
  quantity = line.item.quantity;
  unit_price = line.unit_price;
}

-- An order line as a pair of plant and quantity.
abbrev pub as_input : OrderItem → OrderItemInput
as_input item = record { plant_id = item.plant_id; quantity = item.quantity }

abbrev pub add_order : Order → Db → Db
add_order order db = record db { orders = db.orders ++ order ∷ [] }

abbrev pub add_items : ℕ → List OrderItem → Db → Db
add_items order_id items db = record db {
  orders =
      update_where (has_order_id order_id) (λ (o : Order). record o { items = items }) db.orders;
}

abbrev pub deduct_stock : Quantities → Db → Db
deduct_stock requested db = record db { plants = deduct requested db.plants }

-- app/features/notifications/service.py: `queue_new_order_notification`
abbrev pub new_order_notification : Env → ℕ → Text → Text → Notification
new_order_notification env order_id order_number customer_name = record {
  id = env.uuid 2;
  type = NotificationType.new_order;
  title = codes "New order";
  message = codes "Order " ++ (order_number ++ (codes " from " ++ customer_name));
  entity_id = some order_id;
  is_read = false;
  created_at = env.now;
}

abbrev pub queue_notification : OrderSource → Notification → Db → Db
queue_notification OrderSource.admin n db = db
queue_notification OrderSource.storefront n db = record db {
  notifications = db.notifications ++ n ∷ [];
}

-- `[plants[plant_id].slug for plant_id in requested]`
abbrev pub slug_of : Option Plant → Option Text
slug_of none = none
slug_of (some plant) = some plant.slug

abbrev pub slugs_of : Quantities → List Plant → List (Option Text)
slugs_of requested plants = map (λ (e : ℕ × ℕ). slug_of (find? (has_plant_id e.0) plants)) requested

-- The phone number is canonical before the lookup if the order comes from the storefront.
unfoldable pub order_phone : OrderSource → Text → Text
unfolding normalize_vn_phone
order_phone OrderSource.admin phone = phone
order_phone OrderSource.storefront phone = normalize_vn_phone phone

unfoldable pub get_order : ℕ → Action Order
get_order order_id = do
  order ← gets (λ db. find? (has_order_id order_id) db.orders)
  lift (or_raise order AppError.order_not_found)

-- The writes behind the flush, in the source's order.
abbrev pub write_items : Env → NewOrder → Customer → OrderPrice → Text → List Plant → Db → Db
write_items env input customer priced number plants db =
    queue_notification input.source (new_order_notification env (env.uuid 1) number customer.name) (
      deduct_stock (sum_quantities input.items [])
        (add_items (env.uuid 1) (map (order_item plants) priced.lines) db))

module _ (env : Env) where
  -- From the admission on: the order, its items, the stock and the notification, and the commit.
  unfoldable pub write_order :
      NewOrder → Customer → List Plant → OrderPrice → Action (List (Option Text))
  write_order input customer plants priced = do
    number ← gets (generate_order_number env.today)
    modify (add_order (new_order env input customer priced number))
    flush env
    modify (write_items env input customer priced number plants)
    commit env
    pure (slugs_of (sum_quantities input.items []) plants)

  -- The body of the `try`: the slugs of the plants that were ordered.
  unfoldable pub place_order : NewOrder → Action (List (Option Text))
  place_order input = do
    customer ←
        resolve_customer_for_order env (order_phone input.source input.customer_phone)
          input.customer_name input.customer_email
    plants ← gets (ordered_plants input.items)
    priced ← lift (admit input.items plants)
    write_order input customer plants priced

  unfoldable pub create_order : NewOrder → Action Order
  create_order input = do
    slugs ← atomically (place_order input)
    notify_storefront env StorefrontEntity.plants slugs
    get_order (env.uuid 1)

-- Prices a cart as `create_order` would, and writes nothing.
unfoldable pub quote_order : List OrderItemInput → Action OrderPrice
unfolding price_order
quote_order items = do plants ← gets (ordered_plants items); pure (price_order items plants)
