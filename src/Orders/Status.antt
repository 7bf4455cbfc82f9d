-- ===== src/Orders/Status.antt =====
-- `update_order_status`: the pipeline, and the stock that a cancellation gives back.
pub mod Transitions
pub mod Laws
pub mod Ledger
use green_garden_api.Prelude.{
  ℕ, ◌+◌, ◌≡◌, Bool, true, false, not, ◌&&◌, ◌||◌, Option, none, some, List, [], ◌∷◌, ◌++◌, Text,
  ◌==◌, ltb, if◌then◌else◌, find?, any, select, map, update_where,
}
use green_garden_api.Core.Errors.{AppError, Result, ok, err, raise_if}
use green_garden_api.Core.Errors
use green_garden_api.Database.Models.{Plant, OrderStatus, OrderItem, Order, Db}
use green_garden_api.Database.Session.{
  World, Env, Action, StorefrontEntity, pure, raise, gets, lift, modify, atomically, commit,
  notify_storefront, ◌>>=◌, ◌>>◌,
}
use green_garden_api.Orders.Pricing.{OrderItemInput, has_plant_id}
use green_garden_api.Orders.Stock.{Quantities, sum_quantities, restock}
use green_garden_api.Orders.Create.{as_input, has_order_id, get_order}

-- `_STATUS_FLOW.index(status)`; `cancelled` is not in the flow and never asked for.
unfoldable pub flow_index : OrderStatus → ℕ
flow_index OrderStatus.pending = 0
flow_index OrderStatus.confirmed = 1
flow_index OrderStatus.processing = 2
flow_index OrderStatus.shipping = 3
flow_index OrderStatus.completed = 4
flow_index OrderStatus.cancelled = 5

-- `status in _TERMINAL_STATUSES`
unfoldable pub is_terminal : OrderStatus → Bool
is_terminal OrderStatus.completed = true
is_terminal OrderStatus.cancelled = true
is_terminal _ = false

unfoldable pub is_cancelled : OrderStatus → Bool
is_cancelled OrderStatus.cancelled = true
is_cancelled _ = false

-- `status is order.status`
unfoldable pub same_status : OrderStatus → OrderStatus → Bool
same_status a b = flow_index a == flow_index b

unfoldable pub ensure_transition_allowed : OrderStatus → OrderStatus → Result (Unit {0})
ensure_transition_allowed current target =
    if is_terminal current
    then err AppError.invalid_status_transition
    else if is_cancelled target
    then ok tt
    else if ltb (flow_index target) (flow_index current)
    then err AppError.invalid_status_transition
    else ok tt

abbrev pub found_slug : Option Plant → List (Option Text)
found_slug none = []
found_slug (some plant) = some plant.slug ∷ []

-- The slugs that `_restore_stock` collects.
unfoldable pub restocked_slugs : Quantities → List Plant → List (Option Text)
restocked_slugs [] plants = []
restocked_slugs ((plant_id, _) ∷ rest) plants =
    found_slug (find? (has_plant_id plant_id) plants) ++ restocked_slugs rest plants

-- `_restore_stock`; an order without items changes nothing.
unfoldable pub restore_stock : Order → Action (List (Option Text))
restore_stock order = do
  let quantities = sum_quantities (map as_input order.items) []
  slugs ← gets (λ db. restocked_slugs quantities db.plants)
  modify (λ db. record db { plants = restock quantities db.plants })
  pure slugs

abbrev pub set_order_status : ℕ → OrderStatus → Db → Db
set_order_status order_id status db = record db {
  orders =
      update_where (has_order_id order_id) (λ (o : Order). record o { status = status }) db.orders;
}

unfoldable pub restore_if : Bool → Order → Action (List (Option Text))
restore_if true order = restore_stock order
restore_if false order = pure []

module _ (env : Env) where
  -- The body of the `try`.
  unfoldable pub move_order : Order → OrderStatus → Action (List (Option Text))
  move_order order status = do
    slugs ← restore_if (is_cancelled status) order
    modify (set_order_status order.id status)
    commit env
    pure slugs

  -- `if restocked_slugs: notify_storefront(…)`
  unfoldable pub notify_restocked : List (Option Text) → Action (Unit {0})
  notify_restocked [] = pure tt
  notify_restocked (slug ∷ slugs) = notify_storefront env StorefrontEntity.plants (slug ∷ slugs)

  unfoldable pub change_status : Order → OrderStatus → Action Order
  change_status order status = do
    lift (ensure_transition_allowed order.status status)
    slugs ← atomically (move_order order status)
    notify_restocked slugs
    get_order order.id

  unfoldable pub update_order_status : ℕ → OrderStatus → Action Order
  update_order_status order_id status = do
    order ← get_order order_id
    if same_status status order.status then pure order else change_status order status
