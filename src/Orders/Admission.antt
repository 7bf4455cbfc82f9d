-- ===== src/Orders/Admission.antt =====
-- The checks of `create_order` between the row locks and the first write of the order.
pub mod Laws
use green_garden_api.Prelude.{
  ℕ, Bool, true, false, not, Option, none, some, List, [], ◌∷◌, ◌==◌, ltb, any, select,
}
use green_garden_api.Core.Errors.{AppError, Result, ok, err, raise_if, ◌>>=◌, ◌>>◌}
use green_garden_api.Database.Models.{Plant, Db}
use green_garden_api.Orders.Pricing.{
  OrderItemInput, PricedLine, OrderPrice, max_total_amount, has_plant_id, price_order,
}
use green_garden_api.Orders.Stock.{sum_quantities, check_stock}

-- `Plant.id.in_(plant_ids)`
abbrev pub is_ordered : List OrderItemInput → Plant → Bool
is_ordered items plant = any (λ (i : OrderItemInput). plant.id == i.plant_id) items

-- The rows that `_lock_plants` and the query of `quote_order` return.
abbrev pub ordered_plants : List OrderItemInput → Db → List Plant
ordered_plants items db = select (is_ordered items) db.plants

-- `plant_ids - plants.keys()` is not empty.
abbrev pub is_missing : List Plant → OrderItemInput → Bool
is_missing plants item = not (any (has_plant_id item.plant_id) plants)

-- `for line in priced.lines: if line.error is not None: raise line.error`
unfoldable pub check_lines : List PricedLine → Result (Unit {0})
check_lines [] = ok tt
check_lines (line ∷ lines) = elim line.error [ none ↦ check_lines lines | some error ↦ err error ]

unfoldable pub admit : List OrderItemInput → List Plant → Result OrderPrice
unfolding sum_quantities check_stock price_order check_lines
admit items plants = do
  raise_if (any (is_missing plants) items) AppError.plant_not_found
  check_stock (sum_quantities items []) plants
  let priced = price_order items plants
  check_lines priced.lines
  raise_if (ltb max_total_amount priced.total) AppError.order_total_too_large
  ok priced
