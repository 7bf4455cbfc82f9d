-- ===== src/Orders/Stock.antt =====
-- Quantities summed per plant, and the stock movements of a whole order.
pub mod Laws
use green_garden_api.Prelude.{
  ℕ, ◌+◌, ◌-◌, ◌≡◌, Bool, true, false, Option, none, some, List, [], ◌∷◌, ◌++◌, Text, ◌==◌, ltb,
  if◌then◌else◌, find?, any, update_where, not,
}
use green_garden_api.Core.Errors.{AppError, Result, ok, err, raise_if, or_raise, ◌>>=◌, ◌>>◌}
use green_garden_api.Database.Models.{Plant}
use green_garden_api.Orders.Pricing.{OrderItemInput, has_plant_id}

-- `defaultdict(int)`: plants with their quantities, in order of insertion.
abbrev pub Quantities : Type 0
Quantities = List (ℕ × ℕ)

-- `requested[plant_id] += quantity`
unfoldable pub add_quantity : ℕ → ℕ → Quantities → Quantities
add_quantity plant_id quantity [] = (plant_id, quantity) ∷ []
add_quantity plant_id quantity ((key, total) ∷ rest) =
    if key == plant_id
    then (key, total + quantity) ∷ rest
    else (key, total) ∷ add_quantity plant_id quantity rest

-- `for item in items: requested[item.plant_id] += item.quantity`
unfoldable pub sum_quantities : List OrderItemInput → Quantities → Quantities
unfolding add_quantity
sum_quantities [] requested = requested
sum_quantities (item ∷ items) requested =
    sum_quantities items (add_quantity item.plant_id item.quantity requested)

-- The checks of one plant under its row lock.
unfoldable pub check_plant : ℕ → Plant → Result (Unit {0})
check_plant quantity plant = do
  raise_if (not plant.is_active) (AppError.plant_unavailable plant.name)
  raise_if (ltb plant.stock quantity) (AppError.insufficient_stock plant.name quantity plant.stock)

-- `for plant_id, quantity in requested.items(): …`
unfoldable pub check_stock : Quantities → List Plant → Result (Unit {0})
unfolding check_plant
check_stock [] plants = ok tt
check_stock ((plant_id, quantity) ∷ rest) plants = do
  plant ← or_raise (find? (has_plant_id plant_id) plants) AppError.key_error
  check_plant quantity plant
  check_stock rest plants

abbrev pub take_stock : ℕ → Plant → Plant
take_stock quantity plant = record plant { stock = plant.stock - quantity }

abbrev pub give_stock : ℕ → Plant → Plant
give_stock quantity plant = record plant { stock = plant.stock + quantity }

-- `plants[plant_id].stock -= quantity` for every entry.
unfoldable pub deduct : Quantities → List Plant → List Plant
deduct [] plants = plants
deduct ((plant_id, quantity) ∷ rest) plants =
    deduct rest (update_where (has_plant_id plant_id) (take_stock quantity) plants)

-- `plant.stock += quantity` for every entry whose plant is there.
unfoldable pub restock : Quantities → List Plant → List Plant
restock [] plants = plants
restock ((plant_id, quantity) ∷ rest) plants =
    restock rest (update_where (has_plant_id plant_id) (give_stock quantity) plants)
