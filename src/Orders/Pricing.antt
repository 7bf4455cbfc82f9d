-- ===== src/Orders/Pricing.antt =====
-- Prices in VND, as hundredths. Every amount of the source has two digits behind the point (the
-- columns are `Numeric(12, 2)`, and a product with an `int` keeps the exponent), so `_quantize`
-- changes no amount here and is left out.
pub mod Laws
use green_garden_api.Prelude.{
  ℕ, ◌+◌, ◌-◌, ◌*◌, ◌≡◌, Bool, true, false, Option, none, some, List, [], ◌∷◌, ◌++◌, Text, codes,
  ◌==◌, leb, if◌then◌else◌, find?, any, is_nonempty,
}
use green_garden_api.Core.Errors.{AppError, Result, ok, err}
use green_garden_api.Core.Text.{strip, is_space}
use green_garden_api.Database.Models.{Plant}

pub record OrderItemInput : Type 0 where
  pub plant_id : ℕ
  pub quantity : ℕ

pub record PricedLine : Type 0 where
  pub item : OrderItemInput
  pub plant : Option Plant
  pub unit_price : ℕ
  pub line_total : ℕ
  pub error : Option AppError

pub record OrderPrice : Type 0 where
  pub lines : List PricedLine
  pub subtotal : ℕ
  pub shipping_fee : ℕ
  pub total : ℕ
  pub currency : Text

-- `ORDER_CURRENCY`
abbrev pub order_currency : Text
order_currency = codes "VND"

-- `FREE_SHIPPING_ABOVE`, `SHIPPING_FEE` and `_MAX_TOTAL_AMOUNT`
abbrev pub free_shipping_above : ℕ
free_shipping_above = 50_000_000

abbrev pub base_shipping_fee : ℕ
base_shipping_fee = 5_000_000

abbrev pub max_total_amount : ℕ
max_total_amount = 999_999_999_999

abbrev pub has_plant_id : ℕ → Plant → Bool
has_plant_id id p = p.id == id

-- `line.available`
abbrev pub available : PricedLine → Bool
available line = elim line.error [ none ↦ true | some _ ↦ false ]

-- `(plant.name_vi or "").strip() or plant.name`
unfoldable pub snapshot_name : Plant → Text
unfolding strip is_space
snapshot_name plant =
    let vietnamese = strip is_space (elim plant.name_vi [ none ↦ [] | some name ↦ name ]) in
    if is_nonempty vietnamese then vietnamese else plant.name

unfoldable pub unit_price : Plant → Result ℕ
unit_price plant = elim plant.price_vi [
  | none ↦ err (AppError.plant_unavailable plant.name)
  | some price ↦ ok price
]

unfoldable pub shipping_fee_for : ℕ → ℕ
shipping_fee_for subtotal = if leb free_shipping_above subtotal then 0 else base_shipping_fee

unfoldable pub amount_to_free_shipping : ℕ → ℕ
amount_to_free_shipping subtotal =
    if leb free_shipping_above subtotal then 0 else free_shipping_above - subtotal

-- The `try` in the loop of `price_order`.
unfoldable pub sellable_price : Plant → Result ℕ
unfolding unit_price
sellable_price plant =
    if plant.is_active then unit_price plant else err (AppError.plant_unavailable plant.name)

abbrev pub refused_line : OrderItemInput → Option Plant → AppError → PricedLine
refused_line item plant error = record {
  item = item;
  plant = plant;
  unit_price = 0;
  line_total = 0;
  error = some error;
}

abbrev pub priced_line : OrderItemInput → Plant → Result ℕ → PricedLine
priced_line item plant (err error) = refused_line item (some plant) error
priced_line item plant (ok price) = record {
  item = item;
  plant = some plant;
  unit_price = price;
  line_total = price * item.quantity;
  error = none;
}

-- One round of the loop: the line that is appended.
unfoldable pub price_line : List Plant → OrderItemInput → PricedLine
unfolding sellable_price
price_line plants item = elim (find? (has_plant_id item.plant_id) plants) [
  | none ↦ refused_line item none AppError.plant_not_found
  | some plant ↦ priced_line item plant (sellable_price plant)
]

-- The loop, over the lines and the subtotal so far; only a line that can be sold adds to it.
unfoldable pub price_from :
    List Plant → List OrderItemInput → List PricedLine → ℕ → List PricedLine × ℕ
unfolding price_line
price_from plants [] lines subtotal = (lines, subtotal)
price_from plants (item ∷ items) lines subtotal =
    let line = price_line plants item in
    price_from plants items (lines ++ line ∷ [])
      (if available line then subtotal + line.line_total else subtotal)

unfoldable pub price_order : List OrderItemInput → List Plant → OrderPrice
unfolding price_from shipping_fee_for
price_order items plants =
    let (lines, subtotal) = price_from plants items [] 0 in
    let shipping = if any available lines then shipping_fee_for subtotal else 0 in
    record {
      lines = lines;
      subtotal = subtotal;
      shipping_fee = shipping;
      total = subtotal + shipping;
      currency = order_currency;
    }
