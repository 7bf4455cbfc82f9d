-- ===== src/Orders/Pricing/Laws.antt =====
-- The totals of a priced order, against a description by sums.
use green_garden_api.Prelude.{
  ℕ, ◌+◌, ◌*◌, ◌<◌, ◌≡◌, ◌⊎◌, ◌==◌, ltb, inl, inr, Bool-cases, refl, ◌∙◌, sym, Bool, true, false,
  Option, none, some, List, [], ◌∷◌, ◌++◌, arith, if◌then◌else◌, find?, any, map, sum_of,
}
use mathlib.Core.List.{append_assoc, append-nil}
use green_garden_api.Database.Models.{Plant}
use green_garden_api.Orders.Pricing.{
  OrderItemInput, PricedLine, free_shipping_above, base_shipping_fee, has_plant_id, available,
  price_line, price_from, price_order, shipping_fee_for, order_currency,
}

-- The price of one unit of a plant that can be sold: listed, active, and with a price in VND.
abbrev pub offered_price : Option Plant → Option ℕ
offered_price none = none
offered_price (some plant) = if plant.is_active then plant.price_vi else none

abbrev pub offer : List Plant → OrderItemInput → Option ℕ
offer plants item = offered_price (find? (has_plant_id item.plant_id) plants)

-- What a line adds to the subtotal.
abbrev pub charge : List Plant → OrderItemInput → ℕ
charge plants item = elim (offer plants item) [ none ↦ 0 | some price ↦ price * item.quantity ]

abbrev pub is_offered : List Plant → OrderItemInput → Bool
is_offered plants item = elim (offer plants item) [ none ↦ false | some _ ↦ true ]

price_line-charge :
    (plants : List Plant) (item : OrderItemInput)
    → (available (price_line plants item) ≡ is_offered plants item)
      × ((price_line plants item).line_total ≡ charge plants item)
unfolding price_line
price_line-charge plants item = (ground arith, ground arith)

-- The loop appends a priced line for every item, and adds up the charges.
price_from_lem :
    (plants : List Plant) (items : List OrderItemInput) (lines : List PricedLine) (subtotal : ℕ)
    → ((price_from plants items lines subtotal).0 ≡ lines ++ map (price_line plants) items)
      × ((price_from plants items lines subtotal).1 ≡ subtotal + sum_of (charge plants) items)
unfolding price_from
price_from_lem plants [] lines subtotal = (sym (append-nil lines), omega arith)
price_from_lem plants (item ∷ items) lines subtotal =
    let line = price_line plants item in
    let ih =
      price_from_lem plants items (lines ++ line ∷ [])
        (if available line then subtotal + line.line_total else subtotal) in
    (ih.0 ∙ append_assoc lines (line ∷ []) (map (price_line plants) items), ih.1 ∙ added)
  where
    added :
        (if available (price_line plants item)
            then subtotal + (price_line plants item).line_total
            else subtotal)
          + sum_of (charge plants) items
        ≡ subtotal + (charge plants item + sum_of (charge plants) items)
    added = ground (arith, price_line-charge plants item)

any-available :
    (plants : List Plant) (items : List OrderItemInput)
    → any available (map (price_line plants) items) ≡ any (is_offered plants) items
any-available plants [] = refl
any-available plants (item ∷ items) =
    ground (arith, any-available plants items, price_line-charge plants item)

-- The fee of an order: none if no line can be sold, the flat fee below the threshold and none above
-- it. The documents and the tests disagree on a subtotal of exactly the threshold, so that here it
-- may be either.
abbrev pub IsFeeDue : Bool → ℕ → ℕ → Type 0
IsFeeDue false subtotal fee = fee ≡ 0
IsFeeDue true subtotal fee =
    ((subtotal < free_shipping_above) × (fee ≡ base_shipping_fee))
    ⊎ (((free_shipping_above < subtotal) × (fee ≡ 0))
        ⊎ ((subtotal ≡ free_shipping_above) × ((fee ≡ 0) ⊎ (fee ≡ base_shipping_fee))))

shipping_fee_for-IsFeeDue :
    (sellable : Bool) (subtotal : ℕ)
    → IsFeeDue sellable subtotal (if sellable then shipping_fee_for subtotal else 0)
unfolding shipping_fee_for
shipping_fee_for-IsFeeDue false subtotal = refl
shipping_fee_for-IsFeeDue true subtotal = elim (Bool-cases (ltb subtotal free_shipping_above)) [
  | inl below ↦ inl (ground arith, ground arith)
  | inr not_below ↦ elim (Bool-cases (subtotal == free_shipping_above)) [
    | inl equal ↦ inr (inr (ground arith, inl (ground arith)))
    | inr differs ↦ inr (inl (ground arith, ground arith))
  ]
]

-- Pricing an order gives one line for each item; its subtotal is the sum of price times quantity
-- over the items that are listed, active and priced in VND. If none of them is, there is no fee;
-- else it is the flat fee for a subtotal below the threshold, none above it, and one of the two at
-- exactly the threshold. The total is subtotal plus fee, and the currency is VND.
pub price_order_lem :
    (items : List OrderItemInput) (plants : List Plant)
    → let priced = price_order items plants in
      (priced.lines ≡ map (price_line plants) items)
      × (priced.subtotal ≡ sum_of (charge plants) items)
      × IsFeeDue (any (is_offered plants) items) (sum_of (charge plants) items) priced.shipping_fee
      × (priced.total ≡ priced.subtotal + priced.shipping_fee)
      × (priced.currency ≡ order_currency)
unfolding price_order
price_order_lem items plants =
    let loop = price_from_lem plants items [] 0 in
    let total : (price_from plants items [] 0).1 ≡ sum_of (charge plants) items =
      omega (arith, loop.1) in
    (
      loop.0,
      total,
      rw (loop.0, any-available plants items, total)
          (shipping_fee_for-IsFeeDue (any (is_offered plants) items)
            (sum_of (charge plants) items)),
      refl,
      refl,
    )
