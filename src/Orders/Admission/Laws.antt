-- ===== src/Orders/Admission/Laws.antt =====
-- What an admitted order satisfies: every line is on offer, and the stock covers it.
use green_garden_api.Prelude.{
  ℕ, ◌≤◌, ◌≡◌, refl, sym, Bool, true, false, List, [], ◌∷◌, arith, ◌==◌, ltb, if◌then◌else◌, any,
  select, All, Option-cases, inl, inr,
}
use green_garden_api.Core.Errors.{AppError, ok, raise_if, >>-eq-ok, raise_if-eq-ok}
use green_garden_api.Database.Models.{Plant}
use green_garden_api.Orders.Pricing.{
  OrderItemInput, PricedLine, OrderPrice, max_total_amount, available, price_order,
}
use green_garden_api.Orders.Stock.{sum_quantities, check_stock}
use green_garden_api.Orders.Stock.Laws.{
  stock_of, requested_of, quantity_of-sum, sum_quantities-IsDistinct, check_stock-le,
}
use green_garden_api.Orders.Admission.{is_ordered, is_missing, check_lines, admit}

check_lines-All :
    (lines : List PricedLine) → check_lines lines ≡ ok tt → All (λ l. available l ≡ true) lines
unfolding check_lines
check_lines-All [] h = tt
check_lines-All (line ∷ lines) h = elim (Option-cases line.error) [
  | inl e ↦ (rw (e, available) refl, check_lines-All lines (ground arith))
  | inr (error, e) ↦ absurd (ground arith)
]

stock_of-select :
    (g : ℕ → Bool) (id : ℕ) (plants : List Plant)
    → stock_of id (select (λ (p : Plant). g p.id) plants) ≡ (if g id then stock_of id plants else 0)
stock_of-select g id [] = ground arith
stock_of-select g id (p ∷ plants) = ground (arith, stock_of-select g id plants)

-- The rows under the locks are those of the ordered plants, with their stock.
pub stock_of-ordered :
    (id : ℕ) (items : List OrderItemInput) (plants : List Plant)
    → stock_of id (select (is_ordered items) plants) ≤ stock_of id plants
stock_of-ordered id items plants =
    let g = λ (k : ℕ). any (λ (i : OrderItemInput). k == i.plant_id) items in
    ground (arith, stock_of-select g id plants)

pub record IsAdmitted (items : List OrderItemInput) (plants : List Plant) (priced : OrderPrice)
    : Type 0 where
  pub priced_lem : priced ≡ price_order items plants
  pub lines : All (λ l. available l ≡ true) priced.lines
  pub fits : priced.total ≤ max_total_amount
  pub covered : (id : ℕ) → requested_of id items ≤ stock_of id plants

pub admit-IsAdmitted :
    (items : List OrderItemInput) (plants : List Plant) {priced : OrderPrice}
    → admit items plants ≡ ok priced
    → IsAdmitted items plants priced
unfolding admit
admit-IsAdmitted items plants {priced} h =
    let result = price_order items plants in
    let (_, after_missing) =
      >>-eq-ok (raise_if (any (is_missing plants) items) AppError.plant_not_found) _ h in
    let (stocked, after_stock) =
      >>-eq-ok (check_stock (sum_quantities items []) plants) _ after_missing in
    let (lines, after_lines) = >>-eq-ok (check_lines result.lines) _ after_stock in
    let (small, last) =
      >>-eq-ok (raise_if (ltb max_total_amount result.total) AppError.order_total_too_large) _
        after_lines in
    let same : result ≡ priced = cc in
    record {
      priced_lem = sym same;
      lines = rw (← same) (check_lines-All result.lines lines);
      fits = rw (← same) (not_above result.total (raise_if-eq-ok _ _ small));
      covered = λ id. omega (
        arith,
        quantity_of-sum id items [],
        check_stock-le id (sum_quantities items []) plants (sum_quantities-IsDistinct items [] tt)
            stocked,
      );
    }
  where
    not_above : (n : ℕ) → ltb max_total_amount n ≡ false → n ≤ max_total_amount
    not_above n e = ground arith
