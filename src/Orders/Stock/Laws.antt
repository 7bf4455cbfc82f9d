-- ===== src/Orders/Stock/Laws.antt =====
-- Stock counted plant by plant: what a whole order takes and gives back.
use green_garden_api.Prelude.{
  ℕ, ◌+◌, ◌-◌, ◌≤◌, ◌≡◌, refl, ◌∙◌, true, false, some, List, [], ◌∷◌, arith, ◌==◌, if◌then◌else◌,
  find?, any, update_where, sum_of, Bool-cases, inl, inr,
}
use green_garden_api.Core.Errors.{AppError, ok, or_raise, >>=-eq-ok, >>-eq-ok, or_raise-eq-ok}
use green_garden_api.Database.Models.{Plant}
use green_garden_api.Orders.Pricing.{OrderItemInput, has_plant_id}
use green_garden_api.Orders.Stock.{
  Quantities, add_quantity, sum_quantities, check_plant, check_stock, take_stock, give_stock,
  deduct, restock,
}

-- The stock of a plant; 0 if there is no such row.
abbrev pub stock_of : ℕ → List Plant → ℕ
stock_of id [] = 0
stock_of id (p ∷ plants) = if p.id == id then p.stock else stock_of id plants

-- What an order asks of one plant, over all its lines.
abbrev pub requested_of : ℕ → List OrderItemInput → ℕ
requested_of id items =
    sum_of (λ (i : OrderItemInput). if i.plant_id == id then i.quantity else 0) items

abbrev pub quantity_of : ℕ → Quantities → ℕ
quantity_of id requested = sum_of (λ (e : ℕ × ℕ). if e.0 == id then e.1 else 0) requested

quantity_of-add :
    (id k q : ℕ) (d : Quantities)
    → quantity_of id (add_quantity k q d) ≡ quantity_of id d + (if k == id then q else 0)
unfolding add_quantity
quantity_of-add id k q [] = omega arith
quantity_of-add id k q ((j, v) ∷ d) = ground (arith, quantity_of-add id k q d)

-- The sums per plant are those of the lines.
pub quantity_of-sum :
    (id : ℕ) (items : List OrderItemInput) (d : Quantities)
    → quantity_of id (sum_quantities items d) ≡ quantity_of id d + requested_of id items
unfolding sum_quantities
quantity_of-sum id [] d = omega arith
quantity_of-sum id (item ∷ items) d = omega (
  arith,
  quantity_of-sum id items (add_quantity item.plant_id item.quantity d),
  quantity_of-add id item.plant_id item.quantity d,
)

-- No plant stands twice among the sums.
abbrev pub IsDistinct : Quantities → Type 0
IsDistinct [] = Unit
IsDistinct ((k, v) ∷ d) = (any (λ (e : ℕ × ℕ). e.0 == k) d ≡ false) × IsDistinct d

any-add :
    (j k q : ℕ) (d : Quantities)
    → (k == j) ≡ false
    → any (λ (e : ℕ × ℕ). e.0 == j) d ≡ false
    → any (λ (e : ℕ × ℕ). e.0 == j) (add_quantity k q d) ≡ false
unfolding add_quantity
any-add j k q [] h e = rw h refl
any-add j k q ((i, v) ∷ d) h e = ground (arith, any-add j k q d h)

add_quantity-IsDistinct :
    (k q : ℕ) (d : Quantities) → IsDistinct d → IsDistinct (add_quantity k q d)
unfolding add_quantity
add_quantity-IsDistinct k q [] h = (refl, tt)
add_quantity-IsDistinct k q ((j, v) ∷ d) h = elim (Bool-cases (j == k)) [
  | inl same ↦ rw same (h.0, h.1)
  | inr other ↦ rw other (any-add j k q d (ground arith) h.0, add_quantity-IsDistinct k q d h.1)
]

pub sum_quantities-IsDistinct :
    (items : List OrderItemInput) (d : Quantities)
    → IsDistinct d
    → IsDistinct (sum_quantities items d)
unfolding sum_quantities
sum_quantities-IsDistinct [] d h = h
sum_quantities-IsDistinct (item ∷ items) d h =
    sum_quantities-IsDistinct items (add_quantity item.plant_id item.quantity d)
      (add_quantity-IsDistinct item.plant_id item.quantity d h)

stock_of-take :
    (id k q : ℕ) (plants : List Plant)
    → stock_of id (update_where (has_plant_id k) (take_stock q) plants)
      ≡ stock_of id plants - (if k == id then q else 0)
stock_of-take id k q [] = omega arith
stock_of-take id k q (p ∷ plants) = ground (arith, stock_of-take id k q plants)

-- An order's deduction takes from each plant the sum over its entries.
pub stock_of-deduct :
    (id : ℕ) (d : Quantities) (plants : List Plant)
    → stock_of id (deduct d plants) ≡ stock_of id plants - quantity_of id d
unfolding deduct
stock_of-deduct id [] plants = omega arith
stock_of-deduct id ((k, q) ∷ d) plants = omega (
  arith,
  stock_of-deduct id d (update_where (has_plant_id k) (take_stock q) plants),
  stock_of-take id k q plants,
)

stock_of-give :
    (id k q : ℕ) (plants : List Plant)
    → any (has_plant_id id) plants ≡ true
    → stock_of id (update_where (has_plant_id k) (give_stock q) plants)
      ≡ stock_of id plants + (if k == id then q else 0)
stock_of-give id k q [] h = cc
stock_of-give id k q (p ∷ plants) h = ground (arith, stock_of-give id k q plants)

pub any-update_where :
    (id k : ℕ) (f : Plant → Plant) (plants : List Plant)
    → ((p : Plant) → (f p).id ≡ p.id)
    → any (has_plant_id id) (update_where (has_plant_id k) f plants) ≡ any (has_plant_id id) plants
any-update_where id k f [] h = refl
any-update_where id k f (p ∷ plants) h = ground (arith, any-update_where id k f plants h, h p)

-- A restock gives each existing plant the sum over its entries.
pub stock_of-restock :
    (id : ℕ) (d : Quantities) (plants : List Plant)
    → any (has_plant_id id) plants ≡ true
    → stock_of id (restock d plants) ≡ stock_of id plants + quantity_of id d
unfolding restock
stock_of-restock id [] plants h = omega arith
stock_of-restock id ((k, q) ∷ d) plants h = omega (
  arith,
  stock_of-restock id d (update_where (has_plant_id k) (give_stock q) plants)
      (any-update_where id k (give_stock q) plants (λ p. refl) ∙ h),
  stock_of-give id k q plants h,
)

pub any-deduct :
    (id : ℕ) (d : Quantities) (plants : List Plant)
    → any (has_plant_id id) (deduct d plants) ≡ any (has_plant_id id) plants
unfolding deduct
any-deduct id [] plants = refl
any-deduct id ((k, q) ∷ d) plants =
    any-deduct id d (update_where (has_plant_id k) (take_stock q) plants)
    ∙ any-update_where id k (take_stock q) plants (λ p. refl)

pub any-restock :
    (id : ℕ) (d : Quantities) (plants : List Plant)
    → any (has_plant_id id) (restock d plants) ≡ any (has_plant_id id) plants
unfolding restock
any-restock id [] plants = refl
any-restock id ((k, q) ∷ d) plants =
    any-restock id d (update_where (has_plant_id k) (give_stock q) plants)
    ∙ any-update_where id k (give_stock q) plants (λ p. refl)

stock_of-find? :
    (id : ℕ) (plants : List Plant) (p : Plant)
    → find? (has_plant_id id) plants ≡ some p
    → stock_of id plants ≡ p.stock
stock_of-find? id [] p h = cc
stock_of-find? id (q ∷ plants) p h = ground (arith, stock_of-find? id plants p)

check_plant-le : (q : ℕ) (p : Plant) → check_plant q p ≡ ok tt → q ≤ p.stock
unfolding check_plant
check_plant-le q p h = ground arith

quantity_of-absent :
    (id : ℕ) (d : Quantities) → any (λ (e : ℕ × ℕ). e.0 == id) d ≡ false → quantity_of id d ≡ 0
quantity_of-absent id [] h = refl
quantity_of-absent id ((k, q) ∷ d) h = ground (arith, quantity_of-absent id d)

check_stock-cons :
    (k q : ℕ) (d : Quantities) (plants : List Plant)
    → check_stock ((k, q) ∷ d) plants ≡ ok tt
    → (q ≤ stock_of k plants) × (check_stock d plants ≡ ok tt)
unfolding check_stock
check_stock-cons k q d plants e =
    let (plant, found, rest) =
      >>=-eq-ok (or_raise (find? (has_plant_id k) plants) AppError.key_error) _ e in
    let (checked, later) = >>-eq-ok (check_plant q plant) _ rest in
    let there = or_raise-eq-ok (find? (has_plant_id k) plants) AppError.key_error found in
    (rw (stock_of-find? k plants plant there) (check_plant-le q plant checked), later)

-- Where the check passes, no plant is asked for more than it has.
pub check_stock-le :
    (id : ℕ) (d : Quantities) (plants : List Plant)
    → IsDistinct d
    → check_stock d plants ≡ ok tt
    → quantity_of id d ≤ stock_of id plants
check_stock-le id [] plants h e = omega arith
check_stock-le id ((k, q) ∷ d) plants h e =
    let (fits, later) = check_stock-cons k q d plants e in
    ground (arith, check_stock-le id d plants h.1 later, quantity_of-absent k d h.0)
