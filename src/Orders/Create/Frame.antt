-- ===== src/Orders/Create/Frame.antt =====
-- What the parts of `create_order` leave alone, and that a failed order leaves nothing behind.
use green_garden_api.Prelude.{
  ◌≡◌, refl, Option, none, some, List, Text, Bool-cases, inl, inr, find?,
}
use green_garden_api.Core.Errors.{Result, ok, err}
use green_garden_api.Database.Models.{Customer, Plant}
use green_garden_api.Database.Session.{World, Env, lift, flush, commit, continue, ◌>>=◌}
use green_garden_api.Database.Session.Rules.{IsQuiet, LeavesNothing, LeavesNothing-bind}
use green_garden_api.Customers.{
  has_phone, add_customer, new_customer, resolve_found, resolve_customer_for_order,
}
use green_garden_api.Orders.Create.{
  NewOrder, order_phone, write_order, place_order, add_order, new_order, write_items,
}
use green_garden_api.Orders.Number.{generate_order_number}
use green_garden_api.Orders.Pricing.{OrderPrice}
use green_garden_api.Orders.Admission.{admit, ordered_plants}

-- The other tables and the committed state stay as they are.
abbrev pub Untouched : World → World → Type 0
Untouched w v =
    (v.committed ≡ w.committed)
    × (v.outbox ≡ w.outbox)
    × (v.working.plants ≡ w.working.plants)
    × (v.working.orders ≡ w.working.orders)
    × (v.working.notifications ≡ w.working.notifications)

resolve_found-Untouched :
    (env : Env) (phone name : Text) (email : Option Text) (found : Option Customer) (w : World)
    → Untouched w (resolve_found env phone name email found w).1
unfolding resolve_found
resolve_found-Untouched env phone name email (some customer) w =
    elim (Bool-cases customer.is_active) [
      | inl active ↦ rw (active, continue) (refl, refl, refl, refl, refl)
      | inr inactive ↦ rw (inactive, continue) (refl, refl, refl, refl, refl)
    ]
resolve_found-Untouched env phone name email none w =
    elim (Bool-cases (env.accepts (add_customer (new_customer env phone name email) w.working))) [
      | inl taken ↦ rw (taken, continue) (refl, refl, refl, refl, refl)
      | inr refused ↦ rw (refused, continue) (refl, refl, refl, refl, refl)
    ]

pub resolve-Untouched :
    (env : Env) (phone name : Text) (email : Option Text) (w : World)
    → Untouched w (resolve_customer_for_order env phone name email w).1
unfolding resolve_customer_for_order
resolve-Untouched env phone name email w =
    resolve_found-Untouched env phone name email (find? (has_phone phone) w.working.customers) w

resolve-IsQuiet :
    (env : Env) (phone name : Text) (email : Option Text)
    → IsQuiet (resolve_customer_for_order env phone name email)
resolve-IsQuiet env phone name email w =
    let u = resolve-Untouched env phone name email w in (u.0, u.1)

write_order-LeavesNothing :
    (env : Env) (input : NewOrder) (customer : Customer) (plants : List Plant) (priced : OrderPrice)
    → LeavesNothing (write_order env input customer plants priced)
unfolding write_order flush commit
write_order-LeavesNothing env input customer plants priced w =
    let number = generate_order_number env.today w.working in
    let with_order = add_order (new_order env input customer priced number) w.working in
    let complete = write_items env input customer priced number plants with_order in
    elim (Bool-cases (env.accepts with_order)) [
      | inl flushed ↦ elim (Bool-cases (env.accepts complete)) [
        | inl taken ↦ rw (flushed, taken, continue) tt
        | inr refused ↦ rw (flushed, refused, continue) (refl, refl)
      ]
      | inr refused ↦ rw (refused, continue) (refl, refl)
    ]

admitted-LeavesNothing :
    (env : Env) (input : NewOrder) (customer : Customer) (plants : List Plant)
    (r : Result OrderPrice)
    → LeavesNothing (lift r >>= write_order env input customer plants)
admitted-LeavesNothing env input customer plants (ok priced) w =
    write_order-LeavesNothing env input customer plants priced w
admitted-LeavesNothing env input customer plants (err e) w = (refl, refl)

-- An order that is refused at any step, the last commit included, has written nothing that stays.
pub place_order-LeavesNothing :
    (env : Env) (input : NewOrder) → LeavesNothing (place_order env input)
unfolding place_order
place_order-LeavesNothing env input =
    let resolve =
      resolve_customer_for_order env (order_phone input.source input.customer_phone)
        input.customer_name input.customer_email in
    LeavesNothing-bind resolve _ (resolve-IsQuiet env _ _ _) λ customer w.
      let plants = ordered_plants input.items w.working in
      admitted-LeavesNothing env input customer plants (admit input.items plants) w
