-- ===== src/Orders/Create/Inversion.antt =====
-- Inversion of `place_order`: what an order that was placed rests on, and what it has written.
use green_garden_api.Prelude.{◌≡◌, ◌∙◌, ap, sym, Option, List, Bool-cases, inl, inr, Text}
use green_garden_api.Core.Errors.{AppError, Result, ok}
use green_garden_api.Database.Models.{Customer, Plant, Db}
use green_garden_api.Database.Session.{World, Env, lift, flush, commit, continue}
use green_garden_api.Database.Session.Rules.{bind-eq-ok}
use green_garden_api.Customers.{resolve_customer_for_order}
use green_garden_api.Orders.Number.{generate_order_number}
use green_garden_api.Orders.Pricing.{OrderPrice}
use green_garden_api.Orders.Admission.{ordered_plants, admit}
use green_garden_api.Orders.Create.{
  NewOrder, order_phone, add_order, new_order, write_items, write_order, place_order,
}
use green_garden_api.Orders.Create.Frame.{Untouched, resolve-Untouched}

-- The database with the order in it.
abbrev pub placed_db : Env → NewOrder → Customer → OrderPrice → Text → List Plant → Db → Db
placed_db env input customer priced number plants db =
    write_items env input customer priced number plants
      (add_order (new_order env input customer priced number) db)

write_order-eq-ok :
    (env : Env) (input : NewOrder) (customer : Customer) (plants : List Plant) (priced : OrderPrice)
    (v : World) {slugs : List (Option Text)} {u : World}
    → write_order env input customer plants priced v ≡ (ok slugs, u)
    → let final =
        placed_db env input customer priced
          (generate_order_number env.today v.working)
          plants
          v.working in
      (u.working ≡ final) × (u.committed ≡ final)
unfolding write_order flush commit
write_order-eq-ok env input customer plants priced v {slugs} {u} h =
    let number = generate_order_number env.today v.working in
    let with_order = add_order (new_order env input customer priced number) v.working in
    let final = placed_db env input customer priced number plants v.working in
    elim (Bool-cases (env.accepts with_order)) [
      | inl flushed ↦ elim (Bool-cases (env.accepts final)) [
        | inl taken ↦
            let done = rw (flushed, taken, continue) at h in
            (
              sym (ap (λ (r : Result (List (Option Text)) × World). r.1.working) done),
              sym (ap (λ (r : Result (List (Option Text)) × World). r.1.committed) done),
            )
        | inr refused ↦ absurd (
            clash (
              ap (λ (r : Result (List (Option Text)) × World). r.0)
                (rw (flushed, refused, continue) at h)))
      ]
      | inr refused ↦ absurd (
          clash
            (ap (λ (r : Result (List (Option Text)) × World). r.0) (rw (refused, continue) at h)))
    ]
  where
    clash : {e : AppError} → Result.err e ≡ ok slugs → ⊥
    clash k = cc

-- What a placed order rests on: the session after the customer was resolved, and the admission.
pub record IsPlaced (env : Env) (input : NewOrder) (w u : World) : Type 0 where
  pub customer : Customer
  pub session : World
  pub resolved :
      resolve_customer_for_order env
        (order_phone input.source input.customer_phone)
        input.customer_name
        input.customer_email
        w
      ≡ (ok customer, session)
  pub untouched : Untouched w session
  pub priced : OrderPrice
  pub admitted : admit input.items (ordered_plants input.items session.working) ≡ ok priced
  pub written :
      u.working
      ≡ placed_db env input customer priced
          (generate_order_number env.today session.working)
          (ordered_plants input.items session.working)
          session.working
  pub committed : u.committed ≡ u.working

pub place_order-IsPlaced :
    (env : Env) (input : NewOrder) (w : World) {slugs : List (Option Text)} {u : World}
    → place_order env input w ≡ (ok slugs, u)
    → IsPlaced env input w u
unfolding place_order
place_order-IsPlaced env input w {slugs} {u} h =
    let phone = order_phone input.source input.customer_phone in
    let (customer, v, resolved, rest) =
      bind-eq-ok (resolve_customer_for_order env phone input.customer_name input.customer_email) _ w
        h in
    let plants = ordered_plants input.items v.working in
    let (priced, x, admitted, last) =
      bind-eq-ok (lift (admit input.items plants)) (write_order env input customer plants) v rest in
    let same : v ≡ x = ap (λ (r : Result OrderPrice × World). r.1) admitted in
    let written = write_order-eq-ok env input customer plants priced v (rw (← same) at last) in
    record {
      customer = customer;
      session = v;
      resolved = resolved;
      untouched =
          let frame = resolve-Untouched env phone input.customer_name input.customer_email w in
          rw resolved at frame;
      priced = priced;
      admitted = ap (λ (r : Result OrderPrice × World). r.0) admitted;
      written = written.0;
      committed = written.1 ∙ sym written.0;
    }
