-- ===== src/Orders/Status/Laws.antt =====
-- What a change of status writes.
use green_garden_api.Prelude.{
  ℕ, ◌≡◌, refl, ◌∙◌, ap, sym, Bool, true, false, Option, none, some, List, [], ◌∷◌, if◌then◌else◌,
  find?, map, Bool-cases, inl, inr, ◌⊎◌, Text,
}
use green_garden_api.Core.Errors.{AppError, Result, ok, err, or_raise}
use green_garden_api.Database.Models.{Plant, OrderStatus, Order, Db}
use green_garden_api.Database.Session.{
  World, Env, Action, StorefrontEntity, pure, lift, commit, continue, atomically, settle,
  notify_storefront, ◌>>=◌, ◌>>◌,
}
use green_garden_api.Database.Session.Rules.{
  bind-eq-ok, atomically-eq-ok, notify_storefront-frame, LeavesNothing,
}
use green_garden_api.Orders.Stock.{sum_quantities, restock}
use green_garden_api.Orders.Create.{as_input, has_order_id, get_order}
use green_garden_api.Orders.Create.Laws.{get_order-eq-ok}
use green_garden_api.Orders.Status.{
  is_cancelled, same_status, ensure_transition_allowed, restore_stock, restore_if, set_order_status,
  move_order, notify_restocked, change_status, update_order_status, restocked_slugs,
}

-- The stock after `_restore_stock`, which runs only on the way into `cancelled`.
abbrev pub restored : Bool → Order → List Plant → List Plant
restored true order plants = restock (sum_quantities (map as_input order.items) []) plants
restored false order plants = plants

-- The database after the change.
abbrev pub moved_db : Order → OrderStatus → Db → Db
moved_db order status db =
    set_order_status order.id status
      (record db { plants = restored (is_cancelled status) order db.plants })

-- `_restore_stock` when it is called, as a write.
restore_if-lem :
    (b : Bool) (order : Order) (w : World)
    → restore_if b order w ≡ (
      ok (
          if b
          then restocked_slugs (sum_quantities (map as_input order.items) []) w.working.plants
          else []),
      record w { working = record w.working { plants = restored b order w.working.plants } },
    )
unfolding restore_if restore_stock
restore_if-lem true order w = refl
restore_if-lem false order w = refl

move_order-cases :
    (env : Env) (order : Order) (status : OrderStatus) (w : World)
    → let final = moved_db order status w.working in
      move_order env order status w ≡ (
        if env.accepts final
        then (
          ok (
              if is_cancelled status
              then restocked_slugs (sum_quantities (map as_input order.items) []) w.working.plants
              else []),
          record w { working = final; committed = final },
        )
        else (err AppError.database_error, record w { working = final }))
unfolding move_order commit
move_order-cases env order status w =
    rw (restore_if-lem (is_cancelled status) order w, continue)
      (elim (Bool-cases (env.accepts (moved_db order status w.working))) [
        | inl taken ↦ rw (taken, continue) refl
        | inr refused ↦ rw (refused, continue) refl
      ])

-- A change that returned is committed.
pub move_order-eq-ok :
    (env : Env) (order : Order) (status : OrderStatus) (w : World) {slugs : List (Option Text)}
    {u : World}
    → move_order env order status w ≡ (ok slugs, u)
    → (u.working ≡ moved_db order status w.working)
      × (u.committed ≡ moved_db order status w.working)
move_order-eq-ok env order status w {slugs} {u} h =
    elim (Bool-cases (env.accepts (moved_db order status w.working))) [
      | inl taken ↦
          let done = sym (rw taken at (move_order-cases env order status w)) in
          (
            sym (ap (λ (r : Result (List (Option Text)) × World). r.1.working) (done ∙ h)),
            sym (ap (λ (r : Result (List (Option Text)) × World). r.1.committed) (done ∙ h)),
          )
      | inr refused ↦ absurd (
          clash (
            ap (λ (r : Result (List (Option Text)) × World). r.0)
              (sym (rw refused at (move_order-cases env order status w)) ∙ h)))
    ]
  where
    clash : {e : AppError} → Result.err e ≡ ok slugs → ⊥
    clash k = cc

pub move_order-LeavesNothing :
    (env : Env) (order : Order) (status : OrderStatus) → LeavesNothing (move_order env order status)
move_order-LeavesNothing env order status w =
    elim (Bool-cases (env.accepts (moved_db order status w.working))) [
      | inl taken ↦ rw (move_order-cases env order status w) (rw taken tt)
      | inr refused ↦ rw (move_order-cases env order status w) (rw refused (refl, refl))
    ]

notify_restocked-frame :
    (env : Env) (slugs : List (Option Text)) (w : World)
    → ((notify_restocked env slugs w).1.working ≡ w.working)
      × ((notify_restocked env slugs w).1.committed ≡ w.committed)
unfolding notify_restocked
notify_restocked-frame env [] w = (refl, refl)
notify_restocked-frame env (slug ∷ slugs) w =
    notify_storefront-frame env StorefrontEntity.plants (slug ∷ slugs) w

-- What a change of status has done when it returned: nothing, if the order had the status already;
-- else the change was allowed, and the order's row and, for a cancellation, the stock are written
-- and committed.
pub change_status-eq-ok :
    (env : Env) (order : Order) (status : OrderStatus) (w : World) {result : Order} {w' : World}
    → change_status env order status w ≡ (ok result, w')
    → (ensure_transition_allowed order.status status ≡ ok tt)
      × (w'.committed ≡ moved_db order status w.working)
unfolding change_status
change_status-eq-ok env order status w {result} {w'} h =
    let (_, v, allowed, rest) =
      bind-eq-ok (lift (ensure_transition_allowed order.status status)) _ w h in
    let (slugs, u, moved, told) = bind-eq-ok (atomically (move_order env order status)) _ v rest in
    let (_, x, noticed, last) =
      bind-eq-ok (notify_restocked env slugs) (λ _. get_order order.id) u told in
    let frame = rw noticed at (notify_restocked-frame env slugs u) in
    let (_, same) = get_order-eq-ok order.id x last in
    let start : w ≡ v = ap (λ (r : Result (Unit {0}) × World). r.1) allowed in
    let stored =
      move_order-eq-ok env order status v
        (atomically-eq-ok (move_order env order status) v moved) in
    (
      ap (λ (r : Result (Unit {0}) × World). r.0) allowed,
      ap (λ (y : World). y.committed) same
          ∙ (frame.1
              ∙ (stored.1 ∙ ap (λ (y : World). moved_db order status y.working) (sym start))),
    )

eq_of_ok : {a b : Order} → Result.ok a ≡ ok b → a ≡ b
eq_of_ok h = cc

-- The order was left as it is, or the change was allowed, written and committed.
abbrev pub Changed : Order → OrderStatus → World → Order → World → Type 0
Changed order status w result w' =
    ((same_status status order.status ≡ true) × (w' ≡ w) × (result ≡ order))
    ⊎ ((ensure_transition_allowed order.status status ≡ ok tt)
        × (w'.committed ≡ moved_db order status w.working))

branches :
    (env : Env) (order : Order) (status : OrderStatus) (w : World) {result : Order} {w' : World}
    → (if same_status status order.status then pure order else change_status env order status) w
      ≡ (ok result, w')
    → Changed order status w result w'
branches env order status w {result} {w'} h = elim (Bool-cases (same_status status order.status)) [
  | inl same ↦
      let kept : pure order w ≡ (ok result, w') = rw same at h in
      inl (
        same,
        sym (ap (λ (r : Result Order × World). r.1) kept),
        sym (eq_of_ok (ap (λ (r : Result Order × World). r.0) kept)),
      )
  | inr other ↦
      let moved : change_status env order status w ≡ (ok result, w') = rw other at h in
      inr (change_status-eq-ok env order status w moved)
]

pub update_order_status-eq-ok :
    (env : Env) (id : ℕ) (status : OrderStatus) (w : World) {result : Order} {w' : World}
    → update_order_status env id status w ≡ (ok result, w')
    → (order : Order) × (find? (has_order_id id) w.working.orders ≡ some order)
      × Changed order status w result w'
unfolding update_order_status
update_order_status-eq-ok env id status w h =
    let (order, v, got, rest) = bind-eq-ok (get_order id) _ w h in
    let (found, start) = get_order-eq-ok id w got in
    (order, found, branches env order status w (rw start at rest))

-- After the transaction nothing more is committed, whether or not a later step raises.
module _ (env : Env) (order : Order) (status : OrderStatus) where
  rest : List (Option Text) → Action Order
  rest slugs = do notify_restocked env slugs; get_order order.id

  rest-committed :
      (slugs : List (Option Text)) (w : World) → (rest slugs w).1.committed ≡ w.committed
  unfolding rest notify_restocked notify_storefront get_order
  rest-committed [] w = refl
  rest-committed (slug ∷ slugs) w = elim (Bool-cases env.notify_on) [
    | inl enabled ↦ rw enabled refl
    | inr disabled ↦ rw disabled refl
  ]

  finish :
      (w : World)
      → let r = continue (atomically (move_order env order status) w) rest in
        (r.1.committed ≡ w.committed) ⊎ (r.1.committed ≡ moved_db order status w.working)
  finish w = elim (Bool-cases (env.accepts (moved_db order status w.working))) [
    | inl taken ↦
        rw (move_order-cases env order status w, taken, continue, settle) (inr (rest-committed _ _))
    | inr refused ↦ rw (move_order-cases env order status w, refused, continue, settle) (inl refl)
  ]

-- Whatever a change of status returns or raises, the committed database is the old one, or the
-- change was allowed and the new one holds it whole.
pub change_status-committed :
    (env : Env) (order : Order) (status : OrderStatus) (w : World)
    → ((change_status env order status w).1.committed ≡ w.committed)
      ⊎ ((ensure_transition_allowed order.status status ≡ ok tt)
          × ((change_status env order status w).1.committed ≡ moved_db order status w.working))
unfolding change_status rest
change_status-committed env order status w = go (ensure_transition_allowed order.status status) refl
  where
    body : Unit {0} → Action Order
    body _ = atomically (move_order env order status) >>= rest env order status

    go :
        (r : Result (Unit {0}))
        → ensure_transition_allowed order.status status ≡ r
        → ((continue (r, w) body).1.committed ≡ w.committed)
          ⊎ ((ensure_transition_allowed order.status status ≡ ok tt)
              × ((continue (r, w) body).1.committed ≡ moved_db order status w.working))
    go (ok _) e = elim (finish env order status w) [ inl h ↦ inl h | inr h ↦ inr (e, h) ]
    go (err _) e = inl refl

-- Whatever `update_order_status` returns or raises, the committed database is the old one, or the
-- order was found in the session's view, the change was allowed, and the new database holds the
-- order's new status and, for a cancellation, the stock that it gives back.
pub update_order_status-committed :
    (env : Env) (id : ℕ) (status : OrderStatus) (w : World)
    → ((update_order_status env id status w).1.committed ≡ w.committed)
      ⊎ ((order : Order) × (find? (has_order_id id) w.working.orders ≡ some order)
          × (ensure_transition_allowed order.status status ≡ ok tt)
          × ((update_order_status env id status w).1.committed ≡ moved_db order status w.working))
unfolding update_order_status get_order
update_order_status-committed env id status w = go (find? (has_order_id id) w.working.orders) refl
  where
    body : Order → Action Order
    body order =
        if same_status status order.status then pure order else change_status env order status

    go :
        (o : Option Order)
        → find? (has_order_id id) w.working.orders ≡ o
        → ((continue (or_raise o AppError.order_not_found, w) body).1.committed ≡ w.committed)
          ⊎ ((order : Order) × (find? (has_order_id id) w.working.orders ≡ some order)
              × (ensure_transition_allowed order.status status ≡ ok tt)
              × ((continue (or_raise o AppError.order_not_found, w) body).1.committed
                  ≡ moved_db order status w.working))
    go none e = inl refl
    go (some order) e = elim (Bool-cases (same_status status order.status)) [
      | inl same ↦ rw same (inl refl)
      | inr other ↦ rw other (elim (change_status-committed env order status w) [
        | inl h ↦ inl h
        | inr (allowed, h) ↦ inr (order, e, allowed, h)
      ])
    ]
