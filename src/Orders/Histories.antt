-- ===== src/Orders/Histories.antt =====
-- Sequences of checkouts and status changes, each in a session of its own.
use green_garden_api.Prelude.{
  ℕ, ◌+◌, ◌≡◌, refl, ◌∙◌, ap, sym, true, false, List, [], ◌∷◌, ◌++◌, arith, ◌==◌, any, map, inl,
  inr, sum_of, sum_of-append,
}
use mathlib.Core.Path.{subst}
use green_garden_api.Core.Errors.{Result, ok, err}
use green_garden_api.Database.Models.{OrderStatus, Order, Db}
use green_garden_api.Database.Session.{World, Env, IsAtomic}
use green_garden_api.Orders.Pricing.{has_plant_id}
use green_garden_api.Orders.Stock.Laws.{stock_of, requested_of}
use green_garden_api.Orders.Create.{NewOrder, as_input, has_order_id, create_order}
use green_garden_api.Orders.Create.Inversion.{IsPlaced}
use green_garden_api.Orders.Create.Placed.{placed-orders, placed-stock, placed-any-plant}
use green_garden_api.Orders.Create.Charges.{placed-IsCharged, row}
use green_garden_api.Orders.Create.Laws.{create_order-eq-ok}
use green_garden_api.Orders.Create.Refusal.{create_order-IsAtomic}
use green_garden_api.Orders.Status.{is_cancelled, update_order_status}
use green_garden_api.Orders.Status.Laws.{update_order_status-committed}
use green_garden_api.Orders.Status.Ledger.{
  held_by, units_of, HasUniqueIds, update-HasUniqueIds, any-restored, moved-units,
}

pub data Request : Type 0 where
  place : NewOrder → Request
  move : ℕ → OrderStatus → Request

-- A session that begins: it sees what is committed.
abbrev pub session : Db → World
session db = record { committed = db; working = db; outbox = [] }

-- What is committed after a request, whether it returned or raised.
unfoldable pub serve : Env → Request → Db → Db
serve env (place input) db = (create_order env input (session db)).1.committed
serve env (move id status) db = (update_order_status env id status (session db)).1.committed

unfoldable pub serve_all : List (Env × Request) → Db → Db
serve_all [] db = db
serve_all ((env, request) ∷ history) db = serve_all history (serve env request db)

-- At each request the identifier that a new order would get is new.
abbrev pub DrawsNewIds : List (Env × Request) → Db → Type 0
DrawsNewIds [] db = Unit
DrawsNewIds ((env, request) ∷ history) db =
    (any (has_order_id (env.uuid 1)) db.orders ≡ false) × DrawsNewIds history (serve env request db)

append-HasUniqueIds :
    (orders : List Order) (o : Order)
    → HasUniqueIds orders
    → any (has_order_id o.id) orders ≡ false
    → HasUniqueIds (orders ++ o ∷ [])
append-HasUniqueIds [] o h e = (refl, tt)
append-HasUniqueIds (x ∷ orders) o h e =
    (last x orders (ground arith) h.0, append-HasUniqueIds orders o h.1 (ground arith))
  where
    last :
        (y : Order) (os : List Order)
        → (y.id == o.id) ≡ false
        → any (has_order_id y.id) os ≡ false
        → any (has_order_id y.id) (os ++ o ∷ []) ≡ false
    last y [] a b = ground arith
    last y (z ∷ os) a b = ground (arith, last y os a)

-- What a request keeps: the units of the plant, that the plant is listed, and distinct identifiers.
pub record Keeps (id : ℕ) (old new : Db) : Type 0 where
  pub units : units_of id new ≡ units_of id old
  pub listed : any (has_plant_id id) new.plants ≡ true
  pub unique : HasUniqueIds new.orders

Keeps-refl :
    (id : ℕ) (db : Db)
    → any (has_plant_id id) db.plants ≡ true
    → HasUniqueIds db.orders
    → Keeps id db db
Keeps-refl id db h u = record { units = refl; listed = h; unique = u }

pending-held :
    (id : ℕ) (o : Order)
    → o.status ≡ OrderStatus.pending
    → held_by id o ≡ requested_of id (map as_input o.items)
unfolding is_cancelled
pending-held id o h = ground (arith, h)

placed-Keeps :
    (id : ℕ) (env : Env) (input : NewOrder) (w u : World)
    → any (has_plant_id id) w.working.plants ≡ true
    → HasUniqueIds w.working.orders
    → any (has_order_id (env.uuid 1)) w.working.orders ≡ false
    → IsPlaced env input w u
    → Keeps id w.working u.working
placed-Keeps id env input w u listed unique fresh placed =
    let r = row env input placed in
    let charged = placed-IsCharged env input placed in
    let orders = placed-orders env input placed fresh in
    let held : held_by id r ≡ requested_of id input.items =
      pending-held id r charged.begins.0 ∙ ap (requested_of id) charged.lines in
    record {
      units =
          ap (λ (os : List Order). stock_of id u.working.plants + sum_of (held_by id) os) orders
          ∙ omega (
            arith,
            sum_of-append (held_by id) w.working.orders (r ∷ []),
            held,
            placed-stock env input placed id,
          );
      listed = placed-any-plant env input placed id ∙ listed;
      unique =
          subst HasUniqueIds (sym orders) (append-HasUniqueIds w.working.orders r unique fresh);
    }

place-Keeps :
    (id : ℕ) (env : Env) (input : NewOrder) (db : Db)
    → any (has_plant_id id) db.plants ≡ true
    → HasUniqueIds db.orders
    → any (has_order_id (env.uuid 1)) db.orders ≡ false
    → Keeps id db (create_order env input (session db)).1.committed
place-Keeps id env input db listed unique fresh =
    go (create_order env input (session db)) refl
      (create_order-IsAtomic env input (session db) fresh)
  where
    go :
        (r : Result Order × World)
        → create_order env input (session db) ≡ r
        → IsAtomic (session db) r
        → Keeps id db r.1.committed
    go (ok order, w') e h =
        let (u, placed, _, stored, _) = create_order-eq-ok env input (session db) e in
        subst (Keeps id db) (sym (stored ∙ placed.committed))
          (placed-Keeps id env input (session db) u listed unique fresh placed)
    go (err x, w') e h = subst (Keeps id db) (sym h.0) (Keeps-refl id db listed unique)

move-Keeps :
    (id : ℕ) (env : Env) (order_id : ℕ) (status : OrderStatus) (db : Db)
    → any (has_plant_id id) db.plants ≡ true
    → HasUniqueIds db.orders
    → Keeps id db (update_order_status env order_id status (session db)).1.committed
move-Keeps id env order_id status db listed unique =
    elim (update_order_status-committed env order_id status (session db)) [
      | inl same ↦ subst (Keeps id db) (sym same) (Keeps-refl id db listed unique)
      | inr (o, found, allowed, stored) ↦ subst (Keeps id db) (sym stored) (record {
        units = moved-units id order_id status o db unique listed found allowed;
        listed = any-restored id (is_cancelled status) o db.plants ∙ listed;
        unique = update-HasUniqueIds o.id status db.orders unique;
      })
    ]

serve-Keeps :
    (id : ℕ) (env : Env) (request : Request) (db : Db)
    → any (has_plant_id id) db.plants ≡ true
    → HasUniqueIds db.orders
    → any (has_order_id (env.uuid 1)) db.orders ≡ false
    → Keeps id db (serve env request db)
unfolding serve
serve-Keeps id env (place input) db listed unique fresh =
    place-Keeps id env input db listed unique fresh
serve-Keeps id env (move order_id status) db listed unique fresh =
    move-Keeps id env order_id status db listed unique

-- From a database whose orders have distinct identifiers, and if every request draws a new one, any
-- sequence of checkouts and status changes, refused ones included, keeps the units of a listed
-- plant: its stock plus what the orders that are not cancelled hold.
pub serve_all-units :
    (id : ℕ) (history : List (Env × Request)) (db : Db)
    → any (has_plant_id id) db.plants ≡ true
    → HasUniqueIds db.orders
    → DrawsNewIds history db
    → units_of id (serve_all history db) ≡ units_of id db
unfolding serve_all
serve_all-units id [] db listed unique fresh = refl
serve_all-units id ((env, request) ∷ history) db listed unique fresh =
    let kept = serve-Keeps id env request db listed unique fresh.0 in
    serve_all-units id history (serve env request db) kept.listed kept.unique fresh.1 ∙ kept.units
