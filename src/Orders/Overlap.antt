-- ===== src/Orders/Overlap.antt =====
-- Two requests that have both read an order before either of them wrote: `update_order_status` reads
-- it without a row lock, so the check of the second one runs on the copy that it read.
use green_garden_api.Prelude.{ℕ, ◌+◌, ◌*◌, ◌≡◌, ◌∙◌, ap, true, any, map, arith}
use green_garden_api.Core.Errors.{ok}
use green_garden_api.Database.Models.{Order, OrderStatus, Db}
use green_garden_api.Database.Session.{World, Env}
use green_garden_api.Orders.Pricing.{has_plant_id}
use green_garden_api.Orders.Stock.Laws.{stock_of, requested_of}
use green_garden_api.Orders.Create.{as_input}
use green_garden_api.Orders.Status.{is_cancelled, change_status}
use green_garden_api.Orders.Status.Laws.{change_status-eq-ok}
use green_garden_api.Orders.Status.Ledger.{stock_of-restored, any-restored}
use green_garden_api.Orders.Histories.{session}

-- Two requests that cancel an order, the second of which has read it before the first committed,
-- give its quantities back twice when both return: each listed plant gains twice what the order
-- asked for.
pub change_status-restocks_twice :
    (env env' : Env) (order : Order) (db : Db) {first second : Order} {w w' : World}
    → change_status env order OrderStatus.cancelled (session db) ≡ (ok first, w)
    → change_status env' order OrderStatus.cancelled (session w.committed) ≡ (ok second, w')
    → (id : ℕ) → any (has_plant_id id) db.plants ≡ true
    → stock_of id w'.committed.plants
      ≡ stock_of id db.plants + 2 * requested_of id (map as_input order.items)
unfolding is_cancelled
change_status-restocks_twice env env' order db {w = w} h h' id listed =
    let once = (change_status-eq-ok env order OrderStatus.cancelled (session db) h).1 in
    let twice = (change_status-eq-ok env' order OrderStatus.cancelled (session w.committed) h').1 in
    let plants = λ (d : Db). stock_of id d.plants in
    let still : any (has_plant_id id) w.committed.plants ≡ true =
      ap (λ (d : Db). any (has_plant_id id) d.plants) once
      ∙ (any-restored id true order db.plants ∙ listed) in
    omega (
      arith,
      ap plants once ∙ stock_of-restored id true order db.plants listed,
      ap plants twice ∙ stock_of-restored id true order w.committed.plants still,
    )
