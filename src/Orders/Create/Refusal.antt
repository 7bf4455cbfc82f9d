-- ===== src/Orders/Create/Refusal.antt =====
-- A checkout that is refused: the rollback of `create_order` (app/features/orders/service.py).
use mathlib.Core.Path.{subst}
use green_garden_api.Prelude.{◌≡◌, refl, ◌∙◌, ap, sym, false, Option, List, any, Text}
use green_garden_api.Core.Errors.{AppError, Result, ok, err}
use green_garden_api.Database.Models.{Order}
use green_garden_api.Database.Session.{
  World, Env, Action, StorefrontEntity, continue, settle, atomically, notify_storefront, IsAtomic,
  ◌>>=◌,
}
use green_garden_api.Database.Session.Rules.{
  atomically-eq-ok, notify_storefront-frame, atomically-LeavesNothing, IsAtomic-of-ok,
}
use green_garden_api.Orders.Create.{NewOrder, has_order_id, place_order, create_order, get_order}
use green_garden_api.Orders.Create.Inversion.{IsPlaced, place_order-IsPlaced}
use green_garden_api.Orders.Create.Frame.{place_order-LeavesNothing}
use green_garden_api.Orders.Create.Laws.{get_order-placed}

-- An order whose identifier was new leaves nothing behind if it is refused.
pub create_order-IsAtomic :
    (env : Env) (input : NewOrder) (w : World)
    → any (has_order_id (env.uuid 1)) w.working.orders ≡ false
    → IsAtomic w (create_order env input w)
unfolding create_order get_order notify_storefront
create_order-IsAtomic env input w fresh =
    go (atomically (place_order env input) w) refl
      (atomically-LeavesNothing (place_order env input) (place_order-LeavesNothing env input) w)
  where
    rest : List (Option Text) → Action Order
    rest slugs = notify_storefront env StorefrontEntity.plants slugs >>= λ _. get_order (env.uuid 1)

    finish :
        (slugs : List (Option Text)) (u : World)
        → IsPlaced env input w u
        → IsAtomic w (rest slugs u)
    finish slugs u placed = IsAtomic-of-ok w (rest slugs u) (
        get_order-placed env input w u (notify_storefront env StorefrontEntity.plants slugs u).1
          placed fresh (notify_storefront-frame env StorefrontEntity.plants slugs u).0)

    go :
        (r : Result (List (Option Text)) × World)
        → atomically (place_order env input) w ≡ r
        → IsAtomic w r
        → IsAtomic w (continue r rest)
    go (ok slugs, u) e h =
        finish slugs u
          (place_order-IsPlaced env input w (atomically-eq-ok (place_order env input) w e))
    go (err x, u) e h = h

atomically-rolled_back :
    {A : Type 0} (r : Result A × World) {e : AppError} {u : World}
    → settle r ≡ (err e, u)
    → u.working ≡ u.committed
atomically-rolled_back {A} (ok a, v) {e} h = absurd (clash (ap (λ (r : Result A × World). r.0) h))
  where
    clash : Result.ok a ≡ err e → ⊥
    clash c = cc
atomically-rolled_back {A} (err x, v) {e} {u} h =
    subst (λ (t : World). t.working ≡ t.committed) (ap (λ (r : Result A × World). r.1) h) refl

create_order-rolled_back :
    (env : Env) (input : NewOrder) (w : World) {e : AppError} {w' : World}
    → any (has_order_id (env.uuid 1)) w.working.orders ≡ false
    → create_order env input w ≡ (err e, w')
    → w'.working ≡ w'.committed
unfolding create_order get_order notify_storefront
create_order-rolled_back env input w {e} {w'} fresh h =
    go (atomically (place_order env input) w) refl h
  where
    rest : List (Option Text) → Action Order
    rest slugs = notify_storefront env StorefrontEntity.plants slugs >>= λ _. get_order (env.uuid 1)

    clash : {o : Order} → Result.ok o ≡ err e → ⊥
    clash c = cc

    go :
        (r : Result (List (Option Text)) × World)
        → atomically (place_order env input) w ≡ r
        → continue r rest ≡ (err e, w')
        → w'.working ≡ w'.committed
    go (ok slugs, u) q k =
        let placed =
          place_order-IsPlaced env input w (atomically-eq-ok (place_order env input) w q) in
        let found =
          get_order-placed env input w u (notify_storefront env StorefrontEntity.plants slugs u).1
            placed fresh (notify_storefront-frame env StorefrontEntity.plants slugs u).0 in
        absurd (clash (sym found ∙ ap (λ (r : Result Order × World). r.0) k))
    go (err x, u) q k =
        subst (λ (t : World). t.working ≡ t.committed) (ap (λ (r : Result Order × World). r.1) k)
          (atomically-rolled_back (place_order env input w) q)

-- An order that is refused, at any step and for any reason, has written nothing: the committed
-- database and the messages are as they were before, and the session shows the committed database
-- again. The identifier that was drawn must be new.
pub create_order-refused :
    (env : Env) (input : NewOrder) (w : World) {e : AppError} {w' : World}
    → any (has_order_id (env.uuid 1)) w.working.orders ≡ false
    → create_order env input w ≡ (err e, w')
    → (w'.committed ≡ w.committed) × (w'.outbox ≡ w.outbox) × (w'.working ≡ w.committed)
create_order-refused env input w {e} {w'} fresh h =
    let kept : IsAtomic {A = Order} w (err e, w') =
      subst (IsAtomic {A = Order} w) h (create_order-IsAtomic env input w fresh) in
    (kept.0, kept.1, create_order-rolled_back env input w fresh h ∙ kept.0)
