-- ===== src/Overview/Laws.antt =====
-- How many orders stand in each status.
use green_garden_api.Prelude.{
  ℕ, ◌≡◌, ◌∙◌, refl, ap, false, Option, some, List, [], ◌∷◌, ◌==◌, ==→eq, any, length, arith,
  Bool-cases, inl, inr,
}
use green_garden_api.Database.Models.{Order, OrderStatus}
use green_garden_api.Grouping.{
  group_by, group_at, has_key, IsGrouped, group_at-group_by, group_by-IsGrouped, AreFull,
  group_by-AreFull, set_key, value_at, value_at-set_key,
}
use green_garden_api.Orders.Status.{flow_index, same_status}
use green_garden_api.Overview.{count, no_orders, count_groups, status_of, load_orders_by_status}

-- The number of a group, where there is one.
abbrev counted : Option ℕ → List Order → Option ℕ
counted old [] = old
counted old (o ∷ group) = some (length (o ∷ group))

absent-group_at :
    (key : ℕ) (groups : List (ℕ × List Order))
    → any (has_key key) groups ≡ false
    → group_at key groups ≡ []
absent-group_at key [] h = refl
absent-group_at key ((k, group) ∷ groups) h = ground (arith, absent-group_at key groups)

value_at-count_groups :
    (key : ℕ) (groups : List (ℕ × List Order)) (counts : List (ℕ × ℕ))
    → IsGrouped groups
    → AreFull groups
    → value_at key (count_groups groups counts)
      ≡ counted (value_at key counts) (group_at key groups)
unfolding count_groups
value_at-count_groups key [] counts h full = refl
value_at-count_groups key ((k, []) ∷ groups) counts h full = absurd full
value_at-count_groups key ((k, o ∷ group) ∷ groups) counts h full =
    value_at-count_groups key groups (set_key k (length (o ∷ group)) counts) h.1 full
    ∙ elim (Bool-cases (k == key)) [
      | inl same ↦
          let none' = absent-group_at key groups (rw (==→eq k key same) at h.0) in
          rw (value_at-set_key key k (length (o ∷ group)) counts, same, none') refl
      | inr other ↦ rw (value_at-set_key key k (length (o ∷ group)) counts, other) refl
    ]

counted-zero : (group : List Order) → counted (some 0) group ≡ some (length group)
counted-zero [] = refl
counted-zero (o ∷ group) = refl

no_orders-at : (status : OrderStatus) → value_at (flow_index status) no_orders ≡ some 0
unfolding flow_index
no_orders-at OrderStatus.pending = refl
no_orders-at OrderStatus.confirmed = refl
no_orders-at OrderStatus.processing = refl
no_orders-at OrderStatus.shipping = refl
no_orders-at OrderStatus.completed = refl
no_orders-at OrderStatus.cancelled = refl

-- The dashboard counts the orders of every status: each of the six statuses, also one that no order
-- has, stands in the result with the number of its orders.
pub load_orders_by_status-counts :
    (orders : List Order) (status : OrderStatus)
    → value_at (flow_index status) (load_orders_by_status orders)
      ≡ some (count (λ (o : Order). same_status o.status status) orders)
unfolding load_orders_by_status same_status
load_orders_by_status-counts orders status =
    let groups = group_by status_of orders in
    value_at-count_groups (flow_index status) groups no_orders (group_by-IsGrouped status_of orders)
      (group_by-AreFull status_of orders)
    ∙ rw (no_orders-at status) (counted-zero (group_at (flow_index status) groups))
    ∙ ap (λ (g : List Order). some (length g))
        (group_at-group_by status_of (flow_index status) orders)
