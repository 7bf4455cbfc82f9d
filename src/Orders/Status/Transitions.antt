-- ===== src/Orders/Status/Transitions.antt =====
-- The order pipeline as a relation, and that `_ensure_transition_allowed` decides it.
use green_garden_api.Prelude.{
  ◌+◌, ◌≤◌, ◌≡◌, refl, true, false, arith, ltb, Bool-cases, inl, inr, ◌⊎◌, ◌↔◌,
}
use green_garden_api.Core.Errors.{ok}
use green_garden_api.Database.Models.{OrderStatus}
use green_garden_api.Orders.Status.{
  flow_index, is_terminal, is_cancelled, ensure_transition_allowed,
}

-- One step of the pipeline.
pub data Next : OrderStatus → OrderStatus → Type 0 where
  confirm : Next OrderStatus.pending OrderStatus.confirmed
  process : Next OrderStatus.confirmed OrderStatus.processing
  ship : Next OrderStatus.processing OrderStatus.shipping
  complete : Next OrderStatus.shipping OrderStatus.completed

-- Any number of steps.
pub data Forward : OrderStatus → OrderStatus → Type 0 where
  stay : (s : OrderStatus) → Forward s s
  onward : {s t u : OrderStatus} → Next s t → Forward t u → Forward s u

-- A status that is not final moves forward, by any number of steps, or is cancelled.
abbrev pub MayMove : OrderStatus → OrderStatus → Type 0
MayMove s t = (is_terminal s ≡ false) × (Forward s t ⊎ (t ≡ OrderStatus.cancelled))

Next-index : {s t : OrderStatus} → Next s t → flow_index t ≡ flow_index s + 1
unfolding flow_index
Next-index confirm = refl
Next-index process = refl
Next-index ship = refl
Next-index complete = refl

Forward-index : {s t : OrderStatus} → Forward s t → flow_index s ≤ flow_index t
Forward-index (stay s) = omega arith
Forward-index (onward n f) = omega (arith, Next-index n, Forward-index f)

-- Between statuses of the flow an index that does not fall is a path forward.
Forward-of :
    (s t : OrderStatus)
    → is_cancelled t ≡ false
    → is_terminal s ≡ false
    → ltb (flow_index t) (flow_index s) ≡ false
    → Forward s t
unfolding flow_index is_terminal is_cancelled
Forward-of OrderStatus.pending OrderStatus.pending c h e = stay _
Forward-of OrderStatus.pending OrderStatus.confirmed c h e = onward confirm (stay _)
Forward-of OrderStatus.pending OrderStatus.processing c h e =
    onward confirm (onward process (stay _))
Forward-of OrderStatus.pending OrderStatus.shipping c h e =
    onward confirm (onward process (onward ship (stay _)))
Forward-of OrderStatus.pending OrderStatus.completed c h e =
    onward confirm (onward process (onward ship (onward complete (stay _))))
Forward-of OrderStatus.confirmed OrderStatus.confirmed c h e = stay _
Forward-of OrderStatus.confirmed OrderStatus.processing c h e = onward process (stay _)
Forward-of OrderStatus.confirmed OrderStatus.shipping c h e = onward process (onward ship (stay _))
Forward-of OrderStatus.confirmed OrderStatus.completed c h e =
    onward process (onward ship (onward complete (stay _)))
Forward-of OrderStatus.processing OrderStatus.processing c h e = stay _
Forward-of OrderStatus.processing OrderStatus.shipping c h e = onward ship (stay _)
Forward-of OrderStatus.processing OrderStatus.completed c h e =
    onward ship (onward complete (stay _))
Forward-of OrderStatus.shipping OrderStatus.shipping c h e = stay _
Forward-of OrderStatus.shipping OrderStatus.completed c h e = onward complete (stay _)
Forward-of _ _ c h e = cc

cancelled-is_cancelled : is_cancelled OrderStatus.cancelled ≡ true
unfolding is_cancelled
cancelled-is_cancelled = refl

is_cancelled_lem : (t : OrderStatus) → is_cancelled t ≡ true → t ≡ OrderStatus.cancelled
unfolding is_cancelled
is_cancelled_lem OrderStatus.cancelled h = refl
is_cancelled_lem _ h = cc

-- The check accepts a change exactly if the current status is not final, and the target lies
-- forward in the pipeline or is `cancelled`.
pub ensure_transition_allowed_iff :
    (current target : OrderStatus)
    → (ensure_transition_allowed current target ≡ ok tt) ↔ MayMove current target
unfolding ensure_transition_allowed
ensure_transition_allowed_iff current target = (to, from)
  where
    to : ensure_transition_allowed current target ≡ ok tt → MayMove current target
    to h = elim (Bool-cases (is_cancelled target)) [
      | inl c ↦ (ground arith, inr (is_cancelled_lem target c))
      | inr c ↦ (ground arith, inl (Forward-of current target c (ground arith) (ground arith)))
    ]

    from : MayMove current target → ensure_transition_allowed current target ≡ ok tt
    from (open', inl f) = ground (arith, Forward-index f)
    from (open', inr e) = rw (open', e, cancelled-is_cancelled) refl
