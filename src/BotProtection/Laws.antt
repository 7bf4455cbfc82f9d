-- ===== src/BotProtection/Laws.antt =====
-- When a phone number that is refused may order again.
use green_garden_api.Prelude.{
  ℕ, zero, suc, ◌+◌, ◌*◌, ◌≡◌, ◌≤◌, ◌<◌, refl, ap, Bool, true, false, ◌&&◌, List, [], ◌∷◌, Text,
  lt→ltb, ltb, select, take, length, All, arith, Bool-cases, inl, inr,
}
use green_garden_api.Core.Errors.{AppError, Result, ok, err}
use green_garden_api.Core.Text.{normalize_vn_phone}
use green_garden_api.Database.Models.{Order}
use green_garden_api.Database.Session.{World}
use green_garden_api.Listing.{order_by}
use green_garden_api.Listing.Laws.{
  InOrder, InOrder-order_by, count-order_by, length-order_by, All-order_by,
}
use green_garden_api.BotProtection.{
  is_by, is_recent, newer, retry_after, limit_rows, check_checkout_phone_limit,
}

All-select :
    (P : Order → Type 0) (p : Order → Bool) (rows : List Order) → All P rows → All P (select p rows)
All-select P p [] h = tt
All-select P p (o ∷ rows) h = elim (Bool-cases (p o)) [
  | inl yes' ↦ rw yes' (h.0, All-select P p rows h.1)
  | inr no' ↦ rw no' (All-select P p rows h.1)
]

newer_total : (a b : Order) → newer a b ≡ false → newer b a ≡ true
newer_total a b h = ground arith

-- Behind an order that is not recent there is none.
none_behind :
    (later : ℕ) (o : Order) (rows : List Order)
    → InOrder newer (o ∷ rows)
    → is_recent later o ≡ false
    → length (select (is_recent later) (o ∷ rows)) ≡ 0
none_behind later o [] h old = rw old refl
none_behind later o (p ∷ rows) h old =
    let next : is_recent later p ≡ false = ground (arith, h.0, old) in
    rw old (none_behind later p rows h.1 next)

still_recent :
    (p : Order → Bool) (now later : ℕ) (rows : List Order)
    → now ≤ later
    → length (select (λ o. p o && is_recent later o) rows)
      ≡ length (select (is_recent later) (select (λ o. p o && is_recent now o) rows))
still_recent p now later [] h = refl
still_recent p now later (o ∷ rows) h = ground (arith, h, still_recent p now later rows)

two_more :
    (p : Order → Bool) (a b : Order) (rows : List Order)
    → length (select p (a ∷ b ∷ rows)) ≤ 2 + length (select p rows)
two_more p a b rows = ground arith

retry-bounds :
    (now : ℕ) (o : Order)
    → o.created_at ≤ now
    → (1 ≤ retry_after now o) × (retry_after now o ≤ 3600)
retry-bounds now o h = (ground (arith, h), ground (arith, h))

retry-ends :
    (now later : ℕ) (o : Order)
    → now + retry_after now o * 1_000_000 < later
    → is_recent later o ≡ false
retry-ends now later o h = ground (arith, h)

length-take-le : (n : ℕ) (rows : List Order) → length (take n rows) ≤ length rows
length-take-le zero rows = omega arith
length-take-le (suc n) [] = omega arith
length-take-le (suc n) (o ∷ rows) = omega (arith, length-take-le n rows)

-- With three counted orders, the newest first, what the answer says and when it ends.
module _ (now later : ℕ) where
  abbrev Answer : ℕ → List Order → Type 0
  Answer r rows =
      (1 ≤ r)
      × (r ≤ 3600)
      × (now + r * 1_000_000 < later → length (select (is_recent later) rows) ≤ 2)

  answer :
      (rows : List Order) {r : ℕ}
      → InOrder newer rows
      → All (λ (o : Order). o.created_at ≤ now) rows
      → limit_rows now (take 3 rows) ≡ err (AppError.checkout_rate_limited r)
      → Answer r rows
  answer [] {r} h past refused = cc
  answer (a ∷ []) {r} h past refused = cc
  answer (a ∷ b ∷ []) {r} h past refused = cc
  answer (a ∷ b ∷ c ∷ rows) {r} h past refused =
      let is_r : retry_after now c ≡ r = cc in
      let bounds = retry-bounds now c past.1.1.0 in
      (
        rw is_r at bounds.0,
        rw is_r at bounds.1,
        λ wait.
            let old = retry-ends now later c (rw is_r wait) in
            let none' = none_behind later c rows h.1.1 old in
            omega (arith, two_more (is_recent later) a b (c ∷ rows), none'),
      )

-- Suppose that no order is dated in the future. A phone number that is refused is told to wait for a
-- whole number of seconds between one and 3600; and if no order is added, the check passes at any
-- microsecond after these seconds.
pub check_checkout_phone_limit-retry :
    (now later : ℕ) (phone : Text) (w : World) {r : ℕ}
    → All (λ (o : Order). o.created_at ≤ now) w.working.orders
    → check_checkout_phone_limit now phone w ≡ (err (AppError.checkout_rate_limited r), w)
    → (1 ≤ r)
      × (r ≤ 3600)
      × (now + r * 1_000_000 < later → check_checkout_phone_limit later phone w ≡ (ok tt, w))
unfolding check_checkout_phone_limit
check_checkout_phone_limit-retry now later phone w {r} past refused =
    let p = is_by (normalize_vn_phone phone) w.working.customers in
    let counted = select (λ o. p o && is_recent now o) w.working.orders in
    let (low, high, few) =
      answer now later (order_by newer counted) (InOrder-order_by newer newer_total counted)
        (All-order_by newer _ counted (All-select _ _ w.working.orders past))
        (ap (λ (x : Result (Unit {0}) × World). x.0) refused) in
    (
      low,
      high,
      λ wait.
          let same = still_recent p now later w.working.orders (omega (arith, wait)) in
          let kept = count-order_by newer (is_recent later) counted in
          passes later (select (λ o. p o && is_recent later o) w.working.orders)
            (omega (arith, few wait, same, kept)),
    )
  where
    passes :
        (later : ℕ) (orders : List Order)
        → length orders ≤ 2
        → ◌≡◌ {A = Result (Unit {0}) × World}
            (limit_rows later (take 3 (order_by newer orders)), w)
            (ok tt, w)
    passes later orders short =
        let short' : ltb (length (take 3 (order_by newer orders))) 3 ≡ true = lt→ltb _ 3 (
          omega (
            arith,
            length-take-le 3 (order_by newer orders),
            length-order_by newer orders,
            short,
          )) in
        rw short' refl
