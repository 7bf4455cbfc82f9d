-- ===== src/BotProtection.antt =====
-- app/shared/bot_protection/service.py: the signals of a form, and the limit of orders per phone
-- number. The clock of the database counts microseconds.
pub mod Laws
use green_garden_api.Prelude.{
  ℕ, ◌+◌, ◌-◌, ◌/◌, ◌≡◌, Bool, true, false, not, ◌&&◌, ◌||◌, Option, none, some, List, [], ◌∷◌,
  Text, text_eq, is_nonempty, ltb, leb, ◌==◌, if◌then◌else◌, any, select, take, length,
}
use green_garden_api.Core.Errors.{AppError, Result, ok, err, raise_if, ◌>>◌}
use green_garden_api.Core.Text.{normalize_vn_phone}
use green_garden_api.Database.Models.{Customer, Order, Db}
use green_garden_api.Database.Session.{Action}
use green_garden_api.Listing.{order_by}

-- A fill time below zero is refused as zero is.
pub record BotSignals : Type 0 where
  pub website : Option Text
  pub form_elapsed_ms : Option ℕ

abbrev pub min_form_fill_ms : ℕ
min_form_fill_ms = 3000

abbrev pub checkout_phone_limit : ℕ
checkout_phone_limit = 3

-- `timedelta(hours=1)`, in microseconds
abbrev pub checkout_phone_window : ℕ
checkout_phone_window = 3_600_000_000

-- `if signals.website`
abbrev pub is_filled : Option Text → Bool
is_filled none = false
is_filled (some website) = is_nonempty website

abbrev pub is_too_quick : Option ℕ → Bool
is_too_quick none = true
is_too_quick (some elapsed) = ltb elapsed min_form_fill_ms

unfoldable pub verify_bot_signals : BotSignals → Result (Unit {0})
verify_bot_signals signals = do
  raise_if (is_filled signals.website) AppError.bot_signal_rejected
  raise_if (is_too_quick signals.form_elapsed_ms) AppError.bot_signal_rejected

-- The join with the customer of the number, and `created_at >= now - CHECKOUT_PHONE_WINDOW`.
abbrev pub is_by : Text → List Customer → Order → Bool
is_by canonical customers o =
    any (λ (c : Customer). c.id == o.customer_id && text_eq c.phone canonical) customers

abbrev pub is_recent : ℕ → Order → Bool
is_recent now o = leb now (o.created_at + checkout_phone_window)

abbrev pub newer : Order → Order → Bool
newer a b = not (ltb a.created_at b.created_at)

-- `rows[-1]`
abbrev pub last_row : List Order → Option Order
last_row [] = none
last_row (o ∷ []) = some o
last_row (o ∷ p ∷ orders) = last_row (p ∷ orders)

-- `math.ceil` of the microseconds in seconds
abbrev pub ceil_seconds : ℕ → ℕ
ceil_seconds microseconds = (microseconds + 999_999) / 1_000_000

-- `max(1, math.ceil(remaining))`; a time below zero counts as none, which gives 1 too.
abbrev pub retry_after : ℕ → Order → ℕ
retry_after now oldest_counted =
    let remaining = oldest_counted.created_at + checkout_phone_window - now in
    if leb 1 (ceil_seconds remaining) then ceil_seconds remaining else 1

abbrev pub refused_until : ℕ → Option Order → Result (Unit {0})
refused_until now none = ok tt
refused_until now (some oldest) = err (AppError.checkout_rate_limited (retry_after now oldest))

abbrev pub limit_rows : ℕ → List Order → Result (Unit {0})
limit_rows now rows =
    if ltb (length rows) checkout_phone_limit then ok tt else refused_until now (last_row rows)

unfoldable pub check_checkout_phone_limit : ℕ → Text → Action (Unit {0})
unfolding normalize_vn_phone order_by
check_checkout_phone_limit now phone w =
    let orders =
      select (λ o. is_by (normalize_vn_phone phone) w.working.customers o && is_recent now o)
        w.working.orders in
    (limit_rows now (take checkout_phone_limit (order_by newer orders)), w)
