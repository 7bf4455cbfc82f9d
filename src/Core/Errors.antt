-- ===== src/Core/Errors.antt =====
-- The exceptions that the services raise: the subclasses of `AppException`
-- (app/core/exceptions.py and the head of each service), with the values of their messages.
use green_garden_api.Prelude.{
  ℕ, Text, Bool, Option, none, some, if◌then◌else◌, ◌≡◌, refl, false, arith,
}

pub data AppError : Type 0 where
  customer_not_found admin_not_found category_not_found plant_not_found plant_image_not_found :
      AppError
  order_not_found review_not_found notification_not_found : AppError
  admin_email_taken customer_phone_taken category_slug_taken plant_slug_taken plant_sku_taken :
      Text → AppError
  insufficient_stock : Text → ℕ → ℕ → AppError
  plant_unavailable : Text → AppError
  invalid_credentials invalid_token self_deactivation : AppError
  customer_inactive : Text → AppError
  order_total_too_large invalid_status_transition service_unavailable unauthorized : AppError
  bot_signal_rejected : AppError
  checkout_rate_limited : ℕ → AppError
  -- the database refuses a flush or a commit; a missing key of a `dict`; any other `ValueError`
  database_error key_error value_error : AppError

-- `status_code` of the exception's class; the last three have no class of their own and are
-- answered by the handlers of app/core/error_handlers.py.
unfoldable pub status_code : AppError → ℕ
status_code AppError.customer_not_found = 404
status_code AppError.admin_not_found = 404
status_code AppError.category_not_found = 404
status_code AppError.plant_not_found = 404
status_code AppError.plant_image_not_found = 404
status_code AppError.order_not_found = 404
status_code AppError.review_not_found = 404
status_code AppError.notification_not_found = 404
status_code (AppError.admin_email_taken _) = 409
status_code (AppError.customer_phone_taken _) = 409
status_code (AppError.category_slug_taken _) = 409
status_code (AppError.plant_slug_taken _) = 409
status_code (AppError.plant_sku_taken _) = 409
status_code (AppError.insufficient_stock _ _ _) = 409
status_code (AppError.plant_unavailable _) = 409
status_code AppError.invalid_credentials = 401
status_code AppError.invalid_token = 401
status_code AppError.unauthorized = 401
status_code AppError.self_deactivation = 400
status_code (AppError.customer_inactive _) = 400
status_code AppError.order_total_too_large = 400
status_code AppError.invalid_status_transition = 400
status_code AppError.service_unavailable = 503
status_code AppError.bot_signal_rejected = 403
status_code (AppError.checkout_rate_limited _) = 429
status_code AppError.database_error = 500
status_code AppError.key_error = 500
status_code AppError.value_error = 500

-- What a call returns or raises, where it reads no database.
pub data Result (A : Type 0) : Type 0 where
  ok : A → Result A
  err : AppError → Result A

-- A step whose exception ends the chain.
infixl 5 ◌>>=◌ ◌>>◌
abbrev pub ◌>>=◌ : {T U : Type 0} → Result T → (T → Result U) → Result U
err problem >>= next = err problem
ok value >>= next = next value

abbrev pub ◌>>◌ : {U : Type 0} → Result (Unit {0}) → Result U → Result U
check >> next = check >>= λ _. next

-- `if condition: raise problem`
abbrev pub raise_if : Bool → AppError → Result (Unit {0})
raise_if condition problem = if condition then err problem else ok tt

-- A value that a query must have found.
abbrev pub or_raise : {T : Type 0} → Option T → AppError → Result T
or_raise (some value) problem = ok value
or_raise none problem = err problem

-- A chain that returned has returned at every step.
pub >>=-eq-ok :
    {T U : Type 0} (step : Result T) (next : T → Result U) {result : U}
    → (step >>= next) ≡ ok result
    → (value : T) × (step ≡ ok value) × (next value ≡ ok result)
>>=-eq-ok (err problem) next returned = cc
>>=-eq-ok (ok value) next returned = (value, refl, returned)

pub >>-eq-ok :
    {U : Type 0} (check : Result (Unit {0})) (next : Result U) {result : U}
    → (check >> next) ≡ ok result
    → (check ≡ ok tt) × (next ≡ ok result)
>>-eq-ok (err problem) next returned = cc
>>-eq-ok (ok tt) next returned = (refl, returned)

pub raise_if-eq-ok :
    (condition : Bool) (problem : AppError) → raise_if condition problem ≡ ok tt → condition ≡ false
raise_if-eq-ok condition problem returned = ground arith

pub or_raise-eq-ok :
    {T : Type 0} (found : Option T) (problem : AppError) {value : T}
    → or_raise found problem ≡ ok value
    → found ≡ some value
or_raise-eq-ok (some value) problem returned = ground arith
or_raise-eq-ok none problem returned = cc
