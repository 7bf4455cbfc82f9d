-- ===== src/Customers.antt =====
-- app/features/customers/service.py: guests identified by their phone number.
pub mod Laws
pub mod Listing
use green_garden_api.Prelude.{
  ℕ, Bool, true, not, ◌&&◌, Option, none, some, [], ◌∷◌, ◌++◌, Text, text_eq, ◌==◌, if◌then◌else◌,
  find?, any, update_where,
}
use green_garden_api.Core.Errors.{AppError, raise_if, or_raise}
use green_garden_api.Database.Models.{Customer, Db}
use green_garden_api.Database.Session.{
  Env, Action, pure, gets, lift, modify, atomically, flush, commit, ◌>>=◌, ◌>>◌,
}

-- The conditions of the queries.
abbrev pub has_id : ℕ → Customer → Bool
has_id id c = c.id == id

abbrev pub has_phone : Text → Customer → Bool
has_phone phone c = text_eq c.phone phone

-- `Customer.phone == phone`, and `Customer.id != exclude_id` if that is given.
abbrev pub takes_phone : Text → Option ℕ → Customer → Bool
takes_phone phone none c = text_eq c.phone phone
takes_phone phone (some exclude_id) c = text_eq c.phone phone && not (c.id == exclude_id)

-- A row of the table is replaced by what the session holds of it.
abbrev pub set_customer : ℕ → (Customer → Customer) → Db → Db
set_customer id f db = record db { customers = update_where (has_id id) f db.customers }

unfoldable pub ensure_phone_available : Text → Option ℕ → Action (Unit {0})
ensure_phone_available phone exclude_id = do
  taken ← gets (λ db. any (takes_phone phone exclude_id) db.customers)
  lift (raise_if taken (AppError.customer_phone_taken phone))

unfoldable pub get_customer : ℕ → Action Customer
get_customer customer_id = do
  customer ← gets (λ db. find? (has_id customer_id) db.customers)
  lift (or_raise customer AppError.customer_not_found)

unfoldable pub get_customer_by_phone : Text → Action (Option Customer)
get_customer_by_phone phone = gets (λ db. find? (has_phone phone) db.customers)

-- `Customer(phone=…, name=…, email=…, is_active=True)`
abbrev pub new_customer : Env → Text → Text → Option Text → Customer
new_customer env phone name email = record {
  id = env.uuid 0;
  phone = phone;
  name = name;
  email = email;
  is_active = true;
  created_at = env.now;
}

abbrev pub add_customer : Customer → Db → Db
add_customer customer db = record db { customers = db.customers ++ customer ∷ [] }

-- The assignments of `update_customer` but for the phone.
abbrev pub with_profile : Option Text → Option Text → Bool → Customer → Customer
with_profile name email email_provided c =
    let named : Customer = record c { name = elim name [ none ↦ c.name | some n ↦ n ] } in
    if email_provided then record named { email = email } else named

-- `phone is not None and phone != customer.phone`
abbrev pub changed_phone : Option Text → Customer → Option Text
changed_phone none c = none
changed_phone (some phone) c = if text_eq phone c.phone then none else some phone

module _ (env : Env) where
  unfoldable pub create_customer : Text → Text → Option Text → Action Customer
  unfolding ensure_phone_available get_customer
  create_customer phone name email = do
    ensure_phone_available phone none
    let customer = new_customer env phone name email
    modify (add_customer customer)
    atomically (commit env)
    get_customer customer.id

  -- The check and the assignment of a phone that differs.
  unfoldable pub change_phone : Customer → Option Text → Action (Unit {0})
  unfolding ensure_phone_available
  change_phone customer none = pure tt
  change_phone customer (some phone) = do
    ensure_phone_available phone (some customer.id)
    modify (set_customer customer.id (λ c. record c { phone = phone }))

  unfoldable pub update_customer :
      ℕ → Option Text → Option Text → Option Text → Bool → Action Customer
  unfolding change_phone get_customer
  update_customer customer_id phone name email email_provided = do
    customer ← get_customer customer_id
    change_phone customer (changed_phone phone customer)
    modify (set_customer customer.id (with_profile name email email_provided))
    atomically (commit env)
    get_customer customer.id

  unfoldable pub set_customer_status : ℕ → Bool → Action Customer
  unfolding get_customer
  set_customer_status customer_id is_active = do
    customer ← get_customer customer_id
    modify (set_customer customer.id (λ c. record c { is_active = is_active }))
    atomically (commit env)
    get_customer customer.id

  -- `email is not None and customer.email is None`
  abbrev pub fill_email : Option Text → Customer → Customer
  fill_email none c = c
  fill_email (some email) c = elim c.email [ none ↦ record c { email = some email } | some _ ↦ c ]

  -- The two halves of `resolve_customer_for_order`: a known phone number, and a new one.
  unfoldable pub reuse_customer : Text → Option Text → Customer → Action Customer
  reuse_customer phone email customer = do
    lift (raise_if (not customer.is_active) (AppError.customer_inactive phone))
    modify (set_customer customer.id (fill_email email))
    pure (fill_email email customer)

  unfoldable pub enrol_customer : Text → Text → Option Text → Action Customer
  unfolding flush
  enrol_customer phone name email = do
    let customer = new_customer env phone name email
    modify (add_customer customer)
    flush env
    pure customer

  unfoldable pub resolve_found : Text → Text → Option Text → Option Customer → Action Customer
  unfolding reuse_customer enrol_customer
  resolve_found phone name email (some customer) = reuse_customer phone email customer
  resolve_found phone name email none = enrol_customer phone name email

  -- Never commits: the caller owns the order's transaction.
  unfoldable pub resolve_customer_for_order : Text → Text → Option Text → Action Customer
  unfolding resolve_found get_customer_by_phone
  resolve_customer_for_order phone name email = do
    found ← get_customer_by_phone phone
    resolve_found phone name email found
