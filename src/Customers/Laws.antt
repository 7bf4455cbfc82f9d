-- ===== src/Customers/Laws.antt =====
-- No operation on customers leaves two of them with one phone number.
use green_garden_api.Prelude.{
  ℕ, ◌≡◌, refl, Bool, true, false, Option, none, some, Text, any, Bool-cases, inl, inr,
}
use green_garden_api.Core.Errors.{AppError}
use green_garden_api.Database.Models.{Customer, Db}
use green_garden_api.Database.Keys.{
  HasUniqueKeys, HasUniqueKeys-add, HasUniqueKeys-keep, HasUniqueKeys-set,
}
use green_garden_api.Database.Session.{World, Env, modify, commit, atomically, continue, ◌>>◌}
use green_garden_api.Database.Session.Invariants.{
  Holds, Keeps, Keeps-bind, Keeps-modify, Keeps-atomically, Keeps-commit, Keeps-guarded,
}
use green_garden_api.Customers.{
  has_id, takes_phone, set_customer, add_customer, ensure_phone_available, get_customer,
  new_customer, with_profile, changed_phone, change_phone, create_customer, update_customer,
}

-- Customers have distinct identifiers and distinct phone numbers.
abbrev pub HasUniquePhones : Db → Type 0
HasUniquePhones db = HasUniqueKeys (λ (c : Customer). c.id) (λ (c : Customer). c.phone) db.customers

get_customer-Keeps : (id : ℕ) → Keeps HasUniquePhones (get_customer id)
unfolding get_customer
get_customer-Keeps id w h = h

-- The commit, and the row that is read again.
stored-Keeps :
    (env : Env) (id : ℕ) → Keeps HasUniquePhones (atomically (commit env) >> get_customer id)
stored-Keeps env id =
    Keeps-bind HasUniquePhones (atomically (commit env)) (λ _. get_customer id)
      (Keeps-atomically HasUniquePhones (commit env) (Keeps-commit HasUniquePhones env))
      (λ _. get_customer-Keeps id)

change_phone-Keeps :
    (env : Env) (customer : Customer) (phone : Option Text)
    → Keeps HasUniquePhones (change_phone env customer phone)
unfolding change_phone ensure_phone_available
change_phone-Keeps env customer none w h = h
change_phone-Keeps env customer (some phone) w h =
    Keeps-guarded HasUniquePhones (ensure_phone_available phone (some customer.id))
      (λ db. any (takes_phone phone (some customer.id)) db.customers)
      (AppError.customer_phone_taken phone) _ w refl
      (λ free u.
        HasUniqueKeys-set (λ (c : Customer). c.id) (λ (c : Customer). c.phone)
          (λ (c : Customer). record c { phone = phone }) (λ c. refl) phone (λ c. refl) customer.id
          w.working.customers u free)
      h

with_profile-same :
    (name email : Option Text) (email_provided : Bool) (c : Customer)
    → ((with_profile name email email_provided c).id ≡ c.id)
      × ((with_profile name email email_provided c).phone ≡ c.phone)
with_profile-same name email true c = (refl, refl)
with_profile-same name email false c = (refl, refl)

-- If no two customers share an identifier or a phone number, neither in the committed database nor
-- in the session's view, the same holds after `update_customer`, whatever it returns or raises.
pub update_customer-HasUniquePhones :
    (env : Env) (id : ℕ) (phone name email : Option Text) (email_provided : Bool) (w : World)
    → Holds HasUniquePhones w
    → Holds HasUniquePhones (update_customer env id phone name email email_provided w).1
unfolding update_customer
update_customer-HasUniquePhones env id phone name email email_provided =
    let profile = with_profile name email email_provided in
    let same = with_profile-same name email email_provided in
    Keeps-bind HasUniquePhones (get_customer id) _ (get_customer-Keeps id) (λ c.
      Keeps-bind HasUniquePhones (change_phone env c (changed_phone phone c)) _
        (change_phone-Keeps env c (changed_phone phone c))
        (λ _.
          Keeps-bind HasUniquePhones (modify (set_customer c.id profile))
            (λ _. atomically (commit env) >> get_customer c.id)
            (Keeps-modify HasUniquePhones (set_customer c.id profile) (λ db.
              HasUniqueKeys-keep (λ (d : Customer). d.id) (λ (d : Customer). d.phone) profile
                (λ d. (same d).0) (λ d. (same d).1) c.id db.customers))
            (λ _. stored-Keeps env c.id)))

-- If no two customers share an identifier or a phone number, neither in the committed database nor
-- in the session's view, and the identifier that is drawn is new, the same holds after
-- `create_customer`, whatever it returns or raises.
pub create_customer-HasUniquePhones :
    (env : Env) (phone name : Text) (email : Option Text) (w : World)
    → any (has_id (env.uuid 0)) w.working.customers ≡ false
    → Holds HasUniquePhones w
    → Holds HasUniquePhones (create_customer env phone name email w).1
unfolding create_customer ensure_phone_available
create_customer-HasUniquePhones env phone name email w fresh h =
    elim (Bool-cases (any (takes_phone phone none) w.working.customers)) [
      | inl taken ↦ rw (taken, continue) h
      | inr free ↦
          let row = new_customer env phone name email in
          rw (free, continue)
            (stored-Keeps env (env.uuid 0) (record w { working = add_customer row w.working })
              (
                h.0,
                HasUniqueKeys-add (λ (c : Customer). c.id) (λ (c : Customer). c.phone)
                    w.working.customers row h.1 fresh free,
              ))
    ]
