-- ===== src/Admins.antt =====
-- app/features/admins/service.py: the accounts of the panel.
pub mod Laws
pub mod Standing
pub mod Login
use green_garden_api.Prelude.{
  ℕ, Bool, true, false, not, ◌&&◌, Option, none, some, List, [], ◌∷◌, ◌++◌, Text, text_eq, ◌==◌,
  ltb, update_where, length, if◌then◌else◌,
}
use green_garden_api.Core.Errors.{AppError, Result, ok, raise_if, or_raise}
use green_garden_api.Core.Text.{CaseMap, strip, is_space}
use green_garden_api.Core.Security.{Crypto, normalize_email, validate_password_strength}
use green_garden_api.Database.Models.{Admin, Db}
use green_garden_api.Database.Session.{
  World, Env, Action, pure, gets, lift, modify, commit, ◌>>=◌, ◌>>◌,
}
use green_garden_api.Listing.{order_by, paginate}
use green_garden_api.Auth.{has_admin_id, get_admin_by_email, get_admin_by_id}

abbrev pub created_later : Admin → Admin → Bool
created_later a b = not (ltb a.created_at b.created_at)

-- Equally old accounts stand in any order; here in the table's.
unfoldable pub list_admins : ℕ → ℕ → Action (List Admin × ℕ)
unfolding paginate order_by
list_admins page page_size =
    gets (λ db. (paginate page page_size (order_by created_later db.admins), length db.admins))

unfoldable pub get_admin : ℕ → Action Admin
get_admin admin_id = do
  admin ← get_admin_by_id admin_id
  lift (or_raise admin AppError.admin_not_found)

abbrev pub set_admin : ℕ → (Admin → Admin) → Db → Db
set_admin id f db = record db { admins = update_where (has_admin_id id) f db.admins }

abbrev pub add_admin : Admin → Db → Db
add_admin admin db = record db { admins = db.admins ++ admin ∷ [] }

-- `existing is not None`, and the same with `existing.id != admin.id`.
abbrev pub is_found : Option Admin → Bool
is_found none = false
is_found (some admin) = true

abbrev pub is_other : ℕ → Option Admin → Bool
is_other id none = false
is_other id (some existing) = not (existing.id == id)

module _ (cases : CaseMap) (crypto : Crypto) (env : Env) where
  abbrev pub new_admin : Text → Text → Text → Admin
  new_admin name normalized password = record {
    id = env.uuid 0;
    name = strip is_space name;
    email = normalized;
    password_hash = crypto.hash (env.uuid 1) password;
    is_active = true;
    created_at = env.now;
  }

  -- `commit()` and `refresh(admin)`; nothing is rolled back when the commit fails.
  unfoldable pub commit_admin : ℕ → Action Admin
  commit_admin admin_id = do commit env; get_admin admin_id

  unfoldable pub create_admin_account : Text → Text → Text → Action Admin
  create_admin_account name email password = do
    lift (validate_password_strength crypto password)
    let normalized = normalize_email cases email
    existing ← get_admin_by_email cases normalized
    lift (raise_if (is_found existing) (AppError.admin_email_taken normalized))
    modify (add_admin (new_admin name normalized password))
    commit_admin (env.uuid 0)

  abbrev pub change_name : ℕ → Option Text → Action (Unit {0})
  change_name admin_id none = pure tt
  change_name admin_id (some name) =
      modify (set_admin admin_id (λ a. record a { name = strip is_space name }))

  -- `if email is not None: … if normalized != admin.email: …`
  abbrev pub changed_email : Admin → Option Text → Option Text
  changed_email admin none = none
  changed_email admin (some email) =
      if text_eq (normalize_email cases email) admin.email
      then none
      else some (normalize_email cases email)

  unfoldable pub change_email : ℕ → Option Text → Action (Unit {0})
  change_email admin_id none = pure tt
  change_email admin_id (some normalized) = do
    existing ← get_admin_by_email cases normalized
    lift (raise_if (is_other admin_id existing) (AppError.admin_email_taken normalized))
    modify (set_admin admin_id (λ a. record a { email = normalized }))

  -- `current_admin_id is not None and admin.id == current_admin_id and is_active is False`
  abbrev pub deactivates_self : ℕ → Bool → Option ℕ → Bool
  deactivates_self admin_id is_active none = false
  deactivates_self admin_id is_active (some current) = admin_id == current && not is_active

  unfoldable pub change_active : ℕ → Option Bool → Option ℕ → Action (Unit {0})
  change_active admin_id none current_admin_id = pure tt
  change_active admin_id (some is_active) current_admin_id = do
    lift
        (raise_if (deactivates_self admin_id is_active current_admin_id) AppError.self_deactivation)
    modify (set_admin admin_id (λ a. record a { is_active = is_active }))

  unfoldable pub update_admin :
      ℕ → Option Text → Option Text → Option Bool → Option ℕ → Action Admin
  update_admin admin_id name email is_active current_admin_id = do
    admin ← get_admin admin_id
    change_name admin.id name
    change_email admin.id (changed_email admin email)
    change_active admin.id is_active current_admin_id
    commit_admin admin.id

  unfoldable pub update_admin_status : ℕ → Bool → ℕ → Action Admin
  update_admin_status admin_id is_active current_admin_id =
      update_admin admin_id none none (some is_active) (some current_admin_id)

  unfoldable pub change_admin_password : ℕ → Text → Action Admin
  change_admin_password admin_id password = do
    lift (validate_password_strength crypto password)
    admin ← get_admin admin_id
    modify
        (set_admin admin.id (λ a. record a { password_hash = crypto.hash (env.uuid 1) password }))
    commit_admin admin.id

  -- `create_admin`: an address that is taken is a `ValueError`.
  abbrev pub as_value_error : {A : Type 0} → Result A × World → Result A × World
  as_value_error (Result.err (AppError.admin_email_taken email), w) =
      (Result.err AppError.value_error, w)
  as_value_error outcome = outcome

  unfoldable pub create_admin : Text → Text → Text → Action Admin
  create_admin name email password w = as_value_error (create_admin_account name email password w)
