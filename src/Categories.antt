-- ===== src/Categories.antt =====
-- app/features/categories/service.py: categories and the uniqueness of their slugs.
pub mod Laws
pub mod Listing
use green_garden_api.Prelude.{
  ℕ, Bool, not, ◌&&◌, Option, none, some, [], ◌∷◌, ◌++◌, Text, text_eq, ◌==◌, if◌then◌else◌, find?,
  any, update_where,
}
use green_garden_api.Core.Errors.{AppError, raise_if, or_raise}
use green_garden_api.Database.Models.{Category, Db}
use green_garden_api.Database.Session.{
  Env, Action, StorefrontEntity, pure, gets, lift, modify, atomically, commit, notify_storefront,
  ◌>>=◌, ◌>>◌,
}

abbrev pub has_category_id : ℕ → Category → Bool
has_category_id id c = c.id == id

-- `Category.slug == slug`, and `Category.id != exclude_id` if that is given.
abbrev pub takes_slug : Text → Option ℕ → Category → Bool
takes_slug slug none c = text_eq c.slug slug
takes_slug slug (some exclude_id) c = text_eq c.slug slug && not (c.id == exclude_id)

abbrev pub set_category : ℕ → (Category → Category) → Db → Db
set_category id f db = record db { categories = update_where (has_category_id id) f db.categories }

abbrev pub add_category : Category → Db → Db
add_category category db = record db { categories = db.categories ++ category ∷ [] }

unfoldable pub ensure_slug_available : Text → Option ℕ → Action (Unit {0})
ensure_slug_available slug exclude_id = do
  taken ← gets (λ db. any (takes_slug slug exclude_id) db.categories)
  lift (raise_if taken (AppError.category_slug_taken slug))

unfoldable pub get_category : ℕ → Action Category
get_category category_id = do
  category ← gets (λ db. find? (has_category_id category_id) db.categories)
  lift (or_raise category AppError.category_not_found)

-- The keyword arguments of `create_category`.
pub record NewCategory : Type 0 where
  pub name : Text
  pub name_vi : Option Text
  pub slug : Text
  pub description : Option Text
  pub description_vi : Option Text
  pub image_url : Option Text
  pub sort_order : ℕ
  pub is_active : Bool

-- Those of `update_category`; `none` leaves a field, and `some` of an option sets one that was
-- provided.
pub record CategoryChanges : Type 0 where
  pub name : Option Text
  pub name_vi : Option (Option Text)
  pub slug : Option Text
  pub description : Option (Option Text)
  pub description_vi : Option (Option Text)
  pub image_url : Option (Option Text)
  pub sort_order : Option ℕ
  pub is_active : Option Bool

abbrev pub assigned : {A : Type 0} → Option A → A → A
assigned none old = old
assigned (some new) old = new

-- The assignments of `update_category` but for the slug.
abbrev pub with_changes : CategoryChanges → Category → Category
with_changes changes c = record c {
  name = assigned changes.name c.name;
  name_vi = assigned changes.name_vi c.name_vi;
  description = assigned changes.description c.description;
  description_vi = assigned changes.description_vi c.description_vi;
  image_url = assigned changes.image_url c.image_url;
  sort_order = assigned changes.sort_order c.sort_order;
  is_active = assigned changes.is_active c.is_active;
}

-- `slug is not None and slug != category.slug`
abbrev pub changed_slug : Option Text → Category → Option Text
changed_slug none c = none
changed_slug (some slug) c = if text_eq slug c.slug then none else some slug

module _ (env : Env) where
  abbrev pub new_category : NewCategory → Category
  new_category input = record {
    id = env.uuid 0;
    name = input.name;
    name_vi = input.name_vi;
    slug = input.slug;
    description = input.description;
    description_vi = input.description_vi;
    image_url = input.image_url;
    sort_order = input.sort_order;
    is_active = input.is_active;
    created_at = env.now;
  }

  -- The commit and the message, which every operation ends with.
  unfoldable pub publish : ℕ → Action Category
  publish category_id = do
    atomically (commit env)
    notify_storefront env StorefrontEntity.categories []
    get_category category_id

  unfoldable pub create_category : NewCategory → Action Category
  create_category input = do
    ensure_slug_available input.slug none
    modify (add_category (new_category input))
    publish (env.uuid 0)

  unfoldable pub change_slug : Category → Option Text → Action (Unit {0})
  change_slug category none = pure tt
  change_slug category (some slug) = do
    ensure_slug_available slug (some category.id)
    modify (set_category category.id (λ c. record c { slug = slug }))

  unfoldable pub update_category : ℕ → CategoryChanges → Action Category
  update_category category_id changes = do
    category ← get_category category_id
    change_slug category (changed_slug changes.slug category)
    modify (set_category category.id (with_changes changes))
    publish category.id

  unfoldable pub set_category_status : ℕ → Bool → Action Category
  set_category_status category_id is_active = do
    category ← get_category category_id
    modify (set_category category.id (λ c. record c { is_active = is_active }))
    publish category.id
