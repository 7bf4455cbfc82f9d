-- ===== src/Plants.antt =====
-- app/features/plants/service.py: creating and changing plants, with the uniqueness of slugs and
-- SKUs and the history of slugs. `sync_plant_knowledge_safe`, which mirrors a plant into the vector
-- database and swallows every failure, touches none of the tables and is left out.
pub mod Changes
pub mod Catalogue
pub mod Images
pub mod Slugs
pub mod Stages
pub mod Renaming
pub mod Lookup
use green_garden_api.Prelude.{
  ℕ, ◌≡◌, Bool, true, false, not, ◌&&◌, Option, none, some, List, [], ◌∷◌, ◌++◌, Text, text_eq,
  ◌==◌, if◌then◌else◌, find?, any, select, update_where,
}
use green_garden_api.Core.Errors.{AppError, Result, ok, err, raise_if, or_raise}
use green_garden_api.Database.Models.{Plant, PlantCare, PlantSlugHistory, Db}
use green_garden_api.Database.Session.{
  World, Env, Action, StorefrontEntity, pure, gets, lift, modify, atomically, commit,
  notify_storefront, ◌>>=◌, ◌>>◌,
}
use green_garden_api.Categories.{get_category, assigned}
use green_garden_api.Orders.Pricing.{has_plant_id}
use green_garden_api.Plants.Changes.{NewPlant, PlantChanges, with_fields}

-- The conditions of the two checks: another plant has the slug, or the SKU.
abbrev pub takes_plant_slug : Text → Option ℕ → Plant → Bool
takes_plant_slug slug none p = text_eq p.slug slug
takes_plant_slug slug (some exclude_id) p = text_eq p.slug slug && not (p.id == exclude_id)

abbrev pub takes_sku : Text → Option ℕ → Plant → Bool
takes_sku sku none p = text_eq p.sku sku
takes_sku sku (some exclude_id) p = text_eq p.sku sku && not (p.id == exclude_id)

abbrev pub has_history_slug : Text → PlantSlugHistory → Bool
has_history_slug slug h = text_eq h.slug slug

abbrev pub set_plant : ℕ → (Plant → Plant) → Db → Db
set_plant id f db = record db { plants = update_where (has_plant_id id) f db.plants }

abbrev pub add_plant : Plant → Db → Db
add_plant plant db = record db { plants = db.plants ++ plant ∷ [] }

abbrev pub add_history : PlantSlugHistory → Db → Db
add_history entry db = record db { slug_history = db.slug_history ++ entry ∷ [] }

unfoldable pub ensure_plant_slug_available : Text → Option ℕ → Action (Unit {0})
ensure_plant_slug_available slug exclude_id = do
  taken ← gets (λ db. any (takes_plant_slug slug exclude_id) db.plants)
  lift (raise_if taken (AppError.plant_slug_taken slug))

unfoldable pub ensure_sku_available : Text → Option ℕ → Action (Unit {0})
ensure_sku_available sku exclude_id = do
  taken ← gets (λ db. any (takes_sku sku exclude_id) db.plants)
  lift (raise_if taken (AppError.plant_sku_taken sku))

-- `DELETE FROM plant_slug_history WHERE slug = …`
abbrev pub without_slug : Text → Db → Db
without_slug slug db = record db {
  slug_history = select (λ h. not (has_history_slug slug h)) db.slug_history;
}

unfoldable pub release_historical_slug : Text → Action (Unit {0})
release_historical_slug slug = modify (without_slug slug)

unfoldable pub get_plant : ℕ → Action Plant
get_plant plant_id = do
  plant ← gets (λ db. find? (has_plant_id plant_id) db.plants)
  lift (or_raise plant AppError.plant_not_found)

-- `category_id is not None and category_id != plant.category_id`, and the same for the texts.
abbrev pub changed_id : Option ℕ → ℕ → Option ℕ
changed_id none old = none
changed_id (some new) old = if new == old then none else some new

abbrev pub changed_text : Option Text → Text → Option Text
changed_text none old = none
changed_text (some new) old = if text_eq new old then none else some new

module _ (env : Env) where
  abbrev pub new_plant : NewPlant → Plant
  new_plant input = record {
    id = env.uuid 0;
    category_id = input.category_id;
    name = input.name;
    name_vi = input.name_vi;
    slug = input.slug;
    description = input.description;
    description_vi = input.description_vi;
    long_description = input.long_description;
    long_description_vi = input.long_description_vi;
    og_image_url = input.og_image_url;
    price = input.price;
    price_vi = input.price_vi;
    stock = input.stock;
    sku = input.sku;
    is_featured = input.is_featured;
    is_active = input.is_active;
    care = input.care;
    created_at = env.now;
  }

  -- The end of every operation on a plant; `old` are the slugs that the message names besides.
  unfoldable pub publish_plant : ℕ → List (Option Text) → Action Plant
  publish_plant plant_id old = do
    atomically (commit env)
    plant ← get_plant plant_id
    notify_storefront env StorefrontEntity.plants (some plant.slug ∷ old)
    pure plant

  unfoldable pub create_plant : NewPlant → Action Plant
  create_plant input = do
    get_category input.category_id
    ensure_plant_slug_available input.slug none
    ensure_sku_available input.sku none
    release_historical_slug input.slug
    modify (add_plant (new_plant input))
    publish_plant (env.uuid 0) []

  unfoldable pub change_category : Plant → Option ℕ → Action (Unit {0})
  change_category plant none = pure tt
  change_category plant (some category_id) = do
    get_category category_id
    modify (set_plant plant.id (λ p. record p { category_id = category_id }))

  -- A slug that changes goes into the history, and one that was history comes out of it.
  unfoldable pub change_plant_slug : Plant → Option Text → Action (Unit {0})
  change_plant_slug plant none = pure tt
  change_plant_slug plant (some slug) = do
    ensure_plant_slug_available slug (some plant.id)
    release_historical_slug slug
    modify (add_history (record { plant_id = plant.id; slug = plant.slug }))
    modify (set_plant plant.id (λ p. record p { slug = slug }))

  unfoldable pub change_sku : Plant → Option Text → Action (Unit {0})
  change_sku plant none = pure tt
  change_sku plant (some sku) = do
    ensure_sku_available sku (some plant.id)
    modify (set_plant plant.id (λ p. record p { sku = sku }))

  unfoldable pub update_plant : ℕ → PlantChanges → Action Plant
  update_plant plant_id changes = do
    plant ← get_plant plant_id
    change_category plant (changed_id changes.category_id plant.category_id)
    change_plant_slug plant (changed_text changes.slug plant.slug)
    change_sku plant (changed_text changes.sku plant.sku)
    modify (set_plant plant.id (with_fields changes))
    publish_plant plant.id (some plant.slug ∷ [])

  unfoldable pub set_plant_status : ℕ → Bool → Action Plant
  set_plant_status plant_id is_active = do
    plant ← get_plant plant_id
    modify (set_plant plant.id (λ p. record p { is_active = is_active }))
    publish_plant plant.id []
