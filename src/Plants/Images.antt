-- ===== src/Plants/Images.antt =====
-- app/features/plants/service.py: the media of a plant.
pub mod Laws
use green_garden_api.Prelude.{
  ℕ, ◌≡◌, Bool, true, false, not, ◌&&◌, ◌||◌, Option, none, some, List, [], ◌∷◌, ◌++◌, Text, ◌==◌,
  ltb, leb, if◌then◌else◌, find?, any, select, update_where,
}
use green_garden_api.Core.Errors.{AppError, Result, ok, err, or_raise, raise_if}
use green_garden_api.Database.Models.{Plant, PlantImage, PlantImageType, Db}
use green_garden_api.Database.Session.{
  World, Env, Action, StorefrontEntity, pure, gets, lift, modify, atomically, commit,
  notify_storefront, ◌>>=◌, ◌>>◌,
}
use green_garden_api.Categories.{assigned}
use green_garden_api.Listing.{order_by}
use green_garden_api.Orders.Pricing.{has_plant_id}

abbrev pub belongs_to : ℕ → PlantImage → Bool
belongs_to plant_id image = image.plant_id == plant_id

abbrev pub has_image_id : ℕ → PlantImage → Bool
has_image_id id image = image.id == id

-- `(image.sort_order, image.created_at)`, compared as tuples
unfoldable pub shows_before : PlantImage → PlantImage → Bool
shows_before a b =
    ltb a.sort_order b.sort_order || (a.sort_order == b.sort_order && leb a.created_at b.created_at)

unfoldable pub ensure_plant_exists : ℕ → Action (Unit {0})
ensure_plant_exists plant_id = do
  known ← gets (λ db. any (has_plant_id plant_id) db.plants)
  lift (raise_if (not known) AppError.plant_not_found)

unfoldable pub list_plant_images : ℕ → Action (List PlantImage)
list_plant_images plant_id = do
  ensure_plant_exists plant_id
  gets (λ db. order_by shows_before (select (belongs_to plant_id) db.images))

unfoldable pub get_plant_image : ℕ → ℕ → Action PlantImage
get_plant_image plant_id image_id = do
  ensure_plant_exists plant_id
  image ← gets (λ db. find? (λ i. has_image_id image_id i && belongs_to plant_id i) db.images)
  lift (or_raise image AppError.plant_image_not_found)

-- The keyword arguments of `add_plant_image` and of `update_plant_image`.
pub record NewImage : Type 0 where
  pub url : Text
  pub type : PlantImageType
  pub alt_text : Option Text
  pub sort_order : ℕ

pub record ImageChanges : Type 0 where
  pub url : Option Text
  pub type : Option PlantImageType
  pub alt_text : Option (Option Text)
  pub sort_order : Option ℕ

abbrev pub with_image_changes : ImageChanges → PlantImage → PlantImage
with_image_changes changes image = record image {
  url = assigned changes.url image.url;
  type = assigned changes.type image.type;
  alt_text = assigned changes.alt_text image.alt_text;
  sort_order = assigned changes.sort_order image.sort_order;
}

abbrev pub set_image : ℕ → (PlantImage → PlantImage) → Db → Db
set_image id f db = record db { images = update_where (has_image_id id) f db.images }

abbrev pub add_image : PlantImage → Db → Db
add_image image db = record db { images = db.images ++ image ∷ [] }

abbrev pub remove_image : ℕ → Db → Db
remove_image id db = record db { images = select (λ i. not (has_image_id id i)) db.images }

module _ (env : Env) where
  abbrev pub new_image : ℕ → NewImage → PlantImage
  new_image plant_id input = record {
    id = env.uuid 0;
    plant_id = plant_id;
    url = input.url;
    type = input.type;
    alt_text = input.alt_text;
    sort_order = input.sort_order;
    created_at = env.now;
  }

  -- The commit and the message that every change of media ends with.
  unfoldable pub publish_media : Action (Unit {0})
  publish_media = do atomically (commit env); notify_storefront env StorefrontEntity.plants []

  unfoldable pub add_plant_image : ℕ → NewImage → Action PlantImage
  add_plant_image plant_id input = do
    ensure_plant_exists plant_id
    modify (add_image (new_image plant_id input))
    publish_media
    pure (new_image plant_id input)

  unfoldable pub update_plant_image : ℕ → ℕ → ImageChanges → Action PlantImage
  update_plant_image plant_id image_id changes = do
    image ← get_plant_image plant_id image_id
    modify (set_image image.id (with_image_changes changes))
    publish_media
    pure (with_image_changes changes image)

  unfoldable pub delete_plant_image : ℕ → ℕ → Action (Unit {0})
  delete_plant_image plant_id image_id = do
    image ← get_plant_image plant_id image_id
    modify (remove_image image.id)
    publish_media

-- `plant.images` are the rows that belong to the plant.
unfoldable pub sorted_images : List PlantImage → List PlantImage
unfolding shows_before
sorted_images images = order_by shows_before images

unfoldable pub is_still : PlantImage → Bool
is_still image = elim image.type [ PlantImageType.image ↦ true | PlantImageType.video ↦ false ]

abbrev pub url_of : Option PlantImage → Option Text
url_of none = none
url_of (some image) = some image.url

-- `images[0] if images else None`
abbrev pub first_of : List PlantImage → Option PlantImage
first_of [] = none
first_of (image ∷ images) = some image

-- `next(…, default)`
abbrev pub or_default : {A : Type 0} → Option A → Option A → Option A
or_default none other = other
or_default (some a) other = some a

unfoldable pub primary_image_url : List PlantImage → Option Text
unfolding sorted_images is_still
primary_image_url images =
    let sorted = sorted_images images in
    url_of (or_default (find? is_still sorted) (first_of sorted))
