-- ===== src/Tests/Catalogue.antt =====
-- The catalogue: plants that are created and renamed, their pages and their media.
use mathlib.Core.Logic.Or
use mathlib.Core.List.{Perm, Mem, mem-cons}
use green_garden_api.Prelude.{
  List, ◌≡◌, refl, ℕ, ◌*◌, ◌≤◌, arith, Text, codes, some, none, true, false, [], ◌∷◌, length,
  select, inl, inr,
}
use green_garden_api.Core.Errors.{AppError, ok, err}
use green_garden_api.Database.Models.{Plant, PlantImage, PlantImageType, Db}
use green_garden_api.Database.Session.{World}
use green_garden_api.Database.Session.Invariants.{Holds}
use green_garden_api.Orders.Histories.{session}
use green_garden_api.Listing.{Sql}
use green_garden_api.Listing.Laws.{pages, InOrder}
use green_garden_api.Plants.{create_plant, update_plant}
use green_garden_api.Plants.Changes.{NewPlant, PlantChanges}
use green_garden_api.Plants.Slugs.{IsSlugged}
use green_garden_api.Plants.Renaming.{update_plant-IsSlugged, create_plant-IsSlugged}
use green_garden_api.Plants.Lookup.{update_plant-get_plant_by_slug}
use green_garden_api.Plants.Catalogue.{
  SortField, SortOrder, PlantFilters, plant_filters, plant_precedes, list_plants, get_plant_by_slug,
}
use green_garden_api.Plants.Catalogue.Laws.{list_plants-pages, rows_of}
use green_garden_api.Plants.Images.{primary_image_url, is_still, shows_before}
use green_garden_api.Plants.Images.Laws.{primary_image_url-still}
use green_garden_api.Tests.Shop.{env_at, plant, no_care, shop}

abbrev nursery : Db
nursery = record shop {
  plants =
      record (plant 1 (codes "fern") 10 5) { sku = codes "F" } ∷ plant 2 (codes "palm") 20 3 ∷ [];
  slug_history = record { plant_id = 2; slug = codes "old" } ∷ [];
}

nursery-IsSlugged : IsSlugged nursery
unfolding green_garden_api.Prelude.text_eq
nursery-IsSlugged = record {
  slugs = (refl, refl, (refl, refl, tt));
  skus = (refl, refl, (refl, refl, tt));
  history = (refl, tt);
  retired = (refl, tt);
}

abbrev renamed : PlantChanges
renamed = record {
  category_id = none;
  name = none;
  name_vi = none;
  slug = some (codes "moss");
  description = none;
  description_vi = none;
  long_description = none;
  long_description_vi = none;
  og_image_url = none;
  price = none;
  price_vi = none;
  stock = some 9;
  sku = none;
  is_featured = none;
  is_active = none;
  plant_type = none;
  difficulty = none;
  growth_rate = none;
  sunlight = none;
  watering = none;
  space_requirement = none;
  indoor_suitable = none;
  outdoor_suitable = none;
  pet_safe = none;
  beginner_friendly = none;
}

abbrev cactus : NewPlant
cactus = record {
  category_id = 1;
  name = codes "cactus";
  name_vi = none;
  slug = codes "old";
  description = none;
  description_vi = none;
  long_description = none;
  long_description_vi = none;
  og_image_url = none;
  price = 5;
  price_vi = none;
  stock = 1;
  sku = codes "C";
  is_featured = false;
  is_active = true;
  care = no_care;
}

update_plant-IsSlugged_example :
    Holds IsSlugged (update_plant (env_at 90) 1 renamed (session nursery)).1
update_plant-IsSlugged_example =
    update_plant-IsSlugged (env_at 90) 1 renamed (session nursery)
      (nursery-IsSlugged, nursery-IsSlugged)

create_plant-IsSlugged_example :
    Holds IsSlugged (create_plant (env_at 90) cactus (session nursery)).1
create_plant-IsSlugged_example =
    create_plant-IsSlugged (env_at 90) cactus (session nursery) refl
      (nursery-IsSlugged, nursery-IsSlugged)

abbrev moss : Plant
moss = record (plant 1 (codes "fern") 10 5) { sku = codes "F"; slug = codes "moss"; stock = 9 }

abbrev after : World
after = (update_plant (env_at 90) 1 renamed (session nursery)).1

-- The storefront finds the plant under both slugs.
update_plant-get_plant_by_slug_example :
    (moss.slug ≡ codes "moss")
    × (get_plant_by_slug (codes "moss") true (session after.committed)
        ≡ (ok moss, session after.committed))
    × (get_plant_by_slug (codes "fern") true (session after.committed)
        ≡ (ok moss, session after.committed))
unfolding green_garden_api.Prelude.text_eq update_plant green_garden_api.Plants.get_plant
    green_garden_api.Plants.change_category green_garden_api.Plants.change_plant_slug
    green_garden_api.Plants.ensure_plant_slug_available
    green_garden_api.Plants.release_historical_slug green_garden_api.Plants.change_sku
    green_garden_api.Plants.publish_plant green_garden_api.Database.Session.commit
    green_garden_api.Database.Session.notify_storefront
update_plant-get_plant_by_slug_example =
    update_plant-get_plant_by_slug (env_at 90) 1 renamed nursery (codes "moss") true
      nursery-IsSlugged refl refl refl refl

-- A plant that is renamed and deactivated is hidden from the storefront.
abbrev hidden : PlantChanges
hidden = record renamed { is_active = some false }

hidden_run :
    (get_plant_by_slug
      (codes "fern")
      true
      (session (update_plant (env_at 90) 1 hidden (session nursery)).1.committed)).0
    ≡ err AppError.plant_not_found
unfolding green_garden_api.Prelude.text_eq update_plant green_garden_api.Plants.get_plant
    green_garden_api.Plants.change_category green_garden_api.Plants.change_plant_slug
    green_garden_api.Plants.ensure_plant_slug_available
    green_garden_api.Plants.release_historical_slug green_garden_api.Plants.change_sku
    green_garden_api.Plants.publish_plant green_garden_api.Database.Session.commit
    green_garden_api.Database.Session.notify_storefront get_plant_by_slug
    green_garden_api.Plants.Catalogue.get_plant_by_history
hidden_run = refl

-- A database that finds nothing by `ILIKE` and puts no text before another.
abbrev pub sql : Sql
sql = record { ilike = λ s p. false; collate = λ s t. false }

abbrev active : PlantFilters
active = record {
  search = none;
  category_id = none;
  is_active = some true;
  is_featured = none;
  min_price = none;
  max_price = none;
}

list_plants-pages_example :
    Perm
      (pages
        (λ k.
          rows_of (list_plants sql k 1 active SortField.price SortOrder.desc (session nursery)).0)
        2)
      (select (plant_filters sql active) nursery.plants)
    × InOrder (plant_precedes sql SortField.price SortOrder.desc) (
        pages
          (λ k.
            rows_of (list_plants sql k 1 active SortField.price SortOrder.desc (session nursery)).0)
          2)
    × ((k : ℕ)
        → (list_plants sql k 1 active SortField.price SortOrder.desc (session nursery)).0
          ≡ ok (
            rows_of (list_plants sql k 1 active SortField.price SortOrder.desc (session nursery)).0,
            length (select (plant_filters sql active) nursery.plants),
          ))
list_plants-pages_example =
    list_plants-pages sql 1 active SortField.price SortOrder.desc (session nursery) 2 (ground arith)

abbrev media : ℕ → PlantImageType → ℕ → PlantImage
media id type sort_order = record {
  id = id;
  plant_id = 1;
  url = codes "u";
  type = type;
  alt_text = none;
  sort_order = sort_order;
  created_at = id;
}

abbrev gallery : List PlantImage
gallery = media 1 PlantImageType.video 0 ∷ media 2 PlantImageType.image 1 ∷ []

primary_image_url-still_example :
    (best : PlantImage) × Mem best gallery
    × (primary_image_url gallery ≡ some best.url)
    × (is_still best ≡ true)
    × ((other : PlantImage)
        → Mem other gallery
        → is_still other ≡ true
        → shows_before best other ≡ true)
unfolding is_still
primary_image_url-still_example =
    primary_image_url-still gallery (mem-cons.1 (Or.inr (mem-cons.1 (Or.inl refl)))) refl
