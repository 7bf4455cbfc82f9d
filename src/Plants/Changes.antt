-- ===== src/Plants/Changes.antt =====
-- The keyword arguments of `create_plant` and `update_plant`.
use green_garden_api.Prelude.{ℕ, Bool, Option, Text}
use green_garden_api.Database.Models.{
  Plant, PlantCare, PlantType, PlantDifficulty, PlantGrowthRate, PlantSunlight, PlantWatering,
  PlantSpaceRequirement,
}
use green_garden_api.Categories.{assigned}

pub record NewPlant : Type 0 where
  pub category_id : ℕ
  pub name : Text
  pub name_vi : Option Text
  pub slug : Text
  pub description : Option Text
  pub description_vi : Option Text
  pub long_description : Option Text
  pub long_description_vi : Option Text
  pub og_image_url : Option Text
  pub price : ℕ
  pub price_vi : Option ℕ
  pub stock : ℕ
  pub sku : Text
  pub is_featured : Bool
  pub is_active : Bool
  pub care : PlantCare

-- `none` leaves a field; `some` of an option sets one that was provided.
pub record PlantChanges : Type 0 where
  pub category_id : Option ℕ
  pub name : Option Text
  pub name_vi : Option (Option Text)
  pub slug : Option Text
  pub description : Option (Option Text)
  pub description_vi : Option (Option Text)
  pub long_description : Option (Option Text)
  pub long_description_vi : Option (Option Text)
  pub og_image_url : Option (Option Text)
  pub price : Option ℕ
  pub price_vi : Option (Option ℕ)
  pub stock : Option ℕ
  pub sku : Option Text
  pub is_featured : Option Bool
  pub is_active : Option Bool
  pub plant_type : Option (Option PlantType)
  pub difficulty : Option (Option PlantDifficulty)
  pub growth_rate : Option (Option PlantGrowthRate)
  pub sunlight : Option (Option PlantSunlight)
  pub watering : Option (Option PlantWatering)
  pub space_requirement : Option (Option PlantSpaceRequirement)
  pub indoor_suitable : Option (Option Bool)
  pub outdoor_suitable : Option (Option Bool)
  pub pet_safe : Option (Option Bool)
  pub beginner_friendly : Option (Option Bool)

-- The assignments of `update_plant` but for the category, the slug and the SKU.
abbrev pub with_fields : PlantChanges → Plant → Plant
with_fields changes p = record p {
  name = assigned changes.name p.name;
  name_vi = assigned changes.name_vi p.name_vi;
  description = assigned changes.description p.description;
  description_vi = assigned changes.description_vi p.description_vi;
  long_description = assigned changes.long_description p.long_description;
  long_description_vi = assigned changes.long_description_vi p.long_description_vi;
  og_image_url = assigned changes.og_image_url p.og_image_url;
  price = assigned changes.price p.price;
  price_vi = assigned changes.price_vi p.price_vi;
  stock = assigned changes.stock p.stock;
  is_featured = assigned changes.is_featured p.is_featured;
  is_active = assigned changes.is_active p.is_active;
  care = record {
    plant_type = assigned changes.plant_type p.care.plant_type;
    difficulty = assigned changes.difficulty p.care.difficulty;
    growth_rate = assigned changes.growth_rate p.care.growth_rate;
    sunlight = assigned changes.sunlight p.care.sunlight;
    watering = assigned changes.watering p.care.watering;
    space_requirement = assigned changes.space_requirement p.care.space_requirement;
    indoor_suitable = assigned changes.indoor_suitable p.care.indoor_suitable;
    outdoor_suitable = assigned changes.outdoor_suitable p.care.outdoor_suitable;
    pet_safe = assigned changes.pet_safe p.care.pet_safe;
    beginner_friendly = assigned changes.beginner_friendly p.care.beginner_friendly;
  };
}
