-- ===== src/Database/Models.antt =====
-- The rows of the tables, one record for a `models.py` class, and the database as the lists of its
-- rows in order of insertion. Identifiers (UUIDs) are numbers, amounts are counted in hundredths
-- (`Numeric(12, 2)`), times are numbers of microseconds. `created_at` stands where a query reads it.
use green_garden_api.Prelude.{ℕ, Bool, Option, List, Text}

pub record Customer : Type 0 where
  pub id : ℕ
  pub phone : Text
  pub name : Text
  pub email : Option Text
  pub is_active : Bool
  pub created_at : ℕ

pub record Category : Type 0 where
  pub id : ℕ
  pub name : Text
  pub name_vi : Option Text
  pub slug : Text
  pub description : Option Text
  pub description_vi : Option Text
  pub image_url : Option Text
  pub sort_order : ℕ
  pub is_active : Bool
  pub created_at : ℕ

pub data PlantType : Type 0 where
  foliage flowering succulent cactus herb fern vine tree palm bamboo aquatic other : PlantType

pub data PlantDifficulty : Type 0 where
  easy moderate hard : PlantDifficulty

pub data PlantGrowthRate : Type 0 where
  slow moderate fast : PlantGrowthRate

pub data PlantSunlight : Type 0 where
  full_sun partial_sun partial_shade shade low_light : PlantSunlight

pub data PlantWatering : Type 0 where
  low moderate high : PlantWatering

pub data PlantSpaceRequirement : Type 0 where
  small medium large : PlantSpaceRequirement

-- The optional care attributes of `Plant`.
pub record PlantCare : Type 0 where
  pub plant_type : Option PlantType
  pub difficulty : Option PlantDifficulty
  pub growth_rate : Option PlantGrowthRate
  pub sunlight : Option PlantSunlight
  pub watering : Option PlantWatering
  pub space_requirement : Option PlantSpaceRequirement
  pub indoor_suitable : Option Bool
  pub outdoor_suitable : Option Bool
  pub pet_safe : Option Bool
  pub beginner_friendly : Option Bool

pub record Plant : Type 0 where
  pub id : ℕ
  pub category_id : ℕ
  pub name : Text
  pub name_vi : Option Text
  pub slug : Text
  pub description : Option Text
  pub description_vi : Option Text
  pub long_description : Option Text
  pub long_description_vi : Option Text
  pub og_image_url : Option Text
  pub price : ℕ
  pub price_vi : Option ℕ
  pub stock : ℕ
  pub sku : Text
  pub is_featured : Bool
  pub is_active : Bool
  pub care : PlantCare
  pub created_at : ℕ

pub data PlantImageType : Type 0 where
  image video : PlantImageType

pub record PlantImage : Type 0 where
  pub id : ℕ
  pub plant_id : ℕ
  pub url : Text
  pub type : PlantImageType
  pub alt_text : Option Text
  pub sort_order : ℕ
  pub created_at : ℕ

pub record PlantSlugHistory : Type 0 where
  pub plant_id : ℕ
  pub slug : Text

pub data OrderStatus : Type 0 where
  pending confirmed processing shipping completed cancelled : OrderStatus

pub data PaymentMethod : Type 0 where
  cod bank_transfer : PaymentMethod

pub data PaymentStatus : Type 0 where
  pending paid : PaymentStatus

pub record OrderItem : Type 0 where
  pub plant_id : ℕ
  pub plant_name : Text
  pub quantity : ℕ
  pub unit_price : ℕ

-- The rows of `order_items` stand in their order.
pub record Order : Type 0 where
  pub id : ℕ
  pub customer_id : ℕ
  pub order_number : Text
  pub status : OrderStatus
  pub currency : Text
  pub subtotal_amount : ℕ
  pub shipping_fee : ℕ
  pub total_amount : ℕ
  pub shipping_address : Text
  pub note : Option Text
  pub payment_method : PaymentMethod
  pub payment_status : PaymentStatus
  pub payment_reference : Option Text
  pub paid_at : Option ℕ
  pub items : List OrderItem
  pub created_at : ℕ

pub data NotificationType : Type 0 where
  new_order : NotificationType

pub record Notification : Type 0 where
  pub id : ℕ
  pub type : NotificationType
  pub title : Text
  pub message : Text
  pub entity_id : Option ℕ
  pub is_read : Bool
  pub created_at : ℕ

pub data PaymentMatchStatus : Type 0 where
  matched amount_mismatch already_paid unmatched ignored : PaymentMatchStatus

-- A non-negative `Decimal`: the value is `coefficient / 10 ^ scale`.
pub record Decimal : Type 0 where
  pub coefficient : ℕ
  pub scale : ℕ

-- The one provider is SePay, so `provider` is left out, and so is the raw body.
pub record PaymentTransaction : Type 0 where
  pub id : ℕ
  pub provider_transaction_id : ℕ
  pub order_id : Option ℕ
  pub gateway : Option Text
  pub account_number : Option Text
  pub sub_account : Option Text
  pub code : Option Text
  pub content : Option Text
  pub transfer_type : Option Text
  pub transfer_amount : ℕ
  pub reference_code : Option Text
  pub transaction_date : Option Text
  pub match_status : PaymentMatchStatus

pub data ReviewStatus : Type 0 where
  pending approved rejected : ReviewStatus

pub record Review : Type 0 where
  pub id : ℕ
  pub plant_id : Option ℕ
  pub name : Text
  pub rating : ℕ
  pub content : Text
  pub status : ReviewStatus
  pub created_at : ℕ

pub record Admin : Type 0 where
  pub id : ℕ
  pub name : Text
  pub email : Text
  pub password_hash : Text
  pub is_active : Bool
  pub created_at : ℕ

pub record Db : Type 0 where
  pub customers : List Customer
  pub categories : List Category
  pub plants : List Plant
  pub images : List PlantImage
  pub slug_history : List PlantSlugHistory
  pub orders : List Order
  pub notifications : List Notification
  pub payments : List PaymentTransaction
  pub reviews : List Review
  pub admins : List Admin
