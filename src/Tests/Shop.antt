-- ===== src/Tests/Shop.antt =====
-- A shop with two plants, no orders and no customers, and the requests that are made to it.
use green_garden_api.Prelude.{
  ℕ, Bool, List, true, false, none, some, [], ◌∷◌, ◌+◌, Text, codes, map, refl,
}
use green_garden_api.Core.Text.{CaseMap, ascii_lower, ascii_upper}
use green_garden_api.Database.Models.{
  Plant, PlantCare, PaymentMethod, Order, OrderItem, OrderStatus, PaymentStatus, Db,
}
use green_garden_api.Database.Session.{Env}
use green_garden_api.Orders.Pricing.{OrderItemInput}
use green_garden_api.Orders.Create.{OrderSource, NewOrder}
use green_garden_api.Payments.{SePayWebhookPayload}

abbrev pub ascii : CaseMap
ascii = record {
  lower = map ascii_lower;
  upper = map ascii_upper;
  lower_ascii = λ s h. refl;
  upper_ascii = λ s h. refl;
}

abbrev pub no_care : PlantCare
no_care = record {
  plant_type = none;
  difficulty = none;
  growth_rate = none;
  sunlight = none;
  watering = none;
  space_requirement = none;
  indoor_suitable = none;
  outdoor_suitable = none;
  pet_safe = none;
  beginner_friendly = none;
}

abbrev pub plant : ℕ → Text → ℕ → ℕ → Plant
plant id name price stock = record {
  id = id;
  category_id = 1;
  name = name;
  name_vi = none;
  slug = name;
  description = none;
  description_vi = none;
  long_description = none;
  long_description_vi = none;
  og_image_url = none;
  price = 100;
  price_vi = some price;
  stock = stock;
  sku = codes "P";
  is_featured = false;
  is_active = true;
  care = no_care;
  created_at = id;
}

abbrev pub shop : Db
shop = record {
  customers = [];
  categories = [];
  plants = plant 1 (codes "fern") 9_000_000 5 ∷ plant 2 (codes "palm") 20_000_000 3 ∷ [];
  images = [];
  slug_history = [];
  orders = [];
  notifications = [];
  payments = [];
  reviews = [];
  admins = [];
}

-- Every request draws its identifiers from a range of its own.
abbrev pub env_at : ℕ → Env
env_at base = record {
  accepts = λ db. true;
  now = base;
  today = codes "20250102";
  uuid = λ k. base + k;
  notify_on = true;
}

-- A database that refuses the commit of an order from the storefront, after all of its writes.
abbrev pub has_none : {A : Type 0} → List A → Bool
has_none [] = true
has_none (_ ∷ _) = false

abbrev pub refusing_at : ℕ → Env
refusing_at base = record (env_at base) { accepts = λ db. has_none db.notifications }

abbrev pub line : ℕ → ℕ → OrderItemInput
line plant_id quantity = record { plant_id = plant_id; quantity = quantity }

-- Three ferns, in two lines, and a palm.
abbrev pub cart : NewOrder
cart = record {
  customer_phone = codes "+84912345678";
  customer_name = codes "An";
  customer_email = none;
  shipping_address = codes "Hue";
  note = none;
  items = line 1 2 ∷ line 2 1 ∷ line 1 1 ∷ [];
  source = OrderSource.storefront;
  payment_method = PaymentMethod.bank_transfer;
}

abbrev item : ℕ → Text → ℕ → ℕ → OrderItem
item id name quantity price = record {
  plant_id = id;
  plant_name = name;
  quantity = quantity;
  unit_price = price;
}

-- More palms than there are.
abbrev pub large_cart : NewOrder
large_cart = record cart { items = line 1 2 ∷ line 2 4 ∷ [] }

-- The order that the cart becomes.
abbrev pub placed : Order
placed = record {
  id = 11;
  customer_id = 10;
  order_number = codes "GG-20250102-0001";
  status = OrderStatus.pending;
  currency = codes "VND";
  subtotal_amount = 47_000_000;
  shipping_fee = 5_000_000;
  total_amount = 52_000_000;
  shipping_address = codes "Hue";
  note = none;
  payment_method = PaymentMethod.bank_transfer;
  payment_status = PaymentStatus.pending;
  payment_reference = some (codes "GG202501020001");
  paid_at = none;
  items =
      item 1 (codes "fern") 2 9_000_000
      ∷ item 2 (codes "palm") 1 20_000_000
      ∷ item 1 (codes "fern") 1 9_000_000
      ∷ [];
  created_at = 10;
}

-- A transfer of 520,000 for it.
abbrev pub transfer : SePayWebhookPayload
transfer = record {
  id = 77;
  gateway = none;
  transaction_date = none;
  account_number = none;
  sub_account = none;
  code = none;
  content = some (codes "from An GG202501020001 thanks");
  transfer_type = some (codes "in");
  description = none;
  transfer_amount = record { coefficient = 520_000; scale = 0 };
  reference_code = none;
}
