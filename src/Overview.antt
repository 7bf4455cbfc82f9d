-- ===== src/Overview.antt =====
-- app/features/overview/service.py: the statistics of the dashboard. Days are counted from the epoch,
-- and a row of `order_items` stands in its order, so its age is the order's.
pub mod Calendar
pub mod Stats
pub mod Series
pub mod Laws
use green_garden_api.Prelude.{
  ℕ, ◌+◌, ◌-◌, ◌*◌, ◌/◌, suc, zero, ◌≡◌, Bool, true, false, not, ◌&&◌, ◌||◌, Option, none, some,
  List, [], ◌∷◌, ◌++◌, Text, ltb, leb, ◌==◌, find?, select, take, sum_of, length, map,
  if◌then◌else◌,
}
use green_garden_api.Database.Models.{Category, Customer, Plant, Order, OrderItem, OrderStatus, Db}
use green_garden_api.Database.Session.{Action, gets}
use green_garden_api.Grouping.{group_by, group_at, set_key}
use green_garden_api.Listing.{Sql, order_by, newest_first}
use green_garden_api.Orders.Listing.{midnight, microseconds_per_day}
use green_garden_api.Orders.Status.{flow_index, same_status}
use green_garden_api.Customers.{has_id}
use green_garden_api.Overview.Stats.{
  SummaryStats, PeriodStats, SalesStats, DayStats, TopPlantStats, LowStockStats, RecentOrderStats,
  OverviewStats,
}
use green_garden_api.Overview.Calendar.{Date, epoch_day, first_of_month, start_of_next_month}

abbrev pub low_stock_threshold : ℕ
low_stock_threshold = 5

-- `TOP_PLANTS_LIMIT`, `LOW_STOCK_LIMIT` and `RECENT_ORDERS_LIMIT`
abbrev pub rows_limit : ℕ
rows_limit = 5

abbrev pub count : {A : Type 0} → (A → Bool) → List A → ℕ
count criterion rows = length (select criterion rows)

-- `coalesce(sum(total_amount), 0)` over the completed orders
unfoldable pub completed_revenue : List Order → ℕ
completed_revenue orders =
    sum_of (λ (o : Order). o.total_amount)
      (select (λ (o : Order). same_status o.status OrderStatus.completed) orders)

unfoldable pub load_summary : Db → SummaryStats
load_summary db = record {
  total_plants = length db.plants;
  active_plants = count (λ (p : Plant). p.is_active) db.plants;
  total_categories = length db.categories;
  active_categories = count (λ (c : Category). c.is_active) db.categories;
  total_customers = length db.customers;
  active_customers = count (λ (c : Customer). c.is_active) db.customers;
  total_orders = length db.orders;
  pending_orders = count (λ (o : Order). same_status o.status OrderStatus.pending) db.orders;
  total_revenue = completed_revenue db.orders;
}

-- `created_at >= start AND created_at < end`
abbrev pub created_in : ℕ → ℕ → Order → Bool
created_in start end o = leb start o.created_at && ltb o.created_at end

abbrev pub period : List Order → PeriodStats
period orders = record { orders = length orders; revenue = completed_revenue orders }

unfoldable pub load_sales : ℕ → ℕ → ℕ → ℕ → List Order → SalesStats
load_sales day_start day_end month_start month_end orders =
    let month = select (created_in month_start month_end) orders in
    record {
      today = period (select (created_in day_start day_end) month);
      this_month = period month;
    }

-- `{status.value: 0 for status in OrderStatus}`, and the loop over the rows. A status is its place.
abbrev pub no_orders : List (ℕ × ℕ)
no_orders = (0, 0) ∷ (1, 0) ∷ (2, 0) ∷ (3, 0) ∷ (4, 0) ∷ (5, 0) ∷ []

unfoldable pub count_groups : List (ℕ × List Order) → List (ℕ × ℕ) → List (ℕ × ℕ)
unfolding set_key
count_groups [] counts = counts
count_groups ((status, group) ∷ groups) counts =
    count_groups groups (set_key status (length group) counts)

abbrev pub status_of : Order → ℕ
status_of o = flow_index o.status

unfoldable pub load_orders_by_status : List Order → List (ℕ × ℕ)
unfolding count_groups
load_orders_by_status orders = count_groups (group_by status_of orders) no_orders

-- `cast(timezone('UTC', created_at), Date)`
abbrev pub utc_day : Order → ℕ
utc_day o = o.created_at / microseconds_per_day

abbrev pub day_stats : List (ℕ × List Order) → ℕ → DayStats
day_stats by_day current = record {
  date = current;
  orders = length (group_at current by_day);
  revenue = completed_revenue (group_at current by_day);
}

-- `while current <= today`, with the number of days that are left.
unfoldable pub day_series : List (ℕ × List Order) → ℕ → ℕ → List DayStats
day_series by_day zero current = []
day_series by_day (suc left) current =
    day_stats by_day current ∷ day_series by_day left (current + 1)

unfoldable pub load_revenue_by_day : ℕ → ℕ → ℕ → ℕ → List Order → List DayStats
unfolding day_series
load_revenue_by_day month_start day_end first_day today orders =
    day_series (group_by utc_day (select (created_in month_start day_end) orders))
      (today + 1 - first_day) first_day

-- A row of the join of `order_items` with the completed orders.
pub record Sale : Type 0 where
  pub item : OrderItem
  pub sold_at : ℕ

abbrev pub sales_of : ℕ → List OrderItem → List Sale
sales_of sold_at [] = []
sales_of sold_at (item ∷ items) = record { item = item; sold_at = sold_at } ∷ sales_of sold_at items

abbrev pub sales_in : List Order → List Sale
sales_in [] = []
sales_in (o ∷ orders) = sales_of o.created_at o.items ++ sales_in orders

abbrev pub plant_of : Sale → ℕ
plant_of sale = sale.item.plant_id

-- By the age of the order. An item is inserted in the transaction of its order, so `now()` has dated
-- them alike, and `OrderItem.created_at` decides nothing more.
abbrev pub later_sale : Sale → Sale → Bool
later_sale a b = not (ltb a.sold_at b.sold_at)

-- The first element of `array_agg(plant_name ORDER BY created_at DESC)`; a group is not empty.
abbrev pub latest_name : List Sale → Text
latest_name [] = []
latest_name (sale ∷ sales) = sale.item.plant_name

unfoldable pub top_plant : ℕ × List Sale → TopPlantStats
unfolding order_by
top_plant (plant_id, group) = record {
  plant_id = plant_id;
  plant_name = latest_name (order_by later_sale group);
  quantity_sold = sum_of (λ (s : Sale). s.item.quantity) group;
  revenue = sum_of (λ (s : Sale). s.item.quantity * s.item.unit_price) group;
}

abbrev pub sells_more : TopPlantStats → TopPlantStats → Bool
sells_more a b =
    ltb b.quantity_sold a.quantity_sold
    || (a.quantity_sold == b.quantity_sold && leb b.revenue a.revenue)

unfoldable pub load_top_plants : List Order → List TopPlantStats
unfolding top_plant order_by
load_top_plants orders =
    let completed = select (λ (o : Order). same_status o.status OrderStatus.completed) orders in
    take rows_limit (order_by sells_more (map top_plant (group_by plant_of (sales_in completed))))

abbrev pub low_stock_row : Plant → LowStockStats
low_stock_row p = record { plant_id = p.id; plant_name = p.name; stock = p.stock }

abbrev pub scarcer : Sql → Plant → Plant → Bool
scarcer sql a b = ltb a.stock b.stock || (a.stock == b.stock && not (sql.collate b.name a.name))

unfoldable pub load_low_stock : Sql → List Plant → List LowStockStats
unfolding order_by
load_low_stock sql plants = map low_stock_row (
    take rows_limit (
      order_by (scarcer sql)
        (select (λ (p : Plant). p.is_active && leb p.stock low_stock_threshold) plants)))

abbrev pub name_of_customer : Option Customer → Option Text
name_of_customer none = none
name_of_customer (some c) = some c.name

abbrev pub phone_of_customer : Option Customer → Option Text
phone_of_customer none = none
phone_of_customer (some c) = some c.phone

-- A row of the outer join; identifiers of customers are unique.
abbrev pub recent_order : List Customer → Order → RecentOrderStats
recent_order customers o = record {
  id = o.id;
  order_number = o.order_number;
  customer_name = name_of_customer (find? (has_id o.customer_id) customers);
  customer_phone = phone_of_customer (find? (has_id o.customer_id) customers);
  status = o.status;
  total_amount = o.total_amount;
  created_at = o.created_at;
}

unfoldable pub load_recent_orders : List Customer → List Order → List RecentOrderStats
unfolding order_by
load_recent_orders customers orders = map (recent_order customers) (
    take rows_limit
      (order_by (newest_first (λ (o : Order). o.created_at) (λ (o : Order). o.id)) orders))

unfoldable pub build_overview : Sql → Date → Action OverviewStats
build_overview sql date =
    let today = epoch_day date in
    let first_day = epoch_day (first_of_month date) in
    let day_start = midnight today in
    let day_end = midnight (today + 1) in
    let month_start = midnight first_day in
    let month_end = midnight (epoch_day (start_of_next_month date)) in
    gets (λ db. record {
      summary = load_summary db;
      sales = load_sales day_start day_end month_start month_end db.orders;
      orders_by_status = load_orders_by_status db.orders;
      revenue_by_day = load_revenue_by_day month_start day_end first_day today db.orders;
      top_plants = load_top_plants db.orders;
      low_stock = load_low_stock sql db.plants;
      recent_orders = load_recent_orders db.customers db.orders;
    })
