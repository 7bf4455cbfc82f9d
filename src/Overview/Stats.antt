-- ===== src/Overview/Stats.antt =====
-- The records of app/features/overview/service.py.
use green_garden_api.Prelude.{ℕ, Option, List, Text}
use green_garden_api.Database.Models.{OrderStatus}

pub record SummaryStats : Type 0 where
  pub total_plants : ℕ
  pub active_plants : ℕ
  pub total_categories : ℕ
  pub active_categories : ℕ
  pub total_customers : ℕ
  pub active_customers : ℕ
  pub total_orders : ℕ
  pub pending_orders : ℕ
  pub total_revenue : ℕ

pub record PeriodStats : Type 0 where
  pub orders : ℕ
  pub revenue : ℕ

pub record SalesStats : Type 0 where
  pub today : PeriodStats
  pub this_month : PeriodStats

pub record DayStats : Type 0 where
  pub date : ℕ
  pub orders : ℕ
  pub revenue : ℕ

pub record TopPlantStats : Type 0 where
  pub plant_id : ℕ
  pub plant_name : Text
  pub quantity_sold : ℕ
  pub revenue : ℕ

pub record LowStockStats : Type 0 where
  pub plant_id : ℕ
  pub plant_name : Text
  pub stock : ℕ

pub record RecentOrderStats : Type 0 where
  pub id : ℕ
  pub order_number : Text
  pub customer_name : Option Text
  pub customer_phone : Option Text
  pub status : OrderStatus
  pub total_amount : ℕ
  pub created_at : ℕ

pub record OverviewStats : Type 0 where
  pub summary : SummaryStats
  pub sales : SalesStats
  pub orders_by_status : List (ℕ × ℕ)
  pub revenue_by_day : List DayStats
  pub top_plants : List TopPlantStats
  pub low_stock : List LowStockStats
  pub recent_orders : List RecentOrderStats
