-- ===== src/Overview/Series.antt =====
-- The chart of the month's days.
use green_garden_api.Prelude.{
  ℕ, ◌+◌, ◌-◌, ◌≤◌, ◌<◌, suc, zero, ◌≡◌, ◌∙◌, refl, ap, Bool, true, false, List, [], ◌∷◌, ◌==◌,
  select, length, map, arith, Bool-cases, inl, inr,
}
use green_garden_api.Core.Errors.{ok}
use green_garden_api.Database.Models.{Order}
use green_garden_api.Database.Session.{World}
use green_garden_api.Grouping.{group_by, group_at-group_by}
use green_garden_api.Listing.{Sql}
use green_garden_api.Orders.Listing.{midnight}
use green_garden_api.Overview.Calendar.{
  Date, IsDate, epoch_day, first_of_month, start_of_next_month, in_month,
}
use green_garden_api.Overview.Stats.{DayStats, OverviewStats}
use green_garden_api.Overview.{
  count, completed_revenue, created_in, utc_day, day_series, load_revenue_by_day, load_sales,
  build_overview,
}

-- `n` days one after the other.
abbrev pub days_from : ℕ → ℕ → List ℕ
days_from first zero = []
days_from first (suc n) = first ∷ days_from (first + 1) n

abbrev pub on_day : ℕ → Order → Bool
on_day day o = utc_day o == day

-- The orders that were made on a day, and what the completed ones among them earned.
abbrev pub day_of : List Order → ℕ → DayStats
day_of orders day = record {
  date = day;
  orders = count (on_day day) orders;
  revenue = completed_revenue (select (on_day day) orders);
}

-- A second filter that follows from the first changes nothing.
select-select :
    {A : Type 0} (p q : A → Bool) (rows : List A)
    → ((a : A) → p a ≡ true → q a ≡ true)
    → select p (select q rows) ≡ select p rows
select-select p q [] implied = refl
select-select p q (a ∷ rows) implied = elim (Bool-cases (q a)) [
  | inl yes' ↦ rw (yes', select-select p q rows implied) refl
  | inr no' ↦ elim (Bool-cases (p a)) [
    | inl passed ↦ absurd (clash (rw no' at (implied a passed)))
    | inr failed ↦ rw (no', failed) (select-select p q rows implied)
  ]
]
  where
    clash : false ≡ true → ⊥
    clash k = cc

-- An order of a day is in a window that holds the whole day.
day_in_window :
    (day start end : ℕ) (o : Order)
    → start ≤ day
    → day < end
    → on_day day o ≡ true
    → created_in (midnight start) (midnight end) o ≡ true
day_in_window day start end o low high on = ground (arith, low, high, on)

day_rows :
    (day start end : ℕ) (orders : List Order)
    → start ≤ day
    → day < end
    → select (on_day day) (select (created_in (midnight start) (midnight end)) orders)
      ≡ select (on_day day) orders
day_rows day start end orders low high =
    select-select (on_day day) (created_in (midnight start) (midnight end)) orders
      (λ o. day_in_window day start end o low high)

abbrev stats_for : ℕ → List Order → DayStats
stats_for day rows = record { date = day; orders = length rows; revenue = completed_revenue rows }

day_series-days :
    (start end : ℕ) (orders : List Order) (n current : ℕ)
    → start ≤ current
    → current + n ≤ end
    → day_series
        (group_by utc_day (select (created_in (midnight start) (midnight end)) orders))
        n
        current
      ≡ map (day_of orders) (days_from current n)
unfolding day_series
day_series-days start end orders zero current low high = refl
day_series-days start end orders (suc n) current low high =
    let groups = group_by utc_day (select (created_in (midnight start) (midnight end)) orders) in
    let rows =
      group_at-group_by utc_day current (select (created_in (midnight start) (midnight end)) orders)
      ∙ day_rows current start end orders low (omega (arith, high)) in
    ap (λ (d : DayStats). d ∷ day_series groups n (current + 1)) (ap (stats_for current) rows)
    ∙ ap (λ (r : List DayStats). day_of orders current ∷ r)
        (day_series-days start end orders n (current + 1) (omega (arith, low))
          (omega (arith, high)))

select_ext :
    {A : Type 0} (p q : A → Bool) (rows : List A)
    → ((a : A) → p a ≡ q a)
    → select p rows ≡ select q rows
select_ext p q [] same = refl
select_ext p q (a ∷ rows) same = rw (same a, select_ext p q rows same) refl

day_window : (day : ℕ) (o : Order) → created_in (midnight day) (midnight (day + 1)) o ≡ on_day day o
day_window day o = ground arith

-- Today's figures come from the same scan as the month's.
today_rows :
    (day start end : ℕ) (orders : List Order)
    → start ≤ day
    → day < end
    → select
        (created_in (midnight day) (midnight (day + 1)))
        (select (created_in (midnight start) (midnight end)) orders)
      ≡ select (on_day day) orders
today_rows day start end orders low high =
    select_ext (created_in (midnight day) (midnight (day + 1))) (on_day day) _ (day_window day)
    ∙ day_rows day start end orders low high

-- On a date of the calendar, the chart of the dashboard has one point for each day from the first of
-- the month to today, in this order, which counts the orders of that day and what the completed
-- ones among them earned; and the figures for today are those of the chart's last point.
pub build_overview-days :
    (sql : Sql) (date : Date) (w : World)
    → IsDate date
    → let today = epoch_day date in
      let first = epoch_day (first_of_month date) in
      (stats : OverviewStats) × (build_overview sql date w ≡ (ok stats, w))
      × (stats.revenue_by_day ≡ map (day_of w.working.orders) (days_from first (today + 1 - first)))
      × (stats.sales.today.orders ≡ (day_of w.working.orders today).orders)
      × (stats.sales.today.revenue ≡ (day_of w.working.orders today).revenue)
unfolding build_overview load_sales load_revenue_by_day
build_overview-days sql date w d =
    let today = epoch_day date in
    let first = epoch_day (first_of_month date) in
    let next = epoch_day (start_of_next_month date) in
    let orders = w.working.orders in
    let (low, high) = in_month date d in
    let rows = today_rows today first next orders low high in
    (
      _,
      refl,
      day_series-days first (today + 1) orders (today + 1 - first) first (omega arith)
          (omega (arith, low)),
      ap (λ (g : List Order). length g) rows,
      ap completed_revenue rows,
    )
