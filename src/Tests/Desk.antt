-- ===== src/Tests/Desk.antt =====
-- The listings and statistics of the panel, and the limits of the storefront.
use native.Mathlib.Nat
use green_garden_api.Prelude.{
  ◌++◌, List, ◌≡◌, refl, ℕ, ◌+◌, ◌-◌, ◌*◌, ◌/◌, ◌≤◌, ◌<◌, ◌↔◌, Text, codes, some, none, true, false,
  [], ◌∷◌, length, select, map, arith, Option,
}
use green_garden_api.Core.Errors.{ok}
use green_garden_api.Database.Models.{Order, Review, ReviewStatus}
use green_garden_api.Database.Session.{World}
use green_garden_api.Orders.Histories.{session}
use green_garden_api.Grouping.{value_at}
use green_garden_api.Orders.Listing.{
  microseconds_per_day, OrderFilters, order_filters, order_filters-days,
}
use green_garden_api.Reviews.{
  ReviewSummary, ReviewScope, review_filters, published, get_review_summary,
}
use green_garden_api.Reviews.Laws.{rated, get_review_summary-counts}
use green_garden_api.Overview.Stats.{OverviewStats}
use green_garden_api.Overview.{build_overview}
use green_garden_api.Overview.Calendar.{Date, IsDate, epoch_day, first_of_month}
use green_garden_api.Overview.Series.{build_overview-days, day_of, days_from}
use green_garden_api.BotProtection.{check_checkout_phone_limit}
use green_garden_api.BotProtection.Laws.{check_checkout_phone_limit-retry}
use green_garden_api.Chat.Dsml.{strip_tool_markup, contains_tool_markup, new_guard, stream}
use green_garden_api.Chat.Dsml.Stream.{text_of, stream-strip_tool_markup}
use green_garden_api.Tests.Shop.{shop, placed}
use green_garden_api.Tests.Catalogue.{sql}
use green_garden_api.Tests.Panel.{guest}

abbrev on_two_days : OrderFilters
on_two_days = record {
  search = none;
  status = none;
  customer_id = some 10;
  date_from = some 0;
  date_to = some 1;
}

order_filters-days_example : (order_filters sql [] on_two_days placed ≡ true) ↔ (
    (order_filters sql [] (record on_two_days { date_from = none; date_to = none }) placed ≡ true)
    × (0 ≤ placed.created_at / microseconds_per_day)
    × (placed.created_at / microseconds_per_day ≤ 1))
order_filters-days_example = order_filters-days sql [] on_two_days placed 0 1 refl refl

abbrev stars : ℕ → ℕ → Review
stars id rating = record {
  id = id;
  plant_id = none;
  name = codes "An";
  rating = rating;
  content = codes "ok";
  status = ReviewStatus.approved;
  created_at = id;
}

abbrev reviewed : World
reviewed = session (record shop { reviews = stars 1 5 ∷ stars 2 4 ∷ stars 3 5 ∷ [] })

abbrev nearest : ℕ → ℕ → ℕ
nearest a b = (20 * a + b) / (2 * b)

get_review_summary-counts_example :
    (summary : ReviewSummary) × (get_review_summary sql nearest none
        (some ReviewScope.shop)
        reviewed
      ≡ (ok summary, reviewed))
    × (summary.total_reviews
        ≡ length (
            select
              (review_filters sql (published none (some ReviewScope.shop)))
              reviewed.working.reviews))
    × ((star : ℕ)
        → 1 ≤ star
        → star ≤ 5
        → value_at star summary.rating_distribution
          ≡ some (
              rated star (
                select
                  (review_filters sql (published none (some ReviewScope.shop)))
                  reviewed.working.reviews)))
get_review_summary-counts_example =
    get_review_summary-counts sql nearest none (some ReviewScope.shop) reviewed

abbrev leap_day : Date
leap_day = record { year = 2024; month = 2; day = 29 }

leap_day-IsDate : IsDate leap_day
unfolding green_garden_api.Overview.Calendar.days_in_month
    green_garden_api.Overview.Calendar.is_leap
leap_day-IsDate = record {
  modern = omega arith;
  first = omega arith;
  last = omega arith;
  begins = omega arith;
  ends = omega arith;
}

abbrev sold : World
sold = session (record shop { orders = record placed { created_at = 1_709_164_800_250_000 } ∷ [] })

build_overview-days_example :
    (stats : OverviewStats) × (build_overview sql leap_day sold ≡ (ok stats, sold))
    × (stats.revenue_by_day
        ≡ map (day_of sold.working.orders) (
            days_from
              (epoch_day (first_of_month leap_day))
              (epoch_day leap_day + 1 - epoch_day (first_of_month leap_day))))
    × (stats.sales.today.orders ≡ (day_of sold.working.orders (epoch_day leap_day)).orders)
    × (stats.sales.today.revenue ≡ (day_of sold.working.orders (epoch_day leap_day)).revenue)
build_overview-days_example = build_overview-days sql leap_day sold leap_day-IsDate

abbrev ordered_at : ℕ → Order
ordered_at now = record placed { created_at = now }

abbrev eager : World
eager = session (record shop {
  customers = guest 10 (codes "0912345678") ∷ [];
  orders = ordered_at 100_250_000 ∷ ordered_at 300_000_000 ∷ ordered_at 200_000_000 ∷ [];
})

check_checkout_phone_limit-retry_example :
    (1 ≤ 3101)
    × (3101 ≤ 3600)
    × (600_000_000 + 3101 * 1_000_000 < 3_701_000_001
        → check_checkout_phone_limit 3_701_000_001 (codes "0912345678") eager ≡ (ok tt, eager))
unfolding check_checkout_phone_limit green_garden_api.Prelude.text_eq
check_checkout_phone_limit-retry_example =
    check_checkout_phone_limit-retry 600_000_000 3_701_000_001 (codes "0912345678") eager
      (omega arith, (omega arith, (omega arith, tt))) refl

-- A marker that comes in three chunks.
abbrev reply : List Text
reply = codes "Hi a <" ∷ codes "b <|DS" ∷ codes "ML| x" ∷ []

stream_run : stream new_guard reply ≡ codes "Hi a <b "
unfolding contains_tool_markup stream green_garden_api.Chat.Dsml.search_marker
    green_garden_api.Chat.Dsml.feed green_garden_api.Chat.Dsml.finish
    green_garden_api.Chat.Dsml.begins_marker green_garden_api.Chat.Dsml.begins_bars
    green_garden_api.Chat.Dsml.is_bar green_garden_api.Chat.Dsml.begins_word
    green_garden_api.Chat.Dsml.has_prefix green_garden_api.Chat.Dsml.fold
    green_garden_api.Chat.Dsml.hold green_garden_api.Chat.Dsml.split_last
    green_garden_api.Chat.Dsml.may_be_marker green_garden_api.Chat.Dsml.may_be_word
    green_garden_api.Chat.Dsml.is_letter green_garden_api.Core.Text.lstrip
    green_garden_api.Core.Text.is_space green_garden_api.Core.Text.ascii_lower
stream_run = refl

stream-strip_tool_markup_example :
    (stream new_guard reply ≡ strip_tool_markup (text_of reply))
    × (contains_tool_markup (stream new_guard reply) ≡ false)
stream-strip_tool_markup_example = stream-strip_tool_markup reply (
  refl,
  (
    refl,
    (
      refl,
      (
        refl,
        (
          refl,
          (
            refl,
            (
              refl,
              (refl, (refl, (refl, (refl, (refl, (refl, (refl, (refl, (refl, (refl, tt)))))))))),
            ),
          ),
        ),
      ),
    ),
  ),
)

-- With the long s, which only one of the two expressions takes for an s, a marker slips through.
leak_run :
    contains_tool_markup (stream new_guard ((codes "<|d" ++ 0x17f ∷ []) ∷ codes "ml" ∷ [])) ≡ true
unfolding contains_tool_markup stream green_garden_api.Chat.Dsml.search_marker
    green_garden_api.Chat.Dsml.feed green_garden_api.Chat.Dsml.finish
    green_garden_api.Chat.Dsml.begins_marker green_garden_api.Chat.Dsml.begins_bars
    green_garden_api.Chat.Dsml.is_bar green_garden_api.Chat.Dsml.begins_word
    green_garden_api.Chat.Dsml.has_prefix green_garden_api.Chat.Dsml.fold
    green_garden_api.Chat.Dsml.hold green_garden_api.Chat.Dsml.split_last
    green_garden_api.Chat.Dsml.may_be_marker green_garden_api.Chat.Dsml.may_be_word
    green_garden_api.Chat.Dsml.is_letter green_garden_api.Core.Text.lstrip
    green_garden_api.Core.Text.is_space green_garden_api.Core.Text.ascii_lower
leak_run = refl
