-- ===== src/Categories/Listing.antt =====
-- app/features/categories/service.py: the listing.
use green_garden_api.Prelude.{ℕ, Bool, ◌&&◌, ◌||◌, Option, List, Text, ltb, leb, ◌==◌}
use green_garden_api.Database.Models.{Category}
use green_garden_api.Database.Session.{Action, gets}
use green_garden_api.Listing.{Sql, list_page, if_given, if_searched, same_flag}

-- `ORDER BY sort_order, created_at, id`
unfoldable pub category_precedes : Category → Category → Bool
category_precedes a b =
    ltb a.sort_order b.sort_order
    || (a.sort_order == b.sort_order
        && (ltb a.created_at b.created_at || (a.created_at == b.created_at && leb a.id b.id)))

module _ (sql : Sql) where
  unfoldable pub category_filters : Option Text → Option Bool → Category → Bool
  category_filters search is_active c =
      if_searched search
        (λ pattern (d : Category). sql.ilike d.name pattern || sql.ilike d.slug pattern) c
      && if_given is_active (λ flag (d : Category). same_flag flag d.is_active) c

  unfoldable pub list_categories : ℕ → ℕ → Option Text → Option Bool → Action (List Category × ℕ)
  unfolding category_filters category_precedes
  list_categories page page_size search is_active = gets (λ db.
      list_page category_precedes (category_filters search is_active) page page_size db.categories)
