-- ===== src/Customers/Listing.antt =====
-- app/features/customers/service.py: the listing.
use green_garden_api.Prelude.{ℕ, Bool, ◌&&◌, ◌||◌, Option, List, Text}
use green_garden_api.Database.Models.{Customer}
use green_garden_api.Database.Session.{Action, gets}
use green_garden_api.Listing.{
  Sql, list_page, newest_first, if_given, ilike_opt, if_searched, same_flag,
}

module _ (sql : Sql) where
  unfoldable pub customer_filters : Option Text → Option Bool → Customer → Bool
  customer_filters search is_active c =
      if_searched search
        (λ pattern (d : Customer).
          sql.ilike d.phone pattern || (sql.ilike d.name pattern || ilike_opt sql d.email pattern))
        c
      && if_given is_active (λ flag (d : Customer). same_flag flag d.is_active) c

  unfoldable pub list_customers : ℕ → ℕ → Option Text → Option Bool → Action (List Customer × ℕ)
  unfolding customer_filters
  list_customers page page_size search is_active = gets (λ db.
      list_page (newest_first (λ (c : Customer). c.created_at) (λ (c : Customer). c.id))
        (customer_filters search is_active) page page_size db.customers)
