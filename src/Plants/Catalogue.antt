-- ===== src/Plants/Catalogue.antt =====
-- app/features/plants/service.py: listing, searching and finding plants.
pub mod Laws
use green_garden_api.Prelude.{
  ℕ, ◌≡◌, Bool, true, false, not, ◌&&◌, ◌||◌, Option, none, some, List, [], ◌∷◌, ◌++◌, Text, codes,
  text_eq, is_nonempty, ◌==◌, ltb, leb, if◌then◌else◌, select, take, length,
}
use green_garden_api.Core.Errors.{AppError, Result, ok, err, or_raise}
use green_garden_api.Core.Text.{normalize_search_query, escape_ilike_pattern}
use green_garden_api.Database.Models.{Plant, PlantSlugHistory, Db}
use green_garden_api.Database.Session.{World, Action, pure, gets, lift, ◌>>=◌, ◌>>◌}
use green_garden_api.Listing.{
  Sql, order_by, list_page, newest_first, if_given, ilike_opt, if_searched, same_flag,
}
use green_garden_api.Orders.Pricing.{has_plant_id}
use green_garden_api.Plants.{has_history_slug}

pub data SortField : Type 0 where
  created_at name price stock : SortField

pub data SortOrder : Type 0 where
  asc desc : SortOrder

pub data SearchLocale : Type 0 where
  vi en : SearchLocale

-- The arguments of `_apply_filters`.
pub record PlantFilters : Type 0 where
  pub search : Option Text
  pub category_id : Option ℕ
  pub is_active : Option Bool
  pub is_featured : Option Bool
  pub min_price : Option ℕ
  pub max_price : Option ℕ

module _ (sql : Sql) where
  unfoldable pub plant_filters : PlantFilters → Plant → Bool
  plant_filters filters p =
      if_searched filters.search
        (λ pattern (q : Plant). sql.ilike q.name pattern || sql.ilike q.sku pattern) p
      && (if_given filters.category_id (λ id (q : Plant). q.category_id == id) p
          && (if_given filters.is_active (λ flag (q : Plant). same_flag flag q.is_active) p
              && (if_given filters.is_featured (λ flag (q : Plant). same_flag flag q.is_featured) p
                  && (if_given filters.min_price (λ price (q : Plant). leb price q.price) p
                      && if_given filters.max_price (λ price (q : Plant). leb q.price price) p))))

  -- `column < column` for the column of `_SORT_COLUMNS`.
  unfoldable pub field_lt : SortField → Plant → Plant → Bool
  field_lt SortField.created_at a b = ltb a.created_at b.created_at
  field_lt SortField.name a b = sql.collate a.name b.name
  field_lt SortField.price a b = ltb a.price b.price
  field_lt SortField.stock a b = ltb a.stock b.stock

  unfoldable pub sorts_first : SortField → SortOrder → Plant → Plant → Bool
  unfolding field_lt
  sorts_first field SortOrder.asc a b = field_lt field a b
  sorts_first field SortOrder.desc a b = field_lt field b a

  -- `ORDER BY column, id`
  unfoldable pub plant_precedes : SortField → SortOrder → Plant → Plant → Bool
  unfolding sorts_first
  plant_precedes field order a b =
      sorts_first field order a b || (not (sorts_first field order b a) && leb a.id b.id)

  unfoldable pub list_plants :
      ℕ → ℕ → PlantFilters → SortField → SortOrder → Action (List Plant × ℕ)
  list_plants page page_size filters sort order =
      gets (λ db.
        list_page (plant_precedes sort order) (plant_filters filters) page page_size db.plants)

  unfoldable pub matches_locale : SearchLocale → Text → Plant → Bool
  matches_locale SearchLocale.vi pattern p =
      ilike_opt sql p.name_vi pattern || ilike_opt sql p.description_vi pattern
  matches_locale SearchLocale.en pattern p =
      sql.ilike p.name pattern || ilike_opt sql p.description pattern

  -- The rows of the search; the keyword is trimmed, and matched literally.
  unfoldable pub found_by : SearchLocale → Text → Plant → Bool
  unfolding escape_ilike_pattern
  found_by locale normalized p =
      p.is_active
      && matches_locale locale (codes "%" ++ (escape_ilike_pattern normalized ++ codes "%")) p

  unfoldable pub search_plants : Text → SearchLocale → ℕ → Action (Text × List Plant × ℕ)
  unfolding normalize_search_query found_by
  search_plants query locale limit =
      let normalized = normalize_search_query query in
      gets (λ db.
        let rows = select (found_by locale normalized) db.plants in
        let newest = newest_first (λ (p : Plant). p.created_at) (λ (p : Plant). p.id) in
        if is_nonempty normalized
        then (normalized, take limit (order_by newest rows), length rows)
        else (normalized, [], 0))

-- `scalar_one_or_none()`, which raises `MultipleResultsFound` at a second row.
abbrev pub scalar_one_or_none : {A : Type 0} → List A → Result (Option A)
scalar_one_or_none [] = ok none
scalar_one_or_none (a ∷ []) = ok (some a)
scalar_one_or_none (a ∷ b ∷ rows) = err AppError.value_error

-- `if active_only: stmt = stmt.where(Plant.is_active.is_(True))`
abbrev pub is_visible : Bool → Plant → Bool
is_visible true p = p.is_active
is_visible false p = true

abbrev pub has_plant_slug : Bool → Text → Plant → Bool
has_plant_slug active_only slug p = text_eq p.slug slug && is_visible active_only p

-- The rows of the join of plants with the history at a slug.
abbrev pub joined : Bool → List PlantSlugHistory → List Plant → List Plant
joined active_only [] plants = []
joined active_only (h ∷ history) plants =
    select (λ p. has_plant_id h.plant_id p && is_visible active_only p) plants
    ++ joined active_only history plants

abbrev pub current_or : Option Plant → Action Plant → Action Plant
current_or (some plant) later = pure plant
current_or none later = later

unfoldable pub get_plant_by_history : Text → Bool → Action Plant
get_plant_by_history slug active_only = do
  rows ← gets (λ db. joined active_only (select (has_history_slug slug) db.slug_history) db.plants)
  plant ← lift (scalar_one_or_none rows)
  lift (or_raise plant AppError.plant_not_found)

unfoldable pub get_plant_by_slug : Text → Bool → Action Plant
get_plant_by_slug slug active_only = do
  rows ← gets (λ db. select (has_plant_slug active_only slug) db.plants)
  plant ← lift (scalar_one_or_none rows)
  current_or plant (get_plant_by_history slug active_only)
