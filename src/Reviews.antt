-- ===== src/Reviews.antt =====
-- app/features/reviews/service.py: submission, moderation, listing and the summary of ratings.
pub mod Laws
use green_garden_api.Prelude.{
  ℕ, ◌+◌, ◌*◌, ◌/◌, ◌%◌, ◌≡◌, Bool, true, false, not, ◌&&◌, ◌||◌, Option, none, some, List, [], ◌∷◌,
  ◌++◌, Text, ◌==◌, ltb, if◌then◌else◌, find?, select, update_where, length,
}
use green_garden_api.Core.Errors.{AppError, or_raise}
use green_garden_api.Database.Models.{Plant, Review, ReviewStatus, Db}
use green_garden_api.Database.Session.{
  World, Env, Action, StorefrontEntity, pure, gets, lift, modify, atomically, commit,
  notify_storefront, ◌>>=◌, ◌>>◌,
}
use green_garden_api.Grouping.{set_key}
use green_garden_api.Listing.{Sql, list_page, newest_first, if_given, if_searched}
use green_garden_api.Orders.Pricing.{has_plant_id}

pub data ReviewScope : Type 0 where
  shop plant : ReviewScope

-- The arguments of `_apply_filters`.
pub record ReviewFilters : Type 0 where
  pub search : Option Text
  pub status : Option ReviewStatus
  pub plant_id : Option ℕ
  pub scope : Option ReviewScope

abbrev pub status_index : ReviewStatus → ℕ
status_index ReviewStatus.pending = 0
status_index ReviewStatus.approved = 1
status_index ReviewStatus.rejected = 2

-- `Review.plant_id == plant_id`; a NULL equals nothing.
abbrev pub is_about : ℕ → Option ℕ → Bool
is_about plant_id none = false
is_about plant_id (some id) = id == plant_id

abbrev pub in_scope : ReviewScope → Option ℕ → Bool
in_scope ReviewScope.shop none = true
in_scope ReviewScope.shop (some id) = false
in_scope ReviewScope.plant none = false
in_scope ReviewScope.plant (some id) = true

module _ (sql : Sql) where
  unfoldable pub review_filters : ReviewFilters → Review → Bool
  review_filters filters r =
      if_searched filters.search
        (λ pattern (s : Review). sql.ilike s.name pattern || sql.ilike s.content pattern) r
      && (if_given filters.status
            (λ status (s : Review). status_index s.status == status_index status) r
          && (if_given filters.plant_id (λ id (s : Review). is_about id s.plant_id) r
              && if_given filters.scope (λ scope (s : Review). in_scope scope s.plant_id) r))

  unfoldable pub list_reviews : ℕ → ℕ → ReviewFilters → Action (List Review × ℕ)
  list_reviews page page_size filters = gets (λ db.
      list_page (newest_first (λ (r : Review). r.created_at) (λ (r : Review). r.id))
        (review_filters filters) page page_size db.reviews)

-- `SELECT rating, count(*) … GROUP BY rating`, one row for a rating that occurs.
unfoldable pub count_rating : ℕ → List (ℕ × ℕ) → List (ℕ × ℕ)
count_rating rating [] = (rating, 1) ∷ []
count_rating rating ((key, count) ∷ rows) =
    let later = count_rating rating rows in
    if key == rating then (key, count + 1) ∷ rows else (key, count) ∷ later

unfoldable pub group_by_rating : List Review → List (ℕ × ℕ)
unfolding count_rating
group_by_rating [] = []
group_by_rating (r ∷ reviews) = count_rating r.rating (group_by_rating reviews)

-- `average_rating` is a float with one decimal, counted in tenths here.
pub record ReviewSummary : Type 0 where
  pub average_rating : ℕ
  pub total_reviews : ℕ
  pub rating_distribution : List (ℕ × ℕ)

abbrev pub no_stars : List (ℕ × ℕ)
no_stars = (1, 0) ∷ (2, 0) ∷ (3, 0) ∷ (4, 0) ∷ (5, 0) ∷ []

-- The loop over the rows, with the sum of all ratings.
unfoldable pub summed : List (ℕ × ℕ) → List (ℕ × ℕ) → ℕ → ℕ → List (ℕ × ℕ) × ℕ × ℕ
unfolding set_key
summed [] stars total rating_sum = (stars, total, rating_sum)
summed ((rating, count) ∷ rows) stars total rating_sum =
    summed rows (set_key rating count stars) (total + count) (rating_sum + rating * count)

-- `round(rating_sum / total, 1)`, on floats, is the parameter `round_ratio`, in tenths.
abbrev pub summary_of : (ℕ → ℕ → ℕ) → List (ℕ × ℕ) × ℕ × ℕ → ReviewSummary
summary_of round_ratio (stars, total, rating_sum) = record {
  average_rating = if total == 0 then 0 else round_ratio rating_sum total;
  total_reviews = total;
  rating_distribution = stars;
}

abbrev pub published : Option ℕ → Option ReviewScope → ReviewFilters
published plant_id scope = record {
  search = none;
  status = some ReviewStatus.approved;
  plant_id = plant_id;
  scope = scope;
}

unfoldable pub get_review_summary :
    Sql → (ℕ → ℕ → ℕ) → Option ℕ → Option ReviewScope → Action ReviewSummary
unfolding summed review_filters group_by_rating
get_review_summary sql round_ratio plant_id scope = gets (λ db. summary_of round_ratio (
    summed (group_by_rating (select (review_filters sql (published plant_id scope)) db.reviews))
      no_stars 0 0))

abbrev pub has_review_id : ℕ → Review → Bool
has_review_id id r = r.id == id

unfoldable pub get_review : ℕ → Action Review
get_review review_id = do
  review ← gets (λ db. find? (has_review_id review_id) db.reviews)
  lift (or_raise review AppError.review_not_found)

abbrev pub add_review : Review → Db → Db
add_review review db = record db { reviews = db.reviews ++ review ∷ [] }

abbrev pub with_review_status : ReviewStatus → Review → Review
with_review_status status review = record review { status = status }

abbrev pub set_review : ℕ → (Review → Review) → Db → Db
set_review id f db = record db { reviews = update_where (has_review_id id) f db.reviews }

abbrev pub slug_in : Option Plant → Option Text
slug_in none = none
slug_in (some found) = some found.slug

-- `review.plant.slug if review.plant else None`
abbrev pub reviewed_slug : Option ℕ → Db → Option Text
reviewed_slug none db = none
reviewed_slug (some plant_id) db = slug_in (find? (has_plant_id plant_id) db.plants)

module _ (env : Env) where
  abbrev pub new_review : Text → ℕ → Text → Option ℕ → Review
  new_review name rating content plant_id = record {
    id = env.uuid 0;
    plant_id = plant_id;
    name = name;
    rating = rating;
    content = content;
    status = ReviewStatus.pending;
    created_at = env.now;
  }

  unfoldable pub create_review : Text → ℕ → Text → Option ℕ → Action Review
  create_review name rating content plant_id = do
    modify (add_review (new_review name rating content plant_id))
    atomically (commit env)
    get_review (env.uuid 0)

  unfoldable pub set_review_status : ℕ → ReviewStatus → Action Review
  set_review_status review_id status = do
    review ← get_review review_id
    modify (set_review review.id (with_review_status status))
    atomically (commit env)
    moderated ← get_review review.id
    slug ← gets (reviewed_slug moderated.plant_id)
    notify_storefront env StorefrontEntity.reviews (slug ∷ [])
    pure moderated
