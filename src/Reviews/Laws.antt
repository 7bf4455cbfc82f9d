-- ===== src/Reviews/Laws.antt =====
-- What the summary of the ratings counts.
use native.Mathlib.Nat
use green_garden_api.Prelude.{
  ℕ, ◌+◌, ◌*◌, ◌≤◌, ◌≡◌, ◌∙◌, refl, Bool, false, ◌||◌, Option, none, some, List, [], ◌∷◌, ◌==◌,
  ==→eq, All, if◌then◌else◌, select, any, sum_of, length, arith, Bool-cases, inl, inr,
}
use green_garden_api.Core.Errors.{ok}
use green_garden_api.Database.Models.{Review}
use green_garden_api.Database.Session.{World}
use green_garden_api.Grouping.{set_key, value_at, value_at-set_key}
use green_garden_api.Listing.{Sql}
use green_garden_api.Reviews.{
  ReviewScope, ReviewSummary, review_filters, published, count_rating, group_by_rating, summed,
  summary_of, no_stars, get_review_summary,
}

abbrev has_star : ℕ → ℕ × ℕ → Bool
has_star star row = row.0 == star

-- The number of reviews with a rating.
abbrev pub rated : ℕ → List Review → ℕ
rated star reviews = length (select (λ r. r.rating == star) reviews)

abbrev plus_one : Option ℕ → Option ℕ
plus_one none = some 1
plus_one (some n) = some (n + 1)

abbrev IsGrouped : List (ℕ × ℕ) → Type 0
IsGrouped [] = Unit
IsGrouped (row ∷ rows) = (any (has_star row.0) rows ≡ false) × IsGrouped rows

value_at-count_rating :
    (star rating : ℕ) (rows : List (ℕ × ℕ))
    → value_at star (count_rating rating rows)
      ≡ (if rating == star then plus_one (value_at star rows) else value_at star rows)
unfolding count_rating
value_at-count_rating star rating [] = ground arith
value_at-count_rating star rating ((key, count) ∷ rows) =
    ground (arith, value_at-count_rating star rating rows)

any-count_rating :
    (star rating : ℕ) (rows : List (ℕ × ℕ))
    → any (has_star star) (count_rating rating rows) ≡ (any (has_star star) rows || rating == star)
unfolding count_rating
any-count_rating star rating [] = ground arith
any-count_rating star rating ((key, count) ∷ rows) =
    ground (arith, any-count_rating star rating rows)

count_rating-IsGrouped :
    (rating : ℕ) (rows : List (ℕ × ℕ)) → IsGrouped rows → IsGrouped (count_rating rating rows)
unfolding count_rating
count_rating-IsGrouped rating [] h = (refl, tt)
count_rating-IsGrouped rating ((key, count) ∷ rows) h = elim (Bool-cases (key == rating)) [
  | inl same ↦ rw same h
  | inr other ↦ rw other (
    (ground (arith, any-count_rating key rating rows, h.0)),
    count_rating-IsGrouped rating rows h.1,
  )
]

group_by_rating-IsGrouped : (reviews : List Review) → IsGrouped (group_by_rating reviews)
unfolding group_by_rating
group_by_rating-IsGrouped [] = tt
group_by_rating-IsGrouped (r ∷ reviews) =
    count_rating-IsGrouped r.rating (group_by_rating reviews) (group_by_rating-IsGrouped reviews)

abbrev or_zero : Option ℕ → ℕ
or_zero none = 0
or_zero (some n) = n

value_at-group_by_rating :
    (star : ℕ) (reviews : List Review)
    → or_zero (value_at star (group_by_rating reviews)) ≡ rated star reviews
unfolding group_by_rating
value_at-group_by_rating star [] = refl
value_at-group_by_rating star (r ∷ reviews) = ground (
  arith,
  value_at-count_rating star r.rating (group_by_rating reviews),
  value_at-group_by_rating star reviews,
)

-- What the loop leaves under a rating: the row's number, or what stood there.
abbrev or_else : Option ℕ → Option ℕ → Option ℕ
or_else none other = other
or_else (some n) other = some n

absent-value_at :
    (star : ℕ) (rows : List (ℕ × ℕ)) → any (has_star star) rows ≡ false → value_at star rows ≡ none
absent-value_at star [] h = refl
absent-value_at star ((key, count) ∷ rows) h = ground (arith, absent-value_at star rows)

value_at-summed :
    (star : ℕ) (rows stars : List (ℕ × ℕ)) (total rating_sum : ℕ)
    → IsGrouped rows
    → value_at star (summed rows stars total rating_sum).0
      ≡ or_else (value_at star rows) (value_at star stars)
unfolding summed
value_at-summed star [] stars total rating_sum h = refl
value_at-summed star ((key, count) ∷ rows) stars total rating_sum h =
    value_at-summed star rows (set_key key count stars) (total + count) (rating_sum + key * count)
      h.1
    ∙ elim (Bool-cases (key == star)) [
      | inl same ↦
          let none' = absent-value_at star rows (rw (==→eq key star same) at h.0) in
          rw (value_at-set_key star key count stars, same, none') refl
      | inr other ↦ rw (value_at-set_key star key count stars, other) refl
    ]

summed-sums :
    (rows stars : List (ℕ × ℕ)) (total rating_sum : ℕ)
    → ((summed rows stars total rating_sum).1 ≡ total + sum_of (λ row. row.1) rows)
      × ((summed rows stars total rating_sum).2 ≡ rating_sum + sum_of (λ row. row.0 * row.1) rows)
unfolding summed
summed-sums [] stars total rating_sum = (omega arith, omega arith)
summed-sums ((key, count) ∷ rows) stars total rating_sum =
    let later =
      summed-sums rows (set_key key count stars) (total + count) (rating_sum + key * count) in
    (omega (arith, later.0), omega (arith, later.1))

count_rating-sums :
    (rating : ℕ) (rows : List (ℕ × ℕ))
    → (sum_of (λ row. row.1) (count_rating rating rows) ≡ 1 + sum_of (λ row. row.1) rows)
      × (sum_of (λ row. row.0 * row.1) (count_rating rating rows)
          ≡ rating + sum_of (λ row. row.0 * row.1) rows)
unfolding count_rating
count_rating-sums rating [] = (omega arith, omega arith)
count_rating-sums rating ((key, count) ∷ rows) =
    let later = count_rating-sums rating rows in (ground (arith, later.0), ground (arith, later.1))

group_by_rating-sums :
    (reviews : List Review)
    → (sum_of (λ row. row.1) (group_by_rating reviews) ≡ length reviews)
      × (sum_of (λ row. row.0 * row.1) (group_by_rating reviews) ≡ sum_of (λ r. r.rating) reviews)
unfolding group_by_rating
group_by_rating-sums [] = (refl, refl)
group_by_rating-sums (r ∷ reviews) =
    let first = count_rating-sums r.rating (group_by_rating reviews) in
    let later = group_by_rating-sums reviews in
    (omega (arith, first.0, later.0), omega (arith, first.1, later.1))

value_at-no_stars : (star : ℕ) → 1 ≤ star → star ≤ 5 → value_at star no_stars ≡ some 0
value_at-no_stars star low high = ground arith

or_else-zero : (o : Option ℕ) → or_else o (some 0) ≡ some (or_zero o)
or_else-zero none = refl
or_else-zero (some n) = refl

-- The summary counts the approved reviews of its scope: their number, and for every number of
-- stars from one to five how many gave it.
pub get_review_summary-counts :
    (sql : Sql) (round_ratio : ℕ → ℕ → ℕ) (plant_id : Option ℕ) (scope : Option ReviewScope)
    (w : World)
    → let approved = select (review_filters sql (published plant_id scope)) w.working.reviews in
      (summary : ReviewSummary) × (get_review_summary sql round_ratio plant_id scope w
        ≡ (ok summary, w))
      × (summary.total_reviews ≡ length approved)
      × ((star : ℕ)
          → 1 ≤ star
          → star ≤ 5
          → value_at star summary.rating_distribution ≡ some (rated star approved))
unfolding get_review_summary
get_review_summary-counts sql round_ratio plant_id scope w =
    let approved = select (review_filters sql (published plant_id scope)) w.working.reviews in
    let rows = group_by_rating approved in
    (
      summary_of round_ratio (summed rows no_stars 0 0),
      refl,
      omega (arith, (summed-sums rows no_stars 0 0).0, (group_by_rating-sums approved).0),
      λ star low high.
          value_at-summed star rows no_stars 0 0 (group_by_rating-IsGrouped approved)
          ∙ rw
              (
                value_at-no_stars star low high,
                or_else-zero (value_at star rows),
                value_at-group_by_rating star approved,
              )
              refl,
    )

-- The ratings of the table are between one and five stars.
abbrev pub AreRatings : List Review → Type 0
AreRatings = All (λ (r : Review). (1 ≤ r.rating) × (r.rating ≤ 5))
