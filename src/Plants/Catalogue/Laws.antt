-- ===== src/Plants/Catalogue/Laws.antt =====
-- The pages of the catalogue: nothing is lost between them, and nothing comes twice.
use mathlib.Core.List.{Perm}
use green_garden_api.Prelude.{
  ℕ, ◌*◌, ◌≤◌, ◌≡◌, refl, Bool, true, false, not, ◌&&◌, ◌||◌, List, [], leb, select, length, arith,
  Bool-cases, inl, inr,
}
use green_garden_api.Core.Errors.{Result, ok}
use green_garden_api.Database.Models.{Plant}
use green_garden_api.Database.Session.{World}
use green_garden_api.Listing.{Sql, list_page}
use green_garden_api.Listing.Laws.{pages, listed_pages-perm, listed_pages-InOrder, InOrder}
use green_garden_api.Plants.Catalogue.{
  SortField, SortOrder, PlantFilters, plant_filters, sorts_first, plant_precedes, list_plants,
}

-- The rows of a page that a listing returned.
abbrev pub rows_of : {A : Type 0} → Result (List A × ℕ) → List A
rows_of (ok (rows, total)) = rows
rows_of _ = []

leb_total : (a b : ℕ) → leb a b ≡ false → leb b a ≡ true
leb_total a b h = ground arith

-- Whatever the column and the direction, of two rows one precedes the other.
precedes-total :
    (first : Plant → Plant → Bool) (a b : Plant)
    → (first a b || (not (first b a) && leb a.id b.id)) ≡ false
    → (first b a || (not (first a b) && leb b.id a.id)) ≡ true
precedes-total first a b h = elim (Bool-cases (first b a)) [
  | inl yes' ↦ rw yes' refl
  | inr no' ↦ elim (Bool-cases (first a b)) [
    | inl other ↦ absurd (impossible (rw (no', other) at h))
    | inr neither ↦ rw (no', neither) (leb_total a.id b.id (rw (no', neither) at h))
  ]
]
  where
    impossible : true ≡ false → ⊥
    impossible k = cc

-- If `n` pages can hold the plants that pass the filters, the first `n` pages of `list_plants`, put
-- together, are these plants, each once, in the order that was asked for; and every page reports
-- their number.
pub list_plants-pages :
    (sql : Sql) (size : ℕ) (filters : PlantFilters) (sort : SortField) (order : SortOrder)
    (w : World) (n : ℕ)
    → length (select (plant_filters sql filters) w.working.plants) ≤ n * size
    → let page = λ (k : ℕ). (list_plants sql k size filters sort order w).0 in
      Perm (pages (λ k. rows_of (page k)) n) (select (plant_filters sql filters) w.working.plants)
      × InOrder (plant_precedes sql sort order) (pages (λ k. rows_of (page k)) n)
      × ((k : ℕ)
          → page k
            ≡ ok (rows_of (page k), length (select (plant_filters sql filters) w.working.plants)))
unfolding list_plants list_page plant_precedes
list_plants-pages sql size filters sort order w n enough =
    let precedes = plant_precedes sql sort order in
    let keep = plant_filters sql filters in
    (
      listed_pages-perm precedes keep size w.working.plants n enough,
      listed_pages-InOrder precedes keep size w.working.plants
          (λ a b. precedes-total (sorts_first sql sort order) a b) n enough,
      λ k. refl,
    )
