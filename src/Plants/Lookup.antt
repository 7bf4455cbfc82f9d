-- ===== src/Plants/Lookup.antt =====
-- A plant that is renamed is found under both of its slugs.
use mathlib.Core.Path.{subst}
use green_garden_api.Prelude.{
  ℕ, ◌≡◌, refl, ◌∙◌, ap, sym, Bool, true, false, ◌&&◌, if◌then◌else◌, any, text_eq_iff,
  text_eq_refl, Option, none, some, List, [], ◌∷◌, Text, text_eq, arith, find?, All, select,
  Bool-cases, inl, inr, eq_of_some,
}
use green_garden_api.Core.Errors.{AppError, Result, ok, err}
use green_garden_api.Database.Models.{Plant, PlantSlugHistory, Db}
use green_garden_api.Database.Session.{World, Env, continue}
use green_garden_api.Database.Keys.{
  row_has_key, select-row_has_key, select-row_has_id, absent-select,
}
use green_garden_api.Orders.Pricing.{has_plant_id}
use green_garden_api.Orders.Histories.{session}
use green_garden_api.Plants.{takes_plant_slug, has_history_slug, changed_text, update_plant}
use green_garden_api.Plants.Changes.{PlantChanges}
use green_garden_api.Plants.Slugs.{IsSlugged, plant_id, plant_slug, IsRetired}
use green_garden_api.Plants.Stages.{slug_after, link_after, Published}
use green_garden_api.Plants.Catalogue.{
  get_plant_by_slug, get_plant_by_history, joined, scalar_one_or_none, current_or, is_visible,
}
use green_garden_api.Plants.Renaming.{update_plant-Ends}

-- The slug of an entry of the history is retired.
IsRetired-linked :
    (old : Text) (plants : List Plant) (history : List PlantSlugHistory) {e : PlantSlugHistory}
    → All (IsRetired plants) history
    → select (has_history_slug old) history ≡ e ∷ []
    → IsRetired plants e
IsRetired-linked old plants [] {e} a h = absurd (clash h)
  where
    clash : [] ≡ e ∷ [] → ⊥
    clash k = cc
IsRetired-linked old plants (x ∷ history) {e} a h = elim (Bool-cases (text_eq x.slug old)) [
  | inl same ↦ rw (← first (rw same at h)) a.0
  | inr other ↦ IsRetired-linked old plants history a.1 (rw other at h)
]
  where
    first : {rest : List PlantSlugHistory} → x ∷ rest ≡ e ∷ [] → x ≡ e
    first k = cc

-- The history has no entry for the slug of a plant.
absent-history :
    (s : Text) (plants : List Plant) (history : List PlantSlugHistory)
    → All (IsRetired plants) history
    → any (row_has_key plant_id plant_slug s) plants ≡ true
    → select (has_history_slug s) history ≡ []
absent-history s plants [] a taken = refl
absent-history s plants (e ∷ history) a taken = elim (Bool-cases (text_eq e.slug s)) [
  | inl same ↦ let equal = (text_eq_iff e.slug s).0 same in absurd (contra (rw equal at a.0) taken)
  | inr other ↦ rw other (absent-history s plants history a.1 taken)
]
  where
    contra :
        any (takes_plant_slug s none) plants ≡ false
        → any (takes_plant_slug s none) plants ≡ true
        → ⊥
    contra h t = cc

-- A row that is found by its identifier has its slug.
any-own_slug :
    (k : ℕ) (plants : List Plant) {p : Plant}
    → find? (has_plant_id k) plants ≡ some p
    → any (row_has_key plant_id plant_slug p.slug) plants ≡ true
any-own_slug k [] h = cc
any-own_slug k (q ∷ plants) {p} h = elim (Bool-cases (has_plant_id k q)) [
  | inl here ↦ let same : q ≡ p = eq_of_some (rw here at h) in rw (same, text_eq_refl p.slug) refl
  | inr later ↦ ground (arith, any-own_slug k plants {p = p} (rw later at h))
]

-- What a lookup that reaches a plant answers.
abbrev pub shown : Bool → Plant → Result Plant
shown active_only p = if is_visible active_only p then ok p else err AppError.plant_not_found

select-and :
    (p q : Plant → Bool) (plants : List Plant)
    → select (λ r. p r && q r) plants ≡ select q (select p plants)
select-and p q [] = refl
select-and p q (r ∷ plants) = ground (arith, select-and p q plants)

-- Lookups, for a database whose slugs are in order.
module _ (active_only : Bool) (db : Db) (slugged : IsSlugged db) (k : ℕ) {p : Plant}
    (row : find? (has_plant_id k) db.plants ≡ some p) where
  get_plant_by_slug-current :
      get_plant_by_slug p.slug active_only (session db) ≡ (shown active_only p, session db)
  unfolding get_plant_by_slug get_plant_by_history
  get_plant_by_slug-current =
      let one =
        select-and (λ q. text_eq q.slug p.slug) (is_visible active_only) db.plants
        ∙ ap (select (is_visible active_only))
            (select-row_has_key plant_id plant_slug k db.plants slugged.slugs row) in
      let none' =
        absent-history p.slug db.plants db.slug_history slugged.retired
          (any-own_slug k db.plants row) in
      elim (Bool-cases (is_visible active_only p)) [
        | inl yes' ↦ rw (one, yes', continue, scalar_one_or_none, current_or) refl
        | inr no' ↦ rw (one, no', continue, scalar_one_or_none, current_or, none', joined) refl
      ]

  get_plant_by_slug-retired :
      (old : Text)
      → select (has_history_slug old) db.slug_history ≡ record { plant_id = k; slug = old } ∷ []
      → get_plant_by_slug old active_only (session db) ≡ (shown active_only p, session db)
  unfolding get_plant_by_slug get_plant_by_history
  get_plant_by_slug-retired old link =
      let retired = IsRetired-linked old db.plants db.slug_history slugged.retired link in
      let none' =
        select-and (λ q. text_eq q.slug old) (is_visible active_only) db.plants
        ∙ ap (select (is_visible active_only))
            (absent-select plant_id plant_slug (takes_plant_slug old none) db.plants retired) in
      let one =
        select-and (has_plant_id k) (is_visible active_only) db.plants
        ∙ ap (select (is_visible active_only))
            (select-row_has_id plant_id plant_slug k db.plants slugged.slugs row) in
      elim (Bool-cases (is_visible active_only p)) [
        | inl yes' ↦
            rw (none', continue, scalar_one_or_none, current_or, link, joined, one, yes') refl
        | inr no' ↦
            rw (none', continue, scalar_one_or_none, current_or, link, joined, one, no') refl
      ]

-- In a database whose slugs are in order, a plant is renamed: it gets a slug that differs from its
-- own. If `update_plant` returns, the plant that it returns has the new slug, and a later request
-- for the new slug or for the old one has the same answer: this plant, or `PlantNotFoundError` if the
-- request asks for active plants only, as the storefront does, and this plant is inactive.
pub update_plant-get_plant_by_slug :
    (env : Env) (id : ℕ) (changes : PlantChanges) (db : Db) (s : Text) {old plant : Plant}
    {w : World} (active_only : Bool)
    → IsSlugged db
    → find? (has_plant_id id) db.plants ≡ some old
    → changes.slug ≡ some s
    → text_eq s old.slug ≡ false
    → update_plant env id changes (session db) ≡ (ok plant, w)
    → (plant.slug ≡ s)
      × (get_plant_by_slug s active_only (session w.committed)
          ≡ (shown active_only plant, session w.committed))
      × (get_plant_by_slug old.slug active_only (session w.committed)
          ≡ (shown active_only plant, session w.committed))
update_plant-get_plant_by_slug env id changes db s {old} {plant} {w} active_only slugged found
      wanted differs returned =
    let ended =
      rw returned at (update_plant-Ends env id changes old (session db) (slugged, slugged) found) in
    let change : changed_text changes.slug old.slug ≡ some s = rw (wanted, differs) refl in
    let done : Published old.id s (some old.slug) plant w =
      subst
        (λ (c : Option Text).
          Published old.id (slug_after env old c) (link_after env old c) plant w)
        change ended in
    let (q, named, slug) = done.stage.named in
    let same : plant.slug ≡ s =
      ap (λ (r : Plant). r.slug) (eq_of_some (sym done.row ∙ named)) ∙ slug in
    let row : find? (has_plant_id old.id) w.committed.plants ≡ some plant =
      ap (λ (d : Db). find? (has_plant_id old.id) d.plants) done.stored ∙ done.row in
    let link =
      ap (λ (d : Db). select (has_history_slug old.slug) d.slug_history) done.stored
      ∙ done.stage.linked in
    let current = get_plant_by_slug-current active_only w.committed done.stage.holds.0 old.id row in
    (
      same,
      ap (λ (t : Text). get_plant_by_slug t active_only (session w.committed)) (sym same) ∙ current,
      get_plant_by_slug-retired active_only w.committed done.stage.holds.0 old.id row old.slug link,
    )
