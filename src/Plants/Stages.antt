-- ===== src/Plants/Stages.antt =====
-- The steps of `update_plant`: what each leaves in the table of plants and in the history of slugs.
use green_garden_api.Prelude.{
  ℕ, ◌≡◌, refl, ◌∙◌, ap, true, false, not, Option, none, some, List, [], ◌∷◌, ◌++◌, Text, text_eq,
  text_eq_refl, ◌==◌, arith, any, find?, select, update_where, Bool-cases, inl, inr, eq_of_some,
}
use green_garden_api.Core.Errors.{AppError, Result}
use green_garden_api.Database.Models.{Plant, PlantSlugHistory, Db}
use green_garden_api.Database.Session.{
  World, Env, StorefrontEntity, pure, continue, settle, commit, notify_storefront, ◌>>◌,
}
use green_garden_api.Database.Session.Invariants.{Holds, Ends, Ends-check, Ends-found}
use green_garden_api.Orders.Pricing.{has_plant_id}
use green_garden_api.Categories.{get_category, has_category_id}
use green_garden_api.Plants.{
  takes_plant_slug, takes_sku, has_history_slug, set_plant, ensure_plant_slug_available,
  ensure_sku_available, release_historical_slug, get_plant, publish_plant, change_category,
  change_plant_slug, change_sku,
}
use mathlib.Core.Path.{subst}
use green_garden_api.Plants.Slugs.{
  not-retired, IsSlugged, IsSlugged-keep, IsSlugged-sku, IsSlugged-rename, renamed_db,
}

-- The plant stands in the table under the slug.
abbrev pub Named : ℕ → Text → Db → Type 0
Named k t db = (q : Plant) × (find? (has_plant_id k) db.plants ≡ some q) × (q.slug ≡ t)

-- The history leads from the old slug, if there is one, to the plant.
abbrev pub Linked : ℕ → Option Text → List PlantSlugHistory → Type 0
Linked k none history = Unit
Linked k (some old) history =
    select (has_history_slug old) history ≡ record { plant_id = k; slug = old } ∷ []

pub record Stage (k : ℕ) (t : Text) (link : Option Text) (w : World) : Type 0 where
  pub holds : Holds IsSlugged w
  pub named : Named k t w.working
  pub linked : Linked k link w.working.slug_history

find?-update :
    (f : Plant → Plant) (k : ℕ) (plants : List Plant) {q : Plant}
    → ((p : Plant) → (f p).id ≡ p.id)
    → find? (has_plant_id k) plants ≡ some q
    → find? (has_plant_id k) (update_where (has_plant_id k) f plants) ≡ some (f q)
find?-update f k [] {q} same e = cc
find?-update f k (p ∷ plants) {q} same e = elim (Bool-cases (p.id == k)) [
  | inl here ↦
      let moved : ((f p).id == k) ≡ true = ap (λ (i : ℕ). i == k) (same p) ∙ here in
      rw (here, moved) (ap (λ (r : Plant). some (f r)) (eq_of_some (rw here at e)))
  | inr later ↦ rw (later, later) (find?-update f k plants {q = q} same (rw later at e))
]

-- A write to the plant that leaves its identifier, slug and SKU alone.
pub Stage-keep :
    (f : Plant → Plant)
    → ((p : Plant) → (f p).id ≡ p.id)
    → ((p : Plant) → (f p).slug ≡ p.slug)
    → ((p : Plant) → (f p).sku ≡ p.sku)
    → {k : ℕ} {t : Text} {link : Option Text} {w : World} → Stage k t link w
    → Stage k t link (record w { working = set_plant k f w.working })
Stage-keep f same_id same_slug same_sku {k} {t} {link} {w} s =
    let (q, found, named) = s.named in
    record {
      holds = (s.holds.0, IsSlugged-keep f same_id same_slug same_sku k w.working s.holds.1);
      named = (f q, find?-update f k w.working.plants same_id found, same_slug q ∙ named);
      linked = s.linked;
    }

-- Every step ends in the next stage, or raises with all slugs in order.
abbrev pub Steps : ℕ → Text → Option Text → Result (Unit {0}) × World → Type 0
Steps k t link r = Ends (λ _ v. Stage k t link v) (Holds IsSlugged) r

module _ (env : Env) (plant : Plant) where
  pub change_category-Stage :
      (category_id : Option ℕ) (w : World)
      → Stage plant.id plant.slug none w
      → Steps plant.id plant.slug none (change_category env plant category_id w)
  unfolding change_category get_category
  change_category-Stage none w s = s
  change_category-Stage (some category_id) w s =
      Ends-found (λ _ v. Stage plant.id plant.slug none v) (Holds IsSlugged)
        (find? (has_category_id category_id) w.working.categories) AppError.category_not_found
        (get_category category_id) _ w refl s.holds
        (λ category found.
          Stage-keep (λ p. record p { category_id = category_id }) (λ p. refl) (λ p. refl)
            (λ p. refl) s)

  -- The slug and the link that a change of slug leaves.
  abbrev pub slug_after : Option Text → Text
  slug_after none = plant.slug
  slug_after (some slug) = slug

  abbrev pub link_after : Option Text → Option Text
  link_after none = none
  link_after (some slug) = some plant.slug

  select-last :
      (s : Text) (history : List PlantSlugHistory)
      → any (has_history_slug plant.slug) history ≡ false
      → select (has_history_slug plant.slug) (
          select (λ h. not (has_history_slug s h)) history
          ++ record { plant_id = plant.id; slug = plant.slug } ∷ [])
        ≡ record { plant_id = plant.id; slug = plant.slug } ∷ []
  select-last s [] e = rw (text_eq_refl plant.slug) refl
  select-last s (h ∷ history) e = elim (Bool-cases (text_eq h.slug s)) [
    | inl same ↦ rw same (select-last s history (ground arith))
    | inr other ↦
        let apart : text_eq h.slug plant.slug ≡ false = ground arith in
        rw (other, apart) (select-last s history (ground arith))
  ]

  pub change_plant_slug-Stage :
      (slug : Text) (w : World)
      → text_eq slug plant.slug ≡ false
      → Stage plant.id plant.slug none w
      → Steps plant.id slug (some plant.slug) (change_plant_slug env plant (some slug) w)
  unfolding change_plant_slug ensure_plant_slug_available release_historical_slug
  change_plant_slug-Stage slug w differ s =
      Ends-check (λ _ v. Stage plant.id slug (some plant.slug) v) (Holds IsSlugged)
        (any (takes_plant_slug slug (some plant.id)) w.working.plants)
        (AppError.plant_slug_taken slug) (ensure_plant_slug_available slug (some plant.id)) _ w refl
        s.holds
        (λ free.
          let (q, found, named) = s.named in
          let apart : text_eq slug q.slug ≡ false = rw named differ in
          let retired : any (has_history_slug plant.slug) w.working.slug_history ≡ false =
            rw (← named) (
              not-retired plant.id w.working.plants w.working.slug_history found
                s.holds.1.retired) in
          record {
            holds = (
              s.holds.0,
              subst (λ (t : Text). IsSlugged (renamed_db t slug plant.id w.working)) named
                  (IsSlugged-rename slug plant.id w.working s.holds.1 found apart free),
            );
            named = (
              record q { slug = slug },
              find?-update (λ p. record p { slug = slug }) plant.id w.working.plants (λ p. refl)
                  found,
              refl,
            );
            linked = select-last slug w.working.slug_history retired;
          })

  pub change_sku-Stage :
      (sku : Option Text) (t : Text) (link : Option Text) (w : World)
      → Stage plant.id t link w
      → Steps plant.id t link (change_sku env plant sku w)
  unfolding change_sku ensure_sku_available
  change_sku-Stage none t link w s = s
  change_sku-Stage (some sku) t link w s =
      Ends-check (λ _ v. Stage plant.id t link v) (Holds IsSlugged)
        (any (takes_sku sku (some plant.id)) w.working.plants) (AppError.plant_sku_taken sku)
        (ensure_sku_available sku (some plant.id)) _ w refl s.holds
        (λ free.
          let (q, found, named) = s.named in
          record {
            holds = (s.holds.0, IsSlugged-sku sku plant.id w.working s.holds.1 free);
            named = (
              record q { sku = sku },
              find?-update (λ p. record p { sku = sku }) plant.id w.working.plants (λ p. refl)
                  found,
              named,
            );
            linked = s.linked;
          })

-- What a change that returned has committed: slugs in order, the plant under its slug, and the link.
pub record Published (k : ℕ) (t : Text) (link : Option Text) (plant : Plant) (w : World)
    : Type 0 where
  pub stage : Stage k t link w
  pub stored : w.committed ≡ w.working
  pub row : find? (has_plant_id k) w.working.plants ≡ some plant

module _ (env : Env) where
  -- Telling the storefront.
  Published-told :
      (k : ℕ) (t : Text) (link : Option Text) (plant : Plant) (w : World)
      (slugs : List (Option Text))
      → Published k t link plant w
      → Ends
          (Published k t link)
          (Holds IsSlugged)
          ((notify_storefront env StorefrontEntity.plants slugs >> pure plant) w)
  unfolding notify_storefront
  Published-told k t link plant w slugs p = elim (Bool-cases env.notify_on) [
    | inl enabled ↦ rw enabled (record {
      stage = record { holds = p.stage.holds; named = p.stage.named; linked = p.stage.linked };
      stored = p.stored;
      row = p.row;
    })
    | inr disabled ↦ rw disabled p
  ]

  pub publish_plant-Published :
      (k : ℕ) (t : Text) (link : Option Text) (old : List (Option Text)) (w : World)
      → Stage k t link w
      → Ends (Published k t link) (Holds IsSlugged) (publish_plant env k old w)
  unfolding publish_plant commit get_plant
  publish_plant-Published k t link old w s = elim (Bool-cases (env.accepts w.working)) [
    | inr refused ↦ rw (refused, settle, continue) (s.holds.0, s.holds.0)
    | inl taken ↦
        let v : World = record w { committed = w.working } in
        let rest = λ (q : Plant).
          notify_storefront env StorefrontEntity.plants (some q.slug ∷ old) >> pure q in
        rw (taken, settle, continue)
          (Ends-found (Published k t link) (Holds IsSlugged)
            (find? (has_plant_id k) w.working.plants) AppError.plant_not_found (get_plant k) rest v
            refl (s.holds.1, s.holds.1)
            (λ q found. Published-told k t link q v (some q.slug ∷ old) (record {
              stage = record { holds = (s.holds.1, s.holds.1); named = s.named; linked = s.linked };
              stored = refl;
              row = found;
            })))
  ]
