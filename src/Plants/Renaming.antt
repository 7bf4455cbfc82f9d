-- ===== src/Plants/Renaming.antt =====
-- `update_plant` and `create_plant` keep slugs in order.
use green_garden_api.Prelude.{
  ℕ, ◌≡◌, refl, ◌∙◌, ap, false, Option, none, some, [], ◌∷◌, Text, text_eq, ==→eq, any, find?,
  find?-sound, find?-last, ==_refl, Bool-cases, inl, inr, eq_of_some,
}
use green_garden_api.Core.Errors.{AppError, Result, ok, err}
use green_garden_api.Database.Models.{Plant}
use green_garden_api.Database.Session.{World, Env, modify, continue, ◌>>◌}
use green_garden_api.Database.Session.Invariants.{
  Ends-of, Holds, Ends, Ends-bind, Ends-world, Ends-check, Ends-found,
}
use green_garden_api.Orders.Pricing.{has_plant_id}
use green_garden_api.Categories.{get_category, has_category_id}
use green_garden_api.Plants.{
  takes_plant_slug, takes_sku, set_plant, add_plant, without_slug, ensure_plant_slug_available,
  ensure_sku_available, release_historical_slug, get_plant, changed_id, changed_text, new_plant,
  publish_plant, create_plant, change_category, change_plant_slug, change_sku, update_plant,
}
use green_garden_api.Plants.Changes.{NewPlant, PlantChanges, with_fields}
use green_garden_api.Plants.Slugs.{IsSlugged, IsSlugged-add}
use green_garden_api.Plants.Stages.{
  Stage, Stage-keep, Steps, slug_after, link_after, change_category-Stage, change_plant_slug-Stage,
  change_sku-Stage, Published, publish_plant-Published,
}

pub changed_text-differs :
    (new : Option Text) (old : Text) {s : Text}
    → changed_text new old ≡ some s
    → text_eq s old ≡ false
changed_text-differs none old {s} h = cc
changed_text-differs (some new) old {s} h = elim (Bool-cases (text_eq new old)) [
  | inl same ↦ absurd (clash (rw same at h))
  | inr other ↦ rw (← eq_of_some (rw other at h)) other
]
  where
    clash : none ≡ some s → ⊥
    clash k = cc

module _ (env : Env) (id : ℕ) (changes : PlantChanges) where
  -- The slug after the operation, and the one that it retired.
  abbrev pub new_slug : Plant → Text
  new_slug plant = slug_after env plant (changed_text changes.slug plant.slug)

  abbrev pub new_link : Plant → Option Text
  new_link plant = link_after env plant (changed_text changes.slug plant.slug)

  slug-Steps :
      (plant : Plant) (w : World)
      → Stage plant.id plant.slug none w
      → Steps plant.id
          (new_slug plant)
          (new_link plant)
          (change_plant_slug env plant (changed_text changes.slug plant.slug) w)
  slug-Steps plant w s = go (changed_text changes.slug plant.slug) refl
    where
      go :
          (c : Option Text)
          → changed_text changes.slug plant.slug ≡ c
          → Steps plant.id
              (slug_after env plant c)
              (link_after env plant c)
              (change_plant_slug env plant c w)
      go none e = unfold change_plant_slug in s
      go (some slug) e =
          change_plant_slug-Stage env plant slug w (changed_text-differs changes.slug plant.slug e)
            s

  abbrev pub Ended : Plant → Result Plant × World → Type 0
  Ended plant r = Ends (Published plant.id (new_slug plant) (new_link plant)) (Holds IsSlugged) r

  -- The steps behind the read, each in the stage that the one before leaves.
  steps-Published :
      (plant : Plant) (w : World)
      → Stage plant.id plant.slug none w
      → Ended plant (
          (do
            change_category env plant (changed_id changes.category_id plant.category_id)
            change_plant_slug env plant (changed_text changes.slug plant.slug)
            change_sku env plant (changed_text changes.sku plant.sku)
            modify (set_plant plant.id (with_fields changes))
            publish_plant env plant.id (some plant.slug ∷ []))
            w)
  steps-Published plant w s =
      let t = new_slug plant in
      let link = new_link plant in
      let E = Holds IsSlugged in
      let R = Published plant.id t link in
      Ends-bind (λ _ v. Stage plant.id plant.slug none v) R E
        (change_category env plant (changed_id changes.category_id plant.category_id)) _ w
        (change_category-Stage env plant (changed_id changes.category_id plant.category_id) w s)
        (λ _ v s'.
          Ends-bind (λ _ x. Stage plant.id t link x) R E
            (change_plant_slug env plant (changed_text changes.slug plant.slug)) _ v
            (slug-Steps plant v s')
            (λ _ x s''.
              Ends-bind (λ _ y. Stage plant.id t link y) R E
                (change_sku env plant (changed_text changes.sku plant.sku)) _ x
                (change_sku-Stage env plant (changed_text changes.sku plant.sku) t link x s'')
                (λ _ y s'''.
                  publish_plant-Published env plant.id t link (some plant.slug ∷ [])
                    (record y { working = set_plant plant.id (with_fields changes) y.working })
                    (Stage-keep (with_fields changes) (λ p. refl) (λ p. refl) (λ p. refl) s'''))))

  started :
      (plant : Plant) (w : World)
      → Holds IsSlugged w
      → find? (has_plant_id id) w.working.plants ≡ some plant
      → Stage plant.id plant.slug none w
  started plant w h found =
      let key : plant.id ≡ id =
        ==→eq plant.id id (find?-sound (has_plant_id id) w.working.plants found) in
      record {
        holds = h;
        named = (plant, ap (λ (k : ℕ). find? (has_plant_id k) w.working.plants) key ∙ found, refl);
        linked = tt;
      }

  pub update_plant-Ends :
      (plant : Plant) (w : World)
      → Holds IsSlugged w
      → find? (has_plant_id id) w.working.plants ≡ some plant
      → Ended plant (update_plant env id changes w)
  unfolding update_plant get_plant
  update_plant-Ends plant w h found =
      rw (found, continue) (steps-Published plant w (started plant w h found))

-- If the plants have distinct identifiers, slugs and SKUs and the history names each slug once and
-- none that a plant has, in the committed database and in the session's view, the same holds after
-- `update_plant`, whatever it returns or raises.
pub update_plant-IsSlugged :
    (env : Env) (id : ℕ) (changes : PlantChanges) (w : World)
    → Holds IsSlugged w
    → Holds IsSlugged (update_plant env id changes w).1
update_plant-IsSlugged env id changes w h = go (find? (has_plant_id id) w.working.plants) refl
  where
    kept :
        (plant : Plant) (r : Result Plant × World)
        → Ends
            (Published plant.id (new_slug env id changes plant) (new_link env id changes plant))
            (Holds IsSlugged)
            r
        → Holds IsSlugged r.1
    kept plant (ok p, v) e = e.stage.holds
    kept plant (err x, v) e = e

    go :
        (o : Option Plant)
        → find? (has_plant_id id) w.working.plants ≡ o
        → Holds IsSlugged (update_plant env id changes w).1
    go none e = unfold update_plant in unfold get_plant in rw (e, continue) h
    go (some plant) e =
        kept plant (update_plant env id changes w) (update_plant-Ends env id changes plant w h e)

-- If the plants have distinct identifiers, slugs and SKUs and the history names each slug once and
-- none that a plant has, in the committed database and in the session's view, and the identifier
-- that is drawn is new, the same holds after `create_plant`, whatever it returns or raises.
pub create_plant-IsSlugged :
    (env : Env) (input : NewPlant) (w : World)
    → any (has_plant_id (env.uuid 0)) w.working.plants ≡ false
    → Holds IsSlugged w
    → Holds IsSlugged (create_plant env input w).1
unfolding create_plant get_category ensure_plant_slug_available ensure_sku_available
    release_historical_slug
create_plant-IsSlugged env input w fresh h =
    let E = Holds IsSlugged in
    let R = λ (p : Plant) (v : World). Holds IsSlugged v in
    Ends-world E (create_plant env input w) (
      Ends-found R E (find? (has_category_id input.category_id) w.working.categories)
        AppError.category_not_found (get_category input.category_id) _ w refl h
        (λ category found.
          Ends-check R E (any (takes_plant_slug input.slug none) w.working.plants)
            (AppError.plant_slug_taken input.slug) (ensure_plant_slug_available input.slug none) _ w
            refl h
            (λ free.
              Ends-check R E (any (takes_sku input.sku none) w.working.plants)
                (AppError.plant_sku_taken input.sku) (ensure_sku_available input.sku none) _ w refl
                h
                (λ free_sku.
                  let row = new_plant env input in
                  let k = env.uuid 0 in
                  let db = add_plant row (without_slug input.slug w.working) in
                  Ends-of (Published k input.slug none) R E
                    (publish_plant env k [] (record w { working = db })) (λ p v e. e.stage.holds)
                    (publish_plant-Published env k input.slug none [] (record w { working = db })
                      (record {
                        holds = (h.0, IsSlugged-add row w.working h.1 fresh free free_sku);
                        named = (
                          row,
                          find?-last (has_plant_id k) w.working.plants row fresh (==_refl k),
                          refl,
                        );
                        linked = tt;
                      }))))))
