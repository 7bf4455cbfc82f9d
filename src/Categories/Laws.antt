-- ===== src/Categories/Laws.antt =====
-- No operation on categories leaves two of them with one slug.
use green_garden_api.Prelude.{
  ℕ, ◌≡◌, refl, false, Option, none, some, [], Text, any, Bool-cases, inl, inr,
}
use green_garden_api.Core.Errors.{AppError}
use green_garden_api.Database.Models.{Category, Db}
use green_garden_api.Database.Keys.{
  HasUniqueKeys, HasUniqueKeys-add, HasUniqueKeys-keep, HasUniqueKeys-set,
}
use green_garden_api.Database.Session.{
  World, Env, StorefrontEntity, modify, commit, atomically, notify_storefront, continue, ◌>>◌,
}
use green_garden_api.Database.Session.Invariants.{
  Holds, Keeps, Keeps-bind, Keeps-modify, Keeps-atomically, Keeps-commit, Keeps-notify,
  Keeps-guarded,
}
use green_garden_api.Categories.{
  has_category_id, takes_slug, set_category, add_category, ensure_slug_available, get_category,
  NewCategory, CategoryChanges, with_changes, changed_slug, new_category, publish, create_category,
  change_slug, update_category,
}

-- Categories have distinct identifiers and distinct slugs.
abbrev pub HasUniqueSlugs : Db → Type 0
HasUniqueSlugs db = HasUniqueKeys (λ (c : Category). c.id) (λ (c : Category). c.slug) db.categories

get_category-Keeps : (id : ℕ) → Keeps HasUniqueSlugs (get_category id)
unfolding get_category
get_category-Keeps id w h = h

publish-Keeps : (env : Env) (id : ℕ) → Keeps HasUniqueSlugs (publish env id)
unfolding publish
publish-Keeps env id =
    let told = notify_storefront env StorefrontEntity.categories [] in
    Keeps-bind HasUniqueSlugs (atomically (commit env)) (λ _. told >> get_category id)
      (Keeps-atomically HasUniqueSlugs (commit env) (Keeps-commit HasUniqueSlugs env))
      (λ _.
        Keeps-bind HasUniqueSlugs told (λ _. get_category id)
          (Keeps-notify HasUniqueSlugs env StorefrontEntity.categories [])
          (λ _. get_category-Keeps id))

change_slug-Keeps :
    (env : Env) (category : Category) (slug : Option Text)
    → Keeps HasUniqueSlugs (change_slug env category slug)
unfolding change_slug ensure_slug_available
change_slug-Keeps env category none w h = h
change_slug-Keeps env category (some slug) w h =
    Keeps-guarded HasUniqueSlugs (ensure_slug_available slug (some category.id))
      (λ db. any (takes_slug slug (some category.id)) db.categories)
      (AppError.category_slug_taken slug) _ w refl
      (λ free u.
        HasUniqueKeys-set (λ (c : Category). c.id) (λ (c : Category). c.slug)
          (λ (c : Category). record c { slug = slug }) (λ c. refl) slug (λ c. refl) category.id
          w.working.categories u free)
      h

-- A write to one row that leaves identifiers and slugs alone, and the end of the operation.
written-Keeps :
    (env : Env) (id : ℕ) (f : Category → Category)
    → ((c : Category) → (f c).id ≡ c.id)
    → ((c : Category) → (f c).slug ≡ c.slug)
    → Keeps HasUniqueSlugs (modify (set_category id f) >> publish env id)
written-Keeps env id f same_id same_slug =
    Keeps-bind HasUniqueSlugs (modify (set_category id f)) (λ _. publish env id)
      (Keeps-modify HasUniqueSlugs (set_category id f) (λ db.
        HasUniqueKeys-keep (λ (c : Category). c.id) (λ (c : Category). c.slug) f same_id same_slug
          id db.categories))
      (λ _. publish-Keeps env id)

-- If no two categories share an identifier or a slug, neither in the committed database nor in the
-- session's view, the same holds after `update_category`, whatever it returns or raises.
pub update_category-HasUniqueSlugs :
    (env : Env) (id : ℕ) (changes : CategoryChanges) (w : World)
    → Holds HasUniqueSlugs w
    → Holds HasUniqueSlugs (update_category env id changes w).1
unfolding update_category
update_category-HasUniqueSlugs env id changes =
    Keeps-bind HasUniqueSlugs (get_category id) _ (get_category-Keeps id) (λ c.
      Keeps-bind HasUniqueSlugs (change_slug env c (changed_slug changes.slug c)) _
        (change_slug-Keeps env c (changed_slug changes.slug c))
        (λ _. written-Keeps env c.id (with_changes changes) (λ d. refl) (λ d. refl)))

-- If no two categories share an identifier or a slug, neither in the committed database nor in the
-- session's view, and the identifier that is drawn is new, the same holds after `create_category`,
-- whatever it returns or raises.
pub create_category-HasUniqueSlugs :
    (env : Env) (input : NewCategory) (w : World)
    → any (has_category_id (env.uuid 0)) w.working.categories ≡ false
    → Holds HasUniqueSlugs w
    → Holds HasUniqueSlugs (create_category env input w).1
unfolding create_category ensure_slug_available
create_category-HasUniqueSlugs env input w fresh h =
    elim (Bool-cases (any (takes_slug input.slug none) w.working.categories)) [
      | inl taken ↦ rw (taken, continue) h
      | inr free ↦
          rw (free, continue)
            (publish-Keeps env (env.uuid 0)
              (record w { working = add_category (new_category env input) w.working })
              (
                h.0,
                HasUniqueKeys-add (λ (c : Category). c.id) (λ (c : Category). c.slug)
                    w.working.categories (new_category env input) h.1 fresh free,
              ))
    ]
