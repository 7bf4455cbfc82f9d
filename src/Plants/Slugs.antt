-- ===== src/Plants/Slugs.antt =====
-- Slugs, SKUs and the history of slugs: what every operation on plants keeps.
use green_garden_api.Prelude.{
  ℕ, ◌≡◌, refl, ◌∙◌, false, not, none, some, List, [], ◌∷◌, ◌++◌, Text, text_eq, text_eq_iff, ◌==◌,
  arith, any, find?, select, update_where, All, Bool-cases, inl, inr, eq_of_some, All-append,
}
use green_garden_api.Database.Models.{Plant, PlantSlugHistory, Db}
use green_garden_api.Database.Keys.{
  HasUniqueKeys, HasUniqueKeys-add, HasUniqueKeys-keep, HasUniqueKeys-set, any-new-key,
  any-same-key, any-last, any-old-key, any-other_has_key,
}
use green_garden_api.Orders.Pricing.{has_plant_id}
use green_garden_api.Plants.{
  takes_plant_slug, takes_sku, has_history_slug, set_plant, add_plant, add_history, without_slug,
}

abbrev pub plant_id : Plant → ℕ
plant_id p = p.id

abbrev pub plant_slug : Plant → Text
plant_slug p = p.slug

abbrev pub plant_sku : Plant → Text
plant_sku p = p.sku

-- No slug stands in the history twice.
abbrev pub HasUniqueHistory : List PlantSlugHistory → Type 0
HasUniqueHistory [] = Unit
HasUniqueHistory (h ∷ history) =
    (any (has_history_slug h.slug) history ≡ false) × HasUniqueHistory history

-- A slug of the history is no plant's slug.
abbrev pub IsRetired : List Plant → PlantSlugHistory → Type 0
IsRetired plants h = any (takes_plant_slug h.slug none) plants ≡ false

-- Plants have distinct identifiers, slugs and SKUs; the history names a slug once, and none that a
-- plant has now.
pub record IsSlugged (db : Db) : Type 0 where
  pub slugs : HasUniqueKeys plant_id plant_slug db.plants
  pub skus : HasUniqueKeys plant_id plant_sku db.plants
  pub history : HasUniqueHistory db.slug_history
  pub retired : All (IsRetired db.plants) db.slug_history

any-select :
    (s t : Text) (history : List PlantSlugHistory)
    → any (has_history_slug t) history ≡ false
    → any (has_history_slug t) (select (λ h. not (has_history_slug s h)) history) ≡ false
any-select s t [] e = refl
any-select s t (h ∷ history) e = ground (arith, any-select s t history)

select-HasUniqueHistory :
    (s : Text) (history : List PlantSlugHistory)
    → HasUniqueHistory history
    → HasUniqueHistory (select (λ h. not (has_history_slug s h)) history)
select-HasUniqueHistory s [] u = tt
select-HasUniqueHistory s (h ∷ history) u = elim (Bool-cases (text_eq h.slug s)) [
  | inl same ↦ rw same (select-HasUniqueHistory s history u.1)
  | inr other ↦ rw other (any-select s h.slug history u.0, select-HasUniqueHistory s history u.1)
]

append-HasUniqueHistory :
    (history : List PlantSlugHistory) (entry : PlantSlugHistory)
    → HasUniqueHistory history
    → any (has_history_slug entry.slug) history ≡ false
    → HasUniqueHistory (history ++ entry ∷ [])
append-HasUniqueHistory [] entry u e = (refl, tt)
append-HasUniqueHistory (h ∷ history) entry u e = (
  last h history u.0 (ground (arith, text_eq_iff h.slug entry.slug, text_eq_iff entry.slug h.slug)),
  append-HasUniqueHistory history entry u.1 (ground arith),
)
  where
    last :
        (h : PlantSlugHistory) (history : List PlantSlugHistory)
        → any (has_history_slug h.slug) history ≡ false
        → text_eq entry.slug h.slug ≡ false
        → any (has_history_slug h.slug) (history ++ entry ∷ []) ≡ false
    last h [] e k = ground arith
    last h (g ∷ history) e k = ground (arith, last h history)

-- What is left of the history after a release is retired also from plants that only gained the slug.
select-IsRetired :
    (s : Text) (old new : List Plant) (history : List PlantSlugHistory)
    → ((t : Text)
        → text_eq s t ≡ false
        → any (takes_plant_slug t none) old ≡ false
        → any (takes_plant_slug t none) new ≡ false)
    → All (IsRetired old) history
    → All (IsRetired new) (select (λ h. not (has_history_slug s h)) history)
select-IsRetired s old new [] keep a = tt
select-IsRetired s old new (h ∷ history) keep a = elim (Bool-cases (text_eq h.slug s)) [
  | inl same ↦ rw same (select-IsRetired s old new history keep a.1)
  | inr other ↦ rw other (
    keep h.slug (ground (arith, text_eq_iff h.slug s, text_eq_iff s h.slug)) a.0,
    select-IsRetired s old new history keep a.1,
  )
]

-- A slug that some plant has is not in the history.
pub not-retired :
    (k : ℕ) (plants : List Plant) (history : List PlantSlugHistory) {q : Plant}
    → find? (has_plant_id k) plants ≡ some q
    → All (IsRetired plants) history
    → any (has_history_slug q.slug) history ≡ false
not-retired k plants [] {q} e a = refl
not-retired k plants (h ∷ history) {q} e a =
    let here : text_eq h.slug q.slug ≡ false = apart plants e a.0 in
    rw here (not-retired k plants history {q = q} e a.1)
  where
    apart :
        (rows : List Plant)
        → find? (has_plant_id k) rows ≡ some q
        → any (takes_plant_slug h.slug none) rows ≡ false
        → text_eq h.slug q.slug ≡ false
    apart [] e b = cc
    apart (p ∷ rows) e b = elim (Bool-cases (p.id == k)) [
      | inl here ↦
          let same : p ≡ q = eq_of_some (rw here at e) in
          let other : text_eq p.slug h.slug ≡ false = ground arith in
          rw (← same) (ground (arith, text_eq_iff h.slug p.slug, text_eq_iff p.slug h.slug))
      | inr later ↦ apart rows (rw later at e) (ground arith)
    ]

-- An update that leaves identifiers, slugs and SKUs alone.
pub IsSlugged-keep :
    (f : Plant → Plant)
    → ((p : Plant) → (f p).id ≡ p.id)
    → ((p : Plant) → (f p).slug ≡ p.slug)
    → ((p : Plant) → (f p).sku ≡ p.sku)
    → (k : ℕ) (db : Db) → IsSlugged db
    → IsSlugged (set_plant k f db)
IsSlugged-keep f same_id same_slug same_sku k db h = record {
  slugs = HasUniqueKeys-keep plant_id plant_slug f same_id same_slug k db.plants h.slugs;
  skus = HasUniqueKeys-keep plant_id plant_sku f same_id same_sku k db.plants h.skus;
  history = h.history;
  retired = kept db.slug_history h.retired;
}
  where
    kept :
        (history : List PlantSlugHistory)
        → All (IsRetired db.plants) history
        → All (IsRetired (update_where (has_plant_id k) f db.plants)) history
    kept [] a = tt
    kept (h ∷ history) a = (
      any-same-key plant_id plant_slug f same_id same_slug h.slug k db.plants ∙ a.0,
      kept history a.1,
    )

-- A SKU that no other plant has is written.
pub IsSlugged-sku :
    (s : Text) (k : ℕ) (db : Db)
    → IsSlugged db
    → any (takes_sku s (some k)) db.plants ≡ false
    → IsSlugged (set_plant k (λ p. record p { sku = s }) db)
IsSlugged-sku s k db h free =
    let f = λ (p : Plant). record p { sku = s } in
    record {
      slugs = HasUniqueKeys-keep plant_id plant_slug f (λ p. refl) (λ p. refl) k db.plants h.slugs;
      skus =
          HasUniqueKeys-set plant_id plant_sku f (λ p. refl) s (λ p. refl) k db.plants h.skus free;
      history = h.history;
      retired = kept db.slug_history h.retired;
    }
  where
    kept :
        (history : List PlantSlugHistory)
        → All (IsRetired db.plants) history
        → All
            (IsRetired (update_where (has_plant_id k) (λ p. record p { sku = s }) db.plants))
            history
    kept [] a = tt
    kept (h ∷ history) a = (
      any-same-key plant_id plant_slug (λ p. record p { sku = s }) (λ p. refl) (λ p. refl) h.slug k
            db.plants
          ∙ a.0,
      kept history a.1,
    )

-- The database after a slug has changed from `old` to `s`.
abbrev pub renamed_db : Text → Text → ℕ → Db → Db
renamed_db old s k db =
    set_plant k (λ p. record p { slug = s })
      (add_history (record { plant_id = k; slug = old }) (without_slug s db))

-- A slug that no other plant has is written; the old one is retired.
pub IsSlugged-rename :
    (s : Text) (k : ℕ) (db : Db) {q : Plant}
    → IsSlugged db
    → find? (has_plant_id k) db.plants ≡ some q
    → text_eq s q.slug ≡ false
    → any (takes_plant_slug s (some k)) db.plants ≡ false
    → IsSlugged (renamed_db q.slug s k db)
IsSlugged-rename s k db {q} h found differ free =
    let f = λ (p : Plant). record p { slug = s } in
    let plants = update_where (has_plant_id k) f db.plants in
    let left = select (λ e. not (has_history_slug s e)) db.slug_history in
    let entry : PlantSlugHistory = record { plant_id = k; slug = q.slug } in
    record {
      slugs =
          HasUniqueKeys-set plant_id plant_slug f (λ p. refl) s (λ p. refl) k db.plants h.slugs
            free;
      skus = HasUniqueKeys-keep plant_id plant_sku f (λ p. refl) (λ p. refl) k db.plants h.skus;
      history =
          append-HasUniqueHistory left entry (select-HasUniqueHistory s db.slug_history h.history) (
            any-select s q.slug db.slug_history
              (not-retired k db.plants db.slug_history found h.retired));
      retired =
          All-append (IsRetired plants) left (entry ∷ [])
            (select-IsRetired s db.plants plants db.slug_history
              (λ t apart.
                any-new-key plant_id plant_slug f (λ p. refl) s (λ p. refl) t k db.plants apart)
              h.retired)
            (
              any-old-key plant_id plant_slug f (λ p. refl) s (λ p. refl) q.slug k db.plants differ
                  (any-other_has_key plant_id plant_slug k db.plants h.slugs found),
              tt,
            );
    }

-- A plant is added under a slug and a SKU that no plant has.
pub IsSlugged-add :
    (p : Plant) (db : Db)
    → IsSlugged db
    → any (has_plant_id p.id) db.plants ≡ false
    → any (takes_plant_slug p.slug none) db.plants ≡ false
    → any (takes_sku p.sku none) db.plants ≡ false
    → IsSlugged (add_plant p (without_slug p.slug db))
IsSlugged-add p db h fresh free free_sku = record {
  slugs = HasUniqueKeys-add plant_id plant_slug db.plants p h.slugs fresh free;
  skus = HasUniqueKeys-add plant_id plant_sku db.plants p h.skus fresh free_sku;
  history = select-HasUniqueHistory p.slug db.slug_history h.history;
  retired =
      select-IsRetired p.slug db.plants (db.plants ++ p ∷ []) db.slug_history
        (λ t apart other.
          any-last plant_id plant_slug (takes_plant_slug t none) db.plants p other apart)
        h.retired;
}
