-- ===== src/Listing.antt =====
-- The listings of the services: rows that pass the filters, in the order of `ORDER BY`, of which
-- `OFFSET` and `LIMIT` cut one page, with the number of all of them. `ILIKE` and the collation of
-- texts are the database's, and are parameters.
pub mod Laws
use green_garden_api.Prelude.{
  ℕ, ◌+◌, ◌-◌, ◌*◌, Bool, true, false, not, ◌&&◌, ◌||◌, Option, none, some, List, [], ◌∷◌, ◌++◌,
  Text, codes, is_nonempty, ltb, leb, if◌then◌else◌, select, take, drop, length,
}
use green_garden_api.Core.Text.{strip, is_space}

-- PostgreSQL's `text ILIKE pattern` and `text < text`.
pub record Sql : Type 0 where
  pub ilike : Text → Text → Bool
  pub collate : Text → Text → Bool

module _ {A : Type 0} where
  insert_row : (A → A → Bool) → A → List A → List A
  insert_row precedes a [] = a ∷ []
  insert_row precedes a (b ∷ rows) =
      let later = b ∷ insert_row precedes a rows in if precedes a b then a ∷ b ∷ rows else later

  -- `ORDER BY`
  unfoldable pub order_by : (A → A → Bool) → List A → List A
  unfolding insert_row
  order_by precedes [] = []
  order_by precedes (a ∷ rows) = insert_row precedes a (order_by precedes rows)

  -- `.offset((page - 1) * page_size).limit(page_size)`
  unfoldable pub paginate : ℕ → ℕ → List A → List A
  paginate page page_size rows = take page_size (drop ((page - 1) * page_size) rows)

  unfoldable pub list_page : (A → A → Bool) → (A → Bool) → ℕ → ℕ → List A → List A × ℕ
  unfolding paginate order_by
  list_page precedes keep page page_size rows =
      (paginate page page_size (order_by precedes (select keep rows)), length (select keep rows))

  -- `created_at DESC, id`
  abbrev pub newest_first : (A → ℕ) → (A → ℕ) → A → A → Bool
  newest_first created_at id a b =
      ltb (created_at b) (created_at a)
      || (not (ltb (created_at a) (created_at b)) && leb (id a) (id b))

-- `if value is not None: stmt = stmt.where(…)`
abbrev pub if_given : {A B : Type 0} → Option A → (A → B → Bool) → B → Bool
if_given none test row = true
if_given (some value) test row = test value row

-- `column.ilike(pattern)`; a NULL matches nothing.
abbrev pub ilike_opt : Sql → Option Text → Text → Bool
ilike_opt sql none pattern = false
ilike_opt sql (some text) pattern = sql.ilike text pattern

-- `f"%{search.strip()}%"`
unfoldable pub search_pattern : Text → Text
unfolding strip is_space
search_pattern search = codes "%" ++ (strip is_space search ++ codes "%")

-- `if search: …`
abbrev pub if_searched : {B : Type 0} → Option Text → (Text → B → Bool) → B → Bool
if_searched none test row = true
if_searched (some search) test row =
    if is_nonempty search then test (search_pattern search) row else true

-- `if flag is not None: stmt.where(column.is_(flag))`
abbrev pub same_flag : Bool → Bool → Bool
same_flag true b = b
same_flag false b = not b
