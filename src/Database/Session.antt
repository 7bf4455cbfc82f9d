-- ===== src/Database/Session.antt =====
-- A request's session: the committed database, the session's own view of it, and what was sent to
-- the storefront. An operation is a function of this state that returns or raises; what it wrote
-- before it raised stays in the view until a rollback.
pub mod Rules
pub mod Invariants
use green_garden_api.Prelude.{
  ℕ, ◌≡◌, refl, Bool, true, false, Option, none, some, List, [], ◌∷◌, ◌++◌, Text, if◌then◌else◌,
}
use green_garden_api.Core.Errors.{AppError, Result, ok, err}
use green_garden_api.Database.Models.{Db}

-- `StorefrontEntity` of app/shared/storefront_notify.py
pub data StorefrontEntity : Type 0 where
  plants categories reviews shipping_policy : StorefrontEntity

pub record Notice : Type 0 where
  pub entity : StorefrontEntity
  pub slugs : List (Option Text)

pub record World : Type 0 where
  pub committed : Db
  pub working : Db
  pub outbox : List Notice

-- What the environment decides in one request: whether the database accepts a flush or a commit of
-- a view, the clock, the date as `%Y%m%d`, the identifiers that `uuid4` draws, and whether the
-- storefront's URL and secret are set.
pub record Env : Type 0 where
  pub accepts : Db → Bool
  pub now : ℕ
  pub today : Text
  pub uuid : ℕ → ℕ
  pub notify_on : Bool

abbrev pub Action : Type 0 → Type 0
Action A = World → Result A × World

module _ {A : Type 0} where
  abbrev pub pure : A → Action A
  pure a w = (ok a, w)

  abbrev pub raise : AppError → Action A
  raise e w = (err e, w)

  abbrev pub gets : (Db → A) → Action A
  gets f w = (ok (f w.working), w)

  abbrev pub lift : Result A → Action A
  lift r w = (r, w)

module _ {A B : Type 0} where
  abbrev pub continue : Result A × World → (A → Action B) → Result B × World
  continue (ok a, w) f = f a w
  continue (err e, w) f = (err e, w)

infixl 5 ◌>>=◌ ◌>>◌
abbrev pub ◌>>=◌ : {A B : Type 0} → Action A → (A → Action B) → Action B
◌>>=◌ m f w = continue (m w) f

abbrev pub ◌>>◌ : {A B : Type 0} → Action A → Action B → Action B
m >> k = m >>= λ _. k

-- A write to the session's view.
abbrev pub modify : (Db → Db) → Action (Unit {0})
modify f w = (ok tt, record w { working = f w.working })

-- `await session.rollback()`
abbrev pub rollback : World → World
rollback w = record w { working = w.committed }

abbrev pub settle : {A : Type 0} → Result A × World → Result A × World
settle (ok a, w) = (ok a, w)
settle (err e, w) = (err e, rollback w)

-- `try: … except Exception: await session.rollback(); raise`
abbrev pub atomically : {A : Type 0} → Action A → Action A
atomically m w = settle (m w)

module _ (env : Env) where
  -- `await session.flush()`: the pending writes are sent.
  unfoldable pub flush : Action (Unit {0})
  flush w = if env.accepts w.working then (ok tt, w) else (err AppError.database_error, w)

  -- `await session.commit()`
  unfoldable pub commit : Action (Unit {0})
  commit w =
      if env.accepts w.working
      then (ok tt, record w { committed = w.working })
      else (err AppError.database_error, w)

  -- `notify_storefront`: one background message, if the storefront is configured.
  unfoldable pub notify_storefront : StorefrontEntity → List (Option Text) → Action (Unit {0})
  notify_storefront entity slugs w =
      let notice : Notice = record { entity = entity; slugs = slugs } in
      (ok tt, if env.notify_on then record w { outbox = w.outbox ++ notice ∷ [] } else w)

-- A new session sees what is committed.
abbrev pub IsFresh : World → Type 0
IsFresh w = w.working ≡ w.committed

-- An operation that raised has written nothing that stays: the committed database and the messages
-- are as before.
abbrev pub IsAtomic : {A : Type 0} → World → Result A × World → Type 0
IsAtomic w (ok a, w') = Unit
IsAtomic w (err e, w') = (w'.committed ≡ w.committed) × (w'.outbox ≡ w.outbox)
