-- ===== src/Database/Session/Invariants.antt =====
-- Properties of the database that operations keep, both in what is committed and in the session's
-- view.
use green_garden_api.Prelude.{
  ◌≡◌, refl, Bool, false, Option, some, none, List, Text, Bool-cases, inl, inr,
}
use green_garden_api.Core.Errors.{AppError, Result, ok, err, raise_if, or_raise}
use green_garden_api.Database.Models.{Db}
use green_garden_api.Database.Session.{
  World, Env, Action, StorefrontEntity, modify, continue, settle, atomically, commit,
  notify_storefront, ◌>>=◌, ◌>>◌,
}

module _ (P : Db → Type 0) where
  abbrev pub Holds : World → Type 0
  Holds w = P w.committed × P w.working

  abbrev pub Keeps : {A : Type 0} → Action A → Type 0
  Keeps m = (w : World) → Holds w → Holds (m w).1

  pub Keeps-bind :
      {A B : Type 0} (m : Action A) (f : A → Action B)
      → Keeps m
      → ((a : A) → Keeps (f a))
      → Keeps (m >>= f)
  Keeps-bind {A} {B} m f first later w h = go (m w) (first w h)
    where
      go : (r : Result A × World) → Holds r.1 → Holds (continue r f).1
      go (ok a, v) k = later a v k
      go (err e, v) k = k

  pub Keeps-modify : (f : Db → Db) → ((db : Db) → P db → P (f db)) → Keeps (modify f)
  Keeps-modify f keep w h = (h.0, keep w.working h.1)

  pub Keeps-atomically : {A : Type 0} (m : Action A) → Keeps m → Keeps (atomically m)
  Keeps-atomically {A} m first w h = go (m w) (first w h)
    where
      go : (r : Result A × World) → Holds r.1 → Holds (settle r).1
      go (ok a, v) k = k
      go (err e, v) k = (k.0, k.0)

  pub Keeps-commit : (env : Env) → Keeps (commit env)
  unfolding commit
  Keeps-commit env w h = elim (Bool-cases (env.accepts w.working)) [
    | inl taken ↦ rw taken (h.1, h.1)
    | inr refused ↦ rw refused h
  ]

  pub Keeps-notify :
      (env : Env) (entity : StorefrontEntity) (slugs : List (Option Text))
      → Keeps (notify_storefront env entity slugs)
  unfolding notify_storefront
  Keeps-notify env entity slugs w h = elim (Bool-cases env.notify_on) [
    | inl enabled ↦ rw enabled h
    | inr disabled ↦ rw disabled h
  ]

  -- A write behind a check of the session's view.
  pub Keeps-guarded :
      (check : Action (Unit {0})) (test : Db → Bool) (e : AppError) (f : Db → Db) (w : World)
      → check w ≡ (raise_if (test w.working) e, w)
      → (test w.working ≡ false → P w.working → P (f w.working))
      → Holds w
      → Holds ((check >> modify f) w).1
  Keeps-guarded check test e f w same keep h = elim (Bool-cases (test w.working)) [
    | inl failed ↦ rw (same, failed, continue) h
    | inr passed ↦ rw (same, passed, continue) (h.0, keep passed h.1)
  ]

-- What a chain leaves behind: `Q` of the value and the session if it returned, `E` if it raised.
abbrev pub Ends : {A : Type 0} → (A → World → Type 0) → (World → Type 0) → Result A × World → Type 0
Ends Q E (ok a, w) = Q a w
Ends Q E (err e, w) = E w

pub Ends-bind :
    {A B : Type 0} (Q : A → World → Type 0) (R : B → World → Type 0) (E : World → Type 0)
    (m : Action A) (f : A → Action B) (w : World)
    → Ends Q E (m w)
    → ((a : A) (v : World) → Q a v → Ends R E (f a v))
    → Ends R E ((m >>= f) w)
Ends-bind {A} {B} Q R E m f w first later = go (m w) first
  where
    go : (r : Result A × World) → Ends Q E r → Ends R E (continue r f)
    go (ok a, v) k = later a v k
    go (err e, v) k = k

pub Ends-world :
    {A : Type 0} (P : World → Type 0) (r : Result A × World) → Ends (λ _. P) P r → P r.1
Ends-world P (ok a, w) h = h
Ends-world P (err e, w) h = h

pub Ends-of :
    {A : Type 0} (Q R : A → World → Type 0) (E : World → Type 0) (r : Result A × World)
    → ((a : A) (w : World) → Q a w → R a w)
    → Ends Q E r
    → Ends R E r
Ends-of Q R E (ok a, w) f h = f a w h
Ends-of Q R E (err e, w) f h = h

-- A check of the session's view.
pub Ends-check :
    {B : Type 0} (R : B → World → Type 0) (E : World → Type 0) (test : Bool) (e : AppError)
    (check : Action (Unit {0})) (f : Unit {0} → Action B) (w : World)
    → check w ≡ (raise_if test e, w)
    → E w
    → (test ≡ false → Ends R E (f tt w))
    → Ends R E ((check >>= f) w)
Ends-check R E test e check f w same failed passed = elim (Bool-cases test) [
  | inl bad ↦ rw (same, bad, continue) failed
  | inr good ↦ rw (same, good, continue) (passed good)
]

-- A row that the session's view must hold.
pub Ends-found :
    {A B : Type 0} (R : B → World → Type 0) (E : World → Type 0) (found : Option A) (e : AppError)
    (get : Action A) (f : A → Action B) (w : World)
    → get w ≡ (or_raise found e, w)
    → E w
    → ((a : A) → found ≡ some a → Ends R E (f a w))
    → Ends R E ((get >>= f) w)
Ends-found R E none e get f w same failed passed = rw (same, continue) failed
Ends-found R E (some a) e get f w same failed passed = rw (same, continue) (passed a refl)
