-- ===== src/Database/Session/Rules.antt =====
-- Rules for chains of session operations: what a chain that returned has done, and what stays of
-- one that raised.
use green_garden_api.Prelude.{◌≡◌, refl, ◌∙◌, Option, List, Bool-cases, inl, inr, ap}
use green_garden_api.Core.Errors.{AppError, Result, ok, err}
use green_garden_api.Database.Models.{Db}
use green_garden_api.Prelude.{Text}
use green_garden_api.Database.Session.{
  StorefrontEntity, notify_storefront, World, Env, Action, pure, gets, lift, modify, atomically,
  settle, flush, commit, notify_storefront, continue, IsAtomic, ◌>>=◌, ◌>>◌,
}

-- Inversion of a chain that returned.
pub bind-eq-ok :
    {A B : Type 0} (step : Action A) (next : A → Action B) (w : World) {result : B} {last : World}
    → (step >>= next) w ≡ (ok result, last)
    → (value : A) × (middle : World) × (step w ≡ (ok value, middle))
      × (next value middle ≡ (ok result, last))
bind-eq-ok {A} {B} step next w {result} {last} returned = split (step w) refl
  where
    clash : {problem : AppError} → Result.err problem ≡ ok result → ⊥
    clash k = cc

    split :
        (outcome : Result A × World)
        → step w ≡ outcome
        → (value : A) × (middle : World) × (step w ≡ (ok value, middle))
          × (next value middle ≡ (ok result, last))
    split (err problem, middle) e =
        absurd (clash (ap (λ (r : Result B × World). r.0) (rw (e, continue) at returned)))
    split (ok value, middle) e = (value, middle, e, rw (e, continue) at returned)

-- An operation that touches only the session's view.
abbrev pub IsQuiet : {A : Type 0} → Action A → Type 0
IsQuiet m = (w : World) → ((m w).1.committed ≡ w.committed) × ((m w).1.outbox ≡ w.outbox)

-- One that leaves nothing behind if it raises.
abbrev pub LeavesNothing : {A : Type 0} → Action A → Type 0
LeavesNothing m = (w : World) → IsAtomic w (m w)

pub IsQuiet-bind :
    {A B : Type 0} (m : Action A) (f : A → Action B)
    → IsQuiet m
    → ((a : A) → IsQuiet (f a))
    → IsQuiet (m >>= f)
IsQuiet-bind {A} {B} m f hm hf w = go (m w) (hm w)
  where
    go :
        (r : Result A × World)
        → (r.1.committed ≡ w.committed) × (r.1.outbox ≡ w.outbox)
        → ((continue r f).1.committed ≡ w.committed) × ((continue r f).1.outbox ≡ w.outbox)
    go (ok a, v) h = ((hf a v).0 ∙ h.0, (hf a v).1 ∙ h.1)
    go (err e, v) h = h

pub LeavesNothing-bind :
    {A B : Type 0} (m : Action A) (f : A → Action B)
    → IsQuiet m
    → ((a : A) → LeavesNothing (f a))
    → LeavesNothing (m >>= f)
LeavesNothing-bind {A} {B} m f hm hf w = go (m w) (hm w)
  where
    join :
        (r : Result B × World) (v : World)
        → (v.committed ≡ w.committed) × (v.outbox ≡ w.outbox)
        → IsAtomic v r
        → IsAtomic w r
    join (ok b, u) v h k = tt
    join (err e, u) v h k = (k.0 ∙ h.0, k.1 ∙ h.1)

    go :
        (r : Result A × World)
        → (r.1.committed ≡ w.committed) × (r.1.outbox ≡ w.outbox)
        → IsAtomic w (continue r f)
    go (ok a, v) h = join (f a v) v h (hf a v)
    go (err e, v) h = h

pub IsQuiet-gets : {A : Type 0} (f : Db → A) → IsQuiet (gets f)
IsQuiet-gets f w = (refl, refl)

pub IsQuiet-lift : {A : Type 0} (r : Result A) → IsQuiet (lift r)
IsQuiet-lift r w = (refl, refl)

pub IsQuiet-modify : (f : Db → Db) → IsQuiet (modify f)
IsQuiet-modify f w = (refl, refl)

pub IsQuiet-flush : (env : Env) → IsQuiet (flush env)
unfolding flush
IsQuiet-flush env w = elim (Bool-cases (env.accepts w.working)) [
  | inl yes' ↦ rw yes' (refl, refl)
  | inr no' ↦ rw no' (refl, refl)
]

pub LeavesNothing-commit : (env : Env) → LeavesNothing (commit env)
unfolding commit
LeavesNothing-commit env w = elim (Bool-cases (env.accepts w.working)) [
  | inl yes' ↦ rw yes' tt
  | inr no' ↦ rw no' (refl, refl)
]

pub LeavesNothing-pure : {A : Type 0} (a : A) → LeavesNothing (pure a)
LeavesNothing-pure a w = tt

-- A commit, and a value: the last two steps of most operations.
pub LeavesNothing-commit-pure :
    {A : Type 0} (env : Env) (a : A) → LeavesNothing (commit env >> pure a)
unfolding commit
LeavesNothing-commit-pure env a w = elim (Bool-cases (env.accepts w.working)) [
  | inl taken ↦ rw (taken, continue) tt
  | inr refused ↦ rw (refused, continue) (refl, refl)
]

pub atomically-LeavesNothing :
    {A : Type 0} (m : Action A) → LeavesNothing m → LeavesNothing (atomically m)
atomically-LeavesNothing {A} m hm w = go (m w) (hm w)
  where
    go : (r : Result A × World) → IsAtomic w r → IsAtomic w (settle r)
    go (ok a, v) h = tt
    go (err e, v) h = h

pub IsAtomic-of-ok :
    {A : Type 0} (w : World) (r : Result A × World) {a : A} → r.0 ≡ ok a → IsAtomic w r
IsAtomic-of-ok w (ok a, v) h = tt
IsAtomic-of-ok w (err e, v) h = cc

pub atomically-eq-ok :
    {A : Type 0} (m : Action A) (w : World) {a : A} {v : World}
    → atomically m w ≡ (ok a, v)
    → m w ≡ (ok a, v)
atomically-eq-ok {A} m w {a} {v} h = go (m w) h
  where
    clash : {e : AppError} → Result.err e ≡ ok a → ⊥
    clash k = cc

    go : (r : Result A × World) → settle r ≡ (ok a, v) → r ≡ (ok a, v)
    go (ok b, u) e = e
    go (err x, u) e = absurd (clash (ap (λ (r : Result A × World). r.0) e))

-- A message leaves the databases alone.
pub notify_storefront-frame :
    (env : Env) (entity : StorefrontEntity) (slugs : List (Option Text)) (w : World)
    → ((notify_storefront env entity slugs w).1.working ≡ w.working)
      × ((notify_storefront env entity slugs w).1.committed ≡ w.committed)
unfolding notify_storefront
notify_storefront-frame env entity slugs w = elim (Bool-cases env.notify_on) [
  | inl enabled ↦ rw enabled (refl, refl)
  | inr disabled ↦ rw disabled (refl, refl)
]
