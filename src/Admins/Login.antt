-- ===== src/Admins/Login.antt =====
-- An account that was created can log in.
use green_garden_api.Prelude.{
  ℕ, ◌≡◌, refl, ap, sym, ◌∙◌, Bool, true, false, some, List, [], ◌∷◌, Text, text_eq_refl, ==_refl,
  any, find?, find?-last, Bool-cases, inl, inr,
}
use green_garden_api.Core.Errors.{AppError, Result, ok, err}
use green_garden_api.Core.Text.{CaseMap, strip, is_space}
use green_garden_api.Core.Security.{Crypto, normalize_email, validate_password_strength}
use green_garden_api.Database.Models.{Admin, Db}
use green_garden_api.Database.Session.{World, Env, commit, continue}
use green_garden_api.Orders.Histories.{session}
use green_garden_api.Auth.{
  has_admin_id, has_email, get_admin_by_email, get_admin_by_id, authenticate_admin,
}
use green_garden_api.Admins.{
  add_admin, get_admin, is_found, new_admin, commit_admin, create_admin_account,
}
use green_garden_api.Admins.Laws.{normalize_email_twice, normal-found}

absent-of-is_found :
    (p : Admin → Bool) (rows : List Admin) → is_found (find? p rows) ≡ false → any p rows ≡ false
absent-of-is_found p [] h = refl
absent-of-is_found p (a ∷ rows) h = elim (Bool-cases (p a)) [
  | inl yes' ↦ absurd (clash (rw yes' at h))
  | inr no' ↦ rw no' (absent-of-is_found p rows (rw no' at h))
]
  where
    clash : true ≡ false → ⊥
    clash k = cc

ok_of_err :
    {e : AppError} {a : Admin} {u v : World}
    → ◌≡◌ {A = Result Admin × World} (err e, u) (ok a, v)
    → ⊥
ok_of_err {e} {a} {u} {v} k = clash (ap (λ (r : Result Admin × World). r.0) k)
  where
    clash : Result.err e ≡ ok a → ⊥
    clash h = cc

eq_of_ok :
    {a b : Admin} {u v : World}
    → ◌≡◌ {A = Result Admin × World} (ok a, u) (ok b, v)
    → (a ≡ b) × (u ≡ v)
eq_of_ok {a} {b} {u} {v} k =
    (inner (ap (λ (r : Result Admin × World). r.0) k), ap (λ (r : Result Admin × World). r.1) k)
  where
    inner : Result.ok a ≡ ok b → a ≡ b
    inner h = cc

module _ (cases : CaseMap) (crypto : Crypto) (env : Env) where
  -- The steps after the check of the password, where both tests pass.
  created :
      (name email password : Text) (w : World) {admin : Admin} {v : World}
      → normalize_email cases (normalize_email cases email) ≡ normalize_email cases email
      → any (has_admin_id (env.uuid 0)) w.working.admins ≡ false
      → validate_password_strength crypto password ≡ ok tt
      → create_admin_account cases crypto env name email password w ≡ (ok admin, v)
      → (new_admin cases crypto env name (normalize_email cases email) password ≡ admin)
        × (add_admin
              (new_admin cases crypto env name (normalize_email cases email) password)
              w.working
            ≡ v.committed)
        × (any (has_email (normalize_email cases email)) w.working.admins ≡ false)
  unfolding create_admin_account commit_admin commit get_admin get_admin_by_id
  created name email password w {admin} {v} normal fresh strong returned =
      let n = normalize_email cases email in
      let row = new_admin cases crypto env name n password in
      let look = normal-found cases n w normal in
      elim (Bool-cases (is_found (find? (has_email n) w.working.admins))) [
        | inl taken ↦ absurd (ok_of_err (rw (strong, look, taken, continue) at returned))
        | inr free ↦ elim (Bool-cases (env.accepts (add_admin row w.working))) [
          | inr refused ↦
              absurd (ok_of_err (rw (strong, look, free, refused, continue) at returned))
          | inl accepted ↦
              let last =
                find?-last (has_admin_id (env.uuid 0)) w.working.admins row fresh
                  (==_refl (env.uuid 0)) in
              let (same, after) =
                eq_of_ok (rw (strong, look, free, accepted, last, continue) at returned) in
              (
                same,
                ap (λ (u : World). u.committed) after,
                absent-of-is_found (has_email n) w.working.admins free,
              )
        ]
      ]

strong-of-created :
    (cases : CaseMap) (crypto : Crypto) (env : Env) (name email password : Text) (w : World)
    {admin : Admin} {v : World}
    → create_admin_account cases crypto env name email password w ≡ (ok admin, v)
    → validate_password_strength crypto password ≡ ok tt
unfolding create_admin_account
strong-of-created cases crypto env name email password w {admin} {v} returned =
    go (validate_password_strength crypto password) refl
  where
    go :
        (r : Result (Unit {0}))
        → validate_password_strength crypto password ≡ r
        → validate_password_strength crypto password ≡ ok tt
    go (ok tt) e = e
    go (err x) e = absurd (ok_of_err (rw (e, continue) at returned))

authenticate_admin-found :
    (cases : CaseMap) (crypto : Crypto) (email password : Text) (db : Db) (admin : Admin)
    → find? (has_email (normalize_email cases email)) db.admins ≡ some admin
    → admin.is_active ≡ true
    → crypto.verify password admin.password_hash ≡ true
    → authenticate_admin cases crypto email password (session db) ≡ (ok admin, session db)
unfolding authenticate_admin get_admin_by_email
authenticate_admin-found cases crypto email password db admin found active verified =
    rw (found, continue, active, verified) refl

-- Suppose that `str.lower` is idempotent and neither makes nor drops white space, that Argon2
-- verifies a password against its own hash, and that the identifier that is drawn is new. If
-- `create_admin_account` returns an account, a later request that logs in with the address and the
-- password that it was given is answered with this account.
pub create_admin_account-authenticate_admin :
    (cases : CaseMap) (crypto : Crypto) (env : Env)
    → ((s : Text) → cases.lower (cases.lower s) ≡ cases.lower s)
    → ((s : Text) → strip is_space (cases.lower s) ≡ cases.lower (strip is_space s))
    → ((salt : ℕ) (password : Text) → crypto.verify password (crypto.hash salt password) ≡ true)
    → (name email password : Text) (w : World) {admin : Admin} {v : World}
    → any (has_admin_id (env.uuid 0)) w.working.admins ≡ false
    → create_admin_account cases crypto env name email password w ≡ (ok admin, v)
    → authenticate_admin cases crypto email password (session v.committed)
      ≡ (ok admin, session v.committed)
create_admin_account-authenticate_admin cases crypto env twice stripped verifies name email password
      w {admin} {v} fresh returned =
    let n = normalize_email cases email in
    let row = new_admin cases crypto env name n password in
    let strong = strong-of-created cases crypto env name email password w returned in
    let (same, after, free) =
      created cases crypto env name email password w
        (normalize_email_twice cases twice stripped email) fresh strong returned in
    let last = find?-last (has_email n) w.working.admins row free (text_eq_refl n) in
    authenticate_admin-found cases crypto email password v.committed admin
      (ap (λ (db : Db). find? (has_email n) db.admins) (sym after) ∙ last ∙ ap some same)
      (ap (λ (a : Admin). a.is_active) (sym same))
      (ap (λ (a : Admin). crypto.verify password a.password_hash) (sym same)
        ∙ verifies (env.uuid 1) password)
