-- ===== src/Admins/Standing.antt =====
-- An admin cannot lock itself out.
use green_garden_api.Prelude.{
  ℕ, ◌≡◌, Bool, true, false, ◌&&◌, Option, none, some, List, [], ◌∷◌, Text, ◌==◌, arith, any,
  update_where, Bool-cases, inl, inr, find?,
}
use green_garden_api.Core.Text.{CaseMap}
use green_garden_api.Core.Security.{Crypto}
use green_garden_api.Database.Models.{Admin, Db}
use green_garden_api.Database.Session.{World, Env, continue}
use green_garden_api.Database.Session.Invariants.{Holds, Keeps}
use green_garden_api.Auth.{has_admin_id, has_email, get_admin_by_email}
use green_garden_api.Admins.{
  change_name, change_email, changed_email, is_other, deactivates_self, change_active, update_admin,
}
use green_garden_api.Admins.Laws.{update_admin-Keeps}

abbrev pub is_active_account : ℕ → Admin → Bool
is_active_account c a = a.id == c && a.is_active

-- The account exists and is active.
abbrev pub IsStanding : ℕ → Db → Type 0
IsStanding c db = any (is_active_account c) db.admins ≡ true

any-update_where :
    (p q : Admin → Bool) (f : Admin → Admin) (rows : List Admin)
    → ((a : Admin) → q a ≡ true → p a ≡ true → p (f a) ≡ true)
    → any p rows ≡ true
    → any p (update_where q f rows) ≡ true
any-update_where p q f [] keep h = h
any-update_where p q f (a ∷ rows) keep h = ground (arith, keep a, any-update_where p q f rows keep)

module _ (cases : CaseMap) (crypto : Crypto) (env : Env) (c : ℕ) where
  change_name-IsStanding :
      (k : ℕ) (name : Option Text) → Keeps (IsStanding c) (change_name cases crypto env k name)
  change_name-IsStanding k none w h = h
  change_name-IsStanding k (some name) w h = (
    h.0,
    any-update_where (is_active_account c) (has_admin_id k) _ w.working.admins (λ a e u. u) h.1,
  )

  change_email-IsStanding :
      (k : ℕ) (s : Option Text) → Keeps (IsStanding c) (change_email cases crypto env k s)
  unfolding change_email get_admin_by_email
  change_email-IsStanding k none w h = h
  change_email-IsStanding k (some s) w h = elim (Bool-cases (is_other k (get_found s w))) [
    | inl taken ↦ rw (taken, continue) h
    | inr free ↦
        rw (free, continue)
          (
            h.0,
            any-update_where (is_active_account c) (has_admin_id k) _ w.working.admins (λ a e u. u)
                h.1,
          )
  ]
    where
      get_found : Text → World → Option Admin
      get_found s w =
          find? (has_email (green_garden_api.Core.Security.normalize_email cases s))
            w.working.admins

  still_active :
      (k : ℕ) (is_active : Bool) (a : Admin)
      → deactivates_self cases crypto env k is_active (some c) ≡ false
      → has_admin_id k a ≡ true
      → is_active_account c a ≡ true
      → is_active_account c (record a { is_active = is_active }) ≡ true
  still_active k true a other e u = ground (arith, u)
  still_active k false a other e u = ground (arith, u, e, other)

  change_active-IsStanding :
      (k : ℕ) (is_active : Option Bool)
      → Keeps (IsStanding c) (change_active cases crypto env k is_active (some c))
  unfolding change_active
  change_active-IsStanding k none w h = h
  change_active-IsStanding k (some is_active) w h =
      elim (Bool-cases (deactivates_self cases crypto env k is_active (some c))) [
        | inl self ↦ rw (self, continue) h
        | inr other ↦
            rw (other, continue)
              (
                h.0,
                any-update_where (is_active_account c) (has_admin_id k) _ w.working.admins
                    (λ a. still_active k is_active a other) h.1,
              )
      ]

-- If the account that makes the request exists and is active, in the committed database and in the
-- session's view, it still does after `update_admin`, whichever account it changes, whatever the
-- fields are, and whatever the call returns or raises.
pub update_admin-IsStanding :
    (cases : CaseMap) (crypto : Crypto) (env : Env) (id : ℕ) (name email : Option Text)
    (is_active : Option Bool) (current : ℕ) (w : World)
    → Holds (IsStanding current) w
    → Holds
        (IsStanding current)
        (update_admin cases crypto env id name email is_active (some current) w).1
update_admin-IsStanding cases crypto env id name email is_active current =
    update_admin-Keeps (IsStanding current) cases crypto env id name email is_active (some current)
      (λ k. change_name-IsStanding cases crypto env current k name)
      (λ a.
        change_email-IsStanding cases crypto env current a.id
          (changed_email cases crypto env a email))
      (λ k. change_active-IsStanding cases crypto env current k is_active)
