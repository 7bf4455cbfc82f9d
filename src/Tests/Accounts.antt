-- ===== src/Tests/Accounts.antt =====
-- Accounts and tokens, with a signature that is the text of the claims and a hash that is the
-- password.
use green_garden_api.Prelude.{
  ◌≡◌, ◌∙◌, refl, ap, ℕ, zero, suc, false, not, ◌&&◌, Option, none, some, Text, codes, text_eq,
  text_eq_refl, [], ◌∷◌, ◌++◌, length, take, drop, take-append, drop-append, leb, ltb, is_nonempty,
  if◌then◌else◌, arith, Bool-cases, inl, inr, find?,
}
use green_garden_api.Core.Errors.{AppError, ok, err}
use green_garden_api.Core.Text.{ascii_lower, lstrip, rstrip, strip, is_space}
use green_garden_api.Core.Security.{TokenType, Claims, Crypto, TokenSettings, create_token}
use green_garden_api.Database.Models.{Admin}
use green_garden_api.Database.Session.{World}
use green_garden_api.Database.Session.Invariants.{Holds}
use green_garden_api.Orders.Histories.{session}
use green_garden_api.Auth.{resolve_admin_from_token, authenticate_admin, active_or, has_admin_id}
use green_garden_api.Auth.Laws.{resolve_admin_from_token-create_token, is_accepted}
use green_garden_api.Admins.{create_admin_account, update_admin, new_admin}
use green_garden_api.Admins.Laws.{HasUniqueEmails, update_admin-HasUniqueEmails}
use green_garden_api.Admins.Standing.{IsStanding, update_admin-IsStanding}
use green_garden_api.Admins.Login.{create_admin_account-authenticate_admin}
use green_garden_api.Tests.Shop.{shop, env_at, ascii}

abbrev written : Option Text → Text → Text
written none rest = 0 ∷ rest
written (some t) rest = suc (length t) ∷ (t ++ rest)

abbrev read : Text → Option Text × Text
read [] = (none, [])
read (zero ∷ rest) = (none, rest)
read (suc n ∷ rest) = (some (take n rest), drop n rest)

read-written : (o : Option Text) (rest : Text) → read (written o rest) ≡ (o, rest)
read-written none rest = refl
read-written (some t) rest = rw (take-append t rest, drop-append t rest) refl

abbrev signed : Claims → Text
signed c = c.iat ∷ c.exp ∷ written c.sub (written c.type c.jti)

abbrev claims_of : ℕ → ℕ → Text → Claims
claims_of iat exp rest = record {
  sub = (read rest).0;
  type = (read (read rest).1).0;
  iat = iat;
  exp = exp;
  jti = (read (read rest).1).1;
}

abbrev opened : ℕ → Text → Option Claims
opened now [] = none
opened now (iat ∷ []) = none
opened now (iat ∷ exp ∷ rest) =
    if leb iat now && ltb now exp then some (claims_of iat exp rest) else none

abbrev id_of : Text → Option ℕ
id_of [] = none
id_of (id ∷ rest) = some id

abbrev plain : Crypto
plain = record {
  hash = λ salt password. password;
  verify = text_eq;
  encode = λ claims key. signed claims;
  decode = λ now token key. opened now token;
  uuid_text = λ id. id ∷ [];
  parse_uuid = id_of;
  is_alpha = λ c. leb 97 c;
  is_digit = λ c. leb c 57;
}

claims_of-signed : (c : Claims) → claims_of c.iat c.exp (written c.sub (written c.type c.jti)) ≡ c
claims_of-signed c = rw (read-written c.sub (written c.type c.jti), read-written c.type c.jti) refl

plain-decodes :
    (claims : Claims) (key : Text) (now : ℕ)
    → plain.decode now (plain.encode claims key) key
      ≡ (if leb claims.iat now && ltb now claims.exp then some claims else none)
plain-decodes claims key now =
    ap (λ (c : Claims). if leb claims.iat now && ltb now claims.exp then some c else none)
      (claims_of-signed claims)

ascii_lower_twice : (c : ℕ) → ascii_lower (ascii_lower c) ≡ ascii_lower c
unfolding ascii_lower
ascii_lower_twice c = ground arith

lower_twice : (s : Text) → ascii.lower (ascii.lower s) ≡ ascii.lower s
lower_twice [] = refl
lower_twice (c ∷ s) = rw (ascii_lower_twice c, lower_twice s) refl

is_space-ascii_lower : (c : ℕ) → is_space (ascii_lower c) ≡ is_space c
unfolding is_space ascii_lower
is_space-ascii_lower c = ground arith

lower-lstrip : (s : Text) → lstrip is_space (ascii.lower s) ≡ ascii.lower (lstrip is_space s)
unfolding lstrip
lower-lstrip [] = refl
lower-lstrip (c ∷ s) = elim (Bool-cases (is_space c)) [
  | inl yes' ↦ rw (is_space-ascii_lower c, yes') (lower-lstrip s)
  | inr no' ↦ rw (is_space-ascii_lower c, no') refl
]

is_nonempty-lower : (s : Text) → is_nonempty (ascii.lower s) ≡ is_nonempty s
is_nonempty-lower [] = refl
is_nonempty-lower (c ∷ s) = refl

lower-rstrip : (s : Text) → rstrip is_space (ascii.lower s) ≡ ascii.lower (rstrip is_space s)
unfolding rstrip
lower-rstrip [] = refl
lower-rstrip (c ∷ s) = elim (Bool-cases (is_space c && not (is_nonempty (rstrip is_space s)))) [
  | inl yes' ↦
      rw (is_space-ascii_lower c, lower-rstrip s, is_nonempty-lower (rstrip is_space s), yes') refl
  | inr no' ↦
      rw (is_space-ascii_lower c, lower-rstrip s, is_nonempty-lower (rstrip is_space s), no') refl
]

lower-strip : (s : Text) → strip is_space (ascii.lower s) ≡ ascii.lower (strip is_space s)
unfolding strip
lower-strip s =
    ap (λ (t : Text). rstrip is_space t) (lower-lstrip s) ∙ lower-rstrip (lstrip is_space s)

abbrev cfg : TokenSettings
cfg = record {
  jwt_secret_key = codes "k";
  access_token_expire_minutes = 30;
  refresh_token_expire_days = 7;
}

abbrev boss : Admin
boss = new_admin ascii plain (env_at 5) (codes "An") (codes "a@b.vn") (codes "secret12")

abbrev office : World
office = session (record shop { admins = boss ∷ [] })

resolve_admin_from_token-create_token_example :
    resolve_admin_from_token ascii plain cfg 100
      (create_token plain cfg 60 (codes "j") 5 TokenType.access)
      TokenType.access
      office
    ≡ (
      (if is_accepted cfg 60 TokenType.access 100 TokenType.access
          then active_or (find? (has_admin_id 5) office.working.admins) AppError.invalid_token
          else err AppError.invalid_token),
      office,
    )
resolve_admin_from_token-create_token_example =
    resolve_admin_from_token-create_token ascii plain cfg plain-decodes (λ id. refl) (λ id. refl) 5
      60 100 (codes "j") TokenType.access TokenType.access office

update_admin-HasUniqueEmails_example :
    Holds HasUniqueEmails
      (update_admin ascii plain (env_at 90) 5 none (some (codes " C@b.vn")) none (some 5) office).1
update_admin-HasUniqueEmails_example =
    update_admin-HasUniqueEmails ascii plain (env_at 90) lower_twice lower-strip 5 none
      (some (codes " C@b.vn")) none (some 5) office ((refl, refl, tt), (refl, refl, tt))

update_admin-IsStanding_example :
    Holds
      (IsStanding 5)
      (update_admin ascii plain (env_at 90) 5 none none (some false) (some 5) office).1
update_admin-IsStanding_example =
    update_admin-IsStanding ascii plain (env_at 90) 5 none none (some false) 5 office (refl, refl)

abbrev hired : World
hired =
    (create_admin_account ascii plain (env_at 90) (codes "Bo") (codes "B@b.vn ") (codes "secret34")
      office).1

create_admin_account-authenticate_admin_example :
    authenticate_admin ascii plain (codes "B@b.vn ") (codes "secret34") (session hired.committed)
    ≡ (
      ok (new_admin ascii plain (env_at 90) (codes "Bo") (codes "b@b.vn") (codes "secret34")),
      session hired.committed,
    )
unfolding create_admin_account green_garden_api.Core.Security.validate_password_strength
    green_garden_api.Auth.get_admin_by_email text_eq green_garden_api.Core.Security.normalize_email
    is_space ascii_lower green_garden_api.Admins.commit_admin
    green_garden_api.Database.Session.commit green_garden_api.Admins.get_admin
    green_garden_api.Auth.get_admin_by_id
create_admin_account-authenticate_admin_example =
    create_admin_account-authenticate_admin ascii plain (env_at 90) lower_twice lower-strip
      (λ salt password. text_eq_refl password) (codes "Bo") (codes "B@b.vn ") (codes "secret34")
      office refl refl
