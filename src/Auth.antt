-- ===== src/Auth.antt =====
-- app/features/auth/service.py: who logs in, and whom a token stands for.
pub mod Laws
use green_garden_api.Prelude.{
  ℕ, Bool, true, false, not, ◌&&◌, ◌||◌, Option, none, some, Text, text_eq, ◌==◌, find?,
  if◌then◌else◌,
}
use green_garden_api.Core.Errors.{AppError, Result, ok, err, raise_if, or_raise}
use green_garden_api.Core.Text.{CaseMap}
use green_garden_api.Core.Security.{
  TokenType, Claims, Crypto, TokenSettings, normalize_email, create_token, decode_token,
}
use green_garden_api.Database.Models.{Admin, Db}
use green_garden_api.Database.Session.{Action, pure, gets, lift, raise, ◌>>=◌, ◌>>◌}

abbrev pub has_email : Text → Admin → Bool
has_email email a = text_eq a.email email

abbrev pub has_admin_id : ℕ → Admin → Bool
has_admin_id id a = a.id == id

unfoldable pub get_admin_by_email : CaseMap → Text → Action (Option Admin)
get_admin_by_email cases email =
    gets (λ db. find? (has_email (normalize_email cases email)) db.admins)

unfoldable pub get_admin_by_id : ℕ → Action (Option Admin)
get_admin_by_id admin_id = gets (λ db. find? (has_admin_id admin_id) db.admins)

-- `admin is None or not admin.is_active`
abbrev pub active_or : Option Admin → AppError → Result Admin
active_or none problem = err problem
active_or (some admin) problem = if admin.is_active then ok admin else err problem

-- `uuid.UUID(str(payload["sub"]))`, which raises `ValueError` on another text.
abbrev pub subject_of : Crypto → Claims → Option ℕ
subject_of crypto payload = elim payload.sub [ none ↦ none | some sub ↦ crypto.parse_uuid sub ]

-- `except Exception as exc: raise AuthenticationError`
abbrev pub or_invalid : Crypto → Result Claims → Option ℕ
or_invalid crypto (ok payload) = subject_of crypto payload
or_invalid crypto (err problem) = none

module _ (cases : CaseMap) (crypto : Crypto) where
  unfoldable pub authenticate_admin : Text → Text → Action Admin
  authenticate_admin email password = do
    found ← get_admin_by_email cases email
    admin ← lift (active_or found AppError.invalid_credentials)
    lift (raise_if (not (crypto.verify password admin.password_hash)) AppError.invalid_credentials)
    pure admin

  unfoldable pub issue_token_pair : TokenSettings → ℕ → (ℕ → Text) → Admin → Text × Text
  issue_token_pair cfg now jti admin = (
    create_token crypto cfg now (jti 0) admin.id TokenType.access,
    create_token crypto cfg now (jti 1) admin.id TokenType.refresh,
  )

  unfoldable pub resolve_admin_from_token : TokenSettings → ℕ → Text → TokenType → Action Admin
  resolve_admin_from_token cfg now token expected_type = do
    admin_id ← lift (
        or_raise (or_invalid crypto (decode_token crypto cfg now token expected_type))
          AppError.invalid_token)
    found ← get_admin_by_id admin_id
    lift (active_or found AppError.invalid_token)
