-- ===== src/Core/Security.antt =====
-- app/core/security.py: passwords, e-mail addresses and tokens. Argon2 and JWT are parameters, and
-- so are the classes of Unicode's letters and digits and the text of a UUID.
use green_garden_api.Prelude.{
  ℕ, ◌+◌, ◌*◌, Bool, false, not, Option, none, some, Text, codes, text_eq, is_nonempty, ltb, any,
  length,
}
use green_garden_api.Core.Errors.{AppError, Result, ok, err, raise_if, ◌>>◌}
use green_garden_api.Core.Text.{CaseMap, strip, is_space}

pub data TokenType : Type 0 where
  access refresh : TokenType

-- The claims of a token: `sub`, `type`, `iat`, `exp`, `jti`.
pub record Claims : Type 0 where
  pub sub : Option Text
  pub type : Option Text
  pub iat : ℕ
  pub exp : ℕ
  pub jti : Text

-- The libraries: Argon2 (a hash draws a salt), JWT at a time in seconds, and the texts of UUIDs.
pub record Crypto : Type 0 where
  pub hash : ℕ → Text → Text
  pub verify : Text → Text → Bool
  pub encode : Claims → Text → Text
  pub decode : ℕ → Text → Text → Option Claims
  pub uuid_text : ℕ → Text
  pub parse_uuid : Text → Option ℕ
  pub is_alpha : ℕ → Bool
  pub is_digit : ℕ → Bool

-- The settings of the tokens.
pub record TokenSettings : Type 0 where
  pub jwt_secret_key : Text
  pub access_token_expire_minutes : ℕ
  pub refresh_token_expire_days : ℕ

-- The value of the type's `Literal`.
abbrev pub type_text : TokenType → Text
type_text TokenType.access = codes "access"
type_text TokenType.refresh = codes "refresh"

unfoldable pub normalize_email : CaseMap → Text → Text
unfolding strip
normalize_email cases email = cases.lower (strip is_space email)

-- `payload.get("type") != expected_type`
abbrev pub has_type : Option Text → TokenType → Bool
has_type none expected = false
has_type (some type) expected = text_eq type (type_text expected)

-- `not payload.get("sub")`
abbrev pub has_subject : Option Text → Bool
has_subject none = false
has_subject (some sub) = is_nonempty sub

-- Seconds: minutes for an access token, days for a refresh token.
unfoldable pub expires_delta : TokenSettings → TokenType → ℕ
expires_delta cfg TokenType.access = cfg.access_token_expire_minutes * 60
expires_delta cfg TokenType.refresh = cfg.refresh_token_expire_days * 86400

module _ (crypto : Crypto) where
  unfoldable pub validate_password_strength : Text → Result (Unit {0})
  validate_password_strength password = do
    raise_if (ltb (length password) 8) AppError.value_error
    raise_if (not (any crypto.is_alpha password)) AppError.value_error
    raise_if (not (any crypto.is_digit password)) AppError.value_error

  unfoldable pub create_token : TokenSettings → ℕ → Text → ℕ → TokenType → Text
  unfolding expires_delta
  create_token cfg now jti subject token_type =
      let payload : Claims = record {
        sub = some (crypto.uuid_text subject);
        type = some (type_text token_type);
        iat = now;
        exp = now + expires_delta cfg token_type;
        jti = jti;
      } in
      crypto.encode payload cfg.jwt_secret_key

  -- The checks of the payload; the signature and the times are the library's.
  abbrev pub checked_claims : Option Claims → TokenType → Result Claims
  checked_claims none expected_type = err AppError.invalid_token
  checked_claims (some payload) expected_type = do
    raise_if (not (has_type payload.type expected_type)) AppError.value_error
    raise_if (not (has_subject payload.sub)) AppError.value_error
    ok payload

  unfoldable pub decode_token : TokenSettings → ℕ → Text → TokenType → Result Claims
  decode_token cfg now token expected_type =
      checked_claims (crypto.decode now token cfg.jwt_secret_key) expected_type
