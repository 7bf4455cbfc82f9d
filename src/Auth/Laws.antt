-- ===== src/Auth/Laws.antt =====
-- What the tokens stand for.
use green_garden_api.Prelude.{
  ℕ, ◌+◌, ◌≡◌, refl, ap, Bool, true, false, not, ◌&&◌, ◌||◌, Option, none, some, Text, codes,
  text_eq, is_nonempty, ltb, leb, ◌==◌, find?, if◌then◌else◌, Bool-cases, inl, inr,
}
use green_garden_api.Core.Errors.{AppError, err}
use green_garden_api.Core.Text.{CaseMap}
use green_garden_api.Core.Security.{
  TokenType, Claims, Crypto, TokenSettings, expires_delta, create_token, decode_token, type_text,
}
use green_garden_api.Database.Session.{World, continue}
use green_garden_api.Auth.{has_admin_id, get_admin_by_id, active_or, resolve_admin_from_token}

abbrev pub same_type : TokenType → TokenType → Bool
same_type TokenType.access TokenType.access = true
same_type TokenType.refresh TokenType.refresh = true
same_type _ _ = false

-- A token is accepted from when it is issued until it expires, where its own type is expected.
abbrev pub is_accepted : TokenSettings → ℕ → TokenType → ℕ → TokenType → Bool
is_accepted cfg issued_at issued now expected =
    (leb issued_at now && ltb now (issued_at + expires_delta cfg issued))
    && same_type issued expected

type_text_eq :
    (issued expected : TokenType)
    → text_eq (type_text issued) (type_text expected) ≡ same_type issued expected
unfolding green_garden_api.Prelude.text_eq
type_text_eq TokenType.access TokenType.access = refl
type_text_eq TokenType.access TokenType.refresh = refl
type_text_eq TokenType.refresh TokenType.access = refl
type_text_eq TokenType.refresh TokenType.refresh = refl

abbrev claims_for : Crypto → TokenSettings → ℕ → Text → ℕ → TokenType → Claims
claims_for crypto cfg issued_at jti id issued = record {
  sub = some (crypto.uuid_text id);
  type = some (type_text issued);
  iat = issued_at;
  exp = issued_at + expires_delta cfg issued;
  jti = jti;
}

-- Suppose that JWT decodes what it encoded with the same key, from the issue until the expiry and
-- at no other time, and that a UUID is read back from its text, which is not empty. Then a token
-- that was issued for an account stands for it exactly while the token has not expired, where its
-- own type is expected, and while the account exists and is active; in every other case
-- `resolve_admin_from_token` answers that the token is invalid.
pub resolve_admin_from_token-create_token :
    (cases : CaseMap) (crypto : Crypto) (cfg : TokenSettings)
    → ((claims : Claims) (key : Text) (now : ℕ)
        → crypto.decode now (crypto.encode claims key) key
          ≡ (if leb claims.iat now && ltb now claims.exp then some claims else none))
    → ((id : ℕ) → crypto.parse_uuid (crypto.uuid_text id) ≡ some id)
    → ((id : ℕ) → is_nonempty (crypto.uuid_text id) ≡ true)
    → (id issued_at now : ℕ) (jti : Text) (issued expected : TokenType) (w : World)
    → resolve_admin_from_token cases crypto cfg now
        (create_token crypto cfg issued_at jti id issued)
        expected
        w
      ≡ (
        (if is_accepted cfg issued_at issued now expected
            then active_or (find? (has_admin_id id) w.working.admins) AppError.invalid_token
            else err AppError.invalid_token),
        w,
      )
unfolding resolve_admin_from_token decode_token create_token get_admin_by_id
resolve_admin_from_token-create_token cases crypto cfg jwt uuids texts id issued_at now jti issued
      expected w =
    let decoded = jwt (claims_for crypto cfg issued_at jti id issued) cfg.jwt_secret_key now in
    elim (Bool-cases (leb issued_at now && ltb now (issued_at + expires_delta cfg issued))) [
      | inr late ↦ rw (decoded, late, continue) refl
      | inl early ↦ elim (Bool-cases (same_type issued expected)) [
        | inl same ↦
            rw (decoded, early, type_text_eq issued expected, same, texts id, uuids id, continue)
              refl
        | inr other ↦ rw (decoded, early, type_text_eq issued expected, other, continue) refl
      ]
    ]
