-- ===== src/Identity/Token.antt =====
-- Claims and tokens: internal/domains/identity/domain/token.go and signer.go. Signing with JWT is an
-- argument of the model; times are milliseconds, in claims seconds.
use parkhub_api.Base.{ℕ, ◌*◌, ◌/◌, ◌<◌, ◌≡◌, String, Result, ok}

abbrev pub token_use_access : String
token_use_access = "access"

abbrev pub token_use_refresh : String
token_use_refresh = "refresh"

pub record TokenPair : Type 0 where
  pub access_token : String
  pub refresh_token : String
  pub access_expires_at : ℕ
  pub refresh_expires_at : ℕ

-- The embedded `jwt.RegisteredClaims` are the fields from `subject` on.
pub record Claims : Type 0 where
  pub token_use : String
  pub user_id : String
  pub tenant_id : String
  pub role : String
  pub key : String
  pub subject : String
  pub issuer : String
  pub id : String
  pub issued_at : ℕ
  pub expires_at : ℕ

-- `TokenSigner`. The library drops the part of a time below a second, `Verify` asks for the signer's own
-- issuer, and reads the clock.
pub record TokenSigner : Type 0 where
  pub own_issuer : String
  pub sign : Claims → Result String String
  pub verify : ℕ → String → Result String Claims
  -- a token that the signer has made is good until its end
  pub verify_law :
      (c : Claims) (token : String) (now : ℕ)
      → sign c ≡ ok token
      → c.issuer ≡ own_issuer
      → now < c.expires_at * 1000
      → verify now token ≡ ok c

-- `jwt.NewNumericDate`
abbrev pub numeric_date : ℕ → ℕ
numeric_date t = t / 1000
