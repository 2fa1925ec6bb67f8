-- ===== src/Identity/AuthService.antt =====
-- The logins, internal/domains/identity/service/auth_service.go and auth_interface.go. bcrypt, the signer
-- and the verifier of SMS codes, an interface, are arguments; `W` is what the verifier has beside the stores.
pub mod Ends
pub mod Login
pub mod Renew
pub mod Calls
pub mod Steps
pub mod Once
pub mod Session
use parkhub_api.Base.{
  ℕ, ◌+◌, ◌/◌, Bool, true, false, not, ◌||◌, Option, none, some, is_some, String, Result, ok, err,
  Action, ◌>>=◌, ◌>>◌, pure, raise_if, lift, catch, or_else, str_eq, if◌then◌else◌,
}
use parkhub_api.Errors.{
  Error, SmsError, identity, sms, wrap, code_not_found, code_expired, code_used, code_mismatch,
  invalid_credentials, user_frozen, refresh_token_invalid, refresh_token_revoked,
}
use parkhub_api.Gorm.{Gorm}
use parkhub_api.Redis.{Redis}
use parkhub_api.Identity.User.{User, is_active, role_text}
use parkhub_api.Identity.UserDao.{UserRow}
use parkhub_api.Identity.UserRepo
use parkhub_api.Identity.UserService.{Bcrypt, is_user_not_found, library}
use parkhub_api.Identity.Token.{
  Claims, TokenPair, TokenSigner, token_use_access, token_use_refresh, numeric_date,
}
use parkhub_api.Identity.RefreshTokens

pub record LoginRequest : Type 0 where
  pub username : String
  pub password : String

pub record SmsLoginRequest : Type 0 where
  pub phone : String
  pub code : String

pub record LoginResponse : Type 0 where
  pub token_pair : TokenPair
  pub user : User
  pub access_expires_in : ℕ

pub record RefreshTokenRequest : Type 0 where
  pub refresh_token : String

pub record RefreshTokenResponse : Type 0 where
  pub token_pair : TokenPair
  pub access_expires_in : ℕ

pub record LogoutRequest : Type 0 where
  pub refresh_token : String

-- The settings that the service reads: `config.AuthConfig` without the paths of the keys.
pub record AuthConfig : Type 0 where
  pub issuer : String
  pub access_ttl : String
  pub refresh_ttl : String
  pub key_id : String

-- The times that a call reads, and the ids that it draws.
pub record Moment : Type 0 where
  -- the clock of `Verify`
  pub checked : ℕ
  -- `now` of `generateTokenPair`
  pub issued : ℕ
  -- `now` behind it
  pub logged_in : ℕ
  pub access_jti : String
  pub refresh_jti : String

-- `ParseTTL`; `time.ParseDuration` is an argument.
unfoldable pub parse_ttl : (String → Result String ℕ) → String → ℕ
parse_ttl parse_duration s = elim (parse_duration s) [ ok d ↦ d | err e ↦ 900_000 ]

abbrev pub string_ptr_value : Option String → String
string_ptr_value none = ""
string_ptr_value (some s) = s

-- `errors.Is(err, …)` with each of the four.
abbrev pub is_sms_credential : SmsError → Bool
is_sms_credential code_not_found = true
is_sms_credential code_expired = true
is_sms_credential code_used = true
is_sms_credential code_mismatch = true
is_sms_credential _ = false

unfoldable pub is_sms_credential_error : Error → Bool
is_sms_credential_error (sms e) = is_sms_credential e
is_sms_credential_error (wrap text e) = is_sms_credential_error e
is_sms_credential_error _ = false

-- What becomes of an error of the search for the user, and of one of the verifier.
abbrev pub credential_error : Error → Error
credential_error e = if is_user_not_found e then identity invalid_credentials else e

abbrev pub verifier_error : Error → Error
verifier_error e = if is_sms_credential_error e then identity invalid_credentials else e

-- Any error of `Verify`.
abbrev pub verified : Result String Claims → Result Error Claims
verified (ok claims) = ok claims
verified (err e) = err (identity refresh_token_invalid)

module _ (g : Gorm UserRow) (r : Redis) (W : Type 0) where
  abbrev pub State : Type 0
  State = (g.Db × r.Store) × W

  pub record AuthService : Type 0 where
    pub bcrypt : Bcrypt
    pub signer : TokenSigner
    pub verify_code : String → String → Action State Error (Unit {0})
    pub cfg : AuthConfig
    pub access_ttl : ℕ
    pub refresh_ttl : ℕ

  unfoldable pub new_auth_service :
      (String → Result String ℕ)
      → Bcrypt
      → TokenSigner
      → AuthConfig
      → (String → String → Action State Error (Unit {0}))
      → AuthService
  new_auth_service parse_duration bcrypt signer cfg verify_code = record {
    bcrypt = bcrypt;
    signer = signer;
    verify_code = verify_code;
    cfg = cfg;
    access_ttl = parse_ttl parse_duration cfg.access_ttl;
    refresh_ttl = parse_ttl parse_duration cfg.refresh_ttl;
  }

  abbrev pub on_users : {A : Type 0} → Action g.Db Error A → Action State Error A
  on_users m ((d, t), w) = let (x, d') = m d in (x, ((d', t), w))

  abbrev pub on_tokens : {A : Type 0} → Action r.Store Error A → Action State Error A
  on_tokens m ((d, t), w) = let (x, t') = m t in (x, ((d, t'), w))

  module _ (s : AuthService) where
    abbrev pub access_claims : User → Moment → Claims
    access_claims user at = record {
      token_use = token_use_access;
      user_id = user.id;
      tenant_id = string_ptr_value user.tenant_id;
      role = role_text user.role;
      key = s.cfg.key_id;
      subject = user.id;
      issuer = s.cfg.issuer;
      id = at.access_jti;
      issued_at = numeric_date at.issued;
      expires_at = numeric_date (at.issued + s.access_ttl);
    }

    abbrev pub refresh_claims : User → Moment → Claims
    refresh_claims user at = record {
      token_use = token_use_refresh;
      user_id = "";
      tenant_id = "";
      role = "";
      key = "";
      subject = user.id;
      issuer = s.cfg.issuer;
      id = at.refresh_jti;
      issued_at = numeric_date at.issued;
      expires_at = numeric_date (at.issued + s.refresh_ttl);
    }

    abbrev pub pair_of : Moment → String → String → TokenPair
    pair_of at access refresh = record {
      access_token = access;
      refresh_token = refresh;
      access_expires_at = at.issued + s.access_ttl;
      refresh_expires_at = at.issued + s.refresh_ttl;
    }

    unfoldable pub generate_token_pair : User → Moment → Action State Error TokenPair
    generate_token_pair user at = do
      access ← lift (library (s.signer.sign (access_claims user at)))
      refresh ← lift (library (s.signer.sign (refresh_claims user at)))
      on_tokens (RefreshTokens.save r at.refresh_jti user.id s.refresh_ttl)
      pure (pair_of at access refresh)

    -- What both logins do with the user that they have found.
    unfoldable pub log_in : User → Moment → Action State Error LoginResponse
    log_in user at = do
      raise_if (not (is_active user)) (identity user_frozen)
      pair ← generate_token_pair user at
      let user' = record user { last_login_at = some at.logged_in }
      or_else tt (on_users (UserRepo.update g user'))
      pure (record { token_pair = pair; user = user'; access_expires_in = s.access_ttl / 1000 })

    unfoldable pub login : LoginRequest → Moment → Action State Error LoginResponse
    login req at = do
      user ← catch credential_error (on_users (UserRepo.get_by_username g req.username))
      raise_if (not (s.bcrypt.compare_hash_and_password user.password_hash req.password))
          (identity invalid_credentials)
      log_in user at

    unfoldable pub sms_login : SmsLoginRequest → Moment → Action State Error LoginResponse
    sms_login req at = do
      catch verifier_error (s.verify_code req.phone req.code)
      user ← catch credential_error (on_users (UserRepo.get_by_phone g req.phone))
      log_in user at

    -- The checks of a refresh token with which `RefreshToken` and `Logout` begin.
    abbrev pub refresh_claims_of : String → Moment → Action State Error Claims
    refresh_claims_of token at = do
      claims ← lift (verified (s.signer.verify at.checked token))
      raise_if (not (str_eq claims.token_use token_use_refresh)) (identity refresh_token_invalid)
      pure claims

    -- `RefreshToken` behind the checks.
    unfoldable pub renew : Claims → Moment → Action State Error RefreshTokenResponse
    renew claims at = do
      owner ← on_tokens (RefreshTokens.consume r claims.id)
      raise_if (not (is_some owner)) (identity refresh_token_revoked)
      user ← on_users (UserRepo.get_by_id g claims.subject)
      raise_if (not (is_active user)) (identity user_frozen)
      pair ← generate_token_pair user at
      pure (record { token_pair = pair; access_expires_in = s.access_ttl / 1000 })

    unfoldable pub refresh_token :
        RefreshTokenRequest → Moment → Action State Error RefreshTokenResponse
    refresh_token req at = refresh_claims_of req.refresh_token at >>= λ claims. renew claims at

    unfoldable pub logout : LogoutRequest → Moment → Action State Error (Unit {0})
    logout req at = do
      claims ← refresh_claims_of req.refresh_token at
      on_tokens (RefreshTokens.revoke r claims.id)
