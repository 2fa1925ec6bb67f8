-- ===== src/Identity/User.antt =====
-- The user, internal/domains/identity/domain/user.go. Times are milliseconds; `none` is the zero time.
use parkhub_api.Base.{
  ℕ, Bool, true, false, not, Option, none, String, Result, ok, err, str_eq, if◌then◌else◌,
}
use parkhub_api.Errors.{Error, identity, user_invalid_status}

-- Texts in Go: the constants, and any other text.
pub data UserRole : Type 0 where
  platform_admin tenant_admin operator : UserRole
  other_role : String → UserRole

pub data UserStatus : Type 0 where
  active frozen : UserStatus
  other_status : String → UserStatus

-- `==` on each of them.
abbrev pub same_role : UserRole → UserRole → Bool
same_role platform_admin platform_admin = true
same_role tenant_admin tenant_admin = true
same_role operator operator = true
same_role (other_role s) (other_role t) = str_eq s t
same_role _ _ = false

abbrev pub same_status : UserStatus → UserStatus → Bool
same_status active active = true
same_status frozen frozen = true
same_status (other_status s) (other_status t) = str_eq s t
same_status _ _ = false

-- `string(role)`
unfoldable pub role_text : UserRole → String
role_text platform_admin = "platform_admin"
role_text tenant_admin = "tenant_admin"
role_text operator = "operator"
role_text (other_role s) = s

pub record User : Type 0 where
  pub id : String
  pub tenant_id : Option String
  pub username : String
  pub email : Option String
  pub phone : Option String
  pub password_hash : String
  pub real_name : String
  pub role : UserRole
  pub status : UserStatus
  pub last_login_at : Option ℕ
  pub created_at : Option ℕ
  pub updated_at : Option ℕ

unfoldable pub new_user : String → String → String → UserRole → Option String → User
new_user username password_hash real_name role tenant_id = record {
  id = "";
  tenant_id = tenant_id;
  username = username;
  email = none;
  phone = none;
  password_hash = password_hash;
  real_name = real_name;
  role = role;
  status = active;
  last_login_at = none;
  created_at = none;
  updated_at = none;
}

unfoldable pub is_active : User → Bool
is_active u = same_status u.status active

unfoldable pub is_platform_admin : User → Bool
is_platform_admin u = same_role u.role platform_admin

unfoldable pub freeze : User → Result Error User
freeze u =
    if not (same_status u.status active)
    then err (identity user_invalid_status)
    else ok (record u { status = frozen })

unfoldable pub unfreeze : User → Result Error User
unfreeze u =
    if not (same_status u.status frozen)
    then err (identity user_invalid_status)
    else ok (record u { status = active })
