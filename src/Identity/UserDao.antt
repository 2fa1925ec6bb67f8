-- ===== src/Identity/UserDao.antt =====
-- The users table, internal/domains/identity/repository/dao/user.go.
use parkhub_api.Base.{
  ℕ, ◌-◌, ◌*◌, Bool, false, ◌&&◌, ◌||◌, Option, none, some, String, List, map, Action, ◌>>=◌, pure,
  catch, raise_if, contains, str_eq, if◌then◌else◌, ◌==◌,
}
use parkhub_api.Errors.{Error, identity, other, user_not_found, user_already_exists}
use parkhub_api.Gorm.{Gorm, DbError, record_not_found, failed}
use parkhub_api.Identity.User.{
  UserRole, UserStatus, other_role, other_status, same_role, same_status,
}

pub record UserRow : Type 0 where
  pub id : String
  pub tenant_id : Option String
  pub username : String
  pub email : Option String
  pub phone : Option String
  pub password_hash : String
  pub real_name : String
  pub role : UserRole
  pub status : UserStatus
  pub last_login_at : Option ℕ
  pub created_at : ℕ
  pub updated_at : ℕ

-- An empty text asks for no restriction.
pub record UserFilter : Type 0 where
  pub tenant_id : String
  pub role : UserRole
  pub status : UserStatus
  pub keyword : String

-- `id = ?`
abbrev pub has_id : String → UserRow → Bool
has_id id r = str_eq r.id id

-- `username = ?`
abbrev pub has_username : String → UserRow → Bool
has_username username r = str_eq r.username username

-- A comparison with NULL fails.
abbrev pub column_is : Option String → String → Bool
column_is none s = false
column_is (some t) s = str_eq t s

-- `phone = ?`
abbrev pub has_phone : String → UserRow → Bool
has_phone phone r = column_is r.phone phone

-- The tags `autoCreateTime:milli` and `autoUpdateTime:milli`.
abbrev pub stamp : UserRow → ℕ → UserRow
stamp r now = record r {
  created_at = if r.created_at == 0 then now else r.created_at;
  updated_at = if r.updated_at == 0 then now else r.updated_at;
}

-- gorm's `Updates` with a struct writes the fields that are not their type's zero value.
abbrev pub text_or : String → String → String
text_or new old = if str_eq new "" then old else new

abbrev pub column_or : {A : Type 0} → Option A → Option A → Option A
column_or none old = old
column_or (some new) old = some new

abbrev pub role_or : UserRole → UserRole → UserRole
role_or new old = if same_role new (other_role "") then old else new

abbrev pub status_or : UserStatus → UserStatus → UserStatus
status_or new old = if same_status new (other_status "") then old else new

abbrev pub set_nonzero : UserRow → ℕ → UserRow → UserRow
set_nonzero u now r = record {
  id = text_or u.id r.id;
  tenant_id = column_or u.tenant_id r.tenant_id;
  username = text_or u.username r.username;
  email = column_or u.email r.email;
  phone = column_or u.phone r.phone;
  password_hash = text_or u.password_hash r.password_hash;
  real_name = text_or u.real_name r.real_name;
  role = role_or u.role r.role;
  status = status_or u.status r.status;
  last_login_at = column_or u.last_login_at r.last_login_at;
  created_at = if u.created_at == 0 then r.created_at else u.created_at;
  updated_at = now;
}

unfoldable pub insert_error : DbError → Error
insert_error record_not_found = other "record not found"
insert_error (failed e) =
    if contains e "duplicate" || contains e "UNIQUE" then identity user_already_exists else other e

abbrev pub find_error : DbError → Error
find_error record_not_found = identity user_not_found
find_error (failed e) = other e

-- An error that is passed on as it is.
abbrev pub raw_error : DbError → Error
raw_error record_not_found = other "record not found"
raw_error (failed e) = other e

abbrev pub column_like : (String → String → Bool) → Option String → String → Bool
column_like like none keyword = false
column_like like (some s) keyword = like s keyword

-- The conditions of `FindAll`. `like` is MySQL's LIKE with `%` on both sides of the keyword.
unfoldable pub find_all_where : (String → String → Bool) → UserFilter → UserRow → Bool
find_all_where like f r =
    (str_eq f.tenant_id "" || column_is r.tenant_id f.tenant_id)
    && (same_role f.role (other_role "") || same_role r.role f.role)
    && (same_status f.status (other_status "") || same_status r.status f.status)
    && (str_eq f.keyword ""
        || like r.username f.keyword
        || like r.real_name f.keyword
        || column_like like r.email f.keyword)

module _ (g : Gorm UserRow) where
  open g use {Db}

  unfoldable pub insert : UserRow → Action Db Error (Unit {0})
  insert user = catch insert_error (g.create (stamp user))

  unfoldable pub find_by_id : String → Action Db Error UserRow
  find_by_id id = catch find_error (g.first (has_id id))

  unfoldable pub find_by_username : String → Action Db Error UserRow
  find_by_username username = catch find_error (g.first (has_username username))

  unfoldable pub find_by_phone : String → Action Db Error UserRow
  find_by_phone phone = catch find_error (g.first (has_phone phone))

  unfoldable pub find_all :
      (String → String → Bool) → UserFilter → ℕ → ℕ → Action Db Error (List UserRow × ℕ)
  find_all like filter page page_size = do
    total ← catch raw_error (g.total (find_all_where like filter))
    let offset = (page - 1) * page_size
    users ← catch raw_error (g.find (find_all_where like filter) offset page_size)
    pure (users, total)

  unfoldable pub update : UserRow → Action Db Error (Unit {0})
  update user = do
    affected ← catch raw_error (g.updates (has_id user.id) (set_nonzero user))
    raise_if (affected == 0) (identity user_not_found)

  unfoldable pub batch_insert : List UserRow → Action Db Error (Unit {0})
  batch_insert users = catch raw_error (g.create_all (λ now. map (λ u. stamp u now) users))
