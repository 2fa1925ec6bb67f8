-- ===== src/Identity/UserRepo.antt =====
-- The user repository, internal/domains/identity/repository/user_repo.go.
pub mod Ends
pub mod Timed
use parkhub_api.Base.{ℕ, Bool, Option, none, some, String, List, map, Action, ◌>>=◌, pure}
use parkhub_api.Errors.{Error}
use parkhub_api.Gorm.{Gorm}
use parkhub_api.Identity.User.{User}
use parkhub_api.Identity.UserDao
use parkhub_api.Identity.UserDao.{UserRow, UserFilter}

-- `time.UnixMilli` is never the zero time, the one that `IsZero` finds.
unfoldable pub to_domain_user : UserRow → User
to_domain_user d = record {
  id = d.id;
  tenant_id = d.tenant_id;
  username = d.username;
  email = d.email;
  phone = d.phone;
  password_hash = d.password_hash;
  real_name = d.real_name;
  role = d.role;
  status = d.status;
  last_login_at = d.last_login_at;
  created_at = some d.created_at;
  updated_at = some d.updated_at;
}

abbrev pub unix_milli : Option ℕ → ℕ
unix_milli none = 0
unix_milli (some t) = t

unfoldable pub to_user_entity : User → UserRow
to_user_entity u = record {
  id = u.id;
  tenant_id = u.tenant_id;
  username = u.username;
  email = u.email;
  phone = u.phone;
  password_hash = u.password_hash;
  real_name = u.real_name;
  role = u.role;
  status = u.status;
  last_login_at = u.last_login_at;
  created_at = unix_milli u.created_at;
  updated_at = unix_milli u.updated_at;
}

module _ (g : Gorm UserRow) where
  open g use {Db}

  unfoldable pub create : User → Action Db Error (Unit {0})
  create user = UserDao.insert g (to_user_entity user)

  unfoldable pub get_by_id : String → Action Db Error User
  get_by_id id = do d ← UserDao.find_by_id g id; pure (to_domain_user d)

  unfoldable pub get_by_username : String → Action Db Error User
  get_by_username username = do d ← UserDao.find_by_username g username; pure (to_domain_user d)

  unfoldable pub get_by_phone : String → Action Db Error User
  get_by_phone phone = do d ← UserDao.find_by_phone g phone; pure (to_domain_user d)

  unfoldable pub list :
      (String → String → Bool) → UserFilter → ℕ → ℕ → Action Db Error (List User × ℕ)
  list like filter page page_size = do
    found ← UserDao.find_all g like filter page page_size
    pure (map to_domain_user found.0, found.1)

  unfoldable pub update : User → Action Db Error (Unit {0})
  update user = UserDao.update g (to_user_entity user)

  unfoldable pub batch_create : List User → Action Db Error (Unit {0})
  batch_create users = UserDao.batch_insert g (map to_user_entity users)
