-- ===== src/Identity/UserService.antt =====
-- The user service, internal/domains/identity/service/user_service.go.
pub mod Changes
pub mod Creation
pub mod Import
pub mod Passwords
use Prim.Native.String.{len}
use parkhub_api.Base.{
  ℕ, zero, suc, ◌+◌, Bool, true, false, not, Option, none, some, String, List, [], ◌∷◌, ◌++◌,
  length, ◌≡◌, Result, ok, err, Action, ◌>>=◌, ◌>>◌, pure, raise, raise_if, lift, str_eq, ltb,
  if◌then◌else◌,
}
use parkhub_api.Base.Int.{ℤ}
use parkhub_api.Errors.{
  Error, identity, other, wrap, user_not_found, user_already_exists, password_too_short,
  password_incorrect, invalid_role,
}
use parkhub_api.Gorm.{Gorm}
use parkhub_api.Paging.{clean_page, clean_page_size, total_pages}
use parkhub_api.Identity.User.{
  User, UserRole, UserStatus, other_role, same_role, new_user, freeze, unfreeze,
}
use parkhub_api.Identity.UserDao.{UserRow, UserFilter}
use parkhub_api.Identity.UserRepo

pub record CreateUserRequest : Type 0 where
  pub tenant_id : Option String
  pub username : String
  pub password : String
  pub email : Option String
  pub phone : Option String
  pub real_name : String
  pub role : UserRole

pub record ListUsersRequest : Type 0 where
  pub tenant_id : String
  pub role : UserRole
  pub status : UserStatus
  pub keyword : String
  pub page : ℤ
  pub page_size : ℤ

pub record UserListResponse : Type 0 where
  pub users : List User
  pub total : ℕ
  pub page : ℕ
  pub page_size : ℕ
  pub pages : ℕ

pub record UpdateUserRequest : Type 0 where
  pub user_id : String
  pub username : Option String
  pub email : Option String
  pub phone : Option String
  pub real_name : Option String
  pub role : Option UserRole

pub record ResetPasswordRequest : Type 0 where
  pub user_id : String
  pub new_password : String

pub record UpdateProfileRequest : Type 0 where
  pub real_name : Option String
  pub email : Option String
  pub phone : Option String

pub record ChangePasswordRequest : Type 0 where
  pub old_password : String
  pub new_password : String

-- `message` is the error whose text the source keeps. The items of an import have the fields of a
-- `CreateUserRequest`, into which `ImportUsers` copies them one by one.
pub record ImportError : Type 0 where
  pub index : ℕ
  pub message : Error

pub record ImportResult : Type 0 where
  pub total : ℕ
  pub success : ℕ
  pub failed : ℕ
  pub errors : List ImportError

-- bcrypt. A hash is made from a salt, which the library draws.
pub record Bcrypt : Type 0 where
  pub generate_from_password : ℕ → String → Result String String
  pub compare_hash_and_password : String → String → Bool
  pub compare_law :
      (salt : ℕ) (password hash : String)
      → generate_from_password salt password ≡ ok hash
      → (compare_hash_and_password hash password ≡ true) × (str_eq hash "" ≡ false)

abbrev pub or_old : {A : Type 0} → Option A → A → A
or_old none old = old
or_old (some new) old = new

abbrev pub or_old_column : {A : Type 0} → Option A → Option A → Option A
or_old_column none old = old
or_old_column (some new) old = some new

-- An error of a library, passed on.
abbrev pub library : {A : Type 0} → Result String A → Result Error A
library (ok a) = ok a
library (err e) = err (other e)

-- `errors.Is(err, errs.ErrUserNotFound)`
unfoldable pub is_user_not_found : Error → Bool
is_user_not_found (identity user_not_found) = true
is_user_not_found (wrap text e) = is_user_not_found e
is_user_not_found _ = false

-- What `Update` and `UpdateProfile` change.
abbrev pub set_user : UpdateUserRequest → User → User
set_user req u = record u {
  username = or_old req.username u.username;
  email = or_old_column req.email u.email;
  phone = or_old_column req.phone u.phone;
  real_name = or_old req.real_name u.real_name;
  role = or_old req.role u.role;
}

abbrev pub set_profile : UpdateProfileRequest → User → User
set_profile req u = record u {
  real_name = or_old req.real_name u.real_name;
  email = or_old_column req.email u.email;
  phone = or_old_column req.phone u.phone;
}

abbrev pub created_user : CreateUserRequest → String → String → User
created_user req hash uuid =
    record (new_user req.username hash req.real_name req.role req.tenant_id) {
      id = uuid;
      email = req.email;
      phone = req.phone;
    }

abbrev pub listed : ListUsersRequest → List User × ℕ → UserListResponse
listed req found =
    let page_size = clean_page_size req.page_size in
    record {
      users = found.0;
      total = found.1;
      page = clean_page req.page;
      page_size = page_size;
      pages = total_pages found.1 page_size;
    }

-- `err != nil && !errors.Is(…)` and `existing != nil` around the search for the username.
abbrev pub username_taken : Result Error User → Result Error (Unit {0})
username_taken (ok existing) = err (identity user_already_exists)
username_taken (err e) = if is_user_not_found e then ok tt else err e

module _ (g : Gorm UserRow) (b : Bcrypt) where
  open g use {Db}

  -- An error of the search is looked at, not passed on.
  abbrev pub search_username : String → Action Db Error (Result Error User)
  search_username username d = let (r, d') = UserRepo.get_by_username g username d in (ok r, d')

  unfoldable pub create : CreateUserRequest → ℕ → String → Action Db Error User
  create req salt uuid = do
    raise_if (ltb (len req.password) 8) (identity password_too_short)
    raise_if (same_role req.role (other_role "")) (identity invalid_role)
    found ← search_username req.username
    lift (username_taken found)
    hash ← lift (library (b.generate_from_password salt req.password))
    UserRepo.create g (created_user req hash uuid)
    pure (created_user req hash uuid)

  unfoldable pub get_by_id : String → Action Db Error User
  get_by_id user_id = UserRepo.get_by_id g user_id

  unfoldable pub list :
      (String → String → Bool) → ListUsersRequest → Action Db Error UserListResponse
  list like req = do
    found ←
        UserRepo.list g like
          (record {
            tenant_id = req.tenant_id;
            role = req.role;
            status = req.status;
            keyword = req.keyword;
          })
          (clean_page req.page) (clean_page_size req.page_size)
    pure (listed req found)

  -- The shape of the methods that change one user: read, change, write back.
  unfoldable pub change : String → (User → Result Error User) → Action Db Error User
  change user_id f = do
    user ← UserRepo.get_by_id g user_id
    user' ← lift (f user)
    UserRepo.update g user'
    pure user'

  -- The methods that answer with no user.
  unfoldable pub change_only : String → (User → Result Error User) → Action Db Error (Unit {0})
  change_only user_id f = do
    user ← UserRepo.get_by_id g user_id
    user' ← lift (f user)
    UserRepo.update g user'

  unfoldable pub update : UpdateUserRequest → Action Db Error User
  update req = change req.user_id (λ u. ok (set_user req u))

  unfoldable pub freeze_user : String → Action Db Error (Unit {0})
  freeze_user user_id = change_only user_id freeze

  unfoldable pub unfreeze_user : String → Action Db Error (Unit {0})
  unfreeze_user user_id = change_only user_id unfreeze

  abbrev pub set_hash : Result Error String → User → Result Error User
  set_hash (ok hash) u = ok (record u { password_hash = hash })
  set_hash (err e) u = err e

  abbrev pub new_hash : ℕ → String → Result Error String
  new_hash salt password = library (b.generate_from_password salt password)

  unfoldable pub reset_password : ResetPasswordRequest → ℕ → Action Db Error (Unit {0})
  reset_password req salt = do
    raise_if (ltb (len req.new_password) 8) (identity password_too_short)
    change_only req.user_id (set_hash (new_hash salt req.new_password))

  unfoldable pub update_profile : String → UpdateProfileRequest → Action Db Error User
  update_profile user_id req = change user_id (λ u. ok (set_profile req u))

  -- The check of the old password, then the new hash.
  abbrev pub replace_hash : ChangePasswordRequest → ℕ → User → Result Error User
  replace_hash req salt u =
      if not (b.compare_hash_and_password u.password_hash req.old_password)
      then err (identity password_incorrect)
      else set_hash (new_hash salt req.new_password) u

  unfoldable pub change_password : String → ChangePasswordRequest → ℕ → Action Db Error (Unit {0})
  change_password user_id req salt = do
    raise_if (ltb (len req.new_password) 8) (identity password_too_short)
    change_only user_id (replace_hash req salt)

  -- One round of the loop of `ImportUsers`.
  abbrev pub count_import : ℕ → Result Error User → ImportResult → ImportResult
  count_import i (ok user) result = record result { success = result.success + 1 }
  count_import i (err e) result = record result {
    failed = result.failed + 1;
    errors = result.errors ++ record { index = i; message = e } ∷ [];
  }

  -- The rounds from `i` on; each has the salt and the id that the libraries give it.
  unfoldable pub import_from :
      ℕ → List (CreateUserRequest × ℕ × String) → ImportResult → Db → ImportResult × Db
  import_from i [] result d = (result, d)
  import_from i ((item, salt, uuid) ∷ items) result d =
      let (r, d') = create item salt uuid d in
      import_from (suc i) items (count_import i r result) d'

  unfoldable pub import_users : List (CreateUserRequest × ℕ × String) → Db → ImportResult × Db
  import_users items =
      import_from 0 items (record { total = length items; success = 0; failed = 0; errors = [] })
