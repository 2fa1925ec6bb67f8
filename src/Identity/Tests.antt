-- ===== src/Identity/Tests.antt =====
-- The identity theorems at libraries in memory, and runs of the model.
use parkhub_api.Base.{ℕ, ◌≡◌, ◌≤◌, refl, arith, none, some, String, List, [], ◌∷◌, ok, str_eq, ◌||◌}
use parkhub_api.Errors.{Error}
use parkhub_api.Base.Ends.{Ends}
use parkhub_api.Gorm.{Gorm}
use parkhub_api.Gorm.Logic.{Post}
use parkhub_api.Gorm.Memory.{Table, memory as table_memory}
use parkhub_api.Identity.Tenant.{TenantStatus, frozen, free}
use parkhub_api.Identity.TenantDao.{TenantRow}
use parkhub_api.Identity.TenantService
use parkhub_api.Identity.TenantService.Summary.{IsSummary, get_tenant_summary_counts}
use parkhub_api.Redis.{put}
use parkhub_api.Redis.Memory.{memory}
use parkhub_api.Identity.User.{operator}
use parkhub_api.Identity.UserDao.{UserRow}
use parkhub_api.Identity.UserService.{
  CreateUserRequest, ResetPasswordRequest, ChangePasswordRequest,
}
use parkhub_api.Identity.User
use parkhub_api.Identity.UserDao
use parkhub_api.Identity.UserRepo
use parkhub_api.Identity.UserService
use parkhub_api.Identity.UserService.Passwords.{
  PasswordSet, Knows, reset_password_lem, change_password_lem,
}
use parkhub_api.Identity.UserService.Creation.{Created, NotCreated, create_lem}
use parkhub_api.Identity.UserService.Import.{AllAccounted, import_users-AllAccounted}
use parkhub_api.Identity.RefreshTokens
use parkhub_api.Identity.RefreshTokens.{refresh_key}
use parkhub_api.Identity.RefreshTokens.Live.{
  Refines, AnyAnswer, OwnerOf, add_token, drop_token, operations-Refines,
}
use parkhub_api.Identity.Locked.{ShutOut, freeze_user-ShutOut}
use parkhub_api.Identity.AuthService.{State, LoginRequest, LogoutRequest, LoginResponse}
use parkhub_api.Identity.AuthService
use parkhub_api.Identity.AuthService.Login.{Admitted, Refused, login_lem}
use parkhub_api.Identity.AuthService.Renew.{Renewed, NotRenewed, renew_lem}
use parkhub_api.Identity.AuthService.Calls.{Request, refresh_with, exchanges, perform}
use parkhub_api.Identity.AuthService.Once.{exchanges-once, logout-exchanges}
use parkhub_api.Identity.AuthService.Session.{
  Exchanged, LibraryFailed, later_with, login-refresh_token,
}
use parkhub_api.Identity.Sample.{
  bcrypt, users, table, ann, no_tokens, service, start, first_moment, second_moment, refresh_of,
}

abbrev credentials : LoginRequest
credentials = record { username = "ann"; password = "secret99" }

login_lem_example :
    Ends
      (Admitted users memory (Unit {0}) service credentials first_moment start)
      (Refused users memory (Unit {0}) service credentials first_moment start)
      (AuthService.login users memory (Unit {0}) service credentials first_moment start)
login_lem_example = login_lem users memory (Unit {0}) service credentials first_moment start

-- The answer of the login, and the state that it leaves.
abbrev logged_in : LoginResponse
logged_in = record {
  token_pair = record {
    access_token = "access one";
    refresh_token = "refresh one";
    access_expires_at = 1_900_000;
    refresh_expires_at = 605_800_000;
  };
  user = record {
    id = "u1";
    tenant_id = some "t1";
    username = "ann";
    email = none;
    phone = some "13800138000";
    password_hash = "$secret99";
    real_name = "Ann";
    role = operator;
    status = User.active;
    last_login_at = some 1_000_001;
    created_at = some 5;
    updated_at = some 5;
  };
  access_expires_in = 900;
}

abbrev seen : Table UserRow
seen = record {
  content = record ann { last_login_at = some 1_000_001; updated_at = 77 } ∷ [];
  time = 77;
}

abbrev behind : State users memory (Unit {0})
behind = ((seen, put (refresh_key "r1") "u1" 604_800_000 no_tokens), tt)

login_run :
    AuthService.login users memory (Unit {0}) service credentials first_moment start
    ≡ (ok logged_in, behind)
unfolding AuthService.login AuthService.log_in AuthService.generate_token_pair
    UserRepo.get_by_username UserRepo.update UserRepo.to_domain_user UserRepo.to_user_entity
    UserDao.find_by_username UserDao.update RefreshTokens.save User.is_active User.role_text
    UserService.is_user_not_found
login_run = refl

-- The users at the time of the exchange; Ann has another name by then.
abbrev renamed : Table UserRow
renamed = record { content = record ann { real_name = "Anna"; updated_at = 90 } ∷ []; time = 90 }

login-refresh_token_example :
    Ends
      (Exchanged users memory
        (Unit {0})
        service
        "r1"
        second_moment
        "u1"
        (later_with users memory (Unit {0}) service 1_000_000 renamed behind))
      (LibraryFailed users memory
        (Unit {0})
        service
        (later_with users memory (Unit {0}) service 1_000_000 renamed behind))
      (AuthService.refresh_token users memory
        (Unit {0})
        service
        (record { refresh_token = "refresh one" })
        second_moment
        (later_with users memory (Unit {0}) service 1_000_000 renamed behind))
unfolding UserRepo.to_domain_user User.is_active
login-refresh_token_example =
    login-refresh_token users memory (Unit {0}) service credentials first_moment second_moment start
      behind logged_in 1_000_000 renamed login_run refl (omega arith) (omega arith)
      (refl, ((λ h. refl), tt))

renew_lem_example :
    Ends
      (Renewed users memory (Unit {0}) service (refresh_of "r1" 1_000) second_moment behind)
      (NotRenewed users memory (Unit {0}) service (refresh_of "r1" 1_000) second_moment behind)
      (AuthService.renew users memory
        (Unit {0})
        service
        (refresh_of "r1" 1_000)
        second_moment
        behind)
renew_lem_example =
    renew_lem users memory (Unit {0}) service (refresh_of "r1" 1_000) second_moment behind

-- The token of the login, used twice.
abbrev used_twice : List (ℕ × Request × AuthService.Moment)
used_twice =
    (1_000_000, refresh_with (record { refresh_token = "refresh one" }), second_moment)
    ∷ (0, refresh_with (record { refresh_token = "refresh one" }), second_moment)
    ∷ []

exchanges-once_example : exchanges users memory (Unit {0}) service "r1" used_twice behind ≤ 1
exchanges-once_example =
    exchanges-once users memory (Unit {0}) service (λ phone code st. refl) "r1" used_twice behind
      (refl, (refl, tt))

one_exchange : exchanges users memory (Unit {0}) service "r1" used_twice behind ≡ 1
unfolding exchanges perform AuthService.login AuthService.log_in AuthService.generate_token_pair
    AuthService.refresh_token AuthService.renew UserRepo.get_by_username UserRepo.get_by_id
    UserRepo.update UserRepo.to_domain_user UserRepo.to_user_entity UserDao.find_by_username
    UserDao.find_by_id UserDao.update RefreshTokens.save RefreshTokens.consume
    RefreshTokens.consume_script User.is_active User.role_text UserService.is_user_not_found
one_exchange = refl

abbrev given_back : LogoutRequest
given_back = record { refresh_token = "refresh one" }

abbrev out : State users memory (Unit {0})
out = (AuthService.logout users memory (Unit {0}) service given_back first_moment behind).1

logout_run :
    AuthService.logout users memory (Unit {0}) service given_back first_moment behind ≡ (ok tt, out)
unfolding AuthService.logout RefreshTokens.revoke
logout_run = refl

logout-exchanges_example : exchanges users memory (Unit {0}) service "r1" used_twice out ≡ 0
logout-exchanges_example =
    logout-exchanges users memory (Unit {0}) service (λ phone code st. refl) given_back first_moment
      behind out (refresh_of "r1" 1_000) used_twice refl logout_run (refl, (refl, tt))

operations-Refines_example :
    Refines memory
      (AnyAnswer memory)
      (add_token "r1" "u1")
      no_tokens
      (RefreshTokens.save memory "r1" "u1" 5_000 no_tokens)
    × Refines memory
        (OwnerOf memory "r1")
        (drop_token "r1")
        no_tokens
        (RefreshTokens.consume memory "r1" no_tokens)
    × Refines memory
        (AnyAnswer memory)
        (drop_token "r1")
        no_tokens
        (RefreshTokens.revoke memory "r1" no_tokens)
operations-Refines_example = operations-Refines memory "r1" "u1" 5_000 no_tokens

abbrev reset : ResetPasswordRequest
reset = record { user_id = "u1"; new_password = "secret100" }

reset_password_lem_example :
    Ends
      (λ _ d'. PasswordSet users bcrypt "u1" "secret100" table.content d'.content)
      (λ _ d'. d'.content ≡ table.content)
      (UserService.reset_password users bcrypt reset 3 table)
reset_password_lem_example = reset_password_lem users bcrypt reset 3 table

abbrev changed : ChangePasswordRequest
changed = record { old_password = "secret99"; new_password = "secret100" }

change_password_lem_example :
    Ends
      (λ _ d'.
        Knows users bcrypt changed "u1" table.content
        × PasswordSet users bcrypt "u1" "secret100" table.content d'.content)
      (λ _ d'. d'.content ≡ table.content)
      (UserService.change_password users bcrypt "u1" changed 3 table)
change_password_lem_example = change_password_lem users bcrypt "u1" changed 3 table

abbrev frozen_table : Table UserRow
frozen_table = (UserService.freeze_user users bcrypt "u1" table).1

freeze_run : UserService.freeze_user users bcrypt "u1" table ≡ (ok tt, frozen_table)
unfolding UserService.freeze_user UserService.change_only UserRepo.get_by_id UserRepo.update
    UserRepo.to_domain_user UserRepo.to_user_entity UserDao.find_by_id UserDao.update User.freeze
freeze_run = refl

freeze_user-ShutOut_example :
    ShutOut users bcrypt memory (Unit {0}) service "u1" ((frozen_table, no_tokens), tt)
freeze_user-ShutOut_example =
    freeze_user-ShutOut users bcrypt memory (Unit {0}) service "u1" table frozen_table no_tokens tt
      freeze_run

abbrev bob : CreateUserRequest
bob = record {
  tenant_id = some "t1";
  username = "bob";
  password = "longenough";
  email = none;
  phone = none;
  real_name = "Bob";
  role = operator;
}

create_lem_example :
    Ends
      (λ user d'. Created users bcrypt bob table.content user d'.content)
      (NotCreated users bcrypt table)
      (UserService.create users bcrypt bob 3 "u2" table)
create_lem_example = create_lem users bcrypt bob 3 "u2" table

-- A user twice: the second is refused.
abbrev items : List (CreateUserRequest × ℕ × String)
items = (bob, 3, "u2") ∷ (bob, 4, "u3") ∷ []

import_users-AllAccounted_example :
    AllAccounted users bcrypt items table.content
      (UserService.import_users users bcrypt items table).0
      (UserService.import_users users bcrypt items table).1.content
import_users-AllAccounted_example = import_users-AllAccounted users bcrypt items table

one_imported : (UserService.import_users users bcrypt items table).0.success ≡ 1
unfolding UserService.import_users UserService.import_from UserService.create
    UserRepo.get_by_username UserRepo.create UserRepo.to_domain_user UserRepo.to_user_entity
    UserDao.find_by_username UserDao.insert UserDao.insert_error User.new_user
    UserService.is_user_not_found
one_imported = refl

abbrev tenants : Gorm TenantRow
tenants = table_memory (λ a b. str_eq a.id b.id || str_eq a.name b.name)

abbrev tenant_row : String → TenantStatus → TenantRow
tenant_row id status = record {
  id = id;
  name = id;
  contact_name = "";
  contact_phone = "";
  contact_email = "";
  status = status;
  address = "";
  plan_type = free;
  description = "";
  credit_code = "";
  remark = "";
  created_at = 1;
  updated_at = 1;
}

abbrev three : Table TenantRow
three = record {
  content =
      tenant_row "a" TenantStatus.active
      ∷ tenant_row "b" frozen
      ∷ tenant_row "c" TenantStatus.active
      ∷ [];
  time = 9;
}

get_tenant_summary_counts_example :
    Post tenants {E = Error}
      (λ resp rs. (rs ≡ three.content) × IsSummary (some (ok 7)) rs resp)
      (λ rs. rs ≡ three.content)
      (TenantService.get_tenant_summary tenants (some (ok 7)) three)
get_tenant_summary_counts_example = get_tenant_summary_counts tenants (some (ok 7)) three
