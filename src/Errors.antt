-- ===== src/Errors.antt =====
-- The error values of the domains: internal/domains/*/errs/errors.go, and the errors that the code
-- makes on the spot. A Go `error` is one of these; `%w` wraps one in a text.
use parkhub_api.Base.{String, ◌≡◌}

-- internal/domains/iot/errs/errors.go
pub data IotError : Type 0 where
  device_not_found device_id_duplicate device_not_bound : IotError
  device_must_unbind device_offline invalid_command : IotError

-- internal/domains/parking/errs/errors.go
pub data ParkingError : Type 0 where
  parking_lot_not_found parking_lot_already_exists parking_lot_invalid_status : ParkingError
  parking_lot_invalid_capacity parking_lot_name_duplicate : ParkingError
  lane_not_found lane_name_duplicate : ParkingError

-- internal/domains/sms/errs/errors.go
pub data SmsError : Type 0 where
  code_expired code_used code_mismatch code_not_found : SmsError
  phone_rate_limit invalid_phone invalid_purpose : SmsError

-- internal/domains/identity/errs/errors.go
pub data IdentityError : Type 0 where
  tenant_not_found tenant_already_exists tenant_invalid_status : IdentityError
  user_not_found user_already_exists user_invalid_status user_frozen : IdentityError
  password_incorrect password_too_short invalid_role : IdentityError
  invalid_credentials refresh_token_invalid refresh_token_revoked : IdentityError

pub data Error : Type 0 where
  iot : IotError → Error
  parking : ParkingError → Error
  sms : SmsError → Error
  identity : IdentityError → Error
  -- `errors.New(text)` in a function's body, or an error of a library with its text
  other : String → Error
  -- `fmt.Errorf("…%w", err)`
  wrap : String → Error → Error

-- An error that no domain has declared: the text of a library's error.
abbrev pub IsOther : Error → Type 0
IsOther e = (t : String) × (e ≡ other t)
