-- ===== src/Sms/Code.antt =====
-- The verification code, internal/domains/sms/domain/sms_code.go. Times and durations are milliseconds.
-- The source of chance, `rand.Int(rand.Reader, 10)`, is the argument `rand`: its n-th answer.
pub mod Fresh
use parkhub_api.Base.{
  ℕ, zero, suc, ◌+◌, Bool, true, false, not, String, Result, ok, err, str_eq, ltb, if◌then◌else◌,
}
use Prim.Native.Char.{Char}
use Prim.Native.String.{◌∷◌, char_at}
use parkhub_api.Errors.{
  Error, sms, other, invalid_phone, invalid_purpose, code_used, code_expired, code_mismatch,
}

-- A text in Go: the constants, and any other text.
pub data SmsPurpose : Type 0 where
  login register reset_password : SmsPurpose
  other_purpose : String → SmsPurpose

-- `string(purpose)`
unfoldable pub purpose_text : SmsPurpose → String
purpose_text login = "login"
purpose_text register = "register"
purpose_text reset_password = "reset_password"
purpose_text (other_purpose s) = s

pub record SmsCode : Type 0 where
  pub id : String
  pub phone : String
  pub code : String
  pub purpose : SmsPurpose
  pub expires_at : ℕ
  pub used : Bool
  pub created_at : ℕ

unfoldable pub is_valid_purpose : SmsPurpose → Bool
is_valid_purpose (other_purpose s) = false
is_valid_purpose _ = true

-- `byte('0' + n)`, for the numbers below 10 that `rand.Int` gives.
abbrev pub digit : ℕ → Char
digit n = char_at "0123456789" n

-- The round `i` of the loop, and the rounds behind it.
unfoldable pub generate_code : (ℕ → Result String ℕ) → ℕ → ℕ → Result Error String
generate_code rand i zero = ok ""
generate_code rand i (suc length) =
    let rest = generate_code rand (suc i) length in
    elim (rand i) [
      | ok n ↦ elim rest [ ok s ↦ ok (digit n ∷ s) | err e ↦ err e ]
      | err e ↦ err (other e)
    ]

-- The code that is made of the digits.
abbrev pub fresh : String → SmsPurpose → ℕ → ℕ → Result Error String → Result Error SmsCode
fresh phone purpose ttl now (ok code) = ok (record {
  id = "";
  phone = phone;
  code = code;
  purpose = purpose;
  expires_at = now + ttl;
  used = false;
  created_at = now;
})
fresh phone purpose ttl now (err e) = err e

unfoldable pub new_sms_code :
    (ℕ → Result String ℕ) → String → SmsPurpose → ℕ → ℕ → Result Error SmsCode
new_sms_code rand phone purpose ttl now =
    if str_eq phone ""
    then err (sms invalid_phone)
    else if not (is_valid_purpose purpose)
    then err (sms invalid_purpose)
    else fresh phone purpose ttl now (generate_code rand 0 6)

unfoldable pub is_expired : SmsCode → ℕ → Bool
is_expired s now = ltb s.expires_at now

-- `Verify` at the time `now`; nothing is an answer without an error.
unfoldable pub verify : SmsCode → String → ℕ → Result Error (Unit {0})
verify s input now =
    if s.used
    then err (sms code_used)
    else if is_expired s now
    then err (sms code_expired)
    else if not (str_eq s.code input)
    then err (sms code_mismatch)
    else ok tt

unfoldable pub mark_used : SmsCode → SmsCode
mark_used s = record s { used = true }
