-- ===== src/Sms/Service.antt =====
-- The SMS service, internal/domains/sms/service/sms_service.go. The gateway, an interface, is a state
-- with the argument `send`. `now` is the time of `NewSmsCode` and `stored` that of `Store`.
pub mod Refusals
use Prim.Native.Char.{Char, code}
use Prim.Native.String.{◌∷◌, []}
use parkhub_api.Base.{
  ℕ, zero, suc, Bool, true, false, not, ◌&&◌, String, Result, ok, err, Action, ◌>>=◌, ◌>>◌, pure,
  raise, raise_if, or_else, leb, if◌then◌else◌, ◌==◌,
}
use parkhub_api.Errors.{Error, sms, invalid_phone, phone_rate_limit}
use parkhub_api.Gorm.{Gorm}
use parkhub_api.Redis.{Redis}
use parkhub_api.Sms.Code.{SmsCode, SmsPurpose, purpose_text, new_sms_code}
use parkhub_api.Sms.Record.{SmsRecord}
use parkhub_api.Sms.Repo
use parkhub_api.Sms.Repo.{Stores}

pub record SendCodeRequest : Type 0 where
  pub phone : String
  pub purpose : SmsPurpose

pub record VerifyCodeRequest : Type 0 where
  pub phone : String
  pub code : String
  pub purpose : SmsPurpose

abbrev pub code_ttl : ℕ
code_ttl = 300_000

abbrev pub rate_limit_ttl : ℕ
rate_limit_ttl = 60_000

abbrev pub between : ℕ → ℕ → Char → Bool
between low high c = leb low (code c) && leb (code c) high

-- `\d{n}$`
abbrev pub digits : ℕ → String → Bool
digits zero [] = true
digits zero (c ∷ s) = false
digits (suc n) [] = false
digits (suc n) (c ∷ s) = between 48 57 c && digits n s

-- `^1[3-9]\d{9}$`
unfoldable pub is_valid_phone : String → Bool
is_valid_phone [] = false
is_valid_phone (a ∷ []) = false
is_valid_phone (a ∷ (b ∷ s)) = (code a == 49) && between 51 57 b && digits 9 s

-- What the service has at hand: the source of chance, the codec, the gateway and fresh ids.
pub record Outside (W : Type 0) : Type 0 where
  pub rand : ℕ → Result String ℕ
  pub marshal : SmsCode → Result String String
  pub send : String → String → String → Action W String (Unit {0})
  pub code_id : String
  pub record_id : String
  pub now : ℕ
  pub stored : ℕ

module _ (r : Redis) (g : Gorm SmsRecord) (W : Type 0) where
  -- The stores, and what the gateway has seen.
  abbrev pub State : Type 0
  State = Stores r g × W

  abbrev pub on_repo : {A : Type 0} → Action (Stores r g) Error A → Action State Error A
  on_repo m (s, w) = let (x, s') = m s in (x, (s', w))

  -- The error of the gateway is looked at, not passed on.
  abbrev pub on_gateway : Action W String (Unit {0}) → Action State Error (Result String (Unit {0}))
  on_gateway m (s, w) = let (x, w') = m w in (ok x, (s, w'))

  -- `_ = s.repo.ReleaseRateLimit(…)`
  abbrev pub release : String → Action State Error (Unit {0})
  release phone = or_else tt (on_repo (Repo.release_rate_limit r g phone))

  abbrev pub after_send :
      Outside W
      → SendCodeRequest
      → SmsCode
      → Result String (Unit {0})
      → Action State Error (Unit {0})
  after_send o req code (err e) =
      release req.phone >> on_repo (Repo.save_send_failure r g req.phone req.purpose e o.record_id)
  after_send o req code (ok _) = on_repo (Repo.save_code r g o.marshal code o.record_id o.stored)

  abbrev pub deliver :
      Outside W → SendCodeRequest → Result Error SmsCode → Action State Error (Unit {0})
  deliver o req (err e) = release req.phone >> raise e
  deliver o req (ok code) =
      let code' = record code { id = o.code_id } in
      on_gateway (o.send code'.phone code'.code (purpose_text code'.purpose))
      >>= after_send o req code'

  unfoldable pub send_code : Outside W → SendCodeRequest → Action State Error (Unit {0})
  send_code o req = do
    raise_if (not (is_valid_phone req.phone)) (sms invalid_phone)
    reserved ← on_repo (Repo.try_reserve_rate_limit r g req.phone rate_limit_ttl)
    raise_if (not reserved) (sms phone_rate_limit)
    deliver o req (new_sms_code o.rand req.phone req.purpose code_ttl o.now)

  unfoldable pub verify_code : VerifyCodeRequest → Action State Error (Unit {0})
  verify_code req = on_repo (Repo.verify_and_consume r g req.phone req.purpose req.code)
