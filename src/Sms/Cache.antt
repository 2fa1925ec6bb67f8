-- ===== src/Sms/Cache.antt =====
-- The codes and rate limits in Redis, internal/domains/sms/repository/cache/redis_cache.go.
-- `encoding/json` on a code is the pair of arguments `marshal` and `unmarshal`.
pub mod Once
pub mod RateLimit
pub mod Stored
use parkhub_api.Base.{
  ℕ, ◌-◌, Bool, Option, none, some, String, List, [], ◌∷◌, Result, ok, err, Action, ◌>>=◌, pure,
  lift, catch, str_eq, leb, if◌then◌else◌,
}
use Prim.Native.String.{◌++◌}
use parkhub_api.Errors.{Error, sms, other, code_not_found, code_mismatch}
use parkhub_api.Redis.{Redis, Script, get, del, return}
use parkhub_api.Sms.Code.{SmsCode, SmsPurpose, purpose_text}

abbrev pub sms_key : String → SmsPurpose → String
sms_key phone purpose = "sms:code:" ++ purpose_text purpose ++ ":" ++ phone

abbrev pub sms_token_key : String → SmsPurpose → String
sms_token_key phone purpose = "sms:code:" ++ purpose_text purpose ++ ":" ++ phone ++ ":token"

abbrev pub rate_limit_key : String → String
rate_limit_key phone = "sms:ratelimit:" ++ phone

-- `verifyAndConsumeScript`
abbrev pub compare_token : String → String → Script String
compare_token input token = if str_eq token input then return "ok" else return "mismatch"

abbrev pub consume_token : String → String → Option String → Script String
consume_token key input none = return "not_found"
consume_token key input (some token) = del key (compare_token input token)

unfoldable pub verify_and_consume_script : String → String → Script String
verify_and_consume_script key input = get key (consume_token key input)

-- The `switch` on the script's reply.
unfoldable pub reply : String → Result Error (Unit {0})
reply text =
    if str_eq text "ok"
    then ok tt
    else if str_eq text "mismatch"
    then err (sms code_mismatch)
    else err (sms code_not_found)

-- `time.Until(expires_at)`, or a minute where that is not positive.
abbrev pub time_left : ℕ → ℕ → ℕ
time_left expires_at now = if leb expires_at now then 60_000 else expires_at - now

abbrev pub decoded : (String → Result String SmsCode) → Option String → Result Error SmsCode
decoded unmarshal none = err (sms code_not_found)
decoded unmarshal (some json) = elim (unmarshal json) [ ok code ↦ ok code | err e ↦ err (other e) ]

abbrev pub encoded : Result String String → Result Error String
encoded (ok json) = ok json
encoded (err e) = err (other e)

module _ (r : Redis) where
  open r use {Store}

  unfoldable pub store :
      (SmsCode → Result String String) → SmsCode → ℕ → Action Store Error (Unit {0})
  store marshal code now = do
    json ← lift (encoded (marshal code))
    let ttl = time_left code.expires_at now
    catch other (
        r.pipeline (
          (sms_key code.phone code.purpose, json, ttl)
          ∷ (sms_token_key code.phone code.purpose, code.code, ttl)
          ∷ []))

  unfoldable pub retrieve :
      (String → Result String SmsCode) → String → SmsPurpose → Action Store Error SmsCode
  retrieve unmarshal phone purpose = do
    json ← catch other (r.get (sms_key phone purpose))
    lift (decoded unmarshal json)

  unfoldable pub verify_and_consume : String → SmsPurpose → String → Action Store Error (Unit {0})
  verify_and_consume phone purpose input = do
    text ← catch other (r.eval (verify_and_consume_script (sms_token_key phone purpose) input))
    lift (reply text)

  unfoldable pub try_reserve_rate_limit : String → ℕ → Action Store Error Bool
  try_reserve_rate_limit phone ttl = catch other (r.set_nx (rate_limit_key phone) "1" ttl)

  unfoldable pub release_rate_limit : String → Action Store Error (Unit {0})
  release_rate_limit phone = catch other (r.del (rate_limit_key phone))
