-- ===== src/Sms/Tests.antt =====
-- The SMS theorems at stores in memory, and runs of the model.
use parkhub_api.Base.{
  Result, ℕ, ◌≡◌, ◌≤◌, ◌<◌, refl, arith, true, false, none, String, List, [], ◌∷◌, ok, err, str_eq,
}
use parkhub_api.Errors.{sms, phone_rate_limit}
use parkhub_api.Gorm.{Gorm}
use parkhub_api.Gorm.Memory.{memory as table_memory}
use parkhub_api.Redis.{Entries, put}
use parkhub_api.Redis.Memory.{memory}
use parkhub_api.Sms.Code.{SmsCode, login, new_sms_code}
use parkhub_api.Sms.Code.Fresh.{IsFresh, new_sms_code-IsFresh}
use parkhub_api.Sms.Cache
use parkhub_api.Sms.Cache.{sms_key, sms_token_key, rate_limit_key}
use parkhub_api.Sms.Cache.Once.{Outcome, verify_and_consume-Outcome, successes, successes-once}
use parkhub_api.Sms.Cache.RateLimit.{try_reserve-window}
use parkhub_api.Sms.Cache.Stored.{Accepted, store-verify_and_consume}
use parkhub_api.Sms.Record.{SmsRecord}
use parkhub_api.Sms.Service
use parkhub_api.Sms.Service.{Outside, SendCodeRequest, State}
use parkhub_api.Sms.Service.Refusals.{Unsent, send_code-Unsent}

abbrev empty : Entries
empty k = none

abbrev phone : String
phone = "13800138000"

abbrev with_token : Entries
with_token = put (sms_token_key phone login) "123456" 300_000 empty

abbrev attempts : List (ℕ × String)
attempts = (1_000, "123456") ∷ (10, "123456") ∷ (10, "000000") ∷ []

successes-once_example : successes memory phone login attempts with_token ≤ 1
successes-once_example = successes-once memory phone login attempts with_token

-- A wrong input spends the code.
wrong_first : successes memory phone login ((5, "000000") ∷ (5, "123456") ∷ []) with_token ≡ 0
unfolding successes Cache.verify_and_consume Cache.verify_and_consume_script Cache.reply
    parkhub_api.Sms.Code.purpose_text
wrong_first = refl

right_first : successes memory phone login attempts with_token ≡ 1
unfolding successes Cache.verify_and_consume Cache.verify_and_consume_script Cache.reply
    parkhub_api.Sms.Code.purpose_text
right_first = refl

abbrev limited : Entries
limited = put (rate_limit_key phone) "1" 60_000 empty

reserve_first : Cache.try_reserve_rate_limit memory phone 60_000 empty ≡ (ok true, limited)
unfolding Cache.try_reserve_rate_limit
reserve_first = refl

reserve_second :
    (Cache.try_reserve_rate_limit memory phone 60_000 (memory.later 59_999 limited)).0 ≡ ok false
unfolding Cache.try_reserve_rate_limit
reserve_second = refl

try_reserve-window_example : (59_999 < 60_000 → false ≡ false) × (60_000 ≤ 59_999 → false ≡ true)
try_reserve-window_example =
    try_reserve-window memory phone 60_000 59_999 empty limited false reserve_first reserve_second

abbrev a_code : SmsCode
a_code = record {
  id = "1";
  phone = phone;
  code = "123456";
  purpose = login;
  expires_at = 300_000;
  used = false;
  created_at = 0;
}

abbrev stored : Entries
stored =
    put (sms_token_key phone login) "123456" 300_000
      (put (sms_key phone login) "json" 300_000 empty)

store_code : Cache.store memory (λ c. ok "json") a_code 0 empty ≡ (ok tt, stored)
unfolding Cache.store
store_code = refl

store-verify_and_consume_example :
    Accepted memory a_code 0
      (Cache.verify_and_consume memory phone login "123456" (memory.later 299_999 stored)).0
store-verify_and_consume_example =
    store-verify_and_consume memory a_code 0 (λ c. ok "json") 299_999 empty stored store_code
      (ground arith)

abbrev records : Gorm SmsRecord
records = table_memory (λ a b. str_eq a.id b.id)

-- A gateway that counts its messages.
abbrev outside : Outside ℕ
outside = record {
  rand = λ i. ok i;
  marshal = λ c. ok "json";
  send = λ phone code purpose n. (ok tt, ℕ.suc n);
  code_id = "c-1";
  record_id = "r-1";
  now = 0;
  stored = 0;
}

abbrev request : SendCodeRequest
request = record { phone = phone; purpose = login }

abbrev busy : State memory records ℕ
busy = ((limited, record { content = []; time = 40 }), 0)

send_code-Unsent_example :
    Unsent memory records ℕ busy (Service.send_code memory records ℕ outside request busy)
send_code-Unsent_example = send_code-Unsent memory records ℕ outside request busy

send_code_limited :
    (Service.send_code memory records ℕ outside request busy).0 ≡ err (sms phone_rate_limit)
unfolding Service.send_code Service.is_valid_phone parkhub_api.Sms.Repo.try_reserve_rate_limit
    Cache.try_reserve_rate_limit
send_code_limited = refl

verify_and_consume-Outcome_example :
    Outcome memory phone login "000000" with_token
      (Cache.verify_and_consume memory phone login "000000" with_token)
verify_and_consume-Outcome_example =
    verify_and_consume-Outcome memory phone login "000000" with_token

abbrev new_code : SmsCode
new_code = record a_code { id = ""; code = "333333" }

threes : (i n : ℕ) → ◌≡◌ {A = Result String ℕ} (ok 3) (ok n) → n < 10
threes i n h = ground (arith, h)

make_code : new_sms_code (λ i. ok 3) phone login 300_000 0 ≡ ok new_code
unfolding new_sms_code parkhub_api.Sms.Code.generate_code parkhub_api.Sms.Code.is_valid_purpose
make_code = refl

new_sms_code-IsFresh_example : IsFresh phone login 300_000 0 new_code
new_sms_code-IsFresh_example =
    new_sms_code-IsFresh (λ i. ok 3) phone login 300_000 0 new_code threes make_code
