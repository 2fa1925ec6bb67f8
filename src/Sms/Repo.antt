-- ===== src/Sms/Repo.antt =====
-- The SMS repository, internal/domains/sms/repository/sms_repo.go, over the codes in Redis and the
-- table of records. `uuid` is the id that `uuid.New` gives.
use parkhub_api.Base.{ℕ, Bool, none, some, String, Result, Action, ◌>>◌}
use parkhub_api.Errors.{Error}
use parkhub_api.Gorm.{Gorm}
use parkhub_api.Redis.{Redis}
use parkhub_api.Sms.Code.{SmsCode, SmsPurpose, purpose_text}
use parkhub_api.Sms.Cache
use parkhub_api.Sms.Record
use parkhub_api.Sms.Record.{SmsRecord}

abbrev pub success_record : SmsCode → String → SmsRecord
success_record code uuid = record {
  id = uuid;
  phone = code.phone;
  purpose = purpose_text code.purpose;
  code = code.code;
  status = "success";
  provider_err = none;
  created_at = 0;
}

abbrev pub failure_record : String → SmsPurpose → String → String → SmsRecord
failure_record phone purpose provider_err uuid = record {
  id = uuid;
  phone = phone;
  purpose = purpose_text purpose;
  code = "";
  status = "failed";
  provider_err = some provider_err;
  created_at = 0;
}

module _ (r : Redis) (g : Gorm SmsRecord) where
  abbrev pub Stores : Type 0
  Stores = r.Store × g.Db

  abbrev pub on_cache : {A : Type 0} → Action r.Store Error A → Action Stores Error A
  on_cache m (s, d) = let (x, s') = m s in (x, (s', d))

  abbrev pub on_records : {A : Type 0} → Action g.Db Error A → Action Stores Error A
  on_records m (s, d) = let (x, d') = m d in (x, (s, d'))

  unfoldable pub save_code :
      (SmsCode → Result String String) → SmsCode → String → ℕ → Action Stores Error (Unit {0})
  save_code marshal code uuid now = do
    on_cache (Cache.store r marshal code now)
    on_records (Record.insert g (success_record code uuid))

  unfoldable pub save_send_failure :
      String → SmsPurpose → String → String → Action Stores Error (Unit {0})
  save_send_failure phone purpose provider_err uuid =
      on_records (Record.insert g (failure_record phone purpose provider_err uuid))

  unfoldable pub get_code :
      (String → Result String SmsCode) → String → SmsPurpose → Action Stores Error SmsCode
  get_code unmarshal phone purpose = on_cache (Cache.retrieve r unmarshal phone purpose)

  unfoldable pub mark_code_used : String → SmsPurpose → Action Stores Error (Unit {0})
  mark_code_used phone purpose = on_cache (Cache.verify_and_consume r phone purpose "")

  unfoldable pub verify_and_consume : String → SmsPurpose → String → Action Stores Error (Unit {0})
  verify_and_consume phone purpose input = on_cache (Cache.verify_and_consume r phone purpose input)

  unfoldable pub try_reserve_rate_limit : String → ℕ → Action Stores Error Bool
  try_reserve_rate_limit phone ttl = on_cache (Cache.try_reserve_rate_limit r phone ttl)

  unfoldable pub release_rate_limit : String → Action Stores Error (Unit {0})
  release_rate_limit phone = on_cache (Cache.release_rate_limit r phone)
