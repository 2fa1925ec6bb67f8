-- ===== src/Sms/Record.antt =====
-- The sms_records table, internal/domains/sms/repository/dao/sms_record.go.
use parkhub_api.Base.{
  ℕ, ◌-◌, ◌*◌, Bool, true, ◌&&◌, ◌||◌, Option, none, some, String, List, Action, ◌>>=◌, pure, catch,
  str_eq, leb, if◌then◌else◌, ◌==◌,
}
use parkhub_api.Errors.{Error, other}
use parkhub_api.Gorm.{Gorm, DbError, record_not_found, failed}

pub record SmsRecord : Type 0 where
  pub id : String
  pub phone : String
  pub purpose : String
  pub code : String
  pub status : String
  pub provider_err : Option String
  pub created_at : ℕ

-- An empty text and an absent time ask for no restriction.
pub record SmsRecordFilter : Type 0 where
  pub phone : String
  pub purpose : String
  pub status : String
  pub start_time : Option ℕ
  pub end_time : Option ℕ

-- The tag `autoCreateTime:milli`.
abbrev pub stamp : SmsRecord → ℕ → SmsRecord
stamp r now = record r { created_at = if r.created_at == 0 then now else r.created_at }

-- An error that is passed on as it is.
abbrev pub raw_error : DbError → Error
raw_error record_not_found = other "record not found"
raw_error (failed e) = other e

abbrev pub from_time : Option ℕ → SmsRecord → Bool
from_time none r = true
from_time (some t) r = leb t r.created_at

abbrev pub to_time : Option ℕ → SmsRecord → Bool
to_time none r = true
to_time (some t) r = leb r.created_at t

-- The conditions of `List`.
unfoldable pub list_where : SmsRecordFilter → SmsRecord → Bool
list_where f r =
    (str_eq f.phone "" || str_eq r.phone f.phone)
    && (str_eq f.purpose "" || str_eq r.purpose f.purpose)
    && (str_eq f.status "" || str_eq r.status f.status)
    && from_time f.start_time r
    && to_time f.end_time r

module _ (g : Gorm SmsRecord) where
  open g use {Db}

  unfoldable pub insert : SmsRecord → Action Db Error (Unit {0})
  insert r = catch raw_error (g.create (stamp r))

  unfoldable pub find_by_id : String → Action Db Error SmsRecord
  find_by_id id = catch raw_error (g.first (λ r. str_eq r.id id))

  unfoldable pub find_by_phone : String → ℕ → ℕ → Action Db Error (List SmsRecord × ℕ)
  find_by_phone phone page page_size = do
    total ← catch raw_error (g.total (λ r. str_eq r.phone phone))
    let offset = (page - 1) * page_size
    records ← catch raw_error (g.find (λ r. str_eq r.phone phone) offset page_size)
    pure (records, total)

  unfoldable pub list : SmsRecordFilter → ℕ → ℕ → Action Db Error (List SmsRecord × ℕ)
  list filter page page_size = do
    total ← catch raw_error (g.total (list_where filter))
    let offset = (page - 1) * page_size
    records ← catch raw_error (g.find (list_where filter) offset page_size)
    pure (records, total)
