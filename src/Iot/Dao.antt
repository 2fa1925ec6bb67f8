-- ===== src/Iot/Dao.antt =====
-- The devices table, internal/domains/iot/repository/dao/device.go: each method builds gorm's
-- statement and turns its error, or a count of 0, into an error of the domain.
use parkhub_api.Base.{
  ℕ, ◌-◌, ◌*◌, Bool, false, ◌&&◌, ◌||◌, Option, none, some, String, List, [], ◌∷◌, Action, ◌>>=◌,
  pure, catch, raise_if, any, contains, str_eq, if◌then◌else◌, ◌==◌,
}
use parkhub_api.Errors.{Error, iot, other, device_not_found, device_id_duplicate}
use parkhub_api.Gorm.{Gorm, DbError, record_not_found, failed}
use parkhub_api.Iot.Device.{
  DeviceType, DeviceStatus, pending, active, offline, disabled, other_status, same_status,
}

pub record DeviceRow : Type 0 where
  pub id : String
  pub tenant_id : String
  pub name : String
  pub type : DeviceType
  pub status : DeviceStatus
  pub firmware_version : String
  pub last_heartbeat_at : Option ℕ
  pub parking_lot_id : Option String
  pub gate_id : Option String
  pub created_at : ℕ
  pub updated_at : ℕ

-- An empty text asks for no restriction.
pub record DeviceFilter : Type 0 where
  pub tenant_id : String
  pub status : DeviceStatus
  pub parking_lot_id : String
  pub keyword : String

-- `tenant_id = ? AND id = ?`
abbrev pub has_id : String → String → DeviceRow → Bool
has_id tenant_id id r = str_eq r.tenant_id tenant_id && str_eq r.id id

-- `tenant_id = ? AND id IN ?`
abbrev pub has_id_in : String → List String → DeviceRow → Bool
has_id_in tenant_id ids r = str_eq r.tenant_id tenant_id && any (str_eq r.id) ids

-- The tags `autoCreateTime:milli` and `autoUpdateTime:milli`: a time that is 0 is filled in.
abbrev pub stamp : DeviceRow → ℕ → DeviceRow
stamp r now = record r {
  created_at = if r.created_at == 0 then now else r.created_at;
  updated_at = if r.updated_at == 0 then now else r.updated_at;
}

-- The columns that `Update` selects; gorm fills `updated_at` with its clock.
abbrev pub set_columns : DeviceRow → ℕ → DeviceRow → DeviceRow
set_columns device now r = record r {
  name = device.name;
  type = device.type;
  status = device.status;
  firmware_version = device.firmware_version;
  last_heartbeat_at = device.last_heartbeat_at;
  parking_lot_id = device.parking_lot_id;
  gate_id = device.gate_id;
  updated_at = now;
}

abbrev pub insert_error : DbError → Error
insert_error record_not_found = other "record not found"
insert_error (failed e) =
    if contains e "duplicate" || contains e "UNIQUE" || contains e "Duplicate"
    then iot device_id_duplicate
    else other e

abbrev pub find_error : DbError → Error
find_error record_not_found = iot device_not_found
find_error (failed e) = other e

-- An error that is passed on as it is.
abbrev pub raw_error : DbError → Error
raw_error record_not_found = other "record not found"
raw_error (failed e) = other e

-- `parking_lot_id = ?`, which is never true of NULL.
abbrev lot_is : Option String → String → Bool
lot_is none lot = false
lot_is (some l) lot = str_eq l lot

-- The conditions that `FindAll` adds, each only for a field that is not empty. `like` is MySQL's
-- LIKE with `%` on both sides of the keyword.
unfoldable pub find_all_where : (String → String → Bool) → DeviceFilter → DeviceRow → Bool
find_all_where like f r =
    (str_eq f.tenant_id "" || str_eq r.tenant_id f.tenant_id)
    && (same_status f.status (other_status "") || same_status r.status f.status)
    && (str_eq f.parking_lot_id "" || lot_is r.parking_lot_id f.parking_lot_id)
    && (str_eq f.keyword "" || like r.name f.keyword || like r.id f.keyword)

-- The results of `CountByStatus`.
pub record StatusCounts : Type 0 where
  pub pending_count : ℕ
  pub active_count : ℕ
  pub offline_count : ℕ
  pub disabled_count : ℕ

-- The `switch` in the loop of `CountByStatus`.
abbrev pub count_status : DeviceStatus × ℕ → StatusCounts → StatusCounts
count_status (pending, n) c = record c { pending_count = n }
count_status (active, n) c = record c { active_count = n }
count_status (offline, n) c = record c { offline_count = n }
count_status (disabled, n) c = record c { disabled_count = n }
count_status (other_status s, n) c = c

unfoldable pub count_statuses : List (DeviceStatus × ℕ) → StatusCounts → StatusCounts
count_statuses [] c = c
count_statuses (e ∷ l) c = count_statuses l (count_status e c)

abbrev pub no_counts : StatusCounts
no_counts = record { pending_count = 0; active_count = 0; offline_count = 0; disabled_count = 0 }

module _ (g : Gorm DeviceRow) where
  open g use {Db}

  unfoldable pub insert : DeviceRow → Action Db Error (Unit {0})
  insert device = catch insert_error (g.create (stamp device))

  unfoldable pub find_by_id : String → String → Action Db Error DeviceRow
  find_by_id tenant_id id = catch find_error (g.first (has_id tenant_id id))

  unfoldable pub find_all :
      (String → String → Bool) → DeviceFilter → ℕ → ℕ → Action Db Error (List DeviceRow × ℕ)
  find_all like filter page page_size = do
    total ← catch raw_error (g.total (find_all_where like filter))
    let offset = (page - 1) * page_size
    devices ← catch raw_error (g.find (find_all_where like filter) offset page_size)
    pure (devices, total)

  unfoldable pub update : DeviceRow → Action Db Error (Unit {0})
  update device = do
    affected ← catch raw_error (g.updates (has_id device.tenant_id device.id) (set_columns device))
    raise_if (affected == 0) (iot device_not_found)

  unfoldable pub delete : String → String → Action Db Error (Unit {0})
  delete tenant_id id = do
    affected ← catch raw_error (g.delete (has_id tenant_id id))
    raise_if (affected == 0) (iot device_not_found)

  unfoldable pub delete_batch : String → List String → Action Db Error ℕ
  delete_batch tenant_id ids = catch raw_error (g.delete (has_id_in tenant_id ids))

  unfoldable pub count_by_status : String → Action Db Error StatusCounts
  count_by_status tenant_id = do
    counts ←
        catch raw_error (g.group same_status (λ r. r.status) (λ r. str_eq r.tenant_id tenant_id))
    pure (count_statuses counts no_counts)

  unfoldable pub update_status : String → String → DeviceStatus → Action Db Error (Unit {0})
  update_status tenant_id id status = do
    affected ←
        catch raw_error (
          g.updates (has_id tenant_id id) (λ now r. record r { status = status; updated_at = now }))
    raise_if (affected == 0) (iot device_not_found)

  unfoldable pub update_status_batch : String → List String → DeviceStatus → Action Db Error ℕ
  update_status_batch tenant_id ids status = catch raw_error (
      g.updates (has_id_in tenant_id ids) (λ now r. record r { status = status; updated_at = now }))

  unfoldable pub unbind_by_device_ids : String → List String → Action Db Error (Unit {0})
  unbind_by_device_ids tenant_id ids = do
    affected ← catch raw_error (
        g.updates (has_id_in tenant_id ids)
          (λ now r. record r { parking_lot_id = none; gate_id = none; updated_at = now }))
    pure tt
