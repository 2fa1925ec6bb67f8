-- ===== src/Iot/Repo.antt =====
-- The device repository, internal/domains/iot/repository/device_repo.go: it carries devices to rows
-- and back. Times are nanoseconds in a device and milliseconds in a row.
use parkhub_api.Base.{
  ℕ, ◌*◌, ◌/◌, ◌≡◌, Bool, Option, none, some, String, List, map, Action, ◌>>=◌, pure, arith,
}
use parkhub_api.Errors.{Error}
use parkhub_api.Gorm.{Gorm}
use parkhub_api.Iot.Device.{Device, DeviceStatus}
use parkhub_api.Iot.Dao
use parkhub_api.Iot.Dao.{DeviceRow, DeviceFilter, StatusCounts}

-- Go's `time.UnixMilli(ms)` and `t.UnixMilli()`.
abbrev pub from_unix_milli : ℕ → ℕ
from_unix_milli ms = ms * 1_000_000

abbrev pub unix_milli : ℕ → ℕ
unix_milli t = t / 1_000_000

abbrev map_option : (ℕ → ℕ) → Option ℕ → Option ℕ
map_option f none = none
map_option f (some t) = some (f t)

unfoldable pub to_domain_device : DeviceRow → Device
to_domain_device d = record {
  id = d.id;
  tenant_id = d.tenant_id;
  name = d.name;
  type = d.type;
  status = d.status;
  firmware_version = d.firmware_version;
  last_heartbeat = map_option from_unix_milli d.last_heartbeat_at;
  parking_lot_id = d.parking_lot_id;
  gate_id = d.gate_id;
  created_at = from_unix_milli d.created_at;
  updated_at = from_unix_milli d.updated_at;
}

unfoldable pub to_dao_device : Device → DeviceRow
to_dao_device d = record {
  id = d.id;
  tenant_id = d.tenant_id;
  name = d.name;
  type = d.type;
  status = d.status;
  firmware_version = d.firmware_version;
  last_heartbeat_at = map_option unix_milli d.last_heartbeat;
  parking_lot_id = d.parking_lot_id;
  gate_id = d.gate_id;
  created_at = unix_milli d.created_at;
  updated_at = unix_milli d.updated_at;
}

module _ (g : Gorm DeviceRow) where
  open g use {Db}

  unfoldable pub create : Device → Action Db Error (Unit {0})
  create device = Dao.insert g (to_dao_device device)

  unfoldable pub get_by_id : String → String → Action Db Error Device
  get_by_id tenant_id id = do d ← Dao.find_by_id g tenant_id id; pure (to_domain_device d)

  unfoldable pub list :
      (String → String → Bool) → DeviceFilter → ℕ → ℕ → Action Db Error (List Device × ℕ)
  list like filter page page_size = do
    found ← Dao.find_all g like filter page page_size
    pure (map to_domain_device found.0, found.1)

  unfoldable pub update : Device → Action Db Error (Unit {0})
  update device = Dao.update g (to_dao_device device)

  unfoldable pub delete : String → String → Action Db Error (Unit {0})
  delete tenant_id id = Dao.delete g tenant_id id

  unfoldable pub delete_batch : String → List String → Action Db Error ℕ
  delete_batch tenant_id ids = Dao.delete_batch g tenant_id ids

  unfoldable pub count_by_status : String → Action Db Error StatusCounts
  count_by_status tenant_id = Dao.count_by_status g tenant_id

  unfoldable pub update_status : String → String → DeviceStatus → Action Db Error (Unit {0})
  update_status tenant_id id status = Dao.update_status g tenant_id id status

  unfoldable pub update_status_batch : String → List String → DeviceStatus → Action Db Error ℕ
  update_status_batch tenant_id ids status = Dao.update_status_batch g tenant_id ids status

  unfoldable pub unbind_by_device_ids : String → List String → Action Db Error (Unit {0})
  unbind_by_device_ids tenant_id ids = Dao.unbind_by_device_ids g tenant_id ids

-- A row that is read and written back is the same row: nothing is lost between the two forms.
pub to_dao_device-to_domain_device : (r : DeviceRow) → to_dao_device (to_domain_device r) ≡ r
unfolding to_dao_device to_domain_device
to_dao_device-to_domain_device r = ground arith
