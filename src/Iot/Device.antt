-- ===== src/Iot/Device.antt =====
-- The device entity, internal/domains/iot/domain/device.go. A method that mutates `*Device` returns
-- the new record; `time.Now()` is its argument `now`, in nanoseconds.
pub mod Lifecycle
use parkhub_api.Base.{
  ℕ, Bool, true, false, not, ◌&&◌, Option, none, some, String, Result, ok, err, is_some, str_eq,
  if◌then◌else◌,
}
use parkhub_api.Errors.{Error, iot, other, device_not_bound}

-- `DeviceType` and `DeviceStatus` are texts in Go: the constants, and any other text.
pub data DeviceType : Type 0 where
  integrated camera_only barrier_only : DeviceType
  other_type : String → DeviceType

pub data DeviceStatus : Type 0 where
  pending active offline disabled : DeviceStatus
  other_status : String → DeviceStatus

-- `==` on statuses.
abbrev pub same_status : DeviceStatus → DeviceStatus → Bool
same_status pending pending = true
same_status active active = true
same_status offline offline = true
same_status disabled disabled = true
same_status (other_status s) (other_status t) = str_eq s t
same_status _ _ = false

pub record Device : Type 0 where
  pub id : String
  pub tenant_id : String
  pub name : String
  pub type : DeviceType
  pub status : DeviceStatus
  pub firmware_version : String
  pub last_heartbeat : Option ℕ
  pub parking_lot_id : Option String
  pub gate_id : Option String
  pub created_at : ℕ
  pub updated_at : ℕ

unfoldable pub new_device : String → String → DeviceType → String → ℕ → Device
new_device id name type firmware_version now = record {
  id = id;
  tenant_id = "";
  name = name;
  type = type;
  status = pending;
  firmware_version = firmware_version;
  last_heartbeat = none;
  parking_lot_id = none;
  gate_id = none;
  created_at = now;
  updated_at = now;
}

unfoldable pub activate : ℕ → Device → Result Error Device
activate now d =
    if not (same_status d.status pending) && not (same_status d.status offline)
    then err (other "设备状态不允许激活")
    else ok (record d { status = active; updated_at = now })

unfoldable pub go_offline : ℕ → Device → Result Error Device
go_offline now d =
    if not (same_status d.status active)
    then err (other "只有已激活的设备可以离线")
    else ok (record d { status = offline; updated_at = now })

unfoldable pub disable : ℕ → Device → Result Error Device
disable now d =
    if same_status d.status disabled
    then err (other "设备已是禁用状态")
    else ok (record d { status = disabled; updated_at = now })

unfoldable pub enable : ℕ → Device → Result Error Device
enable now d =
    if not (same_status d.status disabled)
    then err (other "只有已禁用的设备可以启用")
    else ok (record d { status = active; updated_at = now })

unfoldable pub bind : String → String → ℕ → Device → Result Error Device
bind parking_lot_id gate_id now d =
    if is_some d.parking_lot_id
    then err (other "设备已绑定，请先解绑")
    else ok (record d {
      parking_lot_id = some parking_lot_id;
      gate_id = some gate_id;
      status = if same_status d.status pending then active else d.status;
      updated_at = now;
    })

unfoldable pub unbind : ℕ → Device → Result Error Device
unbind now d =
    if not (is_some d.parking_lot_id)
    then err (iot device_not_bound)
    else ok (record d { parking_lot_id = none; gate_id = none; updated_at = now })

unfoldable pub update_name : String → ℕ → Device → Device
update_name name now d = record d { name = name; updated_at = now }

unfoldable pub is_bound : Device → Bool
is_bound d = is_some d.parking_lot_id
