-- ===== src/Parking/Lane.antt =====
-- The lane of a parking lot, internal/domains/parking/domain/lane.go. `time.Now().UnixMilli()` is the
-- argument `now`.
use parkhub_api.Base.{ℕ, Bool, true, false, Option, none, some, String, str_eq}
use parkhub_api.Iot.Device.{DeviceStatus}

-- A text in Go: the constants, and any other text.
pub data LaneType : Type 0 where
  entry exit : LaneType
  other_lane_type : String → LaneType

abbrev pub same_lane_type : LaneType → LaneType → Bool
same_lane_type entry entry = true
same_lane_type exit exit = true
same_lane_type (other_lane_type s) (other_lane_type t) = str_eq s t
same_lane_type _ _ = false

pub record Lane : Type 0 where
  pub id : String
  pub tenant_id : String
  pub parking_lot_id : String
  pub name : String
  pub type : LaneType
  pub device_id : Option String
  pub created_at : ℕ
  pub updated_at : ℕ

unfoldable pub new_lane : String → String → String → String → LaneType → ℕ → Lane
new_lane id tenant_id parking_lot_id name lane_type now = record {
  id = id;
  tenant_id = tenant_id;
  parking_lot_id = parking_lot_id;
  name = name;
  type = lane_type;
  device_id = none;
  created_at = now;
  updated_at = now;
}

unfoldable pub set_device : String → ℕ → Lane → Lane
set_device device_id now l = record l { device_id = some device_id; updated_at = now }

unfoldable pub clear_device : ℕ → Lane → Lane
clear_device now l = record l { device_id = none; updated_at = now }

pub record LaneDeviceInfo : Type 0 where
  pub id : String
  pub name : String
  pub status : DeviceStatus
  pub last_heartbeat : Option ℕ

pub record LaneWithDevice : Type 0 where
  pub lane : Lane
  pub device : Option LaneDeviceInfo
