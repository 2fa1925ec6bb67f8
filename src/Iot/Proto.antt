-- ===== src/Iot/Proto.antt =====
-- What the device server sends and receives, internal/domains/iot/grpc/helpers.go. The enums of the
-- protocol are the named numbers, and any other number. A time is never Go's zero time here, which
-- lies before all of the model's.
use parkhub_api.Base.{ℕ, Option, String}
use parkhub_api.Iot.Device
use parkhub_api.Iot.Device.{Device, DeviceType, DeviceStatus}

pub data ProtoDeviceType : Type 0 where
  type_unspecified type_integrated type_camera_only type_barrier_only : ProtoDeviceType
  type_number : ℕ → ProtoDeviceType

pub data ProtoDeviceStatus : Type 0 where
  status_unspecified status_pending status_active : ProtoDeviceStatus
  status_offline status_disabled : ProtoDeviceStatus
  status_number : ℕ → ProtoDeviceStatus

unfoldable pub device_type_to_proto : DeviceType → ProtoDeviceType
device_type_to_proto Device.integrated = type_integrated
device_type_to_proto Device.camera_only = type_camera_only
device_type_to_proto Device.barrier_only = type_barrier_only
device_type_to_proto (Device.other_type _) = type_unspecified

unfoldable pub device_type_from_proto : ProtoDeviceType → DeviceType
device_type_from_proto type_integrated = Device.integrated
device_type_from_proto type_camera_only = Device.camera_only
device_type_from_proto type_barrier_only = Device.barrier_only
device_type_from_proto _ = Device.other_type ""

unfoldable pub device_status_to_proto : DeviceStatus → ProtoDeviceStatus
device_status_to_proto Device.pending = status_pending
device_status_to_proto Device.active = status_active
device_status_to_proto Device.offline = status_offline
device_status_to_proto Device.disabled = status_disabled
device_status_to_proto (Device.other_status _) = status_unspecified

unfoldable pub device_status_from_proto : ProtoDeviceStatus → DeviceStatus
device_status_from_proto status_pending = Device.pending
device_status_from_proto status_active = Device.active
device_status_from_proto status_offline = Device.offline
device_status_from_proto status_disabled = Device.disabled
device_status_from_proto _ = Device.other_status ""

pub record ProtoDevice : Type 0 where
  pub id : String
  pub tenant_id : String
  pub name : String
  pub type : ProtoDeviceType
  pub status : ProtoDeviceStatus
  pub firmware_version : String
  pub last_heartbeat : Option ℕ
  pub parking_lot_id : Option String
  pub gate_id : Option String
  pub created_at : ℕ
  pub updated_at : ℕ

unfoldable pub to_proto_device : Device → ProtoDevice
to_proto_device d = record {
  id = d.id;
  tenant_id = d.tenant_id;
  name = d.name;
  type = device_type_to_proto d.type;
  status = device_status_to_proto d.status;
  firmware_version = d.firmware_version;
  last_heartbeat = d.last_heartbeat;
  parking_lot_id = d.parking_lot_id;
  gate_id = d.gate_id;
  created_at = d.created_at;
  updated_at = d.updated_at;
}
