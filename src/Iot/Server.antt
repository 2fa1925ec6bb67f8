-- ===== src/Iot/Server.antt =====
-- The device server, internal/domains/iot/grpc/device_server.go. A handler's first argument is the
-- tenant that the context holds, or the empty text; a response that only wraps a device is the
-- device, one that only wraps a number the number.
pub mod Calls
pub mod Isolation
mod Tests
use parkhub_api.Base.{
  ℕ, ◌-◌, ◌%◌, Bool, true, false, Option, none, some, String, List, [], ◌∷◌, map, ok, err, Action,
  ◌>>=◌, ◌>>◌, pure, catch, raise_if, str_eq, ltb, ◌==◌, if◌then◌else◌,
}
use Prim.Native.Nat.{◌^◌}
use parkhub_api.Base.Int.{ℤ, pos, negsuc, ltb_ℤ}
use parkhub_api.Errors.{
  Error, IotError, iot, other, wrap, device_not_found, device_id_duplicate, device_not_bound,
  device_must_unbind, device_offline, invalid_command,
}
use parkhub_api.Gorm.{Gorm}
use parkhub_api.Grpc.{
  not_found, already_exists, failed_precondition, invalid_argument, Status, ErrorMapping,
  status_error, to_grpc_error, extract_tenant_id,
}
use parkhub_api.Iot.Device.{Device}
use parkhub_api.Iot.Dao.{DeviceRow}
use parkhub_api.Iot.Service
use parkhub_api.Iot.Service.{Binding, CommandResponse, DeviceStatsResponse, DeviceListResponse}
use parkhub_api.Iot.Proto.{
  ProtoDeviceType, ProtoDeviceStatus, ProtoDevice, type_unspecified, device_type_from_proto,
  device_status_from_proto, to_proto_device,
}

-- The place of an error value in its list, by which two are told apart.
abbrev pub place : IotError → ℕ
place device_not_found = 0
place device_id_duplicate = 1
place device_not_bound = 2
place device_must_unbind = 3
place device_offline = 4
place invalid_command = 5

-- `errors.Is` for an error value of the domain: the error itself, or one that it wraps.
abbrev pub errors_is : Error → IotError → Bool
errors_is (iot e) t = place e == place t
errors_is (wrap s e) t = errors_is e t
errors_is _ t = false

abbrev pub device_error_mappings : List (ErrorMapping IotError)
device_error_mappings =
    record { target = device_not_found; code = not_found }
    ∷ record { target = device_id_duplicate; code = already_exists }
    ∷ record { target = device_not_bound; code = failed_precondition }
    ∷ record { target = device_must_unbind; code = failed_precondition }
    ∷ record { target = device_offline; code = failed_precondition }
    ∷ record { target = invalid_command; code = invalid_argument }
    ∷ []

unfoldable pub to_device_grpc_error : Error → Status
to_device_grpc_error e = to_grpc_error errors_is device_error_mappings e

-- `int32(n)`
unfoldable pub to_int32 : ℕ → ℤ
to_int32 n = let m = n % 2 ^ 32 in if ltb m (2 ^ 31) then pos m else negsuc (2 ^ 32 - m - 1)

pub record CreateDeviceRequest : Type 0 where
  pub id : String
  pub name : String
  pub type : ProtoDeviceType
  pub firmware_version : String

-- `pagination` holds the page and its size, when the request has one.
pub record ListDevicesRequest : Type 0 where
  pub status : ProtoDeviceStatus
  pub parking_lot_id : String
  pub keyword : String
  pub pagination : Option (ℤ × ℤ)

pub record ListDevicesResponse : Type 0 where
  pub devices : List ProtoDevice
  pub page : ℤ
  pub page_size : ℤ
  pub total : ℕ
  pub total_pages : ℤ

abbrev pub is_unspecified : ProtoDeviceType → Bool
is_unspecified type_unspecified = true
is_unspecified _ = false

-- A page or a size that the request gives, or the default.
abbrev pub positive_or : ℕ → ℤ → ℤ
positive_or n p = if ltb_ℤ (pos 0) p then p else pos n

abbrev pub page_of : Option (ℤ × ℤ) → ℤ × ℤ
page_of none = (pos 1, pos 20)
page_of (some p) = (positive_or 1 p.0, positive_or 20 p.1)

abbrev pub to_response : DeviceListResponse → ListDevicesResponse
to_response r = record {
  devices = map to_proto_device r.devices;
  page = to_int32 r.page;
  page_size = to_int32 r.page_size;
  total = r.total;
  total_pages = to_int32 r.pages;
}

module _ (g : Gorm DeviceRow) where
  open g use {Db}

  -- The check of the id that the methods on one device share.
  abbrev pub require_id : String → Action Db Status (Unit {0})
  require_id id = raise_if (str_eq id "") (status_error invalid_argument "device id is required")

  abbrev pub run_service : {A : Type 0} → Action Db Error A → Action Db Status A
  run_service m = catch to_device_grpc_error m

  unfoldable pub create_device : String → CreateDeviceRequest → ℕ → Action Db Status ProtoDevice
  create_device ctx req now = do
    tenant_id ← extract_tenant_id ctx
    require_id req.id
    raise_if (is_unspecified req.type) (status_error invalid_argument "device type is required")
    d ← run_service (
        Service.create g
          (record {
            tenant_id = tenant_id;
            id = req.id;
            name = req.name;
            type = device_type_from_proto req.type;
            firmware_version = req.firmware_version;
          })
          now)
    pure (to_proto_device d)

  -- The body that the methods on one device share.
  unfoldable pub on_device :
      String → String → (String → Action Db Error Device) → Action Db Status ProtoDevice
  on_device ctx id method = do
    tenant_id ← extract_tenant_id ctx
    require_id id
    d ← run_service (method tenant_id)
    pure (to_proto_device d)

  unfoldable pub get_device : String → String → Action Db Status ProtoDevice
  get_device ctx id = on_device ctx id (λ t. Service.get_by_id g t id)

  unfoldable pub list_devices :
      (String → String → Bool) → String → ListDevicesRequest → Action Db Status ListDevicesResponse
  list_devices like ctx req = do
    tenant_id ← extract_tenant_id ctx
    let p = page_of req.pagination
    resp ← run_service (
        Service.list g like (record {
          tenant_id = tenant_id;
          status = device_status_from_proto req.status;
          parking_lot_id = req.parking_lot_id;
          keyword = req.keyword;
          page = p.0;
          page_size = p.1;
        }))
    pure (to_response resp)

  unfoldable pub update_device_name : String → String → String → ℕ → Action Db Status ProtoDevice
  update_device_name ctx id name now = on_device ctx id (λ t. Service.update_name g t id name now)

  unfoldable pub bind_device : String → Binding → ℕ → Action Db Status ProtoDevice
  bind_device ctx b now = on_device ctx b.id (λ t. Service.bind g t b now)

  unfoldable pub unbind_device : String → String → ℕ → Action Db Status ProtoDevice
  unbind_device ctx id now = on_device ctx id (λ t. Service.unbind g t id now)

  unfoldable pub disable_device : String → String → ℕ → Action Db Status ProtoDevice
  disable_device ctx id now = on_device ctx id (λ t. Service.disable g t id now)

  unfoldable pub enable_device : String → String → ℕ → Action Db Status ProtoDevice
  enable_device ctx id now = on_device ctx id (λ t. Service.enable g t id now)

  unfoldable pub delete_device : String → String → Action Db Status (Unit {0})
  delete_device ctx id = do
    tenant_id ← extract_tenant_id ctx
    require_id id
    run_service (Service.delete g tenant_id id)

  -- The number of devices that a batch changed, or its error as a status.
  abbrev pub affected : ℕ × Option Error × Db → Action Db Status ℤ
  affected (n, none, d) _ = (ok (to_int32 n), d)
  affected (n, some e, d) _ = (err (to_device_grpc_error e), d)

  -- The body that the batches share.
  unfoldable pub on_batch : String → (String → Db → ℕ × Option Error × Db) → Action Db Status ℤ
  on_batch ctx method = do tenant_id ← extract_tenant_id ctx; λ d. affected (method tenant_id d) d

  unfoldable pub batch_disable_devices : String → List String → ℕ → Action Db Status ℤ
  batch_disable_devices ctx ids now = on_batch ctx (λ t. Service.batch_disable g t ids now)

  unfoldable pub batch_enable_devices : String → List String → ℕ → Action Db Status ℤ
  batch_enable_devices ctx ids now = on_batch ctx (λ t. Service.batch_enable g t ids now)

  unfoldable pub batch_delete_devices : String → List String → Action Db Status ℤ
  batch_delete_devices ctx ids = on_batch ctx (λ t. Service.batch_delete g t ids)

  unfoldable pub batch_bind_devices : String → List Binding → ℕ → Action Db Status ℤ
  batch_bind_devices ctx bs now = on_batch ctx (λ t. Service.batch_bind g t bs now)

  unfoldable pub get_device_stats : String → Action Db Status DeviceStatsResponse
  get_device_stats ctx = do
    tenant_id ← extract_tenant_id ctx
    run_service (Service.get_stats g tenant_id)

  unfoldable pub send_device_command : String → String → String → Action Db Status CommandResponse
  send_device_command ctx id action = do
    tenant_id ← extract_tenant_id ctx
    run_service (Service.send_command g tenant_id id action)
