-- ===== src/Iot/Server/Calls.antt =====
-- The requests to the device server that change devices, and what they do to the table.
use parkhub_api.Base.{
  ℕ, ◌≡◌, refl, ap, ◌∙◌, Bool, true, false, ◌||◌, Option, none, some, String, List, ok, err, Action,
  Result, ◌>>=◌, ◌>>◌, pure, raise_if, str_eq, if◌then◌else◌,
}
use parkhub_api.Errors.{Error}
use parkhub_api.Gorm.{Gorm}
use parkhub_api.Grpc.{Status, extract_tenant_id, status_error, invalid_argument}
use parkhub_api.Iot.Device.{Device}
use parkhub_api.Iot.Dao.{DeviceRow}
use parkhub_api.Iot.Proto.{ProtoDevice, to_proto_device, device_type_from_proto}
use parkhub_api.Iot.Service
use parkhub_api.Iot.Service.{Binding}
use parkhub_api.Iot.Service.Calls.{Call, perform}
use parkhub_api.Iot.Server
use parkhub_api.Iot.Server.{CreateDeviceRequest, is_unspecified, run_service, affected}

pub data Request : Type 0 where
  create : CreateDeviceRequest → Request
  update_name : String → String → Request
  bind : Binding → Request
  unbind disable enable delete : String → Request
  batch_disable batch_enable batch_delete : List String → Request
  batch_bind : List Binding → Request

-- The method of the service that a request asks for.
abbrev pub call_of : Request → Call
call_of (Request.create req) = Call.create (record {
  tenant_id = "";
  id = req.id;
  name = req.name;
  type = device_type_from_proto req.type;
  firmware_version = req.firmware_version;
})
call_of (Request.update_name id name) = Call.update_name id name
call_of (Request.bind b) = Call.bind b
call_of (Request.unbind id) = Call.unbind id
call_of (Request.disable id) = Call.disable id
call_of (Request.enable id) = Call.enable id
call_of (Request.delete id) = Call.delete id
call_of (Request.batch_disable ids) = Call.batch_disable ids
call_of (Request.batch_enable ids) = Call.batch_enable ids
call_of (Request.batch_delete ids) = Call.batch_delete ids
call_of (Request.batch_bind bs) = Call.batch_bind bs

-- A request that names no device, or a new device without a type.
abbrev pub is_incomplete : Request → Bool
is_incomplete (Request.create req) = str_eq req.id "" || is_unspecified req.type
is_incomplete (Request.update_name id name) = str_eq id ""
is_incomplete (Request.bind b) = str_eq b.id ""
is_incomplete (Request.unbind id) = str_eq id ""
is_incomplete (Request.disable id) = str_eq id ""
is_incomplete (Request.enable id) = str_eq id ""
is_incomplete (Request.delete id) = str_eq id ""
is_incomplete _ = false

module _ (g : Gorm DeviceRow) where
  open g use {Db, rows}

  -- The database after a request with a context at a time.
  unfoldable pub serve : String → Request × ℕ → Db → Db
  serve ctx (Request.create req, now) d = (Server.create_device g ctx req now d).1
  serve ctx (Request.update_name id name, now) d = (Server.update_device_name g ctx id name now d).1
  serve ctx (Request.bind b, now) d = (Server.bind_device g ctx b now d).1
  serve ctx (Request.unbind id, now) d = (Server.unbind_device g ctx id now d).1
  serve ctx (Request.disable id, now) d = (Server.disable_device g ctx id now d).1
  serve ctx (Request.enable id, now) d = (Server.enable_device g ctx id now d).1
  serve ctx (Request.delete id, now) d = (Server.delete_device g ctx id d).1
  serve ctx (Request.batch_disable ids, now) d = (Server.batch_disable_devices g ctx ids now d).1
  serve ctx (Request.batch_enable ids, now) d = (Server.batch_enable_devices g ctx ids now d).1
  serve ctx (Request.batch_delete ids, now) d = (Server.batch_delete_devices g ctx ids d).1
  serve ctx (Request.batch_bind bs, now) d = (Server.batch_bind_devices g ctx bs now d).1

  guarded :
      {A : Type 0} (c : Bool) (e : Status) (k : Action Db Status A) (d : Db)
      → ((raise_if c e >> k) d).1 ≡ (if c then d else (k d).1)
  guarded true e k d = refl
  guarded false e k d = refl

  caught : {A : Type 0} (r : Result Error A × Db) → (run_service g (λ _. r) r.1).1 ≡ r.1
  caught (ok a, d) = refl
  caught (err e, d) = refl

  answered :
      {A B : Type 0} (r : Result Error A × Db) (h : A → B)
      → ((run_service g (λ _. r) >>= λ a. pure (h a)) r.1).1 ≡ r.1
  answered (ok a, d) h = refl
  answered (err e, d) h = refl

  counted : (r : ℕ × Option Error × Db) (s : Db) → (affected g r s).1 ≡ r.2
  counted (n, none, d) s = refl
  counted (n, some e, d) s = refl

  identified :
      {A : Type 0} (ctx : String) (k : String → Action Db Status A) (d : Db)
      → ((extract_tenant_id ctx >>= k) d).1 ≡ (if str_eq ctx "" then d else (k ctx d).1)
  unfolding extract_tenant_id
  identified ctx k d = tested _ (str_eq ctx "")
    where
      tested :
          (e : Status) (c : Bool)
          → ((raise_if c e >> pure ctx >>= k) d).1 ≡ (if c then d else (k ctx d).1)
      tested e true = refl
      tested e false = refl

  required :
      {A : Type 0} (ctx id : String) (k : String → Action Db Status A) (d : Db)
      → ((extract_tenant_id ctx >>= λ t. Server.require_id g id >> k t) d).1
        ≡ (if str_eq ctx "" then d else if str_eq id "" then d else (k ctx d).1)
  required {A} ctx id k d =
      identified ctx (λ t. Server.require_id g id >> k t) d
      ∙ ap (λ s. if str_eq ctx "" then d else s)
          (guarded (str_eq id "") (status_error invalid_argument "device id is required") (k ctx) d)

  on_device_lem :
      (ctx id : String) (m : String → Action Db Error Device) (d : Db)
      → (Server.on_device g ctx id m d).1
        ≡ (if str_eq ctx "" then d else if str_eq id "" then d else (m ctx d).1)
  unfolding Server.on_device
  on_device_lem ctx id m d =
      required ctx id (λ t. run_service g (m t) >>= λ a. pure (to_proto_device a)) d
      ∙ ap (λ s. if str_eq ctx "" then d else if str_eq id "" then d else s)
          (answered (m ctx d) to_proto_device)

  on_batch_lem :
      (ctx : String) (m : String → Db → ℕ × Option Error × Db) (d : Db)
      → (Server.on_batch g ctx m d).1 ≡ (if str_eq ctx "" then d else (m ctx d).2)
  unfolding Server.on_batch
  on_batch_lem ctx m d =
      identified ctx (λ t s. affected g (m t s) s) d
      ∙ ap (λ s. if str_eq ctx "" then d else s) (counted (m ctx d) d)

  twice :
      (b c : Bool) (x y : Db) → (if b then x else if c then x else y) ≡ (if b || c then x else y)
  twice true c x y = refl
  twice false c x y = refl

  create_device_lem :
      (ctx : String) (req : CreateDeviceRequest) (now : ℕ) (d : Db)
      → serve ctx (Request.create req, now) d ≡ (
          if str_eq ctx ""
          then d
          else if is_incomplete (Request.create req)
          then d
          else perform g ctx (call_of (Request.create req), now) d)
  unfolding serve Server.create_device perform
  create_device_lem ctx req now d =
      required ctx req.id (λ t. raise_if (is_unspecified req.type) untyped >> made t) d
      ∙ ap (λ s. if str_eq ctx "" then d else s)
          (ap (λ s. if str_eq req.id "" then d else s)
              (guarded (is_unspecified req.type) untyped (made ctx) d
                ∙ ap (λ s. if is_unspecified req.type then d else s)
                    (answered (Service.create g (asked ctx) now d) to_proto_device))
            ∙ twice (str_eq req.id "") (is_unspecified req.type) d
                (Service.create g (asked ctx) now d).1)
    where
      untyped : Status
      untyped = status_error invalid_argument "device type is required"

      asked : String → Service.CreateDeviceRequest
      asked t = record {
        tenant_id = t;
        id = req.id;
        name = req.name;
        type = device_type_from_proto req.type;
        firmware_version = req.firmware_version;
      }

      made : String → Action Db Status ProtoDevice
      made t = run_service g (Service.create g (asked t) now) >>= λ a. pure (to_proto_device a)

  delete_device_lem :
      (ctx id : String) (d : Db)
      → (Server.delete_device g ctx id d).1
        ≡ (if str_eq ctx "" then d else if str_eq id "" then d else (Service.delete g ctx id d).1)
  unfolding Server.delete_device
  delete_device_lem ctx id d =
      required ctx id (λ t. run_service g (Service.delete g t id)) d
      ∙ ap (λ s. if str_eq ctx "" then d else if str_eq id "" then d else s)
          (caught (Service.delete g ctx id d))

  -- A request leaves the table as it was when its context holds no tenant, or when it names no
  -- device or a new device without a type; otherwise it leaves the table that the method of the
  -- service leaves, called for the tenant of the context.
  pub serve_lem :
      (ctx : String) (r : Request) (now : ℕ) (d : Db)
      → serve ctx (r, now) d ≡ (
          if str_eq ctx ""
          then d
          else if is_incomplete r
          then d
          else perform g ctx (call_of r, now) d)
  unfolding serve perform Server.update_device_name Server.bind_device Server.unbind_device
      Server.disable_device Server.enable_device Server.batch_disable_devices
      Server.batch_enable_devices Server.batch_delete_devices Server.batch_bind_devices
  serve_lem ctx (Request.create req) now d = create_device_lem ctx req now d
  serve_lem ctx (Request.update_name id name) now d = on_device_lem ctx id _ d
  serve_lem ctx (Request.bind b) now d = on_device_lem ctx b.id _ d
  serve_lem ctx (Request.unbind id) now d = on_device_lem ctx id _ d
  serve_lem ctx (Request.disable id) now d = on_device_lem ctx id _ d
  serve_lem ctx (Request.enable id) now d = on_device_lem ctx id _ d
  serve_lem ctx (Request.delete id) now d = delete_device_lem ctx id d
  serve_lem ctx (Request.batch_disable ids) now d = on_batch_lem ctx _ d
  serve_lem ctx (Request.batch_enable ids) now d = on_batch_lem ctx _ d
  serve_lem ctx (Request.batch_delete ids) now d = on_batch_lem ctx _ d
  serve_lem ctx (Request.batch_bind bs) now d = on_batch_lem ctx _ d
