-- ===== src/Iot/Service.antt =====
-- The device service, internal/domains/iot/service/device_service.go, over the repository and the
-- database. `now` is `time.Now()` in a call. A batch returns the count and the error, beside the
-- database that the transaction leaves.
pub mod Shape
pub mod Calls
pub mod Bindings
pub mod Isolation
pub mod WellFormed
pub mod Batch
pub mod Reads
pub mod Stats
use parkhub_api.Base.{
  ℕ, ◌+◌, Bool, not, ◌&&◌, ◌||◌, Option, none, some, String, List, [], ◌∷◌, Result, ok, err, Action,
  ◌>>=◌, ◌>>◌, pure, raise, lift, raise_if, str_eq, if◌then◌else◌,
}
use parkhub_api.Base.Int.{ℤ}
use parkhub_api.Errors.{Error, iot, device_must_unbind, device_offline, invalid_command}
use parkhub_api.Gorm.{Gorm}
use parkhub_api.Gorm.Transaction.{for_each}
use parkhub_api.Paging.{clean_page, clean_page_size, total_pages}
use parkhub_api.Iot.Device
use parkhub_api.Iot.Device.{
  Device, DeviceType, DeviceStatus, offline, disabled, same_status, new_device, is_bound,
}
use parkhub_api.Iot.Dao.{StatusCounts, DeviceRow, DeviceFilter, raw_error}
use parkhub_api.Iot.Repo

pub record CreateDeviceRequest : Type 0 where
  pub tenant_id : String
  pub id : String
  pub name : String
  pub type : DeviceType
  pub firmware_version : String

pub record ListDevicesRequest : Type 0 where
  pub tenant_id : String
  pub status : DeviceStatus
  pub parking_lot_id : String
  pub keyword : String
  pub page : ℤ
  pub page_size : ℤ

pub record Binding : Type 0 where
  pub id : String
  pub parking_lot_id : String
  pub gate_id : String

pub record DeviceListResponse : Type 0 where
  pub devices : List Device
  pub total : ℕ
  pub page : ℕ
  pub page_size : ℕ
  pub pages : ℕ

pub record DeviceStatsResponse : Type 0 where
  pub total : ℕ
  pub active : ℕ
  pub offline : ℕ
  pub pending : ℕ
  pub disabled : ℕ

pub record CommandResponse : Type 0 where
  pub success : Bool
  pub message : String

-- The answer of `GetStats`.
abbrev pub stats_of : StatusCounts → DeviceStatsResponse
stats_of c = record {
  total = c.pending_count + c.active_count + c.offline_count + c.disabled_count;
  active = c.active_count;
  offline = c.offline_count;
  pending = c.pending_count;
  disabled = c.disabled_count;
}

module _ (g : Gorm DeviceRow) where
  open g use {Db}

  unfoldable pub create : CreateDeviceRequest → ℕ → Action Db Error Device
  create req now = do
    let d = new_device req.id req.name req.type req.firmware_version now
    let d' = record d { tenant_id = req.tenant_id }
    Repo.create g d'
    pure d'

  unfoldable pub get_by_id : String → String → Action Db Error Device
  get_by_id tenant_id id = Repo.get_by_id g tenant_id id

  unfoldable pub list :
      (String → String → Bool) → ListDevicesRequest → Action Db Error DeviceListResponse
  list like req = do
    let page = clean_page req.page
    let page_size = clean_page_size req.page_size
    found ←
        Repo.list g like
          (record {
            tenant_id = req.tenant_id;
            status = req.status;
            parking_lot_id = req.parking_lot_id;
            keyword = req.keyword;
          })
          page page_size
    pure (record {
      devices = found.0;
      total = found.1;
      page = page;
      page_size = page_size;
      pages = total_pages found.1 page_size;
    })

  -- The body that the methods on one device share: read it, change it, write it back.
  unfoldable pub change : String → String → (Device → Result Error Device) → Action Db Error Device
  change tenant_id id f = do
    d ← Repo.get_by_id g tenant_id id
    d' ← lift (f d)
    Repo.update g d'
    pure d'

  unfoldable pub update_name : String → String → String → ℕ → Action Db Error Device
  update_name tenant_id id name now = change tenant_id id (λ d. ok (Device.update_name name now d))

  unfoldable pub bind : String → Binding → ℕ → Action Db Error Device
  bind tenant_id b now =
      change tenant_id b.id
        (λ d. Device.bind b.parking_lot_id b.gate_id now (record d { tenant_id = tenant_id }))

  unfoldable pub unbind : String → String → ℕ → Action Db Error Device
  unbind tenant_id id now = change tenant_id id (Device.unbind now)

  unfoldable pub disable : String → String → ℕ → Action Db Error Device
  disable tenant_id id now = change tenant_id id (Device.disable now)

  unfoldable pub enable : String → String → ℕ → Action Db Error Device
  enable tenant_id id now = change tenant_id id (Device.enable now)

  unfoldable pub delete : String → String → Action Db Error (Unit {0})
  delete tenant_id id = do
    d ← Repo.get_by_id g tenant_id id
    raise_if (is_bound d) (iot device_must_unbind)
    Repo.delete g tenant_id id

  -- The rounds of the batches.
  unfoldable pub change_round :
      String → (Device → Result Error Device) → String → Action Db Error (Unit {0})
  change_round tenant_id f id = do
    d ← Repo.get_by_id g tenant_id id
    d' ← lift (f d)
    Repo.update g d'

  unfoldable pub batch_disable : String → List String → ℕ → Db → ℕ × Option Error × Db
  batch_disable tenant_id ids now =
      g.transaction raw_error (for_each (change_round tenant_id (Device.disable now)) ids) 0

  unfoldable pub batch_enable : String → List String → ℕ → Db → ℕ × Option Error × Db
  batch_enable tenant_id ids now =
      g.transaction raw_error (for_each (change_round tenant_id (Device.enable now)) ids) 0

  unfoldable pub batch_delete : String → List String → Db → ℕ × Option Error × Db
  batch_delete tenant_id ids = g.transaction raw_error (for_each (delete tenant_id) ids) 0

  -- The first loop of `BatchBind`: every device is read before any is written.
  unfoldable pub bind_all : String → List Binding → ℕ → Action Db Error (List Device)
  bind_all tenant_id [] now = pure []
  bind_all tenant_id (b ∷ bs) now = do
    d ← Repo.get_by_id g tenant_id b.id
    d' ← lift (Device.bind b.parking_lot_id b.gate_id now (record d { tenant_id = tenant_id }))
    ds ← bind_all tenant_id bs now
    pure (d' ∷ ds)

  abbrev pub write_all : Result Error (List Device) × Db → ℕ → ℕ × Option Error × Db
  write_all (ok ds, d) n = for_each (Repo.update g) ds n d
  write_all (err e, d) n = (n, some e, d)

  unfoldable pub batch_bind : String → List Binding → ℕ → Db → ℕ × Option Error × Db
  batch_bind tenant_id bs now =
      g.transaction raw_error (λ n d. write_all (bind_all tenant_id bs now d) n) 0

  unfoldable pub get_stats : String → Action Db Error DeviceStatsResponse
  get_stats tenant_id = do c ← Repo.count_by_status g tenant_id; pure (stats_of c)

  unfoldable pub send_command : String → String → String → Action Db Error CommandResponse
  send_command tenant_id device_id action = do
    raise_if (not (str_eq action "up") && not (str_eq action "down")) (iot invalid_command)
    d ← Repo.get_by_id g tenant_id device_id
    raise_if (same_status d.status offline || same_status d.status disabled) (iot device_offline)
    pure (record {
      success = Bool.true;
      message = if str_eq action "down" then "落杆指令已发送" else "抬杆指令已发送";
    })
