-- ===== src/Iot/Service/Reads.antt =====
-- The methods that only read: the pages of a list, and a command to a device.
use parkhub_api.Base.{
  ℕ, ◌+◌, ◌-◌, ◌*◌, ◌≤◌, ◌<◌, ◌≡◌, ◌≢◌, ◌⊎◌, refl, Bool, true, not, ◌&&◌, ◌||◌, String, List, [],
  ◌∷◌, map, ◌>>=◌, ◌>>◌, pure, raise_if, All, count, length, str_eq, eq_iff, arith, if◌then◌else◌,
  subst, ap, ◌∙◌,
}
use parkhub_api.Errors.{Error, iot, device_offline, invalid_command}
use parkhub_api.Gorm.{Gorm, Found, IsPage}
use parkhub_api.Gorm.Logic.{
  Triple, Post, Triple-bind, Triple-catch, Triple-total, Triple-find, Triple-guard,
}
use parkhub_api.Paging.{
  clean_page, clean_page_size, total_pages, clean_page_size_bounds, total_pages_lem,
}
use parkhub_api.Iot.Device.{Device, offline, disabled, same_status}
use parkhub_api.Iot.Dao
use parkhub_api.Iot.Dao.{DeviceRow, DeviceFilter, has_id, find_all_where}
use parkhub_api.Iot.Repo
use parkhub_api.Iot.Repo.{to_domain_device}
use parkhub_api.Iot.Service
use parkhub_api.Iot.Service.{ListDevicesRequest, DeviceListResponse, CommandResponse}
use parkhub_api.Iot.Service.Shape.{IsStored, get_by_id-Triple}

-- The filter that `List` makes of its request.
abbrev pub filter_of : ListDevicesRequest → DeviceFilter
filter_of req = record {
  tenant_id = req.tenant_id;
  status = req.status;
  parking_lot_id = req.parking_lot_id;
  keyword = req.keyword;
}

abbrev answer : ListDevicesRequest → List Device × ℕ → DeviceListResponse
answer req found =
    let size = clean_page_size req.page_size in
    record {
      devices = found.0;
      total = found.1;
      page = clean_page req.page;
      page_size = size;
      pages = total_pages found.1 size;
    }

abbrev sent : String → CommandResponse
sent action = record {
  success = true;
  message = if str_eq action "down" then "落杆指令已发送" else "抬杆指令已发送";
}

-- The answer to a request for a list: at most 100 devices, all of the tenant that was named, with
-- the number of all that fit and the number of pages that these fill, the last one not empty.
pub record IsAnswer (like : String → String → Bool) (req : ListDevicesRequest) (rs : List DeviceRow)
    (resp : DeviceListResponse) : Type 0 where
  pub of_tenant : req.tenant_id ≢ "" → All (λ d. d.tenant_id ≡ req.tenant_id) resp.devices
  pub short : length resp.devices ≤ resp.page_size
  pub capped : resp.page_size ≤ 100
  pub counted : resp.total ≡ count (find_all_where like (filter_of req)) rs
  pub enough_pages : resp.total ≤ resp.pages * resp.page_size
  pub no_empty_page : resp.pages * resp.page_size < resp.total + resp.page_size

find_all_where-tenant :
    (like : String → String → Bool) (f : DeviceFilter) (r : DeviceRow)
    → f.tenant_id ≢ ""
    → find_all_where like f r ≡ true
    → (to_domain_device r).tenant_id ≡ f.tenant_id
unfolding find_all_where to_domain_device
find_all_where-tenant like f r n h =
    ground (arith, eq_iff f.tenant_id "", eq_iff r.tenant_id f.tenant_id)

mapped :
    (like : String → String → Bool) (f : DeviceFilter) (rs l : List DeviceRow)
    → f.tenant_id ≢ ""
    → All (λ r. Found (find_all_where like f) r rs) l
    → All (λ d. d.tenant_id ≡ f.tenant_id) (map to_domain_device l)
mapped like f rs [] n h = tt
mapped like f rs (r ∷ l) n h = (find_all_where-tenant like f r n h.0.fits, mapped like f rs l n h.1)

length-map : (l : List DeviceRow) → length (map to_domain_device l) ≡ length l
length-map [] = refl
length-map (r ∷ l) = omega (arith, length-map l)

module _ (g : Gorm DeviceRow) where
  open g use {Db, rows}

  module _ (like : String → String → Bool) (f : DeviceFilter) (page size : ℕ)
      (before : List DeviceRow) where
    abbrev Same : List DeviceRow → Type 0
    Same rs = rs ≡ before

    abbrev Totalled : ℕ → List DeviceRow → Type 0
    Totalled n rs = Same rs × (n ≡ count (find_all_where like f) rs)

    abbrev PageFound : List DeviceRow × ℕ → List DeviceRow → Type 0
    PageFound (l, n) rs =
        Same rs
        × (n ≡ count (find_all_where like f) before)
        × IsPage (find_all_where like f) ((page - 1) * size) size l before

    find_all-Triple : Triple g Same (Dao.find_all g like f page size) PageFound Same
    unfolding Dao.find_all
    find_all-Triple =
        Triple-bind g Same Same Totalled PageFound _ _
          (Triple-catch g Same Same Totalled Dao.raw_error _
            (Triple-total g Same (find_all_where like f)))
          (λ n. record {
            at = λ d h.
                (Triple-bind g Same Same
                    (λ l rs. Same rs × IsPage (find_all_where like f) ((page - 1) * size) size l rs)
                    PageFound _ (λ l. pure (l, n))
                    (Triple-catch g Same Same
                      (λ l rs.
                        Same rs × IsPage (find_all_where like f) ((page - 1) * size) size l rs)
                      Dao.raw_error _
                      (Triple-find g Same (find_all_where like f) ((page - 1) * size) size))
                    (λ l. record {
                      at = λ d' k. (
                        k.0,
                        h.1 ∙ ap (count (find_all_where like f)) h.0,
                        subst (IsPage (find_all_where like f) ((page - 1) * size) size l) k.0 k.1,
                      );
                    })).at
                  d h.0;
          })

    abbrev DevicesFound : List Device × ℕ → List DeviceRow → Type 0
    DevicesFound (ds, n) rs =
        Same rs
        × (n ≡ count (find_all_where like f) before)
        × (f.tenant_id ≢ "" → All (λ d. d.tenant_id ≡ f.tenant_id) ds)
        × (length ds ≤ size)

    list_devices-Triple : Triple g Same (Repo.list g like f page size) DevicesFound Same
    unfolding Repo.list
    list_devices-Triple =
        Triple-bind g Same Same PageFound DevicesFound _
          (λ found. pure (map to_domain_device found.0, found.1)) find_all-Triple
          (λ (l, n). record {
            at = λ d h. (
              h.0,
              h.1,
              (λ ne. mapped like f before l ne h.2.listed),
              omega (arith, length-map l, h.2.size),
            );
          })

  list-Triple :
      (like : String → String → Bool) (req : ListDevicesRequest) (before : List DeviceRow)
      → Triple g
          (λ rs. rs ≡ before)
          (Service.list g like req)
          (λ resp rs. (rs ≡ before) × IsAnswer like req before resp)
          (λ rs. rs ≡ before)
  unfolding Service.list
  list-Triple like req before =
      let size = clean_page_size req.page_size in
      let bounds = clean_page_size_bounds req.page_size in
      Triple-bind g _ _ (DevicesFound like (filter_of req) (clean_page req.page) size before)
        (λ resp rs. (rs ≡ before) × IsAnswer like req before resp) _
        (λ found. pure (answer req found))
        (list_devices-Triple like (filter_of req) (clean_page req.page) size before)
        (λ found. record {
          at = λ d h. (
            h.0,
            record {
              of_tenant = h.2;
              short = h.3;
              capped = bounds.1;
              counted = h.1;
              enough_pages = (total_pages_lem found.1 size bounds.0).0;
              no_empty_page = (total_pages_lem found.1 size bounds.0).1;
            },
          );
        })

  -- A list leaves the table as it is. If it returns, it returns at most 100 devices, the number of all
  -- that fit and the number of pages that these fill, not one more or less; and if the request names a
  -- tenant, only that tenant's devices.
  pub list_lem :
      (like : String → String → Bool) (req : ListDevicesRequest) (d : Db)
      → Post g {E = Error}
          (λ resp rs. (rs ≡ rows d) × IsAnswer like req (rows d) resp)
          (λ rs. rs ≡ rows d)
          (Service.list g like req d)
  list_lem like req d = (list-Triple like req (rows d)).at d refl

  -- A command that was sent: it is "up" or "down", and the device is stored and neither offline
  -- nor disabled.
  abbrev pub IsSent : String → String → String → List DeviceRow → Type 0
  IsSent t id action rs =
      ((action ≡ "up") ⊎ (action ≡ "down"))
      × ((d : Device) × IsStored t id d rs × (d.status ≢ offline) × (d.status ≢ disabled))

  send_command-Triple :
      (t id action : String) (before : List DeviceRow)
      → Triple g
          (λ rs. rs ≡ before)
          (Service.send_command g t id action)
          (λ resp rs. (rs ≡ before) × IsSent t id action before)
          (λ rs. rs ≡ before)
  unfolding Service.send_command
  send_command-Triple t id action before =
      Triple-bind g Same Same (λ _ rs. Same rs × Known) Sent
        (raise_if unknown (iot invalid_command)) _
        (Triple-guard g Same (λ rs. Same rs × Known) Same unknown (iot invalid_command)
          (λ rs e h. h) (λ rs e h. (h, ground (arith, eq_iff action "up", eq_iff action "down"))))
        (λ _. record { at = λ d h. (got-Triple h.1).at d h.0 })
    where
      Same : List DeviceRow → Type 0
      Same rs = rs ≡ before

      Known : Type 0
      Known = (action ≡ "up") ⊎ (action ≡ "down")

      Sent : CommandResponse → List DeviceRow → Type 0
      Sent resp rs = (rs ≡ before) × IsSent t id action before

      unknown : Bool
      unknown = not (str_eq action "up") && not (str_eq action "down")

      Got : Device → List DeviceRow → Type 0
      Got d rs = Same rs × IsStored t id d rs

      Ready : Device → List DeviceRow → Type 0
      Ready d rs = Got d rs × (d.status ≢ offline) × (d.status ≢ disabled)

      away : Device → Bool
      away d = same_status d.status offline || same_status d.status disabled

      got-Triple :
          Known
          → Triple g Same
              (do
                d ← Repo.get_by_id g t id
                raise_if (away d) (iot device_offline)
                pure (record {
                  success = true;
                  message = if str_eq action "down" then "落杆指令已发送" else "抬杆指令已发送";
                }))
              Sent
              Same
      got-Triple known = Triple-bind g Same Same Got Sent _ _ (get_by_id-Triple g Same t id) (λ d.
          Triple-bind g (Got d) Same (λ _. Ready d) Sent _ (λ _. pure (sent action))
            (Triple-guard g (Got d) (Ready d) Same (away d) (iot device_offline) (λ rs e h. h.0)
              (λ rs e h. (h, ground arith, ground arith)))
            (λ _. record {
              at = λ d' h. (h.0.0, (known, (d, subst (IsStored t id d) h.0.0 h.0.1, h.1, h.2)));
            }))

  -- A command changes nothing in the table, and it is acknowledged only if it is "up" or "down" and
  -- the device is stored and neither offline nor disabled.
  pub send_command_lem :
      (t id action : String) (d : Db)
      → Post g {E = Error}
          (λ resp rs. (rs ≡ rows d) × IsSent t id action (rows d))
          (λ rs. rs ≡ rows d)
          (Service.send_command g t id action d)
  send_command_lem t id action d = (send_command-Triple t id action (rows d)).at d refl
