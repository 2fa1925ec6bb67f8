-- ===== src/Parking/LotService.antt =====
-- The parking lot service, internal/domains/parking/service/parking_lot_service.go. Its state is the
-- table of lots beside that of lanes. `with_lanes` is false where the lane repository is nil.
pub mod Shape
pub mod Capacity
pub mod Updated
pub mod Keeps
pub mod Calls
pub mod Isolation
pub mod Sound
pub mod Answers
use parkhub_api.Base.{
  ℕ, ◌+◌, Bool, true, false, not, ◌&&◌, Option, none, some, String, List, [], ◌∷◌, map, Result, ok,
  err, Action, or_else, ◌>>=◌, ◌>>◌, pure, lift, if◌then◌else◌,
}
use parkhub_api.Base.Int.{ℤ, pos, ◌-ℤ◌, ltb_ℤ}
use parkhub_api.Base.Maps.{Map, lookup}
use parkhub_api.Errors.{Error, parking, parking_lot_invalid_capacity}
use parkhub_api.Gorm.{Gorm}
use parkhub_api.Paging.{clean_page, clean_page_size, total_pages}
use parkhub_api.Parking.Lot.{
  LotType, ParkingLotStatus, ParkingLot, active, inactive, other_status, other_lot_type,
  new_parking_lot, activate, deactivate,
}
use parkhub_api.Parking.LotDao.{LotRow, ParkingLotFilter}
use parkhub_api.Parking.LaneDao.{LaneRow}
use parkhub_api.Parking.LotRepo
use parkhub_api.Parking.LaneRepo
use parkhub_api.Parking.LaneRepo.{LaneCountResult}

pub record CreateParkingLotRequest : Type 0 where
  pub tenant_id : String
  pub name : String
  pub address : String
  pub total_spaces : ℤ
  pub lot_type : LotType

pub record UpdateParkingLotRequest : Type 0 where
  pub id : String
  pub tenant_id : String
  pub name : Option String
  pub address : Option String
  pub total_spaces : Option ℤ
  pub lot_type : Option LotType
  pub status : Option ParkingLotStatus

pub record ListParkingLotsRequest : Type 0 where
  pub tenant_id : String
  pub status : ParkingLotStatus
  pub lot_type : LotType
  pub keyword : String
  pub page : ℤ
  pub page_size : ℤ

pub record ParkingLotListResponse : Type 0 where
  pub parking_lots : List ParkingLot
  pub total : ℕ
  pub page : ℕ
  pub page_size : ℕ
  pub pages : ℕ

pub record ParkingLotStatsResponse : Type 0 where
  pub total_spaces : ℤ
  pub available_spaces : ℤ
  pub occupied_vehicles : ℤ
  pub total_gates : ℕ

abbrev pub or_old : {A : Type 0} → Option A → A → A
or_old none old = old
or_old (some new) old = new

-- The `switch` on the status that is asked for.
abbrev pub set_status : Option ParkingLotStatus → ParkingLot → Result Error ParkingLot
set_status none lot = ok lot
set_status (some active) lot = activate lot
set_status (some inactive) lot = deactivate lot
set_status (some (other_status s)) lot = ok lot

unfoldable pub set_capacity : Option ℤ → ParkingLot → Result Error ParkingLot
set_capacity none lot = ok lot
set_capacity (some new_total) lot =
    let occupied = lot.total_spaces -ℤ lot.available_spaces in
    if ltb_ℤ new_total occupied
    then err (parking parking_lot_invalid_capacity)
    else ok (record lot { total_spaces = new_total; available_spaces = new_total -ℤ occupied })

abbrev pub and_then : {A B : Type 0} → Result Error A → (A → Result Error B) → Result Error B
and_then (ok a) f = f a
and_then (err e) f = err e

abbrev pub set_texts : UpdateParkingLotRequest → ParkingLot → ParkingLot
set_texts req lot = record lot {
  name = or_old req.name lot.name;
  address = or_old req.address lot.address;
  lot_type = or_old req.lot_type lot.lot_type;
}

-- What `Update` does to the lot between its read and its write.
unfoldable pub apply_update : UpdateParkingLotRequest → ParkingLot → Result Error ParkingLot
apply_update req lot =
    and_then (set_status req.status lot)
      (λ l. and_then (set_capacity req.total_spaces l) (λ l'. ok (set_texts req l')))

-- The loop of `populateLaneCounts`.
abbrev pub with_counts : Map LaneCountResult → ParkingLot → ParkingLot
with_counts counts lot = elim (lookup lot.id counts) [
  | none ↦ lot
  | some c ↦ record lot { entry_count = c.entries; exit_count = c.exits }
]

-- `for _, c := range counts { totalGates += … }`
unfoldable pub count_gates : Map LaneCountResult → ℕ
count_gates [] = 0
count_gates ((lot, c) ∷ counts) = c.entries + c.exits + count_gates counts

-- The answers of `List` and of `GetStats`.
abbrev pub listed : ListParkingLotsRequest → ℕ → List ParkingLot → ParkingLotListResponse
listed req total lots =
    let page_size = clean_page_size req.page_size in
    record {
      parking_lots = lots;
      total = total;
      page = clean_page req.page;
      page_size = page_size;
      pages = total_pages total page_size;
    }

abbrev pub stats_of : ℤ × ℤ → ℕ → ParkingLotStatsResponse
stats_of spaces gates = record {
  total_spaces = spaces.0;
  available_spaces = spaces.1;
  occupied_vehicles = spaces.0 -ℤ spaces.1;
  total_gates = gates;
}

module _ (g : Gorm LotRow) (h : Gorm LaneRow) where
  abbrev pub State : Type 0
  State = g.Db × h.Db

  abbrev pub on_lots : {A : Type 0} → Action g.Db Error A → Action State Error A
  on_lots m (d, l) = let (r, d') = m d in (r, (d', l))

  abbrev pub on_lanes : {A : Type 0} → Action h.Db Error A → Action State Error A
  on_lanes m (d, l) = let (r, l') = m l in (r, (d, l'))

module _ (g : Gorm LotRow) (h : Gorm LaneRow) (with_lanes : Bool) where
  abbrev counted_lots : String → List ParkingLot → Action (State g h) Error (List ParkingLot)
  counted_lots tenant_id lots = do
    counts ← on_lanes g h (LaneRepo.count_by_parking_lots h tenant_id (map (λ l. l.id) lots))
    pure (map (with_counts counts) lots)

  unfoldable pub populate_lane_counts :
      String → List ParkingLot → Action (State g h) Error (List ParkingLot)
  populate_lane_counts tenant_id [] = pure []
  populate_lane_counts tenant_id (lot ∷ lots) =
      if with_lanes
      then or_else (lot ∷ lots) (counted_lots tenant_id (lot ∷ lots))
      else pure (lot ∷ lots)

  unfoldable pub create : CreateParkingLotRequest → String → Action (State g h) Error ParkingLot
  create req uuid = do
    let lot = new_parking_lot req.name req.address req.total_spaces req.lot_type
    let lot' = record lot { id = uuid; tenant_id = req.tenant_id }
    on_lots g h (LotRepo.create g lot')
    pure lot'

  abbrev head_or : ParkingLot → List ParkingLot → ParkingLot
  head_or lot [] = lot
  head_or lot (l ∷ ls) = l

  unfoldable pub get_by_id : String → String → Action (State g h) Error ParkingLot
  get_by_id tenant_id id = do
    lot ← on_lots g h (LotRepo.get_by_id g tenant_id id)
    lots ← populate_lane_counts tenant_id (lot ∷ [])
    pure (head_or lot lots)

  unfoldable pub list :
      (String → String → Bool)
      → ListParkingLotsRequest
      → Action (State g h) Error ParkingLotListResponse
  list like req = do
    found ← on_lots g h (
        LotRepo.list g like
          (record {
            tenant_id = req.tenant_id;
            status = req.status;
            lot_type = req.lot_type;
            keyword = req.keyword;
          })
          (clean_page req.page) (clean_page_size req.page_size))
    lots ← populate_lane_counts req.tenant_id found.0
    pure (listed req found.1 lots)

  unfoldable pub update : UpdateParkingLotRequest → Action (State g h) Error ParkingLot
  update req = do
    lot ← on_lots g h (LotRepo.get_by_id g req.tenant_id req.id)
    lot' ← lift (apply_update req lot)
    on_lots g h (LotRepo.update g lot')
    pure lot'

  unfoldable pub delete : String → String → Action (State g h) Error (Unit {0})
  delete tenant_id id = on_lots g h (LotRepo.delete g tenant_id id)

  -- The gates of the first 1000 lots; an error leaves them at 0.
  abbrev gates_of : String → List ParkingLot → Action (State g h) Error ℕ
  gates_of tenant_id [] = pure 0
  gates_of tenant_id (lot ∷ lots) = do
    counts ←
        on_lanes g h (LaneRepo.count_by_parking_lots h tenant_id (map (λ l. l.id) (lot ∷ lots)))
    pure (count_gates counts)

  unfoldable pub total_gates : (String → String → Bool) → String → Action (State g h) Error ℕ
  total_gates like tenant_id =
      if with_lanes
      then or_else 0 (do
        found ← on_lots g h (
            LotRepo.list g like
              (record {
                tenant_id = tenant_id;
                status = other_status "";
                lot_type = other_lot_type "";
                keyword = "";
              })
              1 1000)
        gates_of tenant_id found.0)
      else pure 0

  unfoldable pub get_stats :
      (String → String → Bool) → String → Action (State g h) Error ParkingLotStatsResponse
  get_stats like tenant_id = do
    spaces ← on_lots g h (LotRepo.sum_stats g tenant_id)
    gates ← total_gates like tenant_id
    pure (stats_of spaces gates)
