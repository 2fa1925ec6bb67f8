-- ===== src/Parking/LaneDao.antt =====
-- The lanes table, internal/domains/parking/repository/dao/lane.go.
pub mod Counts
use parkhub_api.Base.{
  ℕ, Bool, ◌&&◌, ◌||◌, Option, none, some, String, List, [], ◌∷◌, Action, ◌>>=◌, pure, catch,
  raise_if, any, contains, str_eq, ltb, if◌then◌else◌, ◌==◌,
}
use parkhub_api.Base.Maps.{Map, lookup, insert as put}
use parkhub_api.Errors.{Error, parking, other, lane_not_found, lane_name_duplicate}
use parkhub_api.Gorm.{Gorm, DbError, record_not_found, failed}
use parkhub_api.Parking.Lane.{LaneType, entry, exit, other_lane_type, same_lane_type}

pub record LaneRow : Type 0 where
  pub id : String
  pub tenant_id : String
  pub parking_lot_id : String
  pub name : String
  pub lane_type : LaneType
  pub device_id : Option String
  pub created_at : ℕ
  pub updated_at : ℕ

pub record LaneTypeCount : Type 0 where
  pub entry_count : ℕ
  pub exit_count : ℕ

-- `tenant_id = ? AND id = ?`
abbrev pub has_id : String → String → LaneRow → Bool
has_id tenant_id id r = str_eq r.tenant_id tenant_id && str_eq r.id id

-- `tenant_id = ? AND parking_lot_id = ?`
abbrev pub in_lot : String → String → LaneRow → Bool
in_lot tenant_id lot r = str_eq r.tenant_id tenant_id && str_eq r.parking_lot_id lot

-- `parking_lot_id = ? AND name = ?`
abbrev pub has_name : String → String → LaneRow → Bool
has_name lot name r = str_eq r.parking_lot_id lot && str_eq r.name name

-- `tenant_id = ? AND parking_lot_id IN ?`
abbrev pub in_lots : String → List String → LaneRow → Bool
in_lots tenant_id lots r = str_eq r.tenant_id tenant_id && any (str_eq r.parking_lot_id) lots

-- The tags `autoCreateTime:milli` and `autoUpdateTime:milli`.
abbrev pub stamp : LaneRow → ℕ → LaneRow
stamp r now = record r {
  created_at = if r.created_at == 0 then now else r.created_at;
  updated_at = if r.updated_at == 0 then now else r.updated_at;
}

-- The columns that `Update` selects.
abbrev pub set_columns : LaneRow → ℕ → LaneRow → LaneRow
set_columns lane now r = record r {
  name = lane.name;
  lane_type = lane.lane_type;
  device_id = lane.device_id;
  updated_at = now;
}

unfoldable pub insert_error : DbError → Error
insert_error record_not_found = other "record not found"
insert_error (failed e) =
    if contains e "duplicate" || contains e "UNIQUE" then parking lane_name_duplicate else other e

abbrev pub find_error : DbError → Error
find_error record_not_found = parking lane_not_found
find_error (failed e) = other e

-- An error that is passed on as it is.
abbrev pub raw_error : DbError → Error
raw_error record_not_found = other "record not found"
raw_error (failed e) = other e

-- `GROUP BY parking_lot_id, lane_type`
abbrev pub group_key : LaneRow → String × LaneType
group_key r = (r.parking_lot_id, r.lane_type)

abbrev pub same_key : String × LaneType → String × LaneType → Bool
same_key (l, s) (m, t) = str_eq l m && same_lane_type s t

abbrev pub set_count : LaneType → ℕ → LaneTypeCount → LaneTypeCount
set_count entry n c = record c { entry_count = n }
set_count exit n c = record c { exit_count = n }
set_count (other_lane_type s) n c = c

abbrev pub or_zero : Option LaneTypeCount → LaneTypeCount
or_zero none = record { entry_count = 0; exit_count = 0 }
or_zero (some c) = c

-- The loop of `CountByParkingLots` over the groups.
unfoldable pub collect_counts :
    List ((String × LaneType) × ℕ) → Map LaneTypeCount → Map LaneTypeCount
collect_counts [] counts = counts
collect_counts (((lot, type), n) ∷ rows) counts =
    collect_counts rows (put lot (set_count type n (or_zero (lookup lot counts))) counts)

module _ (g : Gorm LaneRow) where
  open g use {Db}

  unfoldable pub insert : LaneRow → Action Db Error (Unit {0})
  insert lane = catch insert_error (g.create (stamp lane))

  unfoldable pub find_by_id : String → String → Action Db Error LaneRow
  find_by_id tenant_id id = catch find_error (g.first (has_id tenant_id id))

  unfoldable pub find_by_parking_lot_id : String → String → Action Db Error (List LaneRow)
  find_by_parking_lot_id tenant_id lot = catch raw_error (g.find_every (in_lot tenant_id lot))

  unfoldable pub update : LaneRow → Action Db Error (Unit {0})
  update lane = do
    affected ← catch raw_error (g.updates (has_id lane.tenant_id lane.id) (set_columns lane))
    raise_if (affected == 0) (parking lane_not_found)

  unfoldable pub delete : String → String → Action Db Error (Unit {0})
  delete tenant_id id = do
    affected ← catch raw_error (g.delete (has_id tenant_id id))
    raise_if (affected == 0) (parking lane_not_found)

  unfoldable pub exists_by_name : String → String → Action Db Error Bool
  exists_by_name lot name = do
    count ← catch raw_error (g.total (has_name lot name))
    pure (ltb 0 count)

  abbrev counted_groups : String → List String → Action Db Error (Map LaneTypeCount)
  counted_groups tenant_id lots = do
    results ← catch raw_error (g.group same_key group_key (in_lots tenant_id lots))
    pure (collect_counts results [])

  unfoldable pub count_by_parking_lots : String → List String → Action Db Error (Map LaneTypeCount)
  count_by_parking_lots tenant_id [] = pure []
  count_by_parking_lots tenant_id (lot ∷ lots) = counted_groups tenant_id (lot ∷ lots)
