-- ===== src/Parking/LaneRepo.antt =====
-- The lane repository, internal/domains/parking/repository/lane_repo.go.
use parkhub_api.Base.{ℕ, Bool, String, List, map, Action, ◌>>=◌, pure}
use parkhub_api.Base.Maps.{Map}
use parkhub_api.Errors.{Error}
use parkhub_api.Gorm.{Gorm}
use parkhub_api.Parking.Lane.{Lane}
use parkhub_api.Parking.LaneDao
use parkhub_api.Parking.LaneDao.{LaneRow, LaneTypeCount}

-- `LaneCountResult` of interface.go.
pub record LaneCountResult : Type 0 where
  pub entries : ℕ
  pub exits : ℕ

unfoldable pub to_lane_domain : LaneRow → Lane
to_lane_domain d = record {
  id = d.id;
  tenant_id = d.tenant_id;
  parking_lot_id = d.parking_lot_id;
  name = d.name;
  type = d.lane_type;
  device_id = d.device_id;
  created_at = d.created_at;
  updated_at = d.updated_at;
}

unfoldable pub to_lane_entity : Lane → LaneRow
to_lane_entity l = record {
  id = l.id;
  tenant_id = l.tenant_id;
  parking_lot_id = l.parking_lot_id;
  name = l.name;
  lane_type = l.type;
  device_id = l.device_id;
  created_at = l.created_at;
  updated_at = l.updated_at;
}

abbrev pub to_result : String × LaneTypeCount → String × LaneCountResult
to_result (lot, c) = (lot, record { entries = c.entry_count; exits = c.exit_count })

module _ (g : Gorm LaneRow) where
  open g use {Db}

  unfoldable pub create : Lane → Action Db Error (Unit {0})
  create lane = LaneDao.insert g (to_lane_entity lane)

  unfoldable pub get_by_id : String → String → Action Db Error Lane
  get_by_id tenant_id id = do d ← LaneDao.find_by_id g tenant_id id; pure (to_lane_domain d)

  unfoldable pub list_by_parking_lot_id : String → String → Action Db Error (List Lane)
  list_by_parking_lot_id tenant_id lot = do
    records ← LaneDao.find_by_parking_lot_id g tenant_id lot
    pure (map to_lane_domain records)

  unfoldable pub update : Lane → Action Db Error (Unit {0})
  update lane = LaneDao.update g (to_lane_entity lane)

  unfoldable pub delete : String → String → Action Db Error (Unit {0})
  delete tenant_id id = LaneDao.delete g tenant_id id

  unfoldable pub exists_by_name : String → String → Action Db Error Bool
  exists_by_name lot name = LaneDao.exists_by_name g lot name

  unfoldable pub count_by_parking_lots :
      String → List String → Action Db Error (Map LaneCountResult)
  count_by_parking_lots tenant_id lots = do
    counts ← LaneDao.count_by_parking_lots g tenant_id lots
    pure (map to_result counts)
