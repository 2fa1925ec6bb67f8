-- ===== src/Parking/LotRepo.antt =====
-- The parking lot repository, internal/domains/parking/repository/parking_lot_repo.go.
use parkhub_api.Base.{ℕ, ◌≡◌, refl, Bool, String, List, map, Action, ◌>>=◌, pure}
use parkhub_api.Base.Int.{ℤ}
use parkhub_api.Errors.{Error}
use parkhub_api.Gorm.{Gorm}
use parkhub_api.Parking.Lot.{ParkingLot}
use parkhub_api.Parking.LotDao
use parkhub_api.Parking.LotDao.{LotRow, ParkingLotFilter}

unfoldable pub to_domain : LotRow → ParkingLot
to_domain d = record {
  id = d.id;
  tenant_id = d.tenant_id;
  name = d.name;
  address = d.address;
  total_spaces = d.total_spaces;
  available_spaces = d.available_spaces;
  lot_type = d.lot_type;
  status = d.status;
  entry_count = 0;
  exit_count = 0;
  created_at = d.created_at;
  updated_at = d.updated_at;
}

unfoldable pub to_entity : ParkingLot → LotRow
to_entity lot = record {
  id = lot.id;
  tenant_id = lot.tenant_id;
  name = lot.name;
  address = lot.address;
  total_spaces = lot.total_spaces;
  available_spaces = lot.available_spaces;
  lot_type = lot.lot_type;
  status = lot.status;
  created_at = lot.created_at;
  updated_at = lot.updated_at;
}

-- A row that is read and written back is the same row.
pub to_entity-to_domain : (r : LotRow) → to_entity (to_domain r) ≡ r
unfolding to_entity to_domain
to_entity-to_domain r = refl

module _ (g : Gorm LotRow) where
  open g use {Db}

  unfoldable pub create : ParkingLot → Action Db Error (Unit {0})
  create lot = LotDao.insert g (to_entity lot)

  unfoldable pub get_by_id : String → String → Action Db Error ParkingLot
  get_by_id tenant_id id = do d ← LotDao.find_by_id g tenant_id id; pure (to_domain d)

  unfoldable pub list :
      (String → String → Bool) → ParkingLotFilter → ℕ → ℕ → Action Db Error (List ParkingLot × ℕ)
  list like filter page page_size = do
    found ← LotDao.find_all g like filter page page_size
    pure (map to_domain found.0, found.1)

  unfoldable pub update : ParkingLot → Action Db Error (Unit {0})
  update lot = LotDao.update g (to_entity lot)

  unfoldable pub delete : String → String → Action Db Error (Unit {0})
  delete tenant_id id = LotDao.delete g tenant_id id

  unfoldable pub sum_stats : String → Action Db Error (ℤ × ℤ)
  sum_stats tenant_id = LotDao.sum_stats g tenant_id
