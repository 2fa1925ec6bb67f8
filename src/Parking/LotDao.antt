-- ===== src/Parking/LotDao.antt =====
-- The parking_lots table, internal/domains/parking/repository/dao/parking_lot.go.
use parkhub_api.Base.{
  ℕ, ◌-◌, ◌*◌, Bool, true, ◌&&◌, ◌||◌, String, List, Action, ◌>>=◌, pure, catch, raise_if, contains,
  str_eq, if◌then◌else◌, ◌==◌,
}
use parkhub_api.Base.Int.{ℤ}
use parkhub_api.Errors.{Error, parking, other, parking_lot_not_found, parking_lot_name_duplicate}
use parkhub_api.Gorm.{Gorm, DbError, record_not_found, failed}
use parkhub_api.Parking.Lot.{
  LotType, ParkingLotStatus, other_lot_type, other_status, same_lot_type, same_status,
}

pub record LotRow : Type 0 where
  pub id : String
  pub tenant_id : String
  pub name : String
  pub address : String
  pub total_spaces : ℤ
  pub available_spaces : ℤ
  pub lot_type : LotType
  pub status : ParkingLotStatus
  pub created_at : ℕ
  pub updated_at : ℕ

-- An empty text asks for no restriction, but for the tenant, which is always asked for.
pub record ParkingLotFilter : Type 0 where
  pub tenant_id : String
  pub status : ParkingLotStatus
  pub lot_type : LotType
  pub keyword : String

-- `tenant_id = ? AND id = ?`
abbrev pub has_id : String → String → LotRow → Bool
has_id tenant_id id r = str_eq r.tenant_id tenant_id && str_eq r.id id

-- The tags `autoCreateTime:milli` and `autoUpdateTime:milli`.
abbrev pub stamp : LotRow → ℕ → LotRow
stamp r now = record r {
  created_at = if r.created_at == 0 then now else r.created_at;
  updated_at = if r.updated_at == 0 then now else r.updated_at;
}

-- The columns that `Update` selects.
abbrev pub set_columns : LotRow → ℕ → LotRow → LotRow
set_columns lot now r = record r {
  name = lot.name;
  address = lot.address;
  total_spaces = lot.total_spaces;
  available_spaces = lot.available_spaces;
  lot_type = lot.lot_type;
  status = lot.status;
  updated_at = now;
}

unfoldable pub insert_error : DbError → Error
insert_error record_not_found = other "record not found"
insert_error (failed e) =
    if contains e "duplicate" || contains e "UNIQUE"
    then parking parking_lot_name_duplicate
    else other e

abbrev pub find_error : DbError → Error
find_error record_not_found = parking parking_lot_not_found
find_error (failed e) = other e

-- An error that is passed on as it is.
abbrev pub raw_error : DbError → Error
raw_error record_not_found = other "record not found"
raw_error (failed e) = other e

-- The conditions of `FindAll`. `like` is MySQL's LIKE with `%` on both sides of the keyword.
unfoldable pub find_all_where : (String → String → Bool) → ParkingLotFilter → LotRow → Bool
find_all_where like f r =
    str_eq r.tenant_id f.tenant_id
    && (same_status f.status (other_status "") || same_status r.status f.status)
    && (same_lot_type f.lot_type (other_lot_type "") || same_lot_type r.lot_type f.lot_type)
    && (str_eq f.keyword "" || like r.name f.keyword || like r.address f.keyword)

module _ (g : Gorm LotRow) where
  open g use {Db}

  unfoldable pub insert : LotRow → Action Db Error (Unit {0})
  insert lot = catch insert_error (g.create (stamp lot))

  unfoldable pub find_by_id : String → String → Action Db Error LotRow
  find_by_id tenant_id id = catch find_error (g.first (has_id tenant_id id))

  unfoldable pub find_all :
      (String → String → Bool) → ParkingLotFilter → ℕ → ℕ → Action Db Error (List LotRow × ℕ)
  find_all like filter page page_size = do
    total ← catch raw_error (g.total (find_all_where like filter))
    let offset = (page - 1) * page_size
    lots ← catch raw_error (g.find (find_all_where like filter) offset page_size)
    pure (lots, total)

  unfoldable pub update : LotRow → Action Db Error (Unit {0})
  update lot = do
    affected ← catch raw_error (g.updates (has_id lot.tenant_id lot.id) (set_columns lot))
    raise_if (affected == 0) (parking parking_lot_not_found)

  unfoldable pub delete : String → String → Action Db Error (Unit {0})
  delete tenant_id id = do
    affected ← catch raw_error (g.delete (has_id tenant_id id))
    raise_if (affected == 0) (parking parking_lot_not_found)

  unfoldable pub sum_stats : String → Action Db Error (ℤ × ℤ)
  sum_stats tenant_id =
      catch raw_error
        (g.sums (λ r. r.total_spaces) (λ r. r.available_spaces) (λ r. str_eq r.tenant_id tenant_id))

  unfoldable pub count : Action Db Error ℕ
  count = catch raw_error (g.total (λ r. true))
