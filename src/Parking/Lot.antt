-- ===== src/Parking/Lot.antt =====
-- The parking lot, internal/domains/parking/domain/parking_lot.go.
use parkhub_api.Base.{ℕ, Bool, true, false, not, String, Result, ok, err, str_eq, if◌then◌else◌}
use parkhub_api.Base.Int.{ℤ}
use parkhub_api.Errors.{Error, parking, parking_lot_invalid_status}

-- `LotType` and `ParkingLotStatus` are texts in Go: the constants, and any other text.
pub data LotType : Type 0 where
  underground ground_level stereo : LotType
  other_lot_type : String → LotType

pub data ParkingLotStatus : Type 0 where
  active inactive : ParkingLotStatus
  other_status : String → ParkingLotStatus

-- `==` on each of them.
abbrev pub same_lot_type : LotType → LotType → Bool
same_lot_type underground underground = true
same_lot_type ground_level ground_level = true
same_lot_type stereo stereo = true
same_lot_type (other_lot_type s) (other_lot_type t) = str_eq s t
same_lot_type _ _ = false

abbrev pub same_status : ParkingLotStatus → ParkingLotStatus → Bool
same_status active active = true
same_status inactive inactive = true
same_status (other_status s) (other_status t) = str_eq s t
same_status _ _ = false

pub record ParkingLot : Type 0 where
  pub id : String
  pub tenant_id : String
  pub name : String
  pub address : String
  pub total_spaces : ℤ
  pub available_spaces : ℤ
  pub lot_type : LotType
  pub status : ParkingLotStatus
  pub entry_count : ℕ
  pub exit_count : ℕ
  pub created_at : ℕ
  pub updated_at : ℕ

unfoldable pub new_parking_lot : String → String → ℤ → LotType → ParkingLot
new_parking_lot name address total_spaces lot_type = record {
  id = "";
  tenant_id = "";
  name = name;
  address = address;
  total_spaces = total_spaces;
  available_spaces = total_spaces;
  lot_type = lot_type;
  status = active;
  entry_count = 0;
  exit_count = 0;
  created_at = 0;
  updated_at = 0;
}

pub is_active : ParkingLot → Bool
is_active l = same_status l.status active

unfoldable pub deactivate : ParkingLot → Result Error ParkingLot
deactivate l =
    if not (same_status l.status active)
    then err (parking parking_lot_invalid_status)
    else ok (record l { status = inactive })

unfoldable pub activate : ParkingLot → Result Error ParkingLot
activate l =
    if not (same_status l.status inactive)
    then err (parking parking_lot_invalid_status)
    else ok (record l { status = active })
