-- ===== src/Parking/Tests.antt =====
-- The parking theorems at small tables in memory.
use parkhub_api.Base.{
  ◌≡◌, refl, List, [], ◌∷◌, Bool, true, none, some, Result, ok, All, str_eq, contains, arith,
}
use parkhub_api.Base.Int.{pos}
use parkhub_api.Gorm.{Gorm}
use parkhub_api.Gorm.Memory.{memory}
use parkhub_api.Parking.Lot.{underground, stereo, active, inactive, other_status, other_lot_type}
use parkhub_api.Parking.Lane.{entry}
use parkhub_api.Parking.LotDao.{LotRow}
use parkhub_api.Parking.LaneDao.{LaneRow}
use parkhub_api.Parking.LotService
use parkhub_api.Parking.LotService.{
  CreateParkingLotRequest, UpdateParkingLotRequest, ListParkingLotsRequest, State,
}
use parkhub_api.Parking.LotService.Calls.{Call, perform_all}
use parkhub_api.Parking.LotService.Isolation.{of_others, perform_all_lots-of_others}
use parkhub_api.Parking.LotService.Sound.{RowIsSound, perform_all_lots-IsSound}
use parkhub_api.Parking.LotService.Answers.{AfterStats, get_stats_lem}

abbrev lots : Gorm LotRow
lots = memory (λ a b. str_eq a.id b.id)

abbrev lanes : Gorm LaneRow
lanes = memory (λ a b. str_eq a.id b.id)

abbrev garage : LotRow
garage = record {
  id = "lot-1";
  tenant_id = "north";
  name = "Garage";
  address = "Main street 1";
  total_spaces = pos 100;
  available_spaces = pos 70;
  lot_type = underground;
  status = active;
  created_at = 1;
  updated_at = 1;
}

abbrev tower : LotRow
tower = record garage { id = "lot-2"; tenant_id = "south"; lot_type = stereo; status = inactive }

abbrev gate : LaneRow
gate = record {
  id = "lane-1";
  tenant_id = "north";
  parking_lot_id = "lot-1";
  name = "East";
  lane_type = entry;
  device_id = none;
  created_at = 1;
  updated_at = 1;
}

abbrev before : State lots lanes
before =
    (record { content = garage ∷ tower ∷ []; time = 40 }, record { content = gate ∷ []; time = 40 })

-- A change to 40 places, of which 30 are taken.
abbrev shrink : UpdateParkingLotRequest
shrink = record {
  id = "lot-1";
  tenant_id = "north";
  name = none;
  address = none;
  total_spaces = some (pos 40);
  lot_type = none;
  status = some inactive;
}

abbrev new_lot : CreateParkingLotRequest
new_lot = record {
  tenant_id = "north";
  name = "Roof";
  address = "Main street 2";
  total_spaces = pos 12;
  lot_type = underground;
}

abbrev all_lots : ListParkingLotsRequest
all_lots = record {
  tenant_id = "north";
  status = other_status "";
  lot_type = other_lot_type "";
  keyword = "";
  page = pos 1;
  page_size = pos 10;
}

abbrev calls : List Call
calls =
    Call.create new_lot "lot-3"
    ∷ Call.update shrink
    ∷ Call.list all_lots
    ∷ Call.get_stats
    ∷ Call.delete "lot-2"
    ∷ []

abbrev shrunk : LotRow
shrunk = record garage {
  total_spaces = pos 40;
  available_spaces = pos 10;
  status = inactive;
  updated_at = 40;
}

-- The 30 vehicles stay in the smaller lot.
shrink_garage : (LotService.update lots lanes true shrink before).1.0.content ≡ shrunk ∷ tower ∷ []
unfolding LotService.update LotService.apply_update LotService.set_capacity
    parkhub_api.Parking.Lot.deactivate parkhub_api.Base.Int.◌-ℤ◌
    parkhub_api.Parking.LotRepo.to_domain parkhub_api.Parking.LotRepo.to_entity
    parkhub_api.Parking.LotRepo.get_by_id parkhub_api.Parking.LotRepo.update
    parkhub_api.Parking.LotDao.find_by_id parkhub_api.Parking.LotDao.update
shrink_garage = refl

perform_all_lots-of_others_example :
    of_others "north" (perform_all lots lanes true contains "north" calls before).0.content
    ≡ of_others "north" before.0.content
perform_all_lots-of_others_example =
    perform_all_lots-of_others lots lanes true contains "north" calls before

before-IsSound : All RowIsSound before.0.content
before-IsSound = ((ground arith, ground arith), ((ground arith, ground arith), tt))

perform_all_lots-IsSound_example :
    All RowIsSound (perform_all lots lanes true contains "north" calls before).0.content
perform_all_lots-IsSound_example =
    perform_all_lots-IsSound lots lanes true contains "north" calls before
      (ground arith, (tt, (tt, (tt, (tt, tt))))) before-IsSound

get_stats_lem_example :
    AfterStats lots lanes true contains "north" before.0.content
      (LotService.get_stats lots lanes true contains "north" before)
get_stats_lem_example = get_stats_lem lots lanes true contains "north" before
