-- ===== src/Parking/LaneTests.antt =====
-- The theorems on lanes at small tables in memory, and runs of the lane service.
use parkhub_api.Base.{◌≡◌, refl, inl, inr, List, [], ◌∷◌, String, Bool, none, some, str_eq}
use parkhub_api.Base.Ends.{Ends}
use parkhub_api.Errors.{Error}
use parkhub_api.Gorm.{Gorm}
use parkhub_api.Gorm.Logic.{Post}
use parkhub_api.Gorm.Memory.{Table, memory}
use parkhub_api.Iot.Dao.{DeviceRow}
use parkhub_api.Parking.Lane.{Lane, entry, exit}
use parkhub_api.Parking.LaneDao
use parkhub_api.Parking.LaneDao.{LaneRow}
use parkhub_api.Parking.LaneDao.Counts.{IsCounts, count_by_parking_lots-IsCounts}
use parkhub_api.Parking.LaneRepo.{to_lane_domain}
use parkhub_api.Parking.LaneService
use parkhub_api.Parking.LaneService.{State}
use parkhub_api.Parking.LaneService.Missing.{without, delete_missing_lem}

abbrev lanes : Gorm LaneRow
lanes = memory (λ a b. str_eq a.id b.id)

abbrev devices : Gorm DeviceRow
devices = memory (λ a b. str_eq a.id b.id)

abbrev east : LaneRow
east = record {
  id = "lane-1";
  tenant_id = "north";
  parking_lot_id = "lot-1";
  name = "East";
  lane_type = entry;
  device_id = some "dev-1";
  created_at = 1;
  updated_at = 1;
}

abbrev west : LaneRow
west = record east { id = "lane-2"; name = "West"; lane_type = exit; device_id = none }

abbrev table : Table LaneRow
table = record { content = east ∷ west ∷ []; time = 40 }

count_by_parking_lots-IsCounts_example :
    Post lanes {E = Error}
      (λ counts rs. (rs ≡ table.content) × IsCounts "north" "lot-1" counts rs)
      (λ rs. rs ≡ table.content)
      (LaneDao.count_by_parking_lots lanes "north" ("lot-2" ∷ "lot-1" ∷ []) table)
count_by_parking_lots-IsCounts_example =
    count_by_parking_lots-IsCounts lanes "north" "lot-1" ("lot-2" ∷ "lot-1" ∷ []) table
      (inr (inl refl))

abbrev before : State lanes devices
before = (table, record { content = []; time = 40 })

abbrev listed : List (String × Lane)
listed = ("lane-1", to_lane_domain east) ∷ ("lane-2", to_lane_domain west) ∷ []

abbrev second_only : String → Bool
second_only id = str_eq id "lane-2"

delete_missing_lem_example :
    Ends
      (λ _ st'. st'.0.content ≡ without "north" second_only listed table.content)
      (λ _ st'.
        without "north" second_only listed st'.0.content
        ≡ without "north" second_only listed table.content)
      (LaneService.delete_missing lanes devices "north" "lot-1" 50 second_only listed before)
delete_missing_lem_example =
    delete_missing_lem lanes devices "north" "lot-1" 50 second_only listed before

one_deleted : without "north" second_only listed table.content ≡ west ∷ []
one_deleted = refl
