-- ===== src/Parking/LotService/Sound.antt =====
-- Every stored lot has between none and all of its places free, whatever methods are called.
use parkhub_api.Base.{
  ℕ, String, Bool, List, All, All-In, All-append, All-keep, All-map, Bool-cases, inl, inr, subst,
  sym, arith,
}
use parkhub_api.Base.Int.{pos, ◌≤ℤ◌}
use parkhub_api.Gorm.{Gorm, assign}
use parkhub_api.Parking.Lot.{ParkingLot, new_parking_lot}
use parkhub_api.Parking.LotDao.{LotRow, has_id, set_columns, stamp}
use parkhub_api.Parking.LaneDao.{LaneRow}
use parkhub_api.Parking.LotRepo.{to_domain, to_entity}
use parkhub_api.Parking.LotService.{CreateParkingLotRequest, State}
use parkhub_api.Parking.LotService.Shape.{IsStored, made}
use parkhub_api.Parking.LotService.Capacity.{IsSound, apply_update-IsSound}
use parkhub_api.Parking.LotService.Calls.{Call, perform_all, perform_all-LotsKeep}

abbrev pub RowIsSound : LotRow → Type 0
RowIsSound r = IsSound r.total_spaces r.available_spaces

-- A creation asks for no negative number of places.
abbrev pub AsksForPlaces : Call → Type 0
AsksForPlaces (Call.create req uuid) = pos 0 ≤ℤ req.total_spaces
AsksForPlaces _ = Unit

stored-IsSound :
    (t id : String) (d : ParkingLot) (rs : List LotRow)
    → All RowIsSound rs
    → IsStored t id d rs
    → IsSound d.total_spaces d.available_spaces
unfolding to_domain
stored-IsSound t id d rs h s =
    subst (λ l. IsSound l.total_spaces l.available_spaces) (sym s.same)
      (All-In RowIsSound s.row rs h s.found.stored)

set_columns-IsSound :
    (d : ParkingLot) (now : ℕ) (r : LotRow)
    → IsSound d.total_spaces d.available_spaces
    → RowIsSound r
    → RowIsSound (assign (has_id d.tenant_id d.id) (set_columns (to_entity d) now) r)
unfolding to_entity
set_columns-IsSound d now r w h = elim (Bool-cases (has_id d.tenant_id d.id r)) [
  | inl e ↦ rw e w
  | inr e ↦ rw e h
]

created-IsSound :
    (t uuid : String) (req : CreateParkingLotRequest) (now : ℕ)
    → pos 0 ≤ℤ req.total_spaces
    → RowIsSound (stamp (to_entity (made (record req { tenant_id = t }) uuid)) now)
unfolding to_entity new_parking_lot
created-IsSound t uuid req now h = (h, ground arith)

-- Whatever methods a tenant calls, and however they end: if every stored lot had between none and
-- all of its places free, and no creation asks for a negative number of places, every lot has.
pub perform_all_lots-IsSound :
    (g : Gorm LotRow) (h : Gorm LaneRow) (w : Bool) (like : String → String → Bool) (t : String)
    (cs : List Call) (s : State g h)
    → All AsksForPlaces cs
    → All RowIsSound (g.rows s.0)
    → All RowIsSound (g.rows (perform_all g h w like t cs s).0)
perform_all_lots-IsSound g h w like t cs s asked sound =
    perform_all-LotsKeep g h w t (All RowIsSound) AsksForPlaces
      (λ req now rs d d' e p st u.
        All-map RowIsSound _ rs
          (λ r k.
            set_columns-IsSound d' now r
              (apply_update-IsSound req d d' u (stored-IsSound t req.id d rs p st)) k)
          p)
      (λ req uuid now rs a p. All-append RowIsSound rs _ p (created-IsSound t uuid req now a, tt))
      (λ id rs p. All-keep RowIsSound _ rs p) like cs s asked sound
