-- ===== src/Parking/LotService/Calls.antt =====
-- Any calls of the methods of the lot service, one behind the other, by one tenant; and the rule by
-- which they all keep a property of the table of lots.
use parkhub_api.Base.{
  ℕ, ◌≡◌, refl, subst, sym, not, Bool, String, List, [], ◌∷◌, ◌++◌, ok, keep, All,
}
use parkhub_api.Gorm.{Gorm}
use parkhub_api.Parking.Lot.{ParkingLot}
use parkhub_api.Parking.LotDao.{LotRow, has_id, stamp}
use parkhub_api.Parking.LaneDao.{LaneRow}
use parkhub_api.Parking.LotRepo
use parkhub_api.Parking.LotRepo.{to_entity}
use parkhub_api.Parking.LotService
use parkhub_api.Parking.LotService.{
  CreateParkingLotRequest, UpdateParkingLotRequest, ListParkingLotsRequest, State, on_lots,
  on_lanes, apply_update, with_counts, listed, stats_of, count_gates,
}
use parkhub_api.Parking.LotService.Shape.{
  IsStored, written, made, update_lots-eq, update_lots-Triple, create_lots-eq, create_lots-Triple,
  delete_lot-Triple,
}
use parkhub_api.Parking.LotService.Keeps.{
  LotsKeep, on_lots-LotsKeep, get_by_id-LotsKeep, list-LotsKeep, get_stats-LotsKeep,
}

-- A creation carries the id that `uuid.New` gives.
pub data Call : Type 0 where
  create : CreateParkingLotRequest → String → Call
  update : UpdateParkingLotRequest → Call
  delete get_by_id : String → Call
  list : ListParkingLotsRequest → Call
  get_stats : Call

module _ (g : Gorm LotRow) (h : Gorm LaneRow) (w : Bool) (like : String → String → Bool) where
  -- The tables after a call by the tenant.
  unfoldable pub perform : String → Call → State g h → State g h
  perform t (Call.create req uuid) s =
      (LotService.create g h w (record req { tenant_id = t }) uuid s).1
  perform t (Call.update req) s = (LotService.update g h w (record req { tenant_id = t }) s).1
  perform t (Call.delete id) s = (LotService.delete g h w t id s).1
  perform t (Call.get_by_id id) s = (LotService.get_by_id g h w t id s).1
  perform t (Call.list req) s = (LotService.list g h w like (record req { tenant_id = t }) s).1
  perform t Call.get_stats s = (LotService.get_stats g h w like t s).1

  unfoldable pub perform_all : String → List Call → State g h → State g h
  perform_all t [] s = s
  perform_all t (c ∷ cs) s = perform_all t cs (perform t c s)

-- What each method needs to keep `P`.
module _ (g : Gorm LotRow) (h : Gorm LaneRow) (w : Bool) (t : String) (P : List LotRow → Type 0)
    (Asked : Call → Type 0)
    (keeps_write : (req : UpdateParkingLotRequest) (now : ℕ) (rs : List LotRow) (d d' : ParkingLot)
      → req.tenant_id ≡ t
      → P rs
      → IsStored t req.id d rs
      → apply_update req d ≡ ok d'
      → P (written d' now rs))
    (keeps_create : (req : CreateParkingLotRequest) (uuid : String) (now : ℕ) (rs : List LotRow)
      → Asked (Call.create req uuid)
      → P rs
      → P (rs ++ stamp (to_entity (made (record req { tenant_id = t }) uuid)) now ∷ []))
    (keeps_delete : (id : String) (rs : List LotRow)
      → P rs
      → P (keep (λ r. not (has_id t id r)) rs)) where
  update-LotsKeep :
      (req : UpdateParkingLotRequest)
      → LotsKeep g h P (LotService.update g h w (record req { tenant_id = t }))
  update-LotsKeep req = record {
    at = λ s p.
        subst (λ r. P (g.rows r.1.0)) (sym (update_lots-eq g h w (record req { tenant_id = t }) s))
          ((on_lots-LotsKeep g h P _ (
              update_lots-Triple g P (record req { tenant_id = t }) (λ _. P)
                (λ now rs d d' q st e.
                  keeps_write (record req { tenant_id = t }) now rs d d' refl q st e))).at
            s p);
  }

  create-LotsKeep :
      (req : CreateParkingLotRequest) (uuid : String)
      → Asked (Call.create req uuid)
      → LotsKeep g h P (LotService.create g h w (record req { tenant_id = t }) uuid)
  create-LotsKeep req uuid asked = record {
    at = λ s p.
        subst (λ r. P (g.rows r.1.0))
          (sym (create_lots-eq g h w (record req { tenant_id = t }) uuid s))
          ((on_lots-LotsKeep g h P _ (
              create_lots-Triple g P (record req { tenant_id = t }) uuid P
                (λ now rs q. keeps_create req uuid now rs asked q))).at
            s p);
  }

  delete-LotsKeep : (id : String) → LotsKeep g h P (LotService.delete g h w t id)
  unfolding LotService.delete
  delete-LotsKeep id =
      on_lots-LotsKeep g h P (LotRepo.delete g t id)
        (delete_lot-Triple g P t id P (λ rs q. keeps_delete id rs q))

  -- Every call keeps `P`.
  perform-LotsKeep :
      (like : String → String → Bool) (c : Call) (s : State g h)
      → Asked c
      → P (g.rows s.0)
      → P (g.rows (perform g h w like t c s).0)
  unfolding perform
  perform-LotsKeep like (Call.create req uuid) s a p = (create-LotsKeep req uuid a).at s p
  perform-LotsKeep like (Call.update req) s a p = (update-LotsKeep req).at s p
  perform-LotsKeep like (Call.delete id) s a p = (delete-LotsKeep id).at s p
  perform-LotsKeep like (Call.get_by_id id) s a p = (get_by_id-LotsKeep g h P w t id).at s p
  perform-LotsKeep like (Call.list req) s a p = (list-LotsKeep g h P w t like req).at s p
  perform-LotsKeep like Call.get_stats s a p = (get_stats-LotsKeep g h P w t like).at s p

  pub perform_all-LotsKeep :
      (like : String → String → Bool) (cs : List Call) (s : State g h)
      → All Asked cs
      → P (g.rows s.0)
      → P (g.rows (perform_all g h w like t cs s).0)
  unfolding perform_all
  perform_all-LotsKeep like [] s a p = p
  perform_all-LotsKeep like (c ∷ cs) s a p =
      perform_all-LotsKeep like cs (perform g h w like t c s) a.1 (perform-LotsKeep like c s a.0 p)
