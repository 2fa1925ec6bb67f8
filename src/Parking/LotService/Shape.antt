-- ===== src/Parking/LotService/Shape.antt =====
-- What the lot service does to the table of lots, from `P` to `Q`; the lanes it only reads.
use parkhub_api.Base.{
  ℕ, ◌≡◌, ◌≢◌, refl, ◌++◌, [], ◌∷◌, not, String, List, map, ok, Action, ◌>>=◌, ◌>>◌, pure, lift,
  keep, arith, Bool,
}
use parkhub_api.Errors.{Error, parking, parking_lot_not_found}
use parkhub_api.Gorm.{Gorm, Found, assign}
use parkhub_api.Gorm.Logic.{
  Triple, Triple-bind, Triple-catch, Triple-lift, Triple-affected, Triple-first, Triple-updates,
  Triple-delete, Triple-create, Triple-weaken,
}
use parkhub_api.Parking.Lot.{ParkingLot, new_parking_lot}
use parkhub_api.Parking.LotDao
use parkhub_api.Parking.LotDao.{LotRow, has_id, set_columns, stamp}
use parkhub_api.Parking.LaneDao.{LaneRow}
use parkhub_api.Parking.LotRepo
use parkhub_api.Parking.LotRepo.{to_domain, to_entity}
use parkhub_api.Parking.LotService
use parkhub_api.Parking.LotService.{
  CreateParkingLotRequest, UpdateParkingLotRequest, State, on_lots, apply_update,
}

-- The rows after `lot` has been written back.
abbrev pub written : ParkingLot → ℕ → List LotRow → List LotRow
written lot now = map (assign (has_id lot.tenant_id lot.id) (set_columns (to_entity lot) now))

-- `lot` is the lot of a stored row of that tenant and id.
pub record IsStored (tenant_id id : String) (lot : ParkingLot) (rs : List LotRow) : Type 0 where
  pub row : LotRow
  pub found : Found (has_id tenant_id id) row rs
  pub same : lot ≡ to_domain row

-- The lot that `Create` makes.
abbrev pub made : CreateParkingLotRequest → String → ParkingLot
made req uuid = record (new_parking_lot req.name req.address req.total_spaces req.lot_type) {
  id = uuid;
  tenant_id = req.tenant_id;
}

-- `Update` and `Create` with the lanes left out.
unfoldable pub update_lots :
    (g : Gorm LotRow) → UpdateParkingLotRequest → Action g.Db Error ParkingLot
update_lots g req = do
  lot ← LotRepo.get_by_id g req.tenant_id req.id
  lot' ← lift (apply_update req lot)
  LotRepo.update g lot'
  pure lot'

unfoldable pub create_lots :
    (g : Gorm LotRow) → CreateParkingLotRequest → String → Action g.Db Error ParkingLot
create_lots g req uuid = do LotRepo.create g (made req uuid); pure (made req uuid)

module _ (g : Gorm LotRow) (P : List LotRow → Type 0) where
  pub get_by_id-Triple :
      (tenant_id id : String)
      → Triple g P (LotRepo.get_by_id g tenant_id id) (λ d rs. P rs × IsStored tenant_id id d rs) P
  unfolding LotRepo.get_by_id LotDao.find_by_id
  get_by_id-Triple tenant_id id =
      let found : LotRow → List LotRow → Type 0 = λ r rs. P rs × Found (has_id tenant_id id) r rs in
      Triple-bind g P P found (λ d rs. P rs × IsStored tenant_id id d rs) _
        (λ r. pure (to_domain r))
        (Triple-catch g P P found LotDao.find_error _ (Triple-first g P (has_id tenant_id id)))
        (λ r. record { at = λ d h. (h.0, record { row = r; found = h.1; same = refl }) })

  pub update_lot-Triple :
      (d : ParkingLot) (Q : List LotRow → Type 0)
      → ((now : ℕ) (rs : List LotRow) → P rs → Q (written d now rs))
      → Triple g P (LotRepo.update g d) (λ _. Q) P
  unfolding LotRepo.update LotDao.update to_entity
  update_lot-Triple d Q k =
      let split : ℕ → List LotRow → Type 0 = λ n rs. (n ≡ 0 → P rs) × (n ≢ 0 → Q rs) in
      Triple-bind g P P split _ _ _
        (Triple-catch g P P split LotDao.raw_error _
          (Triple-updates g P _ _ Q (λ now rs h _. k now rs h)))
        (λ n.
          Triple-affected g (split n) Q P n (parking parking_lot_not_found) (λ rs z h. h.0 z)
            (λ rs z h. h.1 z))

  pub delete_lot-Triple :
      (tenant_id id : String) (Q : List LotRow → Type 0)
      → ((rs : List LotRow) → P rs → Q (keep (λ r. not (has_id tenant_id id r)) rs))
      → Triple g P (LotRepo.delete g tenant_id id) (λ _. Q) P
  unfolding LotRepo.delete LotDao.delete
  delete_lot-Triple tenant_id id Q k =
      let split : ℕ → List LotRow → Type 0 = λ n rs. (n ≡ 0 → P rs) × Q rs in
      Triple-bind g P P split _ _ _
        (Triple-catch g P P split LotDao.raw_error _ (Triple-delete g P _ Q k))
        (λ n.
          Triple-affected g (split n) Q P n (parking parking_lot_not_found) (λ rs z h. h.0 z)
            (λ rs z h. h.1))

  pub create_lots-Triple :
      (req : CreateParkingLotRequest) (uuid : String) (Q : List LotRow → Type 0)
      → ((now : ℕ) (rs : List LotRow) → P rs → Q (rs ++ stamp (to_entity (made req uuid)) now ∷ []))
      → Triple g P (create_lots g req uuid) (λ _. Q) P
  unfolding create_lots LotRepo.create LotDao.insert
  create_lots-Triple req uuid Q k =
      Triple-bind g P P (λ _. Q) (λ _. Q) _ (λ _. pure (made req uuid))
        (Triple-catch g P P (λ _. Q) LotDao.insert_error _
          (Triple-create g P (stamp (to_entity (made req uuid))) Q k))
        (λ _. record { at = λ d h. h })

module _ (g : Gorm LotRow) (P : List LotRow → Type 0) (req : UpdateParkingLotRequest)
    (Q : ParkingLot → List LotRow → Type 0)
    (k : (now : ℕ) (rs : List LotRow) (d d' : ParkingLot)
      → P rs
      → IsStored req.tenant_id req.id d rs
      → apply_update req d ≡ ok d'
      → Q d' (written d' now rs)) where
  abbrev Read : ParkingLot → List LotRow → Type 0
  Read d rs = P rs × IsStored req.tenant_id req.id d rs

  abbrev Changed : ParkingLot → ParkingLot → List LotRow → Type 0
  Changed d d' rs = P rs × IsStored req.tenant_id req.id d rs × (apply_update req d ≡ ok d')

  write-Triple : (d d' : ParkingLot) → Triple g (Changed d d') (LotRepo.update g d') (λ _. Q d') P
  write-Triple d d' =
      Triple-weaken g (Changed d d') (LotRepo.update g d') (λ _. Q d') (λ _. Q d') (Changed d d') P
        (λ a rs q. q) (λ rs h. h.0)
        (update_lot-Triple g (Changed d d') d' (Q d') (λ now rs h. k now rs d d' h.0 h.1 h.2))

  pub update_lots-Triple : Triple g P (update_lots g req) Q P
  unfolding update_lots
  update_lots-Triple =
      Triple-bind g P P Read Q _
        (λ d. lift (apply_update req d) >>= λ d'. LotRepo.update g d' >> pure d')
        (get_by_id-Triple g P req.tenant_id req.id)
        (λ d.
          Triple-bind g (Read d) P (Changed d) Q _ (λ d'. LotRepo.update g d' >> pure d')
            (Triple-lift g (Read d) P (Changed d) (apply_update req d) (λ d' e rs h. (h.0, h.1, e))
              (λ rs h. h.0))
            (λ d'.
              Triple-bind g (Changed d d') P (λ _. Q d') Q _ (λ _. pure d') (write-Triple d d')
                (λ _. record { at = λ s h. h })))

module _ (g : Gorm LotRow) (h : Gorm LaneRow) (w : Bool) where
  -- The service on both tables is the code on the lots; the lanes stay as they are.
  pub update_lots-eq :
      (req : UpdateParkingLotRequest) (s : State g h)
      → LotService.update g h w req s ≡ on_lots g h (update_lots g req) s
  unfolding LotService.update update_lots
  update_lots-eq req (d, l) = ground arith

  pub create_lots-eq :
      (req : CreateParkingLotRequest) (uuid : String) (s : State g h)
      → LotService.create g h w req uuid s ≡ on_lots g h (create_lots g req uuid) s
  unfolding LotService.create create_lots
  create_lots-eq req uuid (d, l) = ground arith
