-- ===== src/Parking/LotService/Isolation.antt =====
-- Tenants do not reach one another's parking lots.
use parkhub_api.Base.{
  ℕ, ◌≡◌, refl, ◌∙◌, not, Bool, String, List, [], ◌∷◌, ◌++◌, keep, keep-append, keep-map, keep-keep,
  str_eq, eq_iff, eq_refl, arith, All,
}
use mathlib.Core.List.{append-nil}
use parkhub_api.Gorm.{Gorm, assign}
use parkhub_api.Parking.Lot.{ParkingLot, new_parking_lot}
use parkhub_api.Parking.LotDao.{LotRow, has_id, set_columns, stamp}
use parkhub_api.Parking.LaneDao.{LaneRow}
use parkhub_api.Parking.LotRepo.{to_domain, to_entity}
use parkhub_api.Parking.LotService.{CreateParkingLotRequest, State}
use parkhub_api.Parking.LotService.Shape.{IsStored, written, made}
use parkhub_api.Parking.LotService.Capacity.{apply_update-tenant}
use parkhub_api.Parking.LotService.Calls.{Call, perform_all, perform_all-LotsKeep}

-- The rows of all tenants but `t`.
abbrev pub of_others : String → List LotRow → List LotRow
of_others t = keep (λ r. not (str_eq r.tenant_id t))

stored-tenant :
    (t id : String) (d : ParkingLot) (rs : List LotRow) → IsStored t id d rs → d.tenant_id ≡ t
unfolding to_domain
stored-tenant t id d rs s = ground (arith, s.found.fits, s.same, eq_iff s.row.tenant_id t)

written-of_others :
    (t : String) (d : ParkingLot) (now : ℕ) (rs : List LotRow)
    → d.tenant_id ≡ t
    → of_others t (written d now rs) ≡ of_others t rs
written-of_others t d now rs h =
    keep-map (λ r. not (str_eq r.tenant_id t))
      (assign (has_id d.tenant_id d.id) (set_columns (to_entity d) now)) rs
      (λ r out. ground (arith, h, eq_iff r.tenant_id t))
      (λ r out. ground (arith, eq_iff r.tenant_id t))

deleted-of_others :
    (t id : String) (rs : List LotRow)
    → of_others t (keep (λ r. not (has_id t id r)) rs) ≡ of_others t rs
deleted-of_others t id rs = keep-keep _ _ rs (λ r h. ground arith)

created-of_others :
    (t : String) (r : LotRow) (rs : List LotRow)
    → r.tenant_id ≡ t
    → of_others t (rs ++ r ∷ []) ≡ of_others t rs
created-of_others t r rs h = keep-append _ rs (r ∷ []) ∙ rw (h, eq_refl) (append-nil _)

created-tenant :
    (t uuid : String) (req : CreateParkingLotRequest) (now : ℕ)
    → (stamp (to_entity (made (record req { tenant_id = t }) uuid)) now).tenant_id ≡ t
unfolding to_entity new_parking_lot
created-tenant t uuid req now = refl

all_asked : (cs : List Call) → All (λ _. Unit {0}) cs
all_asked [] = tt
all_asked (c ∷ cs) = (tt, all_asked cs)

-- Whatever methods a tenant calls, and however they end, the parking lots of all other tenants are
-- the same rows as before.
pub perform_all_lots-of_others :
    (g : Gorm LotRow) (h : Gorm LaneRow) (w : Bool) (like : String → String → Bool) (t : String)
    (cs : List Call) (s : State g h)
    → of_others t (g.rows (perform_all g h w like t cs s).0) ≡ of_others t (g.rows s.0)
perform_all_lots-of_others g h w like t cs s =
    perform_all-LotsKeep g h w t (λ rs. of_others t rs ≡ of_others t (g.rows s.0)) (λ _. Unit {0})
      (λ req now rs d d' e p st u.
        written-of_others t d' now rs
          (apply_update-tenant req d d' u ∙ stored-tenant t req.id d rs st)
        ∙ p)
      (λ req uuid now rs _ p. created-of_others t _ rs (created-tenant t uuid req now) ∙ p)
      (λ id rs p. deleted-of_others t id rs ∙ p) like cs s (all_asked cs) refl
