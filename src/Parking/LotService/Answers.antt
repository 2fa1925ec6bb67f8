-- ===== src/Parking/LotService/Answers.antt =====
-- The answers of the lot service: of an update, and of the statistics.
use parkhub_api.Base.{
  ℕ, ◌≡◌, refl, ◌∙◌, Bool, String, List, [], ◌∷◌, Result, ok, err, ap, str_eq, arith, ◌>>=◌, pure,
  Bool-cases, inl, inr,
}
use parkhub_api.Base.Int.{ℤ, pos, ◌+ℤ◌, ◌-ℤ◌, -ℤ_parts, +ℤ_parts, eq_of_parts}
use parkhub_api.Errors.{Error}
use parkhub_api.Gorm.{Gorm, sum_where}
use parkhub_api.Gorm.Logic.{Triple, Post, Triple-catch, Triple-sums}
use parkhub_api.Parking.Lot.{ParkingLot}
use parkhub_api.Parking.LotDao
use parkhub_api.Parking.LotDao.{LotRow, raw_error}
use parkhub_api.Parking.LaneDao.{LaneRow}
use parkhub_api.Parking.LotRepo
use parkhub_api.Parking.LotService
use parkhub_api.Parking.LotService.{
  UpdateParkingLotRequest, ParkingLotStatsResponse, State, on_lots, apply_update, stats_of,
}
use parkhub_api.Parking.LotService.Keeps.{total_gates-LotsKeep}
use parkhub_api.Parking.LotService.Updated.{IsAsked, RowUpdated, Rowwise}
use parkhub_api.Parking.LotService.Shape.{IsStored}

-- A stored lot of the tenant is what was asked for, in the answer and in the table.
pub record IsUpdated (req : UpdateParkingLotRequest) (before : List LotRow) (lot : ParkingLot)
    (after : List LotRow) : Type 0 where
  pub old : ParkingLot
  pub stored : IsStored req.tenant_id req.id old before
  pub answered : IsAsked req old lot
  pub rows : Rowwise (RowUpdated req old) before after

module _ (g : Gorm LotRow) (h : Gorm LaneRow) where
  -- What a call ends with, of the lots and of the lanes.
  abbrev pub Ends :
      {A : Type 0}
      → (A → List LotRow → Type 0)
      → (List LotRow → Type 0)
      → h.Db
      → Result Error A × State g h
      → Type 0
  Ends Q X l (ok a, (d, l')) = Q a (g.rows d) × (l' ≡ l)
  Ends Q X l (err e, (d, l')) = X (g.rows d) × (l' ≡ l)

sub_add : (a b m n : ℤ) → (a +ℤ m) -ℤ (b +ℤ n) ≡ (a -ℤ b) +ℤ (m -ℤ n)
sub_add a b m n = eq_of_parts _ _ (
    ground (
      arith,
      +ℤ_parts a m,
      +ℤ_parts b n,
      -ℤ_parts a b,
      -ℤ_parts m n,
      -ℤ_parts (a +ℤ m) (b +ℤ n),
      +ℤ_parts (a -ℤ b) (m -ℤ n),
    ))

sum_where_sub :
    (a b : LotRow → ℤ) (p : LotRow → Bool) (rs : List LotRow)
    → sum_where a p rs -ℤ sum_where b p rs ≡ sum_where (λ r. a r -ℤ b r) p rs
sum_where_sub a b p [] =
    eq_of_parts (pos 0 -ℤ pos 0) (pos 0) (ground (arith, -ℤ_parts (pos 0) (pos 0)))
sum_where_sub a b p (r ∷ rs) = elim (Bool-cases (p r)) [
  | inl e ↦ rw e (sub_add (a r) (b r) _ _ ∙ ap (λ n. (a r -ℤ b r) +ℤ n) (sum_where_sub a b p rs))
  | inr e ↦ rw e (sum_where_sub a b p rs)
]

-- The statistics are the sums over the tenant's lots; the vehicles are those in each lot, added up.
pub record IsStats (t : String) (before : List LotRow) (resp : ParkingLotStatsResponse)
    (after : List LotRow) : Type 0 where
  pub total : resp.total_spaces ≡ sum_where (λ r. r.total_spaces) (λ r. str_eq r.tenant_id t) before
  pub available :
      resp.available_spaces ≡ sum_where (λ r. r.available_spaces) (λ r. str_eq r.tenant_id t) before
  pub vehicles :
      resp.occupied_vehicles
      ≡ sum_where (λ r. r.total_spaces -ℤ r.available_spaces) (λ r. str_eq r.tenant_id t) before
  pub unchanged : after ≡ before

module _ (g : Gorm LotRow) (h : Gorm LaneRow) (w : Bool) (like : String → String → Bool)
    (t : String) where
  abbrev pub AfterStats : List LotRow → Result Error ParkingLotStatsResponse × State g h → Type 0
  AfterStats before (ok resp, s) = IsStats t before resp (g.rows s.0)
  AfterStats before (err e, s) = g.rows s.0 ≡ before

  abbrev AreSums : List LotRow → ℤ × ℤ → List LotRow → Type 0
  AreSums before spaces rs =
      (rs ≡ before)
      × (spaces.0 ≡ sum_where (λ r. r.total_spaces) (λ r. str_eq r.tenant_id t) rs)
      × (spaces.1 ≡ sum_where (λ r. r.available_spaces) (λ r. str_eq r.tenant_id t) rs)

  sum_stats-Triple :
      (before : List LotRow)
      → Triple g (λ rs. rs ≡ before) (LotRepo.sum_stats g t) (AreSums before) (λ rs. rs ≡ before)
  unfolding LotRepo.sum_stats LotDao.sum_stats
  sum_stats-Triple before =
      Triple-catch g (λ rs. rs ≡ before) (λ rs. rs ≡ before) (AreSums before) raw_error _
        (Triple-sums g (λ rs. rs ≡ before) _ _ _)

  gates-AfterStats :
      (before : List LotRow) (spaces : ℤ × ℤ) (r : Result Error ℕ × State g h)
      → AreSums before spaces before
      → g.rows r.1.0 ≡ before
      → AfterStats before (elim r.0 as (λ _. Result Error ParkingLotStatsResponse × State g h) [
        | ok gates ↦ (ok (stats_of spaces gates), r.1)
        | err e ↦ (err e, r.1)
      ])
  gates-AfterStats before spaces (ok gates, s) sums same = record {
    total = sums.1;
    available = sums.2;
    vehicles = rw (sums.1, sums.2) (sum_where_sub _ _ _ before);
    unchanged = same;
  }
  gates-AfterStats before spaces (err e, s) sums same = same

  spaces-AfterStats :
      (before : List LotRow) (r : Result Error (ℤ × ℤ) × g.Db) (l : h.Db)
      → Post g (AreSums before) (λ rs. rs ≡ before) r
      → AfterStats before (elim r.0 as (λ _. Result Error ParkingLotStatsResponse × State g h) [
        | ok spaces ↦
            (LotService.total_gates g h w like t >>= λ gates. pure (stats_of spaces gates)) (r.1, l)
        | err e ↦ (err e, (r.1, l))
      ])
  spaces-AfterStats before (ok spaces, d) l (e, total, available) =
      gates-AfterStats before spaces (LotService.total_gates g h w like t (d, l))
        (refl, rw (← e) total, rw (← e) available)
        ((total_gates-LotsKeep g h (λ rs. rs ≡ before) w t like).at (d, l) e)
  spaces-AfterStats before (err x, d) l e = e

  -- `GetStats` answers with the sums of places and of free places over the tenant's lots, and with
  -- the number of vehicles in all of them; neither it nor its failure changes a row of lots.
  pub get_stats_lem :
      (s : State g h) → AfterStats (g.rows s.0) (LotService.get_stats g h w like t s)
  unfolding LotService.get_stats
  get_stats_lem (d, l) =
      spaces-AfterStats (g.rows d) (LotRepo.sum_stats g t d) l
        ((sum_stats-Triple (g.rows d)).at d refl)
