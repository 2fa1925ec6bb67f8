-- ===== src/Parking/LotService/Keeps.antt =====
-- Actions of the lot service on both tables that keep a property of the lots; the methods that only
-- read keep every one.
use parkhub_api.Base.{
  ℕ, ◌≡◌, Bool, true, false, String, List, [], ◌∷◌, map, Result, ok, err, Action, pure, ◌>>=◌,
  or_else, catch, str_eq, ◌-◌, ◌*◌, count, if◌then◌else◌,
}
use parkhub_api.Base.Int.{ℤ}
use parkhub_api.Errors.{Error}
use parkhub_api.Gorm.{Gorm, IsPage, sum_where}
use parkhub_api.Gorm.Logic.{
  Triple, Triple-weaken, Triple-Keeps, Triple-bind, Triple-catch, Triple-total, Triple-find,
  Triple-sums,
}
use parkhub_api.Parking.Lot.{ParkingLot}
use parkhub_api.Parking.LotDao
use parkhub_api.Parking.LotDao.{LotRow, ParkingLotFilter, has_id, stamp, raw_error, find_all_where}
use parkhub_api.Parking.LaneDao.{LaneRow}
use parkhub_api.Parking.LotRepo
use parkhub_api.Parking.LaneRepo
use parkhub_api.Parking.LotRepo.{to_entity}
use parkhub_api.Parking.LotService
use parkhub_api.Parking.LotService.{
  CreateParkingLotRequest, UpdateParkingLotRequest, ListParkingLotsRequest, State, on_lots,
  on_lanes, apply_update, with_counts, listed, stats_of, count_gates,
}
use parkhub_api.Parking.LotService.Shape.{IsStored, get_by_id-Triple}

-- An action on both tables that keeps `P` of the lots, whether it returns or fails.
module _ (g : Gorm LotRow) (h : Gorm LaneRow) (P : List LotRow → Type 0) where
  pub record LotsKeep {A : Type 0} (m : Action (State g h) Error A) : Type 0 where
    pub at : (s : State g h) → P (g.rows s.0) → P (g.rows (m s).1.0)

  pure-LotsKeep : {A : Type 0} (a : A) → LotsKeep (pure a)
  pure-LotsKeep a = record { at = λ s p. p }

  pub on_lots-LotsKeep :
      {A : Type 0} (m : Action g.Db Error A) → Triple g P m (λ _. P) P → LotsKeep (on_lots g h m)
  on_lots-LotsKeep m t = record { at = λ s p. Triple-Keeps g P m t s.0 p }

  on_lanes-LotsKeep : {A : Type 0} (m : Action h.Db Error A) → LotsKeep (on_lanes g h m)
  on_lanes-LotsKeep m = record { at = λ s p. p }

  module _ {A : Type 0} where
    bound-LotsKeep :
        {B : Type 0} (f : A → Action (State g h) Error B)
        → ((a : A) → LotsKeep (f a))
        → (r : Result Error A × State g h) → P (g.rows r.1.0)
        → P (
            g.rows
              (elim r.0 as (λ _. Result Error B × State g h) [
                | ok a ↦ f a r.1
                | err e ↦ (err e, r.1)
              ]).1.0)
    bound-LotsKeep f k (ok a, s) p = (k a).at s p
    bound-LotsKeep f k (err e, s) p = p

    bind-LotsKeep :
        {B : Type 0} (m : Action (State g h) Error A) (f : A → Action (State g h) Error B)
        → LotsKeep m
        → ((a : A) → LotsKeep (f a))
        → LotsKeep (m >>= f)
    bind-LotsKeep m f t k = record { at = λ s p. bound-LotsKeep f k (m s) (t.at s p) }

    else-LotsKeep :
        (a : A) (r : Result Error A × State g h)
        → P (g.rows r.1.0)
        → P (
            g.rows
              (elim r.0 as (λ _. Result Error A × State g h) [
                | ok b ↦ (ok b, r.1)
                | err e ↦ (ok a, r.1)
              ]).1.0)
    else-LotsKeep a (ok b, s) p = p
    else-LotsKeep a (err e, s) p = p

    or_else-LotsKeep :
        (a : A) (m : Action (State g h) Error A) → LotsKeep m → LotsKeep (or_else a m)
    or_else-LotsKeep a m t = record { at = λ s p. else-LotsKeep a (m s) (t.at s p) }

    if-LotsKeep :
        (c : Bool) (m n : Action (State g h) Error A)
        → LotsKeep m
        → LotsKeep n
        → LotsKeep (if c then m else n)
    if-LotsKeep true m n k l = k
    if-LotsKeep false m n k l = l

  pub list_lots-LotsKeep :
      (like : String → String → Bool) (f : ParkingLotFilter) (page page_size : ℕ)
      → LotsKeep (on_lots g h (LotRepo.list g like f page page_size))
  unfolding LotRepo.list LotDao.find_all
  list_lots-LotsKeep like f page page_size =
      let fits = find_all_where like f in
      let offset = (page - 1) * page_size in
      on_lots-LotsKeep _ (
        Triple-bind g P P (λ _. P) (λ _. P) _
          (λ found. pure (map LotRepo.to_domain found.0, found.1))
          (Triple-bind g P P (λ _. P) (λ _. P) _
            (λ total. catch raw_error (g.find fits offset page_size) >>= λ lots. pure (lots, total))
            (Triple-catch g P P (λ _. P) raw_error _
              (Triple-weaken g P _ (λ n rs. P rs × (n ≡ count fits rs)) (λ _. P) P P (λ _ rs q. q.0)
                (λ rs q. q) (Triple-total g P fits)))
            (λ total.
              Triple-bind g P P (λ _. P) (λ _. P) _ (λ lots. pure (lots, total))
                (Triple-catch g P P (λ _. P) raw_error _
                  (Triple-weaken g P _ (λ l rs. P rs × IsPage fits offset page_size l rs) (λ _. P) P
                    P (λ _ rs q. q.0) (λ rs q. q) (Triple-find g P fits offset page_size)))
                (λ lots. record { at = λ d q. q })))
          (λ found. record { at = λ d q. q }))

  module _ (w : Bool) (t : String) where
    populate-LotsKeep :
        (lots : List ParkingLot) → LotsKeep (LotService.populate_lane_counts g h w t lots)
    unfolding LotService.populate_lane_counts
    populate-LotsKeep [] = pure-LotsKeep []
    populate-LotsKeep (lot ∷ lots) =
        if-LotsKeep w _ _
          (or_else-LotsKeep (lot ∷ lots) (LotService.counted_lots g h w t (lot ∷ lots)) (
            bind-LotsKeep _ (λ counts. pure (map (with_counts counts) (lot ∷ lots)))
              (on_lanes-LotsKeep
                (LaneRepo.count_by_parking_lots h t (map (λ l. l.id) (lot ∷ lots))))
              (λ counts. pure-LotsKeep _)))
          (pure-LotsKeep (lot ∷ lots))

    pub get_by_id-LotsKeep : (id : String) → LotsKeep (LotService.get_by_id g h w t id)
    unfolding LotService.get_by_id
    get_by_id-LotsKeep id =
        bind-LotsKeep _
          (λ lot. LotService.populate_lane_counts g h w t (lot ∷ []) >>= λ lots.
            pure (LotService.head_or g h w lot lots))
          (on_lots-LotsKeep (LotRepo.get_by_id g t id) (
            Triple-weaken g P _ (λ d rs. P rs × IsStored t id d rs) (λ _. P) P P (λ _ rs q. q.0)
              (λ rs q. q) (get_by_id-Triple g P t id)))
          (λ lot.
            bind-LotsKeep _ (λ lots. pure (LotService.head_or g h w lot lots))
              (populate-LotsKeep (lot ∷ [])) (λ lots. pure-LotsKeep _))

    gates-LotsKeep : (lots : List ParkingLot) → LotsKeep (LotService.gates_of g h w t lots)
    gates-LotsKeep [] = pure-LotsKeep 0
    gates-LotsKeep (lot ∷ lots) =
        bind-LotsKeep _ (λ counts. pure (count_gates counts))
          (on_lanes-LotsKeep (LaneRepo.count_by_parking_lots h t (map (λ l. l.id) (lot ∷ lots))))
          (λ counts. pure-LotsKeep _)

    pub list-LotsKeep :
        (like : String → String → Bool) (req : ListParkingLotsRequest)
        → LotsKeep (LotService.list g h w like (record req { tenant_id = t }))
    unfolding LotService.list
    list-LotsKeep like req =
        bind-LotsKeep _
          (λ found. LotService.populate_lane_counts g h w t found.0 >>= λ lots.
            pure (listed req found.1 lots))
          (list_lots-LotsKeep like _ _ _)
          (λ found.
            bind-LotsKeep _ (λ lots. pure (listed req found.1 lots)) (populate-LotsKeep found.0)
              (λ lots. pure-LotsKeep _))

    sums-LotsKeep : LotsKeep (on_lots g h (LotRepo.sum_stats g t))
    unfolding LotRepo.sum_stats LotDao.sum_stats
    sums-LotsKeep =
        let summed : ℤ × ℤ → List LotRow → Type 0 = λ s rs.
          P rs
          × (s.0 ≡ sum_where (λ r. r.total_spaces) (λ r. str_eq r.tenant_id t) rs)
          × (s.1 ≡ sum_where (λ r. r.available_spaces) (λ r. str_eq r.tenant_id t) rs) in
        on_lots-LotsKeep _ (
          Triple-catch g P P (λ _. P) raw_error _
            (Triple-weaken g P _ summed (λ _. P) P P (λ _ rs q. q.0) (λ rs q. q)
              (Triple-sums g P _ _ _)))

    pub total_gates-LotsKeep :
        (like : String → String → Bool) → LotsKeep (LotService.total_gates g h w like t)
    unfolding LotService.total_gates
    total_gates-LotsKeep like =
        if-LotsKeep w _ _
          (or_else-LotsKeep 0 _ (
            bind-LotsKeep _ (λ found. LotService.gates_of g h w t found.0)
              (list_lots-LotsKeep like _ 1 1000) (λ found. gates-LotsKeep found.0)))
          (pure-LotsKeep 0)

    pub get_stats-LotsKeep :
        (like : String → String → Bool) → LotsKeep (LotService.get_stats g h w like t)
    unfolding LotService.get_stats
    get_stats-LotsKeep like =
        bind-LotsKeep _
          (λ spaces. LotService.total_gates g h w like t >>= λ gates. pure (stats_of spaces gates))
          sums-LotsKeep
          (λ spaces.
            bind-LotsKeep _ (λ gates. pure (stats_of spaces gates)) (total_gates-LotsKeep like)
              (λ gates. pure-LotsKeep _))
