-- ===== src/Parking/LaneService/Missing.antt =====
-- The first phase of `UpdateLanes`: the lanes that the request leaves out.
use Prim.Native.String.{◌++◌}
use parkhub_api.Base.{
  ℕ, ◌≡◌, refl, ap, ◌∙◌, sym, Bool, true, false, not, ◌&&◌, ◌||◌, String, List, [], ◌∷◌, Result, ok,
  err, catch, raise_if, pure, keep, keep-not_none, keep-keep, subst, any, count, arith, ◌==◌,
  if◌then◌else◌, Option, none, some,
}
use parkhub_api.Base.Ends.{Ends, Ends-bind, Ends-catch, Ends-raise_if, Ends-weaken}
use parkhub_api.Errors.{Error, parking, wrap, lane_not_found}
use parkhub_api.Gorm.{Gorm}
use parkhub_api.Gorm.Ends.{delete-Ends}
use parkhub_api.Iot.Dao.{DeviceRow}
use parkhub_api.Parking.Lane.{Lane}
use parkhub_api.Parking.LaneDao.{LaneRow, has_id, raw_error}
use parkhub_api.Parking.LaneDao
use parkhub_api.Parking.LaneRepo
use parkhub_api.Parking.LaneService.{State, on_lanes, on_devices, attempt}
use parkhub_api.Parking.LaneService

-- A lane of the tenant that stands in the list and is not requested.
abbrev pub is_missing : String → (String → Bool) → List (String × Lane) → LaneRow → Bool
is_missing tenant_id requested ls r = any (λ e. not (requested e.0) && has_id tenant_id e.0 r) ls

abbrev pub without : String → (String → Bool) → List (String × Lane) → List LaneRow → List LaneRow
without tenant_id requested ls rs = keep (λ r. not (is_missing tenant_id requested ls r)) rs

keep-both :
    (p q : LaneRow → Bool) (rs : List LaneRow)
    → keep (λ r. not (q r)) (keep (λ r. not (p r)) rs) ≡ keep (λ r. not (p r || q r)) rs
keep-both p q [] = refl
keep-both p q (r ∷ rs) = ground (arith, keep-both p q rs)

keep-both_sym :
    (p q : LaneRow → Bool) (rs : List LaneRow)
    → keep (λ r. not (p r)) (keep (λ r. not (q r)) rs) ≡ keep (λ r. not (p r || q r)) rs
keep-both_sym p q [] = refl
keep-both_sym p q (r ∷ rs) = ground (arith, keep-both_sym p q rs)

keep-all : (rs : List LaneRow) → keep (λ _. true) rs ≡ rs
keep-all [] = refl
keep-all (r ∷ rs) = ap (λ l. r ∷ l) (keep-all rs)

module _ (lanes : Gorm LaneRow) (devices : Gorm DeviceRow) (tenant_id lot : String) (now : ℕ) where
  abbrev table : State lanes devices → List LaneRow
  table st = lanes.rows st.0

  delete-Ends_lane :
      (id : String) (l : lanes.Db)
      → Ends
          (λ _ l'. lanes.rows l' ≡ keep (λ r. not (has_id tenant_id id r)) (lanes.rows l))
          (λ _ l'. lanes.rows l' ≡ lanes.rows l)
          (LaneRepo.delete lanes tenant_id id l)
  unfolding LaneRepo.delete LaneDao.delete
  delete-Ends_lane id l =
      let p = has_id tenant_id id in
      let Kept : Unit {0} → lanes.Db → Type 0 =
        λ _ l'. lanes.rows l' ≡ keep (λ r. not (p r)) (lanes.rows l) in
      let Same : Error → lanes.Db → Type 0 = λ _ l'. lanes.rows l' ≡ lanes.rows l in
      Ends-bind
        (λ n l'.
          (lanes.rows l' ≡ keep (λ r. not (p r)) (lanes.rows l)) × (n ≡ count p (lanes.rows l)))
        Kept Same (catch raw_error (lanes.delete p))
        (λ n. raise_if (n == 0) (parking lane_not_found)) l
        (Ends-catch _ Same raw_error (lanes.delete p) l (delete-Ends lanes p l))
        (λ n l' h.
          Ends-raise_if (Kept tt) Same (n == 0) (parking lane_not_found) l'
            (λ z. h.0 ∙ keep-not_none p (lanes.rows l) (sym h.1 ∙ is_zero n z)) (λ _. h.0))
    where
      is_zero : (n : ℕ) → (n == 0) ≡ true → n ≡ 0
      is_zero n z = ground (arith, z)

  unbound_Ends :
      (o : Option String) (st : State lanes devices)
      → Ends
          (λ _ st'. st'.0 ≡ st.0)
          (λ _ _. ⊥)
          (LaneService.unbind_device lanes devices tenant_id lot now o st)
  unfolding LaneService.unbind_device
  unbound_Ends none st = refl
  unbound_Ends (some id) st = refl

  focused_lanes :
      (Q : lanes.Db → Type 0) (x : Result Error (Unit {0}) × lanes.Db) (f : Error → Error)
      (st : State lanes devices) (Y : lanes.Db → Type 0)
      → Ends (λ _. Q) (λ _. Y) x
      → Ends
          (λ _ st'. Q st'.0)
          (λ _ st'. Y st'.0)
          (catch f (on_lanes lanes devices (λ (_ : lanes.Db). x)) st)
  focused_lanes Q (ok _, l) f st Y h = h
  focused_lanes Q (err e, l) f st Y h = h

  delete_lane-Ends :
      (id : String) (lane : Lane) (st : State lanes devices)
      → Ends
          (λ _ st'. table st' ≡ keep (λ r. not (has_id tenant_id id r)) (table st))
          (λ _ st'. table st' ≡ table st)
          (LaneService.delete_lane lanes devices tenant_id lot now id lane st)
  unfolding LaneService.delete_lane
  delete_lane-Ends id lane st =
      let Kept : Unit {0} → State lanes devices → Type 0 =
        λ _ st'. table st' ≡ keep (λ r. not (has_id tenant_id id r)) (table st) in
      let Same : Error → State lanes devices → Type 0 = λ _ st'. table st' ≡ table st in
      let unbind = LaneService.unbind_device lanes devices tenant_id lot now lane.device_id in
      let delete = LaneRepo.delete lanes tenant_id id in
      Ends-bind (λ _ st'. st'.0 ≡ st.0) Kept Same unbind
        (λ _. catch (wrap ("delete lane " ++ id)) (on_lanes lanes devices delete)) st
        (Ends-weaken (λ _ st'. st'.0 ≡ st.0) (λ _ st'. st'.0 ≡ st.0) (λ _ _. ⊥) Same (λ _ _ h. h)
          (λ _ _ h. absurd h) (unbind st) (unbound_Ends lane.device_id st))
        (λ _ st' h.
          focused_lanes (λ l. lanes.rows l ≡ keep (λ r. not (has_id tenant_id id r)) (table st))
            (delete st'.0) (wrap ("delete lane " ++ id)) st' (λ l. lanes.rows l ≡ table st)
            (subst
              (λ l₀.
                Ends (λ _ l. lanes.rows l ≡ keep (λ r. not (has_id tenant_id id r)) (lanes.rows l₀))
                  (λ _ l. lanes.rows l ≡ lanes.rows l₀) (delete st'.0))
              h (delete-Ends_lane id st'.0)))

  -- One lane of the list.
  one_lane :
      (requested : String → Bool) (id : String) (lane : Lane) (st : State lanes devices) (b : Bool)
      → requested id ≡ b
      → Ends
          (λ _ st'.
            table st' ≡ keep (λ r. not (not (requested id) && has_id tenant_id id r)) (table st))
          (λ _ st'. table st' ≡ table st)
          ((if b then pure tt else LaneService.delete_lane lanes devices tenant_id lot now id lane)
            st)
  one_lane requested id lane st true h = rw h (sym (keep-all (table st)))
  one_lane requested id lane st false h = rw h (delete_lane-Ends id lane st)

  -- What the rest of the loop keeps, kept behind the first round as well.
  kept_twice :
      (p q : LaneRow → Bool) (before between after : List LaneRow)
      → between ≡ keep (λ r. not (p r)) before
      → keep (λ r. not (q r)) after ≡ keep (λ r. not (q r)) between
      → keep (λ r. not (p r || q r)) after ≡ keep (λ r. not (p r || q r)) before
  kept_twice p q before between after h k =
      sym (keep-both_sym p q after)
      ∙ ap (λ l. keep (λ r. not (p r)) l) (k ∙ ap (λ l. keep (λ r. not (q r)) l) h)
      ∙ keep-both_sym p q (keep (λ r. not (p r)) before)
      ∙ keep-keep (λ r. not (p r || q r)) (λ r. not (p r)) before (λ r z. ground (arith, z))

  -- Phase 1 of `UpdateLanes` removes the tenant's lanes that it has listed and that the request leaves out, and no
  -- others: where it fails on its way, some of them may be gone, but every other lane is still there.
  pub delete_missing_lem :
      (requested : String → Bool) (ls : List (String × Lane)) (st : State lanes devices)
      → Ends
          (λ _ st'. table st' ≡ without tenant_id requested ls (table st))
          (λ _ st'.
            without tenant_id requested ls (table st') ≡ without tenant_id requested ls (table st))
          (LaneService.delete_missing lanes devices tenant_id lot now requested ls st)
  unfolding LaneService.delete_missing
  delete_missing_lem requested [] st = sym (keep-all (table st))
  delete_missing_lem requested ((id, lane) ∷ ls) st =
      let p : LaneRow → Bool = λ r. not (requested id) && has_id tenant_id id r in
      let q : LaneRow → Bool = is_missing tenant_id requested ls in
      let Q : Unit {0} → State lanes devices → Type 0 =
        λ _ st'. table st' ≡ without tenant_id requested ((id, lane) ∷ ls) (table st) in
      let X : Error → State lanes devices → Type 0 = λ _ st'.
        without tenant_id requested ((id, lane) ∷ ls) (table st')
        ≡ without tenant_id requested ((id, lane) ∷ ls) (table st) in
      let first =
        if requested id
        then pure tt
        else LaneService.delete_lane lanes devices tenant_id lot now id lane in
      let rest = LaneService.delete_missing lanes devices tenant_id lot now requested ls in
      Ends-bind (λ _ st'. table st' ≡ keep (λ r. not (p r)) (table st)) Q X first (λ _. rest) st
        (Ends-weaken (λ _ st'. table st' ≡ keep (λ r. not (p r)) (table st))
          (λ _ st'. table st' ≡ keep (λ r. not (p r)) (table st)) (λ _ st'. table st' ≡ table st) X
          (λ _ _ h. h) (λ e st' h. ap (without tenant_id requested ((id, lane) ∷ ls)) h) (first st)
          (one_lane requested id lane st (requested id) refl))
        (λ _ st' h.
          Ends-weaken (λ _ st''. table st'' ≡ without tenant_id requested ls (table st')) Q
            (λ _ st''.
              without tenant_id requested ls (table st'')
              ≡ without tenant_id requested ls (table st'))
            X (λ _ st'' k. k ∙ ap (without tenant_id requested ls) h ∙ keep-both p q (table st))
            (λ e st'' k. kept_twice p q (table st) (table st') (table st'') h k) (rest st')
            (delete_missing_lem requested ls st'))
