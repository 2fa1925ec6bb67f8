-- ===== src/Parking/LaneDao/Counts.antt =====
-- The numbers of lanes per lot, by `CountByParkingLots`.
use parkhub_api.Base.{
  ℕ, ◌≡◌, refl, ap, ap₂, ◌∙◌, sym, Bool, true, false, ◌&&◌, none, String, List, [], ◌∷◌, catch,
  pure, str_eq, eq_iff, eq_refl, any, any-In, In, count, arith, Bool-cases, if◌then◌else◌, inl, inr,
}
use parkhub_api.Base.Maps.{Map, lookup, insert as put, lookup-insert}
use parkhub_api.Errors.{Error}
use parkhub_api.Gorm.{Gorm}
use parkhub_api.Gorm.Groups.{Collects, collected}
use parkhub_api.Gorm.Logic.{Triple, Post, CountsGroups, Triple-bind, Triple-catch, Triple-group}
use parkhub_api.Parking.Lane.{LaneType, entry, exit, other_lane_type, same_lane_type}
use parkhub_api.Parking.LaneDao.{
  LaneRow, LaneTypeCount, in_lot, in_lots, group_key, same_key, set_count, or_zero, collect_counts,
  raw_error, counted_groups,
}
use parkhub_api.Parking.LaneDao

-- The number for a type; other texts have none.
abbrev pub read : LaneType → LaneTypeCount → ℕ
read entry c = c.entry_count
read exit c = c.exit_count
read (other_lane_type s) c = 0

abbrev pub IsKnown : LaneType → Type 0
IsKnown (other_lane_type s) = ⊥
IsKnown _ = Unit

-- The number for a lot and a type; 0 for a lot that the map has not.
abbrev pub number : String → LaneType → Map LaneTypeCount → ℕ
number lot t m = read t (or_zero (lookup lot m))

same_lane_type_refl : (t : LaneType) → same_lane_type t t ≡ true
same_lane_type_refl entry = refl
same_lane_type_refl exit = refl
same_lane_type_refl (other_lane_type s) = eq_refl s

same_lane_type_eq : (s t : LaneType) → IsKnown t → same_lane_type s t ≡ true → s ≡ t
same_lane_type_eq s t h e = ground (arith, e)

same_lane_type_eq_sym : (s t : LaneType) → IsKnown t → same_lane_type t s ≡ true → s ≡ t
same_lane_type_eq_sym s t h e = ground (arith, e)

read-set_count :
    (t s : LaneType) (n : ℕ) (c : LaneTypeCount)
    → IsKnown t
    → read t (set_count s n c) ≡ (if same_lane_type t s then n else read t c)
read-set_count entry entry n c h = refl
read-set_count entry exit n c h = refl
read-set_count entry (other_lane_type s) n c h = refl
read-set_count exit entry n c h = refl
read-set_count exit exit n c h = refl
read-set_count exit (other_lane_type s) n c h = refl
read-set_count (other_lane_type s) t n c h = absurd h

abbrev step : (String × LaneType) × ℕ → Map LaneTypeCount → Map LaneTypeCount
step ((lot, type), n) m = put lot (set_count type n (or_zero (lookup lot m))) m

other_lot : (a b : String) → str_eq b a ≡ false → str_eq a b ≡ false
other_lot a b h = elim (Bool-cases (str_eq a b)) [
  | inl e ↦ let same = (eq_iff b a).1 (sym ((eq_iff a b).0 e)) in ground (arith, same, h)
  | inr e ↦ e
]

number-step :
    (lot : String) (t : LaneType) (e : (String × LaneType) × ℕ) (m : Map LaneTypeCount)
    → IsKnown t
    → number lot t (step e m) ≡ (if same_key (lot, t) e.0 then e.1 else number lot t m)
number-step lot t ((lot', s), n) m known =
    ap (λ o. read t (or_zero o))
      (lookup-insert lot' lot (set_count s n (or_zero (lookup lot' m))) m)
    ∙ elim (Bool-cases (str_eq lot' lot)) [
      | inl e ↦
          let same = (eq_iff lot' lot).0 e in
          rw (e, (eq_iff lot lot').1 (sym same))
            (read-set_count t s n (or_zero (lookup lot' m)) known
              ∙ ap (λ l. if same_lane_type t s then n else number l t m) same)
      | inr e ↦ rw (e, other_lot lot lot' e) refl
    ]

and_both : (a b : Bool) → a && b ≡ true → (a ≡ true) × (b ≡ true)
and_both a b h = ground (arith, h)

counts-Collects :
    (lot : String) (t : LaneType)
    → IsKnown t
    → Collects same_key (lot, t) (number lot t) step collect_counts
unfolding collect_counts
counts-Collects lot t known = record {
  again = λ j. rw (eq_refl j.0, same_lane_type_refl j.1) refl;
  known = λ j h.
      let both = and_both (str_eq j.0 lot) (same_lane_type j.1 t) h in
      ap₂ (λ a b. (a, b)) ((eq_iff j.0 lot).0 both.0) (same_lane_type_eq j.1 t known both.1);
  known_sym = λ j h.
      let both = and_both (str_eq lot j.0) (same_lane_type t j.1) h in
      ap₂ (λ a b. (a, b)) (sym ((eq_iff lot j.0).0 both.0))
        (same_lane_type_eq_sym j.1 t known both.1);
  reads = λ e m. number-step lot t e m known;
  ends = λ c. refl;
  goes_on = λ e l c. refl;
}

-- The lanes of a type that stand in a lot of the tenant.
abbrev pub of_type : String → String → LaneType → List LaneRow → ℕ
of_type tenant_id lot t = count (λ r. in_lot tenant_id lot r && same_lane_type r.lane_type t)

count_same :
    (p q : LaneRow → Bool) (rs : List LaneRow)
    → ((r : LaneRow) → p r ≡ q r)
    → count p rs ≡ count q rs
count_same p q [] k = refl
count_same p q (r ∷ rs) k = rw (k r, count_same p q rs k) refl

and_true : (a b : Bool) → (a && true) && (true && b) ≡ (a && true) && b
and_true a b = ground arith

and_false : (a b c : Bool) → (a && b) && (false && c) ≡ (a && false) && c
and_false a b c = ground arith

-- The condition of the query, and the key of a group.
one_group :
    (tenant_id lot : String) (lots : List String) (t : LaneType) (r : LaneRow)
    → In lot lots
    → in_lots tenant_id lots r && same_key (group_key r) (lot, t)
      ≡ in_lot tenant_id lot r && same_lane_type r.lane_type t
one_group tenant_id lot lots t r m = elim (Bool-cases (str_eq r.parking_lot_id lot)) [
  | inl e ↦
      rw (any-In (str_eq r.parking_lot_id) lot lots m e, e)
        (and_true (str_eq r.tenant_id tenant_id) _)
  | inr e ↦ rw e (and_false (str_eq r.tenant_id tenant_id) (any (str_eq r.parking_lot_id) lots) _)
]

-- The map has the number of the entries and of the exits of a lot.
abbrev pub IsCounts : String → String → Map LaneTypeCount → List LaneRow → Type 0
IsCounts tenant_id lot counts rs =
    (number lot entry counts ≡ of_type tenant_id lot entry rs)
    × (number lot exit counts ≡ of_type tenant_id lot exit rs)

module _ (g : Gorm LaneRow) (tenant_id lot : String) (lots : List String) (m : In lot lots)
    (before : List LaneRow) where
  abbrev Same : List LaneRow → Type 0
  Same rs = rs ≡ before

  abbrev Groups : List ((String × LaneType) × ℕ) → List LaneRow → Type 0
  Groups l rs = Same rs × CountsGroups same_key group_key (in_lots tenant_id lots) l rs

  abbrev Counted : Map LaneTypeCount → List LaneRow → Type 0
  Counted counts rs = Same rs × IsCounts tenant_id lot counts rs

  counted_type :
      (t : LaneType) (l : List ((String × LaneType) × ℕ)) (rs : List LaneRow)
      → IsKnown t
      → read t (or_zero none) ≡ 0
      → CountsGroups same_key group_key (in_lots tenant_id lots) l rs
      → number lot t (collect_counts l []) ≡ of_type tenant_id lot t rs
  counted_type t l rs known zero h =
      collected same_key (lot, t) (number lot t) step collect_counts (counts-Collects lot t known)
        group_key (in_lots tenant_id lots) rs l [] zero h
      ∙ count_same (λ r. in_lots tenant_id lots r && same_key (group_key r) (lot, t))
          (λ r. in_lot tenant_id lot r && same_lane_type r.lane_type t) rs
          (λ r. one_group tenant_id lot lots t r m)

  counted_groups-Triple : Triple g Same (counted_groups g tenant_id lots) Counted Same
  counted_groups-Triple =
      Triple-bind g Same Same Groups Counted
        (catch raw_error (g.group same_key group_key (in_lots tenant_id lots)))
        (λ results. pure (collect_counts results []))
        (Triple-catch g Same Same Groups raw_error _
          (Triple-group g Same same_key group_key (in_lots tenant_id lots)))
        (λ l. record {
          at = λ d h. (
            h.0,
            (
              counted_type entry l (g.rows d) tt refl h.1,
              counted_type exit l (g.rows d) tt refl h.1,
            ),
          );
        })

-- `CountByParkingLots` has for each lot that it was asked for the number of the tenant's entries and exits in
-- it, 0 where the map has no such lot; no lane is changed.
pub count_by_parking_lots-IsCounts :
    (g : Gorm LaneRow) (tenant_id lot : String) (lots : List String) (d : g.Db)
    → In lot lots
    → Post g {E = Error}
        (λ counts rs. (rs ≡ g.rows d) × IsCounts tenant_id lot counts rs)
        (λ rs. rs ≡ g.rows d)
        (LaneDao.count_by_parking_lots g tenant_id lots d)
unfolding LaneDao.count_by_parking_lots
count_by_parking_lots-IsCounts g tenant_id lot [] d m = absurd m
count_by_parking_lots-IsCounts g tenant_id lot (l ∷ ls) d m =
    (counted_groups-Triple g tenant_id lot (l ∷ ls) m (g.rows d)).at d refl
