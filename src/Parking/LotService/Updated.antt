-- ===== src/Parking/LotService/Updated.antt =====
-- What `Update` is to do to a lot and to the table of lots, written out beside the code.
use parkhub_api.Base.{
  ℕ, ◌≡◌, refl, sym, ◌∙◌, ap₂, subst, true, false, Option, none, some, String, List, [], ◌∷◌, map,
  ok, arith, eq_iff, Bool-cases, inl, inr,
}
use parkhub_api.Base.Int.{ℤ, ltb_ℤ}
use parkhub_api.Gorm.{assign}
use parkhub_api.Parking.Lot.{
  ParkingLot, ParkingLotStatus, active, inactive, other_status, activate, deactivate,
}
use parkhub_api.Parking.LotDao.{LotRow, has_id, set_columns}
use parkhub_api.Parking.LotRepo.{to_domain, to_entity}
use parkhub_api.Parking.LotService.{
  UpdateParkingLotRequest, or_old, set_status, set_capacity, apply_update,
}
use parkhub_api.Parking.LotService.Capacity.{occupied, apply_update-occupied, and_then-cases}
use parkhub_api.Parking.LotService.Shape.{IsStored, written}

-- A field is as it was asked for, or as it was.
abbrev pub Asked : {A : Type 0} → Option A → A → A → Type 0
Asked none old new = new ≡ old
Asked (some a) old new = new ≡ a

-- A status that is asked for is changed to, and only from the other one; an unknown one is passed over.
abbrev pub AskedStatus : Option ParkingLotStatus → ParkingLotStatus → ParkingLotStatus → Type 0
AskedStatus none old new = new ≡ old
AskedStatus (some active) old new = (old ≡ inactive) × (new ≡ active)
AskedStatus (some inactive) old new = (old ≡ active) × (new ≡ inactive)
AskedStatus (some (other_status s)) old new = new ≡ old

-- The lot that a request makes of the old one.
pub record IsAsked (req : UpdateParkingLotRequest) (old lot : ParkingLot) : Type 0 where
  pub name : Asked req.name old.name lot.name
  pub address : Asked req.address old.address lot.address
  pub lot_type : Asked req.lot_type old.lot_type lot.lot_type
  pub status : AskedStatus req.status old.status lot.status
  pub total_spaces : Asked req.total_spaces old.total_spaces lot.total_spaces
  pub same_vehicles : occupied lot ≡ occupied old
  pub room : (n : ℤ) → req.total_spaces ≡ some n → ltb_ℤ n (occupied old) ≡ false

-- A row before and behind: only the row of this tenant and id is another one, and it keeps its keys.
pub record RowUpdated (req : UpdateParkingLotRequest) (old : ParkingLot) (r r' : LotRow)
    : Type 0 where
  pub keys : (r'.id ≡ r.id) × (r'.tenant_id ≡ r.tenant_id) × (r'.created_at ≡ r.created_at)
  pub others : has_id req.tenant_id req.id r ≡ false → r' ≡ r
  pub asked : has_id req.tenant_id req.id r ≡ true → IsAsked req old (to_domain r')

-- The rows of a table before and behind, one by one.
abbrev pub Rowwise : (LotRow → LotRow → Type 0) → List LotRow → List LotRow → Type 0
Rowwise R [] [] = Unit
Rowwise R (r ∷ rs) (r' ∷ rs') = R r r' × Rowwise R rs rs'
Rowwise R _ _ = ⊥

Rowwise-map :
    (R : LotRow → LotRow → Type 0) (f : LotRow → LotRow) (rs : List LotRow)
    → ((r : LotRow) → R r (f r))
    → Rowwise R rs (map f rs)
Rowwise-map R f [] k = tt
Rowwise-map R f (r ∷ rs) k = (k r, Rowwise-map R f rs k)

or_old-Asked : {A : Type 0} (o : Option A) (a : A) → Asked o a (or_old o a)
or_old-Asked none a = refl
or_old-Asked (some b) a = refl

-- The steps of `apply_update`, with the fields that each leaves.
set_status-Asked :
    (s : Option ParkingLotStatus) (l l' : ParkingLot)
    → set_status s l ≡ ok l'
    → AskedStatus s l.status l'.status × (l' ≡ record l { status = l'.status })
unfolding activate deactivate
set_status-Asked none l l' h = ground arith
set_status-Asked (some active) l l' h = ground arith
set_status-Asked (some inactive) l l' h = ground arith
set_status-Asked (some (other_status s)) l l' h = ground arith

set_capacity-Asked :
    (n : Option ℤ) (l l' : ParkingLot)
    → set_capacity n l ≡ ok l'
    → Asked n l.total_spaces l'.total_spaces
      × ((m : ℤ) → n ≡ some m → ltb_ℤ m (occupied l) ≡ false)
      × (l' ≡ record l { total_spaces = l'.total_spaces; available_spaces = l'.available_spaces })
unfolding set_capacity
set_capacity-Asked none l l' h = (ground arith, (λ m e. ground (arith, e)), ground arith)
set_capacity-Asked (some n) l l' h = (ground arith, (λ m e. ground (arith, e)), ground arith)

or_old-Asked_of :
    {A : Type 0} (o : Option A) (old between new : A)
    → between ≡ old
    → new ≡ or_old o between
    → Asked o old new
or_old-Asked_of o old between new e h =
    subst (λ b. Asked o b new) e (subst (Asked o between) (sym h) (or_old-Asked o between))

-- The keys stay, too.
abbrev SameKeys : ParkingLot → ParkingLot → Type 0
SameKeys l l' = (l'.id ≡ l.id) × (l'.tenant_id ≡ l.tenant_id)

pub apply_update-IsAsked :
    (req : UpdateParkingLotRequest) (l l' : ParkingLot)
    → apply_update req l ≡ ok l'
    → IsAsked req l l' × SameKeys l l'
unfolding apply_update
apply_update-IsAsked req l l' h =
    let (l₁, e₁, h₁) = and_then-cases (set_status req.status l) _ l' h in
    let (l₂, e₂, h₂) = and_then-cases (set_capacity req.total_spaces l₁) _ l' h₁ in
    let (s, k₁) = set_status-Asked req.status l l₁ e₁ in
    let (t, room, k₂) = set_capacity-Asked req.total_spaces l₁ l₂ e₂ in
    (
      record {
        name = or_old-Asked_of req.name l.name l₂.name l'.name (ground arith) (ground arith);
        address =
            or_old-Asked_of req.address l.address l₂.address l'.address (ground arith)
              (ground arith);
        lot_type =
            or_old-Asked_of req.lot_type l.lot_type l₂.lot_type l'.lot_type (ground arith)
              (ground arith);
        status = subst (AskedStatus req.status l.status) (ground arith) s;
        total_spaces =
            subst (λ b. Asked req.total_spaces b l'.total_spaces) (ground arith)
              (subst (Asked req.total_spaces l₁.total_spaces) (ground arith) t);
        same_vehicles = apply_update-occupied req l l' h;
        room = λ n e. subst (λ v. ltb_ℤ n v ≡ false) (ground arith) (room n e);
      },
      (ground arith, ground arith),
    )

-- A row that is written, seen as a lot, has what was asked for.
set_columns-IsAsked :
    (req : UpdateParkingLotRequest) (old lot : ParkingLot) (now : ℕ) (r : LotRow)
    → IsAsked req old lot
    → IsAsked req old (to_domain (set_columns (to_entity lot) now r))
unfolding to_domain to_entity
set_columns-IsAsked req old lot now r q = record {
  name = q.name;
  address = q.address;
  lot_type = q.lot_type;
  status = q.status;
  total_spaces = q.total_spaces;
  same_vehicles = q.same_vehicles;
  room = q.room;
}

stored-keys :
    (tenant_id id : String) (lot : ParkingLot) (rs : List LotRow)
    → IsStored tenant_id id lot rs
    → (lot.tenant_id ≡ tenant_id) × (lot.id ≡ id)
unfolding to_domain
stored-keys tenant_id id lot rs st = (
  ground (arith, st.found.fits, st.same, eq_iff st.row.tenant_id tenant_id),
  ground (arith, st.found.fits, st.same, eq_iff st.row.id id),
)

row_updated :
    (req : UpdateParkingLotRequest) (old lot : ParkingLot) (now : ℕ) (r : LotRow)
    → IsAsked req old lot
    → RowUpdated req old r
        (assign (has_id req.tenant_id req.id) (set_columns (to_entity lot) now) r)
row_updated req old lot now r q = elim (Bool-cases (has_id req.tenant_id req.id r)) [
  | inl e ↦ rw e (record {
    keys = (refl, refl, refl);
    others = λ k. ground (arith, e, k);
    asked = λ _. set_columns-IsAsked req old lot now r q;
  })
  | inr e ↦
      rw e (record {
        keys = (refl, refl, refl);
        others = λ _. refl;
        asked = λ k. ground (arith, e, k);
      })
]

-- The rows after the write-back of a lot that was read and changed as asked.
pub written-Rowwise :
    (req : UpdateParkingLotRequest) (old lot : ParkingLot) (now : ℕ) (rs : List LotRow)
    → IsStored req.tenant_id req.id old rs
    → apply_update req old ≡ ok lot
    → Rowwise (RowUpdated req old) rs (written lot now rs)
written-Rowwise req old lot now rs st u =
    let (q, (id, tenant)) = apply_update-IsAsked req old lot u in
    let (own, this) = stored-keys req.tenant_id req.id old rs st in
    subst
      (λ p. Rowwise (RowUpdated req old) rs (map (assign p (set_columns (to_entity lot) now)) rs))
      (ap₂ has_id (sym (tenant ∙ own)) (sym (id ∙ this)))
      (Rowwise-map (RowUpdated req old) _ rs (λ r. row_updated req old lot now r q))
