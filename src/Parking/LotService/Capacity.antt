-- ===== src/Parking/LotService/Capacity.antt =====
-- The places of a parking lot: what `Update` and its helpers do to the capacity.
use parkhub_api.Base.{◌≡◌, false, Option, none, some, Result, ok, err, arith, refl, ◌∙◌}
use parkhub_api.Base.Int.{ℤ, pos, ◌-ℤ◌, ◌≤ℤ◌, ltb_ℤ, -ℤ_parts, eq_of_parts}
use parkhub_api.Errors.{Error}
use parkhub_api.Parking.Lot.{
  ParkingLot, ParkingLotStatus, active, inactive, other_status, activate, deactivate,
}
use parkhub_api.Parking.LotService.{
  UpdateParkingLotRequest, and_then, set_status, set_capacity, apply_update,
}

-- The vehicles in the lot: the places less the free ones.
abbrev pub occupied : ParkingLot → ℤ
occupied l = l.total_spaces -ℤ l.available_spaces

-- Between none and all of the places are free.
abbrev pub IsSound : ℤ → ℤ → Type 0
IsSound total available = (pos 0 ≤ℤ available) × (available ≤ℤ total)

-- One step of `apply_update` leaves the capacity and the tenant.
abbrev SameSpaces : ParkingLot → ParkingLot → Type 0
SameSpaces l l' =
    (l'.total_spaces ≡ l.total_spaces)
    × (l'.available_spaces ≡ l.available_spaces)
    × (l'.tenant_id ≡ l.tenant_id)

set_status-SameSpaces :
    (s : Option ParkingLotStatus) (l l' : ParkingLot) → set_status s l ≡ ok l' → SameSpaces l l'
unfolding activate deactivate
set_status-SameSpaces none l l' h = ground arith
set_status-SameSpaces (some active) l l' h = ground arith
set_status-SameSpaces (some inactive) l l' h = ground arith
set_status-SameSpaces (some (other_status s)) l l' h = ground arith

-- A new capacity is what was asked for, no less than the vehicles in the lot.
set_capacity-cases :
    (n : ℤ) (l l' : ParkingLot)
    → set_capacity (some n) l ≡ ok l'
    → (l'.total_spaces ≡ n)
      × (l'.available_spaces ≡ n -ℤ occupied l)
      × (ltb_ℤ n (occupied l) ≡ false)
unfolding set_capacity
set_capacity-cases n l l' h = ground arith

sub_sub : (c d : ℤ) → c -ℤ (c -ℤ d) ≡ d
sub_sub c d = eq_of_parts (c -ℤ (c -ℤ d)) d (ground (arith, -ℤ_parts c d, -ℤ_parts c (c -ℤ d)))

set_capacity-occupied :
    (n : Option ℤ) (l l' : ParkingLot) → set_capacity n l ≡ ok l' → occupied l' ≡ occupied l
unfolding set_capacity
set_capacity-occupied none l l' h = ground arith
set_capacity-occupied (some n) l l' h =
    let (t, a, ge) = set_capacity-cases n l l' h in rw (t, a) (sub_sub n (occupied l))

room_IsSound : (n t a : ℤ) → IsSound t a → ltb_ℤ n (t -ℤ a) ≡ false → IsSound n (n -ℤ (t -ℤ a))
room_IsSound n t a (s, s') g = (
  ground (arith, -ℤ_parts t a, -ℤ_parts n (t -ℤ a), s, s', g),
  ground (arith, -ℤ_parts t a, -ℤ_parts n (t -ℤ a), s, s', g),
)

set_capacity-IsSound :
    (n : Option ℤ) (l l' : ParkingLot)
    → IsSound l.total_spaces l.available_spaces
    → set_capacity n l ≡ ok l'
    → IsSound l'.total_spaces l'.available_spaces
unfolding set_capacity
set_capacity-IsSound none l l' s h = ground arith
set_capacity-IsSound (some n) l l' s h =
    let (t, a, ge) = set_capacity-cases n l l' h in rw (t, a) (room_IsSound n _ _ s ge)

SameSpaces-occupied : (l l' : ParkingLot) → SameSpaces l l' → occupied l' ≡ occupied l
SameSpaces-occupied l l' (t, a, _) = rw (t, a) refl

pub and_then-cases :
    {A B : Type 0} (r : Result Error A) (f : A → Result Error B) (b : B)
    → and_then r f ≡ ok b
    → (a : A) × (r ≡ ok a) × (f a ≡ ok b)
and_then-cases (ok a) f b h = (a, refl, h)
and_then-cases (err e) f b h = ground arith

-- The three steps of a change that passes.
apply_update-cases :
    (req : UpdateParkingLotRequest) (l l' : ParkingLot)
    → apply_update req l ≡ ok l'
    → (l₁ : ParkingLot) × (l₂ : ParkingLot) × SameSpaces l l₁
      × (set_capacity req.total_spaces l₁ ≡ ok l₂)
      × SameSpaces l₂ l'
unfolding apply_update
apply_update-cases req l l' h =
    let (l₁, e₁, h₁) = and_then-cases (set_status req.status l) _ l' h in
    let (l₂, e₂, h₂) = and_then-cases (set_capacity req.total_spaces l₁) _ l' h₁ in
    (
      l₁,
      l₂,
      set_status-SameSpaces req.status l l₁ e₁,
      e₂,
      (ground arith, ground arith, ground arith),
    )

-- Whatever `Update` is asked for, the lot that it writes has as many vehicles as before.
pub apply_update-occupied :
    (req : UpdateParkingLotRequest) (l l' : ParkingLot)
    → apply_update req l ≡ ok l'
    → occupied l' ≡ occupied l
apply_update-occupied req l l' h =
    let (l₁, l₂, s₁, e, s) = apply_update-cases req l l' h in
    SameSpaces-occupied l₂ l' s
    ∙ set_capacity-occupied req.total_spaces l₁ l₂ e
    ∙ SameSpaces-occupied l l₁ s₁

-- And a sound lot stays sound.
pub apply_update-IsSound :
    (req : UpdateParkingLotRequest) (l l' : ParkingLot)
    → apply_update req l ≡ ok l'
    → IsSound l.total_spaces l.available_spaces
    → IsSound l'.total_spaces l'.available_spaces
apply_update-IsSound req l l' h s =
    let (l₁, l₂, (t₁, a₁, _), e, (t, a, _)) = apply_update-cases req l l' h in
    rw (t, a) (set_capacity-IsSound req.total_spaces l₁ l₂ (rw (t₁, a₁) s) e)

set_capacity-tenant :
    (n : Option ℤ) (l l' : ParkingLot) → set_capacity n l ≡ ok l' → l'.tenant_id ≡ l.tenant_id
unfolding set_capacity
set_capacity-tenant none l l' h = ground arith
set_capacity-tenant (some n) l l' h = ground arith

pub apply_update-tenant :
    (req : UpdateParkingLotRequest) (l l' : ParkingLot)
    → apply_update req l ≡ ok l'
    → l'.tenant_id ≡ l.tenant_id
apply_update-tenant req l l' h =
    let (l₁, l₂, s₁, e, s) = apply_update-cases req l l' h in
    s.2 ∙ set_capacity-tenant req.total_spaces l₁ l₂ e ∙ s₁.2
