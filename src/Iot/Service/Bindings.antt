-- ===== src/Iot/Service/Bindings.antt =====
-- Binding a device to a gate, unbinding it and deleting it.
use parkhub_api.Base.{
  ℕ, ◌≡◌, ◌≢◌, ◌∙◌, eq_iff, [], ◌∷◌, refl, true, false, not, String, List, none, some, Result, ok,
  err, All, All-In, All-weaken, Bool-cases, inl, inr, subst, sym, keep, is_some, ap, arith,
}
use parkhub_api.Errors.{Error}
use parkhub_api.Gorm.{Gorm, Found}
use parkhub_api.Gorm.Logic.{Triple, Post}
use parkhub_api.Iot.Device
use parkhub_api.Iot.Device.{Device, pending, is_bound}
use parkhub_api.Iot.Dao.{DeviceRow, has_id, set_columns}
use parkhub_api.Iot.Repo.{to_domain_device, to_dao_device}
use parkhub_api.Iot.Service
use parkhub_api.Iot.Service.{Binding}
use parkhub_api.Iot.Service.Shape.{IsStored, written, change-Triple, delete_device-Triple}

-- Every row of that tenant and id has `S`.
abbrev pub Each : String → String → (DeviceRow → Type 0) → List DeviceRow → Type 0
Each t id S = All (λ r. has_id t id r ≡ true → S r)

abbrev pub IsBoundTo : String → String → DeviceRow → Type 0
IsBoundTo lot gate r =
    (r.parking_lot_id ≡ some lot) × (r.gate_id ≡ some gate) × (r.status ≢ pending)

abbrev pub IsUnbound : DeviceRow → Type 0
IsUnbound r = (r.parking_lot_id ≡ none) × (r.gate_id ≡ none)

-- The call failed, and the table is as it was.
abbrev pub IsRefused : (g : Gorm DeviceRow) {A : Type 0} → g.Db → Result Error A × g.Db → Type 0
IsRefused g d (ok a, d') = ⊥
IsRefused g d (err e, d') = g.rows d' ≡ g.rows d

-- What has been written is what every row of that tenant and id shows.
pub written-Each :
    (t id : String) (S : DeviceRow → Type 0) (d : Device) (now : ℕ) (rs : List DeviceRow)
    → d.tenant_id ≡ t
    → d.id ≡ id
    → ((r : DeviceRow) → S (set_columns (to_dao_device d) now r))
    → Each t id S (written d now rs)
written-Each t id S d now [] et ei k = tt
written-Each t id S d now (r ∷ rs) et ei k = (
  elim (Bool-cases (has_id d.tenant_id d.id r)) [
    | inl e ↦ rw e (λ _. k r)
    | inr e ↦ rw e (λ h. absurd (ground arith))
  ],
  written-Each t id S d now rs et ei k,
)

pub stored-keys :
    (t id : String) (d : Device) (rs : List DeviceRow)
    → IsStored t id d rs
    → (d.tenant_id ≡ t) × (d.id ≡ id)
unfolding to_domain_device
stored-keys t id d rs s =
    ground (arith, s.found.fits, s.same, eq_iff s.row.tenant_id t, eq_iff s.row.id id)

bound_by :
    (d d' : Device) (t lot gate : String) (now at : ℕ) (r : DeviceRow)
    → Device.bind lot gate now (record d { tenant_id = t }) ≡ ok d'
    → IsBoundTo lot gate (set_columns (to_dao_device d') at r)
unfolding Device.bind to_dao_device
bound_by d d' t lot gate now at r h = ground arith

bind_keys :
    (d d' : Device) (t lot gate : String) (now : ℕ)
    → Device.bind lot gate now (record d { tenant_id = t }) ≡ ok d'
    → (d'.tenant_id ≡ t) × (d'.id ≡ d.id)
unfolding Device.bind
bind_keys d d' t lot gate now h = ground arith

module _ (g : Gorm DeviceRow) (t : String) where
  open g use {Db, rows}

  bind-Triple :
      (b : Binding) (now : ℕ)
      → Triple g
          (λ _. Unit {0})
          (Service.bind g t b now)
          (λ _ rs. Each t b.id (IsBoundTo b.parking_lot_id b.gate_id) rs)
          (λ _. Unit {0})
  unfolding Service.bind
  bind-Triple b now =
      change-Triple g (λ _. Unit {0}) t b.id _ _
        (λ at rs d d' h st e.
          let keys = bind_keys d d' t b.parking_lot_id b.gate_id now e in
          written-Each t b.id _ d' at rs keys.0 (keys.1 ∙ (stored-keys t b.id d rs st).1)
            (λ r. bound_by d d' t b.parking_lot_id b.gate_id now at r e))

  -- The device is bound, and the table is `rs`.
  abbrev BoundIn : String → List DeviceRow → List DeviceRow → Type 0
  BoundIn id rs₀ rs = (rs ≡ rs₀) × Each t id (λ r. is_some r.parking_lot_id ≡ true) rs

  bound_refuses :
      (id lot gate : String) (now : ℕ) (d d' : Device) (rs : List DeviceRow)
      → Each t id (λ r. is_some r.parking_lot_id ≡ true) rs
      → IsStored t id d rs
      → Device.bind lot gate now (record d { tenant_id = t }) ≡ ok d'
      → ⊥
  unfolding Device.bind to_domain_device
  bound_refuses id lot gate now d d' rs h s e =
      ground (arith, s.same, All-In _ s.row rs h s.found.stored s.found.fits)

  rebind-Triple :
      (b : Binding) (now : ℕ) (rs₀ : List DeviceRow)
      → Triple g (BoundIn b.id rs₀) (Service.bind g t b now) (λ _ _. ⊥) (BoundIn b.id rs₀)
  unfolding Service.bind
  rebind-Triple b now rs₀ =
      change-Triple g (BoundIn b.id rs₀) t b.id _ (λ _. ⊥)
        (λ at rs d d' h st e. bound_refuses b.id b.parking_lot_id b.gate_id now d d' rs h.1 st e)

  IsRefused-of_Post :
      {A : Type 0} (P : List DeviceRow → Type 0) (d : Db) (r : Result Error A × Db)
      → ((rs : List DeviceRow) → P rs → rs ≡ rows d)
      → Post g {E = Error} (λ _ _. ⊥) P r
      → IsRefused g d r
  IsRefused-of_Post P d (ok a, d') k h = h
  IsRefused-of_Post P d (err e, d') k h = k (rows d') h

  -- After a bind that succeeded the device is bound as asked and past its first activation, and a
  -- second bind of it fails and changes nothing.
  pub bind-bind :
      (b c : Binding) (now later : ℕ) (d d' : Db) (x : Device)
      → Service.bind g t b now d ≡ (ok x, d')
      → c.id ≡ b.id
      → Each t b.id (IsBoundTo b.parking_lot_id b.gate_id) (rows d')
        × IsRefused g d' (Service.bind g t c later d')
  bind-bind b c now later d d' x done same =
      let bound =
        subst
          (Post g (λ _ rs. Each t b.id (IsBoundTo b.parking_lot_id b.gate_id) rs) (λ _. Unit {0}))
          done ((bind-Triple b now).at d tt) in
      (
        bound,
        IsRefused-of_Post (BoundIn c.id (rows d')) d' (Service.bind g t c later d') (λ rs h. h.0)
            ((rebind-Triple c later (rows d')).at d' (
              refl,
              subst (λ i. Each t i (λ r. is_some r.parking_lot_id ≡ true) (rows d')) (sym same)
                  (All-weaken _ _ (rows d') (λ r h k. rw ((h k).0)) bound),
            )),
      )

  unbind_by :
      (d d' : Device) (now at : ℕ) (r : DeviceRow)
      → Device.unbind now d ≡ ok d'
      → IsUnbound (set_columns (to_dao_device d') at r)
  unfolding Device.unbind to_dao_device
  unbind_by d d' now at r h = ground arith

  unbind_keys :
      (d d' : Device) (now : ℕ)
      → Device.unbind now d ≡ ok d'
      → (d'.tenant_id ≡ d.tenant_id) × (d'.id ≡ d.id)
  unfolding Device.unbind
  unbind_keys d d' now h = ground arith

  unbind-Triple :
      (id : String) (now : ℕ)
      → Triple g
          (λ _. Unit {0})
          (Service.unbind g t id now)
          (λ _. Each t id IsUnbound)
          (λ _. Unit {0})
  unfolding Service.unbind
  unbind-Triple id now =
      change-Triple g (λ _. Unit {0}) t id _ _
        (λ at rs d d' h st e.
          let keys = unbind_keys d d' now e in
          let stored = stored-keys t id d rs st in
          written-Each t id _ d' at rs (keys.0 ∙ stored.0) (keys.1 ∙ stored.1)
            (λ r. unbind_by d d' now at r e))

  -- The device is not bound, and the table is `rs`.
  abbrev UnboundIn : String → List DeviceRow → List DeviceRow → Type 0
  UnboundIn id rs₀ rs = (rs ≡ rs₀) × Each t id IsUnbound rs

  unbound_refuses :
      (id : String) (now : ℕ) (d d' : Device) (rs : List DeviceRow)
      → Each t id IsUnbound rs
      → IsStored t id d rs
      → Device.unbind now d ≡ ok d'
      → ⊥
  unfolding Device.unbind to_domain_device
  unbound_refuses id now d d' rs h s e =
      ground (arith, s.same, (All-In _ s.row rs h s.found.stored s.found.fits).0)

  unbind_again-Triple :
      (id : String) (now : ℕ) (rs₀ : List DeviceRow)
      → Triple g (UnboundIn id rs₀) (Service.unbind g t id now) (λ _ _. ⊥) (UnboundIn id rs₀)
  unfolding Service.unbind
  unbind_again-Triple id now rs₀ =
      change-Triple g (UnboundIn id rs₀) t id _ (λ _. ⊥)
        (λ at rs d d' h st e. unbound_refuses id now d d' rs h.1 st e)

  -- After an unbind that succeeded the device has neither lot nor gate, and a second unbind of it
  -- fails and changes nothing.
  pub unbind-unbind :
      (id : String) (now later : ℕ) (d d' : Db) (x : Device)
      → Service.unbind g t id now d ≡ (ok x, d')
      → Each t id IsUnbound (rows d') × IsRefused g d' (Service.unbind g t id later d')
  unbind-unbind id now later d d' x done =
      let free =
        subst (Post g (λ _. Each t id IsUnbound) (λ _. Unit {0})) done
          ((unbind-Triple id now).at d tt) in
      (
        free,
        IsRefused-of_Post (UnboundIn id (rows d')) d' (Service.unbind g t id later d') (λ rs h. h.0)
            ((unbind_again-Triple id later (rows d')).at d' (refl, free)),
      )

  -- What `Delete` has removed: the rows of that tenant and id, of which one was not bound.
  abbrev pub IsDeleted : String → List DeviceRow → List DeviceRow → Type 0
  IsDeleted id before after =
      (after ≡ keep (λ r. not (has_id t id r)) before)
      × ((r : DeviceRow) × Found (has_id t id) r before × (r.parking_lot_id ≡ none))

  Found-unbound :
      (id : String) (d : Device) (rs : List DeviceRow)
      → IsStored t id d rs
      → is_bound d ≡ false
      → (r : DeviceRow) × Found (has_id t id) r rs × (r.parking_lot_id ≡ none)
  unfolding is_bound to_domain_device
  Found-unbound id d rs s e = (s.row, s.found, ground (arith, s.same))

  delete-Triple :
      (id : String) (before : List DeviceRow)
      → Triple g
          (λ rs. rs ≡ before)
          (Service.delete g t id)
          (λ _. IsDeleted id before)
          (λ rs. rs ≡ before)
  delete-Triple id before =
      delete_device-Triple g (λ rs. rs ≡ before) t id (IsDeleted id before)
        (λ rs d same st e. (
          ap (keep (λ r. not (has_id t id r))) same,
          subst (λ l. (r : DeviceRow) × Found (has_id t id) r l × (r.parking_lot_id ≡ none)) same
              (Found-unbound id d rs st e),
        ))

  -- A delete that succeeds removes exactly the rows of that tenant and id, and one of these was not
  -- bound; a delete that fails changes nothing.
  pub delete_lem :
      (id : String) (d : Db)
      → Post g {E = Error}
          (λ _. IsDeleted id (rows d))
          (λ rs. rs ≡ rows d)
          (Service.delete g t id d)
  delete_lem id d = (delete-Triple id (rows d)).at d refl
