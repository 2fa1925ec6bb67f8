-- ===== src/Iot/Service/Shape.antt =====
-- What the repository and the shared bodies of the service do to the rows, from `P` to `Q`.
use parkhub_api.Base.{
  ℕ, ◌≡◌, ◌≢◌, refl, not, String, List, map, Result, ok, keep, lift, pure, raise_if, false, ◌++◌,
  [], ◌∷◌, ◌>>=◌, ◌>>◌,
}
use parkhub_api.Errors.{Error, iot, device_not_found, device_must_unbind}
use parkhub_api.Gorm.{Gorm, Found, assign}
use parkhub_api.Gorm.Logic.{
  Triple, Triple-bind, Triple-catch, Triple-lift, Triple-affected, Triple-first, Triple-updates,
  Triple-delete, Triple-create, Triple-guard, Triple-weaken,
}
use parkhub_api.Iot.Device.{Device, new_device, is_bound}
use parkhub_api.Iot.Dao
use parkhub_api.Iot.Dao.{DeviceRow, has_id, set_columns, stamp}
use parkhub_api.Iot.Repo
use parkhub_api.Iot.Repo.{to_domain_device, to_dao_device}
use parkhub_api.Iot.Service.{CreateDeviceRequest, change, change_round, delete, create}

-- The rows after `d` has been written back.
abbrev pub written : Device → ℕ → List DeviceRow → List DeviceRow
written d now = map (assign (has_id d.tenant_id d.id) (set_columns (to_dao_device d) now))

-- `d` is the device of a stored row of that tenant and id.
pub record IsStored (tenant_id id : String) (d : Device) (rs : List DeviceRow) : Type 0 where
  pub row : DeviceRow
  pub found : Found (has_id tenant_id id) row rs
  pub same : d ≡ to_domain_device row

-- The device that `Create` makes.
abbrev pub made : CreateDeviceRequest → ℕ → Device
made req now = record (new_device req.id req.name req.type req.firmware_version now) {
  tenant_id = req.tenant_id;
}

module _ (g : Gorm DeviceRow) (P : List DeviceRow → Type 0) where
  pub get_by_id-Triple :
      (tenant_id id : String)
      → Triple g P (Repo.get_by_id g tenant_id id) (λ d rs. P rs × IsStored tenant_id id d rs) P
  unfolding Repo.get_by_id Dao.find_by_id
  get_by_id-Triple tenant_id id =
      let found : DeviceRow → List DeviceRow → Type 0 =
        λ r rs. P rs × Found (has_id tenant_id id) r rs in
      Triple-bind g P P found (λ d rs. P rs × IsStored tenant_id id d rs) _
        (λ r. pure (to_domain_device r))
        (Triple-catch g P P found Dao.find_error _ (Triple-first g P (has_id tenant_id id)))
        (λ r. record { at = λ d h. (h.0, record { row = r; found = h.1; same = refl }) })

  pub update-Triple :
      (d : Device) (Q : List DeviceRow → Type 0)
      → ((now : ℕ) (rs : List DeviceRow) → P rs → Q (written d now rs))
      → Triple g P (Repo.update g d) (λ _. Q) P
  unfolding Repo.update Dao.update to_dao_device
  update-Triple d Q k =
      let split : ℕ → List DeviceRow → Type 0 = λ n rs. (n ≡ 0 → P rs) × (n ≢ 0 → Q rs) in
      Triple-bind g P P split _ _ _
        (Triple-catch g P P split Dao.raw_error _
          (Triple-updates g P _ _ Q (λ now rs h _. k now rs h)))
        (λ n.
          Triple-affected g (split n) Q P n (iot device_not_found) (λ rs z h. h.0 z)
            (λ rs z h. h.1 z))

  pub delete-Triple :
      (tenant_id id : String) (Q : List DeviceRow → Type 0)
      → ((rs : List DeviceRow) → P rs → Q (keep (λ r. not (has_id tenant_id id r)) rs))
      → Triple g P (Repo.delete g tenant_id id) (λ _. Q) P
  unfolding Repo.delete Dao.delete
  delete-Triple tenant_id id Q k =
      let split : ℕ → List DeviceRow → Type 0 = λ n rs. (n ≡ 0 → P rs) × Q rs in
      Triple-bind g P P split _ _ _
        (Triple-catch g P P split Dao.raw_error _ (Triple-delete g P _ Q k))
        (λ n.
          Triple-affected g (split n) Q P n (iot device_not_found) (λ rs z h. h.0 z)
            (λ rs z h. h.1))

-- A change of a stored device, then its write.
module _ (g : Gorm DeviceRow) (P : List DeviceRow → Type 0) (tenant_id id : String)
    (f : Device → Result Error Device) (Q : List DeviceRow → Type 0)
    (k : (now : ℕ) (rs : List DeviceRow) (d d' : Device)
      → P rs
      → IsStored tenant_id id d rs
      → f d ≡ ok d'
      → Q (written d' now rs)) where
  abbrev Read : Device → List DeviceRow → Type 0
  Read d rs = P rs × IsStored tenant_id id d rs

  abbrev Changed : Device → Device → List DeviceRow → Type 0
  Changed d d' rs = P rs × IsStored tenant_id id d rs × (f d ≡ ok d')

  write-Triple : (d d' : Device) → Triple g (Changed d d') (Repo.update g d') (λ _. Q) P
  write-Triple d d' =
      Triple-weaken g (Changed d d') (Repo.update g d') (λ _. Q) (λ _. Q) (Changed d d') P
        (λ a rs q. q) (λ rs h. h.0)
        (update-Triple g (Changed d d') d' Q (λ now rs h. k now rs d d' h.0 h.1 h.2))

  lift-Triple : (d : Device) → Triple g (Read d) (lift (f d)) (Changed d) P
  lift-Triple d =
      Triple-lift g (Read d) P (Changed d) (f d) (λ d' e rs h. (h.0, h.1, e)) (λ rs h. h.0)

  -- A method on one device, from `P` to `Q`.
  pub change-Triple : Triple g P (change g tenant_id id f) (λ _. Q) P
  unfolding change
  change-Triple =
      Triple-bind g P P Read (λ _. Q) _ (λ d. lift (f d) >>= λ d'. Repo.update g d' >> pure d')
        (get_by_id-Triple g P tenant_id id)
        (λ d.
          Triple-bind g (Read d) P (Changed d) (λ _. Q) _ (λ d'. Repo.update g d' >> pure d')
            (lift-Triple d)
            (λ d'.
              Triple-bind g (Changed d d') P (λ _. Q) (λ _. Q) _ (λ _. pure d') (write-Triple d d')
                (λ _. record { at = λ s h. h })))

  -- A round of a batch, from `P` to `Q`.
  pub change_round-Triple : Triple g P (change_round g tenant_id f id) (λ _. Q) P
  unfolding change_round
  change_round-Triple =
      Triple-bind g P P Read (λ _. Q) _ (λ d. lift (f d) >>= Repo.update g)
        (get_by_id-Triple g P tenant_id id)
        (λ d.
          Triple-bind g (Read d) P (Changed d) (λ _. Q) _ (Repo.update g) (lift-Triple d)
            (write-Triple d))

-- `Delete`, from `P` to `Q`: only a device that is stored and not bound is deleted.
module _ (g : Gorm DeviceRow) (P : List DeviceRow → Type 0) (tenant_id id : String)
    (Q : List DeviceRow → Type 0)
    (k : (rs : List DeviceRow) (d : Device)
      → P rs
      → IsStored tenant_id id d rs
      → is_bound d ≡ false
      → Q (keep (λ r. not (has_id tenant_id id r)) rs)) where
  abbrev Loaded : Device → List DeviceRow → Type 0
  Loaded d rs = P rs × IsStored tenant_id id d rs

  abbrev Unbound : Device → List DeviceRow → Type 0
  Unbound d rs = P rs × IsStored tenant_id id d rs × (is_bound d ≡ false)

  erase-Triple : (d : Device) → Triple g (Unbound d) (Repo.delete g tenant_id id) (λ _. Q) P
  erase-Triple d =
      Triple-weaken g (Unbound d) (Repo.delete g tenant_id id) (λ _. Q) (λ _. Q) (Unbound d) P
        (λ a rs q. q) (λ rs h. h.0)
        (delete-Triple g (Unbound d) tenant_id id Q (λ rs h. k rs d h.0 h.1 h.2))

  pub delete_device-Triple : Triple g P (delete g tenant_id id) (λ _. Q) P
  unfolding delete
  delete_device-Triple =
      Triple-bind g P P Loaded (λ _. Q) _
        (λ d. raise_if (is_bound d) (iot device_must_unbind) >> Repo.delete g tenant_id id)
        (get_by_id-Triple g P tenant_id id)
        (λ d.
          Triple-bind g (Loaded d) P (λ _. Unbound d) (λ _. Q)
            (raise_if (is_bound d) (iot device_must_unbind)) (λ _. Repo.delete g tenant_id id)
            (Triple-guard g (Loaded d) (Unbound d) P (is_bound d) (iot device_must_unbind)
              (λ rs e h. h.0) (λ rs e h. (h.0, h.1, e)))
            (λ _. erase-Triple d))

-- `Create`, from `P` to `Q`.
pub create-Triple :
    (g : Gorm DeviceRow) (P Q : List DeviceRow → Type 0) (req : CreateDeviceRequest) (now : ℕ)
    → ((t : ℕ) (rs : List DeviceRow) → P rs → Q (rs ++ stamp (to_dao_device (made req now)) t ∷ []))
    → Triple g P (create g req now) (λ _. Q) P
unfolding create Repo.create Dao.insert
create-Triple g P Q req now k =
    Triple-bind g P P (λ _. Q) (λ _. Q) _ (λ _. pure (made req now))
      (Triple-catch g P P (λ _. Q) Dao.insert_error _
        (Triple-create g P (stamp (to_dao_device (made req now))) Q k))
      (λ _. record { at = λ d h. h })
