-- ===== src/Iot/Service/Batch.antt =====
-- The batches: all of the devices or none.
use parkhub_api.Base.{
  ℕ, ◌≡◌, ◌⊎◌, ◌∙◌, refl, sym, String, List, [], ◌∷◌, Result, ok, All, All-weaken, In, Bool-cases,
  inl, inr, length, arith,
}
use parkhub_api.Errors.{Error}
use parkhub_api.Gorm.{Gorm}
use parkhub_api.Gorm.Logic.{Triple, Triple-weaken}
use parkhub_api.Gorm.Transaction.{
  Committed, Committed-weaken, for_each, for_each-Looped, transaction-Committed,
}
use parkhub_api.Iot.Device
use parkhub_api.Iot.Device.{Device, DeviceStatus, active, disabled}
use parkhub_api.Iot.Dao.{DeviceRow, has_id, set_columns, raw_error}
use parkhub_api.Iot.Repo.{to_dao_device}
use parkhub_api.Iot.Service
use parkhub_api.Iot.Service.Shape.{written, change_round-Triple}
use parkhub_api.Iot.Service.Bindings.{Each, written-Each, stored-keys}

-- A write keeps what every row of a tenant and id shows, if what it writes shows it too.
Each-written :
    (t id : String) (S : DeviceRow → Type 0) (d : Device) (now : ℕ) (rs : List DeviceRow)
    → ((r : DeviceRow) → S (set_columns (to_dao_device d) now r))
    → Each t id S rs
    → Each t id S (written d now rs)
Each-written t id S d now [] k h = tt
Each-written t id S d now (r ∷ rs) k h = (
  elim (Bool-cases (has_id d.tenant_id d.id r)) [ inl e ↦ rw e (λ _. k r) | inr e ↦ rw e h.0 ],
  Each-written t id S d now rs k h.1,
)

-- Each of the devices has been given the status, or is still to come.
abbrev Partly : String → DeviceStatus → List String → List String → List DeviceRow → Type 0
Partly t s ids xs rs = All (λ id. In id xs ⊎ Each t id (λ r. r.status ≡ s) rs) ids

abbrev pub AllHave : String → DeviceStatus → List String → List DeviceRow → Type 0
AllHave t s ids rs = All (λ id. Each t id (λ r. r.status ≡ s) rs) ids

module _ (g : Gorm DeviceRow) (t : String) (s : DeviceStatus) (f : Device → Result Error Device)
    (sets : (d d' : Device)
      → f d ≡ ok d'
      → (d'.status ≡ s) × (d'.tenant_id ≡ d.tenant_id) × (d'.id ≡ d.id)) where
  open g use {Db, rows}

  shows :
      (d : Device) (now : ℕ) (r : DeviceRow)
      → d.status ≡ s
      → (set_columns (to_dao_device d) now r).status ≡ s
  unfolding to_dao_device
  shows d now r h = h

  step_one :
      (ids : List String) (x : String) (xs : List String) (now : ℕ) (rs : List DeviceRow)
      (d : Device)
      → d.status ≡ s
      → d.tenant_id ≡ t
      → d.id ≡ x
      → Partly t s ids (x ∷ xs) rs
      → Partly t s ids xs (written d now rs)
  step_one ids x xs now rs d hs ht hx h = All-weaken _ _ ids (λ id k. one id k) h
    where
      one :
          (id : String)
          → In id (x ∷ xs) ⊎ Each t id (λ r. r.status ≡ s) rs
          → In id xs ⊎ Each t id (λ r. r.status ≡ s) (written d now rs)
      one id (inl (inl e)) =
          inr (written-Each t id _ d now rs ht (hx ∙ sym e) (λ r. shows d now r hs))
      one id (inl (inr m)) = inl m
      one id (inr k) = inr (Each-written t id _ d now rs (λ r. shows d now r hs) k)

  round-Partly :
      (ids : List String) (x : String) (xs : List String)
      → Triple g
          (Partly t s ids (x ∷ xs))
          (Service.change_round g t f x)
          (λ _. Partly t s ids xs)
          (λ _. Unit {0})
  round-Partly ids x xs =
      Triple-weaken g (Partly t s ids (x ∷ xs)) (Service.change_round g t f x)
        (λ _. Partly t s ids xs) (λ _. Partly t s ids xs) (Partly t s ids (x ∷ xs)) (λ _. Unit {0})
        (λ a rs q. q) (λ rs q. tt)
        (change_round-Triple g (Partly t s ids (x ∷ xs)) t x f (Partly t s ids xs)
          (λ now rs d d' h st e.
            let facts = sets d d' e in
            let keys = stored-keys t x d rs st in
            step_one ids x xs now rs d' facts.0 (facts.1 ∙ keys.0) (facts.2 ∙ keys.1) h))

  Partly-start :
      (ids xs : List String) (rs : List DeviceRow)
      → ((id : String) → In id ids → In id xs)
      → Partly t s ids xs rs
  Partly-start [] xs rs k = tt
  Partly-start (x ∷ ids) xs rs k =
      (inl (k x (inl refl)), Partly-start ids xs rs (λ id m. k id (inr m)))

  Partly-end : (ids : List String) (rs : List DeviceRow) → Partly t s ids [] rs → AllHave t s ids rs
  Partly-end ids rs h = All-weaken _ _ ids (λ id k. elim k [ inl m ↦ absurd m | inr e ↦ e ]) h

  batch-AllHave :
      (ids : List String) (d : Db)
      → Committed g
          (AllHave t s ids)
          (length ids)
          d
          (g.transaction raw_error (for_each (Service.change_round g t f) ids) 0 d)
  batch-AllHave ids d =
      Committed-weaken g (Partly t s ids []) (AllHave t s ids) (length ids) d
        (g.transaction raw_error (for_each (Service.change_round g t f) ids) 0 d) (Partly-end ids)
        (transaction-Committed g (Partly t s ids []) (λ _. Unit {0}) raw_error
          (for_each (Service.change_round g t f) ids) (length ids) d
          (λ d₀ e.
            for_each-Looped g (λ _. Unit {0}) (Partly t s ids) (Service.change_round g t f)
              (round-Partly ids) ids 0 d₀ (Partly-start ids ids (rows d₀) (λ id m. m))))

disable_sets :
    (now : ℕ) (d d' : Device)
    → Device.disable now d ≡ ok d'
    → (d'.status ≡ disabled) × (d'.tenant_id ≡ d.tenant_id) × (d'.id ≡ d.id)
unfolding Device.disable
disable_sets now d d' e = ground arith

enable_sets :
    (now : ℕ) (d d' : Device)
    → Device.enable now d ≡ ok d'
    → (d'.status ≡ active) × (d'.tenant_id ≡ d.tenant_id) × (d'.id ≡ d.id)
unfolding Device.enable
enable_sets now d d' e = ground arith

module _ (g : Gorm DeviceRow) (t : String) (ids : List String) (now : ℕ) (d : g.Db) where
  -- A batch that disables ends in one of two ways: without an error, with the count of all the ids
  -- and every one of these devices disabled; or with an error and the table as it was.
  pub batch_disable_all_or_none :
      Committed g (AllHave t disabled ids) (length ids) d (Service.batch_disable g t ids now d)
  unfolding Service.batch_disable
  batch_disable_all_or_none =
      batch-AllHave g t disabled (Device.disable now) (disable_sets now) ids d

  -- So does a batch that enables, and then every one of the devices is active.
  pub batch_enable_all_or_none :
      Committed g (AllHave t active ids) (length ids) d (Service.batch_enable g t ids now d)
  unfolding Service.batch_enable
  batch_enable_all_or_none = batch-AllHave g t active (Device.enable now) (enable_sets now) ids d
