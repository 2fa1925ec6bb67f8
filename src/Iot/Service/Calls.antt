-- ===== src/Iot/Service/Calls.antt =====
-- Any calls of the methods that change a device, one behind the other, by one tenant; and the rule
-- by which they all keep a property of the table.
use parkhub_api.Base.{
  ℕ, ◌≡◌, refl, sym, subst, not, String, List, [], ◌∷◌, ◌++◌, Result, ok, err, Action, keep, length,
  All, lift, pure, ◌>>=◌, refl, ap, suc,
}
use parkhub_api.Errors.{Error}
use parkhub_api.Gorm.{Gorm}
use parkhub_api.Gorm.Logic.{Triple, Post, Triple-Keeps, Triple-bind, Triple-lift, Triple-weaken}
use parkhub_api.Gorm.Transaction.{
  Looped, Looped-weaken, for_each, for_each-Looped, transaction-Committed, Committed-Keeps,
}
use parkhub_api.Iot.Device
use parkhub_api.Iot.Device.{Device, is_bound}
use parkhub_api.Iot.Dao.{DeviceRow, has_id, stamp, raw_error}
use parkhub_api.Iot.Repo
use parkhub_api.Iot.Repo.{to_domain_device, to_dao_device}
use parkhub_api.Iot.Service
use parkhub_api.Iot.Service.{CreateDeviceRequest, Binding, write_all}
use parkhub_api.Iot.Service.Shape.{
  IsStored, written, made, create-Triple, change-Triple, change_round-Triple, delete_device-Triple,
  get_by_id-Triple, update-Triple,
}

pub data Call : Type 0 where
  create : CreateDeviceRequest → Call
  update_name : String → String → Call
  bind : Binding → Call
  unbind disable enable delete : String → Call
  batch_disable batch_enable batch_delete : List String → Call
  batch_bind : List Binding → Call

module _ (g : Gorm DeviceRow) where
  open g use {Db, rows}

  -- The database after a call by the tenant at a time.
  unfoldable pub perform : String → Call × ℕ → Db → Db
  perform t (Call.create req, now) d = (Service.create g (record req { tenant_id = t }) now d).1
  perform t (Call.update_name id name, now) d = (Service.update_name g t id name now d).1
  perform t (Call.bind b, now) d = (Service.bind g t b now d).1
  perform t (Call.unbind id, now) d = (Service.unbind g t id now d).1
  perform t (Call.disable id, now) d = (Service.disable g t id now d).1
  perform t (Call.enable id, now) d = (Service.enable g t id now d).1
  perform t (Call.delete id, now) d = (Service.delete g t id d).1
  perform t (Call.batch_disable ids, now) d = (Service.batch_disable g t ids now d).2
  perform t (Call.batch_enable ids, now) d = (Service.batch_enable g t ids now d).2
  perform t (Call.batch_delete ids, now) d = (Service.batch_delete g t ids d).2
  perform t (Call.batch_bind bs, now) d = (Service.batch_bind g t bs now d).2

  unfoldable pub perform_all : String → List (Call × ℕ) → Db → Db
  perform_all t [] d = d
  perform_all t (c ∷ cs) d = perform_all t cs (perform t c d)

-- What the methods do to a device that they have read.
pub data Change (t : String) (d : Device) : Device → Type 0 where
  rename : (name : String) (now : ℕ) → Change t d (Device.update_name name now d)
  tie :
      {d' : Device} (lot gate : String) (now : ℕ)
      → Device.bind lot gate now (record d { tenant_id = t }) ≡ ok d'
      → Change t d d'
  untie : {d' : Device} (now : ℕ) → Device.unbind now d ≡ ok d' → Change t d d'
  shut : {d' : Device} (now : ℕ) → Device.disable now d ≡ ok d' → Change t d d'
  reopen : {d' : Device} (now : ℕ) → Device.enable now d ≡ ok d' → Change t d d'

renamed :
    {t : String} (name : String) (now : ℕ) (d d' : Device)
    → ◌≡◌ {A = Result Error Device} (ok (Device.update_name name now d)) (ok d')
    → Change t d d'
renamed {t} name now d d' e =
    let same : Device.update_name name now d ≡ d' = cc in subst (Change t d) same (rename name now)

module _ (g : Gorm DeviceRow) (t : String) (P : List DeviceRow → Type 0) (F : Device → Type 0)
    (read : (rs : List DeviceRow) (id : String) (d : Device) → P rs → IsStored t id d rs → F d)
    (changed : (d d' : Device) → F d → Change t d d' → F d')
    (keeps_write : (d : Device) (now : ℕ) (rs : List DeviceRow) → F d → P rs → P (written d now rs))
    (keeps_create : (req : CreateDeviceRequest) (now at : ℕ) (rs : List DeviceRow)
      → req.tenant_id ≡ t
      → P rs
      → P (rs ++ stamp (to_dao_device (made req now)) at ∷ []))
    (keeps_delete : (id : String) (rs : List DeviceRow)
      → P rs
      → P (keep (λ r. not (has_id t id r)) rs)) where
  open g use {Db, rows}

  Change-Triple :
      (id : String) (f : Device → Result Error Device)
      → ((d d' : Device) → f d ≡ ok d' → Change t d d')
      → Triple g P (Service.change g t id f) (λ _. P) P
  Change-Triple id f k =
      change-Triple g P t id f P (λ now rs d d' h st e.
        keeps_write d' now rs (changed d d' (read rs id d h st) (k d d' e)) h)

  round-Triple :
      (id : String) (f : Device → Result Error Device)
      → ((d d' : Device) → f d ≡ ok d' → Change t d d')
      → Triple g P (Service.change_round g t f id) (λ _. P) P
  round-Triple id f k =
      change_round-Triple g P t id f P (λ now rs d d' h st e.
        keeps_write d' now rs (changed d d' (read rs id d h st) (k d d' e)) h)

  delete-Triple : (id : String) → Triple g P (Service.delete g t id) (λ _. P) P
  delete-Triple id = delete_device-Triple g P t id P (λ rs d h st e. keeps_delete id rs h)

  batch_Keeps :
      (step : String → Action Db Error (Unit {0})) (ids : List String) (d : Db)
      → ((id : String) → Triple g P (step id) (λ _. P) P)
      → P (rows d)
      → P (rows (g.transaction raw_error (for_each step ids) 0 d).2)
  batch_Keeps step ids d k h =
      Committed-Keeps g P (length ids) d (g.transaction raw_error (for_each step ids) 0 d)
        (transaction-Committed g P P raw_error (for_each step ids) (length ids) d
          (λ d₀ e. for_each-Looped g P (λ _. P) step (λ x xs. k x) ids 0 d₀ (subst P (sym e) h)))
        h

  -- The devices that the first loop of `BatchBind` hands to the second.
  abbrev Gathered : List Binding → List Device → List DeviceRow → Type 0
  Gathered bs ds rs = P rs × All F ds × (length ds ≡ length bs)

  bind_all-Triple :
      (bs : List Binding) (now : ℕ) → Triple g P (Service.bind_all g t bs now) (Gathered bs) P
  unfolding Service.bind_all
  bind_all-Triple [] now = record { at = λ d h. (h, tt, refl) }
  bind_all-Triple (b ∷ bs) now =
      Triple-bind g P P Read (Gathered (b ∷ bs)) _ (λ d. lift (tied d) >>= collect)
        (get_by_id-Triple g P t b.id)
        (λ d.
          Triple-bind g (Read d) P Tied (Gathered (b ∷ bs)) _ collect
            (Triple-lift g (Read d) P Tied (tied d)
              (λ d' e rs h.
                (h.0, changed d d' (read rs b.id d h.0 h.1) (tie b.parking_lot_id b.gate_id now e)))
              (λ rs h. h.0))
            (collect-Triple (bind_all-Triple bs now)))
    where
      Read : Device → List DeviceRow → Type 0
      Read d rs = P rs × IsStored t b.id d rs

      Tied : Device → List DeviceRow → Type 0
      Tied d rs = P rs × F d

      tied : Device → Result Error Device
      tied d = Device.bind b.parking_lot_id b.gate_id now (record d { tenant_id = t })

      collect : Device → Action Db Error (List Device)
      collect d' = Service.bind_all g t bs now >>= λ ds. pure (d' ∷ ds)

      collect-Triple :
          Triple g P (Service.bind_all g t bs now) (Gathered bs) P
          → (d' : Device) → Triple g (Tied d') (collect d') (Gathered (b ∷ bs)) P
      collect-Triple rest d' = record {
        at = λ s h.
            (Triple-bind g P P (Gathered bs) (Gathered (b ∷ bs)) _ (λ ds. pure (d' ∷ ds)) rest
                (λ ds. record { at = λ s' k. (k.0, (h.1, k.1), ap suc k.2) })).at
              s h.0;
      }

  rewrite-Looped :
      (ds : List Device) (n : ℕ) (d : Db)
      → P (rows d)
      → All F ds
      → Looped g {E = Error} P P n (length ds) (for_each (Repo.update g) ds n d)
  rewrite-Looped ds n d h fs =
      Looped-weaken g (Left []) P P n (length ds) (for_each (Repo.update g) ds n d) (λ rs q. q.0)
        (for_each-Looped g P Left (Repo.update g) round ds n d (h, fs))
    where
      Left : List Device → List DeviceRow → Type 0
      Left xs rs = P rs × All F xs

      round :
          (x : Device) (xs : List Device)
          → Triple g (Left (x ∷ xs)) (Repo.update g x) (λ _. Left xs) P
      round x xs =
          Triple-weaken g (Left (x ∷ xs)) (Repo.update g x) (λ _. Left xs) (λ _. Left xs)
            (Left (x ∷ xs)) P (λ a rs q. q) (λ rs q. q.0)
            (update-Triple g (Left (x ∷ xs)) x (Left xs)
              (λ now rs q. (keeps_write x now rs q.1.0 q.0, q.1.1)))

  write_all-Looped :
      (bs : List Binding) (r : Result Error (List Device) × Db)
      → Post g (Gathered bs) P r
      → Looped g P P 0 (length bs) (write_all g r 0)
  write_all-Looped bs (ok ds, d) h =
      subst (λ k. Looped g P P 0 k (for_each (Repo.update g) ds 0 d)) h.2
        (rewrite-Looped ds 0 d h.0 h.1)
  write_all-Looped bs (err e, d) h = h

  batch_bind_Keeps :
      (bs : List Binding) (now : ℕ) (d : Db)
      → P (rows d)
      → P (rows (Service.batch_bind g t bs now d).2)
  unfolding Service.batch_bind
  batch_bind_Keeps bs now d h =
      Committed-Keeps g P (length bs) d (Service.batch_bind g t bs now d)
        (transaction-Committed g P P raw_error
          (λ n s. write_all g (Service.bind_all g t bs now s) n) (length bs) d
          (λ d₀ e.
            write_all-Looped bs (Service.bind_all g t bs now d₀)
              ((bind_all-Triple bs now).at d₀ (subst P (sym e) h))))
        h

  pub perform-Keeps : (c : Call × ℕ) (d : Db) → P (rows d) → P (rows (perform g t c d))
  unfolding perform Service.update_name Service.bind Service.unbind Service.disable Service.enable
      Service.delete Service.batch_disable Service.batch_enable Service.batch_delete
  perform-Keeps (Call.create req, now) d h =
      Triple-Keeps g P _
        (create-Triple g P P (record req { tenant_id = t }) now
          (λ at rs q. keeps_create (record req { tenant_id = t }) now at rs refl q))
        d h
  perform-Keeps (Call.update_name id name, now) d h =
      Triple-Keeps g P _
        (Change-Triple id (λ d'. ok (Device.update_name name now d'))
          (λ d₀ d' e. renamed name now d₀ d' e))
        d h
  perform-Keeps (Call.bind b, now) d h =
      Triple-Keeps g P _ (Change-Triple b.id _ (λ d₀ d' e. tie b.parking_lot_id b.gate_id now e)) d
        h
  perform-Keeps (Call.unbind id, now) d h =
      Triple-Keeps g P _ (Change-Triple id (Device.unbind now) (λ d₀ d' e. untie now e)) d h
  perform-Keeps (Call.disable id, now) d h =
      Triple-Keeps g P _ (Change-Triple id (Device.disable now) (λ d₀ d' e. shut now e)) d h
  perform-Keeps (Call.enable id, now) d h =
      Triple-Keeps g P _ (Change-Triple id (Device.enable now) (λ d₀ d' e. reopen now e)) d h
  perform-Keeps (Call.delete id, now) d h = Triple-Keeps g P _ (delete-Triple id) d h
  perform-Keeps (Call.batch_disable ids, now) d h =
      batch_Keeps (Service.change_round g t (Device.disable now)) ids d
        (λ id. round-Triple id (Device.disable now) (λ d₀ d' e. shut now e)) h
  perform-Keeps (Call.batch_enable ids, now) d h =
      batch_Keeps (Service.change_round g t (Device.enable now)) ids d
        (λ id. round-Triple id (Device.enable now) (λ d₀ d' e. reopen now e)) h
  perform-Keeps (Call.batch_delete ids, now) d h =
      batch_Keeps (Service.delete g t) ids d delete-Triple h
  perform-Keeps (Call.batch_bind bs, now) d h = batch_bind_Keeps bs now d h

  -- What each call keeps, any sequence of calls keeps.
  pub perform_all-Keeps :
      (cs : List (Call × ℕ)) (d : Db) → P (rows d) → P (rows (perform_all g t cs d))
  unfolding perform_all
  perform_all-Keeps [] d h = h
  perform_all-Keeps (c ∷ cs) d h = perform_all-Keeps cs (perform g t c d) (perform-Keeps c d h)
