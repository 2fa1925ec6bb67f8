-- ===== src/Iot/Service/WellFormed.antt =====
-- Every stored device stays well formed, whatever methods are called.
use parkhub_api.Base.{
  ℕ, String, List, All, All-In, All-append, All-keep, All-map, Bool-cases, inl, inr, subst, sym,
  arith,
}
use parkhub_api.Gorm.{Gorm, assign}
use parkhub_api.Iot.Device
use parkhub_api.Iot.Device.{Device, new_device}
use parkhub_api.Iot.Device.Lifecycle.{IsWellFormed}
use parkhub_api.Iot.Dao.{DeviceRow, has_id, set_columns, stamp}
use parkhub_api.Iot.Repo.{to_domain_device, to_dao_device}
use parkhub_api.Iot.Service.{CreateDeviceRequest}
use parkhub_api.Iot.Service.Shape.{IsStored, made}
use parkhub_api.Iot.Service.Calls.{
  Call, Change, rename, tie, untie, shut, reopen, perform_all, perform_all-Keeps,
}

-- The device of the row is well formed.
abbrev pub RowIsWellFormed : DeviceRow → Type 0
RowIsWellFormed r = IsWellFormed (to_domain_device r)

Change-IsWellFormed :
    {t : String} (d d' : Device) → IsWellFormed d → Change t d d' → IsWellFormed d'
unfolding Device.update_name Device.bind Device.unbind Device.disable Device.enable
Change-IsWellFormed d d' w (rename name now) = ground arith
Change-IsWellFormed d d' w (tie lot gate now e) = ground arith
Change-IsWellFormed d d' w (untie now e) = ground arith
Change-IsWellFormed d d' w (shut now e) = ground arith
Change-IsWellFormed d d' w (reopen now e) = ground arith

stored-IsWellFormed :
    (t id : String) (d : Device) (rs : List DeviceRow)
    → All RowIsWellFormed rs
    → IsStored t id d rs
    → IsWellFormed d
stored-IsWellFormed t id d rs h s =
    subst IsWellFormed (sym s.same) (All-In RowIsWellFormed s.row rs h s.found.stored)

set_columns-IsWellFormed :
    (d : Device) (now : ℕ) (r : DeviceRow)
    → IsWellFormed d
    → RowIsWellFormed r
    → RowIsWellFormed (assign (has_id d.tenant_id d.id) (set_columns (to_dao_device d) now) r)
unfolding to_domain_device to_dao_device
set_columns-IsWellFormed d now r w h = elim (Bool-cases (has_id d.tenant_id d.id r)) [
  | inl e ↦ rw e (record { gate_with_lot = w.gate_with_lot; pending_unbound = w.pending_unbound })
  | inr e ↦ rw e h
]

created-IsWellFormed :
    (req : CreateDeviceRequest) (now at : ℕ)
    → RowIsWellFormed (stamp (to_dao_device (made req now)) at)
unfolding to_domain_device to_dao_device new_device
created-IsWellFormed req now at = ground arith

-- Whatever methods a tenant calls, and however they end: if every stored device was well formed
-- (a lot exactly with a gate, none while the device waits for its first activation), every one is.
pub perform_all-IsWellFormed :
    (g : Gorm DeviceRow) (t : String) (cs : List (Call × ℕ)) (d : g.Db)
    → All RowIsWellFormed (g.rows d)
    → All RowIsWellFormed (g.rows (perform_all g t cs d))
perform_all-IsWellFormed g t cs d h =
    perform_all-Keeps g t (All RowIsWellFormed) IsWellFormed
      (λ rs id d' h' s. stored-IsWellFormed t id d' rs h' s)
      (λ d₀ d' w c. Change-IsWellFormed d₀ d' w c)
      (λ d' now rs w h'.
        All-map RowIsWellFormed _ rs (λ r k. set_columns-IsWellFormed d' now r w k) h')
      (λ req now at rs e h'.
        All-append RowIsWellFormed rs _ h' (created-IsWellFormed req now at, tt))
      (λ id rs h'. All-keep RowIsWellFormed _ rs h') cs d h
