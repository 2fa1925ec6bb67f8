-- ===== src/Iot/Service/Isolation.antt =====
-- Tenants do not reach one another's devices.
use parkhub_api.Base.{
  ℕ, ◌≡◌, refl, ◌∙◌, not, String, List, [], ◌∷◌, ◌++◌, keep, keep-append, keep-map, keep-keep,
  str_eq, eq_iff, eq_refl, arith,
}
use mathlib.Core.List.{append-nil}
use parkhub_api.Gorm.{Gorm, assign}
use parkhub_api.Iot.Device
use parkhub_api.Iot.Device.{Device}
use parkhub_api.Iot.Dao.{DeviceRow, has_id, set_columns, stamp}
use parkhub_api.Iot.Repo.{to_domain_device, to_dao_device}
use parkhub_api.Iot.Service.{CreateDeviceRequest}
use parkhub_api.Iot.Service.Shape.{IsStored, written, made}
use parkhub_api.Iot.Service.Calls.{
  Call, Change, rename, tie, untie, shut, reopen, perform_all, perform_all-Keeps,
}

-- The rows of all tenants but `t`.
abbrev pub of_others : String → List DeviceRow → List DeviceRow
of_others t = keep (λ r. not (str_eq r.tenant_id t))

Change-tenant : {t : String} (d d' : Device) → d.tenant_id ≡ t → Change t d d' → d'.tenant_id ≡ t
unfolding Device.update_name Device.bind Device.unbind Device.disable Device.enable
Change-tenant d d' h (rename name now) = h
Change-tenant d d' h (tie lot gate now e) = ground arith
Change-tenant d d' h (untie now e) = ground arith
Change-tenant d d' h (shut now e) = ground arith
Change-tenant d d' h (reopen now e) = ground arith

stored-tenant :
    (t id : String) (d : Device) (rs : List DeviceRow) → IsStored t id d rs → d.tenant_id ≡ t
unfolding to_domain_device
stored-tenant t id d rs s = ground (arith, s.found.fits, s.same, eq_iff s.row.tenant_id t)

written-of_others :
    (t : String) (d : Device) (now : ℕ) (rs : List DeviceRow)
    → d.tenant_id ≡ t
    → of_others t (written d now rs) ≡ of_others t rs
written-of_others t d now rs h =
    keep-map (λ r. not (str_eq r.tenant_id t))
      (assign (has_id d.tenant_id d.id) (set_columns (to_dao_device d) now)) rs
      (λ r out. ground (arith, h, eq_iff r.tenant_id t))
      (λ r out. ground (arith, eq_iff r.tenant_id t))

deleted-of_others :
    (t id : String) (rs : List DeviceRow)
    → of_others t (keep (λ r. not (has_id t id r)) rs) ≡ of_others t rs
deleted-of_others t id rs = keep-keep _ _ rs (λ r h. ground arith)

created-tenant :
    (t : String) (req : CreateDeviceRequest) (now at : ℕ)
    → req.tenant_id ≡ t
    → (stamp (to_dao_device (made req now)) at).tenant_id ≡ t
unfolding to_dao_device
created-tenant t req now at h = h

created-of_others :
    (t : String) (r : DeviceRow) (rs : List DeviceRow)
    → r.tenant_id ≡ t
    → of_others t (rs ++ r ∷ []) ≡ of_others t rs
created-of_others t r rs h = keep-append _ rs (r ∷ []) ∙ rw (h, eq_refl) (append-nil _)

-- Whatever methods a tenant calls, and however they end, the devices of all other tenants are the
-- same rows as before.
pub perform_all-of_others :
    (g : Gorm DeviceRow) (t : String) (cs : List (Call × ℕ)) (d : g.Db)
    → of_others t (g.rows (perform_all g t cs d)) ≡ of_others t (g.rows d)
perform_all-of_others g t cs d =
    perform_all-Keeps g t (λ rs. of_others t rs ≡ of_others t (g.rows d)) (λ d'. d'.tenant_id ≡ t)
      (λ rs id d' h s. stored-tenant t id d' rs s) (λ d₀ d' h c. Change-tenant d₀ d' h c)
      (λ d' now rs f h. written-of_others t d' now rs f ∙ h)
      (λ req now at rs e h. created-of_others t _ rs (created-tenant t req now at e) ∙ h)
      (λ id rs h. deleted-of_others t id rs ∙ h) cs d refl
