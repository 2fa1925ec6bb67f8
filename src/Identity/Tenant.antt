-- ===== src/Identity/Tenant.antt =====
-- The tenant, internal/domains/identity/domain/tenant.go. Times are milliseconds, 0 where none is set.
use parkhub_api.Base.{ℕ, Bool, true, false, not, String, Result, ok, err, str_eq, if◌then◌else◌}
use parkhub_api.Errors.{Error, identity, tenant_invalid_status}

-- Texts in Go: the constants, and any other text.
pub data TenantStatus : Type 0 where
  active frozen : TenantStatus
  other_status : String → TenantStatus

pub data PlanType : Type 0 where
  free basic pro enterprise : PlanType
  other_plan : String → PlanType

-- `==` on each of them.
abbrev pub same_status : TenantStatus → TenantStatus → Bool
same_status active active = true
same_status frozen frozen = true
same_status (other_status s) (other_status t) = str_eq s t
same_status _ _ = false

abbrev pub same_plan : PlanType → PlanType → Bool
same_plan free free = true
same_plan basic basic = true
same_plan pro pro = true
same_plan enterprise enterprise = true
same_plan (other_plan s) (other_plan t) = str_eq s t
same_plan _ _ = false

pub record Tenant : Type 0 where
  pub id : String
  pub name : String
  pub contact_name : String
  pub contact_phone : String
  pub contact_email : String
  pub status : TenantStatus
  pub address : String
  pub plan_type : PlanType
  pub created_at : ℕ
  pub updated_at : ℕ
  pub description : String
  pub credit_code : String
  pub remark : String
  pub parking_lot_count : ℕ

unfoldable pub new_tenant : String → String → String → String → String → PlanType → Tenant
new_tenant name contact_name contact_phone contact_email address plan_type = record {
  id = "";
  name = name;
  contact_name = contact_name;
  contact_phone = contact_phone;
  contact_email = contact_email;
  status = active;
  address = address;
  plan_type = plan_type;
  created_at = 0;
  updated_at = 0;
  description = "";
  credit_code = "";
  remark = "";
  parking_lot_count = 0;
}

unfoldable pub is_active : Tenant → Bool
is_active t = same_status t.status active

unfoldable pub freeze : Tenant → Result Error Tenant
freeze t =
    if not (same_status t.status active)
    then err (identity tenant_invalid_status)
    else ok (record t { status = frozen })

unfoldable pub unfreeze : Tenant → Result Error Tenant
unfreeze t =
    if not (same_status t.status frozen)
    then err (identity tenant_invalid_status)
    else ok (record t { status = active })
