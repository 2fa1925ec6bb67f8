-- ===== src/Identity/TenantService.antt =====
-- The tenant service, internal/domains/identity/service/tenant_service.go. The counter of parking
-- lots, an interface, is an argument: the answer that it gives, or `none` where there is no counter.
pub mod Summary
use parkhub_api.Base.{
  ℕ, ◌+◌, Bool, Option, none, some, String, List, Result, ok, err, Action, ◌>>=◌, ◌>>◌, pure,
  raise_if, lift, ltb, if◌then◌else◌,
}
use parkhub_api.Base.Int.{ℤ}
use parkhub_api.Errors.{Error, identity, tenant_already_exists}
use parkhub_api.Gorm.{Gorm}
use parkhub_api.Paging.{clean_page, clean_page_size, total_pages}
use parkhub_api.Identity.Tenant.{Tenant, TenantStatus, PlanType, new_tenant, freeze, unfreeze}
use parkhub_api.Identity.TenantDao.{TenantRow, StatusCounts}
use parkhub_api.Identity.TenantRepo
use parkhub_api.Identity.UserService.{or_old, library}

pub record CreateTenantRequest : Type 0 where
  pub name : String
  pub contact_name : String
  pub contact_phone : String
  pub contact_email : String
  pub address : String
  pub plan_type : PlanType
  pub description : String
  pub credit_code : String
  pub remark : String

pub record UpdateTenantRequest : Type 0 where
  pub id : String
  pub name : Option String
  pub contact_name : Option String
  pub contact_phone : Option String
  pub contact_email : Option String
  pub address : Option String
  pub plan_type : Option PlanType
  pub description : Option String
  pub credit_code : Option String
  pub remark : Option String

pub record ListTenantsRequest : Type 0 where
  pub status : TenantStatus
  pub keyword : String
  pub page : ℤ
  pub page_size : ℤ

pub record TenantListResponse : Type 0 where
  pub tenants : List Tenant
  pub total : ℕ
  pub page : ℕ
  pub page_size : ℕ
  pub pages : ℕ

-- A quotient of two `int64`, before the division in floating point.
pub record Ratio : Type 0 where
  pub numerator : ℕ
  pub denominator : ℕ

pub record TenantSummaryResponse : Type 0 where
  pub total : ℕ
  pub active : ℕ
  pub frozen : ℕ
  pub total_parking_lots : ℕ
  pub avg_parking_lots_per_tenant : Ratio

abbrev pub created_tenant : CreateTenantRequest → String → Tenant
created_tenant req uuid =
    record (new_tenant req.name req.contact_name req.contact_phone req.contact_email req.address
      req.plan_type) {
        id = uuid;
        description = req.description;
        credit_code = req.credit_code;
        remark = req.remark;
      }

-- What `UpdateTenant` changes.
abbrev pub set_tenant : UpdateTenantRequest → Tenant → Tenant
set_tenant req t = record t {
  name = or_old req.name t.name;
  contact_name = or_old req.contact_name t.contact_name;
  contact_phone = or_old req.contact_phone t.contact_phone;
  contact_email = or_old req.contact_email t.contact_email;
  address = or_old req.address t.address;
  plan_type = or_old req.plan_type t.plan_type;
  description = or_old req.description t.description;
  credit_code = or_old req.credit_code t.credit_code;
  remark = or_old req.remark t.remark;
}

-- `err == nil && existing != nil`
abbrev pub is_found : Result Error Tenant → Bool
is_found (ok existing) = Bool.true
is_found (err e) = Bool.false

-- `if s.parkingCounter != nil`
abbrev pub lots_of : Option (Result String ℕ) → Result Error ℕ
lots_of none = ok 0
lots_of (some answer) = library answer

unfoldable pub summary_of : StatusCounts → ℕ → TenantSummaryResponse
summary_of c lots =
    let total = c.active_count + c.frozen_count in
    record {
      total = total;
      active = c.active_count;
      frozen = c.frozen_count;
      total_parking_lots = lots;
      avg_parking_lots_per_tenant =
          if ltb 0 total
          then record { numerator = lots; denominator = total }
          else record { numerator = 0; denominator = 1 };
    }

abbrev pub listed : ListTenantsRequest → List Tenant × ℕ → TenantListResponse
listed req found =
    let page_size = clean_page_size req.page_size in
    record {
      tenants = found.0;
      total = found.1;
      page = clean_page req.page;
      page_size = page_size;
      pages = total_pages found.1 page_size;
    }

module _ (g : Gorm TenantRow) where
  open g use {Db}

  -- An error of the search is dropped.
  abbrev pub search_name : String → Action Db Error (Result Error Tenant)
  search_name name d = let (r, d') = TenantRepo.get_by_name g name d in (ok r, d')

  unfoldable pub create_tenant : CreateTenantRequest → String → Action Db Error Tenant
  create_tenant req uuid = do
    existing ← search_name req.name
    raise_if (is_found existing) (identity tenant_already_exists)
    TenantRepo.create g (created_tenant req uuid)
    pure (created_tenant req uuid)

  unfoldable pub get_tenant : String → Action Db Error Tenant
  get_tenant id = TenantRepo.get_by_id g id

  unfoldable pub list_tenants :
      (String → String → Bool) → ListTenantsRequest → Action Db Error TenantListResponse
  list_tenants like req = do
    found ←
        TenantRepo.list g like (record { status = req.status; keyword = req.keyword })
          (clean_page req.page) (clean_page_size req.page_size)
    pure (listed req found)

  -- The shape of the methods that change one tenant: read, change, write back.
  unfoldable pub change : String → (Tenant → Result Error Tenant) → Action Db Error Tenant
  change id f = do
    tenant ← TenantRepo.get_by_id g id
    tenant' ← lift (f tenant)
    TenantRepo.update g tenant'
    pure tenant'

  unfoldable pub update_tenant : UpdateTenantRequest → Action Db Error Tenant
  update_tenant req = change req.id (λ t. ok (set_tenant req t))

  unfoldable pub freeze_tenant : String → Action Db Error Tenant
  freeze_tenant id = change id freeze

  unfoldable pub unfreeze_tenant : String → Action Db Error Tenant
  unfreeze_tenant id = change id unfreeze

  unfoldable pub delete_tenant : String → Action Db Error (Unit {0})
  delete_tenant id = TenantRepo.delete g id

  unfoldable pub get_tenant_summary :
      Option (Result String ℕ) → Action Db Error TenantSummaryResponse
  get_tenant_summary counter = do
    counts ← TenantRepo.count_by_status g
    lots ← lift (lots_of counter)
    pure (summary_of counts lots)
