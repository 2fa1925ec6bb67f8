-- ===== src/Identity/TenantRepo.antt =====
-- The tenant repository, internal/domains/identity/repository/tenant_repo.go.
use parkhub_api.Base.{ℕ, Bool, String, List, map, Action, ◌>>=◌, pure}
use parkhub_api.Errors.{Error}
use parkhub_api.Gorm.{Gorm}
use parkhub_api.Identity.Tenant.{Tenant}
use parkhub_api.Identity.TenantDao
use parkhub_api.Identity.TenantDao.{TenantRow, TenantFilter, StatusCounts}

unfoldable pub to_domain : TenantRow → Tenant
to_domain d = record {
  id = d.id;
  name = d.name;
  contact_name = d.contact_name;
  contact_phone = d.contact_phone;
  contact_email = d.contact_email;
  status = d.status;
  address = d.address;
  plan_type = d.plan_type;
  created_at = d.created_at;
  updated_at = d.updated_at;
  description = d.description;
  credit_code = d.credit_code;
  remark = d.remark;
  parking_lot_count = 0;
}

unfoldable pub to_entity : Tenant → TenantRow
to_entity t = record {
  id = t.id;
  name = t.name;
  contact_name = t.contact_name;
  contact_phone = t.contact_phone;
  contact_email = t.contact_email;
  status = t.status;
  address = t.address;
  plan_type = t.plan_type;
  description = t.description;
  credit_code = t.credit_code;
  remark = t.remark;
  created_at = t.created_at;
  updated_at = t.updated_at;
}

module _ (g : Gorm TenantRow) where
  open g use {Db}

  unfoldable pub create : Tenant → Action Db Error (Unit {0})
  create tenant = TenantDao.insert g (to_entity tenant)

  unfoldable pub get_by_id : String → Action Db Error Tenant
  get_by_id id = do d ← TenantDao.find_by_id g id; pure (to_domain d)

  unfoldable pub get_by_name : String → Action Db Error Tenant
  get_by_name name = do d ← TenantDao.find_by_name g name; pure (to_domain d)

  unfoldable pub list :
      (String → String → Bool) → TenantFilter → ℕ → ℕ → Action Db Error (List Tenant × ℕ)
  list like filter page page_size = do
    found ← TenantDao.find_all g like filter page page_size
    pure (map to_domain found.0, found.1)

  unfoldable pub update : Tenant → Action Db Error (Unit {0})
  update tenant = TenantDao.update g (to_entity tenant)

  unfoldable pub delete : String → Action Db Error (Unit {0})
  delete id = TenantDao.delete g id

  unfoldable pub count_by_status : Action Db Error StatusCounts
  count_by_status = TenantDao.count_by_status g
