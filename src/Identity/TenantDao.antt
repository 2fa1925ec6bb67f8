-- ===== src/Identity/TenantDao.antt =====
-- The tenants table, internal/domains/identity/repository/dao/tenant.go.
use parkhub_api.Base.{
  ℕ, ◌-◌, ◌*◌, Bool, ◌&&◌, ◌||◌, String, List, [], ◌∷◌, Action, ◌>>=◌, pure, catch, raise_if,
  contains, str_eq, if◌then◌else◌, ◌==◌, true,
}
use parkhub_api.Errors.{Error, identity, other, tenant_not_found, tenant_already_exists}
use parkhub_api.Gorm.{Gorm, DbError, record_not_found, failed}
use parkhub_api.Identity.Tenant.{
  TenantStatus, PlanType, active, frozen, other_status, other_plan, same_status, same_plan,
}
use parkhub_api.Identity.UserDao.{text_or, raw_error}

pub record TenantRow : Type 0 where
  pub id : String
  pub name : String
  pub contact_name : String
  pub contact_phone : String
  pub contact_email : String
  pub status : TenantStatus
  pub address : String
  pub plan_type : PlanType
  pub description : String
  pub credit_code : String
  pub remark : String
  pub created_at : ℕ
  pub updated_at : ℕ

-- An empty text asks for no restriction.
pub record TenantFilter : Type 0 where
  pub status : TenantStatus
  pub keyword : String

-- The numbers that `CountByStatus` answers with.
pub record StatusCounts : Type 0 where
  pub active_count : ℕ
  pub frozen_count : ℕ

-- `id = ?`
abbrev pub has_id : String → TenantRow → Bool
has_id id r = str_eq r.id id

-- `name = ?`
abbrev pub has_name : String → TenantRow → Bool
has_name name r = str_eq r.name name

-- The tags `autoCreateTime:milli` and `autoUpdateTime:milli`.
abbrev pub stamp : TenantRow → ℕ → TenantRow
stamp r now = record r {
  created_at = if r.created_at == 0 then now else r.created_at;
  updated_at = if r.updated_at == 0 then now else r.updated_at;
}

-- gorm's `Updates` with a struct writes the fields that are not their type's zero value.
abbrev pub status_or : TenantStatus → TenantStatus → TenantStatus
status_or new old = if same_status new (other_status "") then old else new

abbrev pub plan_or : PlanType → PlanType → PlanType
plan_or new old = if same_plan new (other_plan "") then old else new

abbrev pub set_nonzero : TenantRow → ℕ → TenantRow → TenantRow
set_nonzero u now r = record {
  id = text_or u.id r.id;
  name = text_or u.name r.name;
  contact_name = text_or u.contact_name r.contact_name;
  contact_phone = text_or u.contact_phone r.contact_phone;
  contact_email = text_or u.contact_email r.contact_email;
  status = status_or u.status r.status;
  address = text_or u.address r.address;
  plan_type = plan_or u.plan_type r.plan_type;
  description = text_or u.description r.description;
  credit_code = text_or u.credit_code r.credit_code;
  remark = text_or u.remark r.remark;
  created_at = if u.created_at == 0 then r.created_at else u.created_at;
  updated_at = now;
}

unfoldable pub insert_error : DbError → Error
insert_error record_not_found = other "record not found"
insert_error (failed e) =
    if contains e "duplicate" || contains e "UNIQUE"
    then identity tenant_already_exists
    else other e

abbrev pub find_error : DbError → Error
find_error record_not_found = identity tenant_not_found
find_error (failed e) = other e

-- The conditions of `FindAll`. `like` is MySQL's LIKE with `%` on both sides of the keyword.
unfoldable pub find_all_where : (String → String → Bool) → TenantFilter → TenantRow → Bool
find_all_where like f r =
    (same_status f.status (other_status "") || same_status r.status f.status)
    && (str_eq f.keyword ""
        || like r.name f.keyword
        || like r.contact_name f.keyword
        || like r.contact_email f.keyword)

-- The `switch` of `CountByStatus`, and its loop.
abbrev pub count_status : TenantStatus × ℕ → StatusCounts → StatusCounts
count_status (active, n) c = record c { active_count = n }
count_status (frozen, n) c = record c { frozen_count = n }
count_status (other_status s, n) c = c

unfoldable pub count_statuses : List (TenantStatus × ℕ) → StatusCounts → StatusCounts
count_statuses [] c = c
count_statuses (r ∷ results) c = count_statuses results (count_status r c)

module _ (g : Gorm TenantRow) where
  open g use {Db}

  unfoldable pub insert : TenantRow → Action Db Error (Unit {0})
  insert tenant = catch insert_error (g.create (stamp tenant))

  unfoldable pub find_by_id : String → Action Db Error TenantRow
  find_by_id id = catch find_error (g.first (has_id id))

  unfoldable pub find_by_name : String → Action Db Error TenantRow
  find_by_name name = catch find_error (g.first (has_name name))

  unfoldable pub find_all :
      (String → String → Bool) → TenantFilter → ℕ → ℕ → Action Db Error (List TenantRow × ℕ)
  find_all like filter page page_size = do
    total ← catch raw_error (g.total (find_all_where like filter))
    let offset = (page - 1) * page_size
    tenants ← catch raw_error (g.find (find_all_where like filter) offset page_size)
    pure (tenants, total)

  unfoldable pub update : TenantRow → Action Db Error (Unit {0})
  update tenant = do
    affected ← catch raw_error (g.updates (has_id tenant.id) (set_nonzero tenant))
    raise_if (affected == 0) (identity tenant_not_found)

  unfoldable pub delete : String → Action Db Error (Unit {0})
  delete id = do
    affected ← catch raw_error (g.delete (has_id id))
    raise_if (affected == 0) (identity tenant_not_found)

  unfoldable pub count_by_status : Action Db Error StatusCounts
  count_by_status = do
    results ← catch raw_error (g.group same_status (λ r. r.status) (λ r. true))
    pure (count_statuses results (record { active_count = 0; frozen_count = 0 }))
