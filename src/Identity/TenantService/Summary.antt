-- ===== src/Identity/TenantService/Summary.antt =====
-- The counts of `GetTenantSummary`.
use parkhub_api.Base.{
  ℕ, ◌+◌, ◌≡◌, ◌≢◌, refl, true, Option, List, pure, Result, ok, count, eq_refl, arith, lift,
  if◌then◌else◌, ◌>>=◌, String, catch,
}
use parkhub_api.Errors.{Error}
use parkhub_api.Gorm.{Gorm}
use parkhub_api.Gorm.Groups.{Collects, collected}
use parkhub_api.Gorm.Logic.{
  Triple, Post, CountsGroups, Triple-bind, Triple-catch, Triple-group, Triple-lift,
}
use parkhub_api.Identity.Tenant.{TenantStatus, active, frozen, other_status, same_status}
use parkhub_api.Identity.TenantDao
use parkhub_api.Identity.TenantDao.{TenantRow, StatusCounts, count_status, count_statuses}
use parkhub_api.Identity.UserDao.{raw_error}
use parkhub_api.Identity.TenantRepo
use parkhub_api.Identity.TenantService.{TenantSummaryResponse, summary_of, lots_of}
use parkhub_api.Identity.TenantService

same_status_refl : (k : TenantStatus) → same_status k k ≡ true
same_status_refl active = refl
same_status_refl frozen = refl
same_status_refl (other_status s) = eq_refl s

active_reads :
    (e : TenantStatus × ℕ) (c : StatusCounts)
    → (count_status e c).active_count ≡ (if same_status active e.0 then e.1 else c.active_count)
active_reads (active, n) c = refl
active_reads (frozen, n) c = refl
active_reads (other_status s, n) c = refl

frozen_reads :
    (e : TenantStatus × ℕ) (c : StatusCounts)
    → (count_status e c).frozen_count ≡ (if same_status frozen e.0 then e.1 else c.frozen_count)
frozen_reads (active, n) c = refl
frozen_reads (frozen, n) c = refl
frozen_reads (other_status s, n) c = refl

active-Collects :
    Collects same_status active (λ (c : StatusCounts). c.active_count) count_status count_statuses
unfolding count_statuses
active-Collects = record {
  again = same_status_refl;
  known = λ j h. ground (arith, h);
  known_sym = λ j h. ground (arith, h);
  reads = active_reads;
  ends = λ c. refl;
  goes_on = λ e l c. refl;
}

frozen-Collects :
    Collects same_status frozen (λ (c : StatusCounts). c.frozen_count) count_status count_statuses
unfolding count_statuses
frozen-Collects = record {
  again = same_status_refl;
  known = λ j h. ground (arith, h);
  known_sym = λ j h. ground (arith, h);
  reads = frozen_reads;
  ends = λ c. refl;
  goes_on = λ e l c. refl;
}

abbrev pub of_status : TenantStatus → List TenantRow → ℕ
of_status k = count (λ r. same_status r.status k)

abbrev no_counts : StatusCounts
no_counts = record { active_count = 0; frozen_count = 0 }

-- The numbers of tenants by status, the parking lots that the counter has given, and their quotient.
pub record IsSummary (counter : Option (Result String ℕ)) (rs : List TenantRow)
    (resp : TenantSummaryResponse) : Type 0 where
  pub of_active : resp.active ≡ of_status active rs
  pub of_frozen : resp.frozen ≡ of_status frozen rs
  pub of_all : resp.total ≡ resp.active + resp.frozen
  pub of_lots : lots_of counter ≡ ok resp.total_parking_lots
  pub divided : resp.avg_parking_lots_per_tenant.denominator ≢ 0
  pub of_avg :
      resp.total ≢ 0
      → (resp.avg_parking_lots_per_tenant.numerator ≡ resp.total_parking_lots)
        × (resp.avg_parking_lots_per_tenant.denominator ≡ resp.total)

module _ (g : Gorm TenantRow) (counter : Option (Result String ℕ)) (before : List TenantRow) where
  abbrev Same : List TenantRow → Type 0
  Same rs = rs ≡ before

  abbrev Groups : List (TenantStatus × ℕ) → List TenantRow → Type 0
  Groups l rs = Same rs × CountsGroups same_status (λ r. r.status) (λ r. true) l rs

  abbrev Counts : StatusCounts → List TenantRow → Type 0
  Counts c rs =
      Same rs × (c.active_count ≡ of_status active rs) × (c.frozen_count ≡ of_status frozen rs)

  abbrev Answers : TenantSummaryResponse → List TenantRow → Type 0
  Answers resp rs = Same rs × IsSummary counter rs resp

  count_by_status-Triple : Triple g Same (TenantRepo.count_by_status g) Counts Same
  unfolding TenantRepo.count_by_status TenantDao.count_by_status
  count_by_status-Triple =
      Triple-bind g Same Same Groups Counts
        (catch raw_error (g.group same_status (λ r. r.status) (λ r. true)))
        (λ results. pure (count_statuses results no_counts))
        (Triple-catch g Same Same Groups raw_error _
          (Triple-group g Same same_status (λ r. r.status) (λ r. true)))
        (λ l. record {
          at = λ d h. (
            h.0,
            collected same_status active (λ c. c.active_count) count_status count_statuses
                active-Collects (λ r. r.status) (λ r. true) (g.rows d) l no_counts refl h.1,
            collected same_status frozen (λ c. c.frozen_count) count_status count_statuses
                frozen-Collects (λ r. r.status) (λ r. true) (g.rows d) l no_counts refl h.1,
          );
        })

  summary_of-IsSummary :
      (c : StatusCounts) (lots : ℕ) (rs : List TenantRow)
      → lots_of counter ≡ ok lots
      → Counts c rs
      → IsSummary counter rs (summary_of c lots)
  unfolding summary_of
  summary_of-IsSummary c lots rs h (same, a, f) = record {
    of_active = a;
    of_frozen = f;
    of_all = refl;
    of_lots = h;
    divided = λ z. ground (arith, z);
    of_avg = λ nz. ground (arith, nz);
  }

  get_tenant_summary-Triple :
      Triple g Same (TenantService.get_tenant_summary g counter) Answers Same
  unfolding TenantService.get_tenant_summary
  get_tenant_summary-Triple =
      Triple-bind g Same Same Counts Answers (TenantRepo.count_by_status g)
        (λ c. lift (lots_of counter) >>= λ lots. pure (summary_of c lots)) count_by_status-Triple
        (λ c.
          Triple-bind g (Counts c) Same (λ lots rs. Counts c rs × (lots_of counter ≡ ok lots))
            Answers (lift (lots_of counter)) (λ lots. pure (summary_of c lots))
            (Triple-lift g (Counts c) Same (λ lots rs. Counts c rs × (lots_of counter ≡ ok lots))
              (lots_of counter) (λ lots h rs k. (k, h)) (λ rs k. k.0))
            (λ lots. record {
              at = λ d h. (h.0.0, summary_of-IsSummary c lots (g.rows d) h.1 h.0);
            }))

-- `GetTenantSummary` answers with the number of active and of frozen tenants, their sum, the parking lots that
-- the counter gives (0 without a counter) and lots per tenant, and divides by no 0; neither it nor its
-- failure changes a row.
pub get_tenant_summary_counts :
    (g : Gorm TenantRow) (counter : Option (Result String ℕ)) (d : g.Db)
    → Post g {E = Error}
        (λ resp rs. (rs ≡ g.rows d) × IsSummary counter rs resp)
        (λ rs. rs ≡ g.rows d)
        (TenantService.get_tenant_summary g counter d)
get_tenant_summary_counts g counter d = (get_tenant_summary-Triple g counter (g.rows d)).at d refl
