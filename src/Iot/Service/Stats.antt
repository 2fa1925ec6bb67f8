-- ===== src/Iot/Service/Stats.antt =====
-- The counts of `GetStats`.
use parkhub_api.Base.{
  ℕ, ◌+◌, ◌≡◌, refl, Bool, true, ◌&&◌, List, String, pure, count, str_eq, eq_refl, arith,
  if◌then◌else◌,
}
use parkhub_api.Errors.{Error}
use parkhub_api.Gorm.{Gorm}
use parkhub_api.Gorm.Groups.{Collects, collected}
use parkhub_api.Gorm.Logic.{Triple, Post, CountsGroups, Triple-bind, Triple-catch, Triple-group}
use parkhub_api.Iot.Device.{
  DeviceStatus, pending, active, offline, disabled, other_status, same_status,
}
use parkhub_api.Iot.Dao
use parkhub_api.Iot.Dao.{
  DeviceRow, StatusCounts, count_status, count_statuses, no_counts, raw_error,
}
use parkhub_api.Iot.Repo
use parkhub_api.Iot.Service
use parkhub_api.Iot.Service.{DeviceStatsResponse, stats_of}

-- The count of a status; other texts have none.
abbrev read : DeviceStatus → StatusCounts → ℕ
read pending c = c.pending_count
read active c = c.active_count
read offline c = c.offline_count
read disabled c = c.disabled_count
read (other_status s) c = 0

abbrev IsKnown : DeviceStatus → Type 0
IsKnown (other_status s) = ⊥
IsKnown _ = Unit

read-count_status :
    (k : DeviceStatus) (e : DeviceStatus × ℕ) (c : StatusCounts)
    → IsKnown k
    → read k (count_status e c) ≡ (if same_status k e.0 then e.1 else read k c)
read-count_status pending (pending, n) c h = refl
read-count_status pending (active, n) c h = refl
read-count_status pending (offline, n) c h = refl
read-count_status pending (disabled, n) c h = refl
read-count_status pending (other_status s, n) c h = refl
read-count_status active (pending, n) c h = refl
read-count_status active (active, n) c h = refl
read-count_status active (offline, n) c h = refl
read-count_status active (disabled, n) c h = refl
read-count_status active (other_status s, n) c h = refl
read-count_status offline (pending, n) c h = refl
read-count_status offline (active, n) c h = refl
read-count_status offline (offline, n) c h = refl
read-count_status offline (disabled, n) c h = refl
read-count_status offline (other_status s, n) c h = refl
read-count_status disabled (pending, n) c h = refl
read-count_status disabled (active, n) c h = refl
read-count_status disabled (offline, n) c h = refl
read-count_status disabled (disabled, n) c h = refl
read-count_status disabled (other_status s, n) c h = refl
read-count_status (other_status s) e c h = absurd h

same_status_refl : (k : DeviceStatus) → same_status k k ≡ true
same_status_refl pending = refl
same_status_refl active = refl
same_status_refl offline = refl
same_status_refl disabled = refl
same_status_refl (other_status s) = eq_refl s

same_status_eq : (s k : DeviceStatus) → IsKnown k → same_status s k ≡ true → s ≡ k
same_status_eq s k h e = ground arith

same_status_eq_sym : (s k : DeviceStatus) → IsKnown k → same_status k s ≡ true → s ≡ k
same_status_eq_sym s k h e = ground arith

read_none : (k : DeviceStatus) → read k no_counts ≡ 0
read_none pending = refl
read_none active = refl
read_none offline = refl
read_none disabled = refl
read_none (other_status s) = refl

loop-Collects :
    (k : DeviceStatus) → IsKnown k → Collects same_status k (read k) count_status count_statuses
unfolding count_statuses
loop-Collects k known = record {
  again = same_status_refl;
  known = λ j h. same_status_eq j k known h;
  known_sym = λ j h. same_status_eq_sym j k known h;
  reads = λ e c. read-count_status k e c known;
  ends = λ c. refl;
  goes_on = λ e l c. refl;
}

abbrev pub of_status : String → DeviceStatus → List DeviceRow → ℕ
of_status tenant_id k = count (λ r. str_eq r.tenant_id tenant_id && same_status r.status k)

-- The numbers of the tenant's devices by status; the total adds up these four.
pub record IsStats (tenant_id : String) (rs : List DeviceRow) (resp : DeviceStatsResponse)
    : Type 0 where
  pub of_pending : resp.pending ≡ of_status tenant_id pending rs
  pub of_active : resp.active ≡ of_status tenant_id active rs
  pub of_offline : resp.offline ≡ of_status tenant_id offline rs
  pub of_disabled : resp.disabled ≡ of_status tenant_id disabled rs
  pub of_all : resp.total ≡ resp.pending + resp.active + resp.offline + resp.disabled

module _ (g : Gorm DeviceRow) (tenant_id : String) (before : List DeviceRow) where
  abbrev Same : List DeviceRow → Type 0
  Same rs = rs ≡ before

  abbrev mine : DeviceRow → Bool
  mine r = str_eq r.tenant_id tenant_id

  abbrev Groups : List (DeviceStatus × ℕ) → List DeviceRow → Type 0
  Groups l rs = Same rs × CountsGroups same_status (λ r. r.status) mine l rs

  abbrev Collected : StatusCounts → List DeviceRow → Type 0
  Collected c rs = Same rs × ((k : DeviceStatus) → IsKnown k → read k c ≡ of_status tenant_id k rs)

  count_by_status-Triple : Triple g Same (Repo.count_by_status g tenant_id) Collected Same
  unfolding Repo.count_by_status Dao.count_by_status
  count_by_status-Triple =
      Triple-bind g Same Same Groups Collected _ (λ counts. pure (count_statuses counts no_counts))
        (Triple-catch g Same Same Groups raw_error _
          (Triple-group g Same same_status (λ r. r.status) mine))
        (λ l. record {
          at = λ d h. (
            h.0,
            λ k known.
                collected same_status k (read k) count_status count_statuses (loop-Collects k known)
                  (λ r. r.status) mine (g.rows d) l no_counts (read_none k) h.1,
          );
        })

  get_stats-Triple :
      Triple g Same
        (Service.get_stats g tenant_id)
        (λ resp rs. Same rs × IsStats tenant_id rs resp)
        Same
  unfolding Service.get_stats
  get_stats-Triple =
      Triple-bind g Same Same Collected (λ resp rs. Same rs × IsStats tenant_id rs resp) _
        (λ c. pure (stats_of c)) count_by_status-Triple
        (λ c. record {
          at = λ d h. (
            h.0,
            record {
              of_pending = h.1 pending tt;
              of_active = h.1 active tt;
              of_offline = h.1 offline tt;
              of_disabled = h.1 disabled tt;
              of_all = refl;
            },
          );
        })

-- `GetStats` answers with the number of the tenant's devices in each status and with the sum of the
-- four; neither it nor its failure changes a row.
pub get_stats_counts :
    (g : Gorm DeviceRow) (tenant_id : String) (d : g.Db)
    → Post g {E = Error}
        (λ resp rs. (rs ≡ g.rows d) × IsStats tenant_id rs resp)
        (λ rs. rs ≡ g.rows d)
        (Service.get_stats g tenant_id d)
get_stats_counts g tenant_id d = (get_stats-Triple g tenant_id (g.rows d)).at d refl
