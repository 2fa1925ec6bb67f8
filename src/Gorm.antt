-- ===== src/Gorm.antt =====
-- The database behind the DAOs, gorm over MySQL: a parameter of the model. An operation is the
-- statement that gorm sends; its laws are what gorm and MySQL document. `rows` is the content of
-- the one table of entity `R`. Where conditions are Boolean predicates, and an assignment takes
-- gorm's clock, which fills the fields tagged `autoCreateTime` and `autoUpdateTime`.
pub mod Logic
pub mod Groups
pub mod Ends
pub mod Transaction
pub mod Memory
use mathlib.Core.List.{Perm}
use parkhub_api.Base.{
  ℕ, ◌-◌, ◌≡◌, Bool, true, false, not, ◌&&◌, Option, none, some, String, List, [], ◌∷◌, ◌++◌, map,
  min, Result, ok, err, Action, length, keep, count, any, All, In, if◌then◌else◌,
}
use parkhub_api.Base.Int.{ℤ, pos, ◌+ℤ◌}

-- `gorm.ErrRecordNotFound`, or any other error with its text.
pub data DbError : Type 0 where
  record_not_found : DbError
  failed : String → DbError

module _ {R : Type 0} where
  -- `r` is one of the rows, and fits the condition.
  pub record Found (p : R → Bool) (r : R) (rs : List R) : Type 0 where
    pub stored : In r rs
    pub fits : p r ≡ true

  -- An UPDATE on the rows that fit.
  abbrev pub assign : (R → Bool) → (R → R) → R → R
  assign p f r = if p r then f r else r

  -- A page holds stored rows that fit, as many as there are behind the offset, up to the limit.
  pub record IsPage (p : R → Bool) (offset limit : ℕ) (l rs : List R) : Type 0 where
    pub listed : All (λ r. Found p r rs) l
    pub size : length l ≡ min limit (count p rs - offset)

  abbrev pub sum_where : (R → ℤ) → (R → Bool) → List R → ℤ
  sum_where a p [] = pos 0
  sum_where a p (r ∷ rs) = if p r then a r +ℤ sum_where a p rs else sum_where a p rs

module _ {R Db : Type 0} (rows : Db → List R) where
  abbrev pub Created : R → Db → Result DbError (Unit {0}) × Db → Type 0
  Created r d (ok _, d') = rows d' ≡ rows d ++ r ∷ []
  Created r d (err e, d') = rows d' ≡ rows d

  abbrev pub CreatedAll : List R → Db → Result DbError (Unit {0}) × Db → Type 0
  CreatedAll l d (ok _, d') = rows d' ≡ rows d ++ l
  CreatedAll l d (err e, d') = rows d' ≡ rows d

  abbrev pub FoundFirst : (R → Bool) → Db → Result DbError R × Db → Type 0
  FoundFirst p d (ok r, d') = (rows d' ≡ rows d) × Found p r (rows d)
  FoundFirst p d (err record_not_found, d') = (rows d' ≡ rows d) × (any p (rows d) ≡ false)
  FoundFirst p d (err (failed e), d') = rows d' ≡ rows d

  -- MySQL counts the rows that an UPDATE changed, other databases those that it matched: what
  -- both have is that no match gives 0, and that 0 means that nothing changed.
  abbrev pub Updated : (R → Bool) → (R → R) → Db → Result DbError ℕ × Db → Type 0
  Updated p f d (ok n, d') =
      (rows d' ≡ map (assign p f) (rows d))
      × (n ≡ 0 → rows d' ≡ rows d)
      × (any p (rows d) ≡ false → n ≡ 0)
  Updated p f d (err e, d') = rows d' ≡ rows d

  abbrev pub Deleted : (R → Bool) → Db → Result DbError ℕ × Db → Type 0
  Deleted p d (ok n, d') = (rows d' ≡ keep (λ r. not (p r)) (rows d)) × (n ≡ count p (rows d))
  Deleted p d (err e, d') = rows d' ≡ rows d

  abbrev pub Counted : (R → Bool) → Db → Result DbError ℕ × Db → Type 0
  Counted p d (ok n, d') = (rows d' ≡ rows d) × (n ≡ count p (rows d))
  Counted p d (err e, d') = rows d' ≡ rows d

  -- A page of the rows that fit, in an order that MySQL chooses.
  abbrev pub Paged : (R → Bool) → ℕ → ℕ → Db → Result DbError (List R) × Db → Type 0
  Paged p offset limit d (ok rs, d') = (rows d' ≡ rows d) × IsPage p offset limit rs (rows d)
  Paged p offset limit d (err e, d') = rows d' ≡ rows d

  -- All the rows that fit, in an order that MySQL chooses.
  abbrev pub FoundAll : (R → Bool) → Db → Result DbError (List R) × Db → Type 0
  FoundAll p d (ok rs, d') = (rows d' ≡ rows d) × Perm rs (keep p (rows d))
  FoundAll p d (err e, d') = rows d' ≡ rows d

  -- `SELECT key, COUNT(*) … GROUP BY key`.
  abbrev pub Grouped :
      {K : Type 0}
      → (K → K → Bool)
      → (R → K)
      → (R → Bool)
      → Db
      → Result DbError (List (K × ℕ)) × Db
      → Type 0
  Grouped {K} same key p d (ok l, d') =
      (rows d' ≡ rows d)
      × All (λ e. e.1 ≡ count (λ r. p r && same (key r) e.0) (rows d)) l
      × (((k : K) → same k k ≡ true)
          → (r : R) → Found p r (rows d)
          → any (λ e. same (key r) e.0) l ≡ true)
  Grouped same key p d (err e, d') = rows d' ≡ rows d

  -- `SELECT COALESCE(SUM(a), 0), COALESCE(SUM(b), 0)`.
  abbrev pub Summed : (R → ℤ) → (R → ℤ) → (R → Bool) → Db → Result DbError (ℤ × ℤ) × Db → Type 0
  Summed a b p d (ok (m, n), d') =
      (rows d' ≡ rows d) × (m ≡ sum_where a p (rows d)) × (n ≡ sum_where b p (rows d))
  Summed a b p d (err e, d') = rows d' ≡ rows d

  -- What a transaction does: rolled back on an error, and else committed whole. The counter is
  -- the variable that the closure captures; no rollback restores it.
  abbrev pub Transacted :
      {E : Type 0} → (ℕ → Db → ℕ × Option E × Db) → ℕ → Db → ℕ × Option E × Db → Type 0
  Transacted body n d (m, none, d') =
      (d₀ : Db) × (d₁ : Db) × (rows d₀ ≡ rows d) × (body n d₀ ≡ (m, none, d₁)) × (rows d' ≡ rows d₁)
  Transacted body n d (m, some e, d') = rows d' ≡ rows d

pub record Gorm (R : Type 0) : Type 1 where
  pub Db : Type 0
  pub rows : Db → List R
  -- gorm's `NowFunc`, in milliseconds
  pub clock : Db → ℕ
  pub create : (ℕ → R) → Action Db DbError (Unit {0})
  pub create_all : (ℕ → List R) → Action Db DbError (Unit {0})
  pub first : (R → Bool) → Action Db DbError R
  pub find : (R → Bool) → ℕ → ℕ → Action Db DbError (List R)
  pub find_every : (R → Bool) → Action Db DbError (List R)
  pub updates : (R → Bool) → (ℕ → R → R) → Action Db DbError ℕ
  pub delete : (R → Bool) → Action Db DbError ℕ
  pub total : (R → Bool) → Action Db DbError ℕ
  pub group :
      {K : Type 0} → (K → K → Bool) → (R → K) → (R → Bool) → Action Db DbError (List (K × ℕ))
  pub sums : (R → ℤ) → (R → ℤ) → (R → Bool) → Action Db DbError (ℤ × ℤ)
  pub transaction :
      {E : Type 0} → (DbError → E) → (ℕ → Db → ℕ × Option E × Db) → ℕ → Db → ℕ × Option E × Db
  pub create_law : (f : ℕ → R) (d : Db) → Created rows (f (clock d)) d (create f d)
  pub create_all_law : (f : ℕ → List R) (d : Db) → CreatedAll rows (f (clock d)) d (create_all f d)
  pub first_law : (p : R → Bool) (d : Db) → FoundFirst rows p d (first p d)
  pub find_law :
      (p : R → Bool) (offset limit : ℕ) (d : Db)
      → Paged rows p offset limit d (find p offset limit d)
  pub find_every_law : (p : R → Bool) (d : Db) → FoundAll rows p d (find_every p d)
  pub updates_law :
      (p : R → Bool) (f : ℕ → R → R) (d : Db) → Updated rows p (f (clock d)) d (updates p f d)
  pub delete_law : (p : R → Bool) (d : Db) → Deleted rows p d (delete p d)
  pub total_law : (p : R → Bool) (d : Db) → Counted rows p d (total p d)
  pub group_law :
      {K : Type 0} (same : K → K → Bool) (key : R → K) (p : R → Bool) (d : Db)
      → Grouped rows same key p d (group same key p d)
  pub sums_law : (a b : R → ℤ) (p : R → Bool) (d : Db) → Summed rows a b p d (sums a b p d)
  pub transaction_law :
      {E : Type 0} (commit : DbError → E) (body : ℕ → Db → ℕ × Option E × Db) (n : ℕ) (d : Db)
      → Transacted rows body n d (transaction commit body n d)
