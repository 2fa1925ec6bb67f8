-- ===== src/Gorm/Ends.antt =====
-- How each statement ends, from one state of the database.
use parkhub_api.Base.{
  ℕ, ◌≡◌, Bool, false, List, [], ◌∷◌, ◌++◌, map, Result, ok, err, any, keep, not, count,
}
use parkhub_api.Base.Ends.{Ends}
use parkhub_api.Gorm.{
  Gorm, DbError, record_not_found, failed, Found, assign, Created, FoundFirst, Updated, Deleted,
}

module _ {R : Type 0} where
  -- Why no row was found.
  abbrev pub Missing : (R → Bool) → DbError → List R → Type 0
  Missing p record_not_found rs = any p rs ≡ false
  Missing p (failed e) rs = Unit

module _ {R : Type 0} (g : Gorm R) where
  open g use {Db, rows, clock}

  first_law-Ends :
      (p : R → Bool) (d : Db) (x : Result DbError R × Db)
      → FoundFirst rows p d x
      → Ends
          (λ r d'. (rows d' ≡ rows d) × Found p r (rows d))
          (λ e d'. (rows d' ≡ rows d) × Missing p e (rows d))
          x
  first_law-Ends p d (ok r, d') h = h
  first_law-Ends p d (err record_not_found, d') h = h
  first_law-Ends p d (err (failed e), d') h = (h, tt)

  pub first-Ends :
      (p : R → Bool) (d : Db)
      → Ends
          (λ r d'. (rows d' ≡ rows d) × Found p r (rows d))
          (λ e d'. (rows d' ≡ rows d) × Missing p e (rows d))
          (g.first p d)
  first-Ends p d = first_law-Ends p d (g.first p d) (g.first_law p d)

  create_law-Ends :
      (r : R) (d : Db) (x : Result DbError (Unit {0}) × Db)
      → Created rows r d x
      → Ends (λ _ d'. rows d' ≡ rows d ++ r ∷ []) (λ _ d'. rows d' ≡ rows d) x
  create_law-Ends r d (ok _, d') h = h
  create_law-Ends r d (err e, d') h = h

  pub create-Ends :
      (f : ℕ → R) (d : Db)
      → Ends
          (λ _ d'. rows d' ≡ rows d ++ f (clock d) ∷ [])
          (λ _ d'. rows d' ≡ rows d)
          (g.create f d)
  create-Ends f d = create_law-Ends (f (clock d)) d (g.create f d) (g.create_law f d)

  updates_law-Ends :
      (p : R → Bool) (f : R → R) (d : Db) (x : Result DbError ℕ × Db)
      → Updated rows p f d x
      → Ends
          (λ n d'. (rows d' ≡ map (assign p f) (rows d)) × (n ≡ 0 → rows d' ≡ rows d))
          (λ _ d'. rows d' ≡ rows d)
          x
  updates_law-Ends p f d (ok n, d') (mapped, same, missing) = (mapped, same)
  updates_law-Ends p f d (err e, d') h = h

  pub updates-Ends :
      (p : R → Bool) (f : ℕ → R → R) (d : Db)
      → Ends
          (λ n d'. (rows d' ≡ map (assign p (f (clock d))) (rows d)) × (n ≡ 0 → rows d' ≡ rows d))
          (λ _ d'. rows d' ≡ rows d)
          (g.updates p f d)
  updates-Ends p f d = updates_law-Ends p (f (clock d)) d (g.updates p f d) (g.updates_law p f d)

  delete_law-Ends :
      (p : R → Bool) (d : Db) (x : Result DbError ℕ × Db)
      → Deleted rows p d x
      → Ends
          (λ n d'. (rows d' ≡ keep (λ r. not (p r)) (rows d)) × (n ≡ count p (rows d)))
          (λ _ d'. rows d' ≡ rows d)
          x
  delete_law-Ends p d (ok n, d') h = h
  delete_law-Ends p d (err e, d') h = h

  pub delete-Ends :
      (p : R → Bool) (d : Db)
      → Ends
          (λ n d'. (rows d' ≡ keep (λ r. not (p r)) (rows d)) × (n ≡ count p (rows d)))
          (λ _ d'. rows d' ≡ rows d)
          (g.delete p d)
  delete-Ends p d = delete_law-Ends p d (g.delete p d) (g.delete_law p d)
