-- ===== src/Gorm/Logic.antt =====
-- Reasoning about code over a database: a triple says what an action does to the rows of the
-- table, by how it ends; a loop in a transaction; and the rules for each statement.
use parkhub_api.Base.{
  ℕ, ◌==◌, ◌≡◌, ◌≢◌, arith, refl, sym, ◌∙◌, subst, Bool, true, false, not, ◌&&◌, List, [], ◌∷◌,
  ◌++◌, map, Result, ok, err, Action, raise_if, catch, ◌>>=◌, keep, keep-not_none, any, count, All,
  Bool-cases, inl, inr,
}
use parkhub_api.Base.Int.{ℤ}
use parkhub_api.Gorm.{
  Gorm, DbError, record_not_found, failed, Found, assign, Created, FoundFirst, Updated, Deleted,
  Counted, Paged, Grouped, IsPage, Summed, sum_where,
}

module _ {R : Type 0} where
  -- Each group has its count, and each row that fits has its group.
  abbrev pub CountsGroups :
      {K : Type 0} → (K → K → Bool) → (R → K) → (R → Bool) → List (K × ℕ) → List R → Type 0
  CountsGroups {K} same key p l rs =
      All (λ e. e.1 ≡ count (λ r. p r && same (key r) e.0) rs) l
      × (((k : K) → same k k ≡ true)
          → (r : R) → Found p r rs
          → any (λ e. same (key r) e.0) l ≡ true)

module _ {R : Type 0} (g : Gorm R) where
  open g use {Db, rows, clock}

  module _ {E A : Type 0} where
    abbrev pub Post : (A → List R → Type 0) → (List R → Type 0) → Result E A × Db → Type 0
    Post Q X (ok a, d) = Q a (rows d)
    Post Q X (err e, d) = X (rows d)

    -- From rows with `P`, the action ends with `Q` of its result, or in an error with `X`.
    pub record Triple (P : List R → Type 0) (m : Action Db E A) (Q : A → List R → Type 0)
        (X : List R → Type 0) : Type 0 where
      pub at : (d : Db) → P (rows d) → Post Q X (m d)

    -- The action keeps `P`, whether it returns or fails.
    abbrev pub Keeps : (List R → Type 0) → Action Db E A → Type 0
    Keeps P m = (d : Db) → P (rows d) → P (rows (m d).1)

    pub Post-Keeps : (P : List R → Type 0) (r : Result E A × Db) → Post (λ _. P) P r → P (rows r.1)
    Post-Keeps P (ok a, d) h = h
    Post-Keeps P (err e, d) h = h

    pub Triple-Keeps : (P : List R → Type 0) (m : Action Db E A) → Triple P m (λ _. P) P → Keeps P m
    Triple-Keeps P m t d h = Post-Keeps P (m d) (t.at d h)

    module _ (P X : List R → Type 0) (Q : A → List R → Type 0) where
      pub Triple-lift :
          (r : Result E A)
          → ((a : A) → r ≡ ok a → (rs : List R) → P rs → Q a rs)
          → ((rs : List R) → P rs → X rs)
          → Triple P (λ d. (r, d)) Q X
      Triple-lift (ok a) good bad = record { at = λ d h. good a refl (rows d) h }
      Triple-lift (err e) good bad = record { at = λ d h. bad (rows d) h }

    Post-weaken :
        (Q Q' : A → List R → Type 0) (X X' : List R → Type 0)
        → ((a : A) (rs : List R) → Q a rs → Q' a rs)
        → ((rs : List R) → X rs → X' rs)
        → (r : Result E A × Db) → Post Q X r
        → Post Q' X' r
    Post-weaken Q Q' X X' k l (ok a, d) h = k a (rows d) h
    Post-weaken Q Q' X X' k l (err e, d) h = l (rows d) h

    pub Triple-weaken :
        (P : List R → Type 0) (m : Action Db E A) (Q Q' : A → List R → Type 0)
        (X X' : List R → Type 0)
        → ((a : A) (rs : List R) → Q a rs → Q' a rs)
        → ((rs : List R) → X rs → X' rs)
        → Triple P m Q X
        → Triple P m Q' X'
    Triple-weaken P m Q Q' X X' k l t = record {
      at = λ d h. Post-weaken Q Q' X X' k l (m d) (t.at d h);
    }

  module _ {E A B : Type 0} (P X : List R → Type 0) (Q : A → List R → Type 0)
      (S : B → List R → Type 0) where
    Post-bind :
        (f : A → Action Db E B)
        → ((a : A) → Triple (Q a) (f a) S X)
        → (r : Result E A × Db) → Post {E = E} Q X r
        → Post {E = E} S X (elim r.0 [ ok a ↦ f a r.1 | err e ↦ (err e, r.1) ])
    Post-bind f k (ok a, d) h = (k a).at d h
    Post-bind f k (err e, d) h = h

    pub Triple-bind :
        (m : Action Db E A) (f : A → Action Db E B)
        → Triple P m Q X
        → ((a : A) → Triple (Q a) (f a) S X)
        → Triple P (m >>= f) S X
    Triple-bind m f t k = record { at = λ d h. Post-bind f k (m d) (t.at d h) }

  module _ {E F A : Type 0} (P X : List R → Type 0) (Q : A → List R → Type 0) where
    Post-catch :
        (f : F → E) (r : Result F A × Db)
        → Post Q X r
        → Post {E = E} Q X (elim r.0 [ ok a ↦ (ok a, r.1) | err e ↦ (err (f e), r.1) ])
    Post-catch f (ok a, d) h = h
    Post-catch f (err e, d) h = h

    pub Triple-catch : (f : F → E) (m : Action Db F A) → Triple P m Q X → Triple P (catch f m) Q X
    Triple-catch f m t = record { at = λ d h. Post-catch f (m d) (t.at d h) }

  module _ {E : Type 0} (P : List R → Type 0) where
    pub Triple-raise_if :
        (c : Bool) (e : E) → Triple P (raise_if c e) (λ _ rs. (c ≡ false) × P rs) P
    Triple-raise_if true e = record { at = λ d h. h }
    Triple-raise_if false e = record { at = λ d h. (refl, h) }

  module _ {E : Type 0} (P Q X : List R → Type 0) where
    -- `if c { return err }`
    pub Triple-guard :
        (c : Bool) (e : E)
        → ((rs : List R) → c ≡ true → P rs → X rs)
        → ((rs : List R) → c ≡ false → P rs → Q rs)
        → Triple P (raise_if c e) (λ _. Q) X
    Triple-guard true e bad good = record { at = λ d h. bad (rows d) refl h }
    Triple-guard false e bad good = record { at = λ d h. good (rows d) refl h }

    -- `if affected == 0 { return err }`
    pub Triple-affected :
        (n : ℕ) (e : E)
        → ((rs : List R) → n ≡ 0 → P rs → X rs)
        → ((rs : List R) → n ≢ 0 → P rs → Q rs)
        → Triple P (raise_if (n == 0) e) (λ _. Q) X
    Triple-affected n e bad good =
        Triple-guard (n == 0) e (λ rs z. bad rs (ground arith)) (λ rs z. good rs (ground arith))

  -- The statements.
  module _ (P : List R → Type 0) where
    first_Post :
        (p : R → Bool) (d : Db) (r : Result DbError R × Db)
        → P (rows d)
        → FoundFirst rows p d r
        → Post (λ a rs. P rs × Found p a rs) P r
    first_Post p d (ok a, d') h (same, found) =
        (subst P (sym same) h, subst (Found p a) (sym same) found)
    first_Post p d (err record_not_found, d') h (same, none_fits) = subst P (sym same) h
    first_Post p d (err (failed e), d') h same = subst P (sym same) h

    pub Triple-first : (p : R → Bool) → Triple P (g.first p) (λ a rs. P rs × Found p a rs) P
    Triple-first p = record { at = λ d h. first_Post p d (g.first p d) h (g.first_law p d) }

    create_Post :
        (a : R) (d : Db) (r : Result DbError (Unit {0}) × Db) (Q : List R → Type 0)
        → P (rows d)
        → Q (rows d ++ a ∷ [])
        → Created rows a d r
        → Post (λ _. Q) P r
    create_Post a d (ok _, d') Q h q same = subst Q (sym same) q
    create_Post a d (err e, d') Q h q same = subst P (sym same) h

    pub Triple-create :
        (f : ℕ → R) (Q : List R → Type 0)
        → ((now : ℕ) (rs : List R) → P rs → Q (rs ++ f now ∷ []))
        → Triple P (g.create f) (λ _. Q) P
    Triple-create f Q k = record {
      at = λ d h. create_Post (f (clock d)) d (g.create f d) Q h (k _ _ h) (g.create_law f d);
    }

    updates_Post :
        (p : R → Bool) (f : R → R) (d : Db) (r : Result DbError ℕ × Db) (Q : List R → Type 0)
        → P (rows d)
        → (any p (rows d) ≡ true → Q (map (assign p f) (rows d)))
        → Updated rows p f d r
        → Post (λ n rs. (n ≡ 0 → P rs) × (n ≢ 0 → Q rs)) P r
    updates_Post p f d (ok n, d') Q h k (mapped, same, missing) = (
      (λ z. subst P (sym (same z)) h),
      (λ nz. subst Q (sym mapped) (elim (Bool-cases (any p (rows d))) [
        | inl some_fits ↦ k some_fits
        | inr none_fits ↦ absurd (nz (missing none_fits))
      ])),
    )
    updates_Post p f d (err e, d') Q h k same = subst P (sym same) h

    -- `Q` after an UPDATE that affected a row, `P` after one that did not.
    pub Triple-updates :
        (p : R → Bool) (f : ℕ → R → R) (Q : List R → Type 0)
        → ((now : ℕ) (rs : List R) → P rs → any p rs ≡ true → Q (map (assign p (f now)) rs))
        → Triple P (g.updates p f) (λ n rs. (n ≡ 0 → P rs) × (n ≢ 0 → Q rs)) P
    Triple-updates p f Q k = record {
      at = λ d h.
          updates_Post p (f (clock d)) d (g.updates p f d) Q h (k _ _ h) (g.updates_law p f d);
    }

    delete_Post :
        (p : R → Bool) (d : Db) (r : Result DbError ℕ × Db) (Q : List R → Type 0)
        → P (rows d)
        → Q (keep (λ r. not (p r)) (rows d))
        → Deleted rows p d r
        → Post (λ n rs. (n ≡ 0 → P rs) × Q rs) P r
    delete_Post p d (ok n, d') Q h k (kept, counted) = (
      (λ z. subst P (sym (kept ∙ keep-not_none p (rows d) (sym counted ∙ z))) h),
      subst Q (sym kept) k,
    )
    delete_Post p d (err e, d') Q h k same = subst P (sym same) h

    -- `Q` after a DELETE, and still `P` after one that met no row.
    pub Triple-delete :
        (p : R → Bool) (Q : List R → Type 0)
        → ((rs : List R) → P rs → Q (keep (λ r. not (p r)) rs))
        → Triple P (g.delete p) (λ n rs. (n ≡ 0 → P rs) × Q rs) P
    Triple-delete p Q k = record {
      at = λ d h. delete_Post p d (g.delete p d) Q h (k _ h) (g.delete_law p d);
    }

    total_Post :
        (p : R → Bool) (d : Db) (r : Result DbError ℕ × Db)
        → P (rows d)
        → Counted rows p d r
        → Post (λ n rs. P rs × (n ≡ count p rs)) P r
    total_Post p d (ok n, d') h (same, counted) =
        (subst P (sym same) h, subst (λ rs. n ≡ count p rs) (sym same) counted)
    total_Post p d (err e, d') h same = subst P (sym same) h

    pub Triple-total : (p : R → Bool) → Triple P (g.total p) (λ n rs. P rs × (n ≡ count p rs)) P
    Triple-total p = record { at = λ d h. total_Post p d (g.total p d) h (g.total_law p d) }

    find_Post :
        (p : R → Bool) (offset limit : ℕ) (d : Db) (r : Result DbError (List R) × Db)
        → P (rows d)
        → Paged rows p offset limit d r
        → Post (λ l rs. P rs × IsPage p offset limit l rs) P r
    find_Post p offset limit d (ok l, d') h (same, page) =
        (subst P (sym same) h, subst (IsPage p offset limit l) (sym same) page)
    find_Post p offset limit d (err e, d') h same = subst P (sym same) h

    pub Triple-find :
        (p : R → Bool) (offset limit : ℕ)
        → Triple P (g.find p offset limit) (λ l rs. P rs × IsPage p offset limit l rs) P
    Triple-find p offset limit = record {
      at = λ d h.
          find_Post p offset limit d (g.find p offset limit d) h (g.find_law p offset limit d);
    }

    group_Post :
        {K : Type 0} (same : K → K → Bool) (key : R → K) (p : R → Bool) (d : Db)
        (r : Result DbError (List (K × ℕ)) × Db)
        → P (rows d)
        → Grouped rows same key p d r
        → Post (λ l rs. P rs × CountsGroups same key p l rs) P r
    group_Post same key p d (ok l, d') h (unchanged, counted, covered) = (
      subst P (sym unchanged) h,
      subst (CountsGroups same key p l) (sym unchanged) (counted, covered),
    )
    group_Post same key p d (err e, d') h unchanged = subst P (sym unchanged) h

    pub Triple-group :
        {K : Type 0} (same : K → K → Bool) (key : R → K) (p : R → Bool)
        → Triple P (g.group same key p) (λ l rs. P rs × CountsGroups same key p l rs) P
    Triple-group same key p = record {
      at = λ d h. group_Post same key p d (g.group same key p d) h (g.group_law same key p d);
    }

    sums_Post :
        (a b : R → ℤ) (p : R → Bool) (d : Db) (r : Result DbError (ℤ × ℤ) × Db)
        → P (rows d)
        → Summed rows a b p d r
        → Post (λ s rs. P rs × (s.0 ≡ sum_where a p rs) × (s.1 ≡ sum_where b p rs)) P r
    sums_Post a b p d (ok (m, n), d') h (unchanged, first, second) = (
      subst P (sym unchanged) h,
      subst (λ rs. m ≡ sum_where a p rs) (sym unchanged) first,
      subst (λ rs. n ≡ sum_where b p rs) (sym unchanged) second,
    )
    sums_Post a b p d (err e, d') h unchanged = subst P (sym unchanged) h

    pub Triple-sums :
        (a b : R → ℤ) (p : R → Bool)
        → Triple P
            (g.sums a b p)
            (λ s rs. P rs × (s.0 ≡ sum_where a p rs) × (s.1 ≡ sum_where b p rs))
            P
    Triple-sums a b p = record {
      at = λ d h. sums_Post a b p d (g.sums a b p d) h (g.sums_law a b p d);
    }
