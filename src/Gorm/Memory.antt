-- ===== src/Gorm/Memory.antt =====
-- A database in memory, to run the model on concrete inputs and to show that the laws of `Gorm`
-- can be met: a list of rows and a clock. A row that clashes with a stored one is refused.
use mathlib.Core.List.Perm
use parkhub_api.Base.{
  ℕ, zero, suc, ◌-◌, ◌≡◌, refl, ap, ◌∙◌, subst, Bool, true, false, not, ◌&&◌, Option, none, some,
  List, [], ◌∷◌, ◌++◌, map, min, Result, ok, err, length, keep, count, any, All, All-weaken, inl,
  inr, arith, if◌then◌else◌, Bool-cases,
}
use parkhub_api.Gorm.{
  Gorm, sum_where, DbError, record_not_found, failed, Found, assign, Created, CreatedAll,
  FoundFirst, Transacted,
}

pub record Table (R : Type 0) : Type 0 where
  pub content : List R
  pub time : ℕ

module _ {A : Type 0} where
  abbrev pub take : ℕ → List A → List A
  take zero xs = []
  take (suc n) [] = []
  take (suc n) (x ∷ xs) = x ∷ take n xs

  abbrev pub drop : ℕ → List A → List A
  drop zero xs = xs
  drop (suc n) [] = []
  drop (suc n) (x ∷ xs) = drop n xs

  pub length-take : (n : ℕ) (xs : List A) → length (take n xs) ≡ min n (length xs)
  length-take zero xs = omega arith
  length-take (suc n) [] = omega arith
  length-take (suc n) (x ∷ xs) = omega (arith, length-take n xs)

  pub length-drop : (n : ℕ) (xs : List A) → length (drop n xs) ≡ length xs - n
  length-drop zero xs = omega arith
  length-drop (suc n) [] = omega arith
  length-drop (suc n) (x ∷ xs) = omega (arith, length-drop n xs)

  pub All-take : (P : A → Type 0) (n : ℕ) (xs : List A) → All P xs → All P (take n xs)
  All-take P zero xs h = tt
  All-take P (suc n) [] h = tt
  All-take P (suc n) (x ∷ xs) h = (h.0, All-take P n xs h.1)

  pub All-drop : (P : A → Type 0) (n : ℕ) (xs : List A) → All P xs → All P (drop n xs)
  All-drop P zero xs h = h
  All-drop P (suc n) [] h = tt
  All-drop P (suc n) (x ∷ xs) h = All-drop P n xs h.1

  pub length-keep : (p : A → Bool) (xs : List A) → length (keep p xs) ≡ count p xs
  length-keep p [] = refl
  length-keep p (x ∷ xs) = ground (arith, length-keep p xs)

  there : (p : A → Bool) (y a : A) (xs : List A) → Found p a xs → Found p a (y ∷ xs)
  there p y a xs f = record { stored = inr f.stored; fits = f.fits }

  -- `GROUP BY`: a group for each row that fits, so a group may stand more than once.
  abbrev pub groups_of :
      {K : Type 0} → (K → K → Bool) → (A → K) → (A → Bool) → List A → List A → List (K × ℕ)
  groups_of same key p all [] = []
  groups_of same key p all (x ∷ xs) =
      let rest = groups_of same key p all xs in
      if p x then (key x, count (λ y. p y && same (key y) (key x)) all) ∷ rest else rest

  abbrev pub groups : {K : Type 0} → (K → K → Bool) → (A → K) → (A → Bool) → List A → List (K × ℕ)
  groups same key p xs = groups_of same key p xs xs

  pub groups_counted :
      {K : Type 0} (same : K → K → Bool) (key : A → K) (p : A → Bool) (all xs : List A)
      → All (λ e. e.1 ≡ count (λ y. p y && same (key y) e.0) all) (groups_of same key p all xs)
  groups_counted same key p all [] = tt
  groups_counted same key p all (x ∷ xs) = elim (Bool-cases (p x)) [
    | inl h ↦ rw h (refl, groups_counted same key p all xs)
    | inr h ↦ rw h (groups_counted same key p all xs)
  ]

  pub groups_any :
      {K : Type 0} (same : K → K → Bool) (key : A → K) (p : A → Bool)
      → ((k : K) → same k k ≡ true)
      → (r : A) (all xs : List A) → Found p r xs
      → any (λ e. same (key r) e.0) (groups_of same key p all xs) ≡ true
  groups_any same key p again r all [] f = absurd f.stored
  groups_any same key p again r all (x ∷ xs) f = elim f.stored [
    | inl e ↦ rw (← e, f.fits, again (key r))
    | inr m ↦
        grind (arith, groups_any same key p again r all xs (record { stored = m; fits = f.fits }))
  ]

  pub keep-Found : (p : A → Bool) (xs : List A) → All (λ a. Found p a xs) (keep p xs)
  keep-Found p [] = tt
  keep-Found p (x ∷ xs) =
      let rest =
        All-weaken _ (λ a. Found p a (x ∷ xs)) (keep p xs) (λ a. there p x a xs)
          (keep-Found p xs) in
      elim (Bool-cases (p x)) [
        | inl h ↦ rw h (record { stored = inl refl; fits = h }, rest)
        | inr h ↦ rw h rest
      ]

  pub assign_none :
      (p : A → Bool) (f : A → A) (xs : List A) → count p xs ≡ 0 → map (assign p f) xs ≡ xs
  assign_none p f [] h = refl
  assign_none p f (x ∷ xs) h = ground (arith, assign_none p f xs)

  pub count_none : (p : A → Bool) (xs : List A) → any p xs ≡ false → count p xs ≡ 0
  count_none p [] h = refl
  count_none p (x ∷ xs) h = ground (arith, count_none p xs)

module _ {R : Type 0} where
  abbrev pub first_row : (R → Bool) → List R → Result DbError R
  first_row p [] = err record_not_found
  first_row p (r ∷ rs) = if p r then ok r else first_row p rs

  abbrev pub FirstOf : (R → Bool) → List R → Result DbError R → Type 0
  FirstOf p rs (ok r) = Found p r rs
  FirstOf p rs (err record_not_found) = any p rs ≡ false
  FirstOf p rs (err (failed e)) = ⊥

  FirstOf-cons :
      (p : R → Bool) (y : R) (rs : List R) (q : Result DbError R)
      → p y ≡ false
      → FirstOf p rs q
      → FirstOf p (y ∷ rs) q
  FirstOf-cons p y rs (ok r) h f = there p y r rs f
  FirstOf-cons p y rs (err record_not_found) h f = ground arith
  FirstOf-cons p y rs (err (failed e)) h f = absurd f

  pub first_row_lem : (p : R → Bool) (rs : List R) → FirstOf p rs (first_row p rs)
  first_row_lem p [] = refl
  first_row_lem p (r ∷ rs) = elim (Bool-cases (p r)) [
    | inl h ↦ rw h (record { stored = inl refl; fits = h })
    | inr h ↦
        subst (FirstOf p (r ∷ rs)) (rw h)
          (FirstOf-cons p r rs (first_row p rs) h (first_row_lem p rs))
  ]

  pub FoundFirst-of_FirstOf :
      (p : R → Bool) (d : Table R) (q : Result DbError R)
      → FirstOf p d.content q
      → FoundFirst (λ (t : Table R). t.content) p d (q, d)
  FoundFirst-of_FirstOf p d (ok r) f = (refl, f)
  FoundFirst-of_FirstOf p d (err record_not_found) f = (refl, f)
  FoundFirst-of_FirstOf p d (err (failed e)) f = absurd f

  abbrev pub end_transaction :
      {E : Type 0} → Table R → ℕ × Option E × Table R → ℕ × Option E × Table R
  end_transaction d (m, none, d') = (m, none, d')
  end_transaction d (m, some e, d') = (m, some e, d)

  pub end_transaction_lem :
      {E : Type 0} (body : ℕ → Table R → ℕ × Option E × Table R) (n : ℕ) (d : Table R)
      (r : ℕ × Option E × Table R)
      → body n d ≡ r
      → Transacted (λ (t : Table R). t.content) body n d (end_transaction d r)
  end_transaction_lem body n d (m, none, d') h = (d, d', refl, h, refl)
  end_transaction_lem body n d (m, some e, d') h = refl

module _ {R : Type 0} (clash : R → R → Bool) where
  abbrev pub insert_row : R → Table R → Result DbError (Unit {0}) × Table R
  insert_row r d =
      if any (clash r) d.content
      then (err (failed "Error 1062 (23000): Duplicate entry"), d)
      else (ok tt, record d { content = d.content ++ r ∷ [] })

  pub insert_row_lem :
      (r : R) (d : Table R) → Created (λ (t : Table R). t.content) r d (insert_row r d)
  insert_row_lem r d = elim (Bool-cases (any (clash r) d.content)) [
    | inl h ↦ rw h refl
    | inr h ↦ rw h refl
  ]

  abbrev pub insert_rows : List R → Table R → Result DbError (Unit {0}) × Table R
  insert_rows l d =
      if any (λ r. any (clash r) d.content) l
      then (err (failed "UNIQUE constraint failed"), d)
      else (ok tt, record d { content = d.content ++ l })

  pub insert_rows_lem :
      (l : List R) (d : Table R) → CreatedAll (λ (t : Table R). t.content) l d (insert_rows l d)
  insert_rows_lem l d = elim (Bool-cases (any (λ r. any (clash r) d.content) l)) [
    | inl h ↦ rw h refl
    | inr h ↦ rw h refl
  ]

  abbrev pub memory : Gorm R
  memory = record {
    Db = Table R;
    rows = λ d. d.content;
    clock = λ d. d.time;
    create = λ f d. insert_row (f d.time) d;
    create_all = λ f d. insert_rows (f d.time) d;
    first = λ p d. (first_row p d.content, d);
    find = λ p offset limit d. (ok (take limit (drop offset (keep p d.content))), d);
    find_every = λ p d. (ok (keep p d.content), d);
    updates = λ p f d.
        (ok (count p d.content), record d { content = map (assign p (f d.time)) d.content });
    delete =
        λ p d. (ok (count p d.content), record d { content = keep (λ r. not (p r)) d.content });
    total = λ p d. (ok (count p d.content), d);
    group = λ same key p d. (ok (groups same key p d.content), d);
    sums = λ a b p d. (ok (sum_where a p d.content, sum_where b p d.content), d);
    transaction = λ commit body n d. end_transaction d (body n d);
    create_law = λ f d. insert_row_lem (f d.time) d;
    create_all_law = λ f d. insert_rows_lem (f d.time) d;
    first_law =
        λ p d. FoundFirst-of_FirstOf p d (first_row p d.content) (first_row_lem p d.content);
    find_law = λ p offset limit d. (
      refl,
      record {
        listed = All-take _ limit _ (All-drop _ offset _ (keep-Found p d.content));
        size =
            length-take limit _
            ∙ ap (min limit) (length-drop offset _ ∙ ap (λ k. k - offset) (length-keep p _));
      },
    );
    find_every_law = λ p d. (refl, Perm.refl (keep p d.content));
    updates_law = λ p f d.
        (refl, (λ z. assign_none p (f d.time) d.content z), (λ h. count_none p d.content h));
    delete_law = λ p d. (refl, refl);
    total_law = λ p d. (refl, refl);
    group_law = λ same key p d. (
      refl,
      groups_counted same key p d.content d.content,
      λ again r found. groups_any same key p again r d.content d.content found,
    );
    sums_law = λ a b p d. (refl, refl, refl);
    transaction_law = λ commit body n d. end_transaction_lem body n d (body n d) refl;
  }
