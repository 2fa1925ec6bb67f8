-- ===== src/Identity/UserService/Import.antt =====
-- An import: what it counts, and what it adds.
use mathlib.Core.List.{append_assoc, append-nil}
use parkhub_api.Base.{
  ℕ, suc, ◌+◌, ◌≡◌, refl, ap, subst, ◌∙◌, sym, String, List, [], ◌∷◌, ◌++◌, length, Result, ok, err,
  arith,
}
use parkhub_api.Base.Ends.{Ends}
use parkhub_api.Errors.{Error}
use parkhub_api.Gorm.{Gorm}
use parkhub_api.Identity.User.{User}
use parkhub_api.Identity.UserDao.{UserRow, stamp}
use parkhub_api.Identity.UserRepo.{to_user_entity}
use parkhub_api.Identity.UserService.{
  Bcrypt, CreateUserRequest, ImportResult, ImportError, count_import,
}
use parkhub_api.Identity.UserService.Creation.{
  DistinctNames, Created, NotCreated, create_lem, Created-DistinctNames,
}
use parkhub_api.Identity.UserService

length_add : (xs : List ImportError) (e : ImportError) → length (xs ++ e ∷ []) ≡ suc (length xs)
length_add [] e = refl
length_add (x ∷ xs) e = ap suc (length_add xs e)

length-++ : (xs ys : List UserRow) → length (xs ++ ys) ≡ length xs + length ys
length-++ [] ys = omega arith
length-++ (x ∷ xs) ys = omega (arith, length-++ xs ys)

module _ (g : Gorm UserRow) (b : Bcrypt) where
  open g use {Db, rows}

  abbrev Item : Type 0
  Item = CreateUserRequest × ℕ × String

  -- From one count to the next, over `n` items: what is counted is what has been added to the table.
  pub record Imports (n : ℕ) (result : ImportResult) (before : List UserRow)
      (result' : ImportResult) (after : List UserRow) : Type 0 where
    pub total : result'.total ≡ result.total
    pub all_counted : result'.success + result'.failed ≡ n + result.success + result.failed
    pub errors_counted :
        length result'.errors + result.failed ≡ length result.errors + result'.failed
    pub new_rows : List UserRow
    pub added : after ≡ before ++ new_rows
    pub added_counted : length new_rows + result.success ≡ result'.success
    pub distinct : DistinctNames before → DistinctNames after

  one :
      (item : CreateUserRequest) (i : ℕ) (d : Db) (result : ImportResult)
      (x : Result Error User × Db)
      → Ends (λ user d'. Created g b item (rows d) user (rows d')) (NotCreated g b d) x
      → Imports 1 result (rows d) (count_import g b i x.0 result) (rows x.1)
  one item i d result (ok user, d') q = record {
    total = refl;
    all_counted = omega arith;
    errors_counted = refl;
    new_rows = stamp (to_user_entity user) q.now ∷ [];
    added = q.added;
    added_counted = omega arith;
    distinct = λ h. Created-DistinctNames g b item (rows d) user (rows d') q h;
  }
  one item i d result (err e, d') q =
      let error : ImportError = record { index = i; message = e } in
      record {
        total = refl;
        all_counted = omega arith;
        errors_counted = omega (arith, length_add result.errors error);
        new_rows = [];
        added = q ∙ sym (append-nil (rows d));
        added_counted = omega arith;
        distinct = λ h. subst DistinctNames (sym q) h;
      }

  none_left :
      (result : ImportResult) (before : List UserRow) → Imports 0 result before result before
  none_left result before = record {
    total = refl;
    all_counted = omega arith;
    errors_counted = refl;
    new_rows = [];
    added = sym (append-nil before);
    added_counted = omega arith;
    distinct = λ h. h;
  }

  then :
      (n : ℕ) (a b' c : ImportResult) (rs ss ts : List UserRow)
      → Imports 1 a rs b' ss
      → Imports n b' ss c ts
      → Imports (suc n) a rs c ts
  then n a b' c rs ss ts p q = record {
    total = q.total ∙ p.total;
    all_counted = omega (arith, p.all_counted, q.all_counted);
    errors_counted = omega (arith, p.errors_counted, q.errors_counted);
    new_rows = p.new_rows ++ q.new_rows;
    added = q.added ∙ ap (λ l. l ++ q.new_rows) p.added ∙ append_assoc rs p.new_rows q.new_rows;
    added_counted =
        omega (arith, length-++ p.new_rows q.new_rows, p.added_counted, q.added_counted);
    distinct = λ h. q.distinct (p.distinct h);
  }

  rounds :
      (items : List Item) (i : ℕ) (result : ImportResult) (d : Db)
      → Imports
          (length items)
          result
          (rows d)
          (UserService.import_from g b i items result d).0
          (rows (UserService.import_from g b i items result d).1)
  unfolding UserService.import_from
  rounds [] i result d = none_left result (rows d)
  rounds ((item, salt, uuid) ∷ items) i result d =
      let x = UserService.create g b item salt uuid d in
      then (length items) result (count_import g b i x.0 result)
        (UserService.import_from g b (suc i) items (count_import g b i x.0 result) x.1).0 (rows d)
        (rows x.1)
        (rows (UserService.import_from g b (suc i) items (count_import g b i x.0 result) x.1).1)
        (one item i d result x (create_lem g b item salt uuid d))
        (rounds items (suc i) (count_import g b i x.0 result) x.1)

  -- What an import answers with, and the rows behind it.
  pub record AllAccounted (items : List Item) (before : List UserRow) (result : ImportResult)
      (after : List UserRow) : Type 0 where
    pub of_total : result.total ≡ length items
    pub of_items : result.success + result.failed ≡ length items
    pub of_errors : length result.errors ≡ result.failed
    pub new_rows : List UserRow
    pub added : after ≡ before ++ new_rows
    pub of_new_rows : length new_rows ≡ result.success
    pub distinct : DistinctNames before → DistinctNames after

  -- `ImportUsers` accounts for every item: the successes and the failures add up to the total, there is an error
  -- for each failure, and the table has grown at its end by as many rows as there are successes. Names
  -- that were distinct stay so.
  pub import_users-AllAccounted :
      (items : List Item) (d : Db)
      → AllAccounted items
          (rows d)
          (UserService.import_users g b items d).0
          (rows (UserService.import_users g b items d).1)
  unfolding UserService.import_users
  import_users-AllAccounted items d =
      let q =
        rounds items 0 (record { total = length items; success = 0; failed = 0; errors = [] }) d in
      record {
        of_total = q.total;
        of_items = omega (arith, q.all_counted);
        of_errors = omega (arith, q.errors_counted);
        new_rows = q.new_rows;
        added = q.added;
        of_new_rows = omega (arith, q.added_counted);
        distinct = q.distinct;
      }
