-- ===== src/Identity/UserService/Passwords.antt =====
-- New passwords: by an administrator, and by the user who knows the old one.
use Prim.Native.String.{len}
use parkhub_api.Base.{
  ℕ, ◌≡◌, ◌≤◌, refl, ap, ◌∙◌, sym, subst, Bool, true, false, not, String, List, Result, ok, err,
  eq_iff, arith, ltb, if◌then◌else◌,
}
use parkhub_api.Base.Ends.{Ends, Ends-raise_if_then, Ends-weaken}
use parkhub_api.Errors.{Error, identity, password_too_short, password_incorrect}
use parkhub_api.Gorm.{Gorm, Found}
use parkhub_api.Identity.User.{User}
use parkhub_api.Identity.UserDao.{UserRow, has_id, set_nonzero}
use parkhub_api.Identity.UserRepo.{to_domain_user, to_user_entity}
use parkhub_api.Identity.UserRepo.Ends.{written}
use parkhub_api.Identity.UserService.{
  Bcrypt, ResetPasswordRequest, ChangePasswordRequest, library, set_hash, new_hash, replace_hash,
}
use parkhub_api.Identity.UserService.Changes.{
  Changed, OfUser, of_others, change_only-Changed, OfUser-written, of_others-written,
}
use parkhub_api.Identity.UserService

module _ (g : Gorm UserRow) (b : Bcrypt) where
  open g use {Db, rows}

  abbrev pub Fits : String → UserRow → Type 0
  Fits password r = b.compare_hash_and_password r.password_hash password ≡ true

  -- The password has been set: it has eight bytes, every row of the user takes it, and the others are as before.
  pub record PasswordSet (id password : String) (before after : List UserRow) : Type 0 where
    pub long : 8 ≤ len password
    pub taken : OfUser (Fits password) id after
    pub others : of_others id after ≡ of_others id before

  ok_eq : (x : Result Error User) (a c : User) → x ≡ ok a → x ≡ ok c → a ≡ c
  ok_eq (ok u) a c h k = ground (arith, h, k)
  ok_eq (err e) a c h k = ground (arith, h)

  set_hash-ok :
      (salt : ℕ) (password : String) (x : Result String String) (u v : User)
      → b.generate_from_password salt password ≡ x
      → set_hash g b (library x) u ≡ ok v
      → (v.id ≡ u.id)
        × ((r : UserRow) (now : ℕ) → Fits password (set_nonzero (to_user_entity v) now r))
  unfolding to_user_entity
  set_hash-ok salt password (err e) u v h k = ground (arith, k)
  set_hash-ok salt password (ok hash) u v h k =
      let good = b.compare_law salt password hash h in
      let same : record u { password_hash = hash } ≡ v =
        ok_eq (ok (record u { password_hash = hash })) (record u { password_hash = hash }) v refl
          k in
      (
        ap (λ (w : User). w.id) (sym same),
        λ r now.
            subst (λ (w : User). Fits password (set_nonzero (to_user_entity w) now r)) same
              (rw good.1 good.0),
      )

  fits_id : (id : String) (r : UserRow) → has_id id r ≡ true → (to_domain_user r).id ≡ id
  unfolding to_domain_user
  fits_id id r h = (eq_iff r.id id).0 h

  set-PasswordSet :
      (salt : ℕ) (id password : String) (f : User → Result Error User) (before after : List UserRow)
      → 8 ≤ len password
      → ((u v : User) → f u ≡ ok v → set_hash g b (new_hash g b salt password) u ≡ ok v)
      → Changed g id f before after
      → PasswordSet id password before after
  set-PasswordSet salt id password f before after long sets q =
      let set =
        set_hash-ok salt password (b.generate_from_password salt password) (to_domain_user q.row)
          q.outcome refl (sets (to_domain_user q.row) q.outcome q.fits) in
      let same : q.outcome.id ≡ id = set.0 ∙ fits_id id q.row q.found.fits in
      record {
        long = long;
        taken = rw q.written_back (
            subst (λ i. OfUser (Fits password) i (written g q.outcome q.now before)) same
              (OfUser-written g (Fits password) q.outcome q.now before (λ r. set.1 r q.now)));
        others = rw q.written_back (
            subst (λ i. of_others i (written g q.outcome q.now before) ≡ of_others i before) same
              (of_others-written g q.outcome q.now before));
      }

  -- `ResetPassword`: the new password is taken from then on, or nothing has changed.
  pub reset_password_lem :
      (req : ResetPasswordRequest) (salt : ℕ) (d : Db)
      → Ends
          (λ _ d'. PasswordSet req.user_id req.new_password (rows d) (rows d'))
          (λ _ d'. rows d' ≡ rows d)
          (UserService.reset_password g b req salt d)
  unfolding UserService.reset_password
  reset_password_lem req salt d =
      let f = set_hash g b (new_hash g b salt req.new_password) in
      let Q : Unit {0} → Db → Type 0 =
        λ _ d'. PasswordSet req.user_id req.new_password (rows d) (rows d') in
      let X : Error → Db → Type 0 = λ _ d'. rows d' ≡ rows d in
      Ends-raise_if_then Q X (ltb (len req.new_password) 8) (identity password_too_short)
        (UserService.change_only g b req.user_id f) d (λ _. refl)
        (λ long.
          Ends-weaken (λ _ d'. Changed g req.user_id f (rows d) (rows d')) Q X X
            (λ _ d' q.
              set-PasswordSet salt req.user_id req.new_password f (rows d) (rows d')
                (ground (arith, long)) (λ u v h. h) q)
            (λ _ _ q. q) (UserService.change_only g b req.user_id f d)
            (change_only-Changed g b req.user_id f d))

  -- A stored row of this user takes the old password.
  abbrev pub Knows : ChangePasswordRequest → String → List UserRow → Type 0
  Knows req id before = (row : UserRow) × Found (has_id id) row before × Fits req.old_password row

  replaced :
      (c : Bool) (x : Result Error User) (v : User)
      → (if not c then err (identity password_incorrect) else x) ≡ ok v
      → (c ≡ true) × (x ≡ ok v)
  replaced true x v h = (refl, h)
  replaced false x v h = ground (arith, h)

  replace_hash-ok :
      (req : ChangePasswordRequest) (salt : ℕ) (u v : User)
      → replace_hash g b req salt u ≡ ok v
      → (b.compare_hash_and_password u.password_hash req.old_password ≡ true)
        × (set_hash g b (new_hash g b salt req.new_password) u ≡ ok v)
  replace_hash-ok req salt u v h =
      replaced (b.compare_hash_and_password u.password_hash req.old_password)
        (set_hash g b (new_hash g b salt req.new_password) u) v h

  -- `ChangePassword`: where it succeeds, the user had the old password and has the new one; else nothing
  -- has changed.
  pub change_password_lem :
      (id : String) (req : ChangePasswordRequest) (salt : ℕ) (d : Db)
      → Ends
          (λ _ d'. Knows req id (rows d) × PasswordSet id req.new_password (rows d) (rows d'))
          (λ _ d'. rows d' ≡ rows d)
          (UserService.change_password g b id req salt d)
  unfolding UserService.change_password to_domain_user
  change_password_lem id req salt d =
      let f = replace_hash g b req salt in
      let Q : Unit {0} → Db → Type 0 =
        λ _ d'. Knows req id (rows d) × PasswordSet id req.new_password (rows d) (rows d') in
      let X : Error → Db → Type 0 = λ _ d'. rows d' ≡ rows d in
      Ends-raise_if_then Q X (ltb (len req.new_password) 8) (identity password_too_short)
        (UserService.change_only g b id f) d (λ _. refl)
        (λ long.
          Ends-weaken (λ _ d'. Changed g id f (rows d) (rows d')) Q X X
            (λ _ d' q. (
              (
                q.row,
                q.found,
                (replace_hash-ok req salt (to_domain_user q.row) q.outcome q.fits).0,
              ),
              set-PasswordSet salt id req.new_password f (rows d) (rows d') (ground (arith, long))
                  (λ u v h. (replace_hash-ok req salt u v h).1) q,
            ))
            (λ _ _ q. q) (UserService.change_only g b id f d) (change_only-Changed g b id f d))
