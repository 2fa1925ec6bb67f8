-- ===== src/Identity/UserService/Creation.antt =====
-- New users: one by one, and by an import.
use Prim.Native.String.{len}
use parkhub_api.Base.{
  ℕ, ◌≡◌, ◌≤◌, refl, ap, ◌∙◌, sym, inl, inr, true, false, String, List, [], ◌∷◌, ◌++◌, Result, ok,
  err, Action, lift, raise_if, ◌>>=◌, ◌>>◌, pure, eq_iff, Bool-cases, arith, any, ltb,
}
use parkhub_api.Base.Ends.{Ends, Ends-bind, Ends-lift_then, Ends-raise_if_then, Ends-weaken}
use parkhub_api.Errors.{Error, IsOther, identity, password_too_short, invalid_role}
use parkhub_api.Gorm.{Gorm}
use parkhub_api.Identity.User.{User, same_role, other_role, new_user}
use parkhub_api.Identity.UserDao.{UserRow, has_username, stamp}
use parkhub_api.Identity.UserRepo
use parkhub_api.Identity.UserRepo.{to_user_entity}
use parkhub_api.Identity.UserRepo.Ends.{
  StoredAs, NotStored, get_by_username-Searched, create-Inserted,
}
use parkhub_api.Identity.UserService.{
  Bcrypt, CreateUserRequest, ImportResult, ImportError, library, is_user_not_found, username_taken,
  created_user, search_username, count_import,
}
use parkhub_api.Identity.UserService

-- No two rows have the same username.
abbrev pub DistinctNames : List UserRow → Type 0
DistinctNames [] = Unit
DistinctNames (r ∷ rs) = (any (has_username r.username) rs ≡ false) × DistinctNames rs

names-apart :
    (r x : UserRow) → has_username x.username r ≡ false → has_username r.username x ≡ false
names-apart r x h = elim (Bool-cases (has_username r.username x)) [
  | inl e ↦
      let same = (eq_iff r.username x.username).1 (sym ((eq_iff x.username r.username).0 e)) in
      ground (arith, same, h)
  | inr e ↦ e
]

any-add :
    (r x : UserRow) (rs : List UserRow)
    → any (has_username r.username) rs ≡ false
    → has_username r.username x ≡ false
    → any (has_username r.username) (rs ++ x ∷ []) ≡ false
any-add r x [] h k = ground (arith, k)
any-add r x (y ∷ rs) h k = ground (arith, any-add r x rs, h, k)

DistinctNames-add :
    (x : UserRow) (rs : List UserRow)
    → DistinctNames rs
    → any (has_username x.username) rs ≡ false
    → DistinctNames (rs ++ x ∷ [])
DistinctNames-add x [] h k = (refl, tt)
DistinctNames-add x (r ∷ rs) h k = (
  any-add r x rs h.0 (names-apart r x (ground (arith, k))),
  DistinctNames-add x rs h.1 (ground (arith, k)),
)

taken_error : (e : Error) → username_taken (err e) ≡ ok tt → is_user_not_found e ≡ true
taken_error e h = ground (arith, h)

other_known : (e : Error) → IsOther e → is_user_not_found e ≡ false
unfolding is_user_not_found
other_known e (t, h) = rw h refl

module _ (g : Gorm UserRow) (b : Bcrypt) where
  open g use {Db, rows, clock}

  -- A user has been added: the request is in order, the name was free, and one row is new.
  pub record Created (req : CreateUserRequest) (before : List UserRow) (user : User)
      (after : List UserRow) : Type 0 where
    pub long : 8 ≤ len req.password
    pub role_given : same_role req.role (other_role "") ≡ false
    pub free : any (has_username req.username) before ≡ false
    pub answered : user.username ≡ req.username
    pub password : b.compare_hash_and_password user.password_hash req.password ≡ true
    pub now : ℕ
    pub added : after ≡ before ++ stamp (to_user_entity user) now ∷ []

  module _ (req : CreateUserRequest) (salt : ℕ) (uuid : String) (d : Db) where
    abbrev Q : User → Db → Type 0
    Q user d' = Created req (rows d) user (rows d')

    abbrev X : Error → Db → Type 0
    X _ d' = rows d' ≡ rows d

    -- `Create` behind the new hash, behind the search, and from the search on.
    abbrev insert_user : String → Action Db Error User
    insert_user hash =
        UserRepo.create g (created_user req hash uuid) >> pure (created_user req hash uuid)

    abbrev with_hash : Result Error User → Action Db Error User
    with_hash found =
        lift (username_taken found)
        >> (lift (library (b.generate_from_password salt req.password)) >>= insert_user)

    insert_user-Created :
        (hash : String) (d₁ : Db)
        → 8 ≤ len req.password
        → same_role req.role (other_role "") ≡ false
        → any (has_username req.username) (rows d) ≡ false
        → rows d₁ ≡ rows d
        → b.generate_from_password salt req.password ≡ ok hash
        → Ends Q X (insert_user hash d₁)
    unfolding new_user
    insert_user-Created hash d₁ long role free h made =
        let user = created_user req hash uuid in
        Ends-bind (λ _ d'. rows d' ≡ rows d ++ stamp (to_user_entity user) (clock d₁) ∷ []) Q X
          (UserRepo.create g user) (λ _. pure user) d₁
          (Ends-weaken _ (λ _ d'. rows d' ≡ rows d ++ stamp (to_user_entity user) (clock d₁) ∷ []) _
            X (λ _ d' q. q ∙ ap (λ l. l ++ stamp (to_user_entity user) (clock d₁) ∷ []) h)
            (λ e d' q. q.0 ∙ h) (UserRepo.create g user d₁) (create-Inserted g user d₁))
          (λ _ d' q. record {
            long = long;
            role_given = role;
            free = free;
            answered = refl;
            password = (b.compare_law salt req.password hash made).0;
            now = clock d₁;
            added = q;
          })

    library_ok : (x : Result String String) (a : String) → library x ≡ ok a → x ≡ ok a
    library_ok (ok c) a h = ground (arith, h)
    library_ok (err e) a h = ground (arith, h)

    with_hash-Created :
        (found : Result Error User) (d₁ : Db)
        → 8 ≤ len req.password
        → same_role req.role (other_role "") ≡ false
        → (username_taken found ≡ ok tt → any (has_username req.username) (rows d) ≡ false)
        → rows d₁ ≡ rows d
        → Ends Q X (with_hash found d₁)
    with_hash-Created found d₁ long role free h =
        let made = b.generate_from_password salt req.password in
        Ends-lift_then Q X (username_taken found) (λ _. lift (library made) >>= insert_user) d₁
          (λ _ taken.
            Ends-lift_then Q X (library made) insert_user d₁
              (λ hash k.
                insert_user-Created hash d₁ long role (free taken) h (library_ok made hash k))
              (λ e _. h))
          (λ e _. h)

    -- The search, whose error is looked at.
    searched-Created :
        (x : Result Error User × Db)
        → 8 ≤ len req.password
        → same_role req.role (other_role "") ≡ false
        → Ends
            (λ u d'. (rows d' ≡ rows d) × StoredAs (has_username req.username) u (rows d))
            (λ e d'. (rows d' ≡ rows d) × NotStored (has_username req.username) e (rows d))
            x
        → Ends Q X (with_hash x.0 x.1)
    searched-Created (ok u, d₁) long role q =
        with_hash-Created (ok u) d₁ long role (λ h. ground (arith, h)) q.0
    searched-Created (err e, d₁) long role (h, inl (_, free)) =
        with_hash-Created (err e) d₁ long role (λ _. free) h
    searched-Created (err e, d₁) long role (h, inr o) =
        with_hash-Created (err e) d₁ long role
          (λ k. ground (arith, taken_error e k, other_known e o)) h

  abbrev pub NotCreated : Db → Error → Db → Type 0
  NotCreated d e d' = rows d' ≡ rows d

  -- `Create`: it adds one user, with a name that was free and with the password of the request, or changes nothing.
  pub create_lem :
      (req : CreateUserRequest) (salt : ℕ) (uuid : String) (d : Db)
      → Ends
          (λ user d'. Created req (rows d) user (rows d'))
          (NotCreated d)
          (UserService.create g b req salt uuid d)
  unfolding UserService.create
  create_lem req salt uuid d =
      let found = UserRepo.get_by_username g req.username d in
      let from_search : Action Db Error User =
        search_username g b req.username >>= with_hash req salt uuid d in
      let role_missing = same_role req.role (other_role "") in
      Ends-raise_if_then (Q req salt uuid d) (NotCreated d) (ltb (len req.password) 8)
        (identity password_too_short) (raise_if role_missing (identity invalid_role) >> from_search)
        d (λ _. refl)
        (λ long.
          Ends-raise_if_then (Q req salt uuid d) (NotCreated d) role_missing (identity invalid_role)
            from_search d (λ _. refl)
            (λ role.
              searched-Created req salt uuid d found (ground (arith, long)) role
                (get_by_username-Searched g req.username d)))

  pub Created-DistinctNames :
      (req : CreateUserRequest) (before : List UserRow) (user : User) (after : List UserRow)
      → Created req before user after
      → DistinctNames before
      → DistinctNames after
  unfolding to_user_entity
  Created-DistinctNames req before user after q h =
      let row = stamp (to_user_entity user) q.now in
      rw q.added (DistinctNames-add row before h (rw q.answered q.free))
