-- ===== src/Identity/UserRepo/Ends.antt =====
-- How the operations of the user repository end.
use parkhub_api.Base.{
  ℕ, ◌≡◌, ◌⊎◌, refl, inl, inr, Bool, false, String, List, [], ◌∷◌, ◌++◌, map, Result, ◌>>=◌, catch,
  pure, raise_if, contains, any, Bool-cases, ◌||◌, ◌==◌, arith,
}
use parkhub_api.Base.Ends.{Ends, Ends-bind, Ends-catch_as, Ends-raise_if}
use parkhub_api.Errors.{Error, IsOther, identity, user_not_found, user_already_exists}
use parkhub_api.Gorm.{Gorm, DbError, record_not_found, failed, Found, assign}
use parkhub_api.Gorm.Ends.{first-Ends, create-Ends, updates-Ends, Missing}
use parkhub_api.Identity.User.{User}
use parkhub_api.Identity.UserDao
use parkhub_api.Identity.UserDao.{
  UserRow, has_id, has_username, has_phone, find_error, insert_error, raw_error, set_nonzero, stamp,
}
use parkhub_api.Identity.UserRepo
use parkhub_api.Identity.UserRepo.{to_domain_user, to_user_entity}

-- The user of a row that fits.
abbrev pub StoredAs : (UserRow → Bool) → User → List UserRow → Type 0
StoredAs p u rs = (r : UserRow) × Found p r rs × (u ≡ to_domain_user r)

-- Why no user was found.
abbrev pub NotStored : (UserRow → Bool) → Error → List UserRow → Type 0
NotStored p e rs = ((e ≡ identity user_not_found) × (any p rs ≡ false)) ⊎ IsOther e

Missing-NotStored :
    (p : UserRow → Bool) (e : DbError) (rs : List UserRow)
    → Missing p e rs
    → NotStored p (find_error e) rs
Missing-NotStored p record_not_found rs h = inl (refl, h)
Missing-NotStored p (failed e) rs h = inr (e, refl)

raw_error-IsOther : (e : DbError) → IsOther (raw_error e)
raw_error-IsOther record_not_found = ("record not found", refl)
raw_error-IsOther (failed e) = (e, refl)

insert_error-cases :
    (e : DbError) → (insert_error e ≡ identity user_already_exists) ⊎ IsOther (insert_error e)
unfolding insert_error
insert_error-cases record_not_found = inr ("record not found", refl)
insert_error-cases (failed e) = elim (Bool-cases (contains e "duplicate" || contains e "UNIQUE")) [
  | inl h ↦ inl (rw h refl)
  | inr h ↦ inr (e, rw h refl)
]

module _ (g : Gorm UserRow) where
  open g use {Db, rows, clock}

  -- The three searches.
  abbrev pub Searched : (UserRow → Bool) → Db → Result Error User × Db → Type 0
  Searched p d =
      Ends (λ u d'. (rows d' ≡ rows d) × StoredAs p u (rows d))
        (λ e d'. (rows d' ≡ rows d) × NotStored p e (rows d))

  search-Searched :
      (p : UserRow → Bool) (d : Db)
      → Searched p d ((catch find_error (g.first p) >>= λ r. pure (to_domain_user r)) d)
  search-Searched p d =
      Ends-bind (λ r d'. (rows d' ≡ rows d) × Found p r (rows d)) _ _ (catch find_error (g.first p))
        (λ r. pure (to_domain_user r)) d
        (Ends-catch_as _ (λ e d'. (rows d' ≡ rows d) × NotStored p e (rows d)) _ find_error
          (g.first p) d (first-Ends g p d) (λ e d' h. (h.0, Missing-NotStored p e (rows d) h.1)))
        (λ r d' h. (h.0, (r, h.1, refl)))

  pub get_by_id-Searched :
      (id : String) (d : Db) → Searched (has_id id) d (UserRepo.get_by_id g id d)
  unfolding UserRepo.get_by_id UserDao.find_by_id
  get_by_id-Searched id d = search-Searched (has_id id) d

  pub get_by_username-Searched :
      (username : String) (d : Db)
      → Searched (has_username username) d (UserRepo.get_by_username g username d)
  unfolding UserRepo.get_by_username UserDao.find_by_username
  get_by_username-Searched username d = search-Searched (has_username username) d

  pub get_by_phone-Searched :
      (phone : String) (d : Db) → Searched (has_phone phone) d (UserRepo.get_by_phone g phone d)
  unfolding UserRepo.get_by_phone UserDao.find_by_phone
  get_by_phone-Searched phone d = search-Searched (has_phone phone) d

  -- The rows where a user has been written back.
  abbrev pub written : User → ℕ → List UserRow → List UserRow
  written u now rs = map (assign (has_id u.id) (set_nonzero (to_user_entity u) now)) rs

  abbrev pub NotUpdated : Db → Error → Db → Type 0
  NotUpdated d e d' = (rows d' ≡ rows d) × ((e ≡ identity user_not_found) ⊎ IsOther e)

  abbrev pub Updated : User → Db → Result Error (Unit {0}) × Db → Type 0
  Updated u d = Ends (λ _ d'. rows d' ≡ written u (clock d) (rows d)) (NotUpdated d)

  pub update-Updated : (u : User) (d : Db) → Updated u d (UserRepo.update g u d)
  unfolding UserRepo.update UserDao.update to_user_entity
  update-Updated u d =
      let f = set_nonzero (to_user_entity u) in
      Ends-bind (λ n d'. (rows d' ≡ written u (clock d) (rows d)) × (n ≡ 0 → rows d' ≡ rows d)) _ _
        (catch raw_error (g.updates (has_id u.id) f))
        (λ n. raise_if (n == 0) (identity user_not_found)) d
        (Ends-catch_as _ (NotUpdated d) _ raw_error (g.updates (has_id u.id) f) d
          (updates-Ends g (has_id u.id) f d) (λ e d' h. (h, inr (raw_error-IsOther e))))
        (λ n d' h.
          Ends-raise_if _ _ (n == 0) (identity user_not_found) d'
            (λ z. (h.1 (ground (arith, z)), inl refl)) (λ _. h.0))

  abbrev pub NotInserted : Db → Error → Db → Type 0
  NotInserted d e d' = (rows d' ≡ rows d) × ((e ≡ identity user_already_exists) ⊎ IsOther e)

  abbrev pub Inserted : User → Db → Result Error (Unit {0}) × Db → Type 0
  Inserted u d =
      Ends (λ _ d'. rows d' ≡ rows d ++ stamp (to_user_entity u) (clock d) ∷ []) (NotInserted d)

  pub create-Inserted : (u : User) (d : Db) → Inserted u d (UserRepo.create g u d)
  unfolding UserRepo.create UserDao.insert
  create-Inserted u d =
      Ends-catch_as _ (NotInserted d) _ insert_error (g.create (stamp (to_user_entity u))) d
        (create-Ends g (stamp (to_user_entity u)) d) (λ e d' h. (h, insert_error-cases e))
