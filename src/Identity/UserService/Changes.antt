-- ===== src/Identity/UserService/Changes.antt =====
-- The methods that change one user: what is read, what is written back, and what of the table stays.
use parkhub_api.Base.{
  ℕ, ◌≡◌, refl, ap, ◌∙◌, sym, subst, inl, inr, true, not, String, List, [], ◌∷◌, map, Result, ok,
  Action, lift, ◌>>=◌, str_eq, eq_iff, Bool-cases, arith, keep, keep-map, All,
}
use parkhub_api.Base.Ends.{Ends, Ends-bind, Ends-lift_then, Ends-weaken}
use parkhub_api.Errors.{Error}
use parkhub_api.Gorm.{Gorm, Found, assign}
use parkhub_api.Identity.User.{User}
use parkhub_api.Identity.UserDao.{UserRow, has_id, set_nonzero, text_or}
use parkhub_api.Identity.UserRepo
use parkhub_api.Identity.UserRepo.{to_domain_user, to_user_entity}
use parkhub_api.Identity.UserRepo.Ends.{StoredAs, written, get_by_id-Searched, update-Updated}
use parkhub_api.Identity.UserService.{Bcrypt}
use parkhub_api.Identity.UserService

-- The rows of other users.
abbrev pub of_others : String → List UserRow → List UserRow
of_others id rs = keep (λ r. not (has_id id r)) rs

-- `P` of every row of this user.
abbrev pub OfUser : (UserRow → Type 0) → String → List UserRow → Type 0
OfUser P id rs = All (λ r. has_id id r ≡ true → P r) rs

module _ (g : Gorm UserRow) where
  open g use {Db, rows, clock}

  -- A user with this id was stored, the change of it went well, and the outcome was written back.
  pub record Changed (id : String) (f : User → Result Error User) (before after : List UserRow)
      : Type 0 where
    pub row : UserRow
    pub found : Found (has_id id) row before
    pub outcome : User
    pub fits : f (to_domain_user row) ≡ ok outcome
    pub now : ℕ
    pub written_back : after ≡ written g outcome now before

  abbrev Unchanged : Db → Error → Db → Type 0
  Unchanged d e d' = rows d' ≡ rows d

  module _ (b : Bcrypt) (id : String) (f : User → Result Error User) (d : Db) where
    write_back-Changed :
        (row : UserRow) (d₁ : Db)
        → rows d₁ ≡ rows d
        → Found (has_id id) row (rows d)
        → Ends
            (λ _ d'. Changed id f (rows d) (rows d'))
            (Unchanged d)
            ((lift (f (to_domain_user row)) >>= UserRepo.update g) d₁)
    write_back-Changed row d₁ h found =
        let Q : Unit {0} → Db → Type 0 = λ _ d'. Changed id f (rows d) (rows d') in
        Ends-lift_then Q (Unchanged d) (f (to_domain_user row)) (UserRepo.update g) d₁
          (λ u fits.
            Ends-weaken _ Q _ (Unchanged d)
              (λ _ d' q. record {
                row = row;
                found = found;
                outcome = u;
                fits = fits;
                now = clock d₁;
                written_back = q ∙ ap (written g u (clock d₁)) h;
              })
              (λ e d' q. q.0 ∙ h) (UserRepo.update g u d₁) (update-Updated g u d₁))
          (λ e _. h)

    pub change_only-Changed :
        Ends
          (λ _ d'. Changed id f (rows d) (rows d'))
          (Unchanged d)
          (UserService.change_only g b id f d)
    unfolding UserService.change_only
    change_only-Changed =
        let Q : Unit {0} → Db → Type 0 = λ _ d'. Changed id f (rows d) (rows d') in
        let rest : User → Action Db Error (Unit {0}) = λ u. lift (f u) >>= UserRepo.update g in
        Ends-bind (λ u d₁. (rows d₁ ≡ rows d) × StoredAs (has_id id) u (rows d)) Q (Unchanged d)
          (UserRepo.get_by_id g id) rest d
          (Ends-weaken _ (λ u d₁. (rows d₁ ≡ rows d) × StoredAs (has_id id) u (rows d)) _
            (Unchanged d) (λ _ _ q. q) (λ _ _ q. q.0) (UserRepo.get_by_id g id d)
            (get_by_id-Searched g id d))
          (λ u d₁ (h, (row, found, same)).
            subst (λ v. Ends Q (Unchanged d) (rest v d₁)) (sym same)
              (write_back-Changed row d₁ h found))

  -- What is written back is what every row of this user holds from then on, and no other row is touched.
  OfUser-assign :
      (P : UserRow → Type 0) (id : String) (h : UserRow → UserRow) (rs : List UserRow)
      → ((r : UserRow) → has_id id r ≡ true → P (h r))
      → OfUser P id (map (assign (has_id id) h) rs)
  OfUser-assign P id h [] k = tt
  OfUser-assign P id h (r ∷ rs) k = elim (Bool-cases (has_id id r)) [
    | inl e ↦ rw e ((λ _. k r e), OfUser-assign P id h rs k)
    | inr e ↦ rw e ((λ q. ground (arith, e, q)), OfUser-assign P id h rs k)
  ]

  pub OfUser-written :
      (P : UserRow → Type 0) (u : User) (now : ℕ) (rs : List UserRow)
      → ((r : UserRow) → P (set_nonzero (to_user_entity u) now r))
      → OfUser P u.id (written g u now rs)
  OfUser-written P u now rs k =
      OfUser-assign P u.id (set_nonzero (to_user_entity u) now) rs (λ r _. k r)

  text_or-same : (s t : String) → str_eq t s ≡ true → str_eq (text_or s t) s ≡ true
  text_or-same s t h = elim (Bool-cases (str_eq s "")) [
    | inl e ↦ rw e h
    | inr e ↦ rw e ((eq_iff s s).1 refl)
  ]

  pub of_others-written :
      (u : User) (now : ℕ) (rs : List UserRow)
      → of_others u.id (written g u now rs) ≡ of_others u.id rs
  unfolding to_user_entity
  of_others-written u now rs =
      keep-map (λ r. not (has_id u.id r))
        (assign (has_id u.id) (set_nonzero (to_user_entity u) now)) rs (λ r h. ground (arith, h))
        (λ r h.
          let fits : has_id u.id r ≡ true = ground (arith, h) in
          rw fits (rw (text_or-same u.id r.id fits) refl))
