-- ===== src/Identity/AuthService/Login.antt =====
-- The two logins, with every way in which they end.
use parkhub_api.Base.{
  ℕ, In, ◌≡◌, ◌⊎◌, refl, ap, ◌∙◌, subst, inl, inr, Bool, true, false, not, String, List, Action,
  any, catch, raise_if, ◌>>◌, arith, some, sym,
}
use parkhub_api.Base.Ends.{Ends, Ends-bind, Ends-catch_as, Ends-raise_if_then, Ends-weaken}
use parkhub_api.Errors.{Error, IsOther, identity, invalid_credentials}
use parkhub_api.Gorm.{Gorm, Found}
use parkhub_api.Redis.{Redis}
use parkhub_api.Identity.User.{User}
use parkhub_api.Identity.UserDao.{UserRow, has_username}
use parkhub_api.Identity.UserRepo
use parkhub_api.Identity.UserRepo.{to_domain_user}
use parkhub_api.Identity.UserRepo.Timed.{IsTimed, written-IsTimed}
use parkhub_api.Identity.UserRepo.Ends.{StoredAs, NotStored, get_by_username-Searched}
use parkhub_api.Identity.UserService.{is_user_not_found}
use parkhub_api.Identity.RefreshTokens.Live.{add_token}
use parkhub_api.Identity.AuthService.{
  AuthService, State, Moment, LoginRequest, LoginResponse, SmsLoginRequest, on_users,
  credential_error, verifier_error,
}
use parkhub_api.Identity.AuthService.Ends.{
  people, tokens, Ends-on_users, LoggedIn, NotLoggedIn, Frozen, NotIssued, log_in-LoggedIn, Touched,
}
use parkhub_api.Identity.AuthService

-- What becomes of an error of the search.
credential_error-NotStored :
    (p : UserRow → Bool) (e : Error) (rs : List UserRow)
    → NotStored p e rs
    → ((credential_error e ≡ identity invalid_credentials) × (any p rs ≡ false))
      ⊎ IsOther (credential_error e)
unfolding is_user_not_found
credential_error-NotStored p e rs (inl (h, k)) = inl (rw h refl, k)
credential_error-NotStored p e rs (inr (t, h)) = inr (t, rw h refl)

module _ (g : Gorm UserRow) (r : Redis) (W : Type 0) (s : AuthService g r W) where
  abbrev matches : UserRow → String → Bool
  matches row password = s.bcrypt.compare_hash_and_password row.password_hash password

  -- The table of users behind a login: as before, or the row has the time of the login as its last one and
  -- the time of the update, and the rows of other ids are the same.
  abbrev pub MaybeTimed : UserRow → Moment → List UserRow → List UserRow → Type 0
  MaybeTimed row at before after =
      (after ≡ before) ⊎ ((now : ℕ) × IsTimed row at.logged_in now before after)

  Touched-MaybeTimed :
      (row : UserRow) (at : Moment) (before after : List UserRow)
      → In row before
      → Touched g r W s
          (record (to_domain_user row) { last_login_at = some at.logged_in })
          before
          after
      → MaybeTimed row at before after
  Touched-MaybeTimed row at before after m (inl same) = inl same
  Touched-MaybeTimed row at before after m (inr (now, h)) = inr (
    now,
    subst (IsTimed row at.logged_in now before) (sym h)
        (written-IsTimed row at.logged_in now before m),
  )

  -- A login that succeeds was for a stored user with this name and this password, who is active.
  pub record Admitted (req : LoginRequest) (at : Moment) (st : State g r W) (resp : LoginResponse)
      (st' : State g r W) : Type 0 where
    pub row : UserRow
    pub found : Found (has_username req.username) row (people g r W st)
    pub password : matches row req.password ≡ true
    pub logged_in : LoggedIn g r W s (to_domain_user row) at st resp st'
    pub timed : MaybeTimed row at (people g r W st) (people g r W st')

  -- One that fails: an unknown name, a wrong password, a user who is frozen, or an error of a library. The
  -- first two cannot be told apart by the error.
  pub data Why (req : LoginRequest) (at : Moment) (st : State g r W) (e : Error) (st' : State g r W)
      : Type 0 where
    unknown_name :
        any (has_username req.username) (people g r W st) ≡ false
        → e ≡ identity invalid_credentials
        → tokens g r W st' ≡ tokens g r W st
        → Why req at st e st'
    wrong_password :
        (row : UserRow)
        → Found (has_username req.username) row (people g r W st)
        → matches row req.password ≡ false
        → e ≡ identity invalid_credentials
        → tokens g r W st' ≡ tokens g r W st
        → Why req at st e st'
    not_active :
        (row : UserRow)
        → Found (has_username req.username) row (people g r W st)
        → matches row req.password ≡ true
        → Frozen g r W s (to_domain_user row) st e st'
        → Why req at st e st'
    not_issued :
        (row : UserRow)
        → Found (has_username req.username) row (people g r W st)
        → matches row req.password ≡ true
        → NotIssued g r W s (to_domain_user row) at st e st'
        → Why req at st e st'
    not_read : IsOther e → tokens g r W st' ≡ tokens g r W st → Why req at st e st'

  abbrev pub Refused : LoginRequest → Moment → State g r W → Error → State g r W → Type 0
  Refused req at st e st' = (people g r W st' ≡ people g r W st) × Why req at st e st'

  -- A state behind a search, which has moved no row and no token.
  LoggedIn-from :
      (user : User) (at : Moment) (st st₁ : State g r W) (resp : LoginResponse) (st' : State g r W)
      → people g r W st₁ ≡ people g r W st
      → tokens g r W st₁ ≡ tokens g r W st
      → LoggedIn g r W s user at st₁ resp st'
      → LoggedIn g r W s user at st resp st'
  LoggedIn-from user at st st₁ resp st' h k q = record {
    active = q.active;
    answered = q.answered;
    users_kept =
        subst
          (λ l.
            Touched g r W s (record user { last_login_at = some at.logged_in }) l
              (people g r W st'))
          h q.users_kept;
    added = q.added ∙ ap (add_token at.refresh_jti user.id) k;
    signed = q.signed;
    stored = q.stored;
  }

  NotIssued-from :
      (user : User) (at : Moment) (st st₁ : State g r W) (e : Error) (st' : State g r W)
      → people g r W st₁ ≡ people g r W st
      → tokens g r W st₁ ≡ tokens g r W st
      → NotIssued g r W s user at st₁ e st'
      → NotIssued g r W s user at st e st'
  NotIssued-from user at st st₁ e st' h k q = record {
    users_kept = q.users_kept ∙ h;
    is_other = q.is_other;
    stepped = elim q.stepped [
      | inl same ↦ inl (same ∙ k)
      | inr added ↦ inr (added ∙ ap (add_token at.refresh_jti user.id) k)
    ];
  }

  module _ (req : LoginRequest) (at : Moment) (st : State g r W) where
    -- `Login` behind the search.
    abbrev check_password : User → Action (State g r W) Error LoginResponse
    check_password user =
        raise_if (not (s.bcrypt.compare_hash_and_password user.password_hash req.password))
          (identity invalid_credentials)
        >> AuthService.log_in g r W s user at

    log_in-Admitted :
        (row : UserRow) (st₁ : State g r W)
        → people g r W st₁ ≡ people g r W st
        → tokens g r W st₁ ≡ tokens g r W st
        → Found (has_username req.username) row (people g r W st)
        → Ends (Admitted req at st) (Refused req at st) (check_password (to_domain_user row) st₁)
    unfolding to_domain_user
    log_in-Admitted row st₁ h k found =
        let user = to_domain_user row in
        Ends-raise_if_then (Admitted req at st) (Refused req at st) (not (matches row req.password))
          (identity invalid_credentials) (AuthService.log_in g r W s user at) st₁
          (λ bad. (h, wrong_password row found (ground (arith, bad)) refl k))
          (λ good.
            let fits : matches row req.password ≡ true = ground (arith, good) in
            Ends-weaken (LoggedIn g r W s user at st₁) (Admitted req at st)
              (NotLoggedIn g r W s user at st₁) (Refused req at st)
              (λ resp st' q. record {
                row = row;
                found = found;
                password = fits;
                logged_in = LoggedIn-from user at st st₁ resp st' h k q;
                timed =
                    Touched-MaybeTimed row at (people g r W st) (people g r W st') found.stored
                      (LoggedIn-from user at st st₁ resp st' h k q).users_kept;
              })
              (λ e st' q. (
                q.users_kept ∙ h,
                elim q.why [
                  | inl (idle, frozen, same) ↦ not_active row found fits (idle, frozen, same ∙ k)
                  | inr (_, failed) ↦
                      not_issued row found fits (NotIssued-from user at st st₁ e st' h k failed)
                ],
              ))
              (AuthService.log_in g r W s user at st₁) (log_in-LoggedIn g r W s user at st₁))

  -- `Login` in all its branches: it answers with a pair of tokens only for a stored user with this name, whose
  -- hash fits the password and who is active; it then has saved the refresh token, and has written to the
  -- row of this user nothing but the time of the login and that of the update, or nothing at all, and to
  -- the rows of other ids nothing. Else no user is changed; an unknown name and a wrong password give the
  -- same error, a frozen user gets another one only behind the right password, and any other error is a library's.
  pub login_lem :
      (req : LoginRequest) (at : Moment) (st : State g r W)
      → Ends (Admitted req at st) (Refused req at st) (AuthService.login g r W s req at st)
  unfolding AuthService.login
  login_lem req at st =
      let p = has_username req.username in
      let search = UserRepo.get_by_username g req.username in
      Ends-bind
        (λ u st₁.
          (people g r W st₁ ≡ people g r W st)
          × (tokens g r W st₁ ≡ tokens g r W st)
          × StoredAs p u (people g r W st))
        (Admitted req at st) (Refused req at st) (catch credential_error (on_users g r W search))
        (check_password req at st) st
        (Ends-catch_as _ (Refused req at st)
          (λ e st₁.
            (people g r W st₁ ≡ people g r W st)
            × (tokens g r W st₁ ≡ tokens g r W st)
            × NotStored p e (people g r W st))
          credential_error (on_users g r W search) st
          (Ends-on_users g r W _ _ search st (
            Ends-weaken _ _ _ _ (λ u d' h. (h.0, refl, h.1)) (λ e d' h. (h.0, refl, h.1))
              (search st.0.0) (get_by_username-Searched g req.username st.0.0)))
          (λ e st₁ (h, k, q). (
            h,
            elim (credential_error-NotStored p e (people g r W st) q) [
              | inl (invalid, none_fits) ↦ unknown_name none_fits invalid k
              | inr o ↦ not_read o k
            ],
          )))
        (λ u st₁ (h, k, (row, found, same)).
          subst
            (λ v. Ends (Admitted req at st) (Refused req at st) (check_password req at st v st₁))
            (sym same) (log_in-Admitted req at st row st₁ h k found))
