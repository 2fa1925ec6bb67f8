-- ===== src/Identity/Locked.antt =====
-- A user who has been frozen: the user service writes the status, and the auth service lets nobody in with it.
use parkhub_api.Base.{
  ◌≡◌, ◌∙◌, refl, subst, Bool, true, false, not, String, List, Result, ok, err, str_eq, eq_iff,
  arith, All-In, Bool-cases, if◌then◌else◌, inl, inr,
}
use parkhub_api.Base.Ends.{Ends, Ends-weaken}
use parkhub_api.Errors.{Error, identity, user_invalid_status}
use parkhub_api.Gorm.{Gorm, Found}
use parkhub_api.Redis.{Redis}
use parkhub_api.Identity.User.{User, active, frozen, same_status, freeze, is_active}
use parkhub_api.Identity.UserDao.{UserRow, has_id}
use parkhub_api.Identity.UserRepo.{to_domain_user, to_user_entity}
use parkhub_api.Identity.UserRepo.Ends.{written}
use parkhub_api.Identity.UserService.{Bcrypt}
use parkhub_api.Identity.UserService.Changes.{
  Changed, OfUser, of_others, change_only-Changed, OfUser-written, of_others-written,
}
use parkhub_api.Identity.Token.{Claims}
use parkhub_api.Identity.AuthService.{AuthService, State, Moment, LoginRequest}
use parkhub_api.Identity.AuthService.Login.{Admitted, Refused, login_lem}
use parkhub_api.Identity.AuthService.Renew.{Renewed, NotRenewed, renew_lem}
use parkhub_api.Identity.UserService
use parkhub_api.Identity.AuthService

abbrev IsFrozen : UserRow → Type 0
IsFrozen r = r.status ≡ frozen

frozen_ok :
    (c : Bool) (u v : User)
    → (if not c then err (identity user_invalid_status) else ok (record u { status = frozen }))
      ≡ ok v
    → (v.id ≡ u.id) × (v.status ≡ frozen)
frozen_ok true u v h = ground (arith, h)
frozen_ok false u v h = ground (arith, h)

module _ (g : Gorm UserRow) (b : Bcrypt) where
  open g use {Db, rows}

  written-IsFrozen :
      (id : String) (before after : List UserRow)
      → Changed g id freeze before after
      → OfUser IsFrozen id after × (of_others id after ≡ of_others id before)
  unfolding freeze to_domain_user to_user_entity
  written-IsFrozen id before after q =
      let (kept, status) =
        frozen_ok (same_status q.row.status active) (to_domain_user q.row) q.outcome q.fits in
      let same : q.outcome.id ≡ id = kept ∙ (eq_iff q.row.id id).0 q.found.fits in
      (
        rw q.written_back (
            subst (λ i. OfUser IsFrozen i (written g q.outcome q.now before)) same
              (OfUser-written g IsFrozen q.outcome q.now before (λ r. rw status refl))),
        rw q.written_back (
            subst (λ i. of_others i (written g q.outcome q.now before) ≡ of_others i before) same
              (of_others-written g q.outcome q.now before)),
      )

  -- `FreezeUser`: every row of the user is frozen and the others are as before, or nothing has changed.
  pub freeze_user_lem :
      (id : String) (d : Db)
      → Ends
          (λ _ d'. OfUser IsFrozen id (rows d') × (of_others id (rows d') ≡ of_others id (rows d)))
          (λ _ d'. rows d' ≡ rows d)
          (UserService.freeze_user g b id d)
  unfolding UserService.freeze_user
  freeze_user_lem id d =
      Ends-weaken (λ _ d'. Changed g id freeze (rows d) (rows d')) _ (λ _ d'. rows d' ≡ rows d) _
        (λ _ d' q. written-IsFrozen id (rows d) (rows d') q) (λ _ _ q. q)
        (UserService.change_only g b id freeze d) (change_only-Changed g b id freeze d)

  not_active : (r : UserRow) → IsFrozen r → is_active (to_domain_user r) ≡ true → ⊥
  unfolding is_active to_domain_user
  not_active r h k = ground (arith, h, k)

  shut_out :
      (id : String) (rs : List UserRow) (r : UserRow) (p : UserRow → Bool)
      → OfUser IsFrozen id rs
      → Found p r rs
      → is_active (to_domain_user r) ≡ true
      → str_eq r.id id ≡ false
  shut_out id rs r p h found k = elim (Bool-cases (has_id id r)) [
    | inl e ↦
        absurd
          (not_active r (All-In (λ x. has_id id x ≡ true → IsFrozen x) r rs h found.stored e) k)
    | inr e ↦ e
  ]

  module _ (r : Redis) (W : Type 0) (s : AuthService g r W) where
    -- Nobody is this user: a login that succeeds is another's, and so is a token that is exchanged.
    abbrev pub ShutOut : String → State g r W → Type 0
    ShutOut id st =
        ((req : LoginRequest) (at : Moment)
          → Ends (λ resp _. str_eq resp.user.id id ≡ false) (λ _ _. Unit)
              (AuthService.login g r W s req at st))
        × ((claims : Claims) (at : Moment)
            → Ends (λ _ _. str_eq claims.subject id ≡ false) (λ _ _. Unit)
                (AuthService.renew g r W s claims at st))

    admitted_other :
        (id : String) (st : State g r W) (req : LoginRequest) (at : Moment)
        → OfUser IsFrozen id (rows st.0.0)
        → Ends
            (λ resp _. str_eq resp.user.id id ≡ false)
            (λ _ _. Unit)
            (AuthService.login g r W s req at st)
    unfolding to_domain_user
    admitted_other id st req at h =
        Ends-weaken (Admitted g r W s req at st) _ (Refused g r W s req at st) _
          (λ resp st' q.
            rw q.logged_in.answered
              (shut_out id (rows st.0.0) q.row _ h q.found q.logged_in.active))
          (λ _ _ _. tt) (AuthService.login g r W s req at st) (login_lem g r W s req at st)

    renewed_other :
        (id : String) (st : State g r W) (claims : Claims) (at : Moment)
        → OfUser IsFrozen id (rows st.0.0)
        → Ends
            (λ _ _. str_eq claims.subject id ≡ false)
            (λ _ _. Unit)
            (AuthService.renew g r W s claims at st)
    renewed_other id st claims at h =
        Ends-weaken (Renewed g r W s claims at st) _ (NotRenewed g r W s claims at st) _
          (λ resp st' q.
            subst (λ i. str_eq i id ≡ false) ((eq_iff q.row.id claims.subject).0 q.found.fits)
              (shut_out id (rows st.0.0) q.row _ h q.found q.active))
          (λ _ _ _. tt) (AuthService.renew g r W s claims at st) (renew_lem g r W s claims at st)

    frozen_Ends :
        (id : String) (d d' : Db) (t : r.Store) (w : W) (x : Result Error (Unit {0}) × Db)
        → x ≡ (ok tt, d')
        → Ends
            (λ _ d'.
              OfUser IsFrozen id (rows d') × (of_others id (rows d') ≡ of_others id (rows d)))
            (λ _ d'. rows d' ≡ rows d)
            x
        → ShutOut id ((d', t), w)
    frozen_Ends id d d' t w (err e, d₁) h q = ground (arith, h)
    frozen_Ends id d d' t w (ok _, d₁) h q =
        let all_frozen : OfUser IsFrozen id (rows d') =
          subst (λ x. OfUser IsFrozen id (rows x.1)) h q.0 in
        (
          (λ req at. admitted_other id ((d', t), w) req at all_frozen),
          (λ claims at. renewed_other id ((d', t), w) claims at all_frozen),
        )

    -- Where `FreezeUser` has succeeded, no password gets this user in, and no refresh token that stands for this
    -- user is exchanged.
    pub freeze_user-ShutOut :
        (id : String) (d d' : Db) (t : r.Store) (w : W)
        → UserService.freeze_user g b id d ≡ (ok tt, d')
        → ShutOut id ((d', t), w)
    freeze_user-ShutOut id d d' t w h =
        frozen_Ends id d d' t w (UserService.freeze_user g b id d) h (freeze_user_lem id d)
