-- ===== src/Identity/AuthService/Session.antt =====
-- A login, and the exchange of the token that it answers with; and a user who is frozen in between.
use parkhub_api.Base.{
  ℕ, ◌+◌, ◌*◌, ◌≡◌, ◌<◌, ◌∙◌, sym, ap, subst, inl, inr, true, some, String, List, ok, All, All-In,
  any, eq_iff, arith,
}
use parkhub_api.Base.Ends.{Ends, Ends-weaken}
use parkhub_api.Errors.{Error, IsOther}
use parkhub_api.Gorm.{Gorm, Found}
use parkhub_api.Redis.{Redis}
use parkhub_api.Identity.User.{User, is_active}
use parkhub_api.Identity.UserDao.{UserRow, has_id}
use parkhub_api.Identity.UserRepo.{to_domain_user}
use parkhub_api.Identity.Token.{Claims, numeric_date}
use parkhub_api.Identity.RefreshTokens.Live.{add_token, drop_token, live-lasts}
use parkhub_api.Identity.AuthService.{
  AuthService, State, Moment, LoginRequest, LoginResponse, RefreshTokenResponse, refresh_claims,
}
use parkhub_api.Identity.AuthService.Ends.{people, tokens}
use parkhub_api.Identity.AuthService.Login.{Admitted, Refused, login_lem}
use parkhub_api.Identity.AuthService.Renew.{Renewed, NotRenewed, WhyNot, renew_lem}
use parkhub_api.Identity.AuthService

module _ (g : Gorm UserRow) (r : Redis) (W : Type 0) (s : AuthService g r W) where
  -- A token has been exchanged: it is spent, one under another id stands for the same owner, and the answer
  -- holds that one, signed for a stored user with the owner's id. No user is changed.
  pub record Exchanged (old_jti : String) (at : Moment) (owner : String) (st : State g r W)
      (resp : RefreshTokenResponse) (st' : State g r W) : Type 0 where
    pub row : UserRow
    pub found : Found (has_id owner) row (people g r W st)
    pub moved :
        tokens g r W st' ≡ add_token at.refresh_jti owner (drop_token old_jti (tokens g r W st))
    pub signed :
        s.signer.sign (refresh_claims g r W s (to_domain_user row) at)
        ≡ ok resp.token_pair.refresh_token
    pub users_kept : people g r W st' ≡ people g r W st

  -- The exchange failed for an error of a library.
  abbrev pub LibraryFailed : State g r W → Error → State g r W → Type 0
  LibraryFailed st e st' = IsOther e × (people g r W st' ≡ people g r W st)

  -- Some milliseconds later in Redis, with the users as they are then.
  abbrev pub later_with : ℕ → g.Db → State g r W → State g r W
  later_with n users st = ((users, r.later n st.0.1), st.1)

  -- Every stored user of this id is active, and there is one.
  abbrev pub IsActiveIn : String → List UserRow → Type 0
  IsActiveIn id rs =
      (any (has_id id) rs ≡ true)
      × All (λ row. has_id id row ≡ true → is_active (to_domain_user row) ≡ true) rs

  alive-IsOther :
      (claims : Claims) (at : Moment) (st : State g r W) (owner : String) (e : Error)
      (st' : State g r W)
      → tokens g r W st claims.id ≡ some owner
      → IsActiveIn claims.subject (people g r W st)
      → WhyNot g r W s claims at st e st'
      → IsOther e
  alive-IsOther claims at st owner e st' h a (WhyNot.not_consumed o k) = o
  alive-IsOther claims at st owner e st' h a (WhyNot.revoked n k q) = ground (arith, h, n)
  alive-IsOther claims at st owner e st' h a (WhyNot.no_subject (inl (k, q)) l) =
      ground (arith, a.0, q)
  alive-IsOther claims at st owner e st' h a (WhyNot.no_subject (inr o) l) = o
  alive-IsOther claims at st owner e st' h a (WhyNot.not_active row f idle k l) =
      let busy : is_active (to_domain_user row) ≡ true =
        All-In (λ x. has_id claims.subject x ≡ true → is_active (to_domain_user x) ≡ true) row
          (people g r W st) a.1 f.stored f.fits in
      ground (arith, busy, idle)
  alive-IsOther claims at st owner e st' h a (WhyNot.not_issued u o l) = o

  Renewed-Exchanged :
      (claims : Claims) (at : Moment) (st : State g r W) (resp : RefreshTokenResponse)
      (st' : State g r W)
      → Renewed g r W s claims at st resp st'
      → Exchanged claims.id at claims.subject st resp st'
  Renewed-Exchanged claims at st resp st' q =
      let own : q.row.id ≡ claims.subject =
        ground (arith, q.found.fits, eq_iff q.row.id claims.subject) in
      record {
        row = q.row;
        found = q.found;
        moved =
            q.moved
            ∙ ap (λ i. add_token at.refresh_jti i (drop_token claims.id (tokens g r W st))) own;
        signed = q.signed;
        users_kept = q.users_kept;
      }

  refreshed :
      (user : User) (at later_at : Moment) (token : String) (st : State g r W)
      → s.signer.sign (refresh_claims g r W s user at) ≡ ok token
      → s.cfg.issuer ≡ s.signer.own_issuer
      → later_at.checked < numeric_date (at.issued + s.refresh_ttl) * 1000
      → tokens g r W st at.refresh_jti ≡ some user.id
      → IsActiveIn user.id (people g r W st)
      → Ends
          (Exchanged at.refresh_jti later_at user.id st)
          (LibraryFailed st)
          (AuthService.refresh_token g r W s (record { refresh_token = token }) later_at st)
  unfolding AuthService.refresh_token
  refreshed user at later_at token st signed issuer early alive active =
      let claims = refresh_claims g r W s user at in
      rw (s.signer.verify_law claims token later_at.checked signed issuer early) (
        Ends-weaken (Renewed g r W s claims later_at st)
          (Exchanged at.refresh_jti later_at user.id st) (NotRenewed g r W s claims later_at st)
          (LibraryFailed st) (Renewed-Exchanged claims later_at st)
          (λ e st₂ q. (alive-IsOther claims later_at st user.id e st₂ alive active q.1, q.0))
          (AuthService.renew g r W s claims later_at st) (renew_lem g r W s claims later_at st))

  -- The token of a login is good: if the signer checks for the issuer that the service is configured with, no
  -- call reaches Redis from the login on, and the token is exchanged before its time is over, by the
  -- clock of the signer and by that of Redis, while its user is stored and active, then the exchange
  -- succeeds or fails for an error of a library. If it succeeds, the token is spent, the answer holds
  -- a new one for the same user, and that one is saved. The table of users may have changed in between.
  pub login-refresh_token :
      (req : LoginRequest) (at later_at : Moment) (st st' : State g r W) (resp : LoginResponse)
      (n : ℕ) (users : g.Db)
      → AuthService.login g r W s req at st ≡ (ok resp, st')
      → s.cfg.issuer ≡ s.signer.own_issuer
      → later_at.checked < numeric_date (at.issued + s.refresh_ttl) * 1000
      → n < s.refresh_ttl
      → IsActiveIn resp.user.id (g.rows users)
      → Ends
          (Exchanged at.refresh_jti later_at resp.user.id (later_with n users st'))
          (LibraryFailed (later_with n users st'))
          (AuthService.refresh_token g r W s
            (record { refresh_token = resp.token_pair.refresh_token })
            later_at
            (later_with n users st'))
  login-refresh_token req at later_at st st' resp n users e issuer early soon active =
      let q : Admitted g r W s req at st resp st' =
        subst (Ends (Admitted g r W s req at st) (Refused g r W s req at st)) e
          (login_lem g r W s req at st) in
      let user = to_domain_user q.row in
      let same : resp.user.id ≡ user.id = ap (λ (u : User). u.id) q.logged_in.answered in
      let later = later_with n users st' in
      let result =
        AuthService.refresh_token g r W s (record { refresh_token = resp.token_pair.refresh_token })
          later_at later in
      subst (λ i. Ends (Exchanged at.refresh_jti later_at i later) (LibraryFailed later) result)
        (sym same)
        (refreshed user at later_at resp.token_pair.refresh_token later q.logged_in.signed issuer
          early
          (live-lasts r n st'.0.1 at.refresh_jti user.id s.refresh_ttl q.logged_in.stored soon)
          (subst (λ i. IsActiveIn i (g.rows users)) same active))
