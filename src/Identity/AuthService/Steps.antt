-- ===== src/Identity/AuthService/Steps.antt =====
-- What each call of the auth service does to one refresh token.
use parkhub_api.Base.{
  ◌≡◌, ◌⊎◌, refl, ap, ◌∙◌, sym, subst, inl, inr, Bool, true, false, not, Option, none, some,
  is_some, String, Result, ok, err, Action, raise_if, catch, lift, ◌>>=◌, ◌>>◌, pure, str_eq,
  eq_iff, arith,
}
use parkhub_api.Base.Ends.{Ends, Ends-bind, Ends-anyway, Ends-catch_as, Ends-same, Ends-weaken}
use parkhub_api.Errors.{Error, identity, refresh_token_invalid}
use parkhub_api.Gorm.{Gorm}
use parkhub_api.Redis.{Redis}
use parkhub_api.Identity.UserDao.{UserRow}
use parkhub_api.Identity.UserRepo
use parkhub_api.Identity.Token.{Claims, token_use_refresh}
use parkhub_api.Identity.RefreshTokens
use parkhub_api.Identity.RefreshTokens.Live.{Tokens, drop_token, revoke-Refines}
use parkhub_api.Identity.AuthService.{
  AuthService, State, Moment, SmsLoginRequest, LoginResponse, RefreshTokenRequest,
  RefreshTokenResponse, LogoutRequest, on_users, on_tokens, verified, refresh_claims_of,
  credential_error, verifier_error,
}
use parkhub_api.Identity.AuthService.Ends.{
  tokens, Ends-on_users, Ends-on_tokens, NotLoggedIn, LoggedIn, log_in-LoggedIn,
}
use parkhub_api.Identity.AuthService.Renew.{Renewed, NotRenewed, renew_lem}
use parkhub_api.Identity.AuthService.Calls.{
  Request, log_in_with, sms_log_in_with, refresh_with, log_out_with, Fades, Fades-same,
  Fades-add_token, Fades-drop_token, Fades-trans, LeavesTokens, Fading, login-Fading,
  NotLoggedIn-Fading, WhyNot-Fading, perform, exchanged_by, hits,
}
use parkhub_api.Identity.AuthService

module _ (g : Gorm UserRow) (r : Redis) (W : Type 0) (s : AuthService g r W) where
  module _ (token : String) (at : Moment) (st : State g r W) {A : Type 0} where
    use_Ends :
        (R : A → State g r W → Type 0) (X : Error → State g r W → Type 0)
        (f : Claims → Action (State g r W) Error A) (claims : Claims) (b : Bool)
        → Ends R X (f claims st)
        → X (identity refresh_token_invalid) st
        → Ends R X (((raise_if (not b) (identity refresh_token_invalid) >> pure claims) >>= f) st)
    use_Ends R X f claims true good bad = good
    use_Ends R X f claims false good bad = bad

    -- The checks of a refresh token, and what comes behind them.
    checked_Ends :
        (R : A → State g r W → Type 0) (X : Error → State g r W → Type 0)
        (f : Claims → Action (State g r W) Error A) (x : Result String Claims)
        → ((claims : Claims) → x ≡ ok claims → Ends R X (f claims st))
        → X (identity refresh_token_invalid) st
        → Ends R X (
            ((lift (verified x) >>= λ claims.
            raise_if
              (not (str_eq claims.token_use token_use_refresh))
              (identity refresh_token_invalid)
            >> pure claims)
                >>= f)
              st)
    checked_Ends R X f (err e) good bad = bad
    checked_Ends R X f (ok claims) good bad =
        use_Ends R X f claims (str_eq claims.token_use token_use_refresh) (good claims refl) bad

    pub refresh_claims_of-Ends :
        (R : A → State g r W → Type 0) (X : Error → State g r W → Type 0)
        (f : Claims → Action (State g r W) Error A)
        → ((claims : Claims)
            → s.signer.verify at.checked token ≡ ok claims
            → Ends R X (f claims st))
        → X (identity refresh_token_invalid) st
        → Ends R X ((refresh_claims_of g r W s token at >>= f) st)
    refresh_claims_of-Ends R X f = checked_Ends R X f (s.signer.verify at.checked token)

  -- A token has been exchanged: its claims, and what the exchange did.
  abbrev pub Exchanged :
      RefreshTokenRequest → Moment → State g r W → RefreshTokenResponse → State g r W → Type 0
  Exchanged req at st resp st' =
      (claims : Claims) × (s.signer.verify at.checked req.refresh_token ≡ ok claims)
      × Renewed g r W s claims at st resp st'

  pub refresh_token-Exchanged :
      (req : RefreshTokenRequest) (at : Moment) (st : State g r W)
      → Ends
          (Exchanged req at st)
          (λ _ st'. Fading g r W s at st st')
          (AuthService.refresh_token g r W s req at st)
  unfolding AuthService.refresh_token
  refresh_token-Exchanged req at st =
      refresh_claims_of-Ends req.refresh_token at st (Exchanged req at st)
        (λ _ st'. Fading g r W s at st st') (λ claims. AuthService.renew g r W s claims at)
        (λ claims h.
          Ends-weaken (Renewed g r W s claims at st) (Exchanged req at st)
            (NotRenewed g r W s claims at st) (λ _ st'. Fading g r W s at st st')
            (λ resp st' q. (claims, h, q)) (λ e st' q. WhyNot-Fading g r W s claims at st e st' q.1)
            (AuthService.renew g r W s claims at st) (renew_lem g r W s claims at st))
        (Fades-same at.refresh_jti (tokens g r W st) (tokens g r W st) refl)

  -- A token is gone behind a logout.
  abbrev pub GivenBack : LogoutRequest → Moment → State g r W → State g r W → Type 0
  GivenBack req at st st' =
      (claims : Claims) × (s.signer.verify at.checked req.refresh_token ≡ ok claims)
      × (tokens g r W st' ≡ drop_token claims.id (tokens g r W st))

  pub logout-GivenBack :
      (req : LogoutRequest) (at : Moment) (st : State g r W)
      → Ends
          (λ _. GivenBack req at st)
          (λ _ st'. Fading g r W s at st st')
          (AuthService.logout g r W s req at st)
  unfolding AuthService.logout
  logout-GivenBack req at st =
      let jti = at.refresh_jti in
      refresh_claims_of-Ends req.refresh_token at st (λ _. GivenBack req at st)
        (λ _ st'. Fading g r W s at st st')
        (λ claims. on_tokens g r W (RefreshTokens.revoke r claims.id))
        (λ claims h.
          Ends-on_tokens g r W (λ _. GivenBack req at st) (λ _ st'. Fading g r W s at st st')
            (RefreshTokens.revoke r claims.id) st
            (Ends-weaken _ _ _ _ (λ _ t' q. (claims, h, q.1))
              (λ e t' q. elim q.1 [
                | inl same ↦ Fades-same jti _ _ same
                | inr gone ↦ Fades-drop_token jti claims.id _ _ gone
              ])
              (RefreshTokens.revoke r claims.id st.0.1) (revoke-Refines r claims.id st.0.1)))
        (Fades-same jti (tokens g r W st) (tokens g r W st) refl)

  module _ (quiet : LeavesTokens g r W s) where
    -- Behind a state with the same tokens.
    Fading-from :
        (at : Moment) (st st₁ st' : State g r W)
        → tokens g r W st₁ ≡ tokens g r W st
        → Fading g r W s at st₁ st'
        → Fading g r W s at st st'
    Fading-from at st st₁ st' h f = subst (λ l. Fades at.refresh_jti l (tokens g r W st')) h f

    sms_login-Fading :
        (req : SmsLoginRequest) (at : Moment) (st : State g r W)
        → Fading g r W s at st (AuthService.sms_login g r W s req at st).1
    unfolding AuthService.sms_login
    sms_login-Fading req at st =
        let P = Fading g r W s at st in
        let Same : State g r W → Type 0 = λ st₁. tokens g r W st₁ ≡ tokens g r W st in
        let verify = s.verify_code req.phone req.code in
        let search = UserRepo.get_by_phone g req.phone in
        let behind : Action (State g r W) Error LoginResponse =
          catch credential_error (on_users g r W search) >>= λ user.
          AuthService.log_in g r W s user at in
        Ends-same P (AuthService.sms_login g r W s req at st) (
          Ends-bind (λ _. Same) (λ _. P) (λ _. P) (catch verifier_error verify) (λ _. behind) st
            (Ends-catch_as (λ _. Same) (λ _. P) (λ _. Same) verifier_error verify st
              (Ends-anyway Same (verify st) (quiet req.phone req.code st))
              (λ e st₁ h. Fades-same at.refresh_jti _ _ h))
            (λ _ st₁ h.
              Ends-bind (λ _. Same) (λ _. P) (λ _. P)
                (catch credential_error (on_users g r W search))
                (λ user. AuthService.log_in g r W s user at) st₁
                (Ends-catch_as (λ _. Same) (λ _. P) (λ _. Same) credential_error
                  (on_users g r W search) st₁
                  (Ends-on_users g r W (λ _. Same) (λ _. Same) search st₁
                    (Ends-anyway (λ _. tokens g r W st₁ ≡ tokens g r W st) (search st₁.0.0) h))
                  (λ e st₂ k. Fades-same at.refresh_jti _ _ k))
                (λ user st₂ k.
                  Ends-weaken (LoggedIn g r W s user at st₂) (λ _. P)
                    (NotLoggedIn g r W s user at st₂) (λ _. P)
                    (λ resp st' q.
                      Fading-from at st st₂ st' k (Fades-add_token _ user.id _ _ q.added))
                    (λ e st' q.
                      Fading-from at st st₂ st' k (NotLoggedIn-Fading g r W s user at st₂ e st' q))
                    (AuthService.log_in g r W s user at st₂)
                    (log_in-LoggedIn g r W s user at st₂))))

    module _ (j : String) where
      -- One call: an exchange of `j` needs it alive and ends it, and nothing revives it.
      abbrev pub Step : Tokens → Option String → Tokens → Type 0
      Step l x l' =
          (hits j x ≡ true → (is_some (l j) ≡ true) × (l' j ≡ none))
          × ((l' j ≡ l j) ⊎ (l' j ≡ none))

      missed_Step :
          (at : Moment) (st st' : State g r W)
          → str_eq j at.refresh_jti ≡ false
          → Fading g r W s at st st'
          → Step (tokens g r W st) none (tokens g r W st')
      missed_Step at st st' fresh f = ((λ e. ground (arith, e)), f j fresh)

      failed_Step :
          (at : Moment) (st st' : State g r W) (v : Result String Claims) (e : Error)
          → str_eq j at.refresh_jti ≡ false
          → Fading g r W s at st st'
          → Step (tokens g r W st) (exchanged_by g r W s v (err e)) (tokens g r W st')
      failed_Step at st st' (ok claims) e fresh f = missed_Step at st st' fresh f
      failed_Step at st st' (err t) e fresh f = missed_Step at st st' fresh f

      renew-Step :
          (claims : Claims) (at : Moment) (st : State g r W) (resp : RefreshTokenResponse)
          (st' : State g r W)
          → str_eq j at.refresh_jti ≡ false
          → Renewed g r W s claims at st resp st'
          → Step (tokens g r W st) (some claims.id) (tokens g r W st')
      renew-Step claims at st resp st' fresh q =
          let spent = drop_token claims.id (tokens g r W st) in
          let after = ap (λ l. l j) q.moved ∙ rw fresh refl in
          (
            (λ e.
                let same = (eq_iff claims.id j).0 e in
                (
                  subst (λ i. is_some (tokens g r W st i) ≡ true) same q.alive,
                  after
                      ∙ ap (λ i. drop_token i (tokens g r W st) j) same
                      ∙ rw ((eq_iff j j).1 refl) refl,
                )),
            (Fades-trans at.refresh_jti (tokens g r W st) spent (tokens g r W st')
                (Fades-drop_token at.refresh_jti claims.id (tokens g r W st) spent refl)
                (Fades-add_token at.refresh_jti q.row.id spent (tokens g r W st') q.moved) j fresh),
          )

      refreshed_Step :
          (req : RefreshTokenRequest) (at : Moment) (st : State g r W)
          (x : Result Error RefreshTokenResponse × State g r W)
          → str_eq j at.refresh_jti ≡ false
          → Ends (Exchanged req at st) (λ _ st'. Fading g r W s at st st') x
          → Step
              (tokens g r W st)
              (exchanged_by g r W s (s.signer.verify at.checked req.refresh_token) x.0)
              (tokens g r W x.1)
      refreshed_Step req at st (ok resp, st') fresh (claims, good, q) =
          subst (λ v. Step (tokens g r W st) (exchanged_by g r W s v (ok resp)) (tokens g r W st'))
            (sym good) (renew-Step claims at st resp st' fresh q)
      refreshed_Step req at st (err e, st') fresh q =
          failed_Step at st st' (s.signer.verify at.checked req.refresh_token) e fresh q

      pub perform-Step :
          (req : Request) (at : Moment) (st : State g r W)
          → str_eq j at.refresh_jti ≡ false
          → Step
              (tokens g r W st)
              (perform g r W s req at st).0
              (tokens g r W (perform g r W s req at st).1)
      unfolding perform
      perform-Step (log_in_with req) at st fresh =
          missed_Step at st (AuthService.login g r W s req at st).1 fresh
            (login-Fading g r W s req at st)
      perform-Step (sms_log_in_with req) at st fresh =
          missed_Step at st (AuthService.sms_login g r W s req at st).1 fresh
            (sms_login-Fading req at st)
      perform-Step (refresh_with req) at st fresh =
          refreshed_Step req at st _ fresh (refresh_token-Exchanged req at st)
      perform-Step (log_out_with req) at st fresh =
          missed_Step at st (AuthService.logout g r W s req at st).1 fresh (
            Ends-same (Fading g r W s at st) (AuthService.logout g r W s req at st) (
              Ends-weaken (λ _. GivenBack req at st) (λ _. Fading g r W s at st)
                (λ _. Fading g r W s at st) (λ _. Fading g r W s at st)
                (λ _ st' q. Fades-drop_token at.refresh_jti q.0.id _ _ q.2) (λ _ _ q. q)
                (AuthService.logout g r W s req at st) (logout-GivenBack req at st)))
