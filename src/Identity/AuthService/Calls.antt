-- ===== src/Identity/AuthService/Calls.antt =====
-- Sequences of calls of the auth service, with the time that passes between them, and the refresh tokens that
-- they exchange.
use parkhub_api.Base.{
  ℕ, ◌+◌, ◌≡◌, ◌⊎◌, refl, ap, ◌∙◌, inl, inr, Bool, false, Option, none, some, String, List, [], ◌∷◌,
  Result, ok, str_eq, Bool-cases, if◌then◌else◌,
}
use parkhub_api.Base.Ends.{Ends-same, Ends-weaken}
use parkhub_api.Errors.{Error}
use parkhub_api.Gorm.{Gorm}
use parkhub_api.Redis.{Redis}
use parkhub_api.Identity.UserDao.{UserRow}
use parkhub_api.Identity.User.{User}
use parkhub_api.Identity.Token.{Claims}
use parkhub_api.Identity.RefreshTokens.Live.{Tokens, add_token, drop_token}
use parkhub_api.Identity.AuthService.{
  AuthService, State, Moment, LoginRequest, SmsLoginRequest, LoginResponse, RefreshTokenRequest,
  RefreshTokenResponse, LogoutRequest, on_users, on_tokens, verified, refresh_claims_of,
  credential_error, verifier_error,
}
use parkhub_api.Identity.AuthService.Ends.{tokens, NotLoggedIn}
use parkhub_api.Identity.AuthService.Login.{Admitted, Refused, Why, login_lem}
use parkhub_api.Identity.AuthService.Renew.{WhyNot}
use parkhub_api.Identity.AuthService

-- The four methods.
pub data Request : Type 0 where
  log_in_with : LoginRequest → Request
  sms_log_in_with : SmsLoginRequest → Request
  refresh_with : RefreshTokenRequest → Request
  log_out_with : LogoutRequest → Request

-- Tokens end, and only the one with this id may begin.
abbrev pub Fades : String → Tokens → Tokens → Type 0
Fades jti l l' = (j : String) → str_eq j jti ≡ false → (l' j ≡ l j) ⊎ (l' j ≡ none)

-- Whether it is the token `j` that has been exchanged.
abbrev pub hits : String → Option String → Bool
hits j none = false
hits j (some i) = str_eq i j

module _ (jti : String) where
  pub Fades-same : (l l' : Tokens) → l' ≡ l → Fades jti l l'
  Fades-same l l' h j k = inl (ap (λ m. m j) h)

  pub Fades-add_token :
      (user_id : String) (l l' : Tokens) → l' ≡ add_token jti user_id l → Fades jti l l'
  Fades-add_token user_id l l' h j k = inl (ap (λ m. m j) h ∙ rw k refl)

  pub Fades-drop_token : (i : String) (l l' : Tokens) → l' ≡ drop_token i l → Fades jti l l'
  Fades-drop_token i l l' h j k = elim (Bool-cases (str_eq j i)) [
    | inl e ↦ inr (ap (λ m. m j) h ∙ rw e refl)
    | inr e ↦ inl (ap (λ m. m j) h ∙ rw e refl)
  ]

  pub Fades-trans : (l m n : Tokens) → Fades jti l m → Fades jti m n → Fades jti l n
  Fades-trans l m n f k j h = elim (k j h) [
    | inr e ↦ inr e
    | inl e ↦ elim (f j h) [ inl q ↦ inl (e ∙ q) | inr q ↦ inr (e ∙ q) ]
  ]

module _ (g : Gorm UserRow) (r : Redis) (W : Type 0) (s : AuthService g r W) where
  -- The verifier of SMS codes does not touch the refresh tokens.
  abbrev pub LeavesTokens : Type 0
  LeavesTokens =
      (phone code : String) (st : State g r W)
      → tokens g r W (s.verify_code phone code st).1 ≡ tokens g r W st

  abbrev pub exchanged_by : Result String Claims → Result Error RefreshTokenResponse → Option String
  exchanged_by (ok claims) (ok resp) = some claims.id
  exchanged_by _ _ = none

  -- A call, and the id of the refresh token that it has exchanged, if any.
  unfoldable pub perform : Request → Moment → State g r W → Option String × State g r W
  perform (log_in_with req) at st = (none, (AuthService.login g r W s req at st).1)
  perform (sms_log_in_with req) at st = (none, (AuthService.sms_login g r W s req at st).1)
  perform (refresh_with req) at st =
      let (res, st') = AuthService.refresh_token g r W s req at st in
      (exchanged_by (s.signer.verify at.checked req.refresh_token) res, st')
  perform (log_out_with req) at st = (none, (AuthService.logout g r W s req at st).1)

  -- Redis some milliseconds later.
  abbrev pub wait : ℕ → State g r W → State g r W
  wait n st = ((st.0.0, r.later n st.0.1), st.1)

  -- How often the token `j` is exchanged in the calls, each made some milliseconds behind the one before.
  unfoldable pub exchanges : String → List (ℕ × Request × Moment) → State g r W → ℕ
  exchanges j [] st = 0
  exchanges j ((n, req, at) ∷ calls) st =
      let (x, st') = perform req at (wait n st) in
      (if hits j x then 1 else 0) + exchanges j calls st'

  -- A pair that is made adds one token.
  Fades-stepped :
      (jti user_id : String) (l l' : Tokens)
      → (l' ≡ l) ⊎ (l' ≡ add_token jti user_id l)
      → Fades jti l l'
  Fades-stepped jti user_id l l' (inl h) = Fades-same jti l l' h
  Fades-stepped jti user_id l l' (inr h) = Fades-add_token jti user_id l l' h

  abbrev pub Fading : Moment → State g r W → State g r W → Type 0
  Fading at st st' = Fades at.refresh_jti (tokens g r W st) (tokens g r W st')

  Why-Fading :
      (req : LoginRequest) (at : Moment) (st : State g r W) (e : Error) (st' : State g r W)
      → Why g r W s req at st e st'
      → Fading at st st'
  Why-Fading req at st e st' (Why.unknown_name h k q) = Fades-same _ _ _ q
  Why-Fading req at st e st' (Why.wrong_password row f h k q) = Fades-same _ _ _ q
  Why-Fading req at st e st' (Why.not_active row f h q) = Fades-same _ _ _ q.2
  Why-Fading req at st e st' (Why.not_issued row f h q) = Fades-stepped _ _ _ _ q.stepped
  Why-Fading req at st e st' (Why.not_read h q) = Fades-same _ _ _ q

  pub login-Fading :
      (req : LoginRequest) (at : Moment) (st : State g r W)
      → Fading at st (AuthService.login g r W s req at st).1
  login-Fading req at st =
      let res = AuthService.login g r W s req at st in
      Ends-same (Fading at st) res (
        Ends-weaken (Admitted g r W s req at st) (λ _. Fading at st) (Refused g r W s req at st)
          (λ _. Fading at st) (λ resp st' q. Fades-add_token _ _ _ _ q.logged_in.added)
          (λ e st' q. Why-Fading req at st e st' q.1) res (login_lem g r W s req at st))

  pub NotLoggedIn-Fading :
      (user : User) (at : Moment) (st : State g r W) (e : Error) (st' : State g r W)
      → NotLoggedIn g r W s user at st e st'
      → Fading at st st'
  NotLoggedIn-Fading user at st e st' q = elim q.why [
    | inl h ↦ Fades-same _ _ _ h.2
    | inr h ↦ Fades-stepped _ _ _ _ h.1.stepped
  ]

  pub WhyNot-Fading :
      (claims : Claims) (at : Moment) (st : State g r W) (e : Error) (st' : State g r W)
      → WhyNot g r W s claims at st e st'
      → Fading at st st'
  WhyNot-Fading claims at st e st' (WhyNot.not_consumed o (inl h)) = Fades-same _ _ _ h
  WhyNot-Fading claims at st e st' (WhyNot.not_consumed o (inr h)) =
      Fades-drop_token _ claims.id _ _ h
  WhyNot-Fading claims at st e st' (WhyNot.revoked n k h) = Fades-drop_token _ claims.id _ _ h
  WhyNot-Fading claims at st e st' (WhyNot.no_subject n h) = Fades-drop_token _ claims.id _ _ h
  WhyNot-Fading claims at st e st' (WhyNot.not_active row f a k h) =
      Fades-drop_token _ claims.id _ _ h
  WhyNot-Fading claims at st e st' (WhyNot.not_issued u o (inl h)) =
      Fades-drop_token _ claims.id _ _ h
  WhyNot-Fading claims at st e st' (WhyNot.not_issued u o (inr h)) =
      let spent = drop_token claims.id (tokens g r W st) in
      Fades-trans _ _ spent _ (Fades-drop_token _ claims.id _ spent refl)
        (Fades-add_token _ u spent _ h)
