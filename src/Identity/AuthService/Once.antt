-- ===== src/Identity/AuthService/Once.antt =====
-- A refresh token is exchanged at most once, and not at all once it has been given back.
use parkhub_api.Base.{
  ℕ, ◌≡◌, ◌≤◌, refl, ap, ◌∙◌, sym, inl, inr, true, false, Option, none, is_some, String, List, [],
  ◌∷◌, Result, ok, err, str_eq, Bool-cases, arith, All, eq_refl,
}
use parkhub_api.Base.Ends.{Ends}
use parkhub_api.Errors.{Error}
use parkhub_api.Gorm.{Gorm}
use parkhub_api.Redis.{Redis}
use parkhub_api.Identity.UserDao.{UserRow}
use parkhub_api.Identity.Token.{Claims}
use parkhub_api.Identity.RefreshTokens.Live.{live-later}
use parkhub_api.Identity.AuthService.{AuthService, State, Moment, LogoutRequest}
use parkhub_api.Identity.AuthService.Ends.{tokens}
use parkhub_api.Identity.AuthService.Calls.{
  Request, LeavesTokens, perform, hits, exchanges, wait, Fading,
}
use parkhub_api.Identity.AuthService.Steps.{perform-Step, GivenBack, logout-GivenBack}
use parkhub_api.Identity.AuthService

-- No call draws `j` as the id of a new token.
abbrev pub NeverDrawn : String → List (ℕ × Request × Moment) → Type 0
NeverDrawn j calls = All (λ c. str_eq j c.2.refresh_jti ≡ false) calls

module _ (g : Gorm UserRow) (r : Redis) (W : Type 0) (s : AuthService g r W)
    (quiet : LeavesTokens g r W s) (j : String) where
  lost_some : (o : Option String) → o ≡ none → is_some o ≡ true → ⊥
  lost_some o h e = ground (arith, h, e)

  -- A token that is not alive is not exchanged.
  pub exchanges-none :
      (calls : List (ℕ × Request × Moment)) (st : State g r W)
      → NeverDrawn j calls
      → tokens g r W st j ≡ none
      → exchanges g r W s j calls st ≡ 0
  unfolding exchanges
  exchanges-none [] st fresh h = refl
  exchanges-none ((n, req, at) ∷ calls) st fresh h =
      let st₀ = wait g r W s n st in
      let gone : tokens g r W st₀ j ≡ none = elim (live-later r n st.0.1 j) [
        | inl e ↦ e ∙ h
        | inr e ↦ e
      ] in
      let step = perform-Step g r W s quiet j req at st₀ fresh.0 in
      let after : tokens g r W (perform g r W s req at st₀).1 j ≡ none = elim step.1 [
        | inl e ↦ e ∙ gone
        | inr e ↦ e
      ] in
      let rest = exchanges-none calls (perform g r W s req at st₀).1 fresh.1 after in
      elim (Bool-cases (hits j (perform g r W s req at st₀).0)) [
        | inl e ↦ absurd (lost_some (tokens g r W st₀ j) gone (step.0 e).0)
        | inr e ↦ rw e (omega (arith, rest))
      ]

  -- However the four methods are called, with whatever requests, delays and lost replies: as long as no new
  -- token gets its id, a refresh token is exchanged at most once.
  pub exchanges-once :
      (calls : List (ℕ × Request × Moment)) (st : State g r W)
      → NeverDrawn j calls
      → exchanges g r W s j calls st ≤ 1
  unfolding exchanges
  exchanges-once [] st fresh = omega arith
  exchanges-once ((n, req, at) ∷ calls) st fresh =
      let st₀ = wait g r W s n st in
      let st₁ = (perform g r W s req at st₀).1 in
      let step = perform-Step g r W s quiet j req at st₀ fresh.0 in
      elim (Bool-cases (hits j (perform g r W s req at st₀).0)) [
        | inl e ↦ rw e (omega (arith, exchanges-none calls st₁ fresh.1 (step.0 e).1))
        | inr e ↦ rw e (omega (arith, exchanges-once calls st₁ fresh.1))
      ]

module _ (g : Gorm UserRow) (r : Redis) (W : Type 0) (s : AuthService g r W)
    (quiet : LeavesTokens g r W s) where
  ok_eq : (a b : Claims) (x : Result String Claims) → x ≡ ok a → x ≡ ok b → a ≡ b
  ok_eq a b (ok c) h k = ground (arith, h, k)
  ok_eq a b (err e) h k = ground (arith, h)

  given_back :
      (req : LogoutRequest) (at : Moment) (st st' : State g r W) (claims : Claims)
      (x : Result Error (Unit {0}) × State g r W)
      → s.signer.verify at.checked req.refresh_token ≡ ok claims
      → x ≡ (ok tt, st')
      → Ends (λ _. GivenBack g r W s req at st) (λ _ st'. Fading g r W s at st st') x
      → tokens g r W st' claims.id ≡ none
  given_back req at st st' claims (err e, st₁) good e' h = ground (arith, e')
  given_back req at st st' claims (ok _, st₁) good e' (claims', good', h) =
      let same = ok_eq claims claims' (s.signer.verify at.checked req.refresh_token) good good' in
      ap (λ x. tokens g r W x.1 claims.id) (sym e')
      ∙ ap (λ l. l claims.id) h
      ∙ rw (same, eq_refl claims'.id) refl

  -- A token with which someone has logged out is never exchanged, whatever is called behind it, as long as no new
  -- token gets its id.
  pub logout-exchanges :
      (req : LogoutRequest) (at : Moment) (st st' : State g r W) (claims : Claims)
      (calls : List (ℕ × Request × Moment))
      → s.signer.verify at.checked req.refresh_token ≡ ok claims
      → AuthService.logout g r W s req at st ≡ (ok tt, st')
      → NeverDrawn claims.id calls
      → exchanges g r W s claims.id calls st' ≡ 0
  logout-exchanges req at st st' claims calls good e fresh =
      exchanges-none g r W s quiet claims.id calls st' fresh (
        given_back req at st st' claims (AuthService.logout g r W s req at st) good e
          (logout-GivenBack g r W s req at st))
