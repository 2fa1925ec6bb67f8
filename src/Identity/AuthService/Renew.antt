-- ===== src/Identity/AuthService/Renew.antt =====
-- The exchange of a refresh token, with every way in which it ends.
use parkhub_api.Base.{
  ◌≡◌, ◌⊎◌, refl, ap, ◌∙◌, sym, subst, inl, inr, true, false, not, Option, none, some, is_some,
  String, ok, Action, raise_if, ◌>>=◌, ◌>>◌, pure, ◌/◌, arith,
}
use parkhub_api.Base.Ends.{Ends, Ends-bind, Ends-raise_if_then, Ends-weaken}
use parkhub_api.Errors.{Error, IsOther, identity, user_frozen, refresh_token_revoked}
use parkhub_api.Gorm.{Gorm, Found}
use parkhub_api.Redis.{Redis}
use parkhub_api.Identity.User.{User, is_active}
use parkhub_api.Identity.UserDao.{UserRow, has_id}
use parkhub_api.Identity.UserRepo
use parkhub_api.Identity.UserRepo.{to_domain_user}
use parkhub_api.Identity.UserRepo.Ends.{StoredAs, NotStored, get_by_id-Searched}
use parkhub_api.Identity.Token.{Claims, TokenPair}
use parkhub_api.Identity.RefreshTokens
use parkhub_api.Identity.RefreshTokens.{refresh_key}
use parkhub_api.Identity.RefreshTokens.Live.{add_token, drop_token, consume-Refines}
use parkhub_api.Identity.AuthService.{
  AuthService, State, Moment, RefreshTokenResponse, on_users, on_tokens, refresh_claims,
}
use parkhub_api.Identity.AuthService.Ends.{
  people, tokens, Ends-on_users, Ends-on_tokens, Issued, NotIssued, generate_token_pair-Issued,
}
use parkhub_api.Identity.AuthService

module _ (g : Gorm UserRow) (r : Redis) (W : Type 0) (s : AuthService g r W) where
  module _ (claims : Claims) (at : Moment) (st : State g r W) where
    -- The token was alive and is spent; its subject is stored and active, and has a new one.
    pub record Renewed (resp : RefreshTokenResponse) (st' : State g r W) : Type 0 where
      pub alive : is_some (tokens g r W st claims.id) ≡ true
      pub row : UserRow
      pub found : Found (has_id claims.subject) row (people g r W st)
      pub active : is_active (to_domain_user row) ≡ true
      pub users_kept : people g r W st' ≡ people g r W st
      pub moved :
          tokens g r W st'
          ≡ add_token at.refresh_jti row.id (drop_token claims.id (tokens g r W st))
      pub signed :
          s.signer.sign (refresh_claims g r W s (to_domain_user row) at)
          ≡ ok resp.token_pair.refresh_token
      pub stored : r.view st'.0.1 (refresh_key at.refresh_jti) ≡ some (row.id, s.refresh_ttl)

    pub data WhyNot (e : Error) (st' : State g r W) : Type 0 where
      not_consumed :
          IsOther e
          → (tokens g r W st' ≡ tokens g r W st)
            ⊎ (tokens g r W st' ≡ drop_token claims.id (tokens g r W st))
          → WhyNot e st'
      revoked :
          tokens g r W st claims.id ≡ none
          → e ≡ identity refresh_token_revoked
          → tokens g r W st' ≡ drop_token claims.id (tokens g r W st)
          → WhyNot e st'
      no_subject :
          NotStored (has_id claims.subject) e (people g r W st)
          → tokens g r W st' ≡ drop_token claims.id (tokens g r W st)
          → WhyNot e st'
      not_active :
          (row : UserRow)
          → Found (has_id claims.subject) row (people g r W st)
          → is_active (to_domain_user row) ≡ false
          → e ≡ identity user_frozen
          → tokens g r W st' ≡ drop_token claims.id (tokens g r W st)
          → WhyNot e st'
      not_issued :
          (user_id : String)
          → IsOther e
          → (tokens g r W st' ≡ drop_token claims.id (tokens g r W st))
            ⊎ (tokens g r W st'
                ≡ add_token at.refresh_jti user_id (drop_token claims.id (tokens g r W st)))
          → WhyNot e st'

    abbrev pub NotRenewed : Error → State g r W → Type 0
    NotRenewed e st' = (people g r W st' ≡ people g r W st) × WhyNot e st'

    abbrev answer : TokenPair → Action (State g r W) Error RefreshTokenResponse
    answer pair = pure (record { token_pair = pair; access_expires_in = s.access_ttl / 1000 })

    -- `RefreshToken` behind the search for the subject, behind the consumption, and whole.
    abbrev renew_user : User → Action (State g r W) Error RefreshTokenResponse
    renew_user user =
        raise_if (not (is_active user)) (identity user_frozen)
        >> (AuthService.generate_token_pair g r W s user at >>= answer)

    abbrev renew_owned : Option String → Action (State g r W) Error RefreshTokenResponse
    renew_owned owner =
        raise_if (not (is_some owner)) (identity refresh_token_revoked)
        >> (on_users g r W (UserRepo.get_by_id g claims.subject) >>= renew_user)

    -- A state in which the token is consumed.
    abbrev Spent : State g r W → Type 0
    Spent st₁ =
        (people g r W st₁ ≡ people g r W st)
        × (tokens g r W st₁ ≡ drop_token claims.id (tokens g r W st))

    renew_user-Renewed :
        (row : UserRow) (st₁ : State g r W)
        → is_some (tokens g r W st claims.id) ≡ true
        → Found (has_id claims.subject) row (people g r W st)
        → Spent st₁
        → Ends Renewed NotRenewed (renew_user (to_domain_user row) st₁)
    unfolding to_domain_user
    renew_user-Renewed row st₁ alive found (h, k) =
        let user = to_domain_user row in
        let generate = AuthService.generate_token_pair g r W s user at in
        Ends-raise_if_then Renewed NotRenewed (not (is_active user)) (identity user_frozen)
          (generate >>= answer) st₁
          (λ idle. (h, not_active row found (ground (arith, idle)) refl k))
          (λ busy.
            Ends-bind (Issued g r W s user at st₁) Renewed NotRenewed generate answer st₁
              (Ends-weaken (Issued g r W s user at st₁) (Issued g r W s user at st₁)
                (NotIssued g r W s user at st₁) NotRenewed (λ _ _ q. q)
                (λ e st' q. (
                  q.users_kept ∙ h,
                  not_issued row.id q.is_other (elim q.stepped [
                    | inl same ↦ inl (same ∙ k)
                    | inr added ↦ inr (added ∙ ap (add_token at.refresh_jti row.id) k)
                  ]),
                ))
                (generate st₁) (generate_token_pair-Issued g r W s user at st₁))
              (λ pair st' q. record {
                alive = alive;
                row = row;
                found = found;
                active = ground (arith, busy);
                users_kept = q.users_kept ∙ h;
                moved = q.added ∙ ap (add_token at.refresh_jti row.id) k;
                signed = q.signed;
                stored = q.stored;
              }))

    renew_owned-Renewed :
        (owner : Option String) (st₁ : State g r W)
        → owner ≡ tokens g r W st claims.id
        → Spent st₁
        → Ends Renewed NotRenewed (renew_owned owner st₁)
    renew_owned-Renewed none st₁ o (h, k) = (h, revoked (sym o) refl k)
    renew_owned-Renewed (some owner) st₁ o (h, k) =
        let p = has_id claims.subject in
        let search = UserRepo.get_by_id g claims.subject in
        Ends-bind (λ u st₂. Spent st₂ × StoredAs p u (people g r W st)) Renewed NotRenewed
          (on_users g r W search) renew_user st₁
          (Ends-on_users g r W _ NotRenewed search st₁ (
            Ends-weaken _ _ _ _ (λ u d' q. ((q.0 ∙ h, k), subst (StoredAs p u) h q.1))
              (λ e d' q. (q.0 ∙ h, no_subject (subst (NotStored p e) h q.1) k)) (search st₁.0.0)
              (get_by_id-Searched g claims.subject st₁.0.0)))
          (λ u st₂ (spent, (row, found, same)).
            subst (λ v. Ends Renewed NotRenewed (renew_user v st₂)) (sym same)
              (renew_user-Renewed row st₂ (rw (← o) refl) found spent))

  -- `RefreshToken` behind its checks: a new pair is made only for a token that was alive and is now spent, and
  -- for a subject who is stored and active. The token is spent too where the subject is missing or
  -- frozen; no user is ever changed.
  pub renew_lem :
      (claims : Claims) (at : Moment) (st : State g r W)
      → Ends
          (Renewed claims at st)
          (NotRenewed claims at st)
          (AuthService.renew g r W s claims at st)
  unfolding AuthService.renew
  renew_lem claims at st =
      let consume = RefreshTokens.consume r claims.id in
      Ends-bind (λ owner st₁. (owner ≡ tokens g r W st claims.id) × Spent claims at st st₁)
        (Renewed claims at st) (NotRenewed claims at st) (on_tokens g r W consume)
        (renew_owned claims at st) st
        (Ends-on_tokens g r W _ (NotRenewed claims at st) consume st (
          Ends-weaken _ _ _ _ (λ owner t' q. (q.0, (refl, q.1)))
            (λ e t' q. (refl, not_consumed q.0 q.1)) (consume st.0.1)
            (consume-Refines r claims.id st.0.1)))
        (λ owner st₁ q. renew_owned-Renewed claims at st owner st₁ q.0 q.1)
