-- ===== src/Identity/AuthService/Ends.antt =====
-- How the logins, the exchange of a token and the logout end: what they have seen in the table and in the
-- signer, and what they leave of the users and of the tokens.
use parkhub_api.Base.{
  ℕ, ◌/◌, ◌≡◌, ap, subst, ◌⊎◌, refl, ◌∙◌, inl, inr, Bool, true, false, not, String, List, Result,
  ok, err, Action, or_else, arith, some, lift, pure, ◌>>=◌, ◌>>◌,
}
use parkhub_api.Base.Ends.{
  Ends, Ends-bind, Ends-both, Ends-or_else, Ends-raise_if_then, Ends-lift_then, Ends-weaken,
}
use parkhub_api.Errors.{Error, IsOther, identity, user_frozen}
use parkhub_api.Gorm.{Gorm}
use parkhub_api.Redis.{Redis}
use parkhub_api.Identity.User.{User, is_active}
use parkhub_api.Identity.UserDao.{UserRow}
use parkhub_api.Identity.UserRepo
use parkhub_api.Identity.UserRepo.Ends.{written, update-Updated}
use parkhub_api.Identity.UserService.{library}
use parkhub_api.Identity.Token.{TokenPair}
use parkhub_api.Identity.RefreshTokens
use parkhub_api.Identity.RefreshTokens.{refresh_key}
use parkhub_api.Identity.RefreshTokens.Live.{Tokens, add_token, live, save-Refines, save-Stored}
use parkhub_api.Identity.AuthService.{
  AuthService, State, Moment, LoginResponse, on_users, on_tokens, refresh_claims, access_claims,
  pair_of,
}
use parkhub_api.Identity.AuthService

library-ok : {A : Type 0} (x : Result String A) (a : A) → library x ≡ ok a → x ≡ ok a
library-ok (ok b) a h = ground (arith, h)
library-ok (err e) a h = ground (arith, h)

library-IsOther : {A : Type 0} (x : Result String A) (e : Error) → library x ≡ err e → IsOther e
library-IsOther (ok b) e h = ground (arith, h)
library-IsOther (err t) e h = (t, ground (arith, h))

module _ (g : Gorm UserRow) (r : Redis) (W : Type 0) where
  abbrev pub people : State g r W → List UserRow
  people st = g.rows st.0.0

  abbrev pub tokens : State g r W → Tokens
  tokens st = live r st.0.1

  module _ {A : Type 0} (Q : A → State g r W → Type 0) (X : Error → State g r W → Type 0) where
    focused_users :
        (x : Result Error A × g.Db) (st : State g r W)
        → Ends (λ a d'. Q a ((d', st.0.1), st.1)) (λ e d'. X e ((d', st.0.1), st.1)) x
        → Ends Q X (on_users g r W (λ (_ : g.Db). x) st)
    focused_users (ok a, d) st h = h
    focused_users (err e, d) st h = h

    pub Ends-on_users :
        (m : Action g.Db Error A) (st : State g r W)
        → Ends (λ a d'. Q a ((d', st.0.1), st.1)) (λ e d'. X e ((d', st.0.1), st.1)) (m st.0.0)
        → Ends Q X (on_users g r W m st)
    Ends-on_users m st h = focused_users (m st.0.0) st h

    focused_tokens :
        (x : Result Error A × r.Store) (st : State g r W)
        → Ends (λ a t'. Q a ((st.0.0, t'), st.1)) (λ e t'. X e ((st.0.0, t'), st.1)) x
        → Ends Q X (on_tokens g r W (λ (_ : r.Store). x) st)
    focused_tokens (ok a, t) st h = h
    focused_tokens (err e, t) st h = h

    pub Ends-on_tokens :
        (m : Action r.Store Error A) (st : State g r W)
        → Ends (λ a t'. Q a ((st.0.0, t'), st.1)) (λ e t'. X e ((st.0.0, t'), st.1)) (m st.0.1)
        → Ends Q X (on_tokens g r W m st)
    Ends-on_tokens m st h = focused_tokens (m st.0.1) st h

  module _ (s : AuthService g r W) where
    -- A pair of tokens has been made for the user: the refresh token is signed, and saved for its time.
    pub record Issued (user : User) (at : Moment) (st : State g r W) (pair : TokenPair)
        (st' : State g r W) : Type 0 where
      pub users_kept : people st' ≡ people st
      pub added : tokens st' ≡ add_token at.refresh_jti user.id (tokens st)
      pub signed : s.signer.sign (refresh_claims g r W s user at) ≡ ok pair.refresh_token
      pub stored : r.view st'.0.1 (refresh_key at.refresh_jti) ≡ some (user.id, s.refresh_ttl)

    -- No pair: the users are as before, and at most the new token has been saved.
    pub record NotIssued (user : User) (at : Moment) (st : State g r W) (e : Error)
        (st' : State g r W) : Type 0 where
      pub users_kept : people st' ≡ people st
      pub is_other : IsOther e
      pub stepped :
          (tokens st' ≡ tokens st) ⊎ (tokens st' ≡ add_token at.refresh_jti user.id (tokens st))

    -- Saving the refresh token, and the answer.
    abbrev save_pair : User → Moment → String → String → Action (State g r W) Error TokenPair
    save_pair user at a t =
        on_tokens g r W (RefreshTokens.save r at.refresh_jti user.id s.refresh_ttl)
        >> pure (pair_of g r W s at a t)

    save_pair-Issued :
        (user : User) (at : Moment) (st : State g r W) (a t : String)
        → s.signer.sign (refresh_claims g r W s user at) ≡ ok t
        → Ends (Issued user at st) (NotIssued user at st) (save_pair user at a t st)
    save_pair-Issued user at st a t ht =
        let save = RefreshTokens.save r at.refresh_jti user.id s.refresh_ttl in
        Ends-bind
          (λ _ st'.
            (people st' ≡ people st)
            × (tokens st' ≡ add_token at.refresh_jti user.id (tokens st))
            × (r.view st'.0.1 (refresh_key at.refresh_jti) ≡ some (user.id, s.refresh_ttl)))
          (Issued user at st) (NotIssued user at st) (on_tokens g r W save)
          (λ _. pure (pair_of g r W s at a t)) st
          (Ends-on_tokens _ (NotIssued user at st) save st (
            Ends-weaken _ _ _ _ (λ _ t' h. (refl, h.0.1, h.1))
              (λ e t' h. record { users_kept = refl; is_other = h.0.0; stepped = h.0.1 })
              (save st.0.1)
              (Ends-both _ _ _ _ (save st.0.1)
                (save-Refines r at.refresh_jti user.id s.refresh_ttl st.0.1)
                (save-Stored r at.refresh_jti user.id s.refresh_ttl st.0.1))))
          (λ _ st' h. record { users_kept = h.0; added = h.1; signed = ht; stored = h.2 })

    unsigned :
        (user : User) (at : Moment) (st : State g r W) (x : Result String String) (e : Error)
        → library x ≡ err e
        → NotIssued user at st e st
    unsigned user at st x e he = record {
      users_kept = refl;
      is_other = library-IsOther x e he;
      stepped = inl refl;
    }

    pub generate_token_pair-Issued :
        (user : User) (at : Moment) (st : State g r W)
        → Ends
            (Issued user at st)
            (NotIssued user at st)
            (AuthService.generate_token_pair g r W s user at st)
    unfolding AuthService.generate_token_pair
    generate_token_pair-Issued user at st =
        let access = s.signer.sign (access_claims g r W s user at) in
        let refresh = s.signer.sign (refresh_claims g r W s user at) in
        Ends-lift_then (Issued user at st) (NotIssued user at st) (library access)
          (λ a. lift (library refresh) >>= save_pair user at a) st
          (λ a ha.
            Ends-lift_then (Issued user at st) (NotIssued user at st) (library refresh)
              (save_pair user at a) st
              (λ t ht. save_pair-Issued user at st a t (library-ok refresh t ht))
              (unsigned user at st refresh))
          (unsigned user at st access)

    -- What may become of the users behind a login: nothing, or the user is written back with the time.
    abbrev pub Touched : User → List UserRow → List UserRow → Type 0
    Touched user before after = (after ≡ before) ⊎ ((now : ℕ) × (after ≡ written g user now before))

    pub record LoggedIn (user : User) (at : Moment) (st : State g r W) (resp : LoginResponse)
        (st' : State g r W) : Type 0 where
      pub active : is_active user ≡ true
      pub answered : resp.user ≡ record user { last_login_at = some at.logged_in }
      pub users_kept :
          Touched (record user { last_login_at = some at.logged_in }) (people st) (people st')
      pub added : tokens st' ≡ add_token at.refresh_jti user.id (tokens st)
      pub signed : s.signer.sign (refresh_claims g r W s user at) ≡ ok resp.token_pair.refresh_token
      pub stored : r.view st'.0.1 (refresh_key at.refresh_jti) ≡ some (user.id, s.refresh_ttl)

    abbrev pub Frozen : User → State g r W → Error → State g r W → Type 0
    Frozen user st e st' =
        (is_active user ≡ false) × (e ≡ identity user_frozen) × (tokens st' ≡ tokens st)

    pub record NotLoggedIn (user : User) (at : Moment) (st : State g r W) (e : Error)
        (st' : State g r W) : Type 0 where
      pub users_kept : people st' ≡ people st
      pub why : Frozen user st e st' ⊎ ((is_active user ≡ true) × NotIssued user at st e st')

    turn_false : (b : Bool) → not b ≡ false → b ≡ true
    turn_false b h = ground (arith, h)

    turn_true : (b : Bool) → not b ≡ true → b ≡ false
    turn_true b h = ground (arith, h)

    -- The login has been noted in the table, or not.
    abbrev Noted : User → State g r W → Unit {0} → State g r W → Type 0
    Noted user' st _ st' = (st'.0.1 ≡ st.0.1) × Touched user' (people st) (people st')

    update-Noted :
        (user' : User) (st : State g r W)
        → Ends {E = Error}
            (Noted user' st)
            (λ _ _. ⊥)
            (or_else tt (on_users g r W (UserRepo.update g user')) st)
    update-Noted user' st =
        Ends-or_else (Noted user' st) (λ _ _. ⊥) tt (on_users g r W (UserRepo.update g user')) st
          (Ends-on_users (Noted user' st) (λ _. Noted user' st tt) (UserRepo.update g user') st
            (Ends-weaken _ _ _ _ (λ _ d' h. (refl, inr (g.clock st.0.0, h)))
              (λ e d' h. (refl, inl h.0)) (UserRepo.update g user' st.0.0)
              (update-Updated g user' st.0.0)))

    abbrev noted_user : User → Moment → User
    noted_user user at = record user { last_login_at = some at.logged_in }

    -- What a login does behind the pair of tokens.
    abbrev note_login : User → Moment → TokenPair → Action (State g r W) Error LoginResponse
    note_login user at pair =
        or_else tt (on_users g r W (UserRepo.update g (noted_user user at)))
        >> pure (record {
          token_pair = pair;
          user = noted_user user at;
          access_expires_in = s.access_ttl / 1000;
        })

    note_login-LoggedIn :
        (user : User) (at : Moment) (pair : TokenPair) (st st' : State g r W)
        → is_active user ≡ true
        → Issued user at st pair st'
        → Ends (LoggedIn user at st) (NotLoggedIn user at st) (note_login user at pair st')
    note_login-LoggedIn user at pair st st' active q =
        let user' = noted_user user at in
        let note = or_else tt (on_users g r W (UserRepo.update g user')) in
        Ends-bind (Noted user' st') (LoggedIn user at st) (NotLoggedIn user at st) note
          (λ _.
            pure
              (record { token_pair = pair; user = user'; access_expires_in = s.access_ttl / 1000 }))
          st'
          (Ends-weaken (Noted user' st') (Noted user' st') (λ _ _. ⊥) (NotLoggedIn user at st)
            (λ _ _ n. n) (λ _ _ n. absurd n) (note st') (update-Noted user' st'))
          (λ _ st'' n. record {
            active = active;
            answered = refl;
            users_kept = subst (λ l. Touched user' l (people st'')) q.users_kept n.1;
            added = ap (live r) n.0 ∙ q.added;
            signed = q.signed;
            stored = ap (λ t. r.view t (refresh_key at.refresh_jti)) n.0 ∙ q.stored;
          })

    pub log_in-LoggedIn :
        (user : User) (at : Moment) (st : State g r W)
        → Ends
            (LoggedIn user at st)
            (NotLoggedIn user at st)
            (AuthService.log_in g r W s user at st)
    unfolding AuthService.log_in
    log_in-LoggedIn user at st =
        let generate = AuthService.generate_token_pair g r W s user at in
        Ends-raise_if_then (LoggedIn user at st) (NotLoggedIn user at st) (not (is_active user))
          (identity user_frozen) (generate >>= note_login user at) st
          (λ h. record { users_kept = refl; why = inl (turn_true _ h, refl, refl) })
          (λ h.
            Ends-bind (Issued user at st) (LoggedIn user at st) (NotLoggedIn user at st) generate
              (note_login user at) st
              (Ends-weaken (Issued user at st) (Issued user at st) (NotIssued user at st)
                (NotLoggedIn user at st) (λ _ _ q. q)
                (λ e st' q. record { users_kept = q.users_kept; why = inr (turn_false _ h, q) })
                (generate st) (generate_token_pair-Issued user at st))
              (λ pair st' q. note_login-LoggedIn user at pair st st' (turn_false _ h) q))
