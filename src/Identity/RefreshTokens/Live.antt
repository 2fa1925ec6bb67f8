-- ===== src/Identity/RefreshTokens/Live.antt =====
-- The refresh tokens as an abstract store: which token is alive, and whose it is. Redis holds each under a
-- key of its own, with a time to live.
use parkhub_api.Base.{
  ℕ, ◌<◌, ◌≡◌, ◌⊎◌, arith, refl, sym, ap, ◌∙◌, fun_ext, inl, inr, Bool, true, false, Option, none,
  some, String, Result, ok, err, str_eq, eq_iff, eq_refl, catch, leb, Bool-cases, if◌then◌else◌,
}
use text.Mathlib.TextLemmas.{append_cancel_left}
use parkhub_api.Base.Ends.{Ends}
use parkhub_api.Errors.{Error, IsOther, other}
use parkhub_api.Redis.{Redis, Written, Erased, Ran, put, erase, age, run, value_of}
use parkhub_api.Identity.RefreshTokens
use parkhub_api.Identity.RefreshTokens.{refresh_key, consume_script, consume_value}

-- The owner of each token that is alive.
abbrev pub Tokens : Type 0
Tokens = String → Option String

abbrev pub add_token : String → String → Tokens → Tokens
add_token jti user_id l j = if str_eq j jti then some user_id else l j

abbrev pub drop_token : String → Tokens → Tokens
drop_token jti l j = if str_eq j jti then none else l j

str_eq-refresh_key : (a b : String) → str_eq (refresh_key a) (refresh_key b) ≡ str_eq a b
str_eq-refresh_key a b =
    let same = eq_iff a b in
    let keys = eq_iff (refresh_key a) (refresh_key b) in
    elim (Bool-cases (str_eq a b)) [
      | inl e ↦ keys.1 (ap refresh_key (same.0 e)) ∙ sym e
      | inr e ↦ elim (Bool-cases (str_eq (refresh_key a) (refresh_key b))) [
        | inl f ↦ f ∙ sym (same.1 (append_cancel_left "auth:refresh:" a b (keys.0 f)))
        | inr f ↦ f ∙ sym e
      ]
    ]

leb-false : (a b : ℕ) → b < a → leb a b ≡ false
leb-false a b h = ground arith

module _ (r : Redis) where
  open r use {Store, view, later}

  -- What the store says of the tokens.
  abbrev pub live : Store → Tokens
  live t jti = value_of (view t (refresh_key jti))

  value_of-if :
      (b : Bool) (x y : Option (String × ℕ))
      → value_of (if b then x else y) ≡ (if b then value_of x else value_of y)
  value_of-if true x y = refl
  value_of-if false x y = refl

  live-put :
      (t t' : Store) (jti user_id : String) (ttl : ℕ)
      → view t' ≡ put (refresh_key jti) user_id ttl (view t)
      → live t' ≡ add_token jti user_id (live t)
  live-put t t' jti user_id ttl h = fun_ext (λ j.
      ap (λ m. value_of (m (refresh_key j))) h
      ∙ value_of-if (str_eq (refresh_key j) (refresh_key jti)) (some (user_id, ttl)) _
      ∙ rw (str_eq-refresh_key j jti) refl)

  live-erase :
      (t t' : Store) (jti : String)
      → view t' ≡ erase (refresh_key jti) (view t)
      → live t' ≡ drop_token jti (live t)
  live-erase t t' jti h = fun_ext (λ j.
      ap (λ m. value_of (m (refresh_key j))) h
      ∙ value_of-if (str_eq (refresh_key j) (refresh_key jti)) none _
      ∙ rw (str_eq-refresh_key j jti) refl)

  live-same : (t t' : Store) → view t' ≡ view t → live t' ≡ live t
  live-same t t' h = ap (λ m jti. value_of (m (refresh_key jti))) h

  -- An operation as a step of the abstract store: its answer is one that fits the tokens from before, and
  -- the tokens make the step. Where the reply of Redis is lost, the step may have been made or not.
  abbrev pub Refines :
      {A : Type 0}
      → (A → Tokens → Type 0)
      → (Tokens → Tokens)
      → Store
      → Result Error A × Store
      → Type 0
  Refines answer step t =
      Ends (λ a t'. answer a (live t) × (live t' ≡ step (live t)))
        (λ e t'. IsOther e × ((live t' ≡ live t) ⊎ (live t' ≡ step (live t))))

  abbrev pub AnyAnswer : Unit {0} → Tokens → Type 0
  AnyAnswer _ l = Unit

  -- `Consume` answers with the owner of the token, or with nothing where it is not alive.
  abbrev pub OwnerOf : String → Option String → Tokens → Type 0
  OwnerOf jti owner l = owner ≡ l jti

  saved_Refines :
      (jti user_id : String) (ttl : ℕ) (t : Store) (x : Result String (Unit {0}) × Store)
      → Written view (refresh_key jti) user_id ttl t x
      → Refines AnyAnswer (add_token jti user_id) t (catch other (λ (_ : Store). x) t)
  saved_Refines jti user_id ttl t (ok _, t') h = (tt, live-put t t' jti user_id ttl h)
  saved_Refines jti user_id ttl t (err e, t') (inl h) = ((e, refl), inl (live-same t t' h))
  saved_Refines jti user_id ttl t (err e, t') (inr h) =
      ((e, refl), inr (live-put t t' jti user_id ttl h))

  pub save-Refines :
      (jti user_id : String) (ttl : ℕ) (t : Store)
      → Refines AnyAnswer (add_token jti user_id) t (RefreshTokens.save r jti user_id ttl t)
  unfolding RefreshTokens.save
  save-Refines jti user_id ttl t =
      saved_Refines jti user_id ttl t (r.set (refresh_key jti) user_id ttl t) (r.set_law _ _ _ t)

  saved-Stored :
      (jti user_id : String) (ttl : ℕ) (t : Store) (x : Result String (Unit {0}) × Store)
      → Written view (refresh_key jti) user_id ttl t x
      → Ends
          (λ _ t'. view t' (refresh_key jti) ≡ some (user_id, ttl))
          (λ _ _. Unit)
          (catch {E = Error} other (λ (_ : Store). x) t)
  saved-Stored jti user_id ttl t (ok _, t') h =
      ap (λ m. m (refresh_key jti)) h ∙ rw (eq_refl (refresh_key jti)) refl
  saved-Stored jti user_id ttl t (err e, t') h = tt

  -- A token that is saved has its whole time to live.
  pub save-Stored :
      (jti user_id : String) (ttl : ℕ) (t : Store)
      → Ends
          (λ _ t'. view t' (refresh_key jti) ≡ some (user_id, ttl))
          (λ _ _. Unit)
          (RefreshTokens.save r jti user_id ttl t)
  unfolding RefreshTokens.save
  save-Stored jti user_id ttl t =
      saved-Stored jti user_id ttl t (r.set (refresh_key jti) user_id ttl t) (r.set_law _ _ _ t)

  -- And is alive until then.
  pub live-lasts :
      (n : ℕ) (t : Store) (jti user_id : String) (ttl : ℕ)
      → view t (refresh_key jti) ≡ some (user_id, ttl)
      → n < ttl
      → live (later n t) jti ≡ some user_id
  live-lasts n t jti user_id ttl h k =
      ap value_of (r.later_law n t (refresh_key jti) ∙ ap (age n) h) ∙ rw (leb-false ttl n k) refl

  revoked_Refines :
      (jti : String) (t : Store) (x : Result String (Unit {0}) × Store)
      → Erased view (refresh_key jti) t x
      → Refines AnyAnswer (drop_token jti) t (catch other (λ (_ : Store). x) t)
  revoked_Refines jti t (ok _, t') h = (tt, live-erase t t' jti h)
  revoked_Refines jti t (err e, t') (inl h) = ((e, refl), inl (live-same t t' h))
  revoked_Refines jti t (err e, t') (inr h) = ((e, refl), inr (live-erase t t' jti h))

  pub revoke-Refines :
      (jti : String) (t : Store)
      → Refines AnyAnswer (drop_token jti) t (RefreshTokens.revoke r jti t)
  unfolding RefreshTokens.revoke
  revoke-Refines jti t = revoked_Refines jti t (r.del (refresh_key jti) t) (r.del_law _ t)

  drop_token-none : (jti : String) (l : Tokens) → l jti ≡ none → drop_token jti l ≡ l
  drop_token-none jti l h = fun_ext (λ j. elim (Bool-cases (str_eq j jti)) [
    | inl e ↦ rw e (sym h ∙ ap l (sym ((eq_iff j jti).0 e)))
    | inr e ↦ rw e refl
  ])

  -- The script behind its `GET` that answered `o`.
  behind :
      (jti : String) (t : Store) (o : Option String)
      → o ≡ live t jti
      → ((run (consume_value (refresh_key jti) o) (view t)).0 ≡ live t jti)
        × ((t' : Store)
            → view t' ≡ (run (consume_value (refresh_key jti) o) (view t)).1
            → live t' ≡ drop_token jti (live t))
  behind jti t none h = (h, (λ t' e. live-same t t' e ∙ sym (drop_token-none jti (live t) (sym h))))
  behind jti t (some val) h = (h, (λ t' e. live-erase t t' jti e))

  consumed_Refines :
      (jti : String) (t : Store) (x : Result String (Option String) × Store)
      → Ran view (consume_script (refresh_key jti)) t x
      → Refines (OwnerOf jti) (drop_token jti) t (catch other (λ (_ : Store). x) t)
  unfolding consume_script
  consumed_Refines jti t (ok o, t') (a, v) =
      (a ∙ (behind jti t (live t jti) refl).0, (behind jti t (live t jti) refl).1 t' v)
  consumed_Refines jti t (err e, t') (inl v) = ((e, refl), inl (live-same t t' v))
  consumed_Refines jti t (err e, t') (inr v) =
      ((e, refl), inr ((behind jti t (live t jti) refl).1 t' v))

  pub consume-Refines :
      (jti : String) (t : Store)
      → Refines (OwnerOf jti) (drop_token jti) t (RefreshTokens.consume r jti t)
  unfolding RefreshTokens.consume
  consume-Refines jti t =
      consumed_Refines jti t (r.eval (consume_script (refresh_key jti)) t) (r.eval_law _ t)

  -- Redis holds what the abstract store holds: `Save` adds the token with its owner, `Consume` answers with
  -- the owner of a token that is alive and drops it, `Revoke` drops it, and no other token is touched;
  -- where a call ends in an error, its step has been made whole or not at all.
  pub operations-Refines :
      (jti user_id : String) (ttl : ℕ) (t : Store)
      → Refines AnyAnswer (add_token jti user_id) t (RefreshTokens.save r jti user_id ttl t)
        × Refines (OwnerOf jti) (drop_token jti) t (RefreshTokens.consume r jti t)
        × Refines AnyAnswer (drop_token jti) t (RefreshTokens.revoke r jti t)
  operations-Refines jti user_id ttl t =
      (save-Refines jti user_id ttl t, consume-Refines jti t, revoke-Refines jti t)

  -- Time only ends tokens.
  pub live-later :
      (n : ℕ) (t : Store) (jti : String)
      → (live (later n t) jti ≡ live t jti) ⊎ (live (later n t) jti ≡ none)
  live-later n t jti = aged (view t (refresh_key jti)) (r.later_law n t (refresh_key jti))
    where
      aged :
          (o : Option (String × ℕ))
          → view (later n t) (refresh_key jti) ≡ age n o
          → (live (later n t) jti ≡ value_of o) ⊎ (live (later n t) jti ≡ none)
      aged none h = inr (ap value_of h)
      aged (some (v, ttl)) h = elim (Bool-cases (leb ttl n)) [
        | inl e ↦ inr (ap value_of h ∙ rw e refl)
        | inr e ↦ inl (ap value_of h ∙ rw e refl)
      ]
