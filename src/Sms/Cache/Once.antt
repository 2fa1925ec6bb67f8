-- ===== src/Sms/Cache/Once.antt =====
-- A code in the cache is good for one verification.
use parkhub_api.Base.{
  ℕ, ◌+◌, ◌≡◌, ◌≤◌, ◌⊎◌, refl, ◌∙◌, ap, inl, inr, Bool, true, false, Option, none, some, String,
  List, [], ◌∷◌, Result, ok, err, ◌>>=◌, catch, lift, str_eq, eq_iff, eq_refl, arith, Bool-cases,
  if◌then◌else◌,
}
use parkhub_api.Errors.{Error, other}
use parkhub_api.Redis.{Redis, Entries, Ran, age, run, value_of}
use parkhub_api.Sms.Code.{SmsPurpose}
use parkhub_api.Sms.Cache
use parkhub_api.Sms.Cache.{sms_token_key, verify_and_consume_script, consume_token, reply}

abbrev pub is_ok : Result Error (Unit {0}) → Bool
is_ok (ok _) = true
is_ok (err e) = false

none≢some : {A : Type 0} {o : Option A} {a : A} → o ≡ none → o ≡ some a → ⊥
none≢some h e = ground (arith, h, e)

-- What a verification ends with: a success needs the token that is stored and removes it; a failure
-- removes the token too, or leaves everything as it was.
module _ (r : Redis) (phone : String) (purpose : SmsPurpose) where
  open r use {Store, view, later}

  abbrev token_of : Store → Option (String × ℕ)
  token_of d = view d (sms_token_key phone purpose)

  abbrev pub Outcome : String → Store → Result Error (Unit {0}) × Store → Type 0
  Outcome input d (ok _, d') = ((ttl : ℕ) × (token_of d ≡ some (input, ttl))) × (token_of d' ≡ none)
  Outcome input d (err e, d') = (token_of d' ≡ none) ⊎ (token_of d' ≡ token_of d)

  abbrev key : String
  key = sms_token_key phone purpose

  -- The script behind its `GET` that answered `o`.
  abbrev behind : String → Option (String × ℕ) → Entries → String × Entries
  behind input o m = run (consume_token key input (value_of o)) m

  behind-none :
      (input : String) (m : Entries) (o : Option (String × ℕ))
      → m key ≡ o
      → (behind input o m).1 key ≡ none
  behind-none input m none h = h
  behind-none input m (some (token, ttl)) h = elim (Bool-cases (str_eq token input)) [
    | inl e ↦ rw (e, eq_refl key) refl
    | inr e ↦ rw (e, eq_refl key) refl
  ]

  mismatch_refused : reply "mismatch" ≡ ok tt → ⊥
  unfolding reply
  mismatch_refused e = ground arith

  -- A reply of "ok" is for the token that is stored.
  behind-ok :
      (input : String) (m : Entries) (o : Option (String × ℕ))
      → reply (behind input o m).0 ≡ ok tt
      → (ttl : ℕ) × (o ≡ some (input, ttl))
  unfolding reply
  behind-ok input m none e = ground arith
  behind-ok input m (some (token, ttl)) e = elim (Bool-cases (str_eq token input)) [
    | inl q ↦ (ttl, ap (λ t. some (t, ttl)) ((eq_iff token input).0 q))
    | inr q ↦ absurd (mismatch_refused (rw q at e))
  ]

  replied-Outcome :
      (input : String) (d d' : Store) (res : Result Error (Unit {0}))
      → (res ≡ ok tt → (ttl : ℕ) × (token_of d ≡ some (input, ttl)))
      → token_of d' ≡ none
      → Outcome input d (res, d')
  replied-Outcome input d d' (ok _) k e = (k refl, e)
  replied-Outcome input d d' (err x) k e = inl e

  script-Outcome :
      (input : String) (d : Store) (x : Result String String × Store)
      → Ran view (verify_and_consume_script key input) d x
      → Outcome input d ((catch other (λ (_ : Store). x) >>= λ text. lift (reply text)) d)
  unfolding verify_and_consume_script
  script-Outcome input d (ok text, d') (t, v) =
      replied-Outcome input d d' (reply text)
        (λ e. behind-ok input (view d) (view d key) (rw (← t) e))
        (ap (λ m. m key) v ∙ behind-none input (view d) (view d key) refl)
  script-Outcome input d (err e, d') (inl v) = inr (ap (λ m. m key) v)
  script-Outcome input d (err e, d') (inr v) =
      inl (ap (λ m. m key) v ∙ behind-none input (view d) (view d key) refl)

  -- A verification that succeeds had the stored token as its input, and the token is gone; one that
  -- fails has removed the token too, or left it as it was.
  pub verify_and_consume-Outcome :
      (input : String) (d : Store)
      → Outcome input d (Cache.verify_and_consume r phone purpose input d)
  unfolding Cache.verify_and_consume
  verify_and_consume-Outcome input d =
      script-Outcome input d (r.eval (verify_and_consume_script key input) d) (r.eval_law _ d)

  -- The number of verifications that succeed among attempts with these inputs, each made some
  -- milliseconds behind the one before it.
  unfoldable pub successes : List (ℕ × String) → Store → ℕ
  successes [] d = 0
  successes ((wait, input) ∷ attempts) d =
      let (res, d') = Cache.verify_and_consume r phone purpose input (later wait d) in
      (if is_ok res then 1 else 0) + successes attempts d'

  aged-none : (n : ℕ) (d : Store) → token_of d ≡ none → token_of (later n d) ≡ none
  aged-none n d h = r.later_law n d key ∙ ap (age n) h

  spent_Outcome :
      (input : String) (d : Store) (x : Result Error (Unit {0}) × Store)
      → token_of d ≡ none
      → Outcome input d x
      → (is_ok x.0 ≡ false) × (token_of x.1 ≡ none)
  spent_Outcome input d (ok _, d') h ((ttl, e), o) = absurd (none≢some h e)
  spent_Outcome input d (err x, d') h (inl e) = (refl, e)
  spent_Outcome input d (err x, d') h (inr e) = (refl, e ∙ h)

  none_left :
      (attempts : List (ℕ × String)) (d : Store) → token_of d ≡ none → successes attempts d ≡ 0
  unfolding successes
  none_left [] d h = refl
  none_left ((wait, input) ∷ attempts) d h =
      let d₀ = later wait d in
      let (failed, gone) =
        spent_Outcome input d₀ (Cache.verify_and_consume r phone purpose input d₀)
          (aged-none wait d h) (verify_and_consume-Outcome input d₀) in
      rw failed (
        omega
          (arith, none_left attempts (Cache.verify_and_consume r phone purpose input d₀).1 gone))

  once_Outcome :
      (input : String) (attempts : List (ℕ × String)) (d : Store)
      (x : Result Error (Unit {0}) × Store)
      → Outcome input d x
      → successes attempts x.1 ≤ 1
      → (if is_ok x.0 then 1 else 0) + successes attempts x.1 ≤ 1
  once_Outcome input attempts d (ok _, d') (e, gone) h = omega (arith, none_left attempts d' gone)
  once_Outcome input attempts d (err x, d') o h = omega (arith, h)

  -- However often a code is tried, with whatever inputs, delays and lost replies of Redis: as long as
  -- no other code is stored for the phone and the purpose, at most one verification succeeds.
  pub successes-once : (attempts : List (ℕ × String)) (d : Store) → successes attempts d ≤ 1
  unfolding successes
  successes-once [] d = omega arith
  successes-once ((wait, input) ∷ attempts) d =
      once_Outcome input attempts (later wait d)
        (Cache.verify_and_consume r phone purpose input (later wait d))
        (verify_and_consume-Outcome input (later wait d)) (successes-once attempts _)
