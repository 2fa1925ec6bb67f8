-- ===== src/Sms/Cache/Stored.antt =====
-- A code that is stored can be verified for as long as it lives, and with no other input.
use parkhub_api.Base.{
  ℕ, ◌-◌, ◌≡◌, ◌<◌, refl, ◌∙◌, ap, subst, sym, some, String, [], ◌∷◌, Result, ok, err, arith,
  eq_refl, lift, ◌>>=◌, catch,
}
use parkhub_api.Errors.{Error, other}
use parkhub_api.Redis.{Redis, Entries, Piped, Ran, age, run, value_of}
use parkhub_api.Sms.Code.{SmsCode}
use parkhub_api.Sms.Cache
use parkhub_api.Sms.Cache.{
  sms_key, sms_token_key, time_left, encoded, verify_and_consume_script, consume_token, reply,
}

module _ (r : Redis) (code : SmsCode) (now : ℕ) where
  open r use {Store, view, later}

  abbrev key : String
  key = sms_token_key code.phone code.purpose

  abbrev ttl : ℕ
  ttl = time_left code.expires_at now

  abbrev Kept : Result Error (Unit {0}) × Store → Type 0
  Kept (ok _, d') = view d' key ≡ some (code.code, ttl)
  Kept (err e, d') = Unit

  pipeline-Kept :
      (json : String) (d : Store) (x : Result String (Unit {0}) × Store)
      → Piped view ((sms_key code.phone code.purpose, json, ttl) ∷ (key, code.code, ttl) ∷ []) d x
      → Kept (catch other (λ (_ : Store). x) d)
  pipeline-Kept json d (ok _, d') h = ap (λ m. m key) h ∙ rw (eq_refl key) refl
  pipeline-Kept json d (err e, d') h = tt

  encoded-Kept :
      (j : Result String String) (d : Store)
      → Kept (
          (lift (encoded j) >>= λ json.
          catch other (
            r.pipeline ((sms_key code.phone code.purpose, json, ttl) ∷ (key, code.code, ttl) ∷ [])))
            d)
  encoded-Kept (ok json) d = pipeline-Kept json d (r.pipeline _ d) (r.pipeline_law _ d)
  encoded-Kept (err e) d = tt

  store-Kept :
      (marshal : SmsCode → Result String String) (d : Store)
      → Kept (Cache.store r marshal code now d)
  unfolding Cache.store
  store-Kept marshal d = encoded-Kept (marshal code) d

  aged-some : (n : ℕ) → n < ttl → age n (some (code.code, ttl)) ≡ some (code.code, ttl - n)
  aged-some n h = ground (arith, h)

  -- An answer is the one for a token that equals the input; the reply can be lost.
  abbrev pub Accepted : Result Error (Unit {0}) → Type 0
  Accepted (ok _) = Unit
  Accepted (err (other e)) = Unit
  Accepted (err _) = ⊥

  right_reply : (m : Entries) → (run (consume_token key code.code (some code.code)) m).0 ≡ "ok"
  right_reply m = rw (eq_refl code.code) refl

  script-Accepted :
      (d : Store) (n : ℕ) (x : Result String String × Store)
      → view d key ≡ some (code.code, n)
      → Ran view (verify_and_consume_script key code.code) d x
      → Accepted ((catch other (λ (_ : Store). x) >>= λ text. lift (reply text)) d).0
  unfolding verify_and_consume_script reply
  script-Accepted d n (ok text, d') h (t, v) =
      let good : text ≡ "ok" =
        t
        ∙ ap (λ o. (run (consume_token key code.code (value_of o)) (view d)).0) h
        ∙ right_reply (view d) in
      subst (λ text. Accepted (reply text)) (sym good) tt
  script-Accepted d n (err e, d') h t = tt

  -- A code that has been stored is accepted at any later time at which it still lives, unless Redis
  -- fails: no answer calls it missing or wrong.
  pub store-verify_and_consume :
      (marshal : SmsCode → Result String String) (n : ℕ) (d d' : Store)
      → Cache.store r marshal code now d ≡ (ok tt, d')
      → n < ttl
      → Accepted (Cache.verify_and_consume r code.phone code.purpose code.code (later n d')).0
  unfolding Cache.verify_and_consume
  store-verify_and_consume marshal n d d' e h =
      let kept = subst Kept e (store-Kept marshal d) in
      script-Accepted (later n d') (ttl - n) (r.eval _ (later n d'))
        (r.later_law n d' key ∙ ap (age n) kept ∙ aged-some n h) (r.eval_law _ (later n d'))
