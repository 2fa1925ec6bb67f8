-- ===== src/Sms/Service/Refusals.antt =====
-- What `SendCode` leaves alone where it refuses.
use parkhub_api.Base.{
  ◌≡◌, refl, Bool, true, false, not, String, Result, ok, err, Action, ◌>>=◌, ◌>>◌, raise, raise_if,
  lift, catch, or_else, [], ◌∷◌,
}
use parkhub_api.Errors.{
  Error, sms, iot, parking, identity, other, wrap, invalid_phone, phone_rate_limit,
}
use parkhub_api.Gorm.{Gorm, DbError, record_not_found, failed}
use parkhub_api.Redis.{Redis}
use parkhub_api.Sms.Code.{SmsCode, new_sms_code}
use parkhub_api.Sms.Cache
use parkhub_api.Sms.Cache.{encoded, sms_key, sms_token_key, time_left}
use parkhub_api.Sms.Record
use parkhub_api.Sms.Record.{SmsRecord, stamp, raw_error}
use parkhub_api.Sms.Repo
use parkhub_api.Sms.Service
use parkhub_api.Sms.Service.{
  SendCodeRequest, Outside, State, on_repo, release, after_send, deliver, is_valid_phone,
  rate_limit_ttl, code_ttl,
}

-- No error of the SMS domain; it can be one of Redis, of the database or of the codec.
abbrev IsPlain : {A S : Type 0} → Result Error A × S → Type 0
IsPlain (err (sms e), s) = ⊥
IsPlain _ = Unit

module _ (r : Redis) (g : Gorm SmsRecord) (W : Type 0) where
  cache-IsPlain :
      {A : Type 0} (x : Result String A × r.Store) (s : State r g W)
      → IsPlain (on_repo r g W (Repo.on_cache r g (catch other (λ (_ : r.Store). x))) s)
  cache-IsPlain (ok a, st) s = tt
  cache-IsPlain (err e, st) s = tt

  records-IsPlain :
      (x : Result DbError (Unit {0}) × g.Db) (s : State r g W)
      → IsPlain (on_repo r g W (Repo.on_records r g (catch raw_error (λ (_ : g.Db). x))) s)
  records-IsPlain (ok a, d) s = tt
  records-IsPlain (err record_not_found, d) s = tt
  records-IsPlain (err (failed e), d) s = tt

  failure-IsPlain :
      (o : Outside W) (req : SendCodeRequest) (e : String) (s : State r g W)
      → IsPlain (on_repo r g W (Repo.save_send_failure r g req.phone req.purpose e o.record_id) s)
  unfolding Repo.save_send_failure Record.insert
  failure-IsPlain o req e s =
      records-IsPlain
        (g.create (stamp (Repo.failure_record req.phone req.purpose e o.record_id)) s.0.1) s

  released-IsPlain :
      (m : Action (State r g W) Error (Unit {0})) (x : Result Error (Unit {0}) × State r g W)
      → ((s : State r g W) → IsPlain (m s))
      → IsPlain ((or_else tt (λ (_ : State r g W). x) >> m) x.1)
  released-IsPlain m (ok _, s) k = k s
  released-IsPlain m (err e, s) k = k s

  stored-IsPlain :
      (x : Result String (Unit {0}) × r.Store) (rec : SmsRecord) (s : State r g W)
      → IsPlain (
          on_repo r g W
            (Repo.on_cache r g (catch other (λ (_ : r.Store). x))
              >> Repo.on_records r g (catch raw_error (g.create (stamp rec))))
            s)
  stored-IsPlain (ok _, st) rec s = records-IsPlain (g.create (stamp rec) s.0.1) ((st, s.0.1), s.1)
  stored-IsPlain (err e, st) rec s = tt

  encoded-IsPlain :
      (x : Result String String) (f : String → Action r.Store String (Unit {0})) (rec : SmsRecord)
      (s : State r g W)
      → IsPlain (
          on_repo r g W
            (Repo.on_cache r g (lift (encoded x) >>= λ json. catch other (f json))
              >> Repo.on_records r g (catch raw_error (g.create (stamp rec))))
            s)
  encoded-IsPlain (ok json) f rec s = stored-IsPlain (f json s.0.0) rec s
  encoded-IsPlain (err e) f rec s = tt

  saved-IsPlain :
      (o : Outside W) (code : SmsCode) (s : State r g W)
      → IsPlain (on_repo r g W (Repo.save_code r g o.marshal code o.record_id o.stored) s)
  unfolding Repo.save_code Cache.store Record.insert
  saved-IsPlain o code s =
      encoded-IsPlain (o.marshal code)
        (λ json.
          let ttl = time_left code.expires_at o.stored in
          r.pipeline (
            (sms_key code.phone code.purpose, json, ttl)
            ∷ (sms_token_key code.phone code.purpose, code.code, ttl)
            ∷ []))
        (Repo.success_record code o.record_id) s

  sent-IsPlain :
      (o : Outside W) (req : SendCodeRequest) (code : SmsCode) (x : Result String (Unit {0}))
      (s : State r g W)
      → IsPlain (after_send r g W o req code x s)
  sent-IsPlain o req code (ok _) s = saved-IsPlain o code s
  sent-IsPlain o req code (err e) s =
      released-IsPlain
        (on_repo r g W (Repo.save_send_failure r g req.phone req.purpose e o.record_id))
        (on_repo r g W (Repo.release_rate_limit r g req.phone) s) (failure-IsPlain o req e)

  -- Where a call ends in an error of the SMS domain, the gateway and the records are as before.
  abbrev pub Unsent : State r g W → Result Error (Unit {0}) × State r g W → Type 0
  Unsent s (err (sms e), s') = (s'.1 ≡ s.1) × (s'.0.1 ≡ s.0.1)
  Unsent s _ = Unit

  IsPlain-Unsent :
      (s : State r g W) (x : Result Error (Unit {0}) × State r g W) → IsPlain x → Unsent s x
  IsPlain-Unsent s (ok _, s') h = tt
  IsPlain-Unsent s (err (sms e), s') h = absurd h
  IsPlain-Unsent s (err (iot e), s') h = tt
  IsPlain-Unsent s (err (parking e), s') h = tt
  IsPlain-Unsent s (err (identity e), s') h = tt
  IsPlain-Unsent s (err (other e), s') h = tt
  IsPlain-Unsent s (err (wrap t e), s') h = tt

  failed-Unsent :
      (s s' : State r g W) (e : Error) → s'.1 ≡ s.1 → s'.0.1 ≡ s.0.1 → Unsent s (err e, s')
  failed-Unsent s s' (sms e) h k = (h, k)
  failed-Unsent s s' (iot e) h k = tt
  failed-Unsent s s' (parking e) h k = tt
  failed-Unsent s s' (identity e) h k = tt
  failed-Unsent s s' (other e) h k = tt
  failed-Unsent s s' (wrap t e) h k = tt

  guarded-Unsent :
      (b : Bool) (e : Error) (m : Action (State r g W) Error (Unit {0})) (s s' : State r g W)
      → s'.1 ≡ s.1
      → s'.0.1 ≡ s.0.1
      → Unsent s (m s')
      → Unsent s ((raise_if (not b) e >> m) s')
  guarded-Unsent true e m s s' h k u = u
  guarded-Unsent false e m s s' h k u = failed-Unsent s s' e h k

  dropped-Unsent :
      (e : Error) (s s' : State r g W) (x : Result String (Unit {0}) × r.Store)
      → s'.1 ≡ s.1
      → s'.0.1 ≡ s.0.1
      → Unsent s (
          (or_else tt (on_repo r g W (Repo.on_cache r g (catch other (λ (_ : r.Store). x))))
              >> raise e)
            s')
  dropped-Unsent e s s' (ok _, st) h k = failed-Unsent s ((st, s'.0.1), s'.1) e h k
  dropped-Unsent e s s' (err y, st) h k = failed-Unsent s ((st, s'.0.1), s'.1) e h k

  deliver-Unsent :
      (o : Outside W) (req : SendCodeRequest) (s s' : State r g W) (c : Result Error SmsCode)
      → s'.1 ≡ s.1
      → s'.0.1 ≡ s.0.1
      → Unsent s (deliver r g W o req c s')
  unfolding Repo.release_rate_limit Cache.release_rate_limit
  deliver-Unsent o req s s' (err e) h k = dropped-Unsent e s s' (r.del _ s'.0.0) h k
  deliver-Unsent o req s s' (ok code) h k =
      IsPlain-Unsent s _ (sent-IsPlain o req (record code { id = o.code_id }) _ _)

  reserved-Unsent :
      (o : Outside W) (req : SendCodeRequest) (s : State r g W) (x : Result String Bool × r.Store)
      → Unsent s (
          (on_repo r g W (Repo.on_cache r g (catch other (λ (_ : r.Store). x))) >>= λ reserved.
          raise_if (not reserved) (sms phone_rate_limit)
          >> deliver r g W o req (new_sms_code o.rand req.phone req.purpose code_ttl o.now))
            s)
  reserved-Unsent o req s (ok b, st) =
      let made = new_sms_code o.rand req.phone req.purpose code_ttl o.now in
      guarded-Unsent b (sms phone_rate_limit) (deliver r g W o req made) s ((st, s.0.1), s.1) refl
        refl (deliver-Unsent o req s ((st, s.0.1), s.1) made refl refl)
  reserved-Unsent o req s (err e, st) = tt

  -- Where `SendCode` ends in an error of the SMS domain (a bad phone or purpose, or a phone that has
  -- had its message), the gateway has not been called and no record has been written.
  pub send_code-Unsent :
      (o : Outside W) (req : SendCodeRequest) (s : State r g W)
      → Unsent s (Service.send_code r g W o req s)
  unfolding Service.send_code Repo.try_reserve_rate_limit Cache.try_reserve_rate_limit
  send_code-Unsent o req s =
      guarded-Unsent (is_valid_phone req.phone) (sms invalid_phone)
        (on_repo r g W (Repo.try_reserve_rate_limit r g req.phone rate_limit_ttl) >>= λ reserved.
          raise_if (not reserved) (sms phone_rate_limit)
          >> deliver r g W o req (new_sms_code o.rand req.phone req.purpose code_ttl o.now))
        s s refl refl (reserved-Unsent o req s (r.set_nx _ "1" rate_limit_ttl s.0.0))
