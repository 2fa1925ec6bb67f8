-- ===== src/Sms/Cache/RateLimit.antt =====
-- The rate limit on a phone.
use parkhub_api.Base.{
  ℕ, ◌-◌, ◌≡◌, ◌≤◌, ◌<◌, refl, ◌∙◌, ap, Bool, true, false, Option, none, some, String, Result, ok,
  err, arith, eq_refl, is_some, subst,
}
use parkhub_api.Errors.{Error, other}
use parkhub_api.Redis.{Redis, SetNx, age}
use parkhub_api.Sms.Cache
use parkhub_api.Sms.Cache.{rate_limit_key}

module _ (r : Redis) (phone : String) where
  open r use {Store, view, later}

  abbrev limit_of : Store → Option (String × ℕ)
  limit_of d = view d (rate_limit_key phone)

  -- What a reservation ends with.
  abbrev pub Tried : ℕ → Store → Result Error Bool × Store → Type 0
  Tried ttl d (ok true, d') = (limit_of d ≡ none) × (limit_of d' ≡ some ("1", ttl))
  Tried ttl d (ok false, d') = (is_some (limit_of d) ≡ true) × (limit_of d' ≡ limit_of d)
  Tried ttl d (err e, d') = Unit

  reserved_Tried :
      (ttl : ℕ) (d : Store) (x : Result String Bool × Store)
      → SetNx view (rate_limit_key phone) "1" ttl d x
      → Tried ttl d (elim x.0 as (λ _. Result Error Bool × Store) [
        | ok b ↦ (ok b, x.1)
        | err e ↦ (err (other e), x.1)
      ])
  reserved_Tried ttl d (ok true, d') (free, v) =
      (free, ap (λ m. m (rate_limit_key phone)) v ∙ rw (eq_refl (rate_limit_key phone)) refl)
  reserved_Tried ttl d (ok false, d') (held, v) = (held, ap (λ m. m (rate_limit_key phone)) v)
  reserved_Tried ttl d (err e, d') h = tt

  pub try_reserve_rate_limit-Tried :
      (ttl : ℕ) (d : Store) → Tried ttl d (Cache.try_reserve_rate_limit r phone ttl d)
  unfolding Cache.try_reserve_rate_limit
  try_reserve_rate_limit-Tried ttl d =
      reserved_Tried ttl d (r.set_nx _ "1" ttl d) (r.set_nx_law _ "1" ttl d)

  aged-some : (n ttl : ℕ) → n < ttl → age n (some ("1", ttl)) ≡ some ("1", ttl - n)
  aged-some n ttl h = ground (arith, h)

  aged-none : (n ttl : ℕ) → ttl ≤ n → age n (some ("1", ttl)) ≡ none
  aged-none n ttl h = ground (arith, h)

  Tried-false :
      (ttl : ℕ) (d : Store) (x : Result Error Bool × Store) (v : String × ℕ) (b : Bool)
      → limit_of d ≡ some v
      → Tried ttl d x
      → x.0 ≡ ok b
      → b ≡ false
  Tried-false ttl d (ok true, d') v b e (free, _) h = ground (arith, e, free)
  Tried-false ttl d (ok false, d') v b e t h = ground (arith, h)
  Tried-false ttl d (err x, d') v b e t h = ground (arith, h)

  Tried-true :
      (ttl : ℕ) (d : Store) (x : Result Error Bool × Store) (b : Bool)
      → limit_of d ≡ none
      → Tried ttl d x
      → x.0 ≡ ok b
      → b ≡ true
  Tried-true ttl d (ok true, d') b e t h = ground (arith, h)
  Tried-true ttl d (ok false, d') b e (held, _) h = ground (arith, e, held)
  Tried-true ttl d (err x, d') b e t h = ground (arith, h)

  -- A reservation that was given holds for exactly its time: a second one that Redis answers, made
  -- with nothing in between, is refused before that time is over and given from then on.
  pub try_reserve-window :
      (ttl n : ℕ) (d d' : Store) (b : Bool)
      → Cache.try_reserve_rate_limit r phone ttl d ≡ (ok true, d')
      → (Cache.try_reserve_rate_limit r phone ttl (later n d')).0 ≡ ok b
      → (n < ttl → b ≡ false) × (ttl ≤ n → b ≡ true)
  try_reserve-window ttl n d d' b first second =
      let given = subst (Tried ttl d) first (try_reserve_rate_limit-Tried ttl d) in
      let again = try_reserve_rate_limit-Tried ttl (later n d') in
      let aged = r.later_law n d' (rate_limit_key phone) ∙ ap (age n) given.1 in
      (
        (λ soon. Tried-false ttl (later n d') _ _ b (aged ∙ aged-some n ttl soon) again second),
        (λ late. Tried-true ttl (later n d') _ b (aged ∙ aged-none n ttl late) again second),
      )
