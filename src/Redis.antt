-- ===== src/Redis.antt =====
-- Redis, behind go-redis: a parameter of the model. `view` is the value of a key that is alive, and the
-- milliseconds that it has left. A command whose reply is lost may have run or not. The laws are
-- Redis' documentation of each command; a script runs as one command.
pub mod Memory
use parkhub_api.Base.{
  ℕ, ◌-◌, ◌≡◌, ◌⊎◌, Bool, true, false, Option, none, some, String, List, [], ◌∷◌, Result, ok, err,
  Action, is_some, str_eq, leb, if◌then◌else◌,
}

abbrev pub Entries : Type 0
Entries = String → Option (String × ℕ)

abbrev pub put : String → String → ℕ → Entries → Entries
put k v ttl m k' = if str_eq k' k then some (v, ttl) else m k'

abbrev pub erase : String → Entries → Entries
erase k m k' = if str_eq k' k then none else m k'

abbrev pub value_of : Option (String × ℕ) → Option String
value_of none = none
value_of (some (v, ttl)) = some v

-- A key after some milliseconds.
abbrev pub age : ℕ → Option (String × ℕ) → Option (String × ℕ)
age n none = none
age n (some (v, ttl)) = if leb ttl n then none else some (v, ttl - n)

-- `SET k v PX ttl`, several in a pipeline.
abbrev pub put_all : List (String × String × ℕ) → Entries → Entries
put_all [] m = m
put_all ((k, v, ttl) ∷ sets) m = put_all sets (put k v ttl m)

-- What a Lua script of the source does with `redis.call`. It answers with a text, or with an optional
-- one where it can return `false`, which go-redis hands over as `redis.Nil`.
pub data Script (A : Type 0) : Type 0 where
  get : String → (Option String → Script A) → Script A
  del : String → Script A → Script A
  return : A → Script A

abbrev pub run : {A : Type 0} → Script A → Entries → A × Entries
run (get k f) m = run (f (value_of (m k))) m
run (del k s) m = run s (erase k m)
run (return a) m = (a, m)

module _ {Store : Type 0} (view : Store → Entries) where
  abbrev pub Got : String → Store → Result String (Option String) × Store → Type 0
  Got k d (ok v, d') = (v ≡ value_of (view d k)) × (view d' ≡ view d)
  Got k d (err e, d') = view d' ≡ view d

  abbrev pub Written : String → String → ℕ → Store → Result String (Unit {0}) × Store → Type 0
  Written k v ttl d (ok _, d') = view d' ≡ put k v ttl (view d)
  Written k v ttl d (err e, d') = (view d' ≡ view d) ⊎ (view d' ≡ put k v ttl (view d))

  abbrev pub SetNx : String → String → ℕ → Store → Result String Bool × Store → Type 0
  SetNx k v ttl d (ok true, d') = (view d k ≡ none) × (view d' ≡ put k v ttl (view d))
  SetNx k v ttl d (ok false, d') = (is_some (view d k) ≡ true) × (view d' ≡ view d)
  SetNx k v ttl d (err e, d') =
      (view d' ≡ view d) ⊎ ((view d k ≡ none) × (view d' ≡ put k v ttl (view d)))

  abbrev pub Erased : String → Store → Result String (Unit {0}) × Store → Type 0
  Erased k d (ok _, d') = view d' ≡ erase k (view d)
  Erased k d (err e, d') = (view d' ≡ view d) ⊎ (view d' ≡ erase k (view d))

  -- A pipeline is no transaction: where it fails, any of its commands may have run.
  abbrev pub Piped : List (String × String × ℕ) → Store → Result String (Unit {0}) × Store → Type 0
  Piped sets d (ok _, d') = view d' ≡ put_all sets (view d)
  Piped sets d (err e, d') = Unit

  abbrev pub Ran : {A : Type 0} → Script A → Store → Result String A × Store → Type 0
  Ran s d (ok a, d') = (a ≡ (run s (view d)).0) × (view d' ≡ (run s (view d)).1)
  Ran s d (err e, d') = (view d' ≡ view d) ⊎ (view d' ≡ (run s (view d)).1)

pub record Redis : Type 1 where
  pub Store : Type 0
  pub view : Store → Entries
  pub get : String → Action Store String (Option String)
  pub set : String → String → ℕ → Action Store String (Unit {0})
  pub set_nx : String → String → ℕ → Action Store String Bool
  pub del : String → Action Store String (Unit {0})
  pub pipeline : List (String × String × ℕ) → Action Store String (Unit {0})
  pub eval : {A : Type 0} → Script A → Action Store String A
  -- the store some milliseconds later
  pub later : ℕ → Store → Store
  pub get_law : (k : String) (d : Store) → Got view k d (get k d)
  pub set_law : (k v : String) (ttl : ℕ) (d : Store) → Written view k v ttl d (set k v ttl d)
  pub set_nx_law : (k v : String) (ttl : ℕ) (d : Store) → SetNx view k v ttl d (set_nx k v ttl d)
  pub del_law : (k : String) (d : Store) → Erased view k d (del k d)
  pub pipeline_law :
      (sets : List (String × String × ℕ)) (d : Store) → Piped view sets d (pipeline sets d)
  pub eval_law : {A : Type 0} (s : Script A) (d : Store) → Ran view s d (eval s d)
  pub later_law : (n : ℕ) (d : Store) (k : String) → view (later n d) k ≡ age n (view d k)
