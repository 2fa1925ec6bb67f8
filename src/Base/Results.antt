-- ===== src/Base/Results.antt =====
-- Go's `(value, error)` as a result, and code that reads and writes a store and may fail. What was
-- written before an error stays written, so the store comes back beside the error too.
use mathlib.Core.Path.{◌≡◌, refl}
use mathlib.Core.Bool.{Bool}
use mathlib.Core.Logic.{◌⊎◌, inl, inr}
use parkhub_api.Base.Tests.{if◌then◌else◌}

pub data Result (E A : Type 0) : Type 0 where
  ok : A → Result E A
  err : E → Result E A

pub Result-cases :
    {E A : Type 0} (r : Result E A) → ((a : A) × (r ≡ ok a)) ⊎ ((e : E) × (r ≡ err e))
Result-cases (ok a) = inl (a, refl)
Result-cases (err e) = inr (e, refl)

abbrev pub Action : Type 0 → Type 0 → Type 0 → Type 0
Action S E A = S → Result E A × S

module _ {S E A : Type 0} where
  abbrev pub pure : A → Action S E A
  pure a s = (ok a, s)

  abbrev pub raise : E → Action S E A
  raise e s = (err e, s)

  abbrev pub lift : Result E A → Action S E A
  lift r s = (r, s)

  -- `if err != nil` around a call: the other component's error becomes one of ours.
  abbrev pub catch : {F : Type 0} → (F → E) → Action S F A → Action S E A
  catch f m s = let (r, s') = m s in elim r [ ok a ↦ (ok a, s') | err e ↦ (err (f e), s') ]

  -- An error is dropped, as by `_ = f()` or by `if err != nil { return }`.
  abbrev pub or_else : A → Action S E A → Action S E A
  or_else a m s = let (r, s') = m s in elim r [ ok b ↦ (ok b, s') | err e ↦ (ok a, s') ]

infixl 5 ◌>>=◌ ◌>>◌
abbrev pub ◌>>=◌ : {S E A B : Type 0} → Action S E A → (A → Action S E B) → Action S E B
◌>>=◌ m f s = let (r, s') = m s in elim r [ ok a ↦ f a s' | err e ↦ (err e, s') ]

abbrev pub ◌>>◌ : {S E B : Type 0} → Action S E (Unit {0}) → Action S E B → Action S E B
m >> k = m >>= λ _. k

-- `if cond { return err }`
abbrev pub raise_if : {S E : Type 0} → Bool → E → Action S E (Unit {0})
raise_if c e s = (if c then err e else ok tt, s)
