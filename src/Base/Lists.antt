-- ===== src/Base/Lists.antt =====
-- Lists by Boolean predicates, with lengths and counts in the native numbers.
use Prim.Native.Nat.{ℕ, suc}
use mathlib.Core.Path.{◌≡◌, refl, sym, ap, subst}
use mathlib.Core.Logic.{◌⊎◌, inl, inr}
use mathlib.Core.Bool.{Bool, true, false, not, ◌||◌}
use mathlib.Core.List.{List, [], ◌∷◌, ◌++◌, map}
use native.Mathlib.Omega.{arith}
use parkhub_api.Base.Tests.{if◌then◌else◌, Bool-cases}

module _ {ℓ} {A : Type ℓ} where
  abbrev pub length : List A → ℕ
  length [] = 0
  length (x ∷ xs) = suc (length xs)

  -- The elements that pass the test, in their order.
  abbrev pub keep : (A → Bool) → List A → List A
  keep p [] = []
  keep p (x ∷ xs) = if p x then x ∷ keep p xs else keep p xs

  abbrev pub count : (A → Bool) → List A → ℕ
  count p [] = 0
  count p (x ∷ xs) = if p x then suc (count p xs) else count p xs

  -- Whether some element passes the test.
  abbrev pub any : (A → Bool) → List A → Bool
  any p [] = false
  any p (x ∷ xs) = p x || any p xs

  abbrev pub All {κ} : (A → Type κ) → List A → Type κ
  All P [] = Unit
  All P (x ∷ xs) = P x × All P xs

module _ {A : Type 0} where
  -- `x` stands in the list.
  abbrev pub In : A → List A → Type 0
  In x [] = ⊥
  In x (y ∷ ys) = (x ≡ y) ⊎ In x ys

  pub All-In : (P : A → Type 0) (x : A) (xs : List A) → All P xs → In x xs → P x
  All-In P x [] h m = absurd m
  All-In P x (y ∷ ys) h (inl e) = subst P (sym e) h.0
  All-In P x (y ∷ ys) h (inr m) = All-In P x ys h.1 m

  pub All-append : (P : A → Type 0) (xs ys : List A) → All P xs → All P ys → All P (xs ++ ys)
  All-append P [] ys hx hy = hy
  All-append P (x ∷ xs) ys hx hy = (hx.0, All-append P xs ys hx.1 hy)

  pub All-keep : (P : A → Type 0) (p : A → Bool) (xs : List A) → All P xs → All P (keep p xs)
  All-keep P p [] h = tt
  All-keep P p (x ∷ xs) h = ground (arith, All-keep P p xs h.1)

  -- A map that keeps `P` on the elements that pass, and leaves the others.
  pub All-map :
      (P : A → Type 0) (f : A → A) (xs : List A)
      → ((x : A) → P x → P (f x))
      → All P xs
      → All P (map f xs)
  All-map P f [] k h = tt
  All-map P f (x ∷ xs) k h = (k x h.0, All-map P f xs k h.1)

  pub All-weaken : (P Q : A → Type 0) (xs : List A) → ((x : A) → P x → Q x) → All P xs → All Q xs
  All-weaken P Q [] k h = tt
  All-weaken P Q (x ∷ xs) k h = (k x h.0, All-weaken P Q xs k h.1)

  -- No element passes exactly when every element fails.
  pub any-false : (p : A → Bool) (xs : List A) → any p xs ≡ false → All (λ x. p x ≡ false) xs
  any-false p [] h = tt
  any-false p (x ∷ xs) h = ground (arith, any-false p xs)

  pub any-In : (p : A → Bool) (x : A) (xs : List A) → In x xs → p x ≡ true → any p xs ≡ true
  any-In p x [] m h = absurd m
  any-In p x (y ∷ ys) (inl e) h = rw (← e, h)
  any-In p x (y ∷ ys) (inr m) h = ground (arith, any-In p x ys m h)

  pub keep-append : (p : A → Bool) (xs ys : List A) → keep p (xs ++ ys) ≡ keep p xs ++ keep p ys
  keep-append p [] ys = refl
  keep-append p (x ∷ xs) ys = ground (arith, keep-append p xs ys)

  -- Filtering twice by tests of which the first lets through all that the second does.
  pub keep-keep :
      (p q : A → Bool) (xs : List A)
      → ((x : A) → p x ≡ true → q x ≡ true)
      → keep p (keep q xs) ≡ keep p xs
  keep-keep p q [] k = refl
  keep-keep p q (x ∷ xs) k = ground (arith, k x, keep-keep p q xs k)

  -- A map that moves no element which passes, and lets none in, leaves what is kept.
  pub keep-map :
      (p : A → Bool) (f : A → A) (xs : List A)
      → ((x : A) → p x ≡ true → f x ≡ x)
      → ((x : A) → p x ≡ false → p (f x) ≡ false)
      → keep p (map f xs) ≡ keep p xs
  keep-map p f [] same out = refl
  keep-map p f (x ∷ xs) same out = elim (Bool-cases (p x)) [
    | inl h ↦ rw (same x h, h) (ap (λ l. x ∷ l) (keep-map p f xs same out))
    | inr h ↦ rw (out x h, h) (keep-map p f xs same out)
  ]

  pub count-keep : (p : A → Bool) (xs : List A) → count p xs ≡ length (keep p xs)
  count-keep p [] = refl
  count-keep p (x ∷ xs) = ground (arith, count-keep p xs)

  -- Nothing is dropped where nothing fits.
  pub keep-not_none : (p : A → Bool) (xs : List A) → count p xs ≡ 0 → keep (λ x. not (p x)) xs ≡ xs
  keep-not_none p [] h = refl
  keep-not_none p (x ∷ xs) h = ground (arith, keep-not_none p xs)
