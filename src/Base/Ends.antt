-- ===== src/Base/Ends.antt =====
-- How code that may fail ends, from one state: `Q` of its answer and the state behind it, or `X` of its
-- error and that state. The rules follow the shape of the code; a component brings its own for its calls.
use mathlib.Core.Path.{◌≡◌, refl}
use mathlib.Core.Bool.{Bool, true, false}
use parkhub_api.Base.Results.{Result, ok, err, Action, ◌>>=◌, ◌>>◌, catch, or_else, lift, raise_if}

module _ {S E A : Type 0} where
  abbrev pub Ends : (A → S → Type 0) → (E → S → Type 0) → Result E A × S → Type 0
  Ends Q X (ok a, s) = Q a s
  Ends Q X (err e, s) = X e s

  pub Ends-weaken :
      (Q Q' : A → S → Type 0) (X X' : E → S → Type 0)
      → ((a : A) (s : S) → Q a s → Q' a s)
      → ((e : E) (s : S) → X e s → X' e s)
      → (r : Result E A × S) → Ends Q X r
      → Ends Q' X' r
  Ends-weaken Q Q' X X' k l (ok a, s) h = k a s h
  Ends-weaken Q Q' X X' k l (err e, s) h = l e s h

  pub Ends-lift :
      (Q : A → S → Type 0) (X : E → S → Type 0) (r : Result E A) (s : S)
      → ((a : A) → r ≡ ok a → Q a s)
      → ((e : E) → r ≡ err e → X e s)
      → Ends Q X (lift r s)
  Ends-lift Q X (ok a) s good bad = good a refl
  Ends-lift Q X (err e) s good bad = bad e refl

  -- What holds however it ends.
  pub Ends-same : (P : S → Type 0) (r : Result E A × S) → Ends (λ _. P) (λ _. P) r → P r.1
  Ends-same P (ok a, s) h = h
  Ends-same P (err e, s) h = h

  pub Ends-anyway : (P : S → Type 0) (r : Result E A × S) → P r.1 → Ends (λ _. P) (λ _. P) r
  Ends-anyway P (ok a, s) h = h
  Ends-anyway P (err e, s) h = h

  pub Ends-both :
      (Q Q' : A → S → Type 0) (X X' : E → S → Type 0) (r : Result E A × S)
      → Ends Q X r
      → Ends Q' X' r
      → Ends (λ a s. Q a s × Q' a s) (λ e s. X e s × X' e s) r
  Ends-both Q Q' X X' (ok a, s) h k = (h, k)
  Ends-both Q Q' X X' (err e, s) h k = (h, k)

  or_else-Ends_of :
      (Q : A → S → Type 0) (X : E → S → Type 0) (b : A) (r : Result E A × S)
      → Ends Q (λ _ s. Q b s) r
      → Ends Q X (or_else {E = E} b (λ (_ : S). r) r.1)
  or_else-Ends_of Q X b (ok a, s) h = h
  or_else-Ends_of Q X b (err e, s) h = h

  pub Ends-or_else :
      (Q : A → S → Type 0) (X : E → S → Type 0) (b : A) (m : Action S E A) (s : S)
      → Ends Q (λ _ s'. Q b s') (m s)
      → Ends Q X (or_else b m s)
  Ends-or_else Q X b m s h = or_else-Ends_of Q X b (m s) h

module _ {S E A B : Type 0} (Q : A → S → Type 0) (R : B → S → Type 0) (X : E → S → Type 0) where
  bound :
      (f : A → Action S E B) (r : Result E A × S)
      → Ends Q X r
      → ((a : A) (s : S) → Q a s → Ends R X (f a s))
      → Ends R X (((λ (_ : S). r) >>= f) r.1)
  bound f (ok a, s) h k = k a s h
  bound f (err e, s) h k = h

  pub Ends-bind :
      (m : Action S E A) (f : A → Action S E B) (s : S)
      → Ends Q X (m s)
      → ((a : A) (s' : S) → Q a s' → Ends R X (f a s'))
      → Ends R X ((m >>= f) s)
  Ends-bind m f s h k = bound f (m s) h k

module _ {S E B : Type 0} (R : B → S → Type 0) (X : E → S → Type 0) where
  -- The two that touch no state, with what comes behind them.
  pub Ends-lift_then :
      {A : Type 0} (r : Result E A) (f : A → Action S E B) (s : S)
      → ((a : A) → r ≡ ok a → Ends R X (f a s))
      → ((e : E) → r ≡ err e → X e s)
      → Ends R X ((lift r >>= f) s)
  Ends-lift_then (ok a) f s good bad = good a refl
  Ends-lift_then (err e) f s good bad = bad e refl

  pub Ends-raise_if_then :
      (c : Bool) (e : E) (m : Action S E B) (s : S)
      → (c ≡ true → X e s)
      → (c ≡ false → Ends R X (m s))
      → Ends R X ((raise_if c e >> m) s)
  Ends-raise_if_then true e m s bad good = bad refl
  Ends-raise_if_then false e m s bad good = good refl

module _ {S E F A : Type 0} (Q : A → S → Type 0) (X : E → S → Type 0) where
  caught :
      (f : F → E) (r : Result F A × S)
      → Ends Q (λ e s. X (f e) s) r
      → Ends Q X (catch f (λ (_ : S). r) r.1)
  caught f (ok a, s) h = h
  caught f (err e, s) h = h

  pub Ends-catch :
      (f : F → E) (m : Action S F A) (s : S)
      → Ends Q (λ e s'. X (f e) s') (m s)
      → Ends Q X (catch f m s)
  Ends-catch f m s h = caught f (m s) h

  -- The same, with what `m` says of its own errors.
  pub Ends-catch_as :
      (Y : F → S → Type 0) (f : F → E) (m : Action S F A) (s : S)
      → Ends Q Y (m s)
      → ((e : F) (s' : S) → Y e s' → X (f e) s')
      → Ends Q X (catch f m s)
  Ends-catch_as Y f m s h k =
      Ends-catch f m s (Ends-weaken Q Q Y (λ e s'. X (f e) s') (λ _ _ q. q) k (m s) h)

module _ {S E : Type 0} (Q : S → Type 0) (X : E → S → Type 0) where
  pub Ends-raise_if :
      (c : Bool) (e : E) (s : S)
      → (c ≡ true → X e s)
      → (c ≡ false → Q s)
      → Ends (λ _. Q) X (raise_if c e s)
  Ends-raise_if true e s bad good = bad refl
  Ends-raise_if false e s bad good = good refl
