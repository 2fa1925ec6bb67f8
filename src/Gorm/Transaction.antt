-- ===== src/Gorm/Transaction.antt =====
-- A loop in a transaction: each round goes from `I` of the items left to `I` of the items behind
-- the first of them; on an error the transaction has changed nothing.
use parkhub_api.Base.{
  ℕ, ◌+◌, ◌≡◌, sym, subst, Option, none, some, List, [], ◌∷◌, Result, ok, err, Action, length,
  arith,
}
use parkhub_api.Gorm.{Gorm, DbError, Transacted}
use parkhub_api.Gorm.Logic.{Triple, Post}

module _ {S E : Type 0} where
  -- Goes on behind a round that succeeded, and leaves the loop behind one that failed.
  abbrev pub next_round : Result E (Unit {0}) × S → (S → ℕ × Option E × S) → ℕ → ℕ × Option E × S
  next_round (ok _, s) rest n = rest s
  next_round (err e, s) rest n = (n, some e, s)

  -- `for _, x := range xs { …; affected++ }`, with the count of the rounds that went through.
  unfoldable pub for_each :
      {X : Type 0} → (X → Action S E (Unit {0})) → List X → ℕ → S → ℕ × Option E × S
  for_each step [] n s = (n, none, s)
  for_each step (x ∷ xs) n s = next_round (step x s) (for_each step xs (n + 1)) n

module _ {R : Type 0} (g : Gorm R) where
  open g use {Db, rows}

  module _ {E : Type 0} where
    -- A whole loop: all of `k` rounds with `Q`, or an error with `P`.
    abbrev pub Looped : (List R → Type 0) → (List R → Type 0) → ℕ → ℕ → ℕ × Option E × Db → Type 0
    Looped Q P n k (m, none, d) = (m ≡ n + k) × Q (rows d)
    Looped Q P n k (m, some e, d) = P (rows d)

    pub Looped-weaken :
        (Q Q' P : List R → Type 0) (n k : ℕ) (r : ℕ × Option E × Db)
        → ((rs : List R) → Q rs → Q' rs)
        → Looped Q P n k r
        → Looped Q' P n k r
    Looped-weaken Q Q' P n k (m, none, d) w h = (h.0, w (rows d) h.1)
    Looped-weaken Q Q' P n k (m, some e, d) w h = h

    Looped-suc :
        (Q P : List R → Type 0) (n k : ℕ) (r : ℕ × Option E × Db)
        → Looped Q P (n + 1) k r
        → Looped Q P n (k + 1) r
    Looped-suc Q P n k (m, none, d) h = (omega (arith, h.0), h.1)
    Looped-suc Q P n k (m, some e, d) h = h

    next_round-Looped :
        (Q P : List R → Type 0) (I : List R → Type 0) (n k : ℕ) (rest : Db → ℕ × Option E × Db)
        (r : Result E (Unit {0}) × Db)
        → ((d : Db) → I (rows d) → Looped Q P (n + 1) k (rest d))
        → Post g (λ _. I) P r
        → Looped Q P n (k + 1) (next_round r rest n)
    next_round-Looped Q P I n k rest (ok _, d) go h = Looped-suc Q P n k (rest d) (go d h)
    next_round-Looped Q P I n k rest (err e, d) go h = h

    module _ {X : Type 0} (P : List R → Type 0) (I : List X → List R → Type 0)
        (step : X → Action Db E (Unit {0})) where
      pub for_each-Looped :
          ((x : X) (xs : List X) → Triple g (I (x ∷ xs)) (step x) (λ _. I xs) P)
          → (xs : List X) (n : ℕ) (d : Db) → I xs (rows d)
          → Looped (I []) P n (length xs) (for_each step xs n d)
      unfolding for_each
      for_each-Looped round [] n d h = (omega arith, h)
      for_each-Looped round (x ∷ xs) n d h =
          subst (λ k. Looped (I []) P n k (for_each step (x ∷ xs) n d)) (omega arith)
            (next_round-Looped (I []) P (I xs) n (length xs) (for_each step xs (n + 1)) (step x d)
              (λ d' h'. for_each-Looped round xs (n + 1) d' h') ((round x xs).at d h))

    -- Committed: `Q` of the rows and all rounds made. Rolled back: the rows are as they were.
    abbrev pub Committed : (List R → Type 0) → ℕ → Db → ℕ × Option E × Db → Type 0
    Committed Q k d (m, none, d') = (m ≡ k) × Q (rows d')
    Committed Q k d (m, some e, d') = rows d' ≡ rows d

    Committed-of_Transacted :
        (Q P : List R → Type 0) (body : ℕ → Db → ℕ × Option E × Db) (k : ℕ) (d : Db)
        (r : ℕ × Option E × Db)
        → ((d₀ : Db) → rows d₀ ≡ rows d → Looped Q P 0 k (body 0 d₀))
        → Transacted rows body 0 d r
        → Committed Q k d r
    Committed-of_Transacted Q P body k d (m, none, d') loop (d₀, d₁, begun, ran, ended) =
        let (made, after) = subst (Looped Q P 0 k) ran (loop d₀ begun) in
        (omega (arith, made), subst Q (sym ended) after)
    Committed-of_Transacted Q P body k d (m, some e, d') loop same = same

    pub transaction-Committed :
        (Q P : List R → Type 0) (commit : DbError → E) (body : ℕ → Db → ℕ × Option E × Db) (k : ℕ)
        (d : Db)
        → ((d₀ : Db) → rows d₀ ≡ rows d → Looped Q P 0 k (body 0 d₀))
        → Committed Q k d (g.transaction commit body 0 d)
    transaction-Committed Q P commit body k d loop =
        Committed-of_Transacted Q P body k d (g.transaction commit body 0 d) loop
          (g.transaction_law commit body 0 d)

    pub Committed-weaken :
        (Q Q' : List R → Type 0) (k : ℕ) (d : Db) (r : ℕ × Option E × Db)
        → ((rs : List R) → Q rs → Q' rs)
        → Committed Q k d r
        → Committed Q' k d r
    Committed-weaken Q Q' k d (m, none, d') w c = (c.0, w (rows d') c.1)
    Committed-weaken Q Q' k d (m, some e, d') w c = c

    -- What holds before and behind a commit holds behind the transaction.
    pub Committed-Keeps :
        (P : List R → Type 0) (k : ℕ) (d : Db) (r : ℕ × Option E × Db)
        → Committed P k d r
        → P (rows d)
        → P (rows r.2)
    Committed-Keeps P k d (m, none, d') c h = c.1
    Committed-Keeps P k d (m, some e, d') c h = subst P (sym c) h
