-- ===== src/Gorm/Groups.antt =====
-- The counts of a GROUP BY, collected by a loop into a structure with one number for each known key.
use parkhub_api.Base.{
  ℕ, ◌≡◌, ◌⊎◌, refl, ◌∙◌, sym, subst, ap, inl, inr, Bool, true, ◌&&◌, List, [], ◌∷◌, count, any,
  All, In, Bool-cases, arith, if◌then◌else◌,
}
use parkhub_api.Gorm.Logic.{CountsGroups}

-- A test that counts no element, or one that it lets through.
count-cases :
    {A : Type 0} (q : A → Bool) (xs : List A)
    → (count q xs ≡ 0) ⊎ ((x : A) × In x xs × (q x ≡ true))
count-cases q [] = inl refl
count-cases q (x ∷ xs) = elim (Bool-cases (q x)) [
  | inl e ↦ inr (x, inl refl, e)
  | inr e ↦ elim (count-cases q xs) [ inl z ↦ inl (rw e z) | inr (y, i, f) ↦ inr (y, inr i, f) ]
]

-- The loop sets the number of the key `k` where it meets `k`, and else leaves it.
pub record Collects {K C : Type 0} (same : K → K → Bool) (k : K) (read : C → ℕ)
    (step : K × ℕ → C → C) (loop : List (K × ℕ) → C → C) : Type 0 where
  pub again : (j : K) → same j j ≡ true
  pub known : (j : K) → same j k ≡ true → j ≡ k
  pub known_sym : (j : K) → same k j ≡ true → j ≡ k
  pub reads : (e : K × ℕ) (c : C) → read (step e c) ≡ (if same k e.0 then e.1 else read c)
  pub ends : (c : C) → loop [] c ≡ c
  pub goes_on : (e : K × ℕ) (l : List (K × ℕ)) (c : C) → loop (e ∷ l) c ≡ loop l (step e c)

module _ {R K C : Type 0} (same : K → K → Bool) (k : K) (read : C → ℕ) (step : K × ℕ → C → C)
    (loop : List (K × ℕ) → C → C) (law : Collects same k read step loop) (key : R → K)
    (p : R → Bool) (rs : List R) where
  abbrev counted_as : K → ℕ
  counted_as j = count (λ r. p r && same (key r) j) rs

  kept_count :
      (l : List (K × ℕ)) (c : C)
      → All (λ e. e.1 ≡ counted_as e.0) l
      → (read c ≡ counted_as k) ⊎ (any (λ e. same k e.0) l ≡ true)
      → read (loop l c) ≡ counted_as k
  kept_count [] c h (inl e) = ap read (law.ends c) ∙ e
  kept_count [] c h (inr e) = ground (arith, e)
  kept_count (e ∷ l) c h o = ap read (law.goes_on e l c) ∙ elim (Bool-cases (same k e.0)) [
    | inl q ↦
        kept_count l (step e c) h.1
          (inl (law.reads e c ∙ rw q (h.0 ∙ ap counted_as (law.known_sym e.0 q))))
    | inr q ↦ kept_count l (step e c) h.1 (elim o [
      | inl kept ↦ inl (law.reads e c ∙ rw q kept)
      | inr some_fits ↦ inr (rw q at some_fits)
    ])
  ]

  -- What the loop has for `k` is the number of rows of `k`.
  pub collected :
      (l : List (K × ℕ)) (c : C)
      → read c ≡ 0
      → CountsGroups same key p l rs
      → read (loop l c) ≡ counted_as k
  collected l c zero (counted, covered) = elim (count-cases (λ r. p r && same (key r) k) rs) [
    | inl z ↦ kept_count l c counted (inl (zero ∙ sym z))
    | inr (r, stored, fits) ↦ kept_count l c counted (
        inr (
          subst (λ j. any (λ e. same j e.0) l ≡ true) (law.known (key r) (ground (arith, fits)))
            (covered law.again r (record { stored = stored; fits = ground (arith, fits) }))))
  ]
