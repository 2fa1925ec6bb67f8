-- ===== src/Identity/UserRepo/Timed.antt =====
-- What the write-back of a user who logs in does to the table: it writes all fields, and only the times
-- are other ones.
use parkhub_api.Base.{
  ℕ, ◌≡◌, refl, subst, Bool, true, false, not, Option, none, some, List, [], ◌∷◌, keep, keep-map,
  map, In, inl, inr, arith, eq_iff, eq_refl, if◌then◌else◌, ap,
}
use parkhub_api.Gorm.{assign}
use parkhub_api.Identity.User.{User}
use parkhub_api.Identity.UserDao.{UserRow, has_id, set_nonzero, column_or}
use parkhub_api.Identity.UserRepo.{to_domain_user, to_user_entity}

abbrev pub timed : UserRow → ℕ → ℕ → UserRow
timed row login now = record row { last_login_at = some login; updated_at = now }

if_same : {A : Type 0} (c : Bool) (x : A) → (if c then x else x) ≡ x
if_same true x = refl
if_same false x = refl

column_or_same : {A : Type 0} (x : Option A) → column_or x x ≡ x
column_or_same none = refl
column_or_same (some x) = refl

own_row :
    (row : UserRow) (login now : ℕ)
    → set_nonzero
        (to_user_entity (record (to_domain_user row) { last_login_at = some login }))
        now
        row
      ≡ timed row login now
unfolding to_domain_user to_user_entity
own_row row login now = simp (if_same, column_or_same)

In-map : {A B : Type 0} (f : A → B) (x : A) (xs : List A) → In x xs → In (f x) (map f xs)
In-map f x [] m = absurd m
In-map f x (y ∷ ys) (inl e) = inl (ap f e)
In-map f x (y ∷ ys) (inr m) = inr (In-map f x ys m)

-- The row has the new times, and the rows of other ids are the same.
pub record IsTimed (row : UserRow) (login now : ℕ) (before after : List UserRow) : Type 0 where
  pub own : In (timed row login now) after
  pub others : keep (λ r. not (has_id row.id r)) after ≡ keep (λ r. not (has_id row.id r)) before

-- What the update does to each row.
abbrev rewrite : UserRow → ℕ → ℕ → UserRow → UserRow
rewrite row login now =
    assign (has_id row.id) (
      set_nonzero (to_user_entity (record (to_domain_user row) { last_login_at = some login })) now)

rewrite-row : (row : UserRow) (login now : ℕ) → rewrite row login now row ≡ timed row login now
rewrite-row row login now = rw (eq_refl row.id) (own_row row login now)

rewrite-IsTimed :
    (row : UserRow) (login now : ℕ) (rs : List UserRow)
    → In row rs
    → IsTimed row login now rs (map (rewrite row login now) rs)
unfolding to_domain_user to_user_entity
rewrite-IsTimed row login now rs m = record {
  own =
      subst (λ r. In r (map (rewrite row login now) rs)) (rewrite-row row login now)
        (In-map (rewrite row login now) row rs m);
  others =
      keep-map (λ r. not (has_id row.id r)) (rewrite row login now) rs
        (λ r out. ground (arith, out))
        (λ r own. ground (arith, own, eq_iff r.id row.id, eq_iff row.id row.id));
}

-- The same for the rows of `Update`.
pub written-IsTimed :
    (row : UserRow) (login now : ℕ) (rs : List UserRow)
    → In row rs
    → (let u : User = record (to_domain_user row) { last_login_at = some login } in
        IsTimed row login now rs
          (map (assign (has_id u.id) (set_nonzero (to_user_entity u) now)) rs))
unfolding to_domain_user
written-IsTimed row login now rs m = rewrite-IsTimed row login now rs m
