-- ===== src/Redis/Memory.antt =====
-- A store in memory, to run the model on concrete inputs and to show that the laws of `Redis` can hold.
use parkhub_api.Base.{
  ℕ, ◌≡◌, refl, Bool, true, false, Option, none, some, String, ok, is_some, arith,
}
use parkhub_api.Redis.{Redis, Entries, SetNx, put, put_all, erase, value_of, age, run}

is_some-none : {A : Type 0} (o : Option A) → is_some o ≡ false → o ≡ none
is_some-none none h = refl
is_some-none (some a) h = ground arith

abbrev pub put_new : String → String → ℕ → Entries → Option (String × ℕ) → Bool × Entries
put_new k v ttl m none = (true, put k v ttl m)
put_new k v ttl m (some e) = (false, m)

pub put_new_lem :
    (k v : String) (ttl : ℕ) (m : Entries) (o : Option (String × ℕ))
    → m k ≡ o
    → SetNx (λ m. m) k v ttl m (ok (put_new k v ttl m o).0, (put_new k v ttl m o).1)
put_new_lem k v ttl m none h = (h, refl)
put_new_lem k v ttl m (some e) h = (rw h refl, refl)

abbrev pub memory : Redis
memory = record {
  Store = Entries;
  view = λ m. m;
  get = λ k m. (ok (value_of (m k)), m);
  set = λ k v ttl m. (ok tt, put k v ttl m);
  set_nx = λ k v ttl m. (ok (put_new k v ttl m (m k)).0, (put_new k v ttl m (m k)).1);
  del = λ k m. (ok tt, erase k m);
  pipeline = λ sets m. (ok tt, put_all sets m);
  eval = λ s m. (ok (run s m).0, (run s m).1);
  later = λ n m k. age n (m k);
  get_law = λ k m. (refl, refl);
  set_law = λ k v ttl m. refl;
  set_nx_law = λ k v ttl m. put_new_lem k v ttl m (m k) refl;
  del_law = λ k m. refl;
  pipeline_law = λ sets m. refl;
  eval_law = λ s m. (refl, refl);
  later_law = λ n m k. refl;
}
