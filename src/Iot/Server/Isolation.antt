-- ===== src/Iot/Server/Isolation.antt =====
-- A tenant's devices are out of reach of requests that come with another context.
use parkhub_api.Base.{
  ℕ, ◌≡◌, ◌≢◌, refl, sym, ap, ◌∙◌, subst, Bool, true, false, not, String, List, [], ◌∷◌, keep,
  keep-keep, str_eq, eq_iff, if◌then◌else◌, All, arith,
}
use parkhub_api.Gorm.{Gorm}
use parkhub_api.Iot.Dao.{DeviceRow}
use parkhub_api.Iot.Service.Calls.{Call, perform, perform_all}
use parkhub_api.Iot.Service.Isolation.{of_others, perform_all-of_others}
use parkhub_api.Iot.Server.Calls.{Request, call_of, is_incomplete, serve, serve_lem}

abbrev pub rows_of : String → List DeviceRow → List DeviceRow
rows_of v = keep (λ r. str_eq r.tenant_id v)

rows_of-of_others :
    (v t : String) (rs : List DeviceRow) → t ≢ v → rows_of v (of_others t rs) ≡ rows_of v rs
rows_of-of_others v t rs ne =
    keep-keep (λ r. str_eq r.tenant_id v) (λ r. not (str_eq r.tenant_id t)) rs
      (λ r h. ground (arith, ne, h, eq_iff r.tenant_id t, eq_iff r.tenant_id v))

module _ (g : Gorm DeviceRow) where
  open g use {Db, rows}

  -- Requests with their contexts and times, one behind the other.
  unfoldable pub serve_all : List (String × Request × ℕ) → Db → Db
  serve_all [] d = d
  serve_all (q ∷ qs) d = serve_all qs (serve g q.0 (q.1, q.2) d)

  choose : (P : Db → Type 0) (c : Bool) (x y : Db) → P x → P y → P (if c then x else y)
  choose P true x y h k = h
  choose P false x y h k = k

  perform-rows_of :
      (v t : String) (c : Call × ℕ) (d : Db)
      → t ≢ v
      → rows_of v (rows (perform g t c d)) ≡ rows_of v (rows d)
  unfolding perform_all
  perform-rows_of v t c d ne =
      sym (rows_of-of_others v t (rows (perform g t c d)) ne)
      ∙ ap (rows_of v) (perform_all-of_others g t (c ∷ []) d)
      ∙ rows_of-of_others v t (rows d) ne

  serve-rows_of :
      (v t : String) (r : Request) (now : ℕ) (d : Db)
      → t ≢ v
      → rows_of v (rows (serve g t (r, now) d)) ≡ rows_of v (rows d)
  serve-rows_of v t r now d ne = subst Same (sym (serve_lem g t r now d)) (
      choose Same (str_eq t "") d _ refl
        (choose Same (is_incomplete r) d _ refl (perform-rows_of v t (call_of r, now) d ne)))
    where
      Same : Db → Type 0
      Same s = rows_of v (rows s) ≡ rows_of v (rows d)

  -- Whatever requests come, in any order and however they end, the rows of a tenant stay as they
  -- are if no request's context holds that tenant.
  pub serve_all-rows_of :
      (v : String) (qs : List (String × Request × ℕ)) (d : Db)
      → All (λ q. q.0 ≢ v) qs
      → rows_of v (rows (serve_all qs d)) ≡ rows_of v (rows d)
  unfolding serve_all
  serve_all-rows_of v [] d ne = refl
  serve_all-rows_of v (q ∷ qs) d ne =
      serve_all-rows_of v qs (serve g q.0 (q.1, q.2) d) ne.1 ∙ serve-rows_of v q.0 q.1 q.2 d ne.0
