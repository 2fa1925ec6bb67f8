-- ===== src/Paging.antt =====
-- The pages of the List methods, written out in each service in the same words:
-- internal/domains/iot/service/device_service.go, internal/domains/parking/service/parking_lot_service.go,
-- internal/domains/identity/service/tenant_service.go and user_service.go.
use parkhub_api.Base.{ℕ, ◌+◌, ◌-◌, ◌*◌, ◌/◌, ◌≤◌, ◌<◌, arith, ltb, if◌then◌else◌}
use parkhub_api.Base.Int.{ℤ, pos, pos_part, leb_ℤ}

-- `if page <= 0 { page = 1 }`
unfoldable pub clean_page : ℤ → ℕ
clean_page page = if leb_ℤ page (pos 0) then 1 else pos_part page

-- `if pageSize <= 0 { pageSize = 20 }; if pageSize > 100 { pageSize = 100 }`
unfoldable pub clean_page_size : ℤ → ℕ
clean_page_size page_size =
    let size : ℕ = if leb_ℤ page_size (pos 0) then 20 else pos_part page_size in
    if ltb 100 size then 100 else size

-- `int(math.Ceil(float64(total) / float64(pageSize)))`, exact below 2 ^ 53.
unfoldable pub total_pages : ℕ → ℕ → ℕ
total_pages total page_size = (total + page_size - 1) / page_size

pub clean_page_pos : (page : ℤ) → 1 ≤ clean_page page
unfolding clean_page
clean_page_pos page = ground arith

pub clean_page_size_bounds : (s : ℤ) → (1 ≤ clean_page_size s) × (clean_page_size s ≤ 100)
unfolding clean_page_size
clean_page_size_bounds s = ground arith

-- The pages hold all the rows, and the last page is not empty.
pub total_pages_lem :
    (total size : ℕ)
    → 1 ≤ size
    → (total ≤ total_pages total size * size) × (total_pages total size * size < total + size)
unfolding total_pages
total_pages_lem total size h = grind arith
