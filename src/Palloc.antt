-- ===== src/Palloc.antt =====
-- pintos/src/threads/palloc.c: the page allocator. An address is a number below 2^32, NULL is 0;
-- `none` is a kernel panic. A call is one function: the code takes the pool's lock to get
-- pages, and none to free them.
pub mod Pool
pub mod Pages
pub mod Groups
pub mod Frees
pub mod Owners
use ospersonal.Common.{
  ℕ, ◌+◌, ◌-◌, ◌*◌, ◌/◌, ◌%◌, ◌^◌, Bool, true, false, ◌&&◌, ◌||◌, Option, none, some, List, leb,
  ltb, ◌==◌, not, if◌then◌else◌, ◌>>=◌, ◌>>◌, assert,
}
use ospersonal.Bitmap.{
  Bitmap, bitmap_scan_and_flip, bitmap_set_multiple, bitmap_all, bitmap_size, bitmap_buf_size,
  bitmap_create_in_buf,
}

abbrev pub page_size : ℕ
page_size = 4096

-- `struct pool`.
pub record PagePool : Type 0 where
  pub used_map : Bitmap
  pub base : ℕ

-- The two pools, and the bytes of memory.
pub record Memory : Type 0 where
  pub kernel_pool : PagePool
  pub user_pool : PagePool
  pub bytes : ℕ → ℕ

-- `memset`.
abbrev pub memset : (ℕ → ℕ) → ℕ → ℕ → ℕ → ℕ → ℕ
memset m start value len a = if leb start a && ltb a (start + len) then value else m a

abbrev pub pg_no : ℕ → ℕ
pg_no a = a / page_size

abbrev pub pg_ofs : ℕ → ℕ
pg_ofs a = a % page_size

abbrev pub page_from_pool : PagePool → ℕ → Bool
page_from_pool p page =
    leb (pg_no p.base) (pg_no page)
    && ltb (pg_no page) ((pg_no p.base + bitmap_size p.used_map) % 2 ^ 32)

abbrev pub page_address : PagePool → Option ℕ → ℕ
page_address p none = 0
page_address p (some i) = (p.base + page_size * i) % 2 ^ 32

-- The part of `palloc_get_multiple` that works on the pool.
unfoldable pub pool_get : PagePool → ℕ → Option (ℕ × PagePool)
pool_get p page_cnt = bitmap_scan_and_flip p.used_map 0 page_cnt false >>= λ r.
    some (page_address p r.0, record p { used_map = r.1 })

abbrev pub pool_of : Memory → Bool → PagePool
pool_of m user = if user then m.user_pool else m.kernel_pool

abbrev pub put_pool : Memory → Bool → PagePool → Memory
put_pool m user p = if user then record m { user_pool = p } else record m { kernel_pool = p }

-- The end of `palloc_get_multiple`, from the pool's answer on. The flags PAL_USER, PAL_ZERO and
-- PAL_ASSERT are the three Booleans.
unfoldable pub get_answer : Memory → Bool → Bool → Bool → ℕ → ℕ → PagePool → Option (ℕ × Memory)
get_answer m user zero must page_cnt pages pool =
    let m' = put_pool m user pool in
    if pages == 0
    then (if must then none else some (0, m'))
    else if zero
    then some (pages, record m' { bytes = memset m.bytes pages 0 (page_size * page_cnt) })
    else some (pages, m')

unfoldable pub palloc_get_multiple : Memory → Bool → Bool → Bool → ℕ → Option (ℕ × Memory)
palloc_get_multiple m user zero must page_cnt =
    if page_cnt == 0
    then some (0, m)
    else (pool_get (pool_of m user) page_cnt >>= λ r. get_answer m user zero must page_cnt r.0 r.1)

abbrev pub palloc_get_page : Memory → Bool → Bool → Bool → Option (ℕ × Memory)
palloc_get_page m user zero must = palloc_get_multiple m user zero must 1

-- The part of `palloc_free_multiple` that works on the pool.
unfoldable pub pool_free : PagePool → ℕ → ℕ → Option PagePool
pool_free p pages page_cnt =
    let page_idx = pg_no pages - pg_no p.base in
    bitmap_all p.used_map page_idx page_cnt >>= λ used. do
      assert used
      bitmap_set_multiple p.used_map page_idx page_cnt false >>= λ b.
          some (record p { used_map = b })

unfoldable pub free_in : Memory → Bool → ℕ → ℕ → Option Memory
free_in m user pages page_cnt = pool_free (pool_of m user) pages page_cnt >>= λ p.
    some (record (put_pool m user p) { bytes = memset m.bytes pages 0xcc (page_size * page_cnt) })

unfoldable pub palloc_free_multiple : Memory → ℕ → ℕ → Option Memory
palloc_free_multiple m pages page_cnt =
    assert (pg_ofs pages == 0)
    >> (if pages == 0 || page_cnt == 0
        then some m
        else if page_from_pool m.kernel_pool pages
        then free_in m false pages page_cnt
        else if page_from_pool m.user_pool pages
        then free_in m true pages page_cnt
        else none)

abbrev pub palloc_free_page : Memory → ℕ → Option Memory
palloc_free_page m page = palloc_free_multiple m page 1

-- `old` is what the pool's memory holds where the bitmap's elements come to stand.
unfoldable pub init_pool : ℕ → ℕ → List ℕ → Option PagePool
init_pool base page_cnt old =
    let bm_pages = (bitmap_buf_size page_cnt + 4095) / 4096 in
    do
      assert (leb bm_pages page_cnt)
      bitmap_create_in_buf (page_cnt - bm_pages) old (bm_pages * 4096) >>= λ b.
          some (record { used_map = b; base = base + bm_pages * 4096 })

-- Free memory runs from `free_start`, the address for 1 MB, to the end of RAM.
unfoldable pub palloc_init : ℕ → ℕ → ℕ → (ℕ → ℕ) → List ℕ → List ℕ → Option Memory
palloc_init free_start free_pages user_page_limit bytes old old' =
    let half = free_pages / 2 in
    let user_pages = if ltb user_page_limit half then user_page_limit else half in
    let kernel_pages = free_pages - user_pages in
    init_pool free_start kernel_pages old >>= λ k.
    init_pool (free_start + kernel_pages * page_size) user_pages old' >>= λ u.
    some (record { kernel_pool = k; user_pool = u; bytes = bytes })
