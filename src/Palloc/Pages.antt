-- ===== src/Palloc/Pages.antt =====
-- pintos/src/threads/palloc.c: the calls for pages, over both pools.
use ospersonal.Common.{
  ℕ, ◌+◌, ◌*◌, ◌<◌, ◌≤◌, ◌≡◌, refl, Bool, true, false, Option, none, some, bind_some, arith,
  if◌then◌else◌, subst, sym, ◌==◌,
}
use ospersonal.Bitmap.{Bitmap}
use ospersonal.Bitmap.Range.{Filled}
use ospersonal.Bitmap.Scan.{Scanned}
use ospersonal.Palloc.{
  PagePool, Memory, memset, page_size, pool_of, put_pool, palloc_get_multiple, get_answer,
}
use ospersonal.Palloc.Pool.{IsPool, Got, exhausted, given, pool_get-Got}

-- Both pools are in memory, the kernel's below the user's.
pub record IsMemory (m : Memory) : Type 0 where
  pub kernel : IsPool m.kernel_pool
  pub user : IsPool m.user_pool
  pub apart : m.kernel_pool.base + page_size * m.kernel_pool.used_map.bit_cnt ≤ m.user_pool.base

pub pool_of-IsPool : (m : Memory) (user : Bool) → IsMemory m → IsPool (pool_of m user)
pool_of-IsPool m true v = v.user
pool_of-IsPool m false v = v.kernel

-- What a call for pages comes to.
pub data Served (m : Memory) (user zero must : Bool) (cnt : ℕ) : Option (ℕ × Memory) → Type 0 where
  panics :
      must ≡ true
      → Scanned (pool_of m user).used_map 0 cnt false none
      → Served m user zero must cnt none
  refused :
      must ≡ false
      → Scanned (pool_of m user).used_map 0 cnt false none
      → Served m user zero must cnt (some (0, m))
  served :
      (i : ℕ) (b : Bitmap)
      → Scanned (pool_of m user).used_map 0 cnt false (some i)
      → Filled (pool_of m user).used_map i cnt true b
      → Served m user zero must cnt (
          some (
            (pool_of m user).base + page_size * i,
            record (put_pool m user (record (pool_of m user) { used_map = b })) {
              bytes =
                  if zero
                  then memset m.bytes ((pool_of m user).base + page_size * i) 0 (page_size * cnt)
                  else m.bytes;
            },
          ))

put_same : (m : Memory) (user : Bool) → put_pool m user (pool_of m user) ≡ m
put_same m true = refl
put_same m false = refl

get_answer-Served :
    (m : Memory) (user zero must : Bool) (cnt a : ℕ) (q : PagePool)
    → IsPool (pool_of m user)
    → Got (pool_of m user) cnt a q
    → Served m user zero must cnt (get_answer m user zero must cnt a q)
unfolding get_answer
get_answer-Served m user zero true cnt a q v (exhausted s) = panics refl s
get_answer-Served m user zero false cnt a q v (exhausted s) = rw (put_same m user) (refused refl s)
get_answer-Served m true true must cnt a q v (given i b s f) =
    (let filled : ((pool_of m true).base + page_size * i == 0) ≡ false = ground (arith, v.above) in
      rw filled (served i b s f))
get_answer-Served m false true must cnt a q v (given i b s f) =
    (let filled : ((pool_of m false).base + page_size * i == 0) ≡ false = ground (arith, v.above) in
      rw filled (served i b s f))
get_answer-Served m true false must cnt a q v (given i b s f) =
    (let filled : ((pool_of m true).base + page_size * i == 0) ≡ false = ground (arith, v.above) in
      rw filled (served i b s f))
get_answer-Served m false false must cnt a q v (given i b s f) =
    (let filled : ((pool_of m false).base + page_size * i == 0) ≡ false = ground (arith, v.above) in
      rw filled (served i b s f))

-- A call for at least one page from a good memory takes the first free group of that size, and none
-- else; only without such a group does it answer NULL, or panic if that was asked.
pub palloc_get_multiple-Served :
    (m : Memory) (user zero must : Bool) (cnt : ℕ)
    → IsMemory m
    → 0 < cnt
    → Served m user zero must cnt (palloc_get_multiple m user zero must cnt)
unfolding palloc_get_multiple
palloc_get_multiple-Served m user zero must cnt v h =
    let (a, q, e, g) = pool_get-Got (pool_of m user) cnt (pool_of-IsPool m user v) in
    let some_pages : (cnt == 0) ≡ false = ground arith in
    let answer : palloc_get_multiple m user zero must cnt ≡ get_answer m user zero must cnt a q =
      rw some_pages (bind_some _ e) in
    subst (Served m user zero must cnt) (sym answer)
      (get_answer-Served m user zero must cnt a q (pool_of-IsPool m user v) g)
