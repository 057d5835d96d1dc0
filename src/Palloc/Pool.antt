-- ===== src/Palloc/Pool.antt =====
-- pintos/src/threads/palloc.c: what a get and a free do to the bitmap of one pool.
use ospersonal.Common.{
  ℕ, ◌+◌, ◌*◌, ◌/◌, ◌%◌, ◌^◌, ◌<◌, ◌≤◌, ◌≡◌, ◌∙◌, Bool, true, false, Option, none, some, bind_some,
  arith, ◌-◌,
}
use ospersonal.Bitmap.{Bitmap}
use ospersonal.Bitmap.Bit.{IsValid}
use ospersonal.Bitmap.Range.{bitmap_all-IsRun, IsRun, Filled, bitmap_set_multiple-Filled}
use ospersonal.Bitmap.Scan.{Scanned, first, Flipped, taken, untouched, bitmap_scan_and_flip-Flipped}
use ospersonal.Palloc.{PagePool, page_size, pool_get, pool_free, page_address}

-- A pool in memory: whole pages, not at address 0, and below 2^32.
pub record IsPool (p : PagePool) : Type 0 where
  pub valid : IsValid p.used_map
  pub aligned : p.base % page_size ≡ 0
  pub above : 0 < p.base
  pub ends : p.base + page_size * p.used_map.bit_cnt < 2 ^ 32

-- What a call for a group of pages finds: none free, or the first free group, which it marks.
pub data Got (p : PagePool) (cnt : ℕ) : ℕ → PagePool → Type 0 where
  exhausted : Scanned p.used_map 0 cnt false none → Got p cnt 0 p
  given :
      (i : ℕ) (b : Bitmap)
      → Scanned p.used_map 0 cnt false (some i)
      → Filled p.used_map i cnt true b
      → Got p cnt (p.base + page_size * i) (record p { used_map = b })

Flipped-Got :
    (p : PagePool) (cnt : ℕ) {r : Option ℕ} {b : Bitmap}
    → IsPool p
    → Flipped p.used_map 0 cnt false r b
    → Got p cnt (page_address p r) (record p { used_map = b })
Flipped-Got p cnt v (taken i b (first k le fits run before) f) =
    let small : (p.base + page_size * i) % 2 ^ 32 ≡ p.base + page_size * i =
      omega (arith, v.ends) in
    rw small (given i b (first i le fits run before) f)
Flipped-Got p cnt v (untouched s) = exhausted s

pub pool_get-Got :
    (p : PagePool) (cnt : ℕ)
    → IsPool p
    → (a : ℕ) × (q : PagePool) × (pool_get p cnt ≡ some (a, q)) × Got p cnt a q
unfolding pool_get
pool_get-Got p cnt v =
    let (r, b, e, f) = bitmap_scan_and_flip-Flipped p.used_map 0 cnt false v.valid (omega arith) in
    (page_address p r, record p { used_map = b }, bind_some _ e, Flipped-Got p cnt v f)

pub Filled-IsPool :
    (p : PagePool) (i cnt : ℕ) (value : Bool) (b : Bitmap)
    → IsPool p
    → Filled p.used_map i cnt value b
    → IsPool (record p { used_map = b })
Filled-IsPool p i cnt value b v f = record {
  valid = f.valid;
  aligned = v.aligned;
  above = v.above;
  ends = omega (arith, v.ends, f.same_size);
}

-- Where the bits of a group are all set, a free clears them and no other.
pub pool_free-Filled :
    (p : PagePool) (i cnt : ℕ)
    → IsPool p
    → i + cnt ≤ p.used_map.bit_cnt
    → IsRun p.used_map i cnt true
    → (b : Bitmap) × (pool_free p (p.base + page_size * i) cnt ≡ some (record p { used_map = b }))
      × Filled p.used_map i cnt false b
unfolding pool_free
pool_free-Filled p i cnt v h run =
    let index : (p.base + 4096 * i) / 4096 - p.base / 4096 ≡ i = omega (arith, v.aligned) in
    let (b, e, f) = bitmap_set_multiple-Filled p.used_map i cnt false v.valid h in
    (b, rw index (bind_some _ (bitmap_all-IsRun p.used_map i cnt v.valid h run) ∙ bind_some _ e), f)
