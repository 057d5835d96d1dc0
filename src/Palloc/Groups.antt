-- ===== src/Palloc/Groups.antt =====
-- pintos/src/threads/palloc.c: a group of pages, from its call to its free.
use ospersonal.Common.{
  Bool, Option, ap, arith, bind_some, false, if◌then◌else◌, not, refl, some, some_injective, subst,
  sym, true, ℕ, ◌%◌, ◌*◌, ◌+◌, ◌-◌, ◌<◌, ◌==◌, ◌||◌, ◌∙◌, ◌≡◌, ◌≢◌, ◌≤◌,
}
use ospersonal.Bitmap.{Bitmap, bit}
use ospersonal.Bitmap.Range.{IsRun, Filled}
use ospersonal.Bitmap.Scan.{first}
use ospersonal.Palloc.{
  PagePool, Memory, memset, page_size, pool_free, pool_of, free_in, put_pool, page_from_pool,
  palloc_get_multiple, palloc_free_multiple,
}
use ospersonal.Palloc.Pool.{IsPool, Filled-IsPool, pool_free-Filled}
use ospersonal.Palloc.Pages.{
  IsMemory, pool_of-IsPool, Served, panics, refused, served, palloc_get_multiple-Served,
}

-- A group of pages that a call gave out.
pub record Group (m : Memory) (user : Bool) (cnt a : ℕ) (m' : Memory) : Type 0 where
  pub index : ℕ
  pub map : Bitmap
  pub address : a ≡ (pool_of m user).base + page_size * index
  pub fits : index + cnt ≤ (pool_of m user).used_map.bit_cnt
  pub was_free : IsRun (pool_of m user).used_map index cnt false
  pub filled : Filled (pool_of m user).used_map index cnt true map
  pub same_pool : pool_of m' user ≡ record (pool_of m user) { used_map = map }
  pub other_pool : pool_of m' (not user) ≡ pool_of m (not user)

pub put_other :
    (m : Memory) (user : Bool) (p : PagePool) (f : ℕ → ℕ)
    → (pool_of (record (put_pool m user p) { bytes = f }) user ≡ p)
      × (pool_of (record (put_pool m user p) { bytes = f }) (not user) ≡ pool_of m (not user))
put_other m true p f = (refl, refl)
put_other m false p f = (refl, refl)

pub Served-Group :
    (m : Memory) (user zero must : Bool) (cnt a : ℕ) (m' : Memory) {r : Option (ℕ × Memory)}
    → Served m user zero must cnt r
    → r ≡ some (a, m')
    → a ≢ 0
    → Group m user cnt a m'
Served-Group m user zero must cnt a m' (panics h s) e n = absurd (cc)
Served-Group m user zero must cnt a m' (refused h s) e n =
    absurd (n (sym (ap (λ (t : ℕ × Memory). t.0) (some_injective e))))
Served-Group m user zero must cnt a m' (served i b (first k le fits run before) f) e n =
    subst (λ (t : ℕ × Memory). Group m user cnt t.0 t.1) (some_injective e)
      (record {
        index = i;
        map = b;
        address = refl;
        fits = fits;
        was_free = run;
        filled = f;
        same_pool =
            (put_other m user _ (
              if zero
              then memset m.bytes ((pool_of m user).base + page_size * i) 0 (page_size * cnt)
              else m.bytes)).0;
        other_pool =
            (put_other m user _ (
              if zero
              then memset m.bytes ((pool_of m user).base + page_size * i) 0 (page_size * cnt)
              else m.bytes)).1;
      })

pub palloc_get_multiple-Group :
    (m : Memory) (user zero must : Bool) (cnt a : ℕ) (m' : Memory)
    → IsMemory m
    → 0 < cnt
    → palloc_get_multiple m user zero must cnt ≡ some (a, m')
    → a ≢ 0
    → Group m user cnt a m'
palloc_get_multiple-Group m user zero must cnt a m' v h e n =
    Served-Group m user zero must cnt a m' (palloc_get_multiple-Served m user zero must cnt v h) e n

-- Pages of one pool marked or freed.
pub refilled-IsMemory :
    (m n : Memory) (user : Bool) (index cnt : ℕ) (value : Bool) (b : Bitmap)
    → IsMemory m
    → Filled (pool_of m user).used_map index cnt value b
    → pool_of n user ≡ record (pool_of m user) { used_map = b }
    → pool_of n (not user) ≡ pool_of m (not user)
    → IsMemory n
refilled-IsMemory m n true index cnt value b v f own other = record {
  kernel = subst IsPool (sym other) v.kernel;
  user = subst IsPool (sym own) (Filled-IsPool _ index cnt value b v.user f);
  apart = ground (arith, v.apart, other, own, f.same_size);
}
refilled-IsMemory m n false index cnt value b v f own other = record {
  kernel = subst IsPool (sym own) (Filled-IsPool _ index cnt value b v.kernel f);
  user = subst IsPool (sym other) v.user;
  apart = ground (arith, v.apart, other, own, f.same_size);
}

pub Group-IsMemory :
    (m : Memory) (user : Bool) (cnt a : ℕ) (m' : Memory)
    → IsMemory m
    → Group m user cnt a m'
    → IsMemory m'
Group-IsMemory m user cnt a m' v g =
    refilled-IsMemory m m' user g.index cnt true g.map v g.filled g.same_pool g.other_pool

-- The address lies in its pool, and not in the kernel's when it is the user's.
found_pool :
    (m : Memory) (user : Bool) (i cnt : ℕ)
    → IsMemory m
    → 0 < cnt
    → i + cnt ≤ (pool_of m user).used_map.bit_cnt
    → (page_from_pool m.kernel_pool ((pool_of m user).base + page_size * i) ≡ not user)
      × (page_from_pool (pool_of m user) ((pool_of m user).base + page_size * i) ≡ true)
found_pool m true i cnt v h fits = (
  ground (arith, v.kernel.aligned, v.user.aligned, v.apart, v.kernel.ends, v.user.ends),
  ground (arith, v.user.aligned, v.user.ends),
)
found_pool m false i cnt v h fits = (
  ground (arith, v.kernel.aligned, v.kernel.ends),
  ground (arith, v.kernel.aligned, v.kernel.ends),
)

-- The bitmaps of the two memories agree on every page of both pools.
pub SamePages : Memory → Memory → Type 0
SamePages m n =
    (user : Bool) (j : ℕ) → bit (pool_of n user).used_map j ≡ bit (pool_of m user).used_map j

-- Freeing a group in the state that it was given out in.
module _ (m : Memory) (user : Bool) (cnt a : ℕ) (m' : Memory) (v : IsMemory m) (h : 0 < cnt)
    (g : Group m user cnt a m') where
  all_used : IsRun g.map g.index cnt true
  all_used k q = ground (arith, g.filled.bits_of (g.index + k))

  freed_bits :
      (b : Bitmap)
      → Filled g.map g.index cnt false b
      → (j : ℕ) → bit b j ≡ bit (pool_of m user).used_map j
  freed_bits b f j = ground (arith, f.bits_of j, g.filled.bits_of j, g.was_free (j - g.index))

  pool_freed :
      (b : Bitmap) × (pool_free (pool_of m' user) a cnt
        ≡ some (record (pool_of m' user) { used_map = b }))
      × Filled g.map g.index cnt false b
  pool_freed =
      let used =
        Filled-IsPool (pool_of m user) g.index cnt true g.map (pool_of-IsPool m user v) g.filled in
      let (b, e, f) =
        pool_free-Filled (record (pool_of m user) { used_map = g.map }) g.index cnt used
          (omega (arith, g.fits, g.filled.same_size)) all_used in
      (
        b,
        ap (λ (p : PagePool). pool_free p a cnt) g.same_pool
            ∙ (ap (λ (x : ℕ). pool_free (record (pool_of m user) { used_map = g.map }) x cnt)
                  g.address
                ∙ (e ∙ ap (λ (p : PagePool). some (record p { used_map = b })) (sym g.same_pool))),
        f,
      )

  in_pool :
      (page_from_pool m'.kernel_pool a ≡ not user) × (page_from_pool (pool_of m' user) a ≡ true)
  in_pool =
      let same : a ≡ (pool_of m' user).base + page_size * g.index =
        g.address ∙ ap (λ (p : PagePool). p.base + page_size * g.index) (sym g.same_pool) in
      rw same (
        found_pool m' user g.index cnt (Group-IsMemory m user cnt a m' v g) h
          (ground (arith, g.same_pool, g.fits, g.filled.same_size)))

  whole_page : (a % page_size == 0) ≡ true
  whole_page = ground (arith, g.address, (pool_of-IsPool m user v).aligned)

  not_null : (a == 0 || cnt == 0) ≡ false
  not_null = ground (arith, g.address, (pool_of-IsPool m user v).above)

  frees_in : palloc_free_multiple m' a cnt ≡ free_in m' user a cnt
  unfolding palloc_free_multiple
  frees_in = choose user in_pool.0 in_pool.1
    where
      choose :
          (to : Bool)
          → page_from_pool m'.kernel_pool a ≡ not to
          → page_from_pool (pool_of m' to) a ≡ true
          → palloc_free_multiple m' a cnt ≡ free_in m' to a cnt
      choose true p q = rw (whole_page, not_null, p, q)
      choose false p q = rw (whole_page, not_null, p)

  pages_back :
      (b : Bitmap)
      → Filled g.map g.index cnt false b
      → (f : ℕ → ℕ)
      → SamePages m
          (record (put_pool m' user (record (pool_of m' user) { used_map = b })) { bytes = f })
  unfolding SamePages
  pages_back b f x to j = agree user to g.same_pool g.other_pool (freed_bits b f j)
    where
      agree :
          (from to : Bool)
          → pool_of m' from ≡ record (pool_of m from) { used_map = g.map }
          → pool_of m' (not from) ≡ pool_of m (not from)
          → bit b j ≡ bit (pool_of m from).used_map j
          → bit
              (pool_of
                (record (put_pool m' from (record (pool_of m' from) { used_map = b })) {
                  bytes = x;
                })
                to).used_map
              j
            ≡ bit (pool_of m to).used_map j
      agree true true s o e = e
      agree true false s o e = ap (λ (q : PagePool). bit q.used_map j) o
      agree false true s o e = ap (λ (q : PagePool). bit q.used_map j) o
      agree false false s o e = e

-- What a call gave out of a good memory can be freed without a panic, and then the same pages are in
-- use as before the call, in both pools.
pub palloc_round_trip :
    (m : Memory) (user zero must : Bool) (cnt a : ℕ) (m' : Memory)
    → IsMemory m
    → 0 < cnt
    → palloc_get_multiple m user zero must cnt ≡ some (a, m')
    → a ≢ 0
    → (n : Memory) × (palloc_free_multiple m' a cnt ≡ some n) × SamePages m n
unfolding free_in
palloc_round_trip m user zero must cnt a m' v h e n =
    let g = palloc_get_multiple-Group m user zero must cnt a m' v h e n in
    let (b, freed, f) = pool_freed m user cnt a m' v h g in
    (_, frees_in m user cnt a m' v h g ∙ bind_some _ freed, pages_back m user cnt a m' v h g b f _)
