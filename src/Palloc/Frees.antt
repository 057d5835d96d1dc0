-- ===== src/Palloc/Frees.antt =====
-- pintos/src/threads/palloc.c: what a free that does not panic does to the two pools.
use ospersonal.Common.{
  ==→eq, >>=-eq-some, Bool, Bool-cases, Option, ap, arith, assert, assert-false, assert-true, false,
  inl, inr, leb, none, not, refl, some, some_injective, subst, sym, true, ℕ, ◌%◌, ◌*◌, ◌+◌, ◌-◌,
  ◌<◌, ◌==◌, ◌>>◌, ◌^◌, ◌||◌, ◌∙◌, ◌≡◌, ◌≤◌, ◌⊎◌,
}
use ospersonal.Bitmap.{Bitmap, add_size, set_loop, bitmap_all, bitmap_set_multiple}
use ospersonal.Bitmap.Range.{Filled, bitmap_set_multiple-Filled}
use ospersonal.Palloc.{
  PagePool, Memory, page_size, pg_no, pool_free, pool_of, free_in, page_from_pool,
  palloc_free_multiple, memset,
}
use ospersonal.Palloc.Pool.{IsPool}
use ospersonal.Palloc.Pages.{IsMemory, pool_of-IsPool}
use ospersonal.Palloc.Groups.{put_other, refilled-IsMemory}

-- A write that passes its ASSERTs is inside the bitmap, where the sum does not wrap.
bitmap_set_multiple-fits :
    (b b' : Bitmap) (start cnt : ℕ) (value : Bool)
    → bitmap_set_multiple b start cnt value ≡ some b'
    → start + cnt < 2 ^ 32
    → start + cnt ≤ b.bit_cnt
unfolding bitmap_set_multiple
bitmap_set_multiple-fits b b' start cnt value e small =
    let plain : add_size start cnt ≡ start + cnt = omega arith in
    elim (Bool-cases (leb start b.bit_cnt)) [
      | inr past ↦ absurd (
          cc (
            e,
            assert-false
                (assert (leb (add_size start cnt) b.bit_cnt) >> set_loop cnt b start 0 value) past,
          ))
      | inl before ↦ elim (Bool-cases (leb (add_size start cnt) b.bit_cnt)) [
        | inl fits ↦ ground (arith, plain, fits)
        | inr over ↦ absurd (
            cc (
              e,
              assert-true
                  (assert (leb (add_size start cnt) b.bit_cnt) >> set_loop cnt b start 0 value)
                  before,
              assert-false (set_loop cnt b start 0 value) over,
            ))
      ]
    ]

asserted :
    {A : Type 0} (used : Bool) (r : Option A) (q : A) → (assert used >> r) ≡ some q → r ≡ some q
asserted true r q e = sym (assert-true r refl) ∙ e
asserted false r q e = absurd (cc (sym (assert-false r refl) ∙ e))

pool_free-Freed :
    (p q : PagePool) (pages cnt : ℕ)
    → IsPool p
    → pool_free p pages cnt ≡ some q
    → pg_no pages - pg_no p.base + cnt < 2 ^ 32
    → (b : Bitmap) × (q ≡ record p { used_map = b })
      × Filled p.used_map (pg_no pages - pg_no p.base) cnt false b
unfolding pool_free
pool_free-Freed p q pages cnt v e small =
    let (used, e1, e2) = >>=-eq-some (bitmap_all p.used_map (pg_no pages - pg_no p.base) cnt) _ e in
    let e3 = asserted used _ q e2 in
    let (b, e4, e5) =
      >>=-eq-some (bitmap_set_multiple p.used_map (pg_no pages - pg_no p.base) cnt false) _ e3 in
    let fits =
      bitmap_set_multiple-fits p.used_map b (pg_no pages - pg_no p.base) cnt false e4 small in
    let (b', e6, f) =
      bitmap_set_multiple-Filled p.used_map (pg_no pages - pg_no p.base) cnt false v.valid fits in
    let same = some_injective (sym e6 ∙ e4) in
    (
      b,
      sym (some_injective e5),
      subst (λ (c : Bitmap). Filled p.used_map (pg_no pages - pg_no p.base) cnt false c) same f,
    )

-- The pages of one pool from an index on are free, and nothing else has changed in the pools.
pub record Freed (m : Memory) (pages cnt : ℕ) (n : Memory) : Type 0 where
  pub user : Bool
  pub index : ℕ
  pub map : Bitmap
  pub address : pages ≡ (pool_of m user).base + page_size * index
  pub cleared : Filled (pool_of m user).used_map index cnt false map
  pub same_pool : pool_of n user ≡ record (pool_of m user) { used_map = map }
  pub other_pool : pool_of n (not user) ≡ pool_of m (not user)

free_in-Freed :
    (m n : Memory) (user : Bool) (pages cnt : ℕ)
    → IsMemory m
    → free_in m user pages cnt ≡ some n
    → page_from_pool (pool_of m user) pages ≡ true
    → pages % page_size ≡ 0
    → pages + page_size * cnt ≤ 2 ^ 32
    → Freed m pages cnt n
unfolding free_in
free_in-Freed m n user pages cnt v e inside whole small =
    let pool = pool_of-IsPool m user v in
    let (q, e1, e2) = >>=-eq-some (pool_free (pool_of m user) pages cnt) _ e in
    let (b, e3, f) = pool_free-Freed (pool_of m user) q pages cnt pool e1 (omega arith) in
    let bytes = memset m.bytes pages 0xcc (page_size * cnt) in
    let same = some_injective e2 in
    let (own, other) = put_other m user q bytes in
    record {
      user = user;
      index = pg_no pages - pg_no (pool_of m user).base;
      map = b;
      address = ground (arith, inside, whole, pool.aligned);
      cleared = f;
      same_pool = ap (λ (o : Memory). pool_of o user) (sym same) ∙ own ∙ e3;
      other_pool = ap (λ (o : Memory). pool_of o (not user)) (sym same) ∙ other;
    }

-- A free of whole pages that end in memory changes nothing, or frees them in their pool.
pub palloc_free_multiple-Freed :
    (m n : Memory) (pages cnt : ℕ)
    → IsMemory m
    → palloc_free_multiple m pages cnt ≡ some n
    → pages + page_size * cnt ≤ 2 ^ 32
    → (m ≡ n) ⊎ Freed m pages cnt n
unfolding palloc_free_multiple
palloc_free_multiple-Freed m n pages cnt v e small = elim (Bool-cases (pages % 4096 == 0)) [
  | inr ragged ↦
      let panics : palloc_free_multiple m pages cnt ≡ none = rw ragged refl in
      absurd (cc (e, panics))
  | inl whole ↦
      let aligned = ==→eq _ _ whole in
      elim (Bool-cases (pages == 0 || cnt == 0)) [
        | inl nothing ↦
            let stays : palloc_free_multiple m pages cnt ≡ some m = rw (whole, nothing) refl in
            inl (some_injective (sym stays ∙ e))
        | inr asked ↦ elim (Bool-cases (page_from_pool m.kernel_pool pages)) [
          | inl kernel ↦
              let frees : palloc_free_multiple m pages cnt ≡ free_in m false pages cnt =
                rw (whole, asked, kernel) refl in
              inr (free_in-Freed m n false pages cnt v (sym frees ∙ e) kernel aligned small)
          | inr not_kernel ↦ elim (Bool-cases (page_from_pool m.user_pool pages)) [
            | inl user ↦
                let frees : palloc_free_multiple m pages cnt ≡ free_in m true pages cnt =
                  rw (whole, asked, not_kernel, user) refl in
                inr (free_in-Freed m n true pages cnt v (sym frees ∙ e) user aligned small)
            | inr neither ↦
                let panics : palloc_free_multiple m pages cnt ≡ none =
                  rw (whole, asked, not_kernel, neither) refl in
                absurd (cc (e, panics))
          ]
        ]
      ]
]

pub Freed-IsMemory :
    (m : Memory) (pages cnt : ℕ) (n : Memory) → IsMemory m → Freed m pages cnt n → IsMemory n
Freed-IsMemory m pages cnt n v f =
    refilled-IsMemory m n f.user f.index cnt false f.map v f.cleared f.same_pool f.other_pool
