-- ===== src/Bitmap/Bit.antt =====
-- pintos/src/lib/kernel/bitmap.c: reading and writing single bits.
use ospersonal.Common.{
  ℕ, zero, suc, ◌+◌, ◌-◌, ◌*◌, ◌/◌, ◌%◌, ◌^◌, ◌<◌, bit_and, bit_or, ◌≡◌, refl, Bool, true, false,
  not, some, List, ◌==◌, if◌then◌else◌, length, length-set, get_or, set, get_or-set_self,
  get_or-set_ne, arith, lt→ltb, eq→==, ne→==,
}
use native.Mathlib.Decide.{ℕ_discrete}
use ospersonal.Common.Bits.{
  bit_at, bit_at-lt, bit_at-bit_and, bit_at-bit_or, bit_and-pow, bit_at-mask, bit_at-inverse_mask,
  pow-pos,
}
use ospersonal.Bitmap.{Bitmap, elem_cnt, bit_mask, bit, bitmap_mark, bitmap_reset, bitmap_set}

-- The array has an element for every bit, and the sizes do not wrap.
pub record IsValid (b : Bitmap) : Type 0 where
  pub storage : length b.bits ≡ elem_cnt b.bit_cnt
  pub small : b.bit_cnt + 32 < 2 ^ 32

mask_test : (k e : ℕ) → (bit_and e (2 ^ k) == 0) ≡ (bit_at k e == 0)
mask_test k e =
    rw (bit_and-pow k e) (ground (arith, bit_at-lt k e, pow-pos k, split (bit_at k e) (2 ^ k)))
  where
    split : (d p : ℕ) → d < 2 → 0 < p → (d * p == 0) ≡ (d == 0)
    split zero p h q = ground arith
    split (suc zero) p h q = ground arith
    split (suc (suc d)) p h q = absurd (omega arith)

-- `bitmap_test` reads one digit of one element.
bit-digit : (b : Bitmap) (i : ℕ) → bit b i ≡ not (bit_at (i % 32) (get_or b.bits (i / 32) 0) == 0)
unfolding bit
bit-digit b i = rw (mask_test (i % 32) (get_or b.bits (i / 32) 0))

elem_in : (b : Bitmap) (i : ℕ) → IsValid b → i < b.bit_cnt → i / 32 < length b.bits
elem_in b i v h = omega arith

same_place : (i j : ℕ) → i / 32 ≡ j / 32 → i % 32 ≡ j % 32 → i ≡ j
same_place i j p q = omega arith

-- The digit of bit `j` after a write of the element of bit `i`.
module _ (xs : List ℕ) (i j e : ℕ) (hi : i / 32 < length xs) where
  digit-set :
      bit_at (j % 32) (get_or (set xs (i / 32) e) (j / 32) 0)
      ≡ (if i / 32 == j / 32 then bit_at (j % 32) e else bit_at (j % 32) (get_or xs (j / 32) 0))
  digit-set = elim (ℕ_discrete (i / 32) (j / 32)) [
    | yes p ↦ rw (eq→== (i / 32) (j / 32) p, ← p) (rw (get_or-set_self xs (i / 32) e 0 hi))
    | no p ↦ rw (ne→== (i / 32) (j / 32) p, get_or-set_ne xs (i / 32) (j / 32) e 0 p)
  ]

module _ (b : Bitmap) (i j : ℕ) (v : IsValid b) (hi : i < b.bit_cnt) where
  old : ℕ
  old = get_or b.bits (i / 32) 0

  mod_mask : bit_at (j % 32) (2 ^ (i % 32)) ≡ (if i % 32 == j % 32 then 1 else 0)
  mod_mask = bit_at-mask (i % 32) (j % 32) (omega arith) (omega arith)

  pub bit-mark : bit (bitmap_mark b i) j ≡ (if i == j then true else bit b j)
  unfolding bitmap_mark old
  bit-mark =
      rw
        (
          bit-digit (bitmap_mark b i) j,
          bit-digit b j,
          digit-set b.bits i j (bit_or old (bit_mask i)) (elem_in b i v hi),
          bit_at-bit_or (j % 32) old (bit_mask i),
          mod_mask,
        )
        (elim (ℕ_discrete (i / 32) (j / 32)) [
          | yes p ↦ rw (eq→== (i / 32) (j / 32) p, p) (ground (arith, same_place i j p))
          | no p ↦ rw (ne→== (i / 32) (j / 32) p) (ground arith)
        ])

  inverse_mask : bit_at (j % 32) (2 ^ 32 - 1 - 2 ^ (i % 32)) ≡ (if i % 32 == j % 32 then 0 else 1)
  inverse_mask = bit_at-inverse_mask (i % 32) (j % 32) (omega arith) (omega arith)

  pub bit-reset : bit (bitmap_reset b i) j ≡ (if i == j then false else bit b j)
  unfolding bitmap_reset old
  bit-reset =
      rw
        (
          bit-digit (bitmap_reset b i) j,
          bit-digit b j,
          digit-set b.bits i j (bit_and old (2 ^ 32 - 1 - bit_mask i)) (elem_in b i v hi),
          bit_at-bit_and (j % 32) old (2 ^ 32 - 1 - bit_mask i),
          inverse_mask,
        )
        (elim (ℕ_discrete (i / 32) (j / 32)) [
          | yes p ↦
              rw (eq→== (i / 32) (j / 32) p, p)
                (ground (arith, same_place i j p, bit_at-lt (j % 32) (get_or b.bits (j / 32) 0)))
          | no p ↦ rw (ne→== (i / 32) (j / 32) p) (ground arith)
        ])

pub bitmap_mark-IsValid : (b : Bitmap) (i : ℕ) → IsValid b → IsValid (bitmap_mark b i)
unfolding bitmap_mark
bitmap_mark-IsValid b i v =
    ground (arith, length-set b.bits (i / 32) (bit_or (get_or b.bits (i / 32) 0) (bit_mask i)))

pub bitmap_reset-IsValid : (b : Bitmap) (i : ℕ) → IsValid b → IsValid (bitmap_reset b i)
unfolding bitmap_reset
bitmap_reset-IsValid b i v = ground (
  arith,
  length-set b.bits (i / 32) (bit_and (get_or b.bits (i / 32) 0) (2 ^ 32 - 1 - bit_mask i)),
)

-- What a write of one bit does.
pub record Written (b : Bitmap) (i : ℕ) (value : Bool) (b' : Bitmap) : Type 0 where
  pub valid : IsValid b'
  pub same_size : b'.bit_cnt ≡ b.bit_cnt
  pub bits_of : (j : ℕ) → bit b' j ≡ (if i == j then value else bit b j)

-- Inside the bitmap `bitmap_set` writes its bit and no other.
pub bitmap_set-Written :
    (b : Bitmap) (i : ℕ) (value : Bool)
    → IsValid b
    → i < b.bit_cnt
    → (b' : Bitmap) × (bitmap_set b i value ≡ some b') × Written b i value b'
unfolding bitmap_set
bitmap_set-Written b i true v h = (
  bitmap_mark b i,
  rw (lt→ltb i b.bit_cnt h),
  record {
    valid = bitmap_mark-IsValid b i v;
    same_size = unfold bitmap_mark in refl;
    bits_of = λ j. bit-mark b i j v h;
  },
)
bitmap_set-Written b i false v h = (
  bitmap_reset b i,
  rw (lt→ltb i b.bit_cnt h),
  record {
    valid = bitmap_reset-IsValid b i v;
    same_size = unfold bitmap_reset in refl;
    bits_of = λ j. bit-reset b i j v h;
  },
)
