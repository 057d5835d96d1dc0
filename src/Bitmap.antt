-- ===== src/Bitmap.antt =====
-- pintos/src/lib/kernel/bitmap.c: an array of bits, kept in 32-bit elements (`unsigned long` on the
-- i386 target). `none` is a failed ASSERT; a scan answers with `some` index, or with `none` in it
-- for BITMAP_ERROR.
pub mod Bit
pub mod Range
pub mod Scan
use ospersonal.Common.{
  ℕ, zero, suc, ◌+◌, ◌-◌, ◌*◌, ◌/◌, ◌%◌, ◌^◌, bit_and, bit_or, bit_xor, Bool, true, false, not,
  ◌&&◌, Option, none, some, List, [], ◌∷◌, ltb, leb, ◌==◌, if◌then◌else◌, ◌>>=◌, ◌>>◌, assert,
  get_or, set, replicate,
}

pub record Bitmap : Type 0 where
  pub bit_cnt : ℕ
  pub bits : List ℕ

abbrev pub elem_bits : ℕ
elem_bits = 32

-- `size_t` addition.
abbrev pub add_size : ℕ → ℕ → ℕ
add_size a b = (a + b) % 2 ^ 32

abbrev pub elem_idx : ℕ → ℕ
elem_idx bit_idx = bit_idx / elem_bits

abbrev pub bit_mask : ℕ → ℕ
bit_mask bit_idx = 2 ^ (bit_idx % elem_bits)

-- DIV_ROUND_UP of lib/round.h; the addition wraps.
abbrev pub elem_cnt : ℕ → ℕ
elem_cnt bit_cnt = add_size bit_cnt (elem_bits - 1) / elem_bits

abbrev pub byte_cnt : ℕ → ℕ
byte_cnt bit_cnt = 4 * elem_cnt bit_cnt

-- The bits of the last element that are in use.
pub last_mask : Bitmap → ℕ
last_mask b =
    let last_bits = b.bit_cnt % elem_bits in
    if last_bits == 0 then 2 ^ 32 - 1 else 2 ^ last_bits - 1

abbrev pub bitmap_size : Bitmap → ℕ
bitmap_size b = b.bit_cnt

-- `orl`, `andl` with the complement, and `xorl` on the element of the bit.
unfoldable pub bitmap_mark : Bitmap → ℕ → Bitmap
bitmap_mark b i = record b {
  bits = set b.bits (elem_idx i) (bit_or (get_or b.bits (elem_idx i) 0) (bit_mask i));
}

unfoldable pub bitmap_reset : Bitmap → ℕ → Bitmap
bitmap_reset b i = record b {
  bits = set b.bits (elem_idx i) (bit_and (get_or b.bits (elem_idx i) 0) (2 ^ 32 - 1 - bit_mask i));
}

unfoldable pub bitmap_flip : Bitmap → ℕ → Bitmap
bitmap_flip b i = record b {
  bits = set b.bits (elem_idx i) (bit_xor (get_or b.bits (elem_idx i) 0) (bit_mask i));
}

unfoldable pub bitmap_set : Bitmap → ℕ → Bool → Option Bitmap
bitmap_set b i value = do
  assert (ltb i b.bit_cnt)
  if value then some (bitmap_mark b i) else some (bitmap_reset b i)

-- The test of one bit, without and with its ASSERT.
unfoldable pub bit : Bitmap → ℕ → Bool
bit b i = not (bit_and (get_or b.bits (elem_idx i) 0) (bit_mask i) == 0)

unfoldable pub bitmap_test : Bitmap → ℕ → Option Bool
unfolding bit
bitmap_test b i = do assert (ltb i b.bit_cnt); some (bit b i)

-- `for (i = ...; i < cnt; i++) bitmap_set (b, start + i, value)`, with the rounds left first.
unfoldable pub set_loop : ℕ → Bitmap → ℕ → ℕ → Bool → Option Bitmap
set_loop zero b start i value = some b
set_loop (suc n) b start i value =
    bitmap_set b (add_size start i) value >>= λ b'. set_loop n b' start (i + 1) value

unfoldable pub bitmap_set_multiple : Bitmap → ℕ → ℕ → Bool → Option Bitmap
bitmap_set_multiple b start cnt value = do
  assert (leb start b.bit_cnt)
  assert (leb (add_size start cnt) b.bit_cnt)
  set_loop cnt b start 0 value

unfoldable pub bitmap_set_all : Bitmap → Bool → Option Bitmap
bitmap_set_all b value = bitmap_set_multiple b 0 (bitmap_size b) value

abbrev pub same_bool : Bool → Bool → Bool
same_bool true b = b
same_bool false b = not b

unfoldable pub count_loop : ℕ → Bitmap → ℕ → ℕ → Bool → ℕ → Option ℕ
count_loop zero b start i value value_cnt = some value_cnt
count_loop (suc n) b start i value value_cnt = bitmap_test b (add_size start i) >>= λ v.
    count_loop n b start (i + 1) value (if same_bool v value then value_cnt + 1 else value_cnt)

unfoldable pub bitmap_count : Bitmap → ℕ → ℕ → Bool → Option ℕ
bitmap_count b start cnt value = do
  assert (leb start b.bit_cnt)
  assert (leb (add_size start cnt) b.bit_cnt)
  count_loop cnt b start 0 value 0

unfoldable pub contains_loop : ℕ → Bitmap → ℕ → ℕ → Bool → Option Bool
contains_loop zero b start i value = some false
contains_loop (suc n) b start i value = bitmap_test b (add_size start i) >>= λ v.
    let rest = contains_loop n b start (i + 1) value in
    if same_bool v value then some true else rest

unfoldable pub bitmap_contains : Bitmap → ℕ → ℕ → Bool → Option Bool
bitmap_contains b start cnt value = do
  assert (leb start b.bit_cnt)
  assert (leb (add_size start cnt) b.bit_cnt)
  contains_loop cnt b start 0 value

unfoldable pub bitmap_any : Bitmap → ℕ → ℕ → Option Bool
bitmap_any b start cnt = bitmap_contains b start cnt true

unfoldable pub bitmap_none : Bitmap → ℕ → ℕ → Option Bool
bitmap_none b start cnt = bitmap_contains b start cnt true >>= λ found. some (not found)

unfoldable pub bitmap_all : Bitmap → ℕ → ℕ → Option Bool
bitmap_all b start cnt = bitmap_contains b start cnt false >>= λ found. some (not found)

-- `for (i = start; i <= last; i++)`, with the rounds left first.
unfoldable pub scan_loop : ℕ → Bitmap → ℕ → ℕ → Bool → Option (Option ℕ)
scan_loop zero b i cnt value = some none
scan_loop (suc n) b i cnt value = bitmap_contains b i cnt (not value) >>= λ found.
    let rest = scan_loop n b (i + 1) cnt value in if found then rest else some (some i)

-- The loop makes `last + 1 - start` rounds at most, none if `start` is past `last`.
unfoldable pub bitmap_scan : Bitmap → ℕ → ℕ → Bool → Option (Option ℕ)
bitmap_scan b start cnt value = do
  assert (leb start b.bit_cnt)
  if leb cnt b.bit_cnt then scan_loop (b.bit_cnt - cnt + 1 - start) b start cnt value else some none

unfoldable pub bitmap_scan_and_flip : Bitmap → ℕ → ℕ → Bool → Option (Option ℕ × Bitmap)
bitmap_scan_and_flip b start cnt value = bitmap_scan b start cnt value >>= λ found. elim found [
  | none ↦ some (none, b)
  | some idx ↦ bitmap_set_multiple b idx cnt (not value) >>= λ b'. some (some idx, b')
]

-- The memory that `malloc` hands out holds `old`; the result is `none` inside `some` where one of
-- the two allocations failed.
unfoldable pub bitmap_create : ℕ → Bool → Option (List ℕ) → Option (Option Bitmap)
bitmap_create bit_cnt header old = elim header [
  | false ↦ some none
  | true ↦ elim old [
    | some bits ↦
        bitmap_set_all (record { bit_cnt = bit_cnt; bits = bits }) false >>= λ b. some (some b)
    | none ↦ elim (bit_cnt == 0) [
      | true ↦ bitmap_set_all (record { bit_cnt = bit_cnt; bits = [] }) false >>= λ b. some (some b)
      | false ↦ some none
    ]
  ]
]

abbrev pub bitmap_buf_size : ℕ → ℕ
bitmap_buf_size bit_cnt = 8 + byte_cnt bit_cnt

-- The storage behind the header in the caller's buffer holds `bits`.
unfoldable pub bitmap_create_in_buf : ℕ → List ℕ → ℕ → Option Bitmap
bitmap_create_in_buf bit_cnt bits block_size = do
  assert (leb (bitmap_buf_size bit_cnt) block_size)
  bitmap_set_all (record { bit_cnt = bit_cnt; bits = bits }) false
