-- ===== src/Common/Bits.antt =====
-- The binary digits of a native number, and what `bit_and`, `bit_or` and `bit_xor` do to each.
use Prim.Native.Nat.{digits, bit_and-bitwise, bit_or-bitwise}
use native.Mathlib.Nat.{pow-suc}
use ospersonal.Common.{
  ℕ, zero, suc, ◌+◌, ◌-◌, ◌*◌, ◌/◌, ◌%◌, ◌^◌, ◌≤◌, ◌<◌, min, max, bit_and, bit_or, ◌≡◌, refl, ap,
  ◌∙◌, Bool, true, ◌&&◌, arith, ◌==◌, if◌then◌else◌, ==→eq, Bool-cases, inl, inr,
}

-- Digit `j`, counted from the lowest.
abbrev pub bit_at : ℕ → ℕ → ℕ
bit_at zero a = a % 2
bit_at (suc j) a = bit_at j (a / 2)

pub bit_at-lt : (j a : ℕ) → bit_at j a < 2
bit_at-lt zero a = omega arith
bit_at-lt (suc j) a = bit_at-lt j (a / 2)

bit_at-zero : (j : ℕ) → bit_at j 0 ≡ 0
bit_at-zero zero = refl
bit_at-zero (suc j) = bit_at-zero j

-- An operation computed digit by digit: more fuel than the first operand has digits adds nothing.
module _ (z : ℕ → ℕ) (f : ℕ → ℕ → ℕ) (rest : (b : ℕ) → z b ≡ z (b / 2) * 2 + f 0 (b % 2)) where
  digits-more : (n a b : ℕ) → a ≤ n → digits z f (suc n) a b ≡ digits z f n a b
  digits-more n zero b h = done n
    where
      done : (n : ℕ) → digits z f (suc n) 0 b ≡ digits z f n 0 b
      done zero = refl
      done (suc n) = refl
  digits-more zero (suc a) b h = absurd (omega arith)
  digits-more (suc n) (suc a) b h =
      let half : suc a / 2 ≤ n = omega arith in
      let shorter-IsString = digits-more n (suc a / 2) (b / 2) half in
      omega (arith, shorter-IsString)

  digits-extra : (d n a b : ℕ) → n ≡ d + a → digits z f n a b ≡ digits z f a a b
  digits-extra zero n a b h = let same : n ≡ a = omega arith in rw same refl
  digits-extra (suc d) zero a b h = absurd (omega arith)
  digits-extra (suc d) (suc n) a b h =
      digits-more n a b (omega arith) ∙ digits-extra d n a b (omega arith)

  digits-lowest :
      (a b : ℕ) → digits z f a a b ≡ digits z f (a / 2) (a / 2) (b / 2) * 2 + f (a % 2) (b % 2)
  digits-lowest zero b = rest b
  digits-lowest (suc a) b =
      let half = suc a / 2 in
      let spare = digits-extra (a - half) a half (b / 2) (omega arith) in omega (arith, spare)

pub bit_and-lowest : (a b : ℕ) → bit_and a b ≡ bit_and (a / 2) (b / 2) * 2 + min (a % 2) (b % 2)
bit_and-lowest a b =
    let whole = bit_and-bitwise a b in
    let halves = bit_and-bitwise (a / 2) (b / 2) in
    omega (arith, whole, halves, digits-lowest (λ t. zero) min (λ t. omega arith) a b)

pub bit_or-lowest : (a b : ℕ) → bit_or a b ≡ bit_or (a / 2) (b / 2) * 2 + max (a % 2) (b % 2)
bit_or-lowest a b =
    let whole = bit_or-bitwise a b in
    let halves = bit_or-bitwise (a / 2) (b / 2) in
    omega (arith, whole, halves, digits-lowest (λ t. t) max (λ t. omega arith) a b)

pub bit_at-bit_and : (j a b : ℕ) → bit_at j (bit_and a b) ≡ min (bit_at j a) (bit_at j b)
bit_at-bit_and zero a b = omega (arith, bit_and-lowest a b)
bit_at-bit_and (suc j) a b =
    let e : bit_and a b / 2 ≡ bit_and (a / 2) (b / 2) = omega (arith, bit_and-lowest a b) in
    rw e (bit_at-bit_and j (a / 2) (b / 2))

pub bit_at-bit_or : (j a b : ℕ) → bit_at j (bit_or a b) ≡ max (bit_at j a) (bit_at j b)
bit_at-bit_or zero a b = omega (arith, bit_or-lowest a b)
bit_at-bit_or (suc j) a b =
    let e : bit_or a b / 2 ≡ bit_or (a / 2) (b / 2) = omega (arith, bit_or-lowest a b) in
    rw e (bit_at-bit_or j (a / 2) (b / 2))

bit_and-zero : (n a : ℕ) → a ≤ n → bit_and a 0 ≡ 0
bit_and-zero zero a h = let e : a ≡ 0 = omega arith in rw e refl
bit_and-zero (suc n) zero h = refl
bit_and-zero (suc n) (suc a) h =
    omega (arith, bit_and-lowest (suc a) 0, bit_and-zero n (suc a / 2) (omega arith))

-- A mask of one digit picks out that digit.
pub bit_and-pow : (k a : ℕ) → bit_and a (2 ^ k) ≡ bit_at k a * 2 ^ k
bit_and-pow zero a = omega (arith, bit_and-lowest a 1, bit_and-zero (a / 2) (a / 2) (omega arith))
bit_and-pow (suc k) a =
    let double : 2 ^ suc k ≡ 2 ^ k * 2 = pow-suc 2 k in
    let half : 2 ^ suc k / 2 ≡ 2 ^ k = omega (arith, double) in
    bit_and-lowest a (2 ^ suc k)
    ∙ rw half (omega (arith, double, bit_and-pow k (a / 2), ap (λ t. bit_at k (a / 2) * t) double))

pub pow-pos : (k : ℕ) → 0 < 2 ^ k
pow-pos zero = omega arith
pow-pos (suc k) = omega (arith, pow-suc 2 k, pow-pos k)

-- A test that every number under the bound passes, by evaluation of the test at each.
holds_below : (ℕ → Bool) → ℕ → Bool
holds_below test zero = true
holds_below test (suc bound) = holds_below test bound && test bound

holds_below-at :
    (test : ℕ → Bool) {bound : ℕ} (k : ℕ)
    → k < bound
    → holds_below test bound ≡ true
    → test k ≡ true
unfolding holds_below
holds_below-at test {bound = zero} k lt h = absurd (omega arith)
holds_below-at test {bound = suc bound} k lt h = elim (Bool-cases (k == bound)) [
  | inl last ↦ ground arith
  | inr earlier ↦ ground (arith, holds_below-at test {bound = bound} k)
]

masks_table :
    holds_below (λ k. holds_below (λ j. bit_at j (2 ^ k) == (if k == j then 1 else 0)) 32) 32 ≡ true
unfolding holds_below
masks_table = refl

inverse_masks_table :
    holds_below
      (λ k. holds_below (λ j. bit_at j (2 ^ 32 - 1 - 2 ^ k) == (if k == j then 0 else 1)) 32)
      32
    ≡ true
unfolding holds_below
inverse_masks_table = refl

module _ (k j : ℕ) (hk : k < 32) (hj : j < 32) where
  -- Digits of `1 << k` and of its complement, in an `unsigned long` of 32 bits.
  pub bit_at-mask : bit_at j (2 ^ k) ≡ (if k == j then 1 else 0)
  bit_at-mask = ==→eq _ _ (holds_below-at _ j hj (holds_below-at _ k hk masks_table))

  pub bit_at-inverse_mask : bit_at j (2 ^ 32 - 1 - 2 ^ k) ≡ (if k == j then 0 else 1)
  bit_at-inverse_mask =
      ==→eq _ _ (holds_below-at _ j hj (holds_below-at _ k hk inverse_masks_table))
