-- ===== src/Inode/Turns/Balance.antt =====
-- pintos/src/filesys/inode.c: what deny_write_cnt counts.
use ospersonal.Common.{
  arith, false, inl, inr, le→leb, not_false_and_true, refl, suc, true, zero, ℕ, ◌<◌, ◌≡◌, ◌≤◌, ◌⊎◌,
}
use ospersonal.Inode.Turns.{
  ℤ, pos, negsuc, increment, decrement, is_negative, is_positive, is_zero, at_most,
}

-- Writers count below zero and denials above, and there are never both.
pub data Balance (z : ℤ) (writers denials : ℕ) : Type 0 where
  quiet : z ≡ pos denials → writers ≡ 0 → Balance z writers denials
  busy : (n : ℕ) → z ≡ negsuc n → writers ≡ suc n → denials ≡ 0 → Balance z writers denials

pub Balance-enter :
    (z : ℤ) (w w' d : ℕ)
    → Balance z w d
    → is_positive z ≡ false
    → w' ≡ suc w
    → Balance (decrement z) w' d
Balance-enter z w w' zero (quiet e none_write) h more = busy 0 (rw e refl) (omega arith) refl
Balance-enter z w w' (suc d) (quiet e none_write) h more =
    absurd (not_false_and_true (rw e (ground arith)) h)
Balance-enter z w w' d (busy n e some_write f) h more = busy (suc n) (rw e refl) (omega arith) f

pub Balance-leave : (z : ℤ) (w w' d : ℕ) → Balance z w d → w ≡ suc w' → Balance (increment z) w' d
Balance-leave z w w' d (quiet e none_write) less = absurd (omega arith)
Balance-leave z w w' d (busy zero e some_write f) less = quiet (rw (e, f) refl) (omega arith)
Balance-leave z w w' d (busy (suc n) e some_write f) less = busy n (rw e refl) (omega arith) f

pub Balance-deny :
    (z : ℤ) (w d : ℕ) → Balance z w d → is_negative z ≡ false → Balance (increment z) w (suc d)
Balance-deny z w d (quiet e none_write) h = quiet (rw e refl) none_write
Balance-deny z w d (busy n e some_write f) h = absurd (not_false_and_true (rw e refl) h)

pub Balance-allow : (z : ℤ) (w d d' : ℕ) → Balance z w d → d ≡ suc d' → Balance (decrement z) w d'
Balance-allow z w d d' (quiet e none_write) less = quiet (rw (e, less) refl) none_write
Balance-allow z w d d' (busy n e some_write f) less = absurd (omega arith)

pub Balance-exclusive : (z : ℤ) (w d : ℕ) → Balance z w d → (w ≡ 0) ⊎ (d ≡ 0)
Balance-exclusive z w d (quiet e h) = inl h
Balance-exclusive z w d (busy n e h f) = inr f

pub Balance-quiet : (z : ℤ) (w d : ℕ) → Balance z w d → 0 < d → w ≡ 0
Balance-quiet z w d (quiet e h) more = h
Balance-quiet z w d (busy n e h f) more = absurd (omega arith)

pub Balance-negative : (z : ℤ) (w d : ℕ) → Balance z w d → w ≡ 0 → is_negative z ≡ false
Balance-negative z w d (quiet e h) i = rw e refl
Balance-negative z w d (busy n e h f) i = absurd (omega arith)

pub Balance-positive : (z : ℤ) (w d : ℕ) → Balance z w d → 0 < d → is_positive z ≡ true
Balance-positive z w d (quiet e h) more = rw e (ground arith)
Balance-positive z w d (busy n e h f) more = absurd (omega arith)

pub Balance-at_most : (z : ℤ) (w d m : ℕ) → Balance z w d → d ≤ m → at_most z m ≡ true
Balance-at_most z w d m (quiet e h) le = rw e (le→leb d m le)
Balance-at_most z w d m (busy n e h f) le = rw e refl

-- A count that has come to zero is the only one that is not negative after a writer left.
pub increment-is_zero :
    (z : ℤ) (w d : ℕ)
    → Balance z w d
    → 0 < w
    → is_zero (increment z) ≡ false
    → is_negative (increment z) ≡ true
increment-is_zero z w d (quiet e h) more h' = absurd (omega arith)
increment-is_zero z w d (busy zero e h f) more h' = absurd (not_false_and_true (rw e refl) h')
increment-is_zero z w d (busy (suc n) e h f) more h' = rw e refl
