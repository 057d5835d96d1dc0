-- ===== src/Strings/Comparing.antt =====
-- pintos/src/lib/string.c: strcmp as an order.
use ospersonal.Common.{List, [], arith, refl, true, ℕ, ◌==◌, ◌∷◌, ◌≡◌}
use ospersonal.Strings.{strcmp, is_equal}

pub strcmp_refl : (s : List ℕ) → is_equal (strcmp s s) ≡ true
unfolding strcmp
strcmp_refl [] = refl
strcmp_refl (a ∷ s) = let e : (a == a) ≡ true = ground arith in rw e (strcmp_refl s)

pub strcmp-eq : (s t : List ℕ) → is_equal (strcmp s t) ≡ true → s ≡ t
unfolding strcmp
strcmp-eq [] [] h = refl
strcmp-eq [] (b ∷ t) h = absurd (cc)
strcmp-eq (a ∷ s) [] h = absurd (cc)
strcmp-eq (a ∷ s) (b ∷ t) h = ground (arith, strcmp-eq s t)
