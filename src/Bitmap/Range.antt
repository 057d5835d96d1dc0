-- ===== src/Bitmap/Range.antt =====
-- pintos/src/lib/kernel/bitmap.c: writes of several bits, and the tests over a range.
use ospersonal.Common.{
  ℕ, zero, suc, ◌+◌, ◌≤◌, ◌<◌, ◌≡◌, refl, ◌∙◌, ap, Bool, true, false, not, ◌&&◌, some, ltb, leb,
  if◌then◌else◌, arith, Bool-cases, lt→ltb, le→leb, subst, inl, inr, assert-true, bind_some,
}
use ospersonal.Bitmap.{
  Bitmap, add_size, bit, bitmap_set, bitmap_test, set_loop, bitmap_set_multiple, same_bool,
  contains_loop, bitmap_contains, bitmap_all,
}
use ospersonal.Bitmap.Bit.{IsValid, Written, bitmap_set-Written}

abbrev pub in_range : ℕ → ℕ → ℕ → Bool
in_range start cnt j = leb start j && ltb j (start + cnt)

-- The bits of `b'` are `value` inside the range, and those of `b` outside.
pub record Filled (b : Bitmap) (start cnt : ℕ) (value : Bool) (b' : Bitmap) : Type 0 where
  pub valid : IsValid b'
  pub same_size : b'.bit_cnt ≡ b.bit_cnt
  pub bits_of : (j : ℕ) → bit b' j ≡ (if in_range start cnt j then value else bit b j)

Filled-zero : (b : Bitmap) (start : ℕ) (value : Bool) → IsValid b → Filled b start 0 value b
Filled-zero b start value v = record { valid = v; same_size = refl; bits_of = λ j. ground arith }

Filled-suc :
    (b b' b'' : Bitmap) (start n : ℕ) (value : Bool)
    → Written b start value b'
    → Filled b' (suc start) n value b''
    → Filled b start (suc n) value b''
Filled-suc b b' b'' start n value w f = record {
  valid = f.valid;
  same_size = f.same_size ∙ w.same_size;
  bits_of = λ j. ground (arith, w.bits_of j, f.bits_of j);
}

set_loop-Filled :
    (n : ℕ) (b : Bitmap) (start i : ℕ) (value : Bool)
    → IsValid b
    → start + i + n ≤ b.bit_cnt
    → (b' : Bitmap) × (set_loop n b start i value ≡ some b') × Filled b (start + i) n value b'
unfolding set_loop
set_loop-Filled zero b start i value v h = (b, refl, Filled-zero b (start + i) value v)
set_loop-Filled (suc n) b start i value v h =
    let plain : add_size start i ≡ start + i = omega (arith, v.small) in
    let (b', e, w) = bitmap_set-Written b (start + i) value v (omega arith) in
    let next : start + (i + 1) ≡ suc (start + i) = omega arith in
    let (b'', e', f) =
      set_loop-Filled n b' start (i + 1) value w.valid (omega (arith, w.same_size)) in
    (
      b'',
      bind_some _ (ap (λ k. bitmap_set b k value) plain ∙ e) ∙ e',
      Filled-suc b b' b'' (start + i) n value w (subst (λ s. Filled b' s n value b'') next f),
    )

module _ (b : Bitmap) (start cnt : ℕ) (v : IsValid b) (h : start + cnt ≤ b.bit_cnt) where
  -- The two ASSERTs of the range operations hold.
  range_asserts : (leb start b.bit_cnt ≡ true) × (leb (add_size start cnt) b.bit_cnt ≡ true)
  range_asserts = (
    le→leb start b.bit_cnt (omega arith),
    le→leb (add_size start cnt) b.bit_cnt (omega (arith, v.small)),
  )

-- Within a valid bitmap `bitmap_set_multiple` does not panic, and it fills its range and no more.
pub bitmap_set_multiple-Filled :
    (b : Bitmap) (start cnt : ℕ) (value : Bool)
    → IsValid b
    → start + cnt ≤ b.bit_cnt
    → (b' : Bitmap) × (bitmap_set_multiple b start cnt value ≡ some b')
      × Filled b start cnt value b'
unfolding bitmap_set_multiple
bitmap_set_multiple-Filled b start cnt value v h =
    let (first, second) = range_asserts b start cnt v h in
    let (b', e, f) = set_loop-Filled cnt b start 0 value v (omega arith) in
    let base : start + 0 ≡ start = omega arith in
    (
      b',
      assert-true _ first ∙ assert-true _ second ∙ e,
      subst (λ s. Filled b s cnt value b') base f,
    )

-- A group of `cnt` bits that are all `value`.
abbrev pub IsRun : Bitmap → ℕ → ℕ → Bool → Type 0
IsRun b start cnt value = (k : ℕ) → k < cnt → bit b (start + k) ≡ value

-- What a search for `value` in a range can answer.
pub data Contains (b : Bitmap) (start cnt : ℕ) (value : Bool) : Bool → Type 0 where
  found : (k : ℕ) → k < cnt → bit b (start + k) ≡ value → Contains b start cnt value true
  absent : IsRun b start cnt (not value) → Contains b start cnt value false

bitmap_test-bit : (b : Bitmap) (i : ℕ) → i < b.bit_cnt → bitmap_test b i ≡ some (bit b i)
unfolding bitmap_test
bitmap_test-bit b i h = rw (lt→ltb i b.bit_cnt h)

same_bool-true : (v w : Bool) → same_bool v w ≡ true → v ≡ w
same_bool-true true true h = refl
same_bool-true true false h = cc
same_bool-true false true h = cc
same_bool-true false false h = refl

same_bool-false : (v w : Bool) → same_bool v w ≡ false → v ≡ not w
same_bool-false true true h = cc
same_bool-false true false h = refl
same_bool-false false true h = refl
same_bool-false false false h = cc

Contains-suc :
    (b : Bitmap) (start n : ℕ) (value r : Bool)
    → bit b start ≡ not value
    → Contains b (suc start) n value r
    → Contains b start (suc n) value r
Contains-suc b start n value r e (found k h p) =
    found (suc k) (omega arith)
      (let shift : start + suc k ≡ suc start + k = omega arith in rw shift p)
Contains-suc b start n value r e (absent all) = absent shifted
  where
    shifted : IsRun b start (suc n) (not value)
    shifted zero h = let base : start + 0 ≡ start = omega arith in rw base e
    shifted (suc k) h =
        let shift : start + suc k ≡ suc start + k = omega arith in rw shift (all k (omega arith))

module _ (n : ℕ) (b : Bitmap) (start i : ℕ) (value : Bool) (v : IsValid b) where
  -- One round of the loop, given what the rounds after it answer.
  Contains-round :
      start + i + suc n ≤ b.bit_cnt
      → (rest : (r : Bool) × (contains_loop n b start (i + 1) value ≡ some r)
          × Contains b (start + (i + 1)) n value r)
      → (r : Bool) × (contains_loop (suc n) b start i value ≡ some r)
        × Contains b (start + i) (suc n) value r
  unfolding contains_loop
  Contains-round h rest = elim (Bool-cases (same_bool (bit b (start + i)) value)) [
    | inl hit ↦
        (true, bind_some _ read ∙ rw hit, found 0 (omega arith) (rw base (same_bool-true _ _ hit)))
    | inr miss ↦ (
      rest.0,
      bind_some _ read ∙ rw miss rest.1,
      Contains-suc b (start + i) n value rest.0 (same_bool-false _ _ miss)
          (subst (λ s. Contains b s n value rest.0) next rest.2),
    )
  ]
    where
      read : bitmap_test b (add_size start i) ≡ some (bit b (start + i))
      read =
          let plain : add_size start i ≡ start + i = omega (arith, v.small) in
          rw plain (bitmap_test-bit b (start + i) (omega arith))

      base : start + i + 0 ≡ start + i
      base = omega arith

      next : start + (i + 1) ≡ suc (start + i)
      next = omega arith

contains_loop-Contains :
    (n : ℕ) (b : Bitmap) (start i : ℕ) (value : Bool)
    → IsValid b
    → start + i + n ≤ b.bit_cnt
    → (r : Bool) × (contains_loop n b start i value ≡ some r) × Contains b (start + i) n value r
unfolding contains_loop
contains_loop-Contains zero b start i value v h =
    (false, refl, absent (λ k p. absurd (omega arith)))
contains_loop-Contains (suc n) b start i value v h =
    Contains-round n b start i value v h
      (contains_loop-Contains n b start (i + 1) value v (omega arith))

-- Within a valid bitmap the search does not panic: it answers true where a bit of the range has the
-- value, and false where all have the other.
pub bitmap_contains-Contains :
    (b : Bitmap) (start cnt : ℕ) (value : Bool)
    → IsValid b
    → start + cnt ≤ b.bit_cnt
    → (r : Bool) × (bitmap_contains b start cnt value ≡ some r) × Contains b start cnt value r
unfolding bitmap_contains
bitmap_contains-Contains b start cnt value v h =
    let (first, second) = range_asserts b start cnt v h in
    let (r, e, c) = contains_loop-Contains cnt b start 0 value v (omega arith) in
    let base : start + 0 ≡ start = omega arith in
    (
      r,
      assert-true _ first ∙ assert-true _ second ∙ e,
      subst (λ s. Contains b s cnt value r) base c,
    )

answers_true :
    (b : Bitmap) (i cnt : ℕ) (r : Bool)
    → IsRun b i cnt true
    → Contains b i cnt false r
    → not r ≡ true
answers_true b i cnt true run (found k h e) = absurd (cc (run k h, e))
answers_true b i cnt false run (absent a) = refl

pub bitmap_all-IsRun :
    (b : Bitmap) (i cnt : ℕ)
    → IsValid b
    → i + cnt ≤ b.bit_cnt
    → IsRun b i cnt true
    → bitmap_all b i cnt ≡ some true
unfolding bitmap_all
bitmap_all-IsRun b i cnt v h run =
    let (r, e, c) = bitmap_contains-Contains b i cnt false v h in
    bind_some _ e ∙ ap some (answers_true b i cnt r run c)
