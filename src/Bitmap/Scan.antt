-- ===== src/Bitmap/Scan.antt =====
-- pintos/src/lib/kernel/bitmap.c: bitmap_scan and bitmap_scan_and_flip.
use ospersonal.Common.{
  ℕ, zero, suc, ◌+◌, ◌-◌, ◌≤◌, ◌<◌, ◌≡◌, refl, ◌∙◌, subst, inl, inr, Bool, true, false, not, Option,
  none, some, leb, ltb, if◌then◌else◌, bind_some, assert-true, arith, Bool-cases, le→leb,
}
use ospersonal.Bitmap.{Bitmap, bit, bitmap_contains, scan_loop, bitmap_scan, bitmap_scan_and_flip}
use ospersonal.Bitmap.Bit.{IsValid}
use ospersonal.Bitmap.Range.{
  IsRun, Contains, found, absent, bitmap_contains-Contains, Filled, bitmap_set_multiple-Filled,
}

not-not : (v : Bool) → not (not v) ≡ v
not-not true = refl
not-not false = refl

-- A bit of the group that differs from `value`.
abbrev pub HasOther : Bitmap → ℕ → ℕ → Bool → Type 0
HasOther b start cnt value = (k : ℕ) × (k < cnt) × (bit b (start + k) ≡ not value)

-- What a scan from `start` answers: the first group of `cnt` bits that are all `value`, and none
-- only where no group starts at or after `start`.
pub data Scanned (b : Bitmap) (start cnt : ℕ) (value : Bool) : Option ℕ → Type 0 where
  first :
      (i : ℕ)
      → start ≤ i
      → i + cnt ≤ b.bit_cnt
      → IsRun b i cnt value
      → ((j : ℕ) → start ≤ j → j < i → HasOther b j cnt value)
      → Scanned b start cnt value (some i)
  nowhere :
      ((j : ℕ) → start ≤ j → j + cnt ≤ b.bit_cnt → HasOther b j cnt value)
      → Scanned b start cnt value none

Scanned-suc :
    (b : Bitmap) (start cnt : ℕ) (value : Bool) {r : Option ℕ}
    → HasOther b start cnt value
    → Scanned b (start + 1) cnt value r
    → Scanned b start cnt value r
Scanned-suc b start cnt value o (first i le fits run before) =
    first i (omega arith) fits run (λ j p q. elim (Bool-cases (ltb start j)) [
      | inl e ↦ before j (ground arith) q
      | inr e ↦ (let same : start ≡ j = ground arith in subst (λ s. HasOther b s cnt value) same o)
    ])
Scanned-suc b start cnt value o (nowhere all) = nowhere (λ j p q. elim (Bool-cases (ltb start j)) [
  | inl e ↦ all j (ground arith) q
  | inr e ↦ (let same : start ≡ j = ground arith in subst (λ s. HasOther b s cnt value) same o)
])

module _ (n : ℕ) (b : Bitmap) (i cnt : ℕ) (value : Bool) where
  -- One round of the loop, given what the later rounds answer.
  scan_round :
      (hit : Bool)
      → bitmap_contains b i cnt (not value) ≡ some hit
      → Contains b i cnt (not value) hit
      → i + cnt ≤ b.bit_cnt
      → (rest : (r : Option ℕ) × (scan_loop n b (i + 1) cnt value ≡ some r)
          × Scanned b (i + 1) cnt value r)
      → (r : Option ℕ) × (scan_loop (suc n) b i cnt value ≡ some r) × Scanned b i cnt value r
  unfolding scan_loop
  scan_round true e (found k p q) h (r, e', s) =
      (r, bind_some _ e ∙ e', Scanned-suc b i cnt value (k, p, q) s)
  scan_round false e (absent all) h rest = (
    some i,
    bind_some _ e,
    first i (omega arith) h (λ k p. all k p ∙ not-not value) (λ j p q. absurd (omega arith)),
  )

scan_loop-Scanned :
    (n : ℕ) (b : Bitmap) (i cnt : ℕ) (value : Bool)
    → IsValid b
    → i + cnt + n ≡ b.bit_cnt + 1
    → (r : Option ℕ) × (scan_loop n b i cnt value ≡ some r) × Scanned b i cnt value r
unfolding scan_loop
scan_loop-Scanned zero b i cnt value v h = (none, refl, nowhere (λ j p q. absurd (omega arith)))
scan_loop-Scanned (suc n) b i cnt value v h =
    let (hit, e, c) = bitmap_contains-Contains b i cnt (not value) v (omega arith) in
    scan_round n b i cnt value hit e c (omega arith)
      (scan_loop-Scanned n b (i + 1) cnt value v (omega arith))

-- From a start inside a valid bitmap the scan does not panic, and answers with the first group.
pub bitmap_scan-Scanned :
    (b : Bitmap) (start cnt : ℕ) (value : Bool)
    → IsValid b
    → start ≤ b.bit_cnt
    → (r : Option ℕ) × (bitmap_scan b start cnt value ≡ some r) × Scanned b start cnt value r
unfolding bitmap_scan
bitmap_scan-Scanned b start cnt value v h = elim (Bool-cases (leb (start + cnt) b.bit_cnt)) [
  | inl fits ↦
      (let rounds : start + cnt + (b.bit_cnt - cnt + 1 - start) ≡ b.bit_cnt + 1 = ground arith in
        let (r, e, s) =
          scan_loop-Scanned (b.bit_cnt - cnt + 1 - start) b start cnt value v rounds in
        (r, assert-true _ (le→leb _ _ h) ∙ (rw (le→leb cnt b.bit_cnt (ground arith)) e), s))
  | inr past ↦
      (none, assert-true _ (le→leb _ _ h) ∙ short past, nowhere (λ j p q. absurd (ground arith)))
]
  where
    short :
        leb (start + cnt) b.bit_cnt ≡ false
        → (if leb cnt b.bit_cnt
            then scan_loop (b.bit_cnt - cnt + 1 - start) b start cnt value
            else some none)
          ≡ some none
    short past = elim (Bool-cases (leb cnt b.bit_cnt)) [
      | inl fits ↦
          (let none_left : b.bit_cnt - cnt + 1 - start ≡ 0 = ground arith in
            rw (fits, none_left) (unfold scan_loop in refl))
      | inr long ↦ rw long
    ]

-- What `bitmap_scan_and_flip` leaves behind.
pub data Flipped (b : Bitmap) (start cnt : ℕ) (value : Bool) : Option ℕ → Bitmap → Type 0 where
  taken :
      (i : ℕ) (b' : Bitmap)
      → Scanned b start cnt value (some i)
      → Filled b i cnt (not value) b'
      → Flipped b start cnt value (some i) b'
  untouched : Scanned b start cnt value none → Flipped b start cnt value none b

flip_found :
    (b : Bitmap) (start cnt : ℕ) (value : Bool) (r : Option ℕ)
    → IsValid b
    → bitmap_scan b start cnt value ≡ some r
    → Scanned b start cnt value r
    → (r' : Option ℕ) × (b' : Bitmap) × (bitmap_scan_and_flip b start cnt value ≡ some (r', b'))
      × Flipped b start cnt value r' b'
unfolding bitmap_scan_and_flip
flip_found b start cnt value none v e s = (none, b, bind_some _ e, untouched s)
flip_found b start cnt value (some i) v e (first k le fits run before) =
    let (b', w, f) = bitmap_set_multiple-Filled b i cnt (not value) v fits in
    (some i, b', bind_some _ e ∙ bind_some _ w, taken i b' (first i le fits run before) f)

-- On a valid bitmap, from a start inside it, the scan and the flip together do not panic; they take
-- exactly the first group, or leave the bitmap as it was where there is none.
pub bitmap_scan_and_flip-Flipped :
    (b : Bitmap) (start cnt : ℕ) (value : Bool)
    → IsValid b
    → start ≤ b.bit_cnt
    → (r : Option ℕ) × (b' : Bitmap) × (bitmap_scan_and_flip b start cnt value ≡ some (r, b'))
      × Flipped b start cnt value r b'
bitmap_scan_and_flip-Flipped b start cnt value v h =
    let (r, e, s) = bitmap_scan-Scanned b start cnt value v h in
    flip_found b start cnt value r v e s
