-- ===== src/Intq/Ring.antt =====
-- pintos/src/devices/intq.c: the buffer as a ring, and the queue that it stands for.
use ospersonal.Common.{
  ℕ, zero, suc, ◌+◌, ◌-◌, ◌%◌, ◌<◌, ◌≤◌, ◌≡◌, ◌≢◌, refl, true, false, List, [], ◌∷◌, ◌++◌, get_or,
  set, length, arith, ap, get_or-set_self, get_or-set_ne, length-set, ◌∙◌,
}
use ospersonal.Intq.{Intq, intq_bufsize, next_pos, intq_empty, intq_full}

pub record IsRing (q : Intq) : Type 0 where
  pub storage : length q.buf ≡ intq_bufsize
  pub head_in : q.head < intq_bufsize
  pub tail_in : q.tail < intq_bufsize

-- How many bytes the queue holds.
abbrev pub used : Intq → ℕ
used q = (q.head + intq_bufsize - q.tail) % intq_bufsize

-- The bytes from a position on, around the end of the buffer.
run_from : List ℕ → ℕ → ℕ → List ℕ
run_from buf zero pos = []
run_from buf (suc n) pos = get_or buf pos 0 ∷ run_from buf n (next_pos pos)

-- The queue that the ring stands for, the oldest byte first.
unfoldable pub contents : Intq → List ℕ
unfolding run_from
contents q = run_from q.buf (used q) q.tail

run_from-set :
    (buf : List ℕ) (n pos i byte : ℕ)
    → pos < 64
    → i < 64
    → n < 64
    → n ≤ (i + 64 - pos) % 64
    → run_from (set buf i byte) n pos ≡ run_from buf n pos
unfolding run_from
run_from-set buf zero pos i byte hp hi hn h = refl
run_from-set buf (suc n) pos i byte hp hi hn h =
    let ne : i ≢ pos = λ e. absurd (omega (arith, e)) in
    rw (get_or-set_ne buf i pos byte 0 ne) (
      ap (λ (xs : List ℕ). get_or buf pos 0 ∷ xs)
        (run_from-set buf n (next_pos pos) i byte (omega arith) hi (omega arith) (omega arith)))

run_from-snoc :
    (buf : List ℕ) (n pos : ℕ)
    → pos < 64
    → run_from buf (suc n) pos ≡ run_from buf n pos ++ (get_or buf ((pos + n) % 64) 0 ∷ [])
unfolding run_from
run_from-snoc buf zero pos h = let at : (pos + 0) % 64 ≡ pos = omega arith in rw at refl
run_from-snoc buf (suc n) pos h =
    let at : (next_pos pos + n) % 64 ≡ (pos + suc n) % 64 = omega arith in
    ap (λ (xs : List ℕ). get_or buf pos 0 ∷ xs)
      (run_from-snoc buf n (next_pos pos) (omega arith)
        ∙ ap (λ (i : ℕ). run_from buf n (next_pos pos) ++ (get_or buf i 0 ∷ [])) at)

length-run_from : (buf : List ℕ) (n pos : ℕ) → length (run_from buf n pos) ≡ n
unfolding run_from
length-run_from buf zero pos = refl
length-run_from buf (suc n) pos = ap suc (length-run_from buf n (next_pos pos))

-- The ring after a byte was written at the head.
module _ (q : Intq) (byte : ℕ) (v : IsRing q) (room : intq_full q ≡ false) where
  unfoldable pub added : Intq
  added = record q { buf = set q.buf q.head byte; head = next_pos q.head }

  one_more : (next_pos q.head + 64 - q.tail) % 64 ≡ suc (used q)
  one_more = ground (arith, room, v.head_in, v.tail_in)

  pub added-IsRing : IsRing added
  unfolding added
  added-IsRing = record {
    storage = length-set q.buf q.head byte ∙ v.storage;
    head_in = omega arith;
    tail_in = v.tail_in;
  }

  pub added-contents : contents added ≡ contents q ++ byte ∷ []
  unfolding added contents
  added-contents =
      let at : (q.tail + used q) % 64 ≡ q.head = omega (arith, v.head_in, v.tail_in) in
      let few : used q < 64 = omega arith in
      rw one_more (
        run_from-snoc (set q.buf q.head byte) (used q) q.tail v.tail_in
        ∙ rw (at, get_or-set_self q.buf q.head byte 0 (omega (arith, v.storage, v.head_in)))
            (ap (λ (xs : List ℕ). xs ++ (byte ∷ []))
              (run_from-set q.buf (used q) q.tail q.head byte v.tail_in v.head_in few
                (omega arith))))

-- The ring after the byte at the tail was read.
module _ (q : Intq) (v : IsRing q) (stored : intq_empty q ≡ false) where
  unfoldable pub removed : Intq
  removed = record q { tail = next_pos q.tail }

  one_less : used q ≡ suc ((q.head + 64 - next_pos q.tail) % 64)
  one_less = ground (arith, stored, v.head_in, v.tail_in)

  pub removed-IsRing : IsRing removed
  unfolding removed
  removed-IsRing = record { storage = v.storage; head_in = v.head_in; tail_in = omega arith }

  pub removed-contents : contents q ≡ get_or q.buf q.tail 0 ∷ contents removed
  unfolding removed contents run_from
  removed-contents = rw one_less refl

pub contents-empty : (q : Intq) → IsRing q → intq_empty q ≡ true → contents q ≡ []
unfolding contents run_from
contents-empty q v e =
    let none_used : used q ≡ 0 = ground (arith, e, v.head_in) in rw none_used refl

pub contents-full : (q : Intq) → IsRing q → intq_full q ≡ true → length (contents q) ≡ 63
unfolding contents
contents-full q v e =
    length-run_from q.buf (used q) q.tail ∙ ground (arith, e, v.head_in, v.tail_in)

pub contents-room : (q : Intq) → IsRing q → intq_full q ≡ false → length (contents q) < 63
unfolding contents
contents-room q v e = ground (arith, length-run_from q.buf (used q) q.tail, e, v.head_in, v.tail_in)
