-- ===== src/Inode/Growth/Pointers.antt =====
-- pintos/src/filesys/inode.c: the pointers of a file of direct blocks while allocate_file fills them in.
use ospersonal.Common.{
  ==→eq, Bool-cases, List, [], ap, arith, count, eq→==, false, get_elem?, get_or, get_or-set_ne,
  get_or-set_self, inl, inr, length, length-set, max, not_false_and_true, refl, set, some, suc, sym,
  true, zero, ℕ, ◌*◌, ◌<◌, ◌==◌, ◌∙◌, ◌∷◌, ◌≡◌, ◌≢◌, ◌≤◌, ◌⊎◌,
}
use ospersonal.Inode.{InodeDisk, Disk}
use ospersonal.Inode.Growth.{SectorMap, Taken}

-- The blocks that have a sector when the loop is at `count`.
abbrev pub Has : InodeDisk → ℕ → ℕ → Type 0
Has inode count k = k * 512 < max (count * 512) inode.length

pub get_elem?-get_or : (xs : List ℕ) (i : ℕ) → i < length xs → get_elem? xs i ≡ some (get_or xs i 0)
get_elem?-get_or [] i h = absurd (omega arith)
get_elem?-get_or (x ∷ xs) zero h = refl
get_elem?-get_or (x ∷ xs) (suc i) h = get_elem?-get_or xs i (omega arith)

module _ (sectors : SectorMap) where
  open sectors use {Map, IsFine, in_use, allocate, allocate-Taken, in_use-lt}

  module _ (d : Disk) (inode : InodeDisk) (m0 : Map) where
    -- What holds of the pointers when the loop is at `count`.
    pub record Filled (count : ℕ) (m : Map) (ptrs : List ℕ) : Type 0 where
      pub fine : IsFine m
      pub slots : length ptrs ≡ 123
      pub used : (k : ℕ) → Has inode count k → in_use m (get_or ptrs k 0) ≡ true
      pub distinct :
          (k n : ℕ)
          → Has inode count k
          → Has inode count n
          → get_or ptrs k 0 ≡ get_or ptrs n 0
          → k ≡ n
      pub old : (k : ℕ) → k * 512 < inode.length → get_or ptrs k 0 ≡ get_or inode.direct_ptrs k 0
      pub fresh :
          (k : ℕ) → Has inode count k → inode.length ≤ k * 512 → in_use m0 (get_or ptrs k 0) ≡ false
      pub grows : (j : ℕ) → in_use m0 j ≡ true → in_use m j ≡ true

    -- The block at `count` is one of the file's already.
    pub Filled-old :
        (count : ℕ) (m : Map) (ptrs : List ℕ)
        → count * 512 < inode.length
        → Filled count m ptrs
        → Filled (suc count) m ptrs
    Filled-old count m ptrs within v = record {
      fine = v.fine;
      slots = v.slots;
      used = λ k h. v.used k (omega arith);
      distinct = λ k n h h' e. v.distinct k n (omega arith) (omega arith) e;
      old = v.old;
      fresh = λ k h past. v.fresh k (omega arith) past;
      grows = v.grows;
    }

    module _ (count : ℕ) (m m' : Map) (ptrs : List ℕ) (i : ℕ) (past : inode.length ≤ count * 512)
        (room : count < 123) (v : Filled count m ptrs) (fine : IsFine m')
        (t : Taken (in_use m) (some i) (in_use m')) where
      at_new : get_or (set ptrs count i) count 0 ≡ i
      at_new = get_or-set_self ptrs count i 0 (omega (arith, v.slots))

      at_other : (k : ℕ) → k ≢ count → get_or (set ptrs count i) k 0 ≡ get_or ptrs k 0
      at_other k ne = get_or-set_ne ptrs count k i 0 (λ e. ne (sym e))

      still_used : (j : ℕ) → in_use m j ≡ true → in_use m' j ≡ true
      still_used j h = t.1 j ∙ ground arith

      new_used : in_use m' i ≡ true
      new_used = t.1 i ∙ ground arith

      -- What was in use is not the new sector.
      not_new : (j : ℕ) → in_use m j ≡ true → j ≢ i
      not_new j h e = not_false_and_true h (ap (in_use m) e ∙ t.0)

      cases : (k : ℕ) → Has inode (suc count) k → (k ≡ count) ⊎ ((k ≢ count) × Has inode count k)
      cases k h = elim (Bool-cases (k == count)) [
        | inl same ↦ inl (==→eq k count same)
        | inr other ↦
            let ne : k ≢ count = λ e. not_false_and_true (eq→== k count e) other in
            inr (ne, omega arith)
      ]

      new_at : (k : ℕ) → k ≡ count → get_or (set ptrs count i) k 0 ≡ i
      new_at k e = ap (λ (n : ℕ). get_or (set ptrs count i) n 0) e ∙ at_new

      used_at : (k : ℕ) → Has inode (suc count) k → in_use m' (get_or (set ptrs count i) k 0) ≡ true
      used_at k h = elim (cases k h) [
        | inl e ↦ ap (in_use m') (new_at k e) ∙ new_used
        | inr (ne, has) ↦
            ap (in_use m') (at_other k ne) ∙ still_used (get_or ptrs k 0) (v.used k has)
      ]

      distinct_at :
          (k n : ℕ)
          → Has inode (suc count) k
          → Has inode (suc count) n
          → get_or (set ptrs count i) k 0 ≡ get_or (set ptrs count i) n 0
          → k ≡ n
      distinct_at k n h h' e = elim (cases k h) [
        | inl ek ↦ elim (cases n h') [
          | inl en ↦ ek ∙ sym en
          | inr (nn, hn) ↦
              absurd (
                not_new (get_or ptrs n 0) (v.used n hn) (sym (at_other n nn) ∙ sym e ∙ new_at k ek))
        ]
        | inr (nk, hk) ↦ elim (cases n h') [
          | inl en ↦
              absurd
                (not_new (get_or ptrs k 0) (v.used k hk) (sym (at_other k nk) ∙ e ∙ new_at n en))
          | inr (nn, hn) ↦ v.distinct k n hk hn (sym (at_other k nk) ∙ e ∙ at_other n nn)
        ]
      ]

      fresh_at :
          (k : ℕ)
          → Has inode (suc count) k
          → inode.length ≤ k * 512
          → in_use m0 (get_or (set ptrs count i) k 0) ≡ false
      fresh_at k h after = elim (cases k h) [
        | inl e ↦ elim (Bool-cases (in_use m0 i)) [
          | inl taken ↦ absurd (not_new i (v.grows i taken) refl)
          | inr free ↦ ap (in_use m0) (new_at k e) ∙ free
        ]
        | inr (ne, has) ↦ ap (in_use m0) (at_other k ne) ∙ v.fresh k has after
      ]

      pub Filled-new : Filled (suc count) m' (set ptrs count i)
      Filled-new = record {
        fine = fine;
        slots = length-set ptrs count i ∙ v.slots;
        used = used_at;
        distinct = distinct_at;
        old = λ k h. at_other k (omega arith) ∙ v.old k h;
        fresh = fresh_at;
        grows = λ j h. still_used j (v.grows j h);
      }

    -- The same pointers with another map in which no less is in use.
    pub Filled-kept :
        (count : ℕ) (m m' : Map) (ptrs : List ℕ)
        → IsFine m'
        → ((j : ℕ) → in_use m' j ≡ in_use m j)
        → Filled count m ptrs
        → Filled count m' ptrs
    Filled-kept count m m' ptrs fine same v = record {
      fine = fine;
      slots = v.slots;
      used = λ k h. same (get_or ptrs k 0) ∙ v.used k h;
      distinct = v.distinct;
      old = v.old;
      fresh = v.fresh;
      grows = λ j h. same j ∙ v.grows j h;
    }
