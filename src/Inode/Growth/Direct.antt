-- ===== src/Inode/Growth/Direct.antt =====
-- pintos/src/filesys/inode.c: allocate_file on files of direct blocks.
use ospersonal.Common.{
  Bool, Bool-cases, List, Option, arith, count, false, get_or, inl, inr, ltb, ltb→lt, lt→ltb, ne→==,
  none, refl, set, some, suc, true, zero, ℕ, ◌*◌, ◌+◌, ◌-◌, ◌/◌, ◌<◌, ◌==◌, ◌^◌, ◌∙◌, ◌≡◌, ◌≤◌,
}
use ospersonal.Inode.{InodeDisk, Disk, byte_to_sector, block_sector}
use ospersonal.Inode.Growth.Pointers.{get_elem?-get_or, Filled, Filled-old, Filled-new, Filled-kept}
use ospersonal.Inode.Growth.{SectorMap, Taken, new_sector, put_block, fill_direct}

module _ (sectors : SectorMap) where
  open sectors use {Map, IsFine, in_use, allocate, allocate-Taken, in_use-lt}

  module _ (d : Disk) (inode : InodeDisk) (m0 : Map) where
    -- What the loop comes to: it ends, and its pointers are as said, up to the last or where it failed.
    pub record Ran (count n : ℕ) (r : Option (Bool × Map × InodeDisk)) : Type 0 where
      pub success : Bool
      pub map : Map
      pub ptrs : List ℕ
      pub reached : ℕ
      pub ends : r ≡ some (success, map, record inode { direct_ptrs = ptrs })
      pub all : success ≡ true → reached ≡ count + n
      pub filled : Filled sectors d inode m0 reached map ptrs

    new_sector-old :
        (count : ℕ) (m : Map) (ptrs : List ℕ)
        → count < 123
        → count * 512 < inode.length
        → Filled sectors d inode m0 count m ptrs
        → new_sector sectors m d (record inode { direct_ptrs = ptrs }) count ≡ some (some none, m)
    unfolding new_sector byte_to_sector block_sector
    new_sector-old count m ptrs room within v =
        let inside : ltb (count * 512) inode.length ≡ true = lt→ltb _ _ within in
        let block : count * 512 / 512 ≡ count = omega arith in
        let direct : ltb count 123 ≡ true = lt→ltb _ _ room in
        let there = get_elem?-get_or ptrs count (omega (arith, v.slots)) in
        let low = in_use-lt m (get_or ptrs count 0) v.fine (v.used count (omega arith)) in
        let not_minus_1 : (get_or ptrs count 0 == 2 ^ 32 - 1) ≡ false =
          ne→== _ _ (λ e. absurd (omega arith)) in
        rw (inside, block, direct, there, not_minus_1) refl

    new_sector-full :
        (count : ℕ) (m m' : Map) (ptrs : List ℕ)
        → inode.length ≤ count * 512
        → allocate m ≡ some (none, m')
        → new_sector sectors m d (record inode { direct_ptrs = ptrs }) count ≡ some (none, m')
    unfolding new_sector byte_to_sector
    new_sector-full count m m' ptrs past e =
        let outside : ltb (count * 512) inode.length ≡ false = ground arith in rw (outside, e) refl

    new_sector-new :
        (count i : ℕ) (m m' : Map) (ptrs : List ℕ)
        → inode.length ≤ count * 512
        → allocate m ≡ some (some i, m')
        → new_sector sectors m d (record inode { direct_ptrs = ptrs }) count
          ≡ some (some (some i), m')
    unfolding new_sector byte_to_sector
    new_sector-new count i m m' ptrs past e =
        let outside : ltb (count * 512) inode.length ≡ false = ground arith in rw (outside, e) refl

    fill_direct-step :
        (n count : ℕ) (m m' : Map) (ptrs : List ℕ) (made : Option ℕ)
        → new_sector sectors m d (record inode { direct_ptrs = ptrs }) count ≡ some (some made, m')
        → fill_direct sectors (suc n) d (record inode { direct_ptrs = ptrs }) m count
          ≡ fill_direct sectors n d
              (record inode { direct_ptrs = put_block ptrs count made })
              m'
              (suc count)
    unfolding fill_direct
    fill_direct-step n count m m' ptrs made e = rw e refl

    fill_direct-stop :
        (n count : ℕ) (m m' : Map) (ptrs : List ℕ)
        → new_sector sectors m d (record inode { direct_ptrs = ptrs }) count ≡ some (none, m')
        → fill_direct sectors (suc n) d (record inode { direct_ptrs = ptrs }) m count
          ≡ some (false, m', record inode { direct_ptrs = ptrs })
    unfolding fill_direct
    fill_direct-stop n count m m' ptrs e = rw e refl

    Ran-suc :
        (count n : ℕ) {r r' : Option (Bool × Map × InodeDisk)}
        → r ≡ r'
        → Ran (suc count) n r'
        → Ran count (suc n) r
    Ran-suc count n e later = record {
      success = later.success;
      map = later.map;
      ptrs = later.ptrs;
      reached = later.reached;
      ends = e ∙ later.ends;
      all = λ ok. omega (arith, later.all ok);
      filled = later.filled;
    }

    Ran-allocated :
        (n count : ℕ) (m m' : Map) (ptrs : List ℕ) (r : Option ℕ)
        → count < 123
        → inode.length ≤ count * 512
        → Filled sectors d inode m0 count m ptrs
        → allocate m ≡ some (r, m')
        → IsFine m'
        → Taken (in_use m) r (in_use m')
        → ((i : ℕ)
            → Filled sectors d inode m0 (suc count) m' (set ptrs count i)
            → Ran (suc count) n (
                fill_direct sectors n d
                  (record inode { direct_ptrs = set ptrs count i })
                  m'
                  (suc count)))
        → Ran count
            (suc n)
            (fill_direct sectors (suc n) d (record inode { direct_ptrs = ptrs }) m count)
    Ran-allocated n count m m' ptrs none room past v e fine t later = record {
      success = false;
      map = m';
      ptrs = ptrs;
      reached = count;
      ends = fill_direct-stop n count m m' ptrs (new_sector-full count m m' ptrs past e);
      all = λ ok. absurd (cc);
      filled = Filled-kept sectors d inode m0 count m m' ptrs fine t v;
    }
    Ran-allocated n count m m' ptrs (some i) room past v e fine t later =
        Ran-suc count n
          (fill_direct-step n count m m' ptrs (some i) (new_sector-new count i m m' ptrs past e))
          (later i (Filled-new sectors d inode m0 count m m' ptrs i past room v fine t))

    pub fill_direct-Ran :
        (n count : ℕ) (m : Map) (ptrs : List ℕ)
        → count + n ≤ 123
        → Filled sectors d inode m0 count m ptrs
        → Ran count n (fill_direct sectors n d (record inode { direct_ptrs = ptrs }) m count)
    fill_direct-Ran zero count m ptrs room v = record {
      success = true;
      map = m;
      ptrs = ptrs;
      reached = count;
      ends = unfold fill_direct in refl;
      all = λ ok. omega arith;
      filled = v;
    }
    fill_direct-Ran (suc n) count m ptrs room v =
        elim (Bool-cases (ltb (count * 512) inode.length)) [
          | inl within ↦
              let lt = ltb→lt _ _ within in
              Ran-suc count n
                (fill_direct-step n count m m ptrs none
                  (new_sector-old count m ptrs (omega arith) lt v))
                (fill_direct-Ran n (suc count) m ptrs (omega arith)
                  (Filled-old sectors d inode m0 count m ptrs lt v))
          | inr outside ↦
              let past : inode.length ≤ count * 512 = ground arith in
              let (r, m', e, fine, t) = allocate-Taken m v.fine in
              Ran-allocated n count m m' ptrs r (omega arith) past v e fine t
                (λ i w. fill_direct-Ran n (suc count) m' (set ptrs count i) (omega arith) w)
        ]
