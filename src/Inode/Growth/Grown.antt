-- ===== src/Inode/Growth/Grown.antt =====
-- pintos/src/filesys/inode.c: what allocate_file leaves behind, on files of direct blocks.
use ospersonal.Common.{
  Bool, Bool-cases, List, Option, arith, count, false, get_or, if◌then◌else◌, inl, inr, length, ltb,
  lt→ltb, max, min, refl, some, true, ℕ, ◌*◌, ◌-◌, ◌<◌, ◌≡◌, ◌≤◌,
}
use ospersonal.Inode.{InodeDisk, block_sector}
use ospersonal.Inode.Writing.Sound.{IsSound}
use ospersonal.Inode.Growth.{
  SectorMap, Growing, allocate_file, extend_file, grow_single, grow_double, fill_direct,
  bytes_to_sectors,
}
use ospersonal.Inode.Growth.Direct.{Ran, fill_direct-Ran}
use ospersonal.Inode.Growth.Pointers.{Filled, get_elem?-get_or}

module _ (sectors : SectorMap) where
  open sectors use {Map, IsFine, in_use}

  -- A file of direct blocks: each has a sector of its own that is in use.
  pub record Owned (g : Growing sectors) : Type 0 where
    pub fine : IsFine g.map
    pub small : g.inode.length ≤ 123 * 512
    pub slots : length g.inode.direct_ptrs ≡ 123
    pub whole : (s : ℕ) → length (g.disk.bytes s) ≡ 512
    pub used :
        (k : ℕ) → k * 512 < g.inode.length → in_use g.map (get_or g.inode.direct_ptrs k 0) ≡ true
    pub distinct :
        (k n : ℕ)
        → k * 512 < g.inode.length
        → n * 512 < g.inode.length
        → get_or g.inode.direct_ptrs k 0 ≡ get_or g.inode.direct_ptrs n 0
        → k ≡ n

  pub Owned-IsSound :
      (g : Growing sectors) → Owned g → IsSound g.disk g.inode (λ k. get_or g.inode.direct_ptrs k 0)
  unfolding block_sector
  Owned-IsSound g v = record {
    sectors = λ n h.
        let direct : ltb n 123 ≡ true = lt→ltb n 123 (omega (arith, v.small)) in
        rw direct (get_elem?-get_or g.inode.direct_ptrs n (omega (arith, v.slots, v.small)));
    whole = λ n h. v.whole (get_or g.inode.direct_ptrs n 0);
    distinct = v.distinct;
    not_single = λ n h far. absurd (omega (arith, v.small));
    not_double = λ n h far. absurd (omega (arith, v.small));
    not_below = λ n m p h far e. absurd (omega (arith, v.small));
  }

  -- What a call comes to: the disk, the old blocks and what was in use are kept; the file has the new
  -- length where the call succeeds and the old one where it fails, and a sector for every block.
  pub record Grown (g : Growing sectors) (len : ℕ) (r : Option (Bool × Growing sectors))
      : Type 0 where
    pub success : Bool
    pub after : Growing sectors
    pub ends : r ≡ some (success, after)
    pub new_length : after.inode.length ≡ (if success then len else g.inode.length)
    pub owned : Owned after
    pub same_disk : after.disk ≡ g.disk
    pub old :
        (k : ℕ)
        → k * 512 < g.inode.length
        → get_or after.inode.direct_ptrs k 0 ≡ get_or g.inode.direct_ptrs k 0
    pub fresh :
        (k : ℕ)
        → g.inode.length ≤ k * 512
        → k * 512 < after.inode.length
        → in_use g.map (get_or after.inode.direct_ptrs k 0) ≡ false
    pub grows : (j : ℕ) → in_use g.map j ≡ true → in_use after.map j ≡ true

  module _ (g : Growing sectors) (v : Owned g) where
    Filled-start : Filled sectors g.disk g.inode g.map 0 g.map g.inode.direct_ptrs
    Filled-start = record {
      fine = v.fine;
      slots = v.slots;
      used = λ k h. v.used k (omega arith);
      distinct = λ k n h h' e. v.distinct k n (omega arith) (omega arith) e;
      old = λ k h. refl;
      fresh = λ k h past. absurd (omega arith);
      grows = λ j h. h;
    }

    -- No block is left for the indirect blocks.
    extend_file-direct :
        (len : ℕ) (success : Bool) (m : Map) (ptrs : List ℕ)
        → len ≤ 123 * 512
        → fill_direct sectors (bytes_to_sectors len) g.disk g.inode g.map 0
          ≡ some (success, m, record (g.inode) { direct_ptrs = ptrs })
        → extend_file sectors g len
          ≡ some (
            success,
            record {
              map = m;
              disk = g.disk;
              inode = record (g.inode) {
                direct_ptrs = ptrs;
                length = if success then len else g.inode.length;
              };
            },
          )
    unfolding extend_file allocate_file grow_single grow_double
    extend_file-direct len true m ptrs small e =
        let few : min 123 (bytes_to_sectors len) ≡ bytes_to_sectors len = omega arith in
        let rest : bytes_to_sectors len - bytes_to_sectors len ≡ 0 = omega arith in
        rw (few, e, rest) refl
    extend_file-direct len false m ptrs small e =
        let few : min 123 (bytes_to_sectors len) ≡ bytes_to_sectors len = omega arith in
        rw (few, e) refl

    Filled-Owned :
        (len : ℕ) (m : Map) (ptrs : List ℕ) (count : ℕ)
        → len ≤ 123 * 512
        → len ≤ max (count * 512) g.inode.length
        → Filled sectors g.disk g.inode g.map count m ptrs
        → Owned (record {
          map = m;
          disk = g.disk;
          inode = record (g.inode) { direct_ptrs = ptrs; length = len };
        })
    Filled-Owned len m ptrs count small reached f = record {
      fine = f.fine;
      small = small;
      slots = f.slots;
      whole = v.whole;
      used = λ k h. f.used k (omega arith);
      distinct = λ k n h h' e. f.distinct k n (omega arith) (omega arith) e;
    }

    Ran-Grown :
        (len count : ℕ) {r : Option (Bool × Map × InodeDisk)}
        (ran : Ran sectors g.disk g.inode g.map 0 count r)
        → g.inode.length ≤ len
        → len ≤ 123 * 512
        → count ≡ bytes_to_sectors len
        → extend_file sectors g len
          ≡ some (
            ran.success,
            record {
              map = ran.map;
              disk = g.disk;
              inode = record (g.inode) {
                direct_ptrs = ran.ptrs;
                length = if ran.success then len else g.inode.length;
              };
            },
          )
        → Grown g len (extend_file sectors g len)
    Ran-Grown len count ran longer small rounds e = record {
      success = ran.success;
      after = record {
        map = ran.map;
        disk = g.disk;
        inode = record (g.inode) {
          direct_ptrs = ran.ptrs;
          length = if ran.success then len else g.inode.length;
        };
      };
      ends = e;
      new_length = refl;
      owned =
          Filled-Owned (if ran.success then len else g.inode.length) ran.map ran.ptrs ran.reached
            (ground arith) reaches ran.filled;
      same_disk = refl;
      old = ran.filled.old;
      fresh = λ k past h. ran.filled.fresh k (omega (arith, reaches)) past;
      grows = ran.filled.grows;
    }
      where
        reaches :
            (if ran.success then len else g.inode.length) ≤ max (ran.reached * 512) g.inode.length
        reaches = elim (Bool-cases ran.success) [
          | inl ok ↦ rw ok (omega (arith, ran.all ok))
          | inr fails ↦ rw fails (omega arith)
        ]

    pub extend_file-Grown :
        (len : ℕ) → g.inode.length ≤ len → len ≤ 123 * 512 → Grown g len (extend_file sectors g len)
    extend_file-Grown len longer small =
        let ran =
          fill_direct-Ran sectors g.disk g.inode g.map (bytes_to_sectors len) 0 g.map
            g.inode.direct_ptrs (omega arith) Filled-start in
        Ran-Grown len (bytes_to_sectors len) ran longer small refl
          (extend_file-direct len ran.success ran.map ran.ptrs small ran.ends)
