-- ===== src/Inode/Growth.antt =====
-- pintos/src/filesys/inode.c: allocate_file and deallocate_file. The map of the sectors in use is behind
-- `SectorMap`, which the free map fills. `none` is a kernel panic or a read past the end of an
-- array; on the answer false the sectors taken so far stay taken, as in the source.
pub mod Pointers
pub mod Direct
pub mod Grown
pub mod Mapped
pub mod Writes
use ospersonal.Common.{
  Bool, List, Option, [], count, false, get_or, if◌then◌else◌, length, min, none, set, some, suc,
  true, zero, ℕ, ◌*◌, ◌+◌, ◌-◌, ◌/◌, ◌<◌, ◌==◌, ◌>>=◌, ◌^◌, ◌∷◌, ◌≡◌,
}
use ospersonal.Inode.{InodeDisk, Disk, byte_to_sector, num_direct, num_blocks_in_indirect}
use ospersonal.Inode.Writing.{with_words}

-- What `free_map_allocate (1, &sector)` and `free_map_release (sector, 1)` promise.
abbrev pub Taken : (ℕ → Bool) → Option ℕ → (ℕ → Bool) → Type 0
Taken before none after = (j : ℕ) → after j ≡ before j
Taken before (some i) after =
    (before i ≡ false) × ((j : ℕ) → after j ≡ (if j == i then true else before j))

pub record SectorMap : Type 1 where
  pub Map : Type 0
  pub IsFine : Map → Type 0
  pub in_use : Map → ℕ → Bool
  pub allocate : Map → Option (Option ℕ × Map)
  pub release : Map → ℕ → Option Map
  pub allocate-Taken :
      (m : Map)
      → IsFine m
      → (r : Option ℕ) × (m' : Map) × (allocate m ≡ some (r, m'))
        × IsFine m'
        × Taken (in_use m) r (in_use m')
  pub release-in_use :
      (m : Map) (i : ℕ)
      → IsFine m
      → in_use m i ≡ true
      → (m' : Map) × (release m i ≡ some m')
        × IsFine m'
        × ((j : ℕ) → in_use m' j ≡ (if j == i then false else in_use m j))
  pub in_use-lt : (m : Map) (i : ℕ) → IsFine m → in_use m i ≡ true → i < 2 ^ 32 - 1

-- DIV_ROUND_UP by the size of a sector.
abbrev pub bytes_to_sectors : ℕ → ℕ
bytes_to_sectors size = (size + 511) / 512

abbrev pub put_block : List ℕ → ℕ → Option ℕ → List ℕ
put_block blocks i none = blocks
put_block blocks i (some sector) = set blocks i sector

module _ (sectors : SectorMap) where
  open sectors use {Map, allocate, release}

  -- The map, the disk, and the inode that is being given sectors.
  pub record Growing : Type 0 where
    pub map : Map
    pub disk : Disk
    pub inode : InodeDisk

  -- A test of `byte_to_sector` against -1, and a sector where there is none: `none` inside is a
  -- failure of `free_map_allocate`.
  unfoldable pub new_sector : Map → Disk → InodeDisk → ℕ → Option (Option (Option ℕ) × Map)
  new_sector m d inode block_num = byte_to_sector d inode (block_num * 512) >>= λ at.
      if at == 2 ^ 32 - 1
      then (allocate m >>= λ r. elim r.0 [
        | none ↦ some (none, r.1)
        | some i ↦ some (some (some i), r.1)
      ])
      else some (some none, m)

  -- A loop over an array of block pointers, from index `count` on, with the rounds left first.
  unfoldable pub fill_blocks :
      ℕ → Disk → InodeDisk → Map → List ℕ → ℕ → ℕ → Option (Bool × Map × List ℕ)
  fill_blocks zero d inode m blocks count block_num = some (true, m, blocks)
  fill_blocks (suc n) d inode m blocks count block_num = new_sector m d inode block_num >>= λ r.
      elim r.0 [
        | none ↦ some (false, r.1, blocks)
        | some made ↦
            fill_blocks n d inode r.1 (put_block blocks count made) (suc count) (suc block_num)
      ]

  -- The loop over the direct pointers stores each in the inode as it goes, and `byte_to_sector` looks
  -- at the inode again.
  unfoldable pub fill_direct : ℕ → Disk → InodeDisk → Map → ℕ → Option (Bool × Map × InodeDisk)
  fill_direct zero d inode m count = some (true, m, inode)
  fill_direct (suc n) d inode m count = new_sector m d inode count >>= λ r. elim r.0 [
    | none ↦ some (false, r.1, inode)
    | some made ↦
        fill_direct n d (record inode { direct_ptrs = put_block inode.direct_ptrs count made }) r.1
          (suc count)
  ]

  -- An indirect block at a sector: read, filled up, and written back unless a sector was missing.
  unfoldable pub fill_indirect : ℕ → Disk → InodeDisk → Map → ℕ → ℕ → Option (Bool × Map × Disk)
  fill_indirect rounds d inode m sector block_num =
      fill_blocks rounds d inode m (d.blocks sector) 0 block_num >>= λ r.
      if r.0 then some (true, r.1, with_words d sector r.2) else some (false, r.1, d)

  unfoldable pub grow_single : Growing → ℕ → Option (Bool × Growing)
  grow_single g num_sectors =
      if num_sectors == 0
      then some (true, g)
      else (new_sector g.map g.disk g.inode num_direct >>= λ r. elim r.0 [
        | none ↦ some (false, record g { map = r.1 })
        | some made ↦
            (let inode = record (g.inode) {
              singly_indirect_ptr = elim made [ none ↦ g.inode.singly_indirect_ptr | some i ↦ i ];
            } in
              fill_indirect (min num_blocks_in_indirect num_sectors) g.disk inode r.1
                inode.singly_indirect_ptr num_direct
              >>= λ f. some (f.0, record { map = f.1; disk = f.2; inode = inode }))
      ])

  -- The indirect blocks below the doubly indirect one; the pointers to them are in `blocks`.
  unfoldable pub grow_below : ℕ → Growing → List ℕ → ℕ → ℕ → ℕ → Option (Bool × Growing × List ℕ)
  grow_below zero g blocks i block_num num_sectors = some (true, g, blocks)
  grow_below (suc n) g blocks i block_num num_sectors =
      new_sector g.map g.disk g.inode block_num >>= λ r. elim r.0 [
        | none ↦ some (false, record g { map = r.1 }, blocks)
        | some made ↦
            (let blocks' = put_block blocks i made in
              let count = min num_blocks_in_indirect num_sectors in
              fill_indirect count g.disk g.inode r.1 (get_or blocks' i 0) block_num >>= λ f.
              let g' = record g { map = f.1; disk = f.2 } in
              if f.0
              then grow_below n g' blocks' (suc i) (block_num + count) (num_sectors - count)
              else some (false, g', blocks'))
      ]

  unfoldable pub grow_double : Growing → ℕ → Option (Bool × Growing)
  grow_double g num_sectors =
      let block_num = num_direct + num_blocks_in_indirect in
      if num_sectors == 0
      then some (true, g)
      else (new_sector g.map g.disk g.inode block_num >>= λ r. elim r.0 [
        | none ↦ some (false, record g { map = r.1 })
        | some made ↦
            (let inode = record (g.inode) {
              doubly_indirect_ptr = elim made [ none ↦ g.inode.doubly_indirect_ptr | some i ↦ i ];
            } in
              let g1 : Growing = record { map = r.1; disk = g.disk; inode = inode } in
              grow_below (bytes_to_sectors num_sectors) g1 (g.disk.blocks inode.doubly_indirect_ptr)
                0 block_num num_sectors
              >>= λ f.
                  if f.0
                  then some (
                    true,
                    record (f.1) { disk = with_words f.1.disk inode.doubly_indirect_ptr f.2 },
                  )
                  else some (false, f.1))
      ])

  abbrev pub and_then :
      Option (Bool × Growing) → (Growing → Option (Bool × Growing)) → Option (Bool × Growing)
  and_then r f = r >>= λ s. if s.0 then f s.1 else some s

  -- The length of the inode is the caller's to set, or is set at the end where an inode is given.
  unfoldable pub allocate_file : Growing → ℕ → Option (Bool × Growing)
  allocate_file g len =
      let num_sectors = bytes_to_sectors len in
      let rounds = min num_direct num_sectors in
      and_then
        (and_then
          (fill_direct rounds g.disk g.inode g.map 0 >>= λ r.
            some (r.0, record { map = r.1; disk = g.disk; inode = r.2 }))
          (λ g1. grow_single g1 (num_sectors - rounds)))
        (λ g2.
          grow_double g2 (num_sectors - rounds - min num_blocks_in_indirect (num_sectors - rounds)))

  -- `allocate_file` for an open inode, which sets the length once all is there.
  unfoldable pub extend_file : Growing → ℕ → Option (Bool × Growing)
  extend_file g len =
      and_then (allocate_file g len)
        (λ g'. some (true, record g' { inode = record (g'.inode) { length = len } }))

  -- The release of the first pointers of an array.
  unfoldable pub release_blocks : ℕ → Map → List ℕ → Option Map
  release_blocks zero m blocks = some m
  release_blocks (suc n) m [] = none
  release_blocks (suc n) m (p ∷ blocks) = release m p >>= λ m'. release_blocks n m' blocks

  unfoldable pub release_below : ℕ → Disk → Map → List ℕ → ℕ → Option Map
  release_below zero d m blocks num_sectors = some m
  release_below (suc n) d m [] num_sectors = none
  release_below (suc n) d m (p ∷ blocks) num_sectors =
      let count = min num_blocks_in_indirect num_sectors in
      release_blocks count m (d.blocks p) >>= λ m1.
      release m1 p >>= λ m2. release_below n d m2 blocks (num_sectors - count)

  unfoldable pub deallocate_file : Disk → InodeDisk → ℕ → Map → Option Map
  deallocate_file d inode sector m =
      let num_sectors = bytes_to_sectors inode.length in
      let direct = min num_direct num_sectors in
      let single = min num_blocks_in_indirect (num_sectors - direct) in
      let double = num_sectors - direct - single in
      release_blocks direct m inode.direct_ptrs >>= λ m1.
      (if single == 0
        then some m1
        else (release_blocks single m1 (d.blocks inode.singly_indirect_ptr) >>= λ m2.
            release m2 inode.singly_indirect_ptr))
      >>= λ m3.
          (if double == 0
            then some m3
            else (release_below (bytes_to_sectors double) d m3 (d.blocks inode.doubly_indirect_ptr)
                  double
                >>= λ m4. release m4 inode.doubly_indirect_ptr))
          >>= λ m5. release m5 sector
