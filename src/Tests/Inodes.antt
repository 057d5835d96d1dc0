-- ===== src/Tests/Inodes.antt =====
-- pintos/src/filesys/inode.c: a file of 1000 bytes in sectors 50 and 51.
use ospersonal.Common.{
  [], arith, false, if◌then◌else◌, length-replicate, ltb, none, refl, replicate, some, suc, zero, ℕ,
  ◌%◌, ◌*◌, ◌+◌, ◌-◌, ◌<◌, ◌^◌, ◌↔◌, ◌∷◌, ◌≡◌, ◌≤◌,
}
use ospersonal.File.{File, file_read}
use ospersonal.File.Position.{file_read-Moves}
use ospersonal.Inode.{Disk, InodeDisk, block_sector, inode_read_at}
use ospersonal.Inode.Sectors.{block_sector-none}
use ospersonal.Inode.Writing.{inode_write_within}
use ospersonal.Inode.Writing.Written.{Written, inode_write-Written}
use ospersonal.Inode.Writing.Sound.{IsSound}
use ospersonal.Inode.Reading.{IsMapped, file_bytes, inode_read_at-file_bytes}

abbrev numbered : Disk
numbered = record { blocks = λ s. replicate 128 9; bytes = λ s. replicate 512 s }

abbrev two_sectors : InodeDisk
two_sectors = record {
  length = 1000;
  isdir = 0;
  direct_ptrs = 50 ∷ 51 ∷ replicate 121 0;
  singly_indirect_ptr = 0;
  doubly_indirect_ptr = 0;
}

two_sectors-sector : (n : ℕ) → n * 512 < 1000 → block_sector numbered two_sectors n ≡ some (50 + n)
unfolding block_sector
two_sectors-sector zero h = refl
two_sectors-sector (suc zero) h = refl
two_sectors-sector (suc (suc n)) h = absurd (omega arith)

two_sectors-IsMapped : IsMapped numbered two_sectors
two_sectors-IsMapped = record {
  sector_of = λ n. 50 + n;
  sectors = two_sectors-sector;
  whole = λ n h. length-replicate 512 (50 + n);
}

inode_read_at-file_bytes_example : inode_read_at numbered two_sectors 4 510 ≡ (
    if ltb two_sectors.length (510 + 4)
    then some none
    else some (some (file_bytes numbered (λ n. 50 + n) 4 510)))
unfolding two_sectors-IsMapped
inode_read_at-file_bytes_example =
    inode_read_at-file_bytes numbered two_sectors two_sectors-IsMapped 4 510 (omega arith)

block_sector-none_example :
    (block_sector numbered two_sectors 379 ≡ none) ↔ (128 ≤ (379 - 251) % 512)
block_sector-none_example =
    block_sector-none numbered two_sectors (record { direct = refl; words = λ s. refl }) 379
      (omega arith)

abbrev near_end : File
near_end = record { pos = 510; deny_write = false }

file_read-Moves_example : file_read numbered two_sectors near_end 4 ≡ (
    if ltb two_sectors.length (510 + 4)
    then some (none, record near_end { pos = (510 + (2 ^ 32 - 1)) % 2 ^ 32 })
    else some (some (file_bytes numbered (λ n. 50 + n) 4 510), record near_end { pos = 510 + 4 }))
unfolding two_sectors-IsMapped
file_read-Moves_example =
    file_read-Moves numbered two_sectors two_sectors-IsMapped near_end 4 (omega arith)

-- The two sectors are 50 and 51.
two_sectors-IsSound : IsSound numbered two_sectors (λ n. 50 + n)
two_sectors-IsSound = record {
  sectors = two_sectors-sector;
  whole = λ n h. length-replicate 512 (50 + n);
  distinct = λ n m h k e. omega arith;
  not_single = λ n h far e. omega arith;
  not_double = λ n h far e. omega arith;
  not_below = λ n m p h far e. absurd (omega arith);
}

-- Five bytes across the boundary of the sectors.
inode_write-Written_example :
    (w : Written numbered two_sectors
      (λ n. 50 + n)
      (1 ∷ 2 ∷ 3 ∷ 4 ∷ 5 ∷ [])
      510
      0
      (inode_write_within false numbered two_sectors (1 ∷ 2 ∷ 3 ∷ 4 ∷ 5 ∷ []) 510))
    × (inode_read_at w.after two_sectors 5 510 ≡ some (some (1 ∷ 2 ∷ 3 ∷ 4 ∷ 5 ∷ [])))
inode_write-Written_example =
    inode_write-Written numbered two_sectors (λ n. 50 + n) (1 ∷ 2 ∷ 3 ∷ 4 ∷ 5 ∷ []) 510
      two_sectors-IsSound (omega arith) (omega arith)
