-- ===== src/Tests/Growing.antt =====
-- Witnesses on files that grow.
use ospersonal.Common.{
  [], arith, false, length-replicate, refl, replicate, some, sym, true, ℕ, ◌*◌, ◌<◌, ◌∙◌, ◌∷◌, ◌≡◌,
}
use ospersonal.Bitmap.{bit}
use ospersonal.Inode.Growth.{
  Growing, extend_file, allocate_file, fill_direct, new_sector, grow_single, grow_double,
}
use ospersonal.Inode.{inode_read_at, byte_to_sector, block_sector}
use ospersonal.Inode.Growth.Writes.{inode_write_at, byte_of, inode_write_at-past_end}
use ospersonal.Inode.Growth.Mapped.{allocate_one}
use ospersonal.FreeMap.{free_map_allocate, allocated}
use ospersonal.Bitmap.{
  bitmap_scan_and_flip, bitmap_scan, scan_loop, bitmap_contains, contains_loop, bitmap_test,
  bitmap_set_multiple, set_loop, bitmap_set, bitmap_mark, bitmap_reset,
}
use ospersonal.Inode.Growth.Grown.{Owned, Grown}
use ospersonal.Inode.Growth.Mapped.{Storage, free_map_sectors}

-- Sectors 0, 1, 2 and 10 of 40 are in use, and no write of the map fails.
abbrev four_used : Storage
four_used = record {
  state = record {
    free_map = record { bit_cnt = 40; bits = 1031 ∷ 0 ∷ [] };
    is_open = true;
    on_disk = record { bit_cnt = 40; bits = 1031 ∷ 0 ∷ [] };
  };
  written = λ n. true;
}

-- A file of one block, in sector 10. Sector 0 has the inode of the free map, which ends in INODE_MAGIC.
abbrev one_block : Growing free_map_sectors
unfolding free_map_sectors
one_block = record {
  map = four_used;
  disk = record { blocks = λ s. replicate 128 0x494e4f44; bytes = λ s. replicate 512 s };
  inode = record {
    length = 500;
    isdir = 0;
    direct_ptrs = 10 ∷ replicate 122 0;
    singly_indirect_ptr = 0;
    doubly_indirect_ptr = 0;
  };
}

first_block : (k : ℕ) → k * 512 < 500 → k ≡ 0
first_block k h = omega arith

one_block-Owned : Owned free_map_sectors one_block
unfolding one_block free_map_sectors bit
one_block-Owned = record {
  fine = record { valid = record { storage = refl; small = omega arith }; opened = refl };
  small = omega arith;
  slots = refl;
  whole = λ s. length-replicate 512 s;
  used = λ k h. rw (first_block k h) refl;
  distinct = λ k n h h' e. first_block k h ∙ sym (first_block n h');
}

-- The same file with 1003 bytes; the first free sector, 3, is its second block.
abbrev two_blocks : Growing free_map_sectors
unfolding free_map_sectors one_block
two_blocks = record one_block {
  map = record {
    state = record (four_used.state) {
      free_map = record { bit_cnt = 40; bits = 1039 ∷ 0 ∷ [] };
      on_disk = record { bit_cnt = 40; bits = 1039 ∷ 0 ∷ [] };
    };
    written = λ n. true;
  };
  inode = record (one_block.inode) { length = 1003; direct_ptrs = 10 ∷ 3 ∷ replicate 121 0 };
}

two_blocks-grown : extend_file free_map_sectors one_block 1003 ≡ some (true, two_blocks)
unfolding two_blocks one_block free_map_sectors extend_file allocate_file fill_direct new_sector
    grow_single grow_double byte_to_sector block_sector allocate_one free_map_allocate allocated
    bitmap_scan_and_flip bitmap_scan scan_loop bitmap_contains contains_loop bitmap_test
    bitmap_set_multiple set_loop bitmap_set bitmap_mark bitmap_reset
two_blocks-grown = refl

-- Three bytes at 1000, past the end of the file.
inode_write_at-past_end_example :
    (after : Growing free_map_sectors) × (inode_write_at free_map_sectors false one_block
        (7 ∷ 8 ∷ 9 ∷ [])
        1000
      ≡ some (3, after))
    × (after.inode.length ≡ 1003)
    × (inode_read_at after.disk after.inode 3 1000 ≡ some (some (7 ∷ 8 ∷ 9 ∷ [])))
    × ((pos : ℕ)
        → pos < 500
        → pos < 1000
        → byte_of free_map_sectors after pos ≡ byte_of free_map_sectors one_block pos)
unfolding one_block
inode_write_at-past_end_example =
    inode_write_at-past_end free_map_sectors one_block one_block-Owned (7 ∷ 8 ∷ 9 ∷ []) 1000
      two_blocks two_blocks-grown (omega arith) (omega arith)
