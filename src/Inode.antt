-- ===== src/Inode.antt =====
-- pintos/src/filesys/inode.c: where the bytes of a file stand, and reading them. A sector is read through
-- the cache, as an indirect block of 128 words or as 512 bytes of data: a `Disk` gives both. `none` is
-- a read past the end of an array, or a sum that is past the greatest `off_t`. Positions and lengths are
-- not negative.
pub mod Sectors
pub mod Reading
pub mod Table
pub mod Writing
pub mod Growth
pub mod Turns
use ospersonal.Common.{
  ℕ, zero, suc, ◌+◌, ◌-◌, ◌/◌, ◌%◌, ◌^◌, ◌<◌, ◌≡◌, Bool, true, false, Option, none, some, List, [],
  ◌∷◌, ◌++◌, ltb, leb, ◌==◌, if◌then◌else◌, ◌>>=◌, min, get_elem?, length,
}
use ospersonal.Bufcache.{block_sector_size, read_part}

abbrev pub num_direct : ℕ
num_direct = 123

abbrev pub num_blocks_in_indirect : ℕ
num_blocks_in_indirect = 128

-- `struct inode_disk`.
pub record InodeDisk : Type 0 where
  pub length : ℕ
  pub isdir : ℕ
  pub direct_ptrs : List ℕ
  pub singly_indirect_ptr : ℕ
  pub doubly_indirect_ptr : ℕ

-- What `bufcache_read` gives for a sector, as words and as bytes.
pub record Disk : Type 0 where
  pub blocks : ℕ → List ℕ
  pub bytes : ℕ → List ℕ

unfoldable pub block_sector : Disk → InodeDisk → ℕ → Option ℕ
block_sector d inode block_num =
    if ltb block_num num_direct
    then get_elem? inode.direct_ptrs block_num
    else if ltb block_num (num_direct + num_blocks_in_indirect)
    then get_elem? (d.blocks inode.singly_indirect_ptr) (block_num - num_direct)
    else (let rest = block_num - (num_direct + num_blocks_in_indirect) in
        get_elem? (d.blocks inode.doubly_indirect_ptr) (rest / num_blocks_in_indirect) >>= λ p.
        get_elem? (d.blocks p) (rest % block_sector_size))

unfoldable pub byte_to_sector : Disk → InodeDisk → ℕ → Option ℕ
byte_to_sector d inode pos =
    if ltb pos inode.length
    then block_sector d inode (pos / block_sector_size)
    else some (2 ^ 32 - 1)

-- The number of bytes that one round of the loop copies.
abbrev pub chunk_size : InodeDisk → ℕ → ℕ → ℕ
chunk_size inode size offset =
    min size (min (inode.length - offset) (block_sector_size - offset % block_sector_size))

-- The loop of `inode_read_at`, with the rounds left first.
unfoldable pub read_loop : ℕ → Disk → InodeDisk → ℕ → ℕ → Option (List ℕ)
read_loop zero d inode size offset = some []
read_loop (suc n) d inode size offset =
    let chunk = chunk_size inode size offset in
    let rest = read_loop n d inode (size - chunk) (offset + chunk) in
    if size == 0
    then some []
    else (byte_to_sector d inode offset >>= λ sector_idx.
        if chunk == 0
        then some []
        else (rest >>= λ later.
            some (read_part (d.bytes sector_idx) (offset % block_sector_size) chunk ++ later)))

-- The bytes read; the inner `none` is the answer -1. A round copies a byte at least, so `size` rounds
-- are enough.
unfoldable pub inode_read_at : Disk → InodeDisk → ℕ → ℕ → Option (Option (List ℕ))
inode_read_at d inode size offset =
    if leb (2 ^ 31) (offset + size)
    then none
    else if ltb inode.length (offset + size)
    then some none
    else (read_loop size d inode size offset >>= λ out. some (some out))
