-- ===== src/Inode/Writing.antt =====
-- pintos/src/filesys/inode.c: inode_write_at within the length of the file. A write is of the bytes
-- of `buffer`, all of them. The growth of a file comes before the loop and is not part of it.
pub mod Sound
pub mod Written
use ospersonal.Common.{
  Bool, List, Option, [], drop, if◌then◌else◌, length, none, some, suc, take, zero, ℕ, ◌%◌, ◌*◌,
  ◌+◌, ◌/◌, ◌==◌, ◌∷◌,
}
use ospersonal.Bufcache.{write_part}
use ospersonal.Inode.{InodeDisk, Disk, byte_to_sector, chunk_size}

-- The 32-bit words of a sector, the lowest byte of each first.
abbrev pub words : List ℕ → List ℕ
words (a ∷ b ∷ c ∷ e ∷ rest) = (a + 256 * b + 65536 * c + 16777216 * e) ∷ words rest
words _ = []

abbrev pub with_sector : Disk → ℕ → List ℕ → Disk
with_sector d s new = record {
  blocks = λ t. if t == s then words new else d.blocks t;
  bytes = λ t. if t == s then new else d.bytes t;
}

-- `bufcache_write`.
abbrev pub write_sector : Disk → ℕ → ℕ → List ℕ → Disk
write_sector d s ofs buf = with_sector d s (write_part (d.bytes s) ofs buf)

-- The loop of `inode_write_at`, with the rounds left first: the disk, and the bytes written.
unfoldable pub write_loop : ℕ → Disk → InodeDisk → List ℕ → ℕ → ℕ → Option (Disk × ℕ)
write_loop zero d inode buffer offset written = some (d, written)
write_loop (suc n) d inode buffer offset written =
    if length buffer == 0 then some (d, written) else elim (byte_to_sector d inode offset) [
      | none ↦ none
      | some sector_idx ↦
          let chunk = chunk_size inode (length buffer) offset in
          if chunk == 0
          then some (d, written)
          else write_loop n (write_sector d sector_idx (offset % 512) (take chunk buffer)) inode
              (drop chunk buffer) (offset + chunk) (written + chunk)
    ]

-- `deny` is whether writes are denied; a range past the file's end is not for this function. A round
-- writes a byte at least.
unfoldable pub inode_write_within : Bool → Disk → InodeDisk → List ℕ → ℕ → Option (Disk × ℕ)
inode_write_within deny d inode buffer offset =
    if deny then some (d, 0) else write_loop (length buffer) d inode buffer offset 0

-- The bytes of a sector's words.
abbrev pub word_bytes : List ℕ → List ℕ
word_bytes [] = []
word_bytes (w ∷ ws) = w % 256 ∷ w / 256 % 256 ∷ w / 65536 % 256 ∷ w / 16777216 % 256 ∷ word_bytes ws

-- `bufcache_write` of a whole indirect block.
abbrev pub with_words : Disk → ℕ → List ℕ → Disk
with_words d s new = record {
  blocks = λ t. if t == s then new else d.blocks t;
  bytes = λ t. if t == s then word_bytes new else d.bytes t;
}
