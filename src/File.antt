-- ===== src/File.antt =====
-- pintos/src/filesys/file.c: an open file and its position, which is the 32-bit pattern of an `off_t`.
-- The inode and the disk that it is read from are arguments; `none` is a failed ASSERT, or a read
-- outside of an array.
pub mod Position
use ospersonal.Common.{
  ℕ, ◌+◌, ◌-◌, ◌%◌, ◌^◌, ◌≡◌, Bool, true, false, not, Option, none, some, List, [], leb, ltb, ◌==◌,
  if◌then◌else◌, ◌>>=◌, ◌>>◌, assert, length,
}
use ospersonal.Inode.{Disk, InodeDisk, inode_read_at}

-- `struct file` but for its inode.
pub record File : Type 0 where
  pub pos : ℕ
  pub deny_write : Bool

-- `memory` is whether `calloc` succeeds, `has_inode` whether `inode` is not NULL; `none` is NULL.
abbrev pub file_open : Bool → Bool → Option File
file_open has_inode memory =
    if has_inode
    then (if memory then some (record { pos = 0; deny_write = false }) else none)
    else none

abbrev pub is_before_start : ℕ → Bool
is_before_start pos = leb (2 ^ 31) pos

-- `inode_read_at` at a negative offset: a round of its loop would take the bytes from before a
-- sector's, or the sector from before the pointers.
unfoldable pub read_before_start : InodeDisk → ℕ → ℕ → Option (Option (List ℕ))
read_before_start inode size pos =
    if ltb (inode.length + (2 ^ 32 - pos)) size
    then some none
    else if size == 0
    then some (some [])
    else none

unfoldable pub file_read_at : Disk → InodeDisk → ℕ → ℕ → Option (Option (List ℕ))
file_read_at d inode size file_ofs =
    if is_before_start file_ofs
    then read_before_start inode size file_ofs
    else inode_read_at d inode size file_ofs

-- The position after a read, which -1 moves too.
abbrev pub advance : File → Option (List ℕ) → File
advance f none = record f { pos = (f.pos + (2 ^ 32 - 1)) % 2 ^ 32 }
advance f (some bytes) = record f { pos = (f.pos + length bytes) % 2 ^ 32 }

unfoldable pub file_read : Disk → InodeDisk → File → ℕ → Option (Option (List ℕ) × File)
file_read d inode f size = file_read_at d inode size f.pos >>= λ r. some (r, advance f r)

unfoldable pub file_seek : File → ℕ → Option File
file_seek f new_pos = assert (not (is_before_start new_pos)) >> some (record f { pos = new_pos })

abbrev pub file_tell : File → ℕ
file_tell f = f.pos

abbrev pub file_length : InodeDisk → ℕ
file_length inode = inode.length
