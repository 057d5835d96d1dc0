-- ===== src/Directory.antt =====
-- pintos/src/filesys/directory.c: a directory's file as its entries, each of `sizeof (struct dir_entry)`
-- bytes. A name is its bytes before the NUL. Arguments are whether the write of an entry succeeds
-- (`writes`, false where writes to the directory are denied), whether one past the last entry can extend
-- the file (`grows`), and whether an inode can be opened (`opens`).
pub mod Filling
pub mod Names
pub mod Adding
pub mod Calls
use ospersonal.Common.{
  Bool, List, Option, [], drop, false, get_elem?, if◌then◌else◌, length, ltb, none, set, some, suc,
  take, true, ℕ, ◌&&◌, ◌++◌, ◌==◌, ◌||◌, ◌∷◌,
}
use ospersonal.Strings.{strcmp, is_equal, strlen}

pub record DirEntry : Type 0 where
  pub inode_sector : ℕ
  pub name : List ℕ
  pub in_use : Bool

abbrev pub name_max : ℕ
name_max = 14

-- `inode_read_at` of the entry at an index, which gives all of it exactly below the end of the file.
abbrev pub read_entry : List DirEntry → ℕ → Option DirEntry
read_entry slots i = get_elem? slots i

-- The entry with its index, which stands for its offset. The first argument is the index of the first
-- of the entries that are given.
unfoldable pub lookup_from : ℕ → List DirEntry → List ℕ → Option (DirEntry × ℕ)
lookup_from i [] name = none
lookup_from i (e ∷ slots) name =
    let rest = lookup_from (suc i) slots name in
    if e.in_use && is_equal (strcmp name e.name) then some (e, i) else rest

abbrev pub lookup : List DirEntry → List ℕ → Option (DirEntry × ℕ)
lookup slots name = lookup_from 0 slots name

-- The sector that `dir_lookup` opens.
abbrev pub sector_found : Option (DirEntry × ℕ) → Option ℕ
sector_found none = none
sector_found (some (e, i)) = some e.inode_sector

abbrev pub dir_lookup : List DirEntry → List ℕ → Option ℕ
dir_lookup slots name = sector_found (lookup slots name)

-- The index of the first entry that is free, or of the end of the file.
unfoldable pub free_entry : List DirEntry → ℕ
free_entry [] = 0
free_entry (e ∷ slots) = let rest = free_entry slots in if e.in_use then suc rest else 0

unfoldable pub write_entry : Bool → List DirEntry → ℕ → DirEntry → Bool × List DirEntry
write_entry grows slots i e =
    if ltb i (length slots)
    then (true, set slots i e)
    else if grows
    then (true, slots ++ e ∷ [])
    else (false, slots)

abbrev pub is_found : Option (DirEntry × ℕ) → Bool
is_found none = false
is_found (some r) = true

unfoldable pub dir_add : Bool → Bool → List DirEntry → List ℕ → ℕ → Bool × List DirEntry
dir_add writes grows slots name inode_sector =
    if strlen name == 0 || ltb name_max (strlen name)
    then (false, slots)
    else if is_found (lookup slots name)
    then (false, slots)
    else if writes
    then write_entry grows slots (free_entry slots)
        (record { inode_sector = inode_sector; name = take name_max name; in_use = true })
    else (false, slots)

-- The answer, the entries, and the sector of the inode that is marked as removed.
abbrev pub remove_found :
    Bool → Bool → List DirEntry → Option (DirEntry × ℕ) → Bool × List DirEntry × Option ℕ
remove_found opens writes slots none = (false, slots, none)
remove_found opens writes slots (some (e, i)) =
    if opens && writes
    then (true, set slots i (record e { in_use = false }), some e.inode_sector)
    else (false, slots, none)

unfoldable pub dir_remove : Bool → Bool → List DirEntry → List ℕ → Bool × List DirEntry × Option ℕ
dir_remove opens writes slots name = remove_found opens writes slots (lookup slots name)

-- The next name from position `pos` on, and the position after it. The first argument counts the
-- entries from there on.
unfoldable pub readdir_loop : List DirEntry → ℕ → Option (List ℕ) × ℕ
readdir_loop [] pos = (none, pos)
readdir_loop (e ∷ slots) pos =
    let rest = readdir_loop slots (suc pos) in
    if e.in_use then (some (take name_max e.name), suc pos) else rest

unfoldable pub dir_readdir : List DirEntry → ℕ → Option (List ℕ) × ℕ
dir_readdir slots pos = readdir_loop (drop pos slots) pos
