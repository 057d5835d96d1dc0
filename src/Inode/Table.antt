-- ===== src/Inode/Table.antt =====
-- pintos/src/filesys/inode.c: the list of open inodes. The list is of the `struct inode`s themselves, so
-- an element is one with its address. `open_inodes_lock` is given up between the search and the
-- insertion of `inode_open`, which are a step each (`TableStep`). inode_close takes no lock, and is
-- one step. `none` is a use of memory that was freed.
pub mod Openers
pub mod Sharing
use ospersonal.Common.{
  Bool, List, Option, [], false, if◌then◌else◌, none, some, true, ℕ, ◌++◌, ◌+◌, ◌-◌, ◌==◌, ◌>>=◌,
  ◌∷◌, ◌≡◌,
}

-- `struct inode` but for its lock, its data and who writes to it.
pub record OpenInode : Type 0 where
  pub address : ℕ
  pub sector : ℕ
  pub open_cnt : ℕ
  pub removed : Bool

abbrev pub inode_reopen : OpenInode → OpenInode
inode_reopen i = record i { open_cnt = i.open_cnt + 1 }

-- The search: the inode that is open for the sector, and the list with one more opener of it.
unfoldable pub open_search : List OpenInode → ℕ → Option (ℕ × List OpenInode)
open_search [] sector = none
open_search (i ∷ is) sector =
    let rest = open_search is sector in
    if i.sector == sector
    then some (i.address, inode_reopen i ∷ is)
    else (rest >>= λ r. some (r.0, i ∷ r.1))

abbrev pub open_insert : List OpenInode → ℕ → ℕ → List OpenInode
open_insert is sector fresh =
    record { address = fresh; sector = sector; open_cnt = 1; removed = false } ∷ is

-- A call that no other thread comes between. `fresh` is what `malloc` answers; the answer `none` is NULL.
unfoldable pub inode_open : List OpenInode → ℕ → Option ℕ → Option ℕ × List OpenInode
inode_open is sector fresh = elim (open_search is sector) [
  | some r ↦ (some r.0, r.1)
  | none ↦ elim fresh [ some a ↦ (some a, open_insert is sector a) | none ↦ (none, is) ]
]

-- Closes the inode at the address; the answer is whether its blocks are to be freed.
unfoldable pub inode_close : List OpenInode → ℕ → Option (Bool × List OpenInode)
inode_close [] a = none
inode_close (i ∷ is) a =
    let rest = inode_close is a in
    if i.address == a
    then (if i.open_cnt - 1 == 0
        then some (i.removed, is)
        else some (false, record i { open_cnt = i.open_cnt - 1 } ∷ is))
    else (rest >>= λ r. some (r.0, i ∷ r.1))

unfoldable pub inode_remove : List OpenInode → ℕ → Option (List OpenInode)
inode_remove [] a = none
inode_remove (i ∷ is) a =
    let rest = inode_remove is a in
    if i.address == a then some (record i { removed = true } ∷ is) else (rest >>= λ r. some (i ∷ r))

-- `inode_get_inumber`.
unfoldable pub inode_get_inumber : List OpenInode → ℕ → Option ℕ
inode_get_inumber [] a = none
inode_get_inumber (i ∷ is) a =
    let rest = inode_get_inumber is a in if i.address == a then some i.sector else rest

-- The list, the sectors of the calls of `inode_open` that are between the search and the insertion, and
-- the sectors that were opened and not closed, one entry for each opener.
pub record Table : Type 0 where
  pub inodes : List OpenInode
  pub between : List ℕ
  pub opened : List ℕ

-- A step of some thread: `inode_open` up to its answer or to where it gives up the lock, the rest of it
-- (none where `malloc` fails), and `inode_close`. The fields that `inode_open` sets after the insertion
-- are of one step with it, and `inode_close`, which takes no lock for them, is a step whole.
pub data TableStep (x : Table) : Table → Type 0 where
  finds :
      (sector a : ℕ) (is : List OpenInode)
      → open_search x.inodes sector ≡ some (a, is)
      → TableStep x (record x { inodes = is; opened = sector ∷ x.opened })
  misses :
      (sector : ℕ)
      → open_search x.inodes sector ≡ none
      → TableStep x (record x { between = sector ∷ x.between })
  inserts :
      (us vs : List ℕ) (sector fresh : ℕ)
      → x.between ≡ us ++ sector ∷ vs
      → TableStep x (record {
        inodes = open_insert x.inodes sector fresh;
        between = us ++ vs;
        opened = sector ∷ x.opened;
      })
  gives_up :
      (us vs : List ℕ) (sector : ℕ)
      → x.between ≡ us ++ sector ∷ vs
      → TableStep x (record x { between = us ++ vs })
  closes :
      (us vs : List ℕ) (sector a : ℕ) (d : Bool) (is : List OpenInode)
      → x.opened ≡ us ++ sector ∷ vs
      → inode_get_inumber x.inodes a ≡ some sector
      → inode_close x.inodes a ≡ some (d, is)
      → TableStep x (record x { inodes = is; opened = us ++ vs })

pub data TableReach (x : Table) : Table → Type 0 where
  at_first : TableReach x x
  and_then : (y z : Table) → TableReach x y → TableStep y z → TableReach x z
