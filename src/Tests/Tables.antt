-- ===== src/Tests/Tables.antt =====
-- pintos/src/filesys/inode.c: an inode for sector 7 that is opened twice and closed.
use ospersonal.Common.{[], arith, if◌then◌else◌, refl, some, true, ℕ, ◌+◌, ◌==◌, ◌∷◌, ◌≡◌}
use ospersonal.Inode.Table.{
  OpenInode, open_search, open_insert, inode_open, inode_close, inode_get_inumber, Table,
  TableReach,
}
use ospersonal.Inode.Table.Openers.{
  openers, AllOpened, no_inode, and_inode, Opens, inode_open-Opens, inode_close-openers,
}
use ospersonal.Inode.Table.Sharing.{inodes_for, two_inodes}

abbrev seven : ℕ → OpenInode
seven n = record { address = 80; sector = 7; open_cnt = n; removed = true }

inode_open-Opens_example : Opens (seven 1 ∷ []) 7 80 (seven 2 ∷ [])
unfolding inode_open open_search
inode_open-Opens_example = inode_open-Opens (seven 1 ∷ []) 7 80 (some 90) (seven 2 ∷ []) refl

inode_close-openers_example :
    (openers [] 7 + (if 7 == 7 then 1 else 0) ≡ openers (seven 1 ∷ []) 7) × AllOpened []
unfolding inode_close inode_get_inumber
inode_close-openers_example =
    inode_close-openers (seven 1 ∷ []) 80 7 7 true []
      (and_inode (seven 1) [] (omega arith) no_inode) refl refl

abbrev once : Table
once = record { inodes = seven 1 ∷ []; between = []; opened = 7 ∷ [] }

abbrev twice : Table
twice = record { inodes = seven 2 ∷ []; between = []; opened = 7 ∷ 7 ∷ [] }

two_inodes_example :
    (y : Table) × TableReach once y
    × (inodes_for y.inodes 8 ≡ 2)
    × (y.inodes ≡ open_insert (open_insert (seven 1 ∷ []) 8 90) 8 100)
unfolding open_search
two_inodes_example = two_inodes once 8 90 100 refl
