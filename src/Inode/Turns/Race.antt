-- ===== src/Inode/Turns/Race.antt =====
-- pintos/src/filesys/inode.c: a denial that comes between the halves of inode_allow_write.
use ospersonal.Common.{arith, leb, le→leb, none, refl, some, true, ◌≡◌, ◌≤◌}
use ospersonal.Inode.Turns.{
  ℤ, pos, Turns, goes_on, write_begin, inode_deny_write, allow_load, allow_store, inode_allow_write,
}

-- Where one opener of several denies writes and starts to allow them, and another denies them between
-- the two halves of that call: the second denial is lost. A writer is let in while it is in force, and
-- the call that ends it fails an ASSERT.
pub denial_lost :
    (t : Turns)
    → t.deny_write_cnt ≡ pos 1
    → 2 ≤ t.open_cnt
    → (cnt : ℤ) × (u : Turns) × (allow_load t ≡ some cnt)
      × (inode_deny_write t ≡ some (goes_on, u))
      × ((write_begin (allow_store u cnt)).0 ≡ goes_on)
      × (inode_allow_write (allow_store u cnt) ≡ none)
unfolding allow_load allow_store inode_allow_write inode_deny_write write_begin
denial_lost t one openers =
    let first : leb 1 t.open_cnt ≡ true = le→leb _ _ (omega arith) in
    let second : leb 2 t.open_cnt ≡ true = le→leb _ _ openers in
    (
      pos 1,
      record t { deny_write_cnt = pos 2 },
      rw (one, first) refl,
      rw (one, second) refl,
      refl,
      refl,
    )
