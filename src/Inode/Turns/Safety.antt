-- ===== src/Inode/Turns/Safety.antt =====
-- pintos/src/filesys/inode.c: inode_deny_write and inode_allow_write against the writers of an inode.
use ospersonal.Common.{false, if◌then◌else◌, some, ◌+◌, ◌<◌, ◌==◌, ◌≡◌, ◌≤◌, ◌⊎◌}
use ospersonal.Inode.Turns.{
  Turns, waits, answers, goes_on, write_begin, inode_deny_write, inode_allow_write,
}
use ospersonal.Inode.Turns.Places.{Places, writers}

-- What each call may rely on, and what the sleepers may.
pub record Orderly (x : Places) : Type 0 where
  pub exclusive : (writers x ≡ 0) ⊎ (x.denials ≡ 0)
  pub one_grows : x.growing ≤ 1
  pub enters : (write_begin x.turns).0 ≡ (if x.denials == 0 then goes_on else answers)
  pub denies_once :
      x.denials < x.turns.open_cnt
      → (t : Turns) × (inode_deny_write x.turns
          ≡ some (if writers x == 0 then goes_on else waits, t))
  pub allows_once : 0 < x.denials → (t : Turns) × (inode_allow_write x.turns ≡ some t)
  pub woken_by_writers :
      writers x ≡ 0 → x.turns.until_no_writers_readers + x.turns.until_no_writers_deniers ≡ 0
  pub woken_by_growth :
      x.turns.extending ≡ false
      → x.turns.until_not_extending_readers + x.turns.until_not_extending_writers ≡ 0
