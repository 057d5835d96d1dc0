-- ===== src/Inode/Turns/Places.antt =====
-- pintos/src/filesys/inode.c: the threads at one open inode, and the steps that they take.
use ospersonal.Common.{Bool, false, if◌then◌else◌, length, some, suc, true, ℕ, ◌+◌, ◌<◌, ◌≡◌, ◌≤◌}
use ospersonal.Inode.Turns.{
  pos, is_negative, Turns, waits, answers, goes_on, read_round, write_begin, write_round,
  growth_end, write_end, inode_deny_write, inode_allow_write,
}
use ospersonal.Inode.Turns.Balance.{Balance}

-- How many writers are at which place of inode_write_at: about to test `extending`, in allocate_file,
-- and in the loop; and how many openers have denied writes and not allowed them again.
pub record Places : Type 0 where
  pub turns : Turns
  pub entered : ℕ
  pub growing : ℕ
  pub writing : ℕ
  pub denials : ℕ

abbrev pub writers : Places → ℕ
writers x = x.entered + x.turns.until_not_extending_writers + x.growing + x.writing

-- A step of some thread. An opener denies writes once, allows them only after that, and closes the inode
-- when it denies no more. A call of inode_allow_write is one step: no other comes between its halves.
pub data TurnStep (x : Places) : Places → Type 0 where
  read_step :
      (woken : Bool) (end : ℕ) → TurnStep x (record x { turns = (read_round x.turns woken end).1 })
  write_enters :
      (write_begin x.turns).0 ≡ goes_on
      → TurnStep x (record x { turns = (write_begin x.turns).1; entered = suc x.entered })
  write_sleeps :
      (n end : ℕ)
      → x.entered ≡ suc n
      → (write_round x.turns end).0 ≡ waits
      → TurnStep x (record x { turns = (write_round x.turns end).1; entered = n })
  write_grows :
      (n end : ℕ)
      → x.entered ≡ suc n
      → (write_round x.turns end).0 ≡ answers
      → TurnStep x
          (record x { turns = (write_round x.turns end).1; entered = n; growing = suc x.growing })
  write_goes :
      (n end : ℕ)
      → x.entered ≡ suc n
      → (write_round x.turns end).0 ≡ goes_on
      → TurnStep x
          (record x { turns = (write_round x.turns end).1; entered = n; writing = suc x.writing })
  growth_ends :
      (n : ℕ) (ok : Bool) (end : ℕ)
      → x.growing ≡ suc n
      → TurnStep x (record x {
        turns = growth_end x.turns ok end;
        entered = x.entered + (if ok then x.turns.until_not_extending_writers else 0);
        growing = n;
        writing = suc x.writing;
      })
  write_leaves :
      (n : ℕ) → x.writing ≡ suc n → TurnStep x (record x { turns = write_end x.turns; writing = n })
  deny_sleeps :
      (t : Turns) → inode_deny_write x.turns ≡ some (waits, t) → TurnStep x (record x { turns = t })
  denies :
      (t : Turns)
      → x.denials < x.turns.open_cnt
      → inode_deny_write x.turns ≡ some (goes_on, t)
      → TurnStep x (record x { turns = t; denials = suc x.denials })
  opens : TurnStep x (record x { turns = record (x.turns) { open_cnt = suc x.turns.open_cnt } })
  closes :
      (n : ℕ)
      → x.turns.open_cnt ≡ suc n
      → x.denials ≤ n
      → TurnStep x (record x { turns = record (x.turns) { open_cnt = n } })
  allows :
      (n : ℕ) (t : Turns)
      → x.denials ≡ suc n
      → inode_allow_write x.turns ≡ some t
      → TurnStep x (record x { turns = t; denials = n })

pub data TurnReach (x : Places) : Places → Type 0 where
  at_start : TurnReach x x
  step_on : (y z : Places) → TurnReach x y → TurnStep y z → TurnReach x z

-- Nobody at the inode, which has just been opened once.
abbrev pub no_turns : ℕ → ℕ → Places
no_turns length open_cnt = record {
  turns = record {
    length = length;
    open_cnt = open_cnt;
    deny_write_cnt = pos 0;
    extending = false;
    until_not_extending_readers = 0;
    until_not_extending_writers = 0;
    until_no_writers_readers = 0;
    until_no_writers_deniers = 0;
  };
  entered = 0;
  growing = 0;
  writing = 0;
  denials = 0;
}

-- What holds between the steps.
pub record InTurn (x : Places) : Type 0 where
  pub balance : Balance x.turns.deny_write_cnt (writers x) x.denials
  pub openers : x.denials ≤ x.turns.open_cnt
  pub one_grows : x.growing ≤ 1
  pub growth : 0 < x.growing → x.turns.extending ≡ true
  pub sleep_growth :
      x.turns.extending ≡ false
      → x.turns.until_not_extending_readers + x.turns.until_not_extending_writers ≡ 0
  pub sleep_writers :
      is_negative x.turns.deny_write_cnt ≡ false
      → x.turns.until_no_writers_readers + x.turns.until_no_writers_deniers ≡ 0
