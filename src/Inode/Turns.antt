-- ===== src/Inode/Turns.antt =====
-- pintos/src/filesys/inode.c: the turns of readers, writers, and those who deny writes to an open inode:
-- inode_deny_write, inode_allow_write, and what inode_read_at, inode_write_at and allocate_file do with
-- `deny_write_cnt` and `extending`. A stretch under `inode_lock` is one function, a round of a loop that
-- waits up to its next `cond_wait`; inode_allow_write takes no lock and is in two halves. A
-- waiter that was woken is one that comes again. Lengths are not negative and sums below 2^31.
pub mod Balance
pub mod Places
pub mod Rounds
pub mod Order
pub mod Safety
pub mod Stuck
pub mod Race
use ospersonal.Common.{
  Bool, Option, assert, false, if◌then◌else◌, leb, ltb, not, some, suc, true, zero, ℕ, ◌&&◌, ◌==◌,
  ◌>>=◌, ◌>>◌,
}

-- An `int`, which stays far from its bounds: it counts threads.
pub data ℤ : Type 0 where
  pos : ℕ → ℤ
  negsuc : ℕ → ℤ

abbrev pub increment : ℤ → ℤ
increment (pos n) = pos (suc n)
increment (negsuc zero) = pos 0
increment (negsuc (suc n)) = negsuc n

abbrev pub decrement : ℤ → ℤ
decrement (pos zero) = negsuc 0
decrement (pos (suc n)) = pos n
decrement (negsuc n) = negsuc (suc n)

abbrev pub is_negative : ℤ → Bool
is_negative (pos n) = false
is_negative (negsuc n) = true

abbrev pub is_positive : ℤ → Bool
is_positive (pos n) = ltb 0 n
is_positive (negsuc n) = false

abbrev pub is_zero : ℤ → Bool
is_zero (pos n) = n == 0
is_zero (negsuc n) = false

abbrev pub at_most : ℤ → ℕ → Bool
at_most (pos n) m = leb n m
at_most (negsuc n) m = true

-- The members of `struct inode` that this is about; of each condition variable, how many threads sleep
-- on it, by what they are at.
pub record Turns : Type 0 where
  pub length : ℕ
  pub open_cnt : ℕ
  pub deny_write_cnt : ℤ
  pub extending : Bool
  pub until_not_extending_readers : ℕ
  pub until_not_extending_writers : ℕ
  pub until_no_writers_readers : ℕ
  pub until_no_writers_deniers : ℕ

-- How a stretch ends: in a `cond_wait`, with an answer to the caller, or past the lock.
pub data Turn : Type 0 where
  waits answers goes_on : Turn

-- A reader of the bytes before `end`, at the test of its loop or, `woken`, after its first `cond_wait`.
unfoldable pub read_round : Turns → Bool → ℕ → Turn × Turns
read_round t woken end =
    let for_growth = record t { until_not_extending_readers = suc t.until_not_extending_readers } in
    if t.extending && not woken
    then (waits, for_growth)
    else if is_negative t.deny_write_cnt
    then (waits, record t { until_no_writers_readers = suc t.until_no_writers_readers })
    else if t.extending
    then (waits, for_growth)
    else if ltb t.length end
    then (answers, t)
    else (goes_on, t)

-- The first stretch of a writer, which answers 0 where writes are denied.
unfoldable pub write_begin : Turns → Turn × Turns
write_begin t =
    if is_positive t.deny_write_cnt
    then (answers, t)
    else (goes_on, record t { deny_write_cnt = decrement t.deny_write_cnt })

-- The second, where `answers` is the call of allocate_file, up to its release of the lock.
unfoldable pub write_round : Turns → ℕ → Turn × Turns
write_round t end =
    if t.extending
    then (waits, record t { until_not_extending_writers = suc t.until_not_extending_writers })
    else if ltb t.length end
    then (answers, record t { extending = true })
    else (goes_on, t)

-- The end of allocate_file; where it fails it returns before its last stretch.
unfoldable pub growth_end : Turns → Bool → ℕ → Turns
growth_end t true end = record t {
  length = end;
  extending = false;
  until_not_extending_readers = 0;
  until_not_extending_writers = 0;
}
growth_end t false end = t

-- The last stretch of a writer.
unfoldable pub write_end : Turns → Turns
write_end t =
    let cnt = increment t.deny_write_cnt in
    if is_zero cnt
    then record t {
      deny_write_cnt = cnt;
      until_no_writers_readers = 0;
      until_no_writers_deniers = 0;
    }
    else record t { deny_write_cnt = cnt }

unfoldable pub inode_deny_write : Turns → Option (Turn × Turns)
inode_deny_write t =
    if is_negative t.deny_write_cnt
    then some (waits, record t { until_no_writers_deniers = suc t.until_no_writers_deniers })
    else (let t' = record t { deny_write_cnt = increment t.deny_write_cnt } in
        assert (at_most t'.deny_write_cnt t'.open_cnt) >> some (goes_on, t'))

-- The two halves of inode_allow_write, which holds no lock: its ASSERTs and the read of the count, and
-- the write of one less than was read.
unfoldable pub allow_load : Turns → Option ℤ
allow_load t =
    assert (is_positive t.deny_write_cnt)
    >> (assert (at_most t.deny_write_cnt t.open_cnt) >> some t.deny_write_cnt)

unfoldable pub allow_store : Turns → ℤ → Turns
allow_store t cnt = record t { deny_write_cnt = decrement cnt }

-- A call that no other thread comes between.
unfoldable pub inode_allow_write : Turns → Option Turns
inode_allow_write t = allow_load t >>= λ cnt. some (allow_store t cnt)
