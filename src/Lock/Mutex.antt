-- ===== src/Lock/Mutex.antt =====
-- pintos/src/threads/synch.c: runs of a lock from `lock_init` on.
use ospersonal.Common.{ℕ, ◌≡◌, ◌≢◌, Bool, some, [], arith}
use ospersonal.Thread.{Kernel}
use ospersonal.Synch.{sema_init, sema_try_down}
use ospersonal.System.{System, Step, down}
use ospersonal.System.Invariant.{IsOk}
use ospersonal.System.Safety.{Step-IsOk}
use ospersonal.System.Semaphores.{sema_init-IsOk, sema_try_down-IsOk}
use ospersonal.Lock.{
  Locked, inside, lock_init, LockStep, acquires, resumes, tries, enters, releases, leaves, others,
  lock_acquire_end, lock_try_acquire_begin,
}
use ospersonal.Lock.Exclusion.{
  IsExclusive, LockStep-IsExclusive, lock_acquire_round, release_result,
}

pub data LockReach (lock : ℕ) (x : Locked) : Locked → Type 0 where
  here : LockReach lock x x
  next : {y z : Locked} → LockReach lock x y → LockStep lock y z → LockReach lock x z

try_kernel :
    (x : Locked) (lock : ℕ) {k : Kernel} {done : Bool}
    → lock_try_acquire_begin x lock ≡ some (done, k)
    → k ≡ (sema_try_down x.kernel lock).1
unfolding lock_try_acquire_begin
try_kernel x lock e = ground arith

-- The lock's own steps are steps of the machine, or leave it as it is.
LockStep-IsOk : (lock : ℕ) {x y : Locked} → LockStep lock x y → IsOk x.system → IsOk y.system
unfolding lock_acquire_end lock_try_acquire_begin
LockStep-IsOk lock {x} (acquires r n o e) v =
    Step-IsOk (Step.downs lock r n (lock_acquire_round x lock e)) v
LockStep-IsOk lock {x} (resumes p e) v = Step-IsOk (Step.resumes lock p e) v
LockStep-IsOk lock {x} (tries r o e) v =
    rw (try_kernel x lock e) (sema_try_down-IsOk x.system v lock)
LockStep-IsOk lock {x} (enters r h) v = v
LockStep-IsOk lock {x} (releases r e) v = rw ((release_result x e).1) v
LockStep-IsOk lock {x} (leaves r h e) v = Step-IsOk (Step.ups lock r e) v
LockStep-IsOk lock {x} (others st e p) v = Step-IsOk st v

record IsSafe (lock : ℕ) (x : Locked) : Type 0 where
  ok : IsOk x.system
  exclusive : IsExclusive lock x

LockReach-IsSafe : (lock : ℕ) {x y : Locked} → LockReach lock x y → IsSafe lock x → IsSafe lock y
LockReach-IsSafe lock here s = s
LockReach-IsSafe lock (next r st) s =
    let t = LockReach-IsSafe lock r s in
    record {
      ok = LockStep-IsOk lock st t.ok;
      exclusive = LockStep-IsExclusive lock t.ok st t.exclusive;
    }

lock_init-IsOk :
    (x : System) (lock : ℕ) → IsOk x → (x.semas lock).waiters ≡ [] → IsOk (lock_init x lock).system
unfolding lock_init
lock_init-IsOk x lock v e = sema_init-IsOk x lock 1 v e

lock_init-IsExclusive :
    (x : System) (lock : ℕ) → ((t : ℕ) → x.pc t ≢ down lock) → IsExclusive lock (lock_init x lock)
unfolding lock_init sema_init
lock_init-IsExclusive x lock free = record {
  one_owner = λ t u. ground arith;
  owned_zero = λ t. ground arith;
  at_most_one = ground arith;
  holder_inside = λ t. ground arith;
  inside_holder = λ t. ground arith;
  asleep_outside = λ t d. absurd (free t d);
}

-- A lock that is initialised in a state with the invariant on the lists, while nobody waits at its
-- address, is held by one thread at a time under every schedule: two threads between the return of
-- `lock_acquire` and the start of `lock_release` are the same thread, and it is the one that `holder`
-- names.
pub mutual_exclusion :
    (x : System) (lock : ℕ) {y : Locked} (t u : ℕ)
    → IsOk x
    → (x.semas lock).waiters ≡ []
    → ((s : ℕ) → x.pc s ≢ down lock)
    → LockReach lock (lock_init x lock) y
    → y.phase t ≡ inside
    → y.phase u ≡ inside
    → (t ≡ u) × (y.holder ≡ some t)
mutual_exclusion x lock {y} t u v empty free reach ht hu =
    let s = LockReach-IsSafe lock reach (record {
      ok = lock_init-IsOk x lock v empty;
      exclusive = lock_init-IsExclusive x lock free;
    }) in
    (s.exclusive.one_owner t u (ground arith) (ground arith), s.exclusive.inside_holder t ht)
