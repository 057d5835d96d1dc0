-- ===== src/Lock.antt =====
-- pintos/src/threads/synch.c: locks. A lock is a semaphore with initial value 1 and a holder. Both
-- `lock_acquire` and `lock_release` can be preempted between their two parts, so each part is a
-- step, and `Phase` says where a thread is between them.
pub mod Exclusion
pub mod Mutex
use ospersonal.Common.{
  ℕ, ◌≡◌, ◌≢◌, ◌↔◌, Bool, true, false, Option, none, some, ◌==◌, if◌then◌else◌, ◌>>=◌, ◌>>◌, assert,
  not,
}
use ospersonal.Thread.{Kernel, update}
use ospersonal.Synch.{sema_init, sema_down_round, sema_try_down, sema_up}
use ospersonal.System.{System, Pc, run, down, Step, after_round}

-- Where a thread stands with the lock: `entering` has the semaphore's unit and has not written
-- `holder`; `leaving` has cleared `holder` and not yet called `sema_up`.
pub data Phase : Type 0 where
  outside acquiring entering inside leaving : Phase

abbrev pub owns : Phase → Bool
owns outside = false
owns acquiring = false
owns entering = true
owns inside = true
owns leaving = true

-- One lock, at the address `lock` of its semaphore.
pub record Locked : Type 0 where
  pub system : System
  pub open system use *
  pub holder : Option ℕ
  pub phase : ℕ → Phase

abbrev pub held_by : Option ℕ → ℕ → Bool
held_by none t = false
held_by (some u) t = u == t

unfoldable pub lock_held_by_current_thread : Locked → Bool
lock_held_by_current_thread x = held_by x.holder x.current

-- `lock_init`: no holder, and the semaphore with value 1.
unfoldable pub lock_init : System → ℕ → Locked
lock_init x lock = record {
  system = record x { kernel = sema_init x.kernel lock 1 };
  holder = none;
  phase = λ t. outside;
}

abbrev pub phase_after : Bool → Phase
phase_after true = entering
phase_after false = acquiring

-- The semaphore's part of `lock_acquire`: its ASSERT, and the first round of `sema_down`.
unfoldable pub lock_acquire_begin : Locked → ℕ → Option (Bool × Kernel)
lock_acquire_begin x lock = do
  assert (not (lock_held_by_current_thread x))
  sema_down_round x.kernel lock

-- `lock->holder = thread_current ()`.
unfoldable pub lock_acquire_end : Locked → Locked
lock_acquire_end x = record x { holder = some x.current; phase = update x.phase x.current inside }

unfoldable pub lock_try_acquire_begin : Locked → ℕ → Option (Bool × Kernel)
lock_try_acquire_begin x lock = do
  assert (not (lock_held_by_current_thread x))
  some (sema_try_down x.kernel lock)

abbrev pub phase_after_try : Bool → Phase
phase_after_try true = entering
phase_after_try false = outside

-- The first part of `lock_release`: its ASSERT, and `lock->holder = NULL`.
unfoldable pub lock_release_begin : Locked → Option Locked
lock_release_begin x = do
  assert (lock_held_by_current_thread x)
  some (record x { holder = none; phase = update x.phase x.current leaving })

-- A step of the machine, seen by one lock. Only the lock's own operations touch its semaphore.
pub data LockStep (lock : ℕ) (x : Locked) : Locked → Type 0 where
  acquires :
      {k : Kernel} {done : Bool}
      → x.pc x.current ≡ run
      → x.current ≢ x.idle_thread
      → x.phase x.current ≡ outside
      → lock_acquire_begin x lock ≡ some (done, k)
      → LockStep lock x (record {
        system = record { kernel = k; pc = update x.pc x.current (after_round done (down lock)) };
        holder = x.holder;
        phase = update x.phase x.current (phase_after done);
      })
  resumes :
      {k : Kernel} {done : Bool}
      → x.pc x.current ≡ down lock
      → sema_down_round x.kernel lock ≡ some (done, k)
      → LockStep lock x (record {
        system = record { kernel = k; pc = update x.pc x.current (after_round done (down lock)) };
        holder = x.holder;
        phase = update x.phase x.current (phase_after done);
      })
  tries :
      {k : Kernel} {done : Bool}
      → x.pc x.current ≡ run
      → x.phase x.current ≡ outside
      → lock_try_acquire_begin x lock ≡ some (done, k)
      → LockStep lock x (record {
        system = record { kernel = k; pc = x.pc };
        holder = x.holder;
        phase = update x.phase x.current (phase_after_try done);
      })
  enters :
      x.pc x.current ≡ run → x.phase x.current ≡ entering → LockStep lock x (lock_acquire_end x)
  releases : {y : Locked} → x.pc x.current ≡ run → lock_release_begin x ≡ some y → LockStep lock x y
  leaves :
      {k : Kernel}
      → x.pc x.current ≡ run
      → x.phase x.current ≡ leaving
      → sema_up x.kernel lock ≡ some k
      → LockStep lock x (record {
        system = record { kernel = k; pc = x.pc };
        holder = x.holder;
        phase = update x.phase x.current outside;
      })
  others :
      {y : System}
      → Step x.system y
      → (y.semas lock).value ≡ (x.semas lock).value
      → ((t : ℕ) → x.pc t ≡ down lock ↔ y.pc t ≡ down lock)
      → LockStep lock x (record { system = y; holder = x.holder; phase = x.phase })
