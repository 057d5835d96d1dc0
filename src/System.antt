-- ===== src/System.antt =====
-- The threads of the kernel running together: thread.c and synch.c under every schedule. Each step
-- is a stretch of code of the current thread that runs with interrupts off.
pub mod Invariant
pub mod Schedule
pub mod Steps
pub mod Semaphores
pub mod Wake
pub mod Safety
pub mod Moved
pub mod Wakeups
use ospersonal.Common.{ℕ, ◌≡◌, ◌≢◌, Bool, true, false, ◌&&◌, not, Option, some, ◌==◌, if◌then◌else◌}
use ospersonal.Thread.{
  Kernel, Status, running, ready, blocked, dying, is_blocked, is_ready, status_of, update,
  thread_block, thread_unblock, thread_yield, thread_exit, thread_create, thread_tick,
}
use ospersonal.Synch.{sema_down_round, sema_try_down, sema_up}

-- Where a thread resumes: outside of these operations, or in the loop of `sema_down`.
pub data Pc : Type 0 where
  run : Pc
  down : ℕ → Pc

abbrev pub is_down : Pc → ℕ → Bool
is_down run s = false
is_down (down r) s = r == s

pub record System : Type 0 where
  pub kernel : Kernel
  pub open kernel use *
  pub pc : ℕ → Pc

abbrev pub after_round : Bool → Pc → Pc
after_round true p = run
after_round false p = p

-- The idle thread blocks and is preempted, and does nothing else.
pub data Step (x : System) : System → Type 0 where
  yields :
      {k : Kernel}
      → x.pc x.current ≡ run
      → thread_yield x.kernel ≡ some k
      → Step x (record { kernel = k; pc = x.pc })
  blocks :
      {k : Kernel}
      → x.pc x.current ≡ run
      → thread_block x.kernel ≡ some k
      → Step x (record { kernel = k; pc = x.pc })
  unblocks :
      {k : Kernel} (t : ℕ)
      → x.pc x.current ≡ run
      → x.pc t ≡ run
      → t ≢ x.idle_thread
      → thread_unblock x.kernel t ≡ some k
      → Step x (record { kernel = k; pc = x.pc })
  exits :
      {k : Kernel}
      → x.pc x.current ≡ run
      → x.current ≢ x.idle_thread
      → thread_exit x.kernel ≡ some k
      → Step x (record { kernel = k; pc = x.pc })
  creates :
      {k : Kernel} {tid : ℕ} (t priority : ℕ)
      → x.pc x.current ≡ run
      → status_of x.kernel t ≡ dying
      → thread_create x.kernel (some t) priority ≡ some (some tid, k)
      → Step x (record { kernel = k; pc = update x.pc t run })
  ticks : x.pc x.current ≡ run → Step x (record { kernel = (thread_tick x.kernel).1; pc = x.pc })
  downs :
      {k : Kernel} {done : Bool} (s : ℕ)
      → x.pc x.current ≡ run
      → x.current ≢ x.idle_thread
      → sema_down_round x.kernel s ≡ some (done, k)
      → Step x (record { kernel = k; pc = update x.pc x.current (after_round done (down s)) })
  resumes :
      {k : Kernel} {done : Bool} (s : ℕ)
      → x.pc x.current ≡ down s
      → sema_down_round x.kernel s ≡ some (done, k)
      → Step x (record { kernel = k; pc = update x.pc x.current (after_round done (down s)) })
  tries :
      (s : ℕ)
      → x.pc x.current ≡ run
      → Step x (record { kernel = (sema_try_down x.kernel s).1; pc = x.pc })
  ups :
      {k : Kernel} (s : ℕ)
      → x.pc x.current ≡ run
      → sema_up x.kernel s ≡ some k
      → Step x (record { kernel = k; pc = x.pc })

pub data Reach (x : System) : System → Type 0 where
  here : Reach x x
  next : {y z : System} → Reach x y → Step y z → Reach x z
