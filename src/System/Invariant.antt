-- ===== src/System/Invariant.antt =====
-- pintos/src/threads/thread.c and synch.c: a thread's status and the lists that it stands on.
use ospersonal.Common.{ℕ, ◌≡◌, ◌≢◌, Bool, true, not, ◌&&◌, ◌==◌, if◌then◌else◌, count}
use ospersonal.Thread.{Kernel, running, dying, is_ready, is_blocked, is_thread, status_of}
use ospersonal.System.{System, Pc, run, is_down}

abbrev pub on_ready_list : Kernel → ℕ → Bool
on_ready_list k t = is_ready (status_of k t) && not (t == k.idle_thread)

abbrev pub on_waiters : Kernel → (ℕ → Pc) → ℕ → ℕ → Bool
on_waiters k pc t s = is_blocked (status_of k t) && is_down (pc t) s

-- Each thread stands on the lists that its status says, once, and on no other.
pub record Lists (k : Kernel) (pc : ℕ → Pc) : Type 0 where
  pub ready_once : (t : ℕ) → count t k.ready_list ≡ (if on_ready_list k t then 1 else 0)
  pub waits_once : (t s : ℕ) → count t (k.semas s).waiters ≡ (if on_waiters k pc t s then 1 else 0)
  pub alive : (t : ℕ) → status_of k t ≢ dying → is_thread k t ≡ true
  pub idle_alive : status_of k k.idle_thread ≢ dying
  pub idle_runs : pc k.idle_thread ≡ run

-- Between two steps exactly the current thread is running.
pub record IsOk (x : System) : Type 0 where
  pub lists : Lists x.kernel x.pc
  pub current_runs : status_of x.kernel x.current ≡ running
  pub only_current : (t : ℕ) → status_of x.kernel t ≡ running → t ≡ x.current

-- Before `schedule` nobody is running.
pub record IsParked (k : Kernel) (pc : ℕ → Pc) : Type 0 where
  pub lists : Lists k pc
  pub none_running : (t : ℕ) → status_of k t ≢ running
