-- ===== src/System/Steps.antt =====
-- pintos/src/threads/thread.c and synch.c: yielding, sleeping and exiting on the lists of threads.
use ospersonal.Common.{
  List, Option, [], arith, bind_some, count-append, if◌then◌else◌, refl, some, true, ℕ, ◌++◌, ◌==◌,
  ◌∙◌, ◌∷◌, ◌≡◌, ◌≢◌,
}
use ospersonal.Thread.{
  Kernel, thread_current, is_thread, list_remove, schedule, ready, blocked, dying, set_status,
  thread_block, thread_yield, thread_exit,
}
use ospersonal.System.{System, Pc, run}
use ospersonal.System.Invariant.{IsOk, IsParked}
use ospersonal.System.Schedule.{schedule-IsOk}

-- What an operation that sleeps may assume of the result: it is there, and it is in order.
abbrev pub Runs : Option Kernel → (ℕ → Pc) → Type 0
Runs r pc = (k : Kernel) × (r ≡ some k) × IsOk (record { kernel = k; pc = pc })

unfoldable pub yield_queued : Kernel → Kernel
yield_queued k =
    if k.current == k.idle_thread
    then k
    else record k { ready_list = k.ready_list ++ k.current ∷ [] }

-- The ASSERTs of `thread_current` hold.
pub thread_current-IsOk : (x : System) → IsOk x → thread_current x.kernel ≡ some x.current
unfolding thread_current
thread_current-IsOk x v =
    let there : is_thread x.kernel x.current ≡ true =
      v.lists.alive x.current (λ h. cc (v.current_runs, h)) in
    rw (there, v.current_runs) refl

-- What an operation does when they hold.
module _ (k : Kernel) (h : thread_current k ≡ some k.current) where
  pub thread_block-schedule : thread_block k ≡ schedule (set_status k k.current blocked)
  unfolding thread_block
  thread_block-schedule = bind_some _ h

  pub thread_yield-schedule :
      thread_yield k ≡ schedule (set_status (yield_queued k) k.current ready)
  unfolding thread_yield yield_queued
  thread_yield-schedule = bind_some _ h

  pub thread_exit-schedule :
      thread_exit k
      ≡ schedule
          (set_status (record k { all_list = list_remove k.current k.all_list }) k.current dying)
  unfolding thread_exit thread_current
  thread_exit-schedule = bind_some _ h ∙ bind_some _ h

Runs-by : {r q : Option Kernel} {pc : ℕ → Pc} → r ≡ q → Runs q pc → Runs r pc
Runs-by e (k, f, ok) = (k, e ∙ f, ok)

module _ (x : System) (v : IsOk x) where
  -- The idle thread can stop at any time.
  pub block_idle-IsParked :
      x.pc x.current ≡ run → IsParked (set_status x.kernel x.current blocked) x.pc
  block_idle-IsParked r = record {
    lists = record {
      ready_once = λ t. ground (arith, v.lists.ready_once t, v.current_runs);
      waits_once = λ t s. ground (arith, v.lists.waits_once t s, v.current_runs);
      alive = λ t h. ground (arith, v.lists.alive t, v.current_runs);
      idle_alive = λ h. ground (arith, v.lists.idle_alive);
      idle_runs = v.lists.idle_runs;
    };
    none_running = λ t h. ground (arith, v.only_current t);
  }

  pub thread_block-Runs : x.pc x.current ≡ run → Runs (thread_block x.kernel) x.pc
  thread_block-Runs r =
      Runs-by (thread_block-schedule x.kernel (thread_current-IsOk x v))
        (schedule-IsOk _ x.pc (block_idle-IsParked r))

  pub exit-IsParked :
      (all : List ℕ)
      → x.pc x.current ≡ run
      → x.current ≢ x.idle_thread
      → IsParked (set_status (record x.kernel { all_list = all }) x.current dying) x.pc
  exit-IsParked all r n = record {
    lists = record {
      ready_once = λ t. ground (arith, v.lists.ready_once t, v.current_runs);
      waits_once = λ t s. ground (arith, v.lists.waits_once t s, v.current_runs);
      alive = λ t h. ground (arith, v.lists.alive t, v.current_runs);
      idle_alive = λ h. ground (arith, v.lists.idle_alive);
      idle_runs = v.lists.idle_runs;
    };
    none_running = λ t h. ground (arith, v.only_current t);
  }

  pub thread_exit-Runs :
      x.pc x.current ≡ run → x.current ≢ x.idle_thread → Runs (thread_exit x.kernel) x.pc
  thread_exit-Runs r n =
      Runs-by (thread_exit-schedule x.kernel (thread_current-IsOk x v))
        (schedule-IsOk _ x.pc (exit-IsParked _ r n))

  pub yield-IsParked : IsParked (set_status (yield_queued x.kernel) x.current ready) x.pc
  unfolding yield_queued
  yield-IsParked = record {
    lists = record {
      ready_once = λ t. ground (
        arith,
        v.lists.ready_once t,
        v.current_runs,
        count-append t x.ready_list (x.current ∷ []),
      );
      waits_once = λ t s. ground (arith, v.lists.waits_once t s, v.current_runs);
      alive = λ t h. ground (arith, v.lists.alive t, v.current_runs);
      idle_alive = λ h. ground (arith, v.lists.idle_alive);
      idle_runs = ground (arith, v.lists.idle_runs);
    };
    none_running = λ t h. ground (arith, v.only_current t);
  }

  pub thread_yield-Runs : Runs (thread_yield x.kernel) x.pc
  thread_yield-Runs =
      Runs-by (thread_yield-schedule x.kernel (thread_current-IsOk x v))
        (schedule-IsOk _ x.pc yield-IsParked)
