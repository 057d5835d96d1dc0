-- ===== src/Tests/Machine.antt =====
-- pintos/src/threads/thread.c and synch.c: two threads, and what holds of their runs.
use ospersonal.Common.{
  List, Option, [], arith, count, false, if◌then◌else◌, inl, none, refl, some, true, ℕ, ◌+◌, ◌==◌,
  ◌∷◌, ◌≡◌, ◌≢◌, ◌≤◌,
}
use ospersonal.Condition.{cond_broadcast}
use ospersonal.Condition.Broadcast.{InOrder, cond_broadcast-InOrder}
use ospersonal.Thread.{
  Kernel, running, blocked, dying, update, thread_create, init_thread, thread_unblock, thread_block,
  schedule, thread_yield, thread_exit, thread_current,
}
use ospersonal.System.{System, Reach, run, here, next, downs, creates, ups, down}
use ospersonal.Synch.{sema_down_round, sema_up, sema_init}
use ospersonal.System.Moved.{NoLostWakeup}
use ospersonal.System.Wakeups.{Reach-NoLostWakeup}
use ospersonal.System.Safety.{elem_exclusive, no_assert_fails}
use ospersonal.Lock.{
  Locked, lock_init, outside, entering, inside, acquires, enters, lock_acquire_begin,
  lock_acquire_end, lock_held_by_current_thread,
}
use ospersonal.Lock.Mutex.{LockReach, LockReach.here, LockReach.next, mutual_exclusion}
use ospersonal.System.Invariant.{IsOk}

-- The main thread runs; the idle thread has gone to sleep.
abbrev pub two_threads : System
two_threads = record {
  kernel = record {
    threads = λ t.
        if t == 1
        then record { tid = 1; status = running; priority = 31; pagedir = false; magic = true }
        else if t == 2
        then record { tid = 2; status = blocked; priority = 0; pagedir = false; magic = true }
        else record { tid = 0; status = dying; priority = 0; pagedir = false; magic = false };
    semas = λ s. record { value = 1; waiters = [] };
    ready_list = [];
    all_list = 1 ∷ 2 ∷ [];
    current = 1;
    idle_thread = 2;
    initial_thread = 1;
    next_tid = 3;
    thread_ticks = 0;
    idle_ticks = 0;
    kernel_ticks = 0;
    user_ticks = 0;
  };
  pc = λ t. run;
}

pub two_threads-IsOk : IsOk two_threads
two_threads-IsOk = record {
  lists = record {
    ready_once = λ t. ground arith;
    waits_once = λ t s. ground arith;
    alive = λ t. ground arith;
    idle_alive = ground arith;
    idle_runs = refl;
  };
  current_runs = refl;
  only_current = λ t. ground arith;
}

abbrev kernel_or {ℓ} : {A : Type ℓ} → A → Option A → A
kernel_or d none = d
kernel_or d (some k) = k

-- The main thread makes thread 3, lowers semaphore 300 to zero, and goes to sleep in it; thread 3
-- raises it.
abbrev made : System
made = record {
  kernel = (kernel_or (none, two_threads.kernel) (thread_create two_threads.kernel (some 3) 31)).1;
  pc = update two_threads.pc 3 run;
}

abbrev lowered : System
lowered = record {
  kernel = (kernel_or (true, made.kernel) (sema_down_round made.kernel 300)).1;
  pc = update made.pc 1 run;
}

abbrev asleep : System
asleep = record {
  kernel = (kernel_or (true, lowered.kernel) (sema_down_round lowered.kernel 300)).1;
  pc = update lowered.pc 1 (down 300);
}

abbrev raised : System
raised = record { kernel = kernel_or asleep.kernel (sema_up asleep.kernel 300); pc = asleep.pc }

asleep-Reach : Reach two_threads asleep
unfolding thread_current thread_create init_thread thread_unblock sema_down_round thread_block
    schedule
asleep-Reach =
    next
      (next (next here (creates {tid = 3} 3 31 refl refl refl))
        (downs {done = true} 300 refl (λ e. absurd (omega arith)) refl))
      (downs {done = false} 300 refl (λ e. absurd (omega arith)) refl)

raised-Reach : Reach two_threads raised
unfolding thread_current sema_up thread_unblock sema_down_round thread_create init_thread
    thread_block schedule
raised-Reach = next asleep-Reach (ups 300 refl refl)

Reach-NoLostWakeup_example : NoLostWakeup raised 300
Reach-NoLostWakeup_example = Reach-NoLostWakeup 300 two_threads-IsOk raised-Reach (inl refl)

elem_exclusive_example :
    (count 1 asleep.ready_list + count 1 (asleep.semas 300).waiters ≤ 1)
    × (count 1 (asleep.semas 301).waiters + count 1 (asleep.semas 300).waiters ≤ 1)
elem_exclusive_example =
    elem_exclusive 1 301 300 two_threads-IsOk asleep-Reach (λ e. absurd (omega arith))

no_assert_fails_example :
    (thread_current raised.kernel ≡ some raised.current)
    × (thread_yield raised.kernel ≢ none)
    × (thread_block raised.kernel ≢ none)
    × (thread_exit raised.kernel ≢ none)
    × (sema_up raised.kernel 301 ≢ none)
    × (sema_down_round raised.kernel 301 ≢ none)
    × (thread_create raised.kernel (some 4) 31 ≢ none)
unfolding thread_current thread_create init_thread thread_unblock sema_down_round thread_block
    schedule sema_up
no_assert_fails_example =
    no_assert_fails 301 4 31 two_threads-IsOk raised-Reach refl (λ e. absurd (omega arith))
      (λ e. absurd (omega arith)) (omega arith)

-- The main thread makes a lock and takes it.
abbrev taken : Locked
taken = record {
  system = record {
    kernel =
        (kernel_or (true, made.kernel) (sema_down_round (lock_init two_threads 300).kernel 300)).1;
    pc = update two_threads.pc 1 run;
  };
  holder = some 1;
  phase = update (update (λ t. outside) 1 entering) 1 inside;
}

taken-LockReach : LockReach 300 (lock_init two_threads 300) taken
unfolding lock_init sema_init lock_acquire_begin lock_acquire_end sema_down_round
    lock_held_by_current_thread
taken-LockReach =
    next (next here (acquires {done = true} refl (λ e. absurd (omega arith)) refl refl))
      (enters refl refl)

mutual_exclusion_example : ◌≡◌ {A = ℕ} 1 1 × (taken.holder ≡ some 1)
unfolding lock_init sema_init
mutual_exclusion_example =
    mutual_exclusion two_threads 300 1 1 two_threads-IsOk refl (λ s e. cc) taken-LockReach refl refl

-- The main thread holds a lock and signals two waiters, one of them twice.
abbrev holding : Locked
holding = record { system = two_threads; holder = some 1; phase = λ t. inside }

cond_broadcast-InOrder_example :
    (y : Locked) × (signals : List (Kernel × Kernel)) × (cond_broadcast 4
        (λ n y. y)
        holding
        (300 ∷ 301 ∷ 300 ∷ [])
      ≡ some (y, signals))
    × InOrder (300 ∷ 301 ∷ 300 ∷ []) signals
    × IsOk y.system
    × (lock_held_by_current_thread y ≡ true)
unfolding lock_held_by_current_thread
cond_broadcast-InOrder_example =
    cond_broadcast-InOrder 4 (λ n y. y) holding (300 ∷ 301 ∷ 300 ∷ [])
      (λ n y. record { reached = here; same_current = refl; same_holder = refl }) two_threads-IsOk
      refl (omega arith)
