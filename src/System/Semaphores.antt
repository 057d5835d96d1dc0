-- ===== src/System/Semaphores.antt =====
-- pintos/src/threads/synch.c: the semaphore operations on the lists of threads.
use ospersonal.Common.{
  Bool, Bool-cases, [], ap, arith, bind_some, count, count-append, false, inl, inr, refl, some,
  true, ℕ, ◌++◌, ◌-◌, ◌<◌, ◌==◌, ◌∙◌, ◌∷◌, ◌≡◌, ◌≢◌, ◌⊎◌,
}
use ospersonal.Thread.{Kernel, blocked, set_status, update, thread_current, thread_block}
use ospersonal.Synch.{sema_init, set_sema, sema_down_round, sema_try_down}
use ospersonal.System.{System, run, down, after_round}
use ospersonal.System.Invariant.{IsOk, IsParked}
use ospersonal.System.Schedule.{schedule-IsOk}
use ospersonal.System.Steps.{thread_current-IsOk, thread_block-schedule}

-- A change of a semaphore's value moves no thread.
module _ (x : System) (v : IsOk x) (s value : ℕ) where
  unfoldable pub revalued : Kernel
  revalued = set_sema x.kernel s (record (x.semas s) { value = value })

  pub revalued-IsOk : IsOk (record { kernel = revalued; pc = x.pc })
  unfolding revalued
  revalued-IsOk = record {
    lists = record {
      ready_once = v.lists.ready_once;
      waits_once = λ t r. ground (arith, v.lists.waits_once t r);
      alive = v.lists.alive;
      idle_alive = v.lists.idle_alive;
      idle_runs = v.lists.idle_runs;
    };
    current_runs = v.current_runs;
    only_current = v.only_current;
  }

-- Nor does the running thread's leaving the loop of `sema_down`.
resumed_run-IsOk :
    (x : System) → IsOk x → IsOk (record { kernel = x.kernel; pc = update x.pc x.current run })
resumed_run-IsOk x v = record {
  lists = record {
    ready_once = v.lists.ready_once;
    waits_once = λ t r. ground (arith, v.lists.waits_once t r, v.current_runs);
    alive = v.lists.alive;
    idle_alive = v.lists.idle_alive;
    idle_runs = ground (arith, v.lists.idle_runs);
  };
  current_runs = v.current_runs;
  only_current = v.only_current;
}

module _ (x : System) (v : IsOk x) (s : ℕ) where
  unfoldable pub queued : Kernel
  queued =
      set_sema x.kernel s (record (x.semas s) { waiters = (x.semas s).waiters ++ x.current ∷ [] })

  -- The current thread has joined the waiters and is blocked.
  pub queued-IsParked :
      x.current ≢ x.idle_thread
      → IsParked (set_status queued x.current blocked) (update x.pc x.current (down s))
  unfolding queued
  queued-IsParked n = record {
    lists = record {
      ready_once = λ t. ground (arith, v.lists.ready_once t, v.current_runs);
      waits_once = λ t r. ground (
        arith,
        v.lists.waits_once t r,
        v.current_runs,
        count-append t (x.semas s).waiters (x.current ∷ []),
      );
      alive = λ t h. ground (arith, v.lists.alive t, v.current_runs);
      idle_alive = λ h. ground (arith, v.lists.idle_alive);
      idle_runs = ground (arith, v.lists.idle_runs);
    };
    none_running = λ t h. ground (arith, v.only_current t);
  }

  -- A round of `sema_down` does not panic: the thread has its unit, or it sleeps among the waiters.
  pub sema_down_round-IsOk :
      x.current ≢ x.idle_thread
      → (done : Bool) × (k : Kernel) × (sema_down_round x.kernel s ≡ some (done, k))
        × IsOk (record { kernel = k; pc = update x.pc x.current (after_round done (down s)) })
  unfolding sema_down_round queued revalued thread_current
  sema_down_round-IsOk n = elim (Bool-cases ((x.semas s).value == 0)) [
    | inl e ↦
        (let (k, r, ok) = schedule-IsOk _ _ (queued-IsParked n) in
          let there = thread_current-IsOk x v in
          let sleeps = thread_block-schedule (queued) there ∙ r in
          (false, k, rw e (bind_some _ (bind_some _ there ∙ sleeps)), ok))
    | inr e ↦ (
      true,
      revalued x v s ((x.semas s).value - 1),
      rw e refl,
      resumed_run-IsOk _ (revalued-IsOk x v s ((x.semas s).value - 1)),
    )
  ]

  pub sema_try_down-IsOk : IsOk (record { kernel = (sema_try_down x.kernel s).1; pc = x.pc })
  unfolding sema_try_down revalued
  sema_try_down-IsOk = elim (Bool-cases ((x.semas s).value == 0)) [
    | inl e ↦ rw (e, sema_try_down) v
    | inr e ↦ rw (e, sema_try_down) (revalued-IsOk x v s ((x.semas s).value - 1))
  ]

-- A round ends in one of two ways.
pub sema_down_round_cases :
    (k : Kernel) (s : ℕ) {done : Bool} {k' : Kernel}
    → sema_down_round k s ≡ some (done, k')
    → ((0 < (k.semas s).value)
        × (done ≡ true)
        × (k' ≡ set_sema k s (record (k.semas s) { value = (k.semas s).value - 1 })))
      ⊎ (((k.semas s).value ≡ 0)
          × (done ≡ false)
          × (thread_block (
                set_sema k s
                  (record (k.semas s) { waiters = (k.semas s).waiters ++ k.current ∷ [] }))
              ≡ some k'))
unfolding sema_down_round thread_current
sema_down_round_cases k s {done} {k'} e = ground arith

-- A semaphore at an address where nobody waits can be initialised.
pub sema_init-IsOk :
    (x : System) (s value : ℕ)
    → IsOk x
    → (x.semas s).waiters ≡ []
    → IsOk (record { kernel = sema_init x.kernel s value; pc = x.pc })
unfolding sema_init
sema_init-IsOk x s value v e = record {
  lists = record {
    ready_once = v.lists.ready_once;
    waits_once = λ t r. ground (arith, v.lists.waits_once t r, ap (count t) e);
    alive = v.lists.alive;
    idle_alive = v.lists.idle_alive;
    idle_runs = v.lists.idle_runs;
  };
  current_runs = v.current_runs;
  only_current = v.only_current;
}
