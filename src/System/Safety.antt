-- ===== src/System/Safety.antt =====
-- pintos/src/threads/thread.c and synch.c: all the steps, under every schedule.
use ospersonal.Common.{
  Bool, Option, arith, count, none, some, some_injective, subst, sym, ℕ, ◌+◌, ◌∙◌, ◌≡◌, ◌≢◌, ◌≤◌,
}
use ospersonal.Thread.{
  Kernel, blocked, status_of, update, thread_current, thread_block, thread_unblock, thread_yield,
  thread_exit, thread_create, init_thread, pri_max,
}
use ospersonal.Synch.{sema_down_round, sema_up}
use ospersonal.System.{
  System, Pc, run, down, Step, yields, blocks, unblocks, exits, creates, ticks, downs, resumes,
  tries, ups, Reach, here, next, after_round,
}
use ospersonal.System.Invariant.{IsOk}
use ospersonal.System.Steps.{
  Runs, thread_current-IsOk, thread_yield-Runs, thread_block-Runs, thread_exit-Runs,
}
use ospersonal.System.Semaphores.{sema_down_round-IsOk, sema_try_down-IsOk}
use ospersonal.System.Wake.{
  thread_unblock-Runs, sema_up-Runs, thread_tick-IsOk, created, created-IsOk, thread_create-created,
}

-- An operation that succeeds has the one result that is known of it.
Runs-IsOk :
    {r : Option Kernel} {pc : ℕ → Pc} {k : Kernel}
    → Runs r pc
    → r ≡ some k
    → IsOk (record { kernel = k; pc = pc })
Runs-IsOk {pc = pc} (k', e, ok) h =
    subst (λ j. IsOk (record { kernel = j; pc = pc })) (some_injective (sym e ∙ h)) ok

pub unblock_needs_blocked :
    (k k' : Kernel) (t : ℕ) → thread_unblock k t ≡ some k' → status_of k t ≡ blocked
unfolding thread_unblock
unblock_needs_blocked k k' t e = ground arith

pub create_needs :
    (k k' : Kernel) (t tid priority : ℕ)
    → thread_create k (some t) priority ≡ some (some tid, k')
    → (t ≢ 0) × (priority ≤ pri_max)
unfolding thread_create init_thread
create_needs k k' t tid priority e = ground arith

round-IsOk :
    (x : System) (s : ℕ) {done : Bool} {k : Kernel}
    → IsOk x
    → x.current ≢ x.idle_thread
    → sema_down_round x.kernel s ≡ some (done, k)
    → IsOk (record { kernel = k; pc = update x.pc x.current (after_round done (down s)) })
round-IsOk x s {done} {k} v n h =
    let (done', k', e, ok) = sema_down_round-IsOk x v s n in
    let same : (done', k') ≡ (done, k) = some_injective (sym e ∙ h) in
    subst
      (λ (r : Bool × Kernel).
        IsOk (record { kernel = r.1; pc = update x.pc x.current (after_round r.0 (down s)) }))
      same ok

pub down-ne-idle :
    (x : System) (s : ℕ) → IsOk x → x.pc x.current ≡ down s → x.current ≢ x.idle_thread
down-ne-idle x s v e h = ground (arith, v.lists.idle_runs)

pub creates_result :
    (x : System) (v : IsOk x) (t priority : ℕ) {tid : ℕ} {k : Kernel}
    → thread_create x.kernel (some t) priority ≡ some (some tid, k)
    → ◌≡◌ {A = Option ℕ × Kernel} (some x.next_tid, created x v t priority) (some tid, k)
creates_result x v t priority e =
    let (nt, np) = create_needs _ _ t _ priority e in
    some_injective (sym (thread_create-created x v t priority nt np) ∙ e)

-- Every step keeps the threads on the lists that their status says, with one thread running.
pub Step-IsOk : {x y : System} → Step x y → IsOk x → IsOk y
Step-IsOk {x} (yields r e) v = Runs-IsOk (thread_yield-Runs x v) e
Step-IsOk {x} (blocks r e) v = Runs-IsOk (thread_block-Runs x v r) e
Step-IsOk {x} (unblocks t r rt n e) v =
    Runs-IsOk (thread_unblock-Runs x v t (unblock_needs_blocked _ _ t e) rt n) e
Step-IsOk {x} (exits r n e) v = Runs-IsOk (thread_exit-Runs x v r n) e
Step-IsOk {x} (creates t priority r d e) v =
    let (nt, _) = create_needs _ _ t _ priority e in
    subst (λ (q : Option ℕ × Kernel). IsOk (record { kernel = q.1; pc = update x.pc t run }))
      (creates_result x v t priority e) (created-IsOk x v t priority nt d)
Step-IsOk {x} (ticks r) v = thread_tick-IsOk x v
Step-IsOk {x} (downs s r n e) v = round-IsOk x s v n e
Step-IsOk {x} (resumes s r e) v = round-IsOk x s v (down-ne-idle x s v r) e
Step-IsOk {x} (tries s r) v = sema_try_down-IsOk x v s
Step-IsOk {x} (ups s r e) v = Runs-IsOk (sema_up-Runs x v s) e

-- So it holds after any run from a state where it holds.
pub Reach-IsOk : {x y : System} → Reach x y → IsOk x → IsOk y
Reach-IsOk here v = v
Reach-IsOk (next r st) v = Step-IsOk st (Reach-IsOk r v)

-- Under every schedule from a state in which the invariant on the lists holds, the `elem` member of a
-- thread is on one list at most: never on the run queue and on the waiters of a semaphore, and never
-- on the waiters of two semaphores.
pub elem_exclusive :
    {x y : System} (t r s : ℕ)
    → IsOk x
    → Reach x y
    → r ≢ s
    → (count t y.ready_list + count t (y.semas s).waiters ≤ 1)
      × (count t (y.semas r).waiters + count t (y.semas s).waiters ≤ 1)
elem_exclusive {y = y} t r s v reach n =
    let ok = Reach-IsOk reach v in
    ground (arith, ok.lists.ready_once t, ok.lists.waits_once t r, ok.lists.waits_once t s)

-- No ASSERT of these operations fails, whatever the schedule was since a state in which the invariant
-- on the lists holds: the two of `thread_current` hold, and a thread that is not the idle thread, and
-- is in no `sema_down`, can yield, sleep, exit, raise and lower any semaphore, and make a thread with a
-- page and a priority up to PRI_MAX.
pub no_assert_fails :
    {x y : System} (s t priority : ℕ)
    → IsOk x
    → Reach x y
    → y.pc y.current ≡ run
    → y.current ≢ y.idle_thread
    → t ≢ 0
    → priority ≤ pri_max
    → (thread_current y.kernel ≡ some y.current)
      × (thread_yield y.kernel ≢ none)
      × (thread_block y.kernel ≢ none)
      × (thread_exit y.kernel ≢ none)
      × (sema_up y.kernel s ≢ none)
      × (sema_down_round y.kernel s ≢ none)
      × (thread_create y.kernel (some t) priority ≢ none)
no_assert_fails {y = y} s t priority v reach r n nt np =
    let ok = Reach-IsOk reach v in
    (
      thread_current-IsOk y ok,
      λ h. cc ((thread_yield-Runs y ok).1, h),
      λ h. cc ((thread_block-Runs y ok r).1, h),
      λ h. cc ((thread_exit-Runs y ok r n).1, h),
      λ h. cc ((sema_up-Runs y ok s).1, h),
      λ h. cc ((sema_down_round-IsOk y ok s n).2, h),
      λ h. cc (thread_create-created y ok t priority nt np, h),
    )
