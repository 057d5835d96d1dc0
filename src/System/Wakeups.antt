-- ===== src/System/Wakeups.antt =====
-- pintos/src/threads/synch.c: the threads that a semaphore has woken, step by step.
use ospersonal.Common.{
  Bool, List, Option, [], arith, bind_some, inl, inr, refl, some, some_injective, subst, sym, ℕ,
  ◌+◌, ◌-◌, ◌<◌, ◌>>=◌, ◌∙◌, ◌∷◌, ◌≡◌, ◌≢◌, ◌⊎◌,
}
use ospersonal.Thread.{
  Kernel, dying, status_of, update, thread_current, thread_block, thread_unblock, thread_yield,
  thread_exit, thread_tick,
}
use ospersonal.Synch.{sema_down_round, sema_try_down, sema_up, set_sema, wake_front}
use ospersonal.System.{
  System, run, down, Step, yields, blocks, unblocks, exits, creates, ticks, downs, resumes, tries,
  ups, Reach, here, next, after_round,
}
use ospersonal.System.Invariant.{IsOk}
use ospersonal.System.Moved.{NoLostWakeup, downing_in-append, downing_in-update, schedule-Moved}
use ospersonal.System.Wake.{
  created, thread_unblock_result, shortened, wake_front-unblocked, front_waits,
}
use ospersonal.System.Semaphores.{queued, queued-IsParked, sema_down_round_cases}
use ospersonal.System.Steps.{
  thread_current-IsOk, thread_yield-schedule, thread_block-schedule, thread_exit-schedule,
  yield_queued, yield-IsParked, block_idle-IsParked, exit-IsParked,
}
use ospersonal.System.Safety.{creates_result, down-ne-idle, Reach-IsOk}

module _ (x : System) (v : IsOk x) (s : ℕ) (w : NoLostWakeup x s) where
  yields-NoLostWakeup :
      {k : Kernel}
      → x.pc x.current ≡ run
      → thread_yield x.kernel ≡ some k
      → NoLostWakeup (record { kernel = k; pc = x.pc }) s
  unfolding yield_queued
  yields-NoLostWakeup r e =
      let e' = sym (thread_yield-schedule x.kernel (thread_current-IsOk x v)) ∙ e in
      let m = schedule-Moved _ x.pc (yield-IsParked x v) e' in
      ground (
        arith,
        m.same_sema s,
        m.same_woken s,
        downing_in-append x.pc s x.ready_list (x.current ∷ []),
      )

  blocks-NoLostWakeup :
      {k : Kernel}
      → x.pc x.current ≡ run
      → thread_block x.kernel ≡ some k
      → NoLostWakeup (record { kernel = k; pc = x.pc }) s
  blocks-NoLostWakeup r e =
      let e' = sym (thread_block-schedule x.kernel (thread_current-IsOk x v)) ∙ e in
      let m = schedule-Moved _ x.pc (block_idle-IsParked x v r) e' in
      ground (arith, m.same_sema s, m.same_woken s)

  exits-NoLostWakeup :
      {k : Kernel}
      → x.pc x.current ≡ run
      → x.current ≢ x.idle_thread
      → thread_exit x.kernel ≡ some k
      → NoLostWakeup (record { kernel = k; pc = x.pc }) s
  exits-NoLostWakeup r n e =
      let e' = sym (thread_exit-schedule x.kernel (thread_current-IsOk x v)) ∙ e in
      let m = schedule-Moved _ x.pc (exit-IsParked x v _ r n) e' in
      ground (arith, m.same_sema s, m.same_woken s)

  unblocks-NoLostWakeup :
      {k : Kernel} (t : ℕ)
      → x.pc t ≡ run
      → thread_unblock x.kernel t ≡ some k
      → NoLostWakeup (record { kernel = k; pc = x.pc }) s
  unblocks-NoLostWakeup t r e =
      rw (thread_unblock_result x.kernel t e)
        (ground (arith, w, downing_in-append x.pc s x.ready_list (t ∷ [])))

  creates-NoLostWakeup :
      (t priority : ℕ)
      → x.pc x.current ≡ run
      → status_of x.kernel t ≡ dying
      → NoLostWakeup (record { kernel = created x v t priority; pc = update x.pc t run }) s
  unfolding created
  creates-NoLostWakeup t priority r d = ground (
    arith,
    v.current_runs,
    v.lists.ready_once t,
    downing_in-append (update x.pc t run) s x.ready_list (t ∷ []),
    downing_in-update x.pc s t run x.ready_list,
  )

  ticks-NoLostWakeup : NoLostWakeup (record { kernel = (thread_tick x.kernel).1; pc = x.pc }) s
  unfolding thread_tick
  ticks-NoLostWakeup = ground arith

  tries-NoLostWakeup :
      (r : ℕ) → NoLostWakeup (record { kernel = (sema_try_down x.kernel r).1; pc = x.pc }) s
  unfolding sema_try_down
  tries-NoLostWakeup r = ground arith

module _ (x : System) (v : IsOk x) (s r : ℕ) (w : NoLostWakeup x s) where
  -- The thread has its unit, and leaves the loop.
  took-NoLostWakeup :
      0 < (x.semas r).value
      → (x.pc x.current ≡ run) ⊎ (x.pc x.current ≡ down r)
      → NoLostWakeup
          (record {
            kernel = set_sema x.kernel r (record (x.semas r) { value = (x.semas r).value - 1 });
            pc = update x.pc x.current run;
          })
          s
  took-NoLostWakeup h p = ground (
    arith,
    v.current_runs,
    v.lists.ready_once x.current,
    downing_in-update x.pc s x.current run x.ready_list,
  )

  -- The thread has gone to sleep.
  slept-NoLostWakeup :
      {k : Kernel}
      → (x.semas r).value ≡ 0
      → x.current ≢ x.idle_thread
      → (x.pc x.current ≡ run) ⊎ (x.pc x.current ≡ down r)
      → thread_block (queued x v r) ≡ some k
      → NoLostWakeup (record { kernel = k; pc = update x.pc x.current (down r) }) s
  unfolding queued thread_current
  slept-NoLostWakeup h n p e =
      let e' = sym (thread_block-schedule (queued x v r) (thread_current-IsOk x v)) ∙ e in
      let m = schedule-Moved _ (update x.pc x.current (down r)) (queued-IsParked x v r n) e' in
      ground (
        arith,
        m.same_sema s,
        m.same_woken s,
        v.current_runs,
        v.lists.ready_once x.current,
        downing_in-update x.pc s x.current (down r) x.ready_list,
      )

  -- A round of `sema_down` on `r`, begun by a thread that is new there or was woken there.
  pub rounds-NoLostWakeup :
      {done : Bool} {k : Kernel}
      → x.current ≢ x.idle_thread
      → (x.pc x.current ≡ run) ⊎ (x.pc x.current ≡ down r)
      → sema_down_round x.kernel r ≡ some (done, k)
      → NoLostWakeup
          (record { kernel = k; pc = update x.pc x.current (after_round done (down r)) })
          s
  unfolding queued
  rounds-NoLostWakeup n p e = elim (sema_down_round_cases x.kernel r e) [
    | inl (h, d, k) ↦ rw (d, k) (took-NoLostWakeup h p)
    | inr (h, d, b) ↦ rw d (slept-NoLostWakeup h n p b)
  ]

  raised : Kernel → Kernel
  raised k = set_sema k r (record (k.semas r) { value = (k.semas r).value + 1 })

  ups_of :
      {k : Kernel} (ts : List ℕ)
      → (x.semas r).waiters ≡ ts
      → (wake_front x.kernel r ts >>= λ k'. some (raised k')) ≡ some k
      → NoLostWakeup (record { kernel = k; pc = x.pc }) s
  unfolding raised wake_front shortened
  ups_of {k} [] e h = rw (← some_injective h) (ground (arith, w, e))
  ups_of {k} (t ∷ rest) e h =
      rw (← some_injective (sym (bind_some _ (wake_front-unblocked x v r t rest e)) ∙ h)) (
        ground
          (arith, w, e, front_waits x v r t rest e, downing_in-append x.pc s x.ready_list (t ∷ [])))

  pub ups-NoLostWakeup :
      {k : Kernel} → sema_up x.kernel r ≡ some k → NoLostWakeup (record { kernel = k; pc = x.pc }) s
  unfolding sema_up raised
  ups-NoLostWakeup e = ups_of (x.semas r).waiters refl e

-- No step loses a wakeup: while threads wait for a semaphore, every unit of it has a thread that can
-- run and will test for it.
pub Step-NoLostWakeup :
    {x y : System} (s : ℕ) → IsOk x → Step x y → NoLostWakeup x s → NoLostWakeup y s
Step-NoLostWakeup {x} s v (yields r e) w = yields-NoLostWakeup x v s w r e
Step-NoLostWakeup {x} s v (blocks r e) w = blocks-NoLostWakeup x v s w r e
Step-NoLostWakeup {x} s v (unblocks t r rt n e) w = unblocks-NoLostWakeup x v s w t rt e
Step-NoLostWakeup {x} s v (exits r n e) w = exits-NoLostWakeup x v s w r n e
Step-NoLostWakeup {x} s v (creates t priority r d e) w =
    subst
      (λ (q : Option ℕ × Kernel). NoLostWakeup (record { kernel = q.1; pc = update x.pc t run }) s)
      (creates_result x v t priority e) (creates-NoLostWakeup x v s w t priority r d)
Step-NoLostWakeup {x} s v (ticks r) w = ticks-NoLostWakeup x v s w
Step-NoLostWakeup {x} s v (downs r p n e) w = rounds-NoLostWakeup x v s r w n (inl p) e
Step-NoLostWakeup {x} s v (resumes r p e) w =
    rounds-NoLostWakeup x v s r w (down-ne-idle x r v p) (inr p) e
Step-NoLostWakeup {x} s v (tries r p) w = tries-NoLostWakeup x v s w r
Step-NoLostWakeup {x} s v (ups r p e) w = ups-NoLostWakeup x v s r w e

-- No wakeup is lost under any schedule: from a state in which the invariant on the lists and this
-- property hold, while threads wait for a semaphore, its value is at most the number of threads in
-- `sema_down` on it that can run.
pub Reach-NoLostWakeup :
    {x y : System} (s : ℕ) → IsOk x → Reach x y → NoLostWakeup x s → NoLostWakeup y s
Reach-NoLostWakeup s v here w = w
Reach-NoLostWakeup s v (next r st) w =
    Step-NoLostWakeup s (Reach-IsOk r v) st (Reach-NoLostWakeup s v r w)
