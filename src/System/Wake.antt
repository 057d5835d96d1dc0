-- ===== src/System/Wake.antt =====
-- pintos/src/threads/thread.c and synch.c: threads that become ready: unblocked, woken by `sema_up`,
-- or new.
use ospersonal.Common.{
  List, [], ap, arith, bind_some, count, count-append, false, refl, some, true, ℕ, ◌%◌, ◌++◌, ◌+◌,
  ◌==◌, ◌∙◌, ◌∷◌, ◌≡◌, ◌≢◌, ◌≤◌,
}
use ospersonal.Thread.{
  Kernel, ready, blocked, dying, is_thread, status_of, set_status, update, thread_unblock,
  init_thread, alloc_frame, thread_create, pri_max, thread_tick,
}
use ospersonal.Synch.{set_sema, sema_up, wake_front}
use ospersonal.System.{System, run, is_down}
use ospersonal.System.Invariant.{IsOk}
use ospersonal.System.Semaphores.{revalued, revalued-IsOk}
use ospersonal.System.Steps.{Runs}

-- A blocked thread that is a thread passes the ASSERTs of `thread_unblock`.
abbrev pub unblocked : Kernel → ℕ → Kernel
unblocked k t = set_status (record k { ready_list = k.ready_list ++ t ∷ [] }) t ready

pub thread_unblock-unblocked :
    (k : Kernel) (t : ℕ)
    → is_thread k t ≡ true
    → status_of k t ≡ blocked
    → thread_unblock k t ≡ some (unblocked k t)
unfolding thread_unblock
thread_unblock-unblocked k t a e = ground arith

pub thread_unblock_result :
    (k : Kernel) (t : ℕ) {k' : Kernel} → thread_unblock k t ≡ some k' → k' ≡ unblocked k t
unfolding thread_unblock
thread_unblock_result k t e = ground arith

module _ (x : System) (v : IsOk x) (t : ℕ) (b : status_of x.kernel t ≡ blocked) where
  -- A thread that nothing keeps on a wait list.
  unblocked-IsOk :
      x.pc t ≡ run → t ≢ x.idle_thread → IsOk (record { kernel = unblocked x.kernel t; pc = x.pc })
  unblocked-IsOk r n = record {
    lists = record {
      ready_once = λ u. ground (arith, v.lists.ready_once u, count-append u x.ready_list (t ∷ []));
      waits_once = λ u s. ground (arith, v.lists.waits_once u s);
      alive = λ u h. ground (arith, v.lists.alive u);
      idle_alive = λ h. ground (arith, v.lists.idle_alive);
      idle_runs = v.lists.idle_runs;
    };
    current_runs = ground (arith, v.current_runs);
    only_current = λ u h. ground (arith, v.only_current u);
  }

  pub thread_unblock-Runs : x.pc t ≡ run → t ≢ x.idle_thread → Runs (thread_unblock x.kernel t) x.pc
  thread_unblock-Runs r n = (
    unblocked x.kernel t,
    thread_unblock-unblocked x.kernel t (v.lists.alive t (λ e. ground arith)) b,
    unblocked-IsOk r n,
  )

module _ (x : System) (v : IsOk x) (s t : ℕ) (rest : List ℕ)
    (e : (x.semas s).waiters ≡ t ∷ rest) where
  unfoldable pub shortened : Kernel
  shortened = set_sema x.kernel s (record (x.semas s) { waiters = rest })

  -- The first waiter is blocked, in `sema_down` of this semaphore.
  pub front_waits :
      (status_of x.kernel t ≡ blocked) × (is_down (x.pc t) s ≡ true) × (count t rest ≡ 0)
  front_waits = ground (arith, v.lists.waits_once t s, ap (count t) e)

  front-ne-idle : t ≢ x.idle_thread
  front-ne-idle h = ground (arith, front_waits, v.lists.idle_runs)

  woken-IsOk : IsOk (record { kernel = unblocked shortened t; pc = x.pc })
  unfolding shortened
  woken-IsOk = record {
    lists = record {
      ready_once = λ u. ground (
        arith,
        v.lists.ready_once u,
        count-append u x.ready_list (t ∷ []),
        front_waits,
        front-ne-idle,
      );
      waits_once = λ u r. ground (arith, v.lists.waits_once u r, front_waits, ap (count u) e);
      alive = λ u h. ground (arith, v.lists.alive u, front_waits);
      idle_alive = λ h. ground (arith, v.lists.idle_alive);
      idle_runs = v.lists.idle_runs;
    };
    current_runs = ground (arith, v.current_runs, front_waits);
    only_current = λ u h. ground (arith, v.only_current u);
  }

  pub wake_front-unblocked : wake_front x.kernel s (t ∷ rest) ≡ some (unblocked shortened t)
  unfolding wake_front shortened
  wake_front-unblocked =
      thread_unblock-unblocked shortened t (v.lists.alive t (λ h. ground (arith, front_waits)))
        (front_waits.0)

wake_front-Runs :
    (x : System) (v : IsOk x) (s : ℕ) (ts : List ℕ)
    → (x.semas s).waiters ≡ ts
    → Runs (wake_front x.kernel s ts) x.pc
unfolding wake_front
wake_front-Runs x v s [] e = (x.kernel, refl, v)
wake_front-Runs x v s (t ∷ rest) e = (
  unblocked (shortened x v s t rest e) t,
  wake_front-unblocked x v s t rest e,
  woken-IsOk x v s t rest e,
)

-- `sema_up` does not panic: who waits is blocked, and becomes ready.
pub sema_up-Runs : (x : System) → IsOk x → (s : ℕ) → Runs (sema_up x.kernel s) x.pc
unfolding sema_up revalued
sema_up-Runs x v s =
    let (k, r, ok) = wake_front-Runs x v s (x.semas s).waiters refl in
    let y : System = record { kernel = k; pc = x.pc } in
    (
      revalued y ok s ((k.semas s).value + 1),
      bind_some _ r,
      revalued-IsOk y ok s ((k.semas s).value + 1),
    )

-- What touches neither threads nor lists keeps the invariant.
same-IsOk :
    (x : System)
    → IsOk x
    → (k : Kernel) → k.threads ≡ x.threads
    → k.semas ≡ x.semas
    → k.ready_list ≡ x.ready_list
    → k.current ≡ x.current
    → k.idle_thread ≡ x.idle_thread
    → IsOk (record { kernel = k; pc = x.pc })
same-IsOk x v k et es er ec ei = record {
  lists = record {
    ready_once = rw (er, et, ei) v.lists.ready_once;
    waits_once = rw (es, et) v.lists.waits_once;
    alive = rw et v.lists.alive;
    idle_alive = rw (et, ei) v.lists.idle_alive;
    idle_runs = rw ei v.lists.idle_runs;
  };
  current_runs = rw (et, ec) v.current_runs;
  only_current = rw (et, ec) v.only_current;
}

-- A tick counts, and moves no thread.
pub thread_tick-IsOk :
    (x : System) → IsOk x → IsOk (record { kernel = (thread_tick x.kernel).1; pc = x.pc })
unfolding thread_tick
thread_tick-IsOk x v =
    same-IsOk x v (thread_tick x.kernel).1 (ground arith) (ground arith) (ground arith)
      (ground arith) (ground arith)

module _ (x : System) (v : IsOk x) (t priority : ℕ) where
  -- After `init_thread`, and after the tid is given.
  unfoldable pub born : Kernel
  born = record x.kernel {
    threads =
        update x.threads t (record {
          tid = 0;
          status = blocked;
          priority = priority;
          pagedir = false;
          magic = true;
        });
    all_list = x.all_list ++ t ∷ [];
  }

  unfoldable pub named : Kernel
  unfolding born
  named = record born {
    threads = update born.threads t (record (born.threads t) { tid = x.next_tid });
    next_tid = x.next_tid + 1;
  }

  unfoldable pub created : Kernel
  unfolding named
  created = unblocked named t

  pub created-IsOk :
      t ≢ 0
      → status_of x.kernel t ≡ dying
      → IsOk (record { kernel = created; pc = update x.pc t run })
  unfolding created
  created-IsOk n d = record {
    lists = record {
      ready_once = λ u.
          ground
            (arith, v.lists.ready_once u, count-append u x.ready_list (t ∷ []), v.lists.idle_alive);
      waits_once = λ u s. ground (arith, v.lists.waits_once u s);
      alive = λ u h. ground (arith, v.lists.alive u);
      idle_alive = λ h. ground (arith, v.lists.idle_alive);
      idle_runs = ground (arith, v.lists.idle_runs);
    };
    current_runs = ground (arith, v.current_runs);
    only_current = λ u h. ground (arith, v.only_current u);
  }

  pub thread_create-created :
      t ≢ 0
      → priority ≤ pri_max
      → thread_create x.kernel (some t) priority ≡ some (some x.next_tid, created)
  unfolding thread_create init_thread created
  thread_create-created n p =
      bind_some _ init
      ∙ bind_some _ (frame 12 refl)
      ∙ bind_some _ (frame 4 refl)
      ∙ bind_some _ (frame 28 refl)
      ∙ bind_some _ (thread_unblock-unblocked named t (ground arith) (ground arith))
    where
      frame : (size : ℕ) → (size % 4 == 0) ≡ true → alloc_frame named t size ≡ some named
      frame size h = ground (arith, h)

      init : init_thread x.kernel t priority ≡ some born
      init = ground arith
