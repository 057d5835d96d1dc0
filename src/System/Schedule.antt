-- ===== src/System/Schedule.antt =====
-- pintos/src/threads/thread.c: `schedule`, and the thread that it picks.
use ospersonal.Common.{
  ℕ, ◌≡◌, ◌≢◌, Bool, true, false, not, ◌&&◌, List, ◌==◌, if◌then◌else◌, count, arith, [], ◌∷◌, ap,
  some, refl,
}
use ospersonal.Thread.{
  Kernel, running, dying, is_dying, is_thread, status_of, set_status, free_thread_page, is_running,
  switch_to, schedule,
}
use ospersonal.System.{Pc, Status, ready}
use ospersonal.System.Invariant.{Lists, IsOk, IsParked, on_ready_list, on_waiters}

-- The next thread is marked running, and a dead thread's page is freed.
marked : Kernel → ℕ → List ℕ → Kernel
marked k next rest =
    record (set_status (record k { ready_list = rest; current = next }) next running) {
      thread_ticks = 0;
    }

freed_now : Kernel → ℕ → Bool
freed_now k next =
    not (k.current == next)
    && (is_dying (status_of k k.current) && not (k.current == k.initial_thread))

pub resumed : Kernel → ℕ → List ℕ → Kernel
unfolding marked freed_now
resumed k next rest =
    if freed_now k next then free_thread_page (marked k next rest) k.current else marked k next rest

-- What `schedule` takes off the run queue.
pub record Picked (k : Kernel) (next : ℕ) (rest : List ℕ) : Type 0 where
  pub gone : count next rest ≡ 0
  pub others : (t : ℕ) → t ≢ next → count t rest ≡ count t k.ready_list
  pub living : status_of k next ≢ dying
  pub not_waiting : (pc : ℕ → Pc) (s : ℕ) → Lists k pc → on_waiters k pc next s ≡ false

module _ (k : Kernel) (next : ℕ) (rest : List ℕ) where
  pub resumed-semas : (resumed k next rest).semas ≡ k.semas
  unfolding resumed
  resumed-semas = ground arith

  pub resumed-ready_list : (resumed k next rest).ready_list ≡ rest
  unfolding resumed
  resumed-ready_list = ground arith

  pub resumed-current : (resumed k next rest).current ≡ next
  unfolding resumed
  resumed-current = ground arith

  pub resumed-idle_thread : (resumed k next rest).idle_thread ≡ k.idle_thread
  unfolding resumed
  resumed-idle_thread = ground arith

module _ (k : Kernel) (pc : ℕ → Pc) (p : IsParked k pc) (next : ℕ) (rest : List ℕ)
    (q : Picked k next rest) where
  resumed-status :
      (t : ℕ) → status_of (resumed k next rest) t ≡ (if next == t then running else status_of k t)
  unfolding resumed
  resumed-status t = ground arith

  resumed-is_thread :
      (t : ℕ) → status_of (resumed k next rest) t ≢ dying → is_thread (resumed k next rest) t ≡ true
  unfolding resumed
  resumed-is_thread t h = ground (arith, p.lists.alive t, q.living)

  resumed-ready_once :
      (t : ℕ)
      → count t (resumed k next rest).ready_list
        ≡ (if on_ready_list (resumed k next rest) t then 1 else 0)
  resumed-ready_once t =
      rw (resumed-ready_list k next rest, resumed-status t, resumed-idle_thread k next rest)
        (ground (arith, q.gone, q.others t, p.lists.ready_once t))

  resumed-waits_once :
      (t s : ℕ)
      → count t ((resumed k next rest).semas s).waiters
        ≡ (if on_waiters (resumed k next rest) pc t s then 1 else 0)
  resumed-waits_once t s =
      rw (resumed-semas k next rest, resumed-status t)
        (ground (arith, p.lists.waits_once t s, q.not_waiting pc s p.lists))

  resumed-IsOk : IsOk (record { kernel = resumed k next rest; pc = pc })
  resumed-IsOk = record {
    lists = record {
      ready_once = resumed-ready_once;
      waits_once = resumed-waits_once;
      alive = resumed-is_thread;
      idle_alive =
          rw (resumed-idle_thread k next rest, resumed-status k.idle_thread)
            (ground (arith, p.lists.idle_alive));
      idle_runs = rw (resumed-idle_thread k next rest) p.lists.idle_runs;
    };
    current_runs = rw (resumed-current k next rest, resumed-status next) (ground arith);
    only_current =
        λ t. rw (resumed-current k next rest, resumed-status t) (ground (arith, p.none_running t));
  }

-- With no ASSERT in the way `schedule` ends in `resumed`.
module _ (k : Kernel) (next : ℕ) (rest : List ℕ) where
  switch_to-resumed :
      is_running (status_of k k.current) ≡ false
      → is_thread k next ≡ true
      → switch_to k k.current (next, record k { ready_list = rest }) ≡ some (resumed k next rest)
  unfolding switch_to resumed
  switch_to-resumed a t = ground arith

is_running-false : (s : Status) → s ≢ running → is_running s ≡ false
is_running-false running h = absurd (h refl)
is_running-false _ h = refl

-- The thread at the front stands there once, and is ready.
front_ready :
    (k : Kernel) (pc : ℕ → Pc) (l : Lists k pc) (t : ℕ) (rest : List ℕ)
    → k.ready_list ≡ t ∷ rest
    → (count t rest ≡ 0) × (status_of k t ≡ ready)
front_ready k pc l t rest e = ground (arith, l.ready_once t, ap (count t) e)

Picked-front :
    (k : Kernel) (pc : ℕ → Pc) (l : Lists k pc) (t : ℕ) (rest : List ℕ)
    → k.ready_list ≡ t ∷ rest
    → Picked k t rest
Picked-front k pc l t rest e = record {
  gone = (front_ready k pc l t rest e).0;
  others = λ u h. rw e (ground arith);
  living = λ d. ground (arith, front_ready k pc l t rest e);
  not_waiting = λ pc' s l'. ground (arith, front_ready k pc l t rest e);
}

Picked-idle :
    (k : Kernel) (pc : ℕ → Pc) (l : Lists k pc) → k.ready_list ≡ [] → Picked k k.idle_thread []
Picked-idle k pc l e = record {
  gone = refl;
  others = λ t h. rw e refl;
  living = l.idle_alive;
  not_waiting = λ pc' s l'. ground (arith, l'.idle_runs);
}

-- Where `schedule` lands: at the idle thread, or at the front of the run queue.
pub schedule-idle :
    (k : Kernel) (pc : ℕ → Pc) (p : IsParked k pc)
    → k.ready_list ≡ []
    → schedule k ≡ some (resumed k k.idle_thread [])
unfolding schedule resumed
schedule-idle k pc p e = rw e (
    switch_to-resumed k k.idle_thread [] (is_running-false _ (p.none_running _))
      (p.lists.alive _ p.lists.idle_alive))

pub schedule-front :
    (k : Kernel) (pc : ℕ → Pc) (p : IsParked k pc) (t : ℕ) (rest : List ℕ)
    → k.ready_list ≡ t ∷ rest
    → schedule k ≡ some (resumed k t rest)
unfolding schedule resumed
schedule-front k pc p t rest e = rw e (
    switch_to-resumed k t rest (is_running-false _ (p.none_running _))
      (p.lists.alive t (Picked-front k pc p.lists t rest e).living))

schedule-Picked :
    (k : Kernel) (pc : ℕ → Pc) (p : IsParked k pc) (ts : List ℕ)
    → k.ready_list ≡ ts
    → (next : ℕ) × (rest : List ℕ) × (schedule k ≡ some (resumed k next rest)) × Picked k next rest
schedule-Picked k pc p [] e =
    (k.idle_thread, [], schedule-idle k pc p e, Picked-idle k pc p.lists e)
schedule-Picked k pc p (t ∷ rest) e =
    (t, rest, schedule-front k pc p t rest e, Picked-front k pc p.lists t rest e)

-- From a parked kernel `schedule` does not panic, and leaves one thread running.
pub schedule-IsOk :
    (k : Kernel) (pc : ℕ → Pc)
    → IsParked k pc
    → (k' : Kernel) × (schedule k ≡ some k') × IsOk (record { kernel = k'; pc = pc })
schedule-IsOk k pc p =
    let (next, rest, e, q) = schedule-Picked k pc p k.ready_list refl in
    (resumed k next rest, e, resumed-IsOk k pc p next rest q)
