-- ===== src/System/Moved.antt =====
-- pintos/src/threads/thread.c and synch.c: the threads on their way to test a semaphore.
use ospersonal.Common.{
  some_injective, ℕ, ◌+◌, ◌≤◌, ◌≡◌, ◌⊎◌, refl, sym, ap, ◌∙◌, subst, some, List, [], ◌∷◌, ◌++◌,
  if◌then◌else◌, count, arith,
}
use ospersonal.Thread.{Kernel, Semaphore, update, schedule}
use ospersonal.System.{System, Pc, run, is_down}
use ospersonal.System.Invariant.{IsParked}
use ospersonal.System.Schedule.{
  resumed, schedule-idle, schedule-front, resumed-semas, resumed-ready_list, resumed-current,
}

abbrev pub downing : (ℕ → Pc) → ℕ → ℕ → ℕ
downing pc s t = if is_down (pc t) s then 1 else 0

abbrev pub downing_in : (ℕ → Pc) → ℕ → List ℕ → ℕ
downing_in pc s [] = 0
downing_in pc s (t ∷ ts) = downing pc s t + downing_in pc s ts

-- The threads that can run and will test the semaphore.
abbrev pub woken : System → ℕ → ℕ
woken x s = downing_in x.pc s x.ready_list + downing x.pc s x.current

-- Where threads still wait, each unit of the semaphore has a woken thread to take it.
abbrev pub NoLostWakeup : System → ℕ → Type 0
NoLostWakeup x s = ((x.semas s).waiters ≡ []) ⊎ ((x.semas s).value ≤ woken x s)

pub downing_in-append :
    (pc : ℕ → Pc) (s : ℕ) (ts us : List ℕ)
    → downing_in pc s (ts ++ us) ≡ downing_in pc s ts + downing_in pc s us
downing_in-append pc s [] us = omega arith
downing_in-append pc s (t ∷ ts) us = omega (arith, downing_in-append pc s ts us)

-- A thread that is not in the list has no say.
pub downing_in-update :
    (pc : ℕ → Pc) (s t : ℕ) (p : Pc) (ts : List ℕ)
    → count t ts ≡ 0
    → downing_in (update pc t p) s ts ≡ downing_in pc s ts
downing_in-update pc s t p [] h = refl
downing_in-update pc s t p (u ∷ us) h = ground (arith, downing_in-update pc s t p us)

-- The switch to the next thread keeps the semaphores and the number of woken threads.
pub record Moved (k : Kernel) (pc : ℕ → Pc) (k' : Kernel) : Type 0 where
  pub same_sema : (s : ℕ) → k'.semas s ≡ k.semas s
  pub same_woken :
      (s : ℕ)
      → downing_in pc s k'.ready_list + downing pc s k'.current ≡ downing_in pc s k.ready_list

Moved-idle :
    (k : Kernel) (pc : ℕ → Pc)
    → pc k.idle_thread ≡ run
    → k.ready_list ≡ []
    → Moved k pc (resumed k k.idle_thread [])
Moved-idle k pc r e = record {
  same_sema = λ s. ap (λ (f : ℕ → Semaphore). f s) (resumed-semas k k.idle_thread []);
  same_woken = λ s.
      rw (resumed-ready_list k k.idle_thread [], resumed-current k k.idle_thread [])
        (ground (arith, r, ap (downing_in pc s) e));
}

Moved-front :
    (k : Kernel) (pc : ℕ → Pc) (t : ℕ) (rest : List ℕ)
    → k.ready_list ≡ t ∷ rest
    → Moved k pc (resumed k t rest)
Moved-front k pc t rest e = record {
  same_sema = λ s. ap (λ (f : ℕ → Semaphore). f s) (resumed-semas k t rest);
  same_woken = λ s.
      rw (resumed-ready_list k t rest, resumed-current k t rest)
        (omega (arith, ap (downing_in pc s) e));
}

schedule-Moved_of :
    (k : Kernel) (pc : ℕ → Pc) (p : IsParked k pc) (ts : List ℕ)
    → k.ready_list ≡ ts
    → (k' : Kernel) × (schedule k ≡ some k') × Moved k pc k'
schedule-Moved_of k pc p [] e =
    (resumed k k.idle_thread [], schedule-idle k pc p e, Moved-idle k pc p.lists.idle_runs e)
schedule-Moved_of k pc p (t ∷ rest) e =
    (resumed k t rest, schedule-front k pc p t rest e, Moved-front k pc t rest e)

pub schedule-Moved :
    (k : Kernel) (pc : ℕ → Pc) {k' : Kernel} → IsParked k pc → schedule k ≡ some k' → Moved k pc k'
schedule-Moved k pc {k'} p e =
    let (j, e', m) = schedule-Moved_of k pc p k.ready_list refl in
    subst (Moved k pc) (some_injective (sym e' ∙ e)) m
