-- ===== src/Lock/Exclusion.antt =====
-- pintos/src/threads/synch.c: who has the lock, step by step.
use ospersonal.Common.{
  >>=-eq-some, Bool, List, [], ap, arith, false, fun_ext, inl, inr, none, some, sym, true, ℕ, ◌+◌,
  ◌-◌, ◌<◌, ◌∙◌, ◌∷◌, ◌≡◌, ◌≢◌, ◌≤◌, ◌⊎◌,
}
use ospersonal.Thread.{Kernel, Semaphore, update, thread_current, thread_unblock}
use ospersonal.Synch.{sema_down_round, sema_try_down, sema_up, wake_front}
use ospersonal.System.{System, run, down, after_round}
use ospersonal.System.Invariant.{IsOk}
use ospersonal.System.Steps.{thread_current-IsOk, thread_block-schedule}
use ospersonal.System.Semaphores.{queued, queued-IsParked, sema_down_round_cases}
use ospersonal.System.Moved.{schedule-Moved}
use ospersonal.System.Safety.{down-ne-idle}
use ospersonal.Lock.{
  Locked, outside, acquiring, entering, inside, leaving, owns, lock_held_by_current_thread,
  lock_acquire_begin, lock_acquire_end, lock_try_acquire_begin, lock_release_begin, phase_after,
  phase_after_try, LockStep, acquires, resumes, tries, enters, releases, leaves, others,
}

-- At most one thread owns the lock, its semaphore is 0 while one does and never above 1, `holder` is
-- the thread inside, and a thread that sleeps on the semaphore does not own the lock.
pub record IsExclusive (lock : ℕ) (x : Locked) : Type 0 where
  pub one_owner : (t u : ℕ) → owns (x.phase t) ≡ true → owns (x.phase u) ≡ true → t ≡ u
  pub owned_zero : (t : ℕ) → owns (x.phase t) ≡ true → (x.semas lock).value ≡ 0
  pub at_most_one : (x.semas lock).value ≤ 1
  pub holder_inside : (t : ℕ) → x.holder ≡ some t → x.phase t ≡ inside
  pub inside_holder : (t : ℕ) → x.phase t ≡ inside → x.holder ≡ some t
  pub asleep_outside : (t : ℕ) → x.pc t ≡ down lock → x.phase t ≡ acquiring

-- What a round of `sema_down` does to the semaphore's value.
round_value :
    (x : System) (s : ℕ) {done : Bool} {k : Kernel}
    → IsOk x
    → x.current ≢ x.idle_thread
    → sema_down_round x.kernel s ≡ some (done, k)
    → ((0 < (x.semas s).value) × (done ≡ true) × ((k.semas s).value ≡ (x.semas s).value - 1))
      ⊎ ((done ≡ false) × ((k.semas s).value ≡ (x.semas s).value))
unfolding queued thread_current
round_value x s v n e = elim (sema_down_round_cases x.kernel s e) [
  | inl (h, d, k) ↦ inl (h, d, rw k (ground arith))
  | inr (h, d, b) ↦
      (let b' = sym (thread_block-schedule (queued x v s) (thread_current-IsOk x v)) ∙ b in
        let m = schedule-Moved _ (update x.pc x.current (down s)) (queued-IsParked x v s n) b' in
        inr (d, ap (λ (q : Semaphore). q.value) (m.same_sema s) ∙ ground arith))
]

up_value_of :
    (k : Kernel) (s : ℕ) (ts : List ℕ) {k' : Kernel}
    → wake_front k s ts ≡ some k'
    → (k'.semas s).value ≡ (k.semas s).value
unfolding wake_front thread_unblock
up_value_of k s [] e = ground arith
up_value_of k s (t ∷ ts) e = ground arith

up_value :
    (k : Kernel) (s : ℕ) {k' : Kernel}
    → sema_up k s ≡ some k'
    → (k'.semas s).value ≡ (k.semas s).value + 1
unfolding sema_up
up_value k s e =
    let (k1, e1, e2) = >>=-eq-some (wake_front k s (k.semas s).waiters) _ e in
    ground (arith, up_value_of k s (k.semas s).waiters e1, e2)

module _ (lock : ℕ) (x : Locked) (w : IsExclusive lock x) (y : System) where
  -- The current thread takes the semaphore's unit.
  granted :
      0 < (x.semas lock).value
      → (y.semas lock).value ≡ (x.semas lock).value - 1
      → ((t : ℕ) → y.pc t ≡ down lock → (x.pc t ≡ down lock) × (t ≢ x.current))
      → IsExclusive lock
          (record { system = y; holder = x.holder; phase = update x.phase x.current entering })
  granted h e p = record {
    one_owner = λ t u. ground (arith, w.owned_zero t, w.owned_zero u);
    owned_zero = λ t. ground (arith, w.at_most_one);
    at_most_one = ground (arith, w.at_most_one);
    holder_inside = λ t. ground (arith, w.holder_inside t, w.owned_zero t);
    inside_holder = λ t. ground (arith, w.inside_holder t);
    asleep_outside = λ t d. ground (arith, p t d, w.asleep_outside t);
  }

  -- The current thread goes to sleep on the semaphore.
  waiting :
      owns (x.phase x.current) ≡ false
      → (y.semas lock).value ≡ (x.semas lock).value
      → ((t : ℕ) → y.pc t ≡ down lock → (t ≡ x.current) ⊎ (x.pc t ≡ down lock))
      → IsExclusive lock
          (record { system = y; holder = x.holder; phase = update x.phase x.current acquiring })
  waiting o e p = record {
    one_owner = λ t u. ground (arith, w.one_owner t u);
    owned_zero = λ t. ground (arith, w.owned_zero t);
    at_most_one = ground (arith, w.at_most_one);
    holder_inside = λ t. ground (arith, w.holder_inside t);
    inside_holder = λ t. ground (arith, w.inside_holder t);
    asleep_outside = λ t d. ground (arith, p t d, w.asleep_outside t);
  }

  -- Nothing happens to the lock.
  kept :
      (y.semas lock).value ≡ (x.semas lock).value
      → ((t : ℕ) → y.pc t ≡ down lock → x.pc t ≡ down lock)
      → IsExclusive lock (record { system = y; holder = x.holder; phase = x.phase })
  kept e p = record {
    one_owner = w.one_owner;
    owned_zero = λ t. ground (arith, w.owned_zero t);
    at_most_one = ground (arith, w.at_most_one);
    holder_inside = w.holder_inside;
    inside_holder = w.inside_holder;
    asleep_outside = λ t d. w.asleep_outside t (p t d);
  }

  -- The current thread gives the unit back.
  returned :
      x.phase x.current ≡ leaving
      → (y.semas lock).value ≡ (x.semas lock).value + 1
      → ((t : ℕ) → y.pc t ≡ down lock → x.pc t ≡ down lock)
      → IsExclusive lock
          (record { system = y; holder = x.holder; phase = update x.phase x.current outside })
  returned o e p = record {
    one_owner = λ t u. ground (arith, w.one_owner t u);
    owned_zero = λ t. ground (arith, w.one_owner t x.current);
    at_most_one = ground (arith, w.owned_zero x.current);
    holder_inside = λ t. ground (arith, w.holder_inside t);
    inside_holder = λ t. ground (arith, w.inside_holder t);
    asleep_outside = λ t d. ground (arith, p t d, w.asleep_outside t);
  }

pub release_result :
    (x : Locked) {y : Locked}
    → lock_release_begin x ≡ some y
    → (x.holder ≡ some x.current)
      × (y ≡ record x { holder = none; phase = update x.phase x.current leaving })
unfolding lock_release_begin lock_held_by_current_thread
release_result x e = ground arith

module _ (lock : ℕ) (x : Locked) (w : IsExclusive lock x) where
  entered : x.phase x.current ≡ entering → IsExclusive lock (lock_acquire_end x)
  unfolding lock_acquire_end
  entered h = record {
    one_owner = λ t u. ground (arith, w.one_owner t u);
    owned_zero = λ t. ground (arith, w.owned_zero t);
    at_most_one = w.at_most_one;
    holder_inside = λ t. ground arith;
    inside_holder = λ t. ground (arith, w.one_owner t x.current);
    asleep_outside = λ t d. ground (arith, w.asleep_outside t);
  }

  vacated :
      x.holder ≡ some x.current
      → IsExclusive lock (record x { holder = none; phase = update x.phase x.current leaving })
  vacated h = record {
    one_owner = λ t u. ground (arith, w.one_owner t u, w.holder_inside x.current);
    owned_zero =
        λ t. ground (arith, w.owned_zero t, w.owned_zero x.current, w.holder_inside x.current);
    at_most_one = w.at_most_one;
    holder_inside = λ t. ground arith;
    inside_holder = λ t. ground (arith, w.inside_holder t);
    asleep_outside = λ t d. ground (arith, w.asleep_outside t, w.holder_inside x.current);
  }

  released : {y : Locked} → lock_release_begin x ≡ some y → IsExclusive lock y
  released e = let (h, same) = release_result x e in rw same (vacated h)

  -- A round of `sema_down` on the lock's semaphore, by a thread that does not own the lock.
  rounds :
      {k : Kernel} {done : Bool}
      → IsOk x.system
      → x.current ≢ x.idle_thread
      → owns (x.phase x.current) ≡ false
      → sema_down_round x.kernel lock ≡ some (done, k)
      → IsExclusive lock (record {
        system = record { kernel = k; pc = update x.pc x.current (after_round done (down lock)) };
        holder = x.holder;
        phase = update x.phase x.current (phase_after done);
      })
  rounds {k} v n o e = elim (round_value x.system lock v n e) [
    | inl (h, d, val) ↦ rw d (
        granted lock x w (record { kernel = k; pc = update x.pc x.current run }) h val
          (λ t p. ground arith))
    | inr (d, val) ↦ rw d (
        waiting lock x w (record { kernel = k; pc = update x.pc x.current (down lock) }) o val
          (λ t p. ground arith))
  ]

  try_result :
      {k : Kernel} {done : Bool}
      → lock_try_acquire_begin x lock ≡ some (done, k)
      → ((done ≡ true)
          × (0 < (x.semas lock).value)
          × ((k.semas lock).value ≡ (x.semas lock).value - 1))
        ⊎ ((done ≡ false) × ((k.semas lock).value ≡ (x.semas lock).value))
  unfolding sema_try_down lock_try_acquire_begin
  try_result e = ground arith

  tried :
      {k : Kernel} {done : Bool}
      → x.pc x.current ≡ run
      → x.phase x.current ≡ outside
      → lock_try_acquire_begin x lock ≡ some (done, k)
      → IsExclusive lock (record {
        system = record { kernel = k; pc = x.pc };
        holder = x.holder;
        phase = update x.phase x.current (phase_after_try done);
      })
  tried {k} r o e = elim (try_result e) [
    | inl (d, h, val) ↦
        rw d (granted lock x w (record { kernel = k; pc = x.pc }) h val (λ t p. ground arith))
    | inr (d, val) ↦ rw (d, same) (kept lock x w (record { kernel = k; pc = x.pc }) val (λ t p. p))
  ]
    where
      same : update x.phase x.current outside ≡ x.phase
      same = fun_ext λ t. ground arith

pub lock_acquire_round :
    (x : Locked) (lock : ℕ) {k : Kernel} {done : Bool}
    → lock_acquire_begin x lock ≡ some (done, k)
    → sema_down_round x.kernel lock ≡ some (done, k)
unfolding lock_acquire_begin
lock_acquire_round x lock e = ground arith

-- Each step keeps the lock exclusive.
pub LockStep-IsExclusive :
    (lock : ℕ) {x y : Locked}
    → IsOk x.system
    → LockStep lock x y
    → IsExclusive lock x
    → IsExclusive lock y
LockStep-IsExclusive lock {x} v (acquires r n o e) w =
    rounds lock x w v n (ground arith) (lock_acquire_round x lock e)
LockStep-IsExclusive lock {x} v (resumes p e) w =
    rounds lock x w v (down-ne-idle x.system lock v p) (ground (arith, w.asleep_outside x.current))
      e
LockStep-IsExclusive lock {x} v (tries r o e) w = tried lock x w r o e
LockStep-IsExclusive lock {x} v (enters r h) w = entered lock x w h
LockStep-IsExclusive lock {x} v (releases r e) w = released lock x w e
LockStep-IsExclusive lock {x} v (leaves {k} r h e) w =
    returned lock x w (record { kernel = k; pc = x.pc }) h (up_value x.kernel lock e) (λ t d. d)
LockStep-IsExclusive lock {x} v (others {y} st e p) w = kept lock x w y e (λ t. (p t).1)
