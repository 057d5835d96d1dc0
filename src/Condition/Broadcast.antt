-- ===== src/Condition/Broadcast.antt =====
-- pintos/src/threads/synch.c: cond_broadcast and the semaphores of the waiters.
use ospersonal.Common.{
  List, Option, [], ap, arith, assert-true, bind_some, if◌then◌else◌, length, refl, some, suc, true,
  zero, ℕ, ◌+◌, ◌<◌, ◌==◌, ◌>>=◌, ◌∙◌, ◌∷◌, ◌≡◌,
}
use ospersonal.Thread.{Kernel, thread_unblock}
use ospersonal.Synch.{sema_up, wake_front, set_sema}
use ospersonal.System.{Reach}
use ospersonal.System.Safety.{Reach-IsOk}
use ospersonal.System.Invariant.{IsOk}
use ospersonal.System.Wake.{sema_up-Runs}
use ospersonal.Lock.{Locked, held_by, lock_held_by_current_thread}
use ospersonal.Condition.{with_kernel, cond_signal, cond_broadcast}

sema_up-values :
    (k k' : Kernel) (s r : ℕ)
    → sema_up k s ≡ some k'
    → ((k'.semas r).value ≡ (k.semas r).value + (if r == s then 1 else 0))
      × (k'.current ≡ k.current)
unfolding sema_up wake_front thread_unblock
sema_up-values k k' s r e = go (k.semas s).waiters refl e
  where
    go :
        (ts : List ℕ)
        → (k.semas s).waiters ≡ ts
        → (wake_front k s ts >>= λ j.
            some (set_sema j s (record (j.semas s) { value = (j.semas s).value + 1 })))
          ≡ some k'
        → ((k'.semas r).value ≡ (k.semas r).value + (if r == s then 1 else 0))
          × (k'.current ≡ k.current)
    go [] w e = (ground arith, ground arith)
    go (t ∷ ts) w e = (ground arith, ground arith)

-- Where the thread runs again, the lists are in order and it holds the lock still.
pub record Resumes (x y : Locked) : Type 0 where
  pub reached : Reach x.system y.system
  pub same_current : y.current ≡ x.current
  pub same_holder : y.holder ≡ x.holder

-- A signal raises the semaphore of its waiter by one unit and no other.
abbrev pub Raises : ℕ → Kernel × Kernel → Type 0
Raises w k = (s : ℕ) → (k.1.semas s).value ≡ (k.0.semas s).value + (if s == w then 1 else 0)

-- A signal for each waiter, in their order, and no more.
pub data InOrder : List ℕ → List (Kernel × Kernel) → Type 0 where
  all_done : InOrder [] []
  then_next :
      (w : ℕ) (ws : List ℕ) (k : Kernel × Kernel) (ks : List (Kernel × Kernel))
      → Raises w k
      → InOrder ws ks
      → InOrder (w ∷ ws) (k ∷ ks)

-- While the invariant on the lists holds and the thread holds the lock, a broadcast ends with no panic
-- after one signal for each waiter, in the order of the waiters, and each signal raises the semaphore
-- of its waiter by one unit and no other; that is so for whatever steps the threads take between two
-- signals while the thread holds the lock, and at the end it holds it and the invariant holds.
pub cond_broadcast-InOrder :
    (rounds : ℕ) (others : ℕ → Locked → Locked) (x : Locked) (waiters : List ℕ)
    → ((n : ℕ) (y : Locked) → Resumes y (others n y))
    → IsOk x.system
    → lock_held_by_current_thread x ≡ true
    → length waiters < rounds
    → (y : Locked) × (signals : List (Kernel × Kernel)) × (cond_broadcast rounds others x waiters
        ≡ some (y, signals))
      × InOrder waiters signals
      × IsOk y.system
      × (lock_held_by_current_thread y ≡ true)
unfolding cond_broadcast cond_signal lock_held_by_current_thread
cond_broadcast-InOrder zero others x waiters back v h enough = absurd (omega arith)
cond_broadcast-InOrder (suc n) others x [] back v h enough = (x, [], refl, all_done, v, h)
cond_broadcast-InOrder (suc n) others x (w ∷ ws) back v h enough =
    let (k, e, ok) = sema_up-Runs x.system v w in
    let value = λ (s : ℕ). sema_up-values x.kernel k w s e in
    let b = back n (with_kernel x k) in
    let y = others n (with_kernel x k) in
    let still : lock_held_by_current_thread y ≡ true =
      ap (λ (u : Option ℕ). held_by u y.current) b.same_holder
      ∙ ap (λ (t : ℕ). held_by x.holder t) (b.same_current ∙ (value 0).1)
      ∙ h in
    let (z, signals, e', order, ok', held) =
      cond_broadcast-InOrder n others y ws back (Reach-IsOk b.reached ok) still (omega arith) in
    let signalled : cond_signal x (w ∷ ws) ≡ some (ws, k) = assert-true _ h ∙ bind_some _ e in
    (
      z,
      (x.kernel, k) ∷ signals,
      bind_some _ signalled ∙ bind_some _ e',
      then_next w ws (x.kernel, k) signals (λ s. (value s).0) order,
      ok',
      held,
    )
