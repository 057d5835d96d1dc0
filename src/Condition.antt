-- ===== src/Condition.antt =====
-- pintos/src/threads/synch.c: condition variables. A waiter is the address of the semaphore in its
-- `semaphore_elem`. `cond_wait` is its first part here, then `lock_release`, `sema_down` on the
-- waiter and `lock_acquire`.
pub mod Broadcast
use ospersonal.Common.{List, Option, [], assert, none, some, suc, zero, ℕ, ◌++◌, ◌>>=◌, ◌>>◌, ◌∷◌}
use ospersonal.Thread.{Kernel}
use ospersonal.Synch.{sema_init, sema_up}
use ospersonal.System.{System}
use ospersonal.Lock.{Locked, lock_held_by_current_thread}

abbrev pub cond_init : List ℕ
cond_init = []

abbrev pub with_kernel : Locked → Kernel → Locked
with_kernel x k = record x { system = record { kernel = k; pc = x.pc } }

unfoldable pub cond_wait_begin : Locked → List ℕ → ℕ → Option (List ℕ × Kernel)
cond_wait_begin x waiters waiter =
    assert (lock_held_by_current_thread x)
    >> some (waiters ++ waiter ∷ [], sema_init x.kernel waiter 0)

unfoldable pub cond_signal : Locked → List ℕ → Option (List ℕ × Kernel)
cond_signal x [] = assert (lock_held_by_current_thread x) >> some ([], x.kernel)
cond_signal x (w ∷ ws) =
    assert (lock_held_by_current_thread x) >> (sema_up x.kernel w >>= λ k. some (ws, k))

-- The loop, with the rounds left first: how it ends, and the kernel before and after each signal.
-- The thread can be preempted between two signals: `others` is what all threads have done by the time
-- that it runs again. `none` is a panic, or a loop that goes on.
unfoldable pub cond_broadcast :
    ℕ → (ℕ → Locked → Locked) → Locked → List ℕ → Option (Locked × List (Kernel × Kernel))
cond_broadcast zero others x waiters = none
cond_broadcast (suc n) others x [] = some (x, [])
cond_broadcast (suc n) others x (w ∷ ws) = cond_signal x (w ∷ ws) >>= λ r.
    cond_broadcast n others (others n (with_kernel x r.1)) r.0 >>= λ later.
    some (later.0, (x.kernel, r.1) ∷ later.1)
