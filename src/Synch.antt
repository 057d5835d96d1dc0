-- ===== src/Synch.antt =====
-- pintos/src/threads/synch.c: semaphores, over the kernel's state. `sema_down` is a loop that sleeps:
-- `sema_down_round` is one round of it, up to where the thread has the unit (`true`) or has been
-- switched away from (`false`).
use ospersonal.Common.{
  Bool, List, Option, [], false, if◌then◌else◌, some, true, ℕ, ◌++◌, ◌+◌, ◌-◌, ◌==◌, ◌>>=◌, ◌∷◌,
}
use ospersonal.Thread.{Kernel, Semaphore, update, thread_current, thread_block, thread_unblock}

abbrev pub set_sema : Kernel → ℕ → Semaphore → Kernel
set_sema k s v = record k { semas = update k.semas s v }

unfoldable pub sema_init : Kernel → ℕ → ℕ → Kernel
sema_init k s value = set_sema k s (record { value = value; waiters = [] })

unfoldable pub sema_down_round : Kernel → ℕ → Option (Bool × Kernel)
sema_down_round k s =
    let sema = k.semas s in
    let slept = thread_current k >>= λ cur.
    thread_block (set_sema k s (record sema { waiters = sema.waiters ++ cur ∷ [] })) in
    if sema.value == 0
    then (slept >>= λ k'. some (false, k'))
    else some (true, set_sema k s (record sema { value = sema.value - 1 }))

unfoldable pub sema_try_down : Kernel → ℕ → Bool × Kernel
sema_try_down k s =
    let sema = k.semas s in
    if sema.value == 0
    then (false, k)
    else (true, set_sema k s (record sema { value = sema.value - 1 }))

unfoldable pub wake_front : Kernel → ℕ → List ℕ → Option Kernel
wake_front k s [] = some k
wake_front k s (t ∷ rest) = thread_unblock (set_sema k s (record (k.semas s) { waiters = rest })) t

unfoldable pub sema_up : Kernel → ℕ → Option Kernel
unfolding wake_front
sema_up k s = wake_front k s (k.semas s).waiters >>= λ k'.
    some (set_sema k' s (record (k'.semas s) { value = (k'.semas s).value + 1 }))
