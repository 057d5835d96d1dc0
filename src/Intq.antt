-- ===== src/Intq.antt =====
-- pintos/src/devices/intq.c: the queue of bytes between an interrupt handler and the threads. Interrupts
-- are off in every function, so a call is one step once its loop is over; a call that has to wait
-- answers `none` inside `some`. `none` is a failed ASSERT.
pub mod Ring
pub mod Queue
use ospersonal.Common.{
  ℕ, ◌+◌, ◌%◌, ◌≡◌, Bool, true, false, not, Option, none, some, List, ◌==◌, if◌then◌else◌, ◌>>=◌,
  ◌>>◌, assert, get_or, set, replicate,
}
use ospersonal.Thread.{Kernel, thread_block, thread_unblock}

abbrev pub intq_bufsize : ℕ
intq_bufsize = 64

-- `struct intq`, without the lock of the threads that wait.
pub record Intq : Type 0 where
  pub not_full : Option ℕ
  pub not_empty : Option ℕ
  pub buf : List ℕ
  pub head : ℕ
  pub tail : ℕ

-- `buf` is what the memory holds.
abbrev pub intq_init : List ℕ → Intq
intq_init buf = record { not_full = none; not_empty = none; buf = buf; head = 0; tail = 0 }

-- `next`.
abbrev pub next_pos : ℕ → ℕ
next_pos pos = (pos + 1) % intq_bufsize

abbrev pub intq_empty : Intq → Bool
intq_empty q = q.head == q.tail

abbrev pub intq_full : Intq → Bool
intq_full q = next_pos q.head == q.tail

-- `signal` on a waiter: wakes it, if there is one.
unfoldable pub wake : Kernel → Option ℕ → Option Kernel
wake k none = some k
wake k (some t) = thread_unblock k t

unfoldable pub signal_not_full : Intq → Kernel → Option (Intq × Kernel)
signal_not_full q k =
    assert (not (intq_full q))
    >> (wake k q.not_full >>= λ k'. some (record q { not_full = none }, k'))

unfoldable pub signal_not_empty : Intq → Kernel → Option (Intq × Kernel)
signal_not_empty q k =
    assert (not (intq_empty q))
    >> (wake k q.not_empty >>= λ k'. some (record q { not_empty = none }, k'))

-- `wait` on each of the conditions: the thread sleeps.
unfoldable pub wait_not_empty : Intq → Kernel → Option (Intq × Kernel)
wait_not_empty q k =
    assert (intq_empty q)
    >> (thread_block k >>= λ k'. some (record q { not_empty = some k.current }, k'))

unfoldable pub wait_not_full : Intq → Kernel → Option (Intq × Kernel)
wait_not_full q k =
    assert (intq_full q)
    >> (thread_block k >>= λ k'. some (record q { not_full = some k.current }, k'))

unfoldable pub intq_getc : Intq → Kernel → Option (Option (ℕ × (Intq × Kernel)))
intq_getc q k =
    if intq_empty q
    then some none
    else (signal_not_full (record q { tail = next_pos q.tail }) k >>= λ r.
        some (some (get_or q.buf q.tail 0, r)))

unfoldable pub intq_putc : Intq → Kernel → ℕ → Option (Option (Intq × Kernel))
intq_putc q k byte =
    if intq_full q
    then some none
    else (signal_not_empty (record q { buf = set q.buf q.head byte; head = next_pos q.head }) k
        >>= λ r. some (some r))
