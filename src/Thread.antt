-- ===== src/Thread.antt =====
-- pintos/src/threads/thread.c: threads, the run queue and the scheduler. A thread is named by the
-- address of its page, as the code does. Each operation is a stretch of code that runs with
-- interrupts off, so it is one function on the kernel's state; `none` is a failed ASSERT.
-- `switch_threads` is the change of `current`.
use ospersonal.Common.{
  Bool, List, Option, [], assert, false, if◌then◌else◌, leb, none, not, some, true, ℕ, ◌&&◌, ◌++◌,
  ◌%◌, ◌+◌, ◌==◌, ◌>>=◌, ◌>>◌, ◌∷◌,
}

pub data Status : Type 0 where
  running ready blocked dying : Status

abbrev pub is_running : Status → Bool
is_running running = true
is_running _ = false

abbrev pub is_ready : Status → Bool
is_ready ready = true
is_ready _ = false

abbrev pub is_blocked : Status → Bool
is_blocked blocked = true
is_blocked _ = false

abbrev pub is_dying : Status → Bool
is_dying dying = true
is_dying _ = false

-- `magic` says whether the member holds THREAD_MAGIC, `pagedir` whether it is not NULL.
pub record Thread : Type 0 where
  pub tid : ℕ
  pub status : Status
  pub priority : ℕ
  pub pagedir : Bool
  pub magic : Bool

pub record Semaphore : Type 0 where
  pub value : ℕ
  pub waiters : List ℕ

-- The static variables of thread.c, the thread pages, and the semaphores by address.
pub record Kernel : Type 0 where
  pub threads : ℕ → Thread
  pub semas : ℕ → Semaphore
  pub ready_list : List ℕ
  pub all_list : List ℕ
  pub current : ℕ
  pub idle_thread : ℕ
  pub initial_thread : ℕ
  pub next_tid : ℕ
  pub thread_ticks : ℕ
  pub idle_ticks : ℕ
  pub kernel_ticks : ℕ
  pub user_ticks : ℕ

abbrev pub update {ℓ} : {A : Type ℓ} → (ℕ → A) → ℕ → A → ℕ → A
update f p v q = if p == q then v else f q

abbrev pub status_of : Kernel → ℕ → Status
status_of k t = (k.threads t).status

abbrev pub set_status : Kernel → ℕ → Status → Kernel
set_status k t s = record k { threads = update k.threads t (record (k.threads t) { status = s }) }

abbrev pub is_thread : Kernel → ℕ → Bool
is_thread k t = not (t == 0) && (k.threads t).magic

abbrev pub time_slice : ℕ
time_slice = 4

-- Unlinks one thread from a list of threads.
unfoldable pub list_remove : ℕ → List ℕ → List ℕ
list_remove t [] = []
list_remove t (u ∷ us) = if t == u then us else u ∷ list_remove t us

unfoldable pub thread_unblock : Kernel → ℕ → Option Kernel
thread_unblock k t = do
  assert (is_thread k t)
  assert (is_blocked (status_of k t))
  some (set_status (record k { ready_list = k.ready_list ++ t ∷ [] }) t ready)

pop_ready : Kernel → List ℕ → ℕ × Kernel
pop_ready k [] = (k.idle_thread, k)
pop_ready k (t ∷ rest) = (t, record k { ready_list = rest })

unfoldable pub next_thread_to_run : Kernel → ℕ × Kernel
unfolding pop_ready
next_thread_to_run k = pop_ready k k.ready_list

-- The page of a dead thread goes back to the allocator, which overwrites it.
abbrev pub free_thread_page : Kernel → ℕ → Kernel
free_thread_page k t = record k {
  threads = update k.threads t (record (k.threads t) { status = dying; magic = false });
}

-- `prev` is the thread switched from, none for NULL.
unfoldable pub thread_schedule_tail : Kernel → Option ℕ → Option Kernel
thread_schedule_tail k prev =
    let k' = record (set_status k k.current running) { thread_ticks = 0 } in
    elim prev [
      | none ↦ some k'
      | some p ↦
          if is_dying (status_of k' p) && not (p == k.initial_thread)
          then assert (not (p == k.current)) >> some (free_thread_page k' p)
          else some k'
    ]

unfoldable pub switch_to : Kernel → ℕ → ℕ × Kernel → Option Kernel
unfolding thread_schedule_tail
switch_to k cur (next, k') = do
  assert (not (is_running (status_of k cur)))
  assert (is_thread k next)
  thread_schedule_tail (record k' { current = next }) (if cur == next then none else some cur)

unfoldable pub schedule : Kernel → Option Kernel
unfolding switch_to next_thread_to_run
schedule k = switch_to k k.current (next_thread_to_run k)

-- With its two ASSERTs.
unfoldable pub thread_current : Kernel → Option ℕ
thread_current k = do
  assert (is_thread k k.current)
  assert (is_running (status_of k k.current))
  some k.current

unfoldable pub thread_block : Kernel → Option Kernel
thread_block k = thread_current k >>= λ cur. schedule (set_status k cur blocked)

unfoldable pub thread_yield : Kernel → Option Kernel
thread_yield k = thread_current k >>= λ cur.
    let queued =
      if cur == k.idle_thread then k else record k { ready_list = k.ready_list ++ cur ∷ [] } in
    schedule (set_status queued cur ready)

-- The part of `thread_exit` after `process_exit`.
unfoldable pub thread_exit : Kernel → Option Kernel
thread_exit k = thread_current k >>= λ cur.
    let k' = record k { all_list = list_remove cur k.all_list } in
    thread_current k' >>= λ again. schedule (set_status k' again dying)

abbrev pub pri_max : ℕ
pri_max = 63

-- The page is zeroed first; the new thread is blocked until `thread_unblock`.
unfoldable pub init_thread : Kernel → ℕ → ℕ → Option Kernel
init_thread k t priority = do
  assert (not (t == 0))
  assert (leb priority pri_max)
  some (record k {
    threads =
        update k.threads t (record {
          tid = 0;
          status = blocked;
          priority = priority;
          pagedir = false;
          magic = true;
        });
    all_list = k.all_list ++ t ∷ [];
  })

-- The stack pointer that the frame moves is not in the record of a thread.
abbrev pub alloc_frame : Kernel → ℕ → ℕ → Option Kernel
alloc_frame k t size = do assert (is_thread k t); assert (size % 4 == 0); some k

-- `page` is what `palloc_get_page` returned. The answer is the new tid, none for TID_ERROR. The
-- thread starts with the tid that `allocate_tid` gives. All of it is one step: `tid_lock`, which can
-- make the caller sleep, and the malloc of the process_share, which the code does not check, are left
-- out.
unfoldable pub thread_create : Kernel → Option ℕ → ℕ → Option (Option ℕ × Kernel)
thread_create k none priority = some (none, k)
thread_create k (some t) priority = init_thread k t priority >>= λ k'.
    let named = record k' {
      threads = update k'.threads t (record (k'.threads t) { tid = k.next_tid });
      next_tid = k.next_tid + 1;
    } in
    alloc_frame named t 12 >>= λ k1. alloc_frame k1 t 4 >>= λ k2.
    alloc_frame k2 t 28 >>= λ k3. thread_unblock k3 t >>= λ k''. some (some k.next_tid, k'')

-- Whether the handler asks for a yield on return (`intr_yield_on_return`).
unfoldable pub thread_tick : Kernel → Bool × Kernel
thread_tick k =
    let counted =
      if k.current == k.idle_thread
      then record k { idle_ticks = k.idle_ticks + 1 }
      else if (k.threads k.current).pagedir
      then record k { user_ticks = k.user_ticks + 1 }
      else record k { kernel_ticks = k.kernel_ticks + 1 } in
    (leb time_slice (k.thread_ticks + 1), record counted { thread_ticks = k.thread_ticks + 1 })

-- The first thread of `all_list` with the tid; none for NULL.
find_tid : Kernel → ℕ → List ℕ → Option ℕ
find_tid k tid [] = none
find_tid k tid (t ∷ ts) = if (k.threads t).tid == tid then some t else find_tid k tid ts

unfoldable pub get_thread : Kernel → ℕ → Option ℕ
unfolding find_tid
get_thread k tid = find_tid k tid k.all_list
