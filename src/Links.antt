-- ===== src/Links.antt =====
-- pintos/src/lib/kernel/list.c: lists whose elements hold the links. Memory is the two pointers of each
-- element by its address, 0 is NULL, and `none` is a failed ASSERT. `less` is a test of two addresses.
pub mod Chains
pub mod Lists
pub mod Insert
pub mod Remove
pub mod Edits
use ospersonal.Common.{
  Bool, Option, assert, if◌then◌else◌, none, not, some, suc, zero, ℕ, ◌&&◌, ◌+◌, ◌==◌, ◌>>=◌, ◌>>◌,
  ◌||◌,
}

pub record Links : Type 0 where
  pub prev : ℕ → ℕ
  pub next : ℕ → ℕ

-- `struct list` by the addresses of its two ends.
pub record KernelList : Type 0 where
  pub head : ℕ
  pub tail : ℕ

abbrev pub update : (ℕ → ℕ) → ℕ → ℕ → ℕ → ℕ
update f a v x = if x == a then v else f x

abbrev pub set_prev : Links → ℕ → ℕ → Links
set_prev h e v = record h { prev = update h.prev e v }

abbrev pub set_next : Links → ℕ → ℕ → Links
set_next h e v = record h { next = update h.next e v }

abbrev pub is_head : Links → ℕ → Bool
is_head h e = not (e == 0) && (h.prev e == 0) && not (h.next e == 0)

abbrev pub is_interior : Links → ℕ → Bool
is_interior h e = not (e == 0) && not (h.prev e == 0) && not (h.next e == 0)

abbrev pub is_tail : Links → ℕ → Bool
is_tail h e = not (e == 0) && not (h.prev e == 0) && (h.next e == 0)

unfoldable pub list_init : Links → KernelList → Links
list_init h l =
    set_next (set_prev (set_next (set_prev h l.head 0) l.head l.tail) l.tail l.head) l.tail 0

abbrev pub list_begin : Links → KernelList → ℕ
list_begin h l = h.next l.head

abbrev pub list_end : KernelList → ℕ
list_end l = l.tail

unfoldable pub list_next : Links → ℕ → Option ℕ
list_next h e = assert (is_head h e || is_interior h e) >> some (h.next e)

unfoldable pub list_prev : Links → ℕ → Option ℕ
list_prev h e = assert (is_interior h e || is_tail h e) >> some (h.prev e)

-- The four writes of `list_insert`, in their order.
abbrev pub link_before : Links → ℕ → ℕ → Links
link_before h before elem =
    let h1 = set_prev h elem (h.prev before) in
    let h2 = set_next h1 elem before in
    let h3 = set_next h2 (h2.prev before) elem in set_prev h3 before elem

unfoldable pub list_insert : Links → ℕ → ℕ → Option Links
list_insert h before elem =
    assert (is_interior h before || is_tail h before)
    >> (assert (not (elem == 0)) >> some (link_before h before elem))

unfoldable pub list_push_front : Links → KernelList → ℕ → Option Links
list_push_front h l elem = list_insert h (list_begin h l) elem

unfoldable pub list_push_back : Links → KernelList → ℕ → Option Links
list_push_back h l elem = list_insert h (list_end l) elem

abbrev pub unlink : Links → ℕ → Links
unlink h elem =
    let h1 = set_next h (h.prev elem) (h.next elem) in set_prev h1 (h1.next elem) (h1.prev elem)

-- The links afterwards, and the element that followed.
unfoldable pub list_remove : Links → ℕ → Option (Links × ℕ)
list_remove h elem = assert (is_interior h elem) >> some (unlink h elem, (unlink h elem).next elem)

abbrev pub list_empty : Links → KernelList → Bool
list_empty h l = list_begin h l == list_end l

unfoldable pub list_front : Links → KernelList → Option ℕ
list_front h l = assert (not (list_empty h l)) >> some (h.next l.head)

unfoldable pub list_back : Links → KernelList → Option ℕ
list_back h l = assert (not (list_empty h l)) >> some (h.prev l.tail)

unfoldable pub list_pop_front : Links → KernelList → Option (Links × ℕ)
list_pop_front h l = list_front h l >>= λ front. list_remove h front >>= λ r. some (r.0, front)

unfoldable pub list_pop_back : Links → KernelList → Option (Links × ℕ)
list_pop_back h l = list_back h l >>= λ back. list_remove h back >>= λ r. some (r.0, back)

-- Walks from an element to the list's end, with fuel: the sum of `list_size`, and the place that
-- `list_insert_ordered` finds.
unfoldable pub size_loop : ℕ → Links → KernelList → ℕ → ℕ → Option ℕ
size_loop zero h l e cnt = none
size_loop (suc n) h l e cnt =
    if e == list_end l then some cnt else (list_next h e >>= λ e'. size_loop n h l e' (cnt + 1))

unfoldable pub list_size : ℕ → Links → KernelList → Option ℕ
list_size fuel h l = size_loop fuel h l (list_begin h l) 0

unfoldable pub place_loop : (ℕ → ℕ → Bool) → ℕ → Links → KernelList → ℕ → ℕ → Option ℕ
place_loop less zero h l elem e = none
place_loop less (suc n) h l elem e =
    if e == list_end l
    then some e
    else if less elem e
    then some e
    else (list_next h e >>= λ e'. place_loop less n h l elem e')

unfoldable pub list_insert_ordered : (ℕ → ℕ → Bool) → ℕ → Links → KernelList → ℕ → Option Links
list_insert_ordered less fuel h l elem =
    place_loop less fuel h l elem (list_begin h l) >>= λ e. list_insert h e elem
