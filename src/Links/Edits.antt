-- ===== src/Links/Edits.antt =====
-- pintos/src/lib/kernel/list.c: the edits of a list, whatever list it is and whatever lists are beside it.
use ospersonal.Common.{List, Option, bind_some, some, ℕ, ◌++◌, ◌>>=◌, ◌∷◌, ◌≡◌, ◌≢◌}
use ospersonal.Links.{Links, KernelList, link_before, unlink, list_insert, list_remove}
use ospersonal.Links.Chains.{NotIn}
use ospersonal.Links.Lists.{nodes, first_of, IsList, Edited}
use ospersonal.Links.Insert.{insert-Edited, inserts}
use ospersonal.Links.Remove.{remove-Edited, removes}

-- An element and the elements before and after it, to be put in there or taken out.
pub data Edit : Type 0 where
  put_in : ℕ → List ℕ → List ℕ → Edit
  take_out : ℕ → List ℕ → List ℕ → Edit

abbrev pub before : Edit → List ℕ
before (put_in e xs ys) = xs ++ ys
before (take_out e xs ys) = xs ++ e ∷ ys

abbrev pub after : Edit → List ℕ
after (put_in e xs ys) = xs ++ e ∷ ys
after (take_out e xs ys) = xs ++ ys

abbrev pub element : Edit → ℕ
element (put_in e xs ys) = e
element (take_out e xs ys) = e

-- The call, which names the element or tail that the new element stands before.
abbrev pub run_edit : Links → KernelList → Edit → Option Links
run_edit h l (put_in e xs ys) = list_insert h (first_of l ys) e
run_edit h l (take_out e xs ys) = list_remove h e >>= λ r. some r.0

-- What is put in is an element, and not one of the list's already.
abbrev pub IsNew : KernelList → Edit → Type 0
IsNew l (put_in e xs ys) = (e ≢ 0) × NotIn e (l.head ∷ nodes l (xs ++ ys))
IsNew l (take_out e xs ys) = Unit

-- In memory that holds a list, `list_insert` of a new element before any element or the tail, and
-- `list_remove` of any element, pass their ASSERTs and leave the list with the element there, or
-- without it, in both directions of the links; `list_size` then ends, after one round for each element,
-- with their number; and no link of any other node in memory is changed.
pub list_edit-Edited :
    (h : Links) (l : KernelList) (c : Edit)
    → IsList h l (before c)
    → IsNew l c
    → (h' : Links) × (run_edit h l c ≡ some h') × Edited h l (after c) (element c) h'
list_edit-Edited h l (put_in e xs ys) v fresh = (
  link_before h (first_of l ys) e,
  inserts h l xs ys e v fresh.1 fresh.0,
  insert-Edited h l xs ys e v fresh.1 fresh.0,
)
list_edit-Edited h l (take_out e xs ys) v fresh =
    (unlink h e, bind_some _ (removes h l xs ys e v), remove-Edited h l xs ys e v)
