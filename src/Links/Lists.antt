-- ===== src/Links/Lists.antt =====
-- pintos/src/lib/kernel/list.c: a list of addresses in memory, and the checks that its nodes pass.
use ospersonal.Common.{
  List, [], ap, arith, assert-true, eq→==, false, length, ne→==, refl, some, suc, sym, true, zero,
  ℕ, ◌++◌, ◌+◌, ◌<◌, ◌==◌, ◌||◌, ◌∙◌, ◌∷◌, ◌≡◌, ◌≢◌,
}
use mathlib.Core.List.{append_assoc}
use ospersonal.Links.{Links, KernelList, is_interior, is_tail, list_size, size_loop, list_next}
use ospersonal.Links.Chains.{
  Linked, NotIn, Distinct, ne-prev, NotIn-append_left, NotIn-append_right,
}

-- The nodes after the head: the elements and the tail.
abbrev pub nodes : KernelList → List ℕ → List ℕ
nodes l xs = xs ++ l.tail ∷ []

-- The element or tail that stands first, and the nodes after it.
abbrev pub first_of : KernelList → List ℕ → ℕ
first_of l [] = l.tail
first_of l (y ∷ ys) = y

abbrev pub after_first : KernelList → List ℕ → List ℕ
after_first l [] = []
after_first l (y ∷ ys) = nodes l ys

pub nodes-first_of : (l : KernelList) (ys : List ℕ) → nodes l ys ≡ first_of l ys ∷ after_first l ys
nodes-first_of l [] = refl
nodes-first_of l (y ∷ ys) = refl

pub nodes-append :
    (l : KernelList) (xs ys : List ℕ) → nodes l (xs ++ ys) ≡ xs ++ first_of l ys ∷ after_first l ys
nodes-append l xs ys =
    append_assoc xs ys (l.tail ∷ []) ∙ ap (λ (zs : List ℕ). xs ++ zs) (nodes-first_of l ys)

-- The memory holds a list with these elements in this order.
pub record IsList (h : Links) (l : KernelList) (xs : List ℕ) : Type 0 where
  pub links : Linked h l.head (nodes l xs)
  pub first : h.prev l.head ≡ 0
  pub last : h.next l.tail ≡ 0
  pub distinct : Distinct (l.head ∷ nodes l xs)
  pub not_null : NotIn 0 (l.head ∷ nodes l xs)

pub NotIn-insert : (us zs : List ℕ) (x e : ℕ) → x ≢ e → NotIn x (us ++ zs) → NotIn x (us ++ e ∷ zs)
NotIn-insert [] zs x e ne out = (ne, out)
NotIn-insert (u ∷ us) zs x e ne out = (out.0, NotIn-insert us zs x e ne out.1)

pub Distinct-insert :
    (us zs : List ℕ) (e : ℕ) → NotIn e (us ++ zs) → Distinct (us ++ zs) → Distinct (us ++ e ∷ zs)
Distinct-insert [] zs e out d = (out, d)
Distinct-insert (u ∷ us) zs e out d =
    (NotIn-insert us zs u e (λ q. out.0 (sym q)) d.0, Distinct-insert us zs e out.1 d.1)

pub NotIn-remove : (us zs : List ℕ) (x e : ℕ) → NotIn x (us ++ e ∷ zs) → NotIn x (us ++ zs)
NotIn-remove [] zs x e out = out.1
NotIn-remove (u ∷ us) zs x e out = (out.0, NotIn-remove us zs x e out.1)

pub Distinct-remove : (us zs : List ℕ) (e : ℕ) → Distinct (us ++ e ∷ zs) → Distinct (us ++ zs)
Distinct-remove [] zs e d = d.1
Distinct-remove (u ∷ us) zs e d = (NotIn-remove us zs u e d.0, Distinct-remove us zs e d.1)

pub Distinct-append_right : (us zs : List ℕ) → Distinct (us ++ zs) → Distinct zs
Distinct-append_right [] zs d = d
Distinct-append_right (u ∷ us) zs d = Distinct-append_right us zs d.1

pub next-Linked :
    (us vs : List ℕ) (h : Links) (a x y : ℕ) → Linked h a (us ++ x ∷ y ∷ vs) → h.next x ≡ y
next-Linked [] vs h a x y l = l.2.0
next-Linked (u ∷ us) vs h a x y l = next-Linked us vs h u x y l.2

module _ (h : Links) (l : KernelList) (xs vs : List ℕ) (y e : ℕ)
    (links : Linked h l.head (xs ++ y ∷ vs)) (first : h.prev l.head ≡ 0)
    (distinct : Distinct (l.head ∷ xs ++ y ∷ vs)) (not_null : NotIn 0 (l.head ∷ xs ++ y ∷ vs)) where
  pub prev_not_null : h.prev y ≢ 0
  prev_not_null q =
      ne-prev xs vs h l.head y 0 links (NotIn-append_left (l.head ∷ xs) (y ∷ vs) 0 not_null) (sym q)

  pub place_not_null : y ≢ 0
  place_not_null q = (NotIn-append_right xs (y ∷ vs) 0 not_null.1).0 (sym q)

  pub place_passes : (is_interior h y || is_tail h y) ≡ true
  place_passes =
      let a : (y == 0) ≡ false = ne→== y 0 place_not_null in
      let b : (h.prev y == 0) ≡ false = ne→== (h.prev y) 0 prev_not_null in rw (a, b) (ground arith)

pub NotIn-tail : (l : KernelList) (ys : List ℕ) (x : ℕ) → NotIn x (nodes l ys) → x ≢ l.tail
NotIn-tail l ys x out = (NotIn-append_right ys (l.tail ∷ []) x out).0

list_next-interior :
    (h : Links) (e z : ℕ) → e ≢ 0 → h.prev e ≢ 0 → h.next e ≡ z → z ≢ 0 → list_next h e ≡ some z
unfolding list_next
list_next-interior h e z ne np at nz =
    let a : (e == 0) ≡ false = ne→== e 0 ne in
    let b : (h.prev e == 0) ≡ false = ne→== (h.prev e) 0 np in
    let c : (h.next e == 0) ≡ false = ne→== (h.next e) 0 (λ q. nz (sym at ∙ q)) in
    assert-true (some (h.next e)) (rw (a, b, c) refl) ∙ ap some at

next-first_of :
    (l : KernelList) (ys : List ℕ) (h : Links) (y : ℕ)
    → Linked h y (nodes l ys)
    → h.next y ≡ first_of l ys
next-first_of l [] h y links = links.0
next-first_of l (z ∷ ys) h y links = links.0

first_of-ne : (l : KernelList) (ys : List ℕ) (x : ℕ) → NotIn x (nodes l ys) → first_of l ys ≢ x
first_of-ne l [] x out q = out.0 (sym q)
first_of-ne l (z ∷ ys) x out q = out.0 (sym q)

pub size_loop-length :
    (ys : List ℕ) (fuel cnt : ℕ) (h : Links) (l : KernelList) (a : ℕ)
    → length ys < fuel
    → Linked h a (nodes l ys)
    → NotIn 0 (nodes l ys)
    → Distinct (nodes l ys)
    → a ≢ 0
    → size_loop fuel h l (first_of l ys) cnt ≡ some (cnt + length ys)
unfolding size_loop
size_loop-length ys zero cnt h l a small links out d na = absurd (omega arith)
size_loop-length [] (suc fuel) cnt h l a small links out d na =
    rw (eq→== l.tail l.tail refl) (ap some (omega arith))
size_loop-length (y ∷ ys) (suc fuel) cnt h l a small links out d na =
    let middle : (y == l.tail) ≡ false = ne→== y l.tail (NotIn-tail l ys y d.0) in
    let steps =
      list_next-interior h y (first_of l ys) (λ q. out.0 (sym q)) (λ q. na (sym links.1 ∙ q))
        (next-first_of l ys h y links.2) (first_of-ne l ys 0 out.1) in
    rw (middle, steps)
      (size_loop-length ys fuel (cnt + 1) h l y (omega arith) links.2 out.1 d.1 (λ q. out.0 (sym q))
        ∙ ap some (omega arith))

pub list_size-length :
    (fuel : ℕ) (h : Links) (l : KernelList) (xs : List ℕ)
    → length xs < fuel
    → IsList h l xs
    → list_size fuel h l ≡ some (length xs)
unfolding list_size
list_size-length fuel h l xs small v =
    ap (λ (e : ℕ). size_loop fuel h l e 0) (next-first_of l xs h l.head v.links)
    ∙ size_loop-length xs fuel 0 h l l.head small v.links v.not_null.1 v.distinct.1
        (λ q. v.not_null.0 (sym q))
    ∙ ap some (omega arith)

-- A list after an element was put in or taken out. The links of all other nodes are as they were.
pub record Edited (h : Links) (l : KernelList) (xs : List ℕ) (e : ℕ) (h' : Links) : Type 0 where
  pub list : IsList h' l xs
  pub size : list_size (suc (length xs)) h' l ≡ some (length xs)
  pub others :
      (n : ℕ) → NotIn n (e ∷ l.head ∷ nodes l xs) → (h'.next n ≡ h.next n) × (h'.prev n ≡ h.prev n)
