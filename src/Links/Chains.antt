-- ===== src/Links/Chains.antt =====
-- pintos/src/lib/kernel/list.c: the links of a list, and one element put in or taken out.
use ospersonal.Common.{
  List, [], ap, eq→==, false, ne→==, refl, subst, sym, true, ℕ, ◌++◌, ◌==◌, ◌∙◌, ◌∷◌, ◌≡◌, ◌≢◌,
}
use ospersonal.Links.{Links, update, set_prev, set_next, link_before, unlink}

-- From `a` on, the links lead through the nodes in both directions.
abbrev pub Linked : Links → ℕ → List ℕ → Type 0
Linked h a [] = Unit
Linked h a (z ∷ zs) = (h.next a ≡ z) × (h.prev z ≡ a) × Linked h z zs

abbrev pub NotIn : ℕ → List ℕ → Type 0
NotIn x [] = Unit
NotIn x (z ∷ zs) = (x ≢ z) × NotIn x zs

abbrev pub Distinct : List ℕ → Type 0
Distinct [] = Unit
Distinct (z ∷ zs) = NotIn z zs × Distinct zs

update-at : (f : ℕ → ℕ) (a v : ℕ) → update f a v a ≡ v
update-at f a v = let e : (a == a) ≡ true = eq→== a a refl in rw e refl

update-ne : (f : ℕ → ℕ) (a v x : ℕ) → x ≢ a → update f a v x ≡ f x
update-ne f a v x ne = let e : (x == a) ≡ false = ne→== x a ne in rw e refl

-- What `link_before` writes, the element being new and the place in the list after `p`.
module _ (h : Links) (p y e : ℕ) (at : h.prev y ≡ p) (e_y : e ≢ y) (e_p : e ≢ p) where
  abbrev pub linked_in : Links
  linked_in = link_before h y e

  place : (set_next (set_prev h e (h.prev y)) e y).prev y ≡ p
  place = update-ne h.prev e (h.prev y) y (λ q. e_y (sym q)) ∙ at

  next_new : linked_in.next e ≡ y
  next_new = update-ne (update h.next e y) _ e e (λ q. e_p (q ∙ place)) ∙ update-at h.next e y

  next_before : linked_in.next p ≡ e
  next_before = rw place (update-at (update h.next e y) p e)

  prev_new : linked_in.prev e ≡ p
  prev_new = update-ne (update h.prev e (h.prev y)) y e e e_y ∙ update-at h.prev e (h.prev y) ∙ at

  prev_after : linked_in.prev y ≡ e
  prev_after = update-at (update h.prev e (h.prev y)) y e

  pub next_kept : (n : ℕ) → n ≢ e → n ≢ p → linked_in.next n ≡ h.next n
  next_kept n ne np =
      update-ne (update h.next e y) _ e n (λ q. np (q ∙ place)) ∙ update-ne h.next e y n ne

  pub prev_kept : (n : ℕ) → n ≢ e → n ≢ y → linked_in.prev n ≡ h.prev n
  prev_kept n ne ny =
      update-ne (update h.prev e (h.prev y)) y e n ny ∙ update-ne h.prev e (h.prev y) n ne

pub NotIn-ne : (x z : ℕ) (zs : List ℕ) → NotIn x (z ∷ zs) → z ≢ x
NotIn-ne x z zs out q = out.0 (sym q)

-- A chain whose nodes are none of those that changed.
Linked-kept :
    (zs : List ℕ) (h g : Links) (a e p y : ℕ)
    → ((n : ℕ) → n ≢ e → n ≢ p → g.next n ≡ h.next n)
    → ((n : ℕ) → n ≢ e → n ≢ y → g.prev n ≡ h.prev n)
    → a ≢ e
    → a ≢ p
    → NotIn e zs
    → NotIn p zs
    → NotIn y zs
    → Linked h a zs
    → Linked g a zs
Linked-kept [] h g a e p y nexts prevs ae ap' eo po yo l = tt
Linked-kept (z ∷ zs) h g a e p y nexts prevs ae ap' eo po yo l = (
  nexts a ae ap' ∙ l.0,
  prevs z (NotIn-ne e z zs eo) (NotIn-ne y z zs yo) ∙ l.1,
  Linked-kept zs h g z e p y nexts prevs (NotIn-ne e z zs eo) (NotIn-ne p z zs po) eo.1 po.1 yo.1
      l.2,
)

-- The node before `y` is one of those from `a` on.
pub ne-prev :
    (us vs : List ℕ) (h : Links) (a y x : ℕ)
    → Linked h a (us ++ y ∷ vs)
    → NotIn x (a ∷ us)
    → x ≢ h.prev y
ne-prev [] vs h a y x l out q = out.0 (q ∙ l.1)
ne-prev (u ∷ us) vs h a y x l out q = ne-prev us vs h u y x l.2 out.1 q

pub prev-NotIn :
    (us vs : List ℕ) (h : Links) (a y : ℕ)
    → Linked h a (us ++ y ∷ vs)
    → Distinct (a ∷ us ++ y ∷ vs)
    → NotIn (h.prev y) (y ∷ vs)
prev-NotIn [] vs h a y l d = subst (λ (n : ℕ). NotIn n (y ∷ vs)) (sym l.1) d.0
prev-NotIn (u ∷ us) vs h a y l d = prev-NotIn us vs h u y l.2 d.1

pub NotIn-append_left : (us vs : List ℕ) (x : ℕ) → NotIn x (us ++ vs) → NotIn x us
NotIn-append_left [] vs x out = tt
NotIn-append_left (u ∷ us) vs x out = (out.0, NotIn-append_left us vs x out.1)

pub NotIn-append_right : (us vs : List ℕ) (x : ℕ) → NotIn x (us ++ vs) → NotIn x vs
NotIn-append_right [] vs x out = out
NotIn-append_right (u ∷ us) vs x out = NotIn-append_right us vs x out.1

module _ (h : Links) (y e : ℕ) (vs : List ℕ) (e_y : e ≢ y) (e_p : e ≢ h.prev y) (e_vs : NotIn e vs)
    (p_vs : NotIn (h.prev y) (y ∷ vs)) (y_vs : NotIn y vs) where
  -- The chain from any node before the place on.
  pub insert-Linked :
      (us : List ℕ) (a : ℕ)
      → Distinct (a ∷ us ++ y ∷ vs)
      → NotIn e (a ∷ us)
      → Linked h a (us ++ y ∷ vs)
      → Linked (link_before h y e) a (us ++ e ∷ y ∷ vs)
  insert-Linked [] a d eo l = (
    ap (link_before h y e).next (sym l.1) ∙ next_before h (h.prev y) y e refl e_y e_p,
    prev_new h (h.prev y) y e refl e_y e_p ∙ l.1,
    (
      next_new h (h.prev y) y e refl e_y e_p,
      prev_after h (h.prev y) y e refl e_y e_p,
      Linked-kept vs h (link_before h y e) y e (h.prev y) y
          (next_kept h (h.prev y) y e refl e_y e_p) (prev_kept h (h.prev y) y e refl e_y e_p)
          (λ q. e_y (sym q)) (λ q. p_vs.0 (sym q)) e_vs p_vs.1 y_vs l.2,
    ),
  )
  insert-Linked (u ∷ us) a d eo l = (
    next_kept h (h.prev y) y e refl e_y e_p a (NotIn-ne e a (u ∷ us) eo)
          (ne-prev us vs h u y a l.2 (NotIn-append_left (u ∷ us) (y ∷ vs) a d.0))
        ∙ l.0,
    prev_kept h (h.prev y) y e refl e_y e_p u (NotIn-ne e u us eo.1)
          (NotIn-append_right us (y ∷ vs) u d.1.0).0
        ∙ l.1,
    insert-Linked us u d.1 eo.1 l.2,
  )

-- What `unlink` writes at `x`, where `y` follows.
module _ (h : Links) (x y : ℕ) (at : h.next x ≡ y) (x_p : x ≢ h.prev x) where
  abbrev pub taken_out : Links
  taken_out = unlink h x

  after_x : (set_next h (h.prev x) (h.next x)).next x ≡ y
  after_x = update-ne h.next (h.prev x) (h.next x) x x_p ∙ at

  unlinked_next : taken_out.next (h.prev x) ≡ y
  unlinked_next = update-at h.next (h.prev x) (h.next x) ∙ at

  unlinked_prev : taken_out.prev y ≡ h.prev x
  unlinked_prev = rw after_x (update-at h.prev y (h.prev x))

  pub unlinked_next_kept : (n : ℕ) → n ≢ x → n ≢ h.prev x → taken_out.next n ≡ h.next n
  unlinked_next_kept n nx np = update-ne h.next (h.prev x) (h.next x) n np

  pub unlinked_prev_kept : (n : ℕ) → n ≢ x → n ≢ y → taken_out.prev n ≡ h.prev n
  unlinked_prev_kept n nx ny = update-ne h.prev _ (h.prev x) n (λ q. ny (q ∙ after_x))

  pub unlinked_follower : taken_out.next x ≡ y
  unlinked_follower = after_x

module _ (h : Links) (x y : ℕ) (vs : List ℕ) (at : h.next x ≡ y) (x_p : x ≢ h.prev x) (x_y : x ≢ y)
    (x_vs : NotIn x vs) (p_vs : NotIn (h.prev x) (y ∷ vs)) (y_vs : NotIn y vs) where
  pub remove-Linked :
      (us : List ℕ) (a : ℕ)
      → Distinct (a ∷ us ++ x ∷ y ∷ vs)
      → Linked h a (us ++ x ∷ y ∷ vs)
      → Linked (unlink h x) a (us ++ y ∷ vs)
  remove-Linked [] a d l = (
    ap (unlink h x).next (sym l.1) ∙ unlinked_next h x y at x_p,
    unlinked_prev h x y at x_p ∙ l.1,
    Linked-kept vs h (unlink h x) y x (h.prev x) y (unlinked_next_kept h x y at x_p)
        (unlinked_prev_kept h x y at x_p) (λ q. x_y (sym q)) (λ q. p_vs.0 (sym q)) x_vs p_vs.1 y_vs
        l.2.2,
  )
  remove-Linked (u ∷ us) a d l = (
    unlinked_next_kept h x y at x_p a (NotIn-append_right us (x ∷ y ∷ vs) a d.0.1).0
          (ne-prev us (y ∷ vs) h u x a l.2 (NotIn-append_left (u ∷ us) (x ∷ y ∷ vs) a d.0))
        ∙ l.0,
    unlinked_prev_kept h x y at x_p u (NotIn-append_right us (x ∷ y ∷ vs) u d.1.0).0
          (NotIn-append_right us (x ∷ y ∷ vs) u d.1.0).1.0
        ∙ l.1,
    remove-Linked us u d.1 l.2,
  )
