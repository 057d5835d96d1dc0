-- ===== src/Links/Insert.antt =====
-- pintos/src/lib/kernel/list.c: list_insert.
use ospersonal.Common.{
  List, ap, arith, assert-true, length, not, refl, some, subst, suc, sym, true, ℕ, ◌++◌, ◌==◌, ◌∙◌,
  ◌∷◌, ◌≡◌, ◌≢◌,
}
use ospersonal.Links.{Links, KernelList, link_before, list_insert}
use ospersonal.Links.Chains.{
  Linked, NotIn, Distinct, ne-prev, prev-NotIn, NotIn-append_left, NotIn-append_right,
  insert-Linked, next_kept, prev_kept,
}
use ospersonal.Links.Lists.{
  Edited, list_size-length, nodes, first_of, after_first, nodes-first_of, nodes-append, IsList,
  NotIn-insert, Distinct-insert, Distinct-append_right, NotIn-tail, place_passes,
}

module _ (h : Links) (l : KernelList) (xs ys : List ℕ) (e : ℕ) (v : IsList h l (xs ++ ys))
    (e_new : NotIn e (l.head ∷ nodes l (xs ++ ys))) (e_null : e ≢ 0) where
  abbrev pub y : ℕ
  y = first_of l ys

  abbrev vs : List ℕ
  vs = after_first l ys

  same : nodes l (xs ++ ys) ≡ xs ++ y ∷ vs
  same = nodes-append l xs ys

  linked : Linked h l.head (xs ++ y ∷ vs)
  linked = subst (Linked h l.head) same v.links

  nodes-Distinct : Distinct (l.head ∷ xs ++ y ∷ vs)
  nodes-Distinct = subst (λ (zs : List ℕ). Distinct (l.head ∷ zs)) same v.distinct

  not_null_nodes : NotIn 0 (l.head ∷ xs ++ y ∷ vs)
  not_null_nodes = subst (λ (zs : List ℕ). NotIn 0 (l.head ∷ zs)) same v.not_null

  new_nodes : NotIn e (l.head ∷ xs ++ y ∷ vs)
  new_nodes = subst (λ (zs : List ℕ). NotIn e (l.head ∷ zs)) same e_new

  e_y : e ≢ y
  e_y = (NotIn-append_right xs (y ∷ vs) e new_nodes.1).0

  e_p : e ≢ h.prev y
  e_p = ne-prev xs vs h l.head y e linked (NotIn-append_left (l.head ∷ xs) (y ∷ vs) e new_nodes)

  p_vs : NotIn (h.prev y) (y ∷ vs)
  p_vs = prev-NotIn xs vs h l.head y linked nodes-Distinct

  p_tail : h.prev y ≢ l.tail
  p_tail = NotIn-tail l ys (h.prev y) (subst (NotIn (h.prev y)) (sym (nodes-first_of l ys)) p_vs)

  e_tail : e ≢ l.tail
  e_tail = NotIn-tail l (xs ++ ys) e e_new.1

  after_insert : nodes l (xs ++ e ∷ ys) ≡ xs ++ e ∷ y ∷ vs
  after_insert =
      nodes-append l xs (e ∷ ys) ∙ ap (λ (zs : List ℕ). xs ++ e ∷ zs) (nodes-first_of l ys)

  insert-IsList : IsList (link_before h y e) l (xs ++ e ∷ ys)
  insert-IsList = record {
    links = subst (Linked (link_before h y e) l.head) (sym after_insert) (
        insert-Linked h y e vs e_y e_p (NotIn-append_right xs (y ∷ vs) e new_nodes.1).1 p_vs
          (Distinct-append_right (l.head ∷ xs) (y ∷ vs) nodes-Distinct).0 xs l.head nodes-Distinct
          (NotIn-append_left (l.head ∷ xs) (y ∷ vs) e new_nodes) linked);
    first =
        prev_kept h (h.prev y) y e refl e_y e_p l.head (λ q. new_nodes.0 (sym q))
          (NotIn-append_right xs (y ∷ vs) l.head nodes-Distinct.0).0
        ∙ v.first;
    last =
        next_kept h (h.prev y) y e refl e_y e_p l.tail (λ q. e_tail (sym q)) (λ q. p_tail (sym q))
        ∙ v.last;
    distinct =
        subst (λ (zs : List ℕ). Distinct (l.head ∷ zs)) (sym after_insert)
          (Distinct-insert (l.head ∷ xs) (y ∷ vs) e new_nodes nodes-Distinct);
    not_null =
        subst (λ (zs : List ℕ). NotIn 0 (l.head ∷ zs)) (sym after_insert)
          (NotIn-insert (l.head ∷ xs) (y ∷ vs) 0 e (λ q. e_null (sym q)) not_null_nodes);
  }

  pub insert-Edited : Edited h l (xs ++ e ∷ ys) e (link_before h y e)
  insert-Edited = record {
    list = insert-IsList;
    size =
        list_size-length (suc (length (xs ++ e ∷ ys))) (link_before h y e) l (xs ++ e ∷ ys)
          (omega arith) insert-IsList;
    others = λ n out.
        let away = subst (λ (zs : List ℕ). NotIn n (l.head ∷ zs)) after_insert out.1 in
        let past = NotIn-append_right xs (e ∷ y ∷ vs) n away.1 in
        let before = NotIn-append_left (l.head ∷ xs) (e ∷ y ∷ vs) n away in
        (
          next_kept h (h.prev y) y e refl e_y e_p n out.0
              (ne-prev xs vs h l.head y n linked before),
          prev_kept h (h.prev y) y e refl e_y e_p n out.0 past.1.0,
        );
  }

  pub inserts : list_insert h y e ≡ some (link_before h y e)
  unfolding list_insert
  inserts =
      let a = place_passes h l xs vs y e linked v.first nodes-Distinct not_null_nodes in
      let b : not (e == 0) ≡ true = ground arith in assert-true _ a ∙ assert-true _ b
