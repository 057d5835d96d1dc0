-- ===== src/Links/Remove.antt =====
-- pintos/src/lib/kernel/list.c: list_remove.
use ospersonal.Common.{
  List, ap, arith, assert-true, false, length, ne→==, refl, some, subst, suc, sym, ℕ, ◌++◌, ◌==◌,
  ◌∙◌, ◌∷◌, ◌≡◌, ◌≢◌,
}
use ospersonal.Links.{Links, KernelList, unlink, list_remove}
use ospersonal.Links.Chains.{
  Linked, NotIn, Distinct, ne-prev, prev-NotIn, NotIn-append_left, NotIn-append_right,
  remove-Linked, unlinked_next_kept, unlinked_prev_kept, unlinked_follower,
}
use ospersonal.Links.Lists.{
  Edited, list_size-length, nodes, first_of, after_first, nodes-first_of, nodes-append, IsList,
  NotIn-remove, Distinct-remove, Distinct-append_right, next-Linked, NotIn-tail,
}

module _ (h : Links) (l : KernelList) (xs ys : List ℕ) (x : ℕ) (v : IsList h l (xs ++ x ∷ ys)) where
  abbrev next_one : ℕ
  next_one = first_of l ys

  abbrev later : List ℕ
  later = after_first l ys

  before_remove : nodes l (xs ++ x ∷ ys) ≡ xs ++ x ∷ next_one ∷ later
  before_remove =
      nodes-append l xs (x ∷ ys) ∙ ap (λ (zs : List ℕ). xs ++ x ∷ zs) (nodes-first_of l ys)

  chain : Linked h l.head (xs ++ x ∷ next_one ∷ later)
  chain = subst (Linked h l.head) before_remove v.links

  chain-Distinct : Distinct (l.head ∷ xs ++ x ∷ next_one ∷ later)
  chain-Distinct = subst (λ (zs : List ℕ). Distinct (l.head ∷ zs)) before_remove v.distinct

  chain-NotIn : NotIn 0 (l.head ∷ xs ++ x ∷ next_one ∷ later)
  chain-NotIn = subst (λ (zs : List ℕ). NotIn 0 (l.head ∷ zs)) before_remove v.not_null

  next_is : h.next x ≡ next_one
  next_is = next-Linked xs later h l.head x next_one chain

  p_after : NotIn (h.prev x) (x ∷ next_one ∷ later)
  p_after = prev-NotIn xs (next_one ∷ later) h l.head x chain chain-Distinct

  x_p : x ≢ h.prev x
  x_p q = p_after.0 (sym q)

  tail_part : Distinct (x ∷ next_one ∷ later)
  tail_part = Distinct-append_right (l.head ∷ xs) (x ∷ next_one ∷ later) chain-Distinct

  remove-IsList : IsList (unlink h x) l (xs ++ ys)
  remove-IsList =
      let same = nodes-append l xs ys in
      let nodes_x = NotIn-append_right xs (x ∷ next_one ∷ later) l.head chain-Distinct.0 in
      record {
        links = subst (Linked (unlink h x) l.head) (sym same) (
            remove-Linked h x next_one later next_is x_p tail_part.0.0 tail_part.0.1 p_after.1
              tail_part.1.0 xs l.head chain-Distinct chain);
        first = unlinked_prev_kept h x next_one next_is x_p l.head nodes_x.0 nodes_x.1.0 ∙ v.first;
        last =
            unlinked_next_kept h x next_one next_is x_p l.tail
              (λ q.
                NotIn-tail l ys x (subst (NotIn x) (sym (nodes-first_of l ys)) tail_part.0) (sym q))
              (λ q.
                NotIn-tail l ys (h.prev x)
                  (subst (NotIn (h.prev x)) (sym (nodes-first_of l ys)) p_after.1) (sym q))
            ∙ v.last;
        distinct =
            subst (λ (zs : List ℕ). Distinct (l.head ∷ zs)) (sym same)
              (Distinct-remove (l.head ∷ xs) (next_one ∷ later) x chain-Distinct);
        not_null =
            subst (λ (zs : List ℕ). NotIn 0 (l.head ∷ zs)) (sym same)
              (NotIn-remove (l.head ∷ xs) (next_one ∷ later) 0 x chain-NotIn);
      }

  pub remove-Edited : Edited h l (xs ++ ys) x (unlink h x)
  remove-Edited = record {
    list = remove-IsList;
    size =
        list_size-length (suc (length (xs ++ ys))) (unlink h x) l (xs ++ ys) (omega arith)
          remove-IsList;
    others = λ n out.
        let away = subst (λ (zs : List ℕ). NotIn n (l.head ∷ zs)) (nodes-append l xs ys) out.1 in
        let past = NotIn-append_right xs (next_one ∷ later) n away.1 in
        let before = NotIn-append_left (l.head ∷ xs) (next_one ∷ later) n away in
        (
          unlinked_next_kept h x next_one next_is x_p n out.0
              (ne-prev xs (next_one ∷ later) h l.head x n chain before),
          unlinked_prev_kept h x next_one next_is x_p n out.0 past.0,
        );
  }

  pub removes : list_remove h x ≡ some (unlink h x, first_of l ys)
  unfolding list_remove
  removes =
      let nx : x ≢ 0 =
        λ q. (NotIn-append_right xs (x ∷ next_one ∷ later) 0 chain-NotIn.1).0 (sym q) in
      let ny : next_one ≢ 0 =
        λ q. (NotIn-append_right xs (x ∷ next_one ∷ later) 0 chain-NotIn.1).1.0 (sym q) in
      let np : h.prev x ≢ 0 = λ q.
        ne-prev xs (next_one ∷ later) h l.head x 0 chain
          (NotIn-append_left (l.head ∷ xs) (x ∷ next_one ∷ later) 0 chain-NotIn) (sym q) in
      let a : (x == 0) ≡ false = ne→== x 0 nx in
      let b : (h.prev x == 0) ≡ false = ne→== (h.prev x) 0 np in
      let c : (h.next x == 0) ≡ false = ne→== (h.next x) 0 (λ q. ny (sym next_is ∙ q)) in
      assert-true (some (unlink h x, (unlink h x).next x)) (rw (a, b, c) refl)
      ∙ ap (λ (n : ℕ). some (unlink h x, n)) (unlinked_follower h x next_one next_is x_p)
