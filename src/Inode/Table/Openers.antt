-- ===== src/Inode/Table/Openers.antt =====
-- pintos/src/filesys/inode.c: the openers of a sector, over inode_open and inode_close.
use ospersonal.Common.{
  ==→eq, >>=-eq-some, Bool, Bool-cases, List, Option, [], ap, arith, false, if◌then◌else◌, inl, inr,
  none, refl, some, some_injective, subst, sym, true, ℕ, ◌+◌, ◌-◌, ◌<◌, ◌==◌, ◌>>=◌, ◌∙◌, ◌∷◌, ◌≡◌,
}
use ospersonal.Inode.Table.{
  OpenInode, open_search, open_insert, inode_open, inode_reopen, inode_close, inode_get_inumber,
}

-- How many openers the sector has, in all inodes of the list that are for it.
abbrev pub openers : List OpenInode → ℕ → ℕ
openers [] s = 0
openers (i ∷ is) s = (if s == i.sector then i.open_cnt else 0) + openers is s

search_openers :
    (is : List OpenInode) (sector a s : ℕ) (is' : List OpenInode)
    → open_search is sector ≡ some (a, is')
    → openers is' s ≡ openers is s + (if s == sector then 1 else 0)
unfolding open_search
search_openers [] sector a s is' e = absurd (cc)
search_openers (i ∷ is) sector a s is' e = elim (Bool-cases (i.sector == sector)) [
  | inl here ↦ ground arith
  | inr there ↦
      (let past : open_search (i ∷ is) sector
            ≡ (open_search is sector >>= λ r. some (r.0, i ∷ r.1)) =
          rw there refl in
        let (r, e1, e2) = >>=-eq-some (open_search is sector) _ (sym past ∙ e) in
        let counted = search_openers is sector r.0 s r.1 e1 in
        let same = some_injective e2 in
        rw (← ap (λ (t : ℕ × List OpenInode). t.1) same) (omega (arith, counted)))
]

-- The list has an inode for the sector at the address.
pub data Holds (a sector : ℕ) : List OpenInode → Type 0 where
  at_front :
      (i : OpenInode) (is : List OpenInode)
      → i.address ≡ a
      → i.sector ≡ sector
      → Holds a sector (i ∷ is)
  further : (i : OpenInode) (is : List OpenInode) → Holds a sector is → Holds a sector (i ∷ is)

search-Holds :
    (is : List OpenInode) (sector a : ℕ) (is' : List OpenInode)
    → open_search is sector ≡ some (a, is')
    → Holds a sector is'
unfolding open_search
search-Holds [] sector a is' e = absurd (cc)
search-Holds (i ∷ is) sector a is' e = elim (Bool-cases (i.sector == sector)) [
  | inl here ↦
      let found : open_search (i ∷ is) sector ≡ some (i.address, inode_reopen i ∷ is) =
        rw here refl in
      let same = some_injective (sym found ∙ e) in
      subst (λ (t : ℕ × List OpenInode). Holds t.0 sector t.1) same
        (at_front (inode_reopen i) is refl (==→eq _ _ here))
  | inr there ↦
      let past : open_search (i ∷ is) sector
          ≡ (open_search is sector >>= λ r. some (r.0, i ∷ r.1)) =
        rw there refl in
      let (r, e1, e2) = >>=-eq-some (open_search is sector) _ (sym past ∙ e) in
      subst (λ (t : ℕ × List OpenInode). Holds t.0 sector t.1) (some_injective e2)
        (further i r.1 (search-Holds is sector r.0 r.1 e1))
]

-- What a call of `inode_open` leaves.
abbrev pub Opens : List OpenInode → ℕ → ℕ → List OpenInode → Type 0
Opens is sector a is' =
    ((s : ℕ) → openers is' s ≡ openers is s + (if s == sector then 1 else 0)) × Holds a sector is'

pub search-Opens :
    (is : List OpenInode) (sector a : ℕ) (is' : List OpenInode)
    → open_search is sector ≡ some (a, is')
    → Opens is sector a is'
search-Opens is sector a is' e =
    (λ s. search_openers is sector a s is' e, search-Holds is sector a is' e)

pub insert-Opens :
    (is : List OpenInode) (sector a : ℕ) → Opens is sector a (open_insert is sector a)
insert-Opens is sector a = (λ s. omega arith, at_front _ is refl refl)

-- A call of `inode_open` that no other thread comes between, where memory is left: it counts one opener
-- more for the sector and none for another, and answers with the address of an inode of the list that is
-- for the sector.
pub inode_open-Opens :
    (is : List OpenInode) (sector a : ℕ) (fresh : Option ℕ) (is' : List OpenInode)
    → inode_open is sector fresh ≡ (some a, is')
    → Opens is sector a is'
unfolding inode_open
inode_open-Opens is sector a fresh is' e = opened (open_search is sector) refl e
  where
    answered :
        (b : ℕ) (js : List OpenInode)
        → Opens is sector b js
        → ◌≡◌ {A = Option ℕ × List OpenInode} (some b, js) (some a, is')
        → Opens is sector a is'
    answered b js o q =
        let same_list = ap (λ (t : Option ℕ × List OpenInode). t.1) q in
        let same = some_injective (ap (λ (t : Option ℕ × List OpenInode). t.0) q) in
        subst (λ (c : ℕ). Opens is sector c is') same
          (subst (λ (l : List OpenInode). Opens is sector b l) same_list o)

    inserted :
        (o : Option ℕ)
        → ◌≡◌ {A = Option ℕ × List OpenInode}
            (elim o [ some b ↦ (some b, open_insert is sector b) | none ↦ (none, is) ])
            (some a, is')
        → Opens is sector a is'
    inserted (some b) q = answered b _ (insert-Opens is sector b) q
    inserted none q = absurd (cc (ap (λ (t : Option ℕ × List OpenInode). t.0) q))

    opened :
        (o : Option (ℕ × List OpenInode))
        → open_search is sector ≡ o
        → ◌≡◌ {A = Option ℕ × List OpenInode}
            (elim o [
              | some r ↦ (some r.0, r.1)
              | none ↦ elim fresh [ some b ↦ (some b, open_insert is sector b) | none ↦ (none, is) ]
            ])
            (some a, is')
        → Opens is sector a is'
    opened (some r) found q = answered r.0 r.1 (search-Opens is sector r.0 r.1 found) q
    opened none new q = inserted fresh q

-- Every inode of the list has an opener.
pub data AllOpened : List OpenInode → Type 0 where
  no_inode : AllOpened []
  and_inode :
      (i : OpenInode) (is : List OpenInode) → 0 < i.open_cnt → AllOpened is → AllOpened (i ∷ is)

-- Closing an inode of a list whose inodes all have openers counts one opener less for its sector and
-- none less for another, and the inodes left all have openers still: one without is off the list.
pub inode_close-openers :
    (is : List OpenInode) (a sector s : ℕ) (d : Bool) (is' : List OpenInode)
    → AllOpened is
    → inode_get_inumber is a ≡ some sector
    → inode_close is a ≡ some (d, is')
    → (openers is' s + (if s == sector then 1 else 0) ≡ openers is s) × AllOpened is'
unfolding inode_close inode_get_inumber
inode_close-openers [] a sector s d is' all g e = absurd (cc)
inode_close-openers (i ∷ is) a sector s d is' (and_inode i' is_ p all) g e =
    elim (Bool-cases (i.address == a)) [
      | inl here ↦ elim (Bool-cases (i.open_cnt - 1 == 0)) [
        | inl last ↦
            (let closed : inode_close (i ∷ is) a ≡ some (i.removed, is) = rw (here, last) refl in
              rw (← ap (λ (t : Bool × List OpenInode). t.1) (some_injective (sym closed ∙ e)))
                (ground (arith, p, last, own here g), all))
        | inr more ↦
            (let i_left = record i { open_cnt = i.open_cnt - 1 } in
              let closed : inode_close (i ∷ is) a ≡ some (false, i_left ∷ is) =
                rw (here, more) refl in
              rw (← ap (λ (t : Bool × List OpenInode). t.1) (some_injective (sym closed ∙ e))) (
                ground (arith, p, more, own here g),
                and_inode i_left is (ground (arith, p, more)) all,
              ))
      ]
      | inr there ↦
          (let past : inode_close (i ∷ is) a ≡ (inode_close is a >>= λ r. some (r.0, i ∷ r.1)) =
              rw there refl in
            let (r, e1, e2) = >>=-eq-some (inode_close is a) _ (sym past ∙ e) in
            let below : inode_get_inumber is a ≡ some sector = ground arith in
            let (counted, left) = inode_close-openers is a sector s r.0 r.1 all below e1 in
            rw (← ap (λ (t : Bool × List OpenInode). t.1) (some_injective e2))
              (omega (arith, counted), and_inode i r.1 p left))
    ]
  where
    own : (i.address == a) ≡ true → inode_get_inumber (i ∷ is) a ≡ some sector → i.sector ≡ sector
    own h q = some_injective (sym (rw h refl) ∙ q)
