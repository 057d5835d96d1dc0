-- ===== src/Inode/Table/Sharing.antt =====
-- pintos/src/filesys/inode.c: the list of open inodes under calls of several threads.
use ospersonal.Common.{
  Bool-cases, List, Option-cases, [], arith, bind_some, count, if◌then◌else◌, inl, inr, none, refl,
  some, ℕ, ◌+◌, ◌==◌, ◌∷◌, ◌≡◌,
}
use ospersonal.Inode.Table.{
  OpenInode, open_search, open_insert, Table, misses, inserts, TableReach, at_first, and_then,
}
use ospersonal.Inode.Table.Openers.{openers, AllOpened}

-- How many inodes of the list are for the sector.
abbrev pub inodes_for : List OpenInode → ℕ → ℕ
inodes_for [] s = 0
inodes_for (i ∷ is) s = (if s == i.sector then 1 else 0) + inodes_for is s

-- The openers of a sector are the calls that opened it and did not close it, and no inode without an
-- opener is on the list.
pub record Counted (x : Table) : Type 0 where
  pub every : (s : ℕ) → openers x.inodes s ≡ count s x.opened
  pub all : AllOpened x.inodes

absent :
    (is : List OpenInode) (sector : ℕ) → open_search is sector ≡ none → inodes_for is sector ≡ 0
unfolding open_search
absent [] sector q = refl
absent (j ∷ js) sector q = elim (Bool-cases (j.sector == sector)) [
  | inl here ↦ absurd (ground arith)
  | inr there ↦ elim (Option-cases (open_search js sector)) [
    | inl missed ↦ ground (arith, there, absent js sector missed)
    | inr (r, m) ↦
        let past : open_search (j ∷ js) sector ≡ some (r.0, j ∷ r.1) = rw there (bind_some _ m) in
        absurd (cc (past, q))
  ]
]

-- From any table in which a sector is not open, the threads can come to one with two inodes for it, each
-- with a count of its own of one opener.
pub two_inodes :
    (x : Table) (sector a b : ℕ)
    → open_search x.inodes sector ≡ none
    → (y : Table) × TableReach x y
      × (inodes_for y.inodes sector ≡ 2)
      × (y.inodes ≡ open_insert (open_insert x.inodes sector a) sector b)
two_inodes x sector a b h =
    let one = record x { between = sector ∷ x.between } in
    let two = record one { between = sector ∷ one.between } in
    let first : Table = record {
      inodes = open_insert x.inodes sector a;
      between = sector ∷ x.between;
      opened = sector ∷ x.opened;
    } in
    let both : Table = record {
      inodes = open_insert first.inodes sector b;
      between = x.between;
      opened = sector ∷ first.opened;
    } in
    (
      both,
      and_then first both
          (and_then two first
            (and_then one two (and_then x one at_first (misses sector h)) (misses sector h))
            (inserts [] (sector ∷ x.between) sector a refl))
          (inserts [] x.between sector b refl),
      ground (arith, absent x.inodes sector h),
      refl,
    )
