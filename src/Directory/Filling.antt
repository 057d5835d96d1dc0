-- ===== src/Directory/Filling.antt =====
-- pintos/src/filesys/directory.c: lookups by name, and the directory with one entry filled.
use ospersonal.Common.{
  Bool, Bool-cases, List, Option, [], ap, arith, false, if◌then◌else◌, inl, inr, none,
  not_false_and_true, refl, some, subst, suc, sym, true, ℕ, ◌&&◌, ◌||◌, ◌∙◌, ◌∷◌, ◌≡◌,
}
use ospersonal.Strings.{strcmp, is_equal}
use ospersonal.Strings.Comparing.{strcmp_refl, strcmp-eq}
use ospersonal.Directory.{DirEntry, lookup_from, sector_found, free_entry, write_entry}

-- Whether an entry is one for the name.
abbrev pub is_for : DirEntry → List ℕ → Bool
is_for e name = e.in_use && is_equal (strcmp name e.name)

-- The sector of the first entry for a name.
unfoldable pub entry_of : List DirEntry → List ℕ → Option ℕ
entry_of [] name = none
entry_of (e ∷ slots) name =
    let rest = entry_of slots name in if is_for e name then some e.inode_sector else rest

pub lookup_from-entry_of :
    (i : ℕ) (slots : List DirEntry) (name : List ℕ)
    → sector_found (lookup_from i slots name) ≡ entry_of slots name
unfolding lookup_from entry_of
lookup_from-entry_of i [] name = refl
lookup_from-entry_of i (e ∷ slots) name = elim (Bool-cases (is_for e name)) [
  | inl yes_for ↦ rw yes_for refl
  | inr not_for ↦ rw not_for (lookup_from-entry_of (suc i) slots name)
]

-- No two entries in use have one name.
abbrev pub IsUnique : List DirEntry → Type 0
IsUnique [] = Unit
IsUnique (e ∷ slots) = (e.in_use ≡ true → entry_of slots e.name ≡ none) × IsUnique slots

-- The entries with a new one in the first free place, or at the end.
pub fill : List DirEntry → DirEntry → List DirEntry
fill [] n = n ∷ []
fill (e ∷ slots) n = let rest = fill slots n in if e.in_use then e ∷ rest else n ∷ slots

pub has_free : List DirEntry → Bool
has_free [] = false
has_free (e ∷ slots) = let rest = has_free slots in if e.in_use then rest else true

-- What each function does on an entry in use and on a free one.
module _ (e : DirEntry) (slots : List DirEntry) where
  free_entry-used : e.in_use ≡ true → free_entry (e ∷ slots) ≡ suc (free_entry slots)
  unfolding free_entry
  free_entry-used h = simp h

  free_entry-free : e.in_use ≡ false → free_entry (e ∷ slots) ≡ 0
  unfolding free_entry
  free_entry-free h = simp h

  fill-used : (n : DirEntry) → e.in_use ≡ true → fill (e ∷ slots) n ≡ e ∷ fill slots n
  unfolding fill
  fill-used n h = simp h

  fill-free : (n : DirEntry) → e.in_use ≡ false → fill (e ∷ slots) n ≡ n ∷ slots
  unfolding fill
  fill-free n h = simp h

  entry_of-here :
      (name : List ℕ) → is_for e name ≡ true → entry_of (e ∷ slots) name ≡ some e.inode_sector
  unfolding entry_of
  entry_of-here name h = simp h

  pub entry_of-later :
      (name : List ℕ) → is_for e name ≡ false → entry_of (e ∷ slots) name ≡ entry_of slots name
  unfolding entry_of
  entry_of-later name h = simp h

  entry_of-none :
      (name : List ℕ)
      → entry_of (e ∷ slots) name ≡ none
      → (is_for e name ≡ false) × (entry_of slots name ≡ none)
  entry_of-none name fresh = elim (Bool-cases (is_for e name)) [
    | inl here ↦ absurd (cc (entry_of-here name here))
    | inr later ↦ (later, sym (entry_of-later name later) ∙ fresh)
  ]

pub entry_of-same :
    (e : DirEntry) (a b : List DirEntry) (name : List ℕ)
    → entry_of a name ≡ entry_of b name
    → entry_of (e ∷ a) name ≡ entry_of (e ∷ b) name
unfolding entry_of
entry_of-same e a b name h =
    ap (λ (r : Option ℕ). if is_for e name then some e.inode_sector else r) h

-- The write to the free entry, or past the end.
abbrev pub filled : Bool → List DirEntry → DirEntry → Bool × List DirEntry
filled room slots n = if room then (true, fill slots n) else (false, slots)

write_entry-suc :
    (grows : Bool) (e : DirEntry) (slots : List DirEntry) (i : ℕ) (n : DirEntry)
    → write_entry grows (e ∷ slots) (suc i) n
      ≡ ((write_entry grows slots i n).0, e ∷ (write_entry grows slots i n).1)
unfolding write_entry
write_entry-suc grows e slots i n = ground arith

filled-used :
    (room : Bool) (e : DirEntry) (slots : List DirEntry) (n : DirEntry)
    → e.in_use ≡ true
    → ((filled room slots n).0, e ∷ (filled room slots n).1) ≡ filled room (e ∷ slots) n
filled-used true e slots n used =
    ap (λ (l : List DirEntry). (true, l)) (sym (fill-used e slots n used))
filled-used false e slots n used = refl

has_free-used :
    (e : DirEntry) (slots : List DirEntry) → e.in_use ≡ true → has_free (e ∷ slots) ≡ has_free slots
unfolding has_free
has_free-used e slots used = simp used

has_free-free :
    (e : DirEntry) (slots : List DirEntry) → e.in_use ≡ false → has_free (e ∷ slots) ≡ true
unfolding has_free
has_free-free e slots free = simp free

write_entry-free :
    (grows : Bool) (e : DirEntry) (slots : List DirEntry) (n : DirEntry)
    → e.in_use ≡ false
    → write_entry grows (e ∷ slots) 0 n ≡ filled (has_free (e ∷ slots) || grows) (e ∷ slots) n
unfolding write_entry
write_entry-free grows e slots n free =
    rw (has_free-free e slots free, fill-free e slots n free) (ground arith)

pub write_entry-filled :
    (grows : Bool) (slots : List DirEntry) (n : DirEntry)
    → write_entry grows slots (free_entry slots) n ≡ filled (has_free slots || grows) slots n
write_entry-filled true [] n = unfold free_entry has_free write_entry fill in refl
write_entry-filled false [] n = unfold free_entry has_free write_entry fill in refl
write_entry-filled grows (e ∷ slots) n = elim (Bool-cases e.in_use) [
  | inl used ↦
      ap (λ (i : ℕ). write_entry grows (e ∷ slots) i n) (free_entry-used e slots used)
      ∙ write_entry-suc grows e slots (free_entry slots) n
      ∙ ap (λ (r : Bool × List DirEntry). (r.0, e ∷ r.1)) (write_entry-filled grows slots n)
      ∙ filled-used (has_free slots || grows) e slots n used
      ∙ ap (λ (b : Bool). filled (b || grows) (e ∷ slots) n) (sym (has_free-used e slots used))
  | inr free ↦
      ap (λ (i : ℕ). write_entry grows (e ∷ slots) i n) (free_entry-free e slots free)
      ∙ write_entry-free grows e slots n free
]

abbrev pub same_name : List ℕ → List ℕ → Bool
same_name a b = is_equal (strcmp a b)

entry_of-new :
    (slots : List DirEntry) (n : DirEntry) (name : List ℕ)
    → n.in_use ≡ true
    → entry_of (n ∷ slots) name
      ≡ (if same_name name n.name then some n.inode_sector else entry_of slots name)
unfolding entry_of
entry_of-new slots n name used = simp used

pub entry_of-fill :
    (slots : List DirEntry) (n : DirEntry) (name : List ℕ)
    → n.in_use ≡ true
    → entry_of slots n.name ≡ none
    → entry_of (fill slots n) name
      ≡ (if same_name name n.name then some n.inode_sector else entry_of slots name)
entry_of-fill [] n name used fresh = unfold fill in entry_of-new [] n name used
entry_of-fill (e ∷ slots) n name used fresh = elim (Bool-cases e.in_use) [
  | inl taken ↦
      let later = entry_of-none e slots n.name fresh in
      let ih = entry_of-fill slots n name used later.1 in
      ap (λ (l : List DirEntry). entry_of l name) (fill-used e slots n taken)
      ∙ elim (Bool-cases (same_name name n.name)) [
        | inl same ↦
            let other : is_for e name ≡ false = rw (strcmp-eq name n.name same) later.0 in
            entry_of-later e (fill slots n) name other ∙ ih ∙ rw same refl
        | inr differ ↦
            let rest : entry_of (fill slots n) name ≡ entry_of slots name = ih ∙ rw differ refl in
            rw differ (entry_of-same e (fill slots n) slots name rest)
      ]
  | inr free ↦
      ap (λ (l : List DirEntry). entry_of l name) (fill-free e slots n free)
      ∙ entry_of-new slots n name used
      ∙ ap (λ (r : Option ℕ). if same_name name n.name then some n.inode_sector else r)
          (sym (entry_of-later e slots name (simp free)))
]

strcmp-false-sym : (a b : List ℕ) → same_name a b ≡ false → same_name b a ≡ false
strcmp-false-sym a b h = elim (Bool-cases (same_name b a)) [
  | inl same ↦
      let e : same_name a b ≡ true = rw (strcmp-eq b a same) (strcmp_refl a) in
      not_false_and_true e h
  | inr differ ↦ differ
]

pub fill-IsUnique :
    (slots : List DirEntry) (n : DirEntry)
    → n.in_use ≡ true
    → entry_of slots n.name ≡ none
    → IsUnique slots
    → IsUnique (fill slots n)
fill-IsUnique [] n used fresh u = unfold fill entry_of in (λ t. refl, tt)
fill-IsUnique (e ∷ slots) n used fresh u = elim (Bool-cases e.in_use) [
  | inl taken ↦
      let later = entry_of-none e slots n.name fresh in
      let other : same_name n.name e.name ≡ false = sym (simp taken) ∙ later.0 in
      subst IsUnique (sym (fill-used e slots n taken)) (
        λ t.
            entry_of-fill slots n e.name used later.1
            ∙ rw (strcmp-false-sym n.name e.name other) (u.0 t),
        fill-IsUnique slots n used later.1 u.1,
      )
  | inr free ↦
      subst IsUnique (sym (fill-free e slots n free))
        (λ t. (entry_of-none e slots n.name fresh).1, u.1)
]

-- The entries without the first one for a name.
