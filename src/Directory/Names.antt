-- ===== src/Directory/Names.antt =====
-- pintos/src/filesys/directory.c: a directory as a map from names to sectors.
use ospersonal.Common.{
  Bool, Bool-cases, List, [], ap, arith, false, if◌then◌else◌, inl, inr, none, refl, subst, sym,
  true, ℕ, ◌&&◌, ◌∙◌, ◌∷◌, ◌≡◌,
}
use ospersonal.Strings.Comparing.{strcmp-eq}
use ospersonal.Directory.{DirEntry}
use ospersonal.Directory.Filling.{
  IsUnique, entry_of, entry_of-later, entry_of-same, is_for, same_name,
}

pub clear : List DirEntry → List ℕ → List DirEntry
clear [] name = []
clear (e ∷ slots) name =
    let rest = clear slots name in
    if is_for e name then record e { in_use = false } ∷ slots else e ∷ rest

module _ (e : DirEntry) (slots : List DirEntry) (name : List ℕ) where
  pub clear-here :
      is_for e name ≡ true → clear (e ∷ slots) name ≡ record e { in_use = false } ∷ slots
  unfolding clear
  clear-here h = simp h

  pub clear-later : is_for e name ≡ false → clear (e ∷ slots) name ≡ e ∷ clear slots name
  unfolding clear
  clear-later h = simp h

  -- The entry that stands for the name has that name.
  is_for-name : is_for e name ≡ true → (e.in_use ≡ true) × (name ≡ e.name)
  is_for-name h = (ground arith, strcmp-eq name e.name (ground arith))

entry_of-cleared :
    (e : DirEntry) (slots : List DirEntry) (other : List ℕ)
    → entry_of (record e { in_use = false } ∷ slots) other ≡ entry_of slots other
unfolding entry_of
entry_of-cleared e slots other = refl

pub entry_of-clear :
    (slots : List DirEntry) (name other : List ℕ)
    → IsUnique slots
    → entry_of (clear slots name) other
      ≡ (if same_name other name then none else entry_of slots other)
entry_of-clear [] name other u = unfold clear entry_of in ground arith
entry_of-clear (e ∷ slots) name other u = elim (Bool-cases (is_for e name)) [
  | inl here ↦
      let named = is_for-name e slots name here in
      ap (λ (l : List DirEntry). entry_of l other) (clear-here e slots name here)
      ∙ entry_of-cleared e slots other
      ∙ elim (Bool-cases (same_name other name)) [
        | inl same ↦
            rw same (ap (entry_of slots) (strcmp-eq other name same ∙ named.1) ∙ u.0 named.0)
        | inr differ ↦
            let not_e : is_for e other ≡ false =
              rw (← named.1) (ap (λ (b : Bool). e.in_use && b) differ ∙ simp named.0) in
            rw differ (sym (entry_of-later e slots other not_e))
      ]
  | inr later ↦
      let ih = entry_of-clear slots name other u.1 in
      ap (λ (l : List DirEntry). entry_of l other) (clear-later e slots name later)
      ∙ elim (Bool-cases (same_name other name)) [
        | inl same ↦
            let not_e : is_for e other ≡ false = rw (strcmp-eq other name same) later in
            rw same (entry_of-later e (clear slots name) other not_e ∙ ih ∙ rw same refl)
        | inr differ ↦
            rw differ (entry_of-same e (clear slots name) slots other (ih ∙ rw differ refl))
      ]
]

pub clear-IsUnique :
    (slots : List DirEntry) (name : List ℕ) → IsUnique slots → IsUnique (clear slots name)
clear-IsUnique [] name u = unfold clear in tt
clear-IsUnique (e ∷ slots) name u = elim (Bool-cases (is_for e name)) [
  | inl here ↦ subst IsUnique (sym (clear-here e slots name here)) (λ t. absurd (cc), u.1)
  | inr later ↦ subst IsUnique (sym (clear-later e slots name later)) (
    λ t. entry_of-clear slots name e.name u.1 ∙ rw (u.0 t) (ground arith),
    clear-IsUnique slots name u.1,
  )
]
