-- ===== src/Directory/Adding.antt =====
-- pintos/src/filesys/directory.c: what a call of dir_add or dir_remove is to do, and dir_add.
use ospersonal.Common.{
  Bool, Bool-cases, List, Option, [], ap, arith, false, if◌then◌else◌, inl, inr, length, ltb, none,
  not, refl, some, suc, sym, take, true, zero, ℕ, ◌&&◌, ◌==◌, ◌||◌, ◌∙◌, ◌∷◌, ◌≡◌, ◌≤◌, ◌⊎◌,
}
use ospersonal.Directory.{
  DirEntry, lookup, sector_found, dir_lookup, write_entry, free_entry, is_found, dir_add,
  dir_remove,
}
use ospersonal.Directory.Filling.{
  entry_of, IsUnique, has_free, lookup_from-entry_of, filled, fill, write_entry-filled,
  entry_of-fill, fill-IsUnique, same_name,
}

pub data DirCall : Type 0 where
  add : Bool → Bool → List ℕ → ℕ → DirCall
  remove : Bool → Bool → List ℕ → DirCall

abbrev pub dir_call : List DirEntry → DirCall → Bool × List DirEntry
dir_call slots (add writes grows name sector) = dir_add writes grows slots name sector
dir_call slots (remove opens writes name) =
    ((dir_remove opens writes slots name).0, (dir_remove opens writes slots name).1)

abbrev pub is_some : Option ℕ → Bool
is_some none = false
is_some (some a) = true

abbrev pub is_valid_name : List ℕ → Bool
is_valid_name name = ltb 0 (length name) && ltb (length name) 15

-- When a call succeeds: an addition of a valid name that is not there yet, to a directory with a free
-- entry or that can grow; a removal of a name that is there and whose inode can be opened; and each only
-- where the entry can be written.
abbrev pub accepts : List DirEntry → DirCall → Bool
accepts slots (add writes grows name sector) =
    is_valid_name name
    && not (is_some (dir_lookup slots name))
    && (writes && (has_free slots || grows))
accepts slots (remove opens writes name) = is_some (dir_lookup slots name) && opens && writes

abbrev pub name_of : DirCall → List ℕ
name_of (add writes grows name sector) = name
name_of (remove opens writes name) = name

abbrev pub new_sector : DirCall → Option ℕ
new_sector (add writes grows name sector) = some sector
new_sector (remove opens writes name) = none

pub record Updates (slots : List DirEntry) (c : DirCall) (r : Bool × List DirEntry) : Type 0 where
  pub answer : r.0 ≡ accepts slots c
  pub unique : IsUnique r.1
  pub lookups :
      (name : List ℕ)
      → dir_lookup r.1 name ≡ (
          if accepts slots c && same_name name (name_of c)
          then new_sector c
          else dir_lookup slots name)

take-all : (n : ℕ) (s : List ℕ) → length s ≤ n → take n s ≡ s
take-all zero [] h = refl
take-all zero (x ∷ s) h = absurd (omega arith)
take-all (suc n) [] h = refl
take-all (suc n) (x ∷ s) h = ap (λ (r : List ℕ). x ∷ r) (take-all n s (omega arith))

pub unchanged :
    (slots : List DirEntry) (c : DirCall)
    → IsUnique slots
    → accepts slots c ≡ false
    → Updates slots c (false, slots)
unchanged slots c u refused = record {
  answer = sym refused;
  unique = u;
  lookups = λ name. rw refused refl;
}

found_of :
    (slots : List DirEntry) (name : List ℕ)
    → is_found (lookup slots name) ≡ is_some (dir_lookup slots name)
found_of slots name = go (lookup slots name)
  where
    go : (o : Option (DirEntry × ℕ)) → is_found o ≡ is_some (sector_found o)
    go none = refl
    go (some r) = refl

not_found :
    (slots : List DirEntry) (name : List ℕ)
    → is_some (dir_lookup slots name) ≡ false
    → entry_of slots name ≡ none
not_found slots name h = sym (lookup_from-entry_of 0 slots name) ∙ ground arith

all_three : {a b c : Bool} → a ≡ true → b ≡ false → c ≡ true → (a && not b && c) ≡ true
all_three p q r = rw (p, q, r) refl

first_fails : {a : Bool} (b c : Bool) → a ≡ false → (a && b && c) ≡ false
first_fails b c p = rw p refl

second_fails : (a : Bool) {b : Bool} (c : Bool) → b ≡ true → (a && not b && c) ≡ false
second_fails a c q = rw q (ground arith)

third_fails : (a b : Bool) {c : Bool} → c ≡ false → (a && b && c) ≡ false
third_fails a b r = rw r (ground arith)

add_filled :
    (slots : List DirEntry) (writes grows : Bool) (name : List ℕ) (sector : ℕ)
    → IsUnique slots
    → is_valid_name name ≡ true
    → is_some (dir_lookup slots name) ≡ false
    → Updates slots (add writes grows name sector) (
        filled
          (writes && (has_free slots || grows))
          slots
          (record { inode_sector = sector; name = name; in_use = true }))
add_filled slots writes grows name sector u valid fresh =
    let n : DirEntry = record { inode_sector = sector; name = name; in_use = true } in
    let absent = not_found slots name fresh in
    elim (Bool-cases (writes && (has_free slots || grows))) [
      | inl room ↦
          let yes_call = all_three valid fresh room in
          rw room (record {
            answer = sym yes_call;
            unique = fill-IsUnique slots n refl absent u;
            lookups = λ other.
                lookup_from-entry_of 0 (fill slots n) other
                ∙ entry_of-fill slots n other refl absent
                ∙ ap (λ (r : Option ℕ). if same_name other name then some sector else r)
                    (sym (lookup_from-entry_of 0 slots other))
                ∙ ap
                    (λ (b : Bool).
                      if b && same_name other name then some sector else dir_lookup slots other)
                    (sym yes_call);
          })
      | inr full ↦ rw full (
          unchanged slots (add writes grows name sector) u
            (third_fails (is_valid_name name) (not (is_some (dir_lookup slots name))) full))
    ]

write_entry-writes :
    (writes grows : Bool) (slots : List DirEntry) (e : DirEntry)
    → (if writes then write_entry grows slots (free_entry slots) e else (false, slots))
      ≡ filled (writes && (has_free slots || grows)) slots e
write_entry-writes true grows slots e = write_entry-filled grows slots e
write_entry-writes false grows slots e = refl

module _ (slots : List DirEntry) (writes grows : Bool) (name : List ℕ) (sector : ℕ)
    (u : IsUnique slots) where
  add_when :
      (bad : Bool)
      → is_valid_name name ≡ not bad
      → (length name ≤ 14 ⊎ (bad ≡ true))
      → Updates slots (add writes grows name sector) (
          if bad
          then (false, slots)
          else if is_found (lookup slots name)
          then (false, slots)
          else if writes
          then write_entry grows slots
              (free_entry slots)
              (record { inode_sector = sector; name = take 14 name; in_use = true })
          else (false, slots))
  add_when true invalid short = unchanged slots (add writes grows name sector) u (
      first_fails (not (is_some (dir_lookup slots name))) (writes && (has_free slots || grows))
        invalid)
  add_when false valid (inr never) = absurd (cc)
  add_when false valid (inl short) = elim (Bool-cases (is_some (dir_lookup slots name))) [
    | inl there ↦
        rw (found_of slots name, there)
          (unchanged slots (add writes grows name sector) u
            (second_fails (is_valid_name name) (writes && (has_free slots || grows)) there))
    | inr fresh ↦
        rw (found_of slots name, fresh, take-all 14 name short)
          (rw
            (write_entry-writes writes grows slots
              (record { inode_sector = sector; name = name; in_use = true }))
            (add_filled slots writes grows name sector u valid fresh))
  ]

  valid_iff : is_valid_name name ≡ not (length name == 0 || ltb 14 (length name))
  valid_iff = ground arith

  short_or_bad : (length name ≤ 14) ⊎ ((length name == 0 || ltb 14 (length name)) ≡ true)
  short_or_bad = elim (Bool-cases (ltb 14 (length name))) [
    | inl long ↦ inr (ground arith)
    | inr short ↦ inl (ground arith)
  ]

  pub dir_add-Updates :
      Updates slots (add writes grows name sector) (dir_add writes grows slots name sector)
  unfolding dir_add
  dir_add-Updates = add_when (length name == 0 || ltb 14 (length name)) valid_iff short_or_bad
