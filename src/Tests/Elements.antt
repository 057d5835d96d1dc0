-- ===== src/Tests/Elements.antt =====
-- pintos/src/lib/kernel/list.c: a list of two elements, with its head at 8 and its tail at 16.
use ospersonal.Common.{[], arith, if◌then◌else◌, refl, some, ◌==◌, ◌∷◌, ◌≡◌}
use ospersonal.Links.{Links, KernelList}
use ospersonal.Links.Lists.{IsList, Edited}
use ospersonal.Links.Edits.{put_in, run_edit, list_edit-Edited}

abbrev ends : KernelList
ends = record { head = 8; tail = 16 }

-- 8, 24, 32, 16 in this order.
abbrev pair : Links
pair = record {
  prev = λ e. if e == 24 then 8 else if e == 32 then 24 else if e == 16 then 32 else 0;
  next = λ e. if e == 8 then 24 else if e == 24 then 32 else if e == 32 then 16 else 0;
}

pair-IsList : IsList pair ends (24 ∷ 32 ∷ [])
pair-IsList = record {
  links = (refl, refl, (refl, refl, (refl, refl, tt)));
  first = refl;
  last = refl;
  distinct = omega arith;
  not_null = omega arith;
}

list_edit-Edited_example :
    (h' : Links) × (run_edit pair ends (put_in 40 (24 ∷ []) (32 ∷ [])) ≡ some h')
    × Edited pair ends (24 ∷ 40 ∷ 32 ∷ []) 40 h'
list_edit-Edited_example =
    list_edit-Edited pair ends (put_in 40 (24 ∷ []) (32 ∷ [])) pair-IsList (omega arith)
