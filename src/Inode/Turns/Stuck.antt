-- ===== src/Inode/Turns/Stuck.antt =====
-- pintos/src/filesys/inode.c: an inode after a growth that failed.
use ospersonal.Common.{
  Bool, ap, arith, false, inl, inr, length, not_false_and_true, refl, suc, true, ℕ, ◌-◌, ◌<◌, ◌∙◌,
  ◌≡◌,
}
use ospersonal.Inode.Turns.{Turns, waits, goes_on, read_round, write_round, growth_end, write_end}
use ospersonal.Inode.Turns.Places.{
  Places, TurnStep, read_step, write_enters, write_sleeps, write_grows, write_goes, growth_ends,
  write_leaves, deny_sleeps, denies, opens, closes, allows, TurnReach, at_start, step_on, no_turns,
}
use ospersonal.Inode.Turns.Rounds.{
  inode_deny_write-turn, inode_allow_write-turn, read_round-Slept, write_begin-admitted,
  write_round-turn,
}
use ospersonal.Inode.Turns.Order.{no_turns-InTurn, TurnReach-InTurn}

-- A growth is marked, and nobody is at one.
record Abandoned (x : Places) : Type 0 where
  marked : x.turns.extending ≡ true
  nobody : x.growing ≡ 0

abbrev with_turns : Places → Turns → Places
with_turns x t = record x { turns = t }

write_round-marked : (t : Turns) (end : ℕ) → t.extending ≡ true → (write_round t end).0 ≡ waits
unfolding write_round
write_round-marked t end h = rw h refl

write_round-extending :
    (t : Turns) (end : ℕ) → t.extending ≡ true → (write_round t end).1.extending ≡ true
write_round-extending t end h = elim (write_round-turn t end) [
  | inl (ext, r) ↦ rw r ext
  | inr (inl (no_ext, r)) ↦ rw r refl
  | inr (inr (no_ext, r)) ↦ not_false_and_true h no_ext
]

read_round-marked :
    (t : Turns) (woken : Bool) (end : ℕ) → t.extending ≡ true → (read_round t woken end).0 ≡ waits
unfolding read_round
read_round-marked t woken end h = ground arith

write_end-extending : (t : Turns) → (write_end t).extending ≡ t.extending
unfolding write_end
write_end-extending t = ground arith

TurnStep-Abandoned : (x y : Places) → Abandoned x → TurnStep x y → Abandoned y
TurnStep-Abandoned x y v (read_step woken end) = record {
  marked = (read_round-Slept x.turns woken end).same_extending ∙ v.marked;
  nobody = v.nobody;
}
TurnStep-Abandoned x y v (write_enters e) = record {
  marked = ap (λ (t : Turns). t.extending) (write_begin-admitted x.turns e).1 ∙ v.marked;
  nobody = v.nobody;
}
TurnStep-Abandoned x y v (write_sleeps n end one e) = record {
  marked = write_round-extending x.turns end v.marked;
  nobody = v.nobody;
}
TurnStep-Abandoned x y v (write_grows n end one e) =
    absurd (cc (write_round-marked x.turns end v.marked))
TurnStep-Abandoned x y v (write_goes n end one e) = record {
  marked = write_round-extending x.turns end v.marked;
  nobody = v.nobody;
}
TurnStep-Abandoned x y v (growth_ends n ok end one) = absurd (omega (arith, v.nobody))
TurnStep-Abandoned x y v (write_leaves n one) = record {
  marked = write_end-extending x.turns ∙ v.marked;
  nobody = v.nobody;
}
TurnStep-Abandoned x y v (deny_sleeps t e) = record {
  marked = elim (inode_deny_write-turn x.turns t waits e) [
    | inl (same, after, neg) ↦ ap (λ (u : Turns). u.extending) after ∙ v.marked
    | inr (same, after, free) ↦ ap (λ (u : Turns). u.extending) after ∙ v.marked
  ];
  nobody = v.nobody;
}
TurnStep-Abandoned x y v (denies t few e) = record {
  marked = elim (inode_deny_write-turn x.turns t goes_on e) [
    | inl (same, after, neg) ↦ ap (λ (u : Turns). u.extending) after ∙ v.marked
    | inr (same, after, free) ↦ ap (λ (u : Turns). u.extending) after ∙ v.marked
  ];
  nobody = v.nobody;
}
TurnStep-Abandoned x y v opens = record { marked = v.marked; nobody = v.nobody }
TurnStep-Abandoned x y v (closes n one left) = record { marked = v.marked; nobody = v.nobody }
TurnStep-Abandoned x y v (allows n t one e) = record {
  marked = ap (λ (u : Turns). u.extending) (inode_allow_write-turn x.turns t e).0 ∙ v.marked;
  nobody = v.nobody;
}

TurnReach-Abandoned : (x y : Places) → Abandoned x → TurnReach x y → Abandoned y
TurnReach-Abandoned x y v at_start = v
TurnReach-Abandoned x y v (step_on z y' before s) =
    TurnStep-Abandoned z y' (TurnReach-Abandoned x z v before) s

-- The state in which allocate_file has answered false to a writer, which goes on to its loop.
abbrev pub growth_failed : Places → ℕ → Places
growth_failed x end = record x {
  turns = growth_end x.turns false end;
  growing = x.growing - 1;
  writing = suc x.writing;
}

-- Once a call of allocate_file from inode_write_at has failed, no later round of a reader or of
-- a writer ever gets past its wait, under every order of the steps before and after.
pub failed_growth_blocks :
    (length open_cnt end : ℕ) (x y : Places)
    → TurnReach (no_turns length open_cnt) x
    → 0 < x.growing
    → TurnReach (growth_failed x end) y
    → (woken : Bool) (later : ℕ)
    → ((read_round y.turns woken later).0 ≡ waits) × ((write_round y.turns later).0 ≡ waits)
unfolding growth_end
failed_growth_blocks length open_cnt end x y before grows after woken later =
    let v =
      TurnReach-InTurn (no_turns length open_cnt) x (no_turns-InTurn length open_cnt) before in
    let start : Abandoned (growth_failed x end) = record {
      marked = v.growth grows;
      nobody = omega (arith, v.one_grows);
    } in
    let w = TurnReach-Abandoned (growth_failed x end) y start after in
    (read_round-marked y.turns woken later w.marked, write_round-marked y.turns later w.marked)
