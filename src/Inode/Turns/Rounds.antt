-- ===== src/Inode/Turns/Rounds.antt =====
-- pintos/src/filesys/inode.c: how the stretches under inode_lock end, and what each changes.
use ospersonal.Common.{
  Bool, Bool-cases, ap, arith, false, inl, inr, ltb, none, not_false_and_true, refl, some,
  some_injective, subst, suc, sym, true, zero, ℕ, ◌+◌, ◌∙◌, ◌≡◌, ◌⊎◌,
}
use ospersonal.Inode.Turns.{
  allow_load, allow_store, ℤ, pos, negsuc, increment, decrement, is_negative, is_positive, at_most,
  Turns, Turn, waits, answers, goes_on, read_round, write_begin, write_round, inode_deny_write,
  inode_allow_write,
}
use ospersonal.Inode.Turns.Balance.{Balance}
use ospersonal.Inode.Turns.Places.{Places, InTurn}

-- A round that sleeps or passes, and changes nothing else.
pub record Slept (t t' : Turns) : Type 0 where
  pub same_cnt : t'.deny_write_cnt ≡ t.deny_write_cnt
  pub same_extending : t'.extending ≡ t.extending
  pub same_openers : t'.open_cnt ≡ t.open_cnt
  pub same_writers : t'.until_not_extending_writers ≡ t.until_not_extending_writers
  pub growth_readers :
      t.extending ≡ false → t'.until_not_extending_readers ≡ t.until_not_extending_readers
  pub writers_sleepers :
      is_negative t.deny_write_cnt ≡ false
      → t'.until_no_writers_readers + t'.until_no_writers_deniers
        ≡ t.until_no_writers_readers + t.until_no_writers_deniers

pub Slept-InTurn :
    (x : Places) (t : Turns) → Slept x.turns t → InTurn x → InTurn (record x { turns = t })
Slept-InTurn x t s v = record {
  balance =
      subst
        (λ (z : ℤ).
          Balance z (x.entered + t.until_not_extending_writers + x.growing + x.writing) x.denials)
        (sym s.same_cnt)
        (subst
          (λ (n : ℕ).
            Balance x.turns.deny_write_cnt (x.entered + n + x.growing + x.writing) x.denials)
          (sym s.same_writers) v.balance);
  openers = omega (arith, v.openers, s.same_openers);
  one_grows = v.one_grows;
  growth = λ h. s.same_extending ∙ v.growth h;
  sleep_growth = λ h.
      let h' = sym s.same_extending ∙ h in
      omega (arith, v.sleep_growth h', s.growth_readers h', s.same_writers);
  sleep_writers = λ h.
      let h' = ap is_negative (sym s.same_cnt) ∙ h in s.writers_sleepers h' ∙ v.sleep_writers h';
}

pub read_round-Slept : (t : Turns) (woken : Bool) (end : ℕ) → Slept t (read_round t woken end).1
unfolding read_round
read_round-Slept t woken end = record {
  same_cnt = ground arith;
  same_extending = ground arith;
  same_openers = ground arith;
  same_writers = ground arith;
  growth_readers = λ h. ground arith;
  writers_sleepers = λ h. ground arith;
}

pub inode_deny_write-negative :
    (t : Turns)
    → is_negative t.deny_write_cnt ≡ true
    → inode_deny_write t
      ≡ some (waits, record t { until_no_writers_deniers = suc t.until_no_writers_deniers })
unfolding inode_deny_write
inode_deny_write-negative t h = rw h refl

pub inode_deny_write-free :
    (t : Turns)
    → is_negative t.deny_write_cnt ≡ false
    → at_most (increment t.deny_write_cnt) t.open_cnt ≡ true
    → inode_deny_write t ≡ some (goes_on, record t { deny_write_cnt = increment t.deny_write_cnt })
unfolding inode_deny_write
inode_deny_write-free t h few = rw (h, few) refl

inode_deny_write-over :
    (t : Turns)
    → is_negative t.deny_write_cnt ≡ false
    → at_most (increment t.deny_write_cnt) t.open_cnt ≡ false
    → inode_deny_write t ≡ none
unfolding inode_deny_write
inode_deny_write-over t h many = rw (h, many) refl

inode_allow_write-over :
    (t : Turns)
    → is_positive t.deny_write_cnt ≡ true
    → at_most t.deny_write_cnt t.open_cnt ≡ false
    → inode_allow_write t ≡ none
unfolding inode_allow_write allow_load allow_store
inode_allow_write-over t h many = rw (h, many) refl

inode_allow_write-free :
    (t : Turns) → is_positive t.deny_write_cnt ≡ false → inode_allow_write t ≡ none
unfolding inode_allow_write allow_load allow_store
inode_allow_write-free t h = rw h refl

pub inode_allow_write-denied :
    (t : Turns)
    → is_positive t.deny_write_cnt ≡ true
    → at_most t.deny_write_cnt t.open_cnt ≡ true
    → inode_allow_write t ≡ some (record t { deny_write_cnt = decrement t.deny_write_cnt })
unfolding inode_allow_write allow_load allow_store
inode_allow_write-denied t h few = rw (h, few) refl

pub decrement-negative : (z : ℤ) → is_positive z ≡ false → is_negative (decrement z) ≡ true
decrement-negative (pos zero) h = refl
decrement-negative (pos (suc n)) h = absurd (not_false_and_true (ground arith) h)
decrement-negative (negsuc n) h = refl

answers-goes_on : {A : Type 0} → answers ≡ goes_on → A
answers-goes_on e = absurd (cc)

pub write_begin-admitted :
    (t : Turns)
    → (write_begin t).0 ≡ goes_on
    → (is_positive t.deny_write_cnt ≡ false)
      × ((write_begin t).1 ≡ record t { deny_write_cnt = decrement t.deny_write_cnt })
unfolding write_begin
write_begin-admitted t e = elim (Bool-cases (is_positive t.deny_write_cnt)) [
  | inl denied ↦ answers-goes_on (rw denied refl ∙ e)
  | inr free ↦ (free, rw free refl)
]

pub write_round-turn :
    (t : Turns) (end : ℕ)
    → ((t.extending ≡ true)
        × (write_round t end ≡ (
          waits,
          record t { until_not_extending_writers = suc t.until_not_extending_writers },
        )))
      ⊎ ((t.extending ≡ false) × (write_round t end ≡ (answers, record t { extending = true })))
      ⊎ ((t.extending ≡ false) × (write_round t end ≡ (goes_on, t)))
unfolding write_round
write_round-turn t end = elim (Bool-cases t.extending) [
  | inl ext ↦ inl (ext, rw ext refl)
  | inr no_ext ↦ elim (Bool-cases (ltb t.length end)) [
    | inl longer ↦ inr (inl (no_ext, rw (no_ext, longer) refl))
    | inr inside ↦ inr (inr (no_ext, rw (no_ext, inside) refl))
  ]
]

-- The threads at the call sleep, or writes are denied once more.
pub inode_deny_write-turn :
    (t t' : Turns) (turn : Turn)
    → inode_deny_write t ≡ some (turn, t')
    → ((turn ≡ waits)
        × (t' ≡ record t { until_no_writers_deniers = suc t.until_no_writers_deniers })
        × (is_negative t.deny_write_cnt ≡ true))
      ⊎ ((turn ≡ goes_on)
          × (t' ≡ record t { deny_write_cnt = increment t.deny_write_cnt })
          × (is_negative t.deny_write_cnt ≡ false))
unfolding inode_deny_write
inode_deny_write-turn t t' turn e = elim (Bool-cases (is_negative t.deny_write_cnt)) [
  | inl neg ↦
      let p = some_injective (sym e ∙ rw neg refl) in inl (ap (λ r. r.0) p, ap (λ r. r.1) p, neg)
  | inr free ↦ elim (Bool-cases (at_most (increment t.deny_write_cnt) t.open_cnt)) [
    | inl few ↦
        let p = some_injective (sym e ∙ inode_deny_write-free t free few) in
        inr (ap (λ r. r.0) p, ap (λ r. r.1) p, free)
    | inr many ↦ absurd (cc (sym e ∙ inode_deny_write-over t free many))
  ]
]

pub inode_allow_write-turn :
    (t t' : Turns)
    → inode_allow_write t ≡ some t'
    → (t' ≡ record t { deny_write_cnt = decrement t.deny_write_cnt })
      × (is_positive t.deny_write_cnt ≡ true)
inode_allow_write-turn t t' e = elim (Bool-cases (is_positive t.deny_write_cnt)) [
  | inl denied ↦ elim (Bool-cases (at_most t.deny_write_cnt t.open_cnt)) [
    | inl few ↦ (sym (some_injective (sym (inode_allow_write-denied t denied few) ∙ e)), denied)
    | inr many ↦ absurd (cc (sym e ∙ inode_allow_write-over t denied many))
  ]
  | inr free ↦ absurd (cc (sym e ∙ inode_allow_write-free t free))
]
