-- ===== src/Inode/Turns/Order.antt =====
-- pintos/src/filesys/inode.c: what holds of readers, writers and denials under every order of their steps.
use ospersonal.Common.{
  Bool, Bool-cases, arith, false, if◌then◌else◌, inl, inr, length, not_false_and_true, refl, some,
  subst, suc, sym, true, ℕ, ◌+◌, ◌<◌, ◌≡◌,
}
use ospersonal.Inode.Turns.{
  increment, is_zero, Turns, waits, answers, goes_on, read_round, write_begin, write_round,
  growth_end, write_end, inode_deny_write, inode_allow_write,
}
use ospersonal.Inode.Turns.Balance.{
  Balance, quiet, Balance-quiet, Balance-enter, Balance-leave, Balance-deny, Balance-allow,
  Balance-negative, increment-is_zero,
}
use ospersonal.Inode.Turns.Places.{
  Places, writers, TurnStep, read_step, write_enters, write_sleeps, write_grows, write_goes,
  growth_ends, write_leaves, deny_sleeps, denies, opens, closes, allows, TurnReach, at_start,
  step_on, no_turns, InTurn,
}
use ospersonal.Inode.Turns.Rounds.{
  Slept-InTurn, read_round-Slept, inode_deny_write-turn, inode_allow_write-turn, decrement-negative,
  write_begin-admitted, write_round-turn,
}

module _ (x : Places) (v : InTurn x) where
  Balance-moved : (w : ℕ) → w ≡ writers x → Balance x.turns.deny_write_cnt w x.denials
  Balance-moved w e =
      subst (λ (n : ℕ). Balance x.turns.deny_write_cnt n x.denials) (sym e) v.balance

  write_enters-InTurn :
      (write_begin x.turns).0 ≡ goes_on
      → InTurn (record x { turns = (write_begin x.turns).1; entered = suc x.entered })
  write_enters-InTurn e =
      let (free, e') = write_begin-admitted x.turns e in
      rw e' (record {
        balance =
            Balance-enter x.turns.deny_write_cnt (writers x) _ x.denials v.balance free
              (omega arith);
        openers = v.openers;
        one_grows = v.one_grows;
        growth = v.growth;
        sleep_growth = v.sleep_growth;
        sleep_writers = λ h. not_false_and_true (decrement-negative x.turns.deny_write_cnt free) h;
      })

  write_sleeps-InTurn :
      (n end : ℕ)
      → x.entered ≡ suc n
      → (write_round x.turns end).0 ≡ waits
      → InTurn (record x { turns = (write_round x.turns end).1; entered = n })
  write_sleeps-InTurn n end some_entered e = elim (write_round-turn x.turns end) [
    | inl (ext, r) ↦ rw r (record {
      balance = Balance-moved _ (omega arith);
      openers = v.openers;
      one_grows = v.one_grows;
      growth = λ h. ext;
      sleep_growth = λ h. not_false_and_true ext h;
      sleep_writers = v.sleep_writers;
    })
    | inr (inl (no_ext, r)) ↦ absurd (cc)
    | inr (inr (no_ext, r)) ↦ absurd (cc)
  ]

  write_grows-InTurn :
      (n end : ℕ)
      → x.entered ≡ suc n
      → (write_round x.turns end).0 ≡ answers
      → InTurn
          (record x { turns = (write_round x.turns end).1; entered = n; growing = suc x.growing })
  write_grows-InTurn n end some_entered e = elim (write_round-turn x.turns end) [
    | inl (ext, r) ↦ absurd (cc)
    | inr (inl (no_ext, r)) ↦ rw r (record {
      balance = Balance-moved _ (omega arith);
      openers = v.openers;
      one_grows = ground (arith, v.growth);
      growth = λ h. refl;
      sleep_growth = λ h. absurd (cc);
      sleep_writers = v.sleep_writers;
    })
    | inr (inr (no_ext, r)) ↦ absurd (cc)
  ]

  write_goes-InTurn :
      (n end : ℕ)
      → x.entered ≡ suc n
      → (write_round x.turns end).0 ≡ goes_on
      → InTurn
          (record x { turns = (write_round x.turns end).1; entered = n; writing = suc x.writing })
  write_goes-InTurn n end some_entered e = elim (write_round-turn x.turns end) [
    | inl (ext, r) ↦ absurd (cc)
    | inr (inl (no_ext, r)) ↦ absurd (cc)
    | inr (inr (no_ext, r)) ↦ rw r (record {
      balance = Balance-moved _ (omega arith);
      openers = v.openers;
      one_grows = v.one_grows;
      growth = v.growth;
      sleep_growth = v.sleep_growth;
      sleep_writers = v.sleep_writers;
    })
  ]

  growth_ends-InTurn :
      (n : ℕ) (ok : Bool) (end : ℕ)
      → x.growing ≡ suc n
      → InTurn (record x {
        turns = growth_end x.turns ok end;
        entered = x.entered + (if ok then x.turns.until_not_extending_writers else 0);
        growing = n;
        writing = suc x.writing;
      })
  unfolding growth_end
  growth_ends-InTurn n true end one = record {
    balance = Balance-moved _ (omega arith);
    openers = v.openers;
    one_grows = omega (arith, v.one_grows);
    growth = λ h. absurd (omega (arith, v.one_grows));
    sleep_growth = λ h. refl;
    sleep_writers = v.sleep_writers;
  }
  growth_ends-InTurn n false end one = record {
    balance = Balance-moved _ (omega arith);
    openers = v.openers;
    one_grows = omega (arith, v.one_grows);
    growth = λ h. absurd (omega (arith, v.one_grows));
    sleep_growth = v.sleep_growth;
    sleep_writers = v.sleep_writers;
  }

  write_leaves-InTurn :
      (n : ℕ) → x.writing ≡ suc n → InTurn (record x { turns = write_end x.turns; writing = n })
  unfolding write_end
  write_leaves-InTurn n one = elim (Bool-cases (is_zero (increment x.turns.deny_write_cnt))) [
    | inl zero_now ↦ rw zero_now (record {
      balance =
          Balance-leave x.turns.deny_write_cnt (writers x) _ x.denials v.balance (omega arith);
      openers = v.openers;
      one_grows = v.one_grows;
      growth = v.growth;
      sleep_growth = v.sleep_growth;
      sleep_writers = λ h. refl;
    })
    | inr others ↦ rw others (record {
      balance =
          Balance-leave x.turns.deny_write_cnt (writers x) _ x.denials v.balance (omega arith);
      openers = v.openers;
      one_grows = v.one_grows;
      growth = v.growth;
      sleep_growth = v.sleep_growth;
      sleep_writers = λ h.
          not_false_and_true
            (increment-is_zero x.turns.deny_write_cnt (writers x) x.denials v.balance (omega arith)
              others)
            h;
    })
  ]

  deny_sleeps-InTurn :
      (t : Turns) → inode_deny_write x.turns ≡ some (waits, t) → InTurn (record x { turns = t })
  deny_sleeps-InTurn t e = elim (inode_deny_write-turn x.turns t waits e) [
    | inl (same, after, neg) ↦ rw after (record {
      balance = v.balance;
      openers = v.openers;
      one_grows = v.one_grows;
      growth = v.growth;
      sleep_growth = v.sleep_growth;
      sleep_writers = λ h. not_false_and_true neg h;
    })
    | inr (other, after, free) ↦ absurd (cc)
  ]

  denies-InTurn :
      (t : Turns)
      → x.denials < x.turns.open_cnt
      → inode_deny_write x.turns ≡ some (goes_on, t)
      → InTurn (record x { turns = t; denials = suc x.denials })
  denies-InTurn t few e = elim (inode_deny_write-turn x.turns t goes_on e) [
    | inl (other, after, neg) ↦ absurd (cc)
    | inr (same, after, free) ↦ rw after (record {
      balance = Balance-deny x.turns.deny_write_cnt (writers x) x.denials v.balance free;
      openers = omega arith;
      one_grows = v.one_grows;
      growth = v.growth;
      sleep_growth = v.sleep_growth;
      sleep_writers = λ h. v.sleep_writers free;
    })
  ]

  allows-InTurn :
      (n : ℕ) (t : Turns)
      → x.denials ≡ suc n
      → inode_allow_write x.turns ≡ some t
      → InTurn (record x { turns = t; denials = n })
  allows-InTurn n t one e =
      let (after, denied) = inode_allow_write-turn x.turns t e in
      let alone =
        Balance-quiet x.turns.deny_write_cnt (writers x) x.denials v.balance (omega arith) in
      rw after (record {
        balance = Balance-allow x.turns.deny_write_cnt (writers x) x.denials n v.balance one;
        openers = omega (arith, v.openers);
        one_grows = v.one_grows;
        growth = v.growth;
        sleep_growth = v.sleep_growth;
        sleep_writers = λ h.
            v.sleep_writers
              (Balance-negative x.turns.deny_write_cnt (writers x) x.denials v.balance alone);
      })

  pub TurnStep-InTurn : (y : Places) → TurnStep x y → InTurn y
  TurnStep-InTurn y (read_step woken end) =
      Slept-InTurn x (read_round x.turns woken end).1 (read_round-Slept x.turns woken end) v
  TurnStep-InTurn y (write_enters e) = write_enters-InTurn e
  TurnStep-InTurn y (write_sleeps n end one e) = write_sleeps-InTurn n end one e
  TurnStep-InTurn y (write_grows n end one e) = write_grows-InTurn n end one e
  TurnStep-InTurn y (write_goes n end one e) = write_goes-InTurn n end one e
  TurnStep-InTurn y (growth_ends n ok end one) = growth_ends-InTurn n ok end one
  TurnStep-InTurn y (write_leaves n one) = write_leaves-InTurn n one
  TurnStep-InTurn y (deny_sleeps t e) = deny_sleeps-InTurn t e
  TurnStep-InTurn y (denies t few e) = denies-InTurn t few e
  TurnStep-InTurn y opens = record {
    balance = v.balance;
    openers = omega (arith, v.openers);
    one_grows = v.one_grows;
    growth = v.growth;
    sleep_growth = v.sleep_growth;
    sleep_writers = v.sleep_writers;
  }
  TurnStep-InTurn y (closes n one left) = record {
    balance = v.balance;
    openers = left;
    one_grows = v.one_grows;
    growth = v.growth;
    sleep_growth = v.sleep_growth;
    sleep_writers = v.sleep_writers;
  }
  TurnStep-InTurn y (allows n t one e) = allows-InTurn n t one e

pub no_turns-InTurn : (length open_cnt : ℕ) → InTurn (no_turns length open_cnt)
no_turns-InTurn length open_cnt = record {
  balance = quiet refl refl;
  openers = omega arith;
  one_grows = omega arith;
  growth = λ h. absurd (omega arith);
  sleep_growth = λ h. refl;
  sleep_writers = λ h. refl;
}

pub TurnReach-InTurn : (x y : Places) → InTurn x → TurnReach x y → InTurn y
TurnReach-InTurn x y v at_start = v
TurnReach-InTurn x y v (step_on z y' before s) =
    TurnStep-InTurn z (TurnReach-InTurn x z v before) y' s
