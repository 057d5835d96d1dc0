-- ===== src/Process/Lifetime.antt =====
-- pintos/src/userprog/process.c: the shared record over the lives of its owners.
use ospersonal.Common.{
  ℕ, ◌+◌, ◌-◌, ◌≡◌, ◌≢◌, ◌⊎◌, ◌↔◌, inl, inr, refl, ◌∙◌, sym, ap, Bool, true, false, Option, none,
  some, arith, some_injective, subst,
}
use ospersonal.Process.{
  Share, setup_share, exit_share, wait_end, Parent, listed, waiting, gone, Family, new_family, Call,
  child_exits, parent_exits, parent_waits, parent_goes_on, call, Lives, born, lives_on,
}

abbrev at_work : Parent → Bool
at_work gone = false
at_work _ = true

-- Who still counts on the record, and what it holds.
data Stage : Family → Type 0 where
  both_count :
      (s : Share) (p : Parent)
      → at_work p ≡ true
      → s.refcount ≡ 2
      → s.sig ≡ 0
      → Stage (record { share = some s; parent = p; exited = none; answer = none })
  parent_counts :
      (s : Share) (p : Parent) (v : ℕ)
      → at_work p ≡ true
      → s.refcount ≡ 1
      → s.sig ≡ 1
      → s.rvalue ≡ v
      → Stage (record { share = some s; parent = p; exited = some v; answer = none })
  child_counts :
      (s : Share)
      → s.refcount ≡ 1
      → Stage (record { share = some s; parent = gone; exited = none; answer = none })
  freed :
      (v : ℕ) (answer : Option ℕ)
      → (answer ≡ none) ⊎ (answer ≡ some v)
      → Stage (record { share = none; parent = gone; exited = some v; answer = answer })

call-Stage : (x : Family) (c : Call x) → Stage x → (y : Family) × (call x c ≡ some y) × Stage y
unfolding call exit_share wait_end
call-Stage x (child_exits v h) (both_count s p w r g) = (
  record {
    share = some (record s { refcount = s.refcount - 1; rvalue = v; sig = s.sig + 1 });
    parent = p;
    exited = some v;
    answer = none;
  },
  ground (arith, r),
  parent_counts _ p v w (ground (arith, r)) (ground (arith, g)) refl,
)
call-Stage x (child_exits v h) (parent_counts s p u w r g q) = absurd (cc)
call-Stage x (child_exits v h) (child_counts s r) = (
  record { share = none; parent = gone; exited = some v; answer = none },
  ground (arith, r),
  freed v none (inl refl),
)
call-Stage x (child_exits v h) (freed u a o) = absurd (cc)
call-Stage x (parent_exits h) (both_count s p w r g) = (
  record {
    share = some (record s { refcount = s.refcount - 1 });
    parent = gone;
    exited = none;
    answer = none;
  },
  ground (arith, r),
  child_counts _ (ground (arith, r)),
)
call-Stage x (parent_exits h) (parent_counts s p u w r g q) = (
  record { share = none; parent = gone; exited = some u; answer = none },
  ground (arith, r),
  freed u none (inl refl),
)
call-Stage x (parent_exits h) (child_counts s r) = absurd (cc)
call-Stage x (parent_exits h) (freed u a o) = absurd (cc)
call-Stage x (parent_waits h) (both_count s p w r g) = (_, refl, both_count s waiting refl r g)
call-Stage x (parent_waits h) (parent_counts s p u w r g q) =
    (_, refl, parent_counts s waiting u refl r g q)
call-Stage x (parent_waits h) (child_counts s r) = absurd (cc)
call-Stage x (parent_waits h) (freed u a o) = absurd (cc)
call-Stage x (parent_goes_on t h e up) (both_count s p w r g) =
    absurd (ground (arith, some_injective e, up, g))
call-Stage x (parent_goes_on t h e up) (parent_counts s p u w r g q) = (
  record { share = none; parent = gone; exited = some u; answer = some s.rvalue },
  ground (arith, r, g),
  freed u (some s.rvalue) (inr (ap some q)),
)
call-Stage x (parent_goes_on t h e up) (child_counts s r) = absurd (cc)
call-Stage x (parent_goes_on t h e up) (freed u a o) = absurd (cc)

Lives-Stage : (tid junk : ℕ) {x : Family} → Lives (new_family tid junk) x → Stage x
Lives-Stage tid junk born = both_count (setup_share tid junk) listed refl refl refl
Lives-Stage tid junk (lives_on y z path c e) =
    let (z', e', s) = call-Stage y c (Lives-Stage tid junk path) in
    subst Stage (some_injective (sym e' ∙ e)) s

-- Whatever order the parent and the child act in, no call of either reads the record after it was
-- freed.
pub no_use_after_free :
    (tid junk : ℕ) {x : Family} → Lives (new_family tid junk) x → (c : Call x) → call x c ≢ none
no_use_after_free tid junk {x} path c h =
    let (y, e, s) = call-Stage x c (Lives-Stage tid junk path) in absurd (cc (e, h))

-- What is left at a stage: the record is freed just when both owners are done with it, and what the
-- parent was told is what the child exited with.
pub record Settled (x : Family) : Type 0 where
  pub freed_last : (x.share ≡ none) ↔ ((x.parent ≡ gone) × (x.exited ≢ none))
  pub told_truth : (x.answer ≡ none) ⊎ (x.answer ≡ x.exited)

Stage-Settled : {x : Family} → Stage x → Settled x
Stage-Settled (both_count s p w r g) = record {
  freed_last = (λ e. absurd (cc), λ q. absurd (q.1 refl));
  told_truth = inl refl;
}
Stage-Settled (parent_counts s p v w r g q) = record {
  freed_last = (λ e. absurd (cc), λ q. absurd (cc (ap at_work q.0, w)));
  told_truth = inl refl;
}
Stage-Settled (child_counts s r) = record {
  freed_last = (λ e. absurd (cc), λ q. absurd (q.1 refl));
  told_truth = inl refl;
}
Stage-Settled (freed v a o) = record {
  freed_last = (λ e. (refl, λ n. absurd (cc)), λ q. refl);
  told_truth = o;
}

-- The record is freed exactly when the child has exited and the parent has exited or got its answer,
-- so it is not lost either; and the answer of `process_wait` is the value that the child exited with.
pub Lives-Settled : (tid junk : ℕ) {x : Family} → Lives (new_family tid junk) x → Settled x
Lives-Settled tid junk path = Stage-Settled (Lives-Stage tid junk path)

-- A parent that waits for a child that has exited is not stuck: its `sema_down` returns, the answer
-- is the child's value, and the record is freed.
pub wait_returns :
    (tid junk v : ℕ) {x : Family}
    → Lives (new_family tid junk) x
    → x.parent ≡ waiting
    → x.exited ≡ some v
    → wait_end x.share ≡ some (v, none)
unfolding wait_end
wait_returns tid junk v path h e = go (Lives-Stage tid junk path) h e
  where
    go :
        {x : Family}
        → Stage x
        → x.parent ≡ waiting
        → x.exited ≡ some v
        → wait_end x.share ≡ some (v, none)
    go (both_count s p w r g) h e = absurd (cc)
    go (parent_counts s p u w r g q) h e = ground (arith, r, g, q, some_injective e)
    go (child_counts s r) h e = absurd (cc)
    go (freed u a o) h e = absurd (cc)
