-- ===== src/Process.antt =====
-- pintos/src/userprog/process.c: the record that a parent and its child share, from thread_create to
-- the exits of both and the parent's wait. Memory that is freed is `none`, and so is the result of a
-- call that would read it. `exit_share`, and `process_wait` after its `sema_down`, hold the record's
-- lock throughout, so each is one step. A value is the 32-bit pattern of an `int`.
pub mod Lifetime
use ospersonal.Common.{
  ℕ, ◌+◌, ◌-◌, ◌<◌, ◌≡◌, Bool, true, false, Option, none, some, List, [], ◌∷◌, ◌==◌, if◌then◌else◌,
  ◌>>=◌, ◌>>◌, assert, ltb,
}

-- `process_share`; `sig` is the value of its semaphore.
pub record Share : Type 0 where
  pub tid : ℕ
  pub sig : ℕ
  pub rvalue : ℕ
  pub refcount : ℕ
  pub loaded : Bool

-- The part of `thread_create` that fills the record in; `malloc` leaves `junk` in `rvalue`.
abbrev pub setup_share : ℕ → ℕ → Share
setup_share tid junk = record { tid = tid; sig = 0; rvalue = junk; refcount = 2; loaded = true }

unfoldable pub exit_share : Option Share → Bool → ℕ → Option (Option Share)
exit_share p need_rvalue rvalue = p >>= λ s.
    let left = s.refcount - 1 in
    if left == 0
    then some none
    else if need_rvalue
    then some (some (record s { refcount = left; rvalue = rvalue; sig = s.sig + 1 }))
    else some (some (record s { refcount = left }))

-- `process_wait` from its `sema_down` on: the child's value, and the record afterwards. It goes on
-- only once the semaphore is up.
unfoldable pub wait_end : Option Share → Option (ℕ × Option Share)
wait_end p = p >>= λ s.
    assert (ltb 0 s.sig)
    >> (let left = s.refcount - 1 in
        some (
          s.rvalue,
          if left == 0 then none else some (record s { sig = s.sig - 1; refcount = left }),
        ))

-- The search of `process_wait` in the list of children: the record found, and the list without it. The
-- inner `none` is the answer -1.
unfoldable pub find_child : (ℕ → Option Share) → List ℕ → ℕ → Option (Option (ℕ × List ℕ))
find_child shares [] child_tid = some none
find_child shares (p ∷ ps) child_tid = shares p >>= λ s.
    let rest = find_child shares ps child_tid in
    if s.tid == child_tid
    then some (some (p, ps))
    else (rest >>= λ r. elim r [ none ↦ some none | some f ↦ some (some (f.0, p ∷ f.1)) ])

-- What the parent may still do with the record: it is in its list of children, or it waits for the
-- child, or it is done with it.
pub data Parent : Type 0 where
  listed waiting gone : Parent

-- One record with both its owners: the value that the child exited with, and the answer of the
-- parent's `process_wait`.
pub record Family : Type 0 where
  pub share : Option Share
  pub parent : Parent
  pub exited : Option ℕ
  pub answer : Option ℕ

abbrev pub new_family : ℕ → ℕ → Family
new_family tid junk = record {
  share = some (setup_share tid junk);
  parent = listed;
  exited = none;
  answer = none;
}

-- What an owner may do next. The child exits; the parent drops the record when it exits itself, takes it
-- off its list in `process_wait`, or goes on after the `sema_down`.
pub data Call (x : Family) : Type 0 where
  child_exits : (rvalue : ℕ) → x.exited ≡ none → Call x
  parent_exits : x.parent ≡ listed → Call x
  parent_waits : x.parent ≡ listed → Call x
  parent_goes_on : (s : Share) → x.parent ≡ waiting → x.share ≡ some s → 0 < s.sig → Call x

unfoldable pub call : (x : Family) → Call x → Option Family
call x (child_exits rvalue h) =
    exit_share x.share true rvalue >>= λ p. some (record x { share = p; exited = some rvalue })
call x (parent_exits h) =
    exit_share x.share false 0 >>= λ p. some (record x { share = p; parent = gone })
call x (parent_waits h) = some (record x { parent = waiting })
call x (parent_goes_on s h e up) =
    wait_end x.share >>= λ r. some (record x { share = r.1; parent = gone; answer = some r.0 })

pub data Lives (x : Family) : Family → Type 0 where
  born : Lives x x
  lives_on : (y z : Family) → Lives x y → (c : Call y) → call y c ≡ some z → Lives x z
