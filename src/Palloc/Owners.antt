-- ===== src/Palloc/Owners.antt =====
-- pintos/src/threads/palloc.c: groups of pages that are in use together.
use ospersonal.Common.{
  Bool, Bool-cases, Option, ap, arith, false, inl, inr, leb, not, refl, some, some_injective, subst,
  sym, true, ℕ, ◌*◌, ◌+◌, ◌-◌, ◌<◌, ◌==◌, ◌^◌, ◌∙◌, ◌≡◌, ◌≢◌, ◌≤◌, ◌⊎◌,
}
use ospersonal.Bitmap.{Bitmap, bit}
use ospersonal.Bitmap.Range.{IsRun, Filled}
use ospersonal.Palloc.{
  PagePool, Memory, page_size, pool_of, palloc_get_multiple, palloc_free_multiple,
}
use ospersonal.Palloc.Pages.{
  IsMemory, pool_of-IsPool, Served, panics, refused, served, palloc_get_multiple-Served,
}
use ospersonal.Palloc.Frees.{Freed, palloc_free_multiple-Freed, Freed-IsMemory}
use ospersonal.Palloc.Groups.{Group, Group-IsMemory, Served-Group, palloc_get_multiple-Group}

-- Any number of calls for pages and of frees of pages that are not of the group at `a`, one after the
-- other.
pub data Calls (a cnt : ℕ) (m : Memory) : Memory → Type 0 where
  no_call : Calls a cnt m m
  and_get :
      (n o : Memory) (user zeroed must : Bool) (len b : ℕ)
      → Calls a cnt m n
      → palloc_get_multiple n user zeroed must len ≡ some (b, o)
      → Calls a cnt m o
  and_free :
      (n o : Memory) (len b : ℕ)
      → Calls a cnt m n
      → palloc_free_multiple n b len ≡ some o
      → b + page_size * len ≤ 2 ^ 32
      → (a + page_size * cnt ≤ b) ⊎ (b + page_size * len ≤ a)
      → Calls a cnt m o

-- The pool stays where it is, and a page in use stays in use.
record PoolGrows (p q : PagePool) : Type 0 where
  same_base : q.base ≡ p.base
  same_size : q.used_map.bit_cnt ≡ p.used_map.bit_cnt
  kept : (j : ℕ) → bit p.used_map j ≡ true → bit q.used_map j ≡ true

record Grows (m n : Memory) : Type 0 where
  pools : (user : Bool) → PoolGrows (pool_of m user) (pool_of n user)
  good : IsMemory n

PoolGrows-same : (p : PagePool) → PoolGrows p p
PoolGrows-same p = record { same_base = refl; same_size = refl; kept = λ j e. e }

Grows-same : (m : Memory) → IsMemory m → Grows m m
Grows-same m v = record { pools = λ user. PoolGrows-same (pool_of m user); good = v }

Grows-trans : (m n o : Memory) → Grows m n → Grows n o → Grows m o
Grows-trans m n o x y = record {
  pools = λ user. record {
    same_base = (y.pools user).same_base ∙ (x.pools user).same_base;
    same_size = (y.pools user).same_size ∙ (x.pools user).same_size;
    kept = λ j e. (y.pools user).kept j ((x.pools user).kept j e);
  };
  good = y.good;
}

Filled-PoolGrows :
    (p : PagePool) (i cnt : ℕ) (b : Bitmap)
    → Filled p.used_map i cnt true b
    → PoolGrows p (record p { used_map = b })
Filled-PoolGrows p i cnt b f = record {
  same_base = refl;
  same_size = f.same_size;
  kept = λ j e. ground (arith, f.bits_of j, e);
}

Group-Grows :
    (m : Memory) (user : Bool) (cnt a : ℕ) (m' : Memory)
    → IsMemory m
    → Group m user cnt a m'
    → Grows m m'
Group-Grows m user cnt a m' v g =
    let own =
      subst (PoolGrows (pool_of m user)) (sym g.same_pool)
        (Filled-PoolGrows _ g.index cnt g.map g.filled) in
    let other = subst (PoolGrows (pool_of m (not user))) (sym g.other_pool) (PoolGrows-same _) in
    record { pools = both user own other; good = Group-IsMemory m user cnt a m' v g }
  where
    both :
        (u : Bool)
        → PoolGrows (pool_of m u) (pool_of m' u)
        → PoolGrows (pool_of m (not u)) (pool_of m' (not u))
        → (w : Bool) → PoolGrows (pool_of m w) (pool_of m' w)
    both true x y true = x
    both true x y false = y
    both false x y true = y
    both false x y false = x

Served-Grows :
    (m : Memory) (user zeroed must : Bool) (cnt a : ℕ) (m' : Memory) {r : Option (ℕ × Memory)}
    → IsMemory m
    → Served m user zeroed must cnt r
    → r ≡ some (a, m')
    → Grows m m'
Served-Grows m user zeroed must cnt a m' v (panics h s) e = absurd (cc)
Served-Grows m user zeroed must cnt a m' v (refused h s) e =
    subst (λ (t : ℕ × Memory). Grows m t.1) (some_injective e) (Grows-same m v)
Served-Grows m user zeroed must cnt a m' v (served i b s f) e =
    let there : a ≢ 0 = λ z.
      ground
        (arith, ap (λ (t : ℕ × Memory). t.0) (some_injective e), (pool_of-IsPool m user v).above) in
    Group-Grows m user cnt a m' v
      (Served-Group m user zeroed must cnt a m' (served i b s f) e there)

get-Grows :
    (m : Memory) (user zeroed must : Bool) (cnt a : ℕ) (m' : Memory)
    → IsMemory m
    → palloc_get_multiple m user zeroed must cnt ≡ some (a, m')
    → Grows m m'
unfolding palloc_get_multiple
get-Grows m user zeroed must cnt a m' v e = elim (Bool-cases (cnt == 0)) [
  | inl none_asked ↦
      (let same : palloc_get_multiple m user zeroed must cnt ≡ some (0, m) = rw none_asked refl in
        subst (λ (t : ℕ × Memory). Grows m t.1) (some_injective (sym same ∙ e)) (Grows-same m v))
  | inr pages ↦
      Served-Grows m user zeroed must cnt a m' v
        (palloc_get_multiple-Served m user zeroed must cnt v (ground arith)) e
]

-- The pools stay where they are, and the pages of a group stay in use.
record Keeps (m n : Memory) (user : Bool) (index cnt : ℕ) : Type 0 where
  same_base : (w : Bool) → (pool_of n w).base ≡ (pool_of m w).base
  same_size : (w : Bool) → (pool_of n w).used_map.bit_cnt ≡ (pool_of m w).used_map.bit_cnt
  in_use : IsRun (pool_of n user).used_map index cnt true
  good : IsMemory n

Grows-Keeps :
    (m n o : Memory) (user : Bool) (index cnt : ℕ)
    → Keeps m n user index cnt
    → Grows n o
    → Keeps m o user index cnt
Grows-Keeps m n o user index cnt v x = record {
  same_base = λ w. (x.pools w).same_base ∙ v.same_base w;
  same_size = λ w. (x.pools w).same_size ∙ v.same_size w;
  in_use = λ k q. (x.pools user).kept (index + k) (v.in_use k q);
  good = x.good;
}

by_pool : (P : Bool → Type 0) (user : Bool) → P user → P (not user) → (w : Bool) → P w
by_pool P true x y true = x
by_pool P true x y false = y
by_pool P false x y true = y
by_pool P false x y false = x

not-not : (u : Bool) → not (not u) ≡ u
not-not true = refl
not-not false = refl

either : (u w : Bool) → (u ≡ w) ⊎ (u ≡ not w)
either true true = inl refl
either true false = inr refl
either false true = inr refl
either false false = inl refl

-- A free of pages that are not of the group.
module _ (m n o : Memory) (user : Bool) (index cnt a len b : ℕ) (v : Keeps m n user index cnt)
    (hc : 0 < cnt) (at : a ≡ (pool_of n user).base + page_size * index) (f : Freed n b len o)
    (apart : (a + page_size * cnt ≤ b) ⊎ (b + page_size * len ≤ a)) where
  freed_base : (w : Bool) → (pool_of o w).base ≡ (pool_of n w).base
  freed_base =
      by_pool (λ w. (pool_of o w).base ≡ (pool_of n w).base) f.user
        (ap (λ (p : PagePool). p.base) f.same_pool) (ap (λ (p : PagePool). p.base) f.other_pool)

  freed_size : (w : Bool) → (pool_of o w).used_map.bit_cnt ≡ (pool_of n w).used_map.bit_cnt
  freed_size =
      by_pool (λ w. (pool_of o w).used_map.bit_cnt ≡ (pool_of n w).used_map.bit_cnt) f.user
        (ap (λ (p : PagePool). p.used_map.bit_cnt) f.same_pool ∙ f.cleared.same_size)
        (ap (λ (p : PagePool). p.used_map.bit_cnt) f.other_pool)

  -- In the group's own pool the freed pages are others.
  own_pool : f.user ≡ user → IsRun (pool_of o user).used_map index cnt true
  own_pool same k q =
      let place : b ≡ (pool_of n user).base + page_size * f.index =
        f.address ∙ ap (λ (w : Bool). (pool_of n w).base + page_size * f.index) same in
      let old : bit (pool_of n f.user).used_map (index + k) ≡ true =
        ap (λ (w : Bool). bit (pool_of n w).used_map (index + k)) same ∙ v.in_use k q in
      ap (λ (w : Bool). bit (pool_of o w).used_map (index + k)) (sym same)
      ∙ ap (λ (p : PagePool). bit p.used_map (index + k)) f.same_pool
      ∙ f.cleared.bits_of (index + k)
      ∙ ground (arith, apart, at, place, old)

  other_pool : f.user ≡ not user → IsRun (pool_of o user).used_map index cnt true
  other_pool same k q =
      let there : not f.user ≡ user = ap not same ∙ not-not user in
      ap (λ (w : Bool). bit (pool_of o w).used_map (index + k)) (sym there)
      ∙ ap (λ (p : PagePool). bit p.used_map (index + k)) f.other_pool
      ∙ ap (λ (w : Bool). bit (pool_of n w).used_map (index + k)) there
      ∙ v.in_use k q

  Freed-Keeps : Keeps m o user index cnt
  Freed-Keeps = record {
    same_base = λ w. freed_base w ∙ v.same_base w;
    same_size = λ w. freed_size w ∙ v.same_size w;
    in_use = elim (either f.user user) [ inl same ↦ own_pool same | inr other ↦ other_pool other ];
    good = Freed-IsMemory n b len o v.good f;
  }

Calls-Keeps :
    (m : Memory) (user : Bool) (index cnt a : ℕ) (n : Memory)
    → Keeps m m user index cnt
    → 0 < cnt
    → a ≡ (pool_of m user).base + page_size * index
    → Calls a cnt m n
    → Keeps m n user index cnt
Calls-Keeps m user index cnt a n v hc at no_call = v
Calls-Keeps m user index cnt a n v hc at (and_get o n' user' zeroed must len b path e) =
    let x = Calls-Keeps m user index cnt a o v hc at path in
    Grows-Keeps m o n user index cnt x (get-Grows o user' zeroed must len b n x.good e)
Calls-Keeps m user index cnt a n v hc at (and_free o n' len b path e small apart) =
    let x = Calls-Keeps m user index cnt a o v hc at path in
    let at' = at ∙ ap (λ (z : ℕ). z + page_size * index) (sym (x.same_base user)) in
    elim (palloc_free_multiple-Freed o n b len x.good e small) [
      | inl same ↦ subst (λ (t : Memory). Keeps m t user index cnt) same x
      | inr f ↦ Freed-Keeps m o n user index cnt a len b x hc at' f apart
    ]

-- Two groups of one pool, the second taken while the first is in use.
apart_in_pool :
    (b : Bitmap) (i cnt j len : ℕ)
    → 0 < cnt
    → 0 < len
    → IsRun b i cnt true
    → IsRun b j len false
    → (i + cnt ≤ j) ⊎ (j + len ≤ i)
apart_in_pool b i cnt j len hc hl used free = elim (Bool-cases (leb (i + cnt) j)) [
  | inl below ↦ inl (ground arith)
  | inr past ↦ elim (Bool-cases (leb (j + len) i)) [
    | inl above ↦ inr (ground arith)
    | inr shared ↦ elim (Bool-cases (leb i j)) [
      | inl first ↦
          (let at : i + (j - i) ≡ j = ground arith in
            let u = used (j - i) (ground arith) in
            let f = free 0 hl in absurd (ground (arith, u, f, at)))
      | inr later ↦
          (let at : j + (i - j) ≡ i = ground arith in
            let u = used 0 hc in
            let f = free (i - j) (ground arith) in absurd (ground (arith, u, f, at)))
    ]
  ]
]

module _ (m m' n n' : Memory) (cnt a len b : ℕ) (hc : 0 < cnt) (hl : 0 < len) where
  in_one :
      (user : Bool) (g : Group m user cnt a m')
      → Keeps m n user g.index cnt
      → Group n user len b n'
      → (a + page_size * cnt ≤ b) ⊎ (b + page_size * len ≤ a)
  in_one user g v h =
      let same = v.same_base user in
      elim (apart_in_pool (pool_of n user).used_map g.index cnt h.index len hc hl v.in_use
        h.was_free) [
          | inl below ↦ inl (omega (arith, below, g.address, h.address, same))
          | inr above ↦ inr (omega (arith, above, g.address, h.address, same))
        ]

  groups_apart :
      (user user' : Bool) (g : Group m user cnt a m')
      → Keeps m n user g.index cnt
      → Group n user' len b n'
      → (a + page_size * cnt ≤ b) ⊎ (b + page_size * len ≤ a)
  groups_apart true true g v h = in_one true g v h
  groups_apart false false g v h = in_one false g v h
  groups_apart true false g v h =
      inr (omega (arith, h.address, h.fits, v.good.apart, v.same_base true, g.address))
  groups_apart false true g v h = inl (
      omega
        (arith, g.address, g.fits, v.good.apart, v.same_base false, v.same_size false, h.address))

-- The memory after a call for pages, against that before it.
Group-Keeps :
    (m : Memory) (user : Bool) (cnt a : ℕ) (m' : Memory) (v : IsMemory m)
    (g : Group m user cnt a m')
    → Keeps m m' user g.index cnt
Group-Keeps m user cnt a m' v g =
    let x = Group-Grows m user cnt a m' v g in
    record {
      same_base = λ w. (x.pools w).same_base;
      same_size = λ w. (x.pools w).same_size;
      in_use = λ k q.
          ap (λ (p : PagePool). bit p.used_map (g.index + k)) g.same_pool
          ∙ ground (arith, g.filled.bits_of (g.index + k));
      good = x.good;
    }

-- Groups of pages that are in use together do not overlap: from a good memory, a second group, given
-- out after a first and any number of calls between, for pages and to free whole pages in memory that
-- are none of the first group's, lies all below or all above the first.
pub no_overlap :
    (m m' n n' : Memory) (user zeroed must user' zeroed' must' : Bool) (cnt a len b : ℕ)
    → IsMemory m
    → 0 < cnt
    → palloc_get_multiple m user zeroed must cnt ≡ some (a, m')
    → a ≢ 0
    → Calls a cnt m' n
    → 0 < len
    → palloc_get_multiple n user' zeroed' must' len ≡ some (b, n')
    → b ≢ 0
    → (a + page_size * cnt ≤ b) ⊎ (b + page_size * len ≤ a)
no_overlap m m' n n' user zeroed must user' zeroed' must' cnt a len b v hc e ha path hl e' hb =
    let g = palloc_get_multiple-Group m user zeroed must cnt a m' v hc e ha in
    let taken = Group-Keeps m user cnt a m' v g in
    let own : Keeps m' m' user g.index cnt = record {
      same_base = λ w. refl;
      same_size = λ w. refl;
      in_use = taken.in_use;
      good = taken.good;
    } in
    let at = g.address ∙ ap (λ (z : ℕ). z + page_size * g.index) (sym (taken.same_base user)) in
    let later = Calls-Keeps m' user g.index cnt a n own hc at path in
    let whole : Keeps m n user g.index cnt = record {
      same_base = λ w. later.same_base w ∙ taken.same_base w;
      same_size = λ w. later.same_size w ∙ taken.same_size w;
      in_use = later.in_use;
      good = later.good;
    } in
    groups_apart m m' n n' cnt a len b hc hl user user' g whole
      (palloc_get_multiple-Group n user' zeroed' must' len b n' later.good hl e' hb)
