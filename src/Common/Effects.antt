-- ===== src/Common/Effects.antt =====
-- The effect of the kernel's ASSERT and PANIC: `none` is a kernel panic, which stops the machine.
use mathlib.Core.Path.{◌≡◌, refl}
use mathlib.Core.Bool.{Bool, true, false}
use mathlib.Core.Option.{Option, none, some}

infixl 5 ◌>>=◌ ◌>>◌
abbrev pub ◌>>=◌ {ℓ κ} : {A : Type ℓ} {B : Type κ} → Option A → (A → Option B) → Option B
none >>= f = none
some a >>= f = f a

abbrev pub ◌>>◌ {ℓ} : {B : Type ℓ} → Option (Unit {0}) → Option B → Option B
m >> k = m >>= λ _. k

abbrev pub assert : Bool → Option (Unit {0})
assert true = some tt
assert false = none

pub >>=-eq-some {ℓ κ} :
    {A : Type ℓ} {B : Type κ} (m : Option A) (f : A → Option B) {b : B}
    → (m >>= f) ≡ some b
    → (a : A) × (m ≡ some a) × (f a ≡ some b)
>>=-eq-some none f h = absurd (cc)
>>=-eq-some (some a) f h = (a, refl, h)

pub bind_some {ℓ κ} :
    {A : Type ℓ} {B : Type κ} (f : A → Option B) {m : Option A} {a : A}
    → m ≡ some a
    → (m >>= f) ≡ f a
bind_some f e = rw e

pub assert-true {ℓ} : {B : Type ℓ} (k : Option B) {b : Bool} → b ≡ true → (assert b >> k) ≡ k
assert-true k e = rw e

pub assert-false {ℓ} : {B : Type ℓ} (k : Option B) {b : Bool} → b ≡ false → (assert b >> k) ≡ none
assert-false k e = rw e

pub some_injective {ℓ} : {A : Type ℓ} {a b : A} → some a ≡ some b → a ≡ b
some_injective e = cc
