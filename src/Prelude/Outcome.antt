-- ===== src/Prelude/Outcome.antt =====
-- What a call of the program ends with: a value, an error value, or a panic (a failed `assert!`,
-- `expect` or index).
use Prim.Native.Nat.{ℕ}
use mathlib.Core.Path.{◌≡◌, refl, subst}
use mathlib.Core.Bool.{Bool, true, false}
use rfs.Prelude.Tests.{if◌then◌else◌}
use mathlib.Core.Option.{Option, none, some}

-- `btree::Error`. The payload of an I/O error is not modelled.
pub data Error : Type 0 where
  block_not_found : ℕ → Error
  io : Error
  bad_magic : ℕ → ℕ → ℕ → Error
  checksum_mismatch : ℕ → Error

pub data Outcome {ℓ} (A : Type ℓ) : Type ℓ where
  ok : A → Outcome A
  err : Error → Outcome A
  panic : Outcome A

infixl 10 ◌>>=◌
abbrev pub ◌>>=◌ {ℓ κ} : {A : Type ℓ} {B : Type κ} → Outcome A → (A → Outcome B) → Outcome B
ok a >>= f = f a
err e >>= f = err e
panic >>= f = panic

abbrev pub or_panic {ℓ} : {A : Type ℓ} → Option A → Outcome A
or_panic none = panic
or_panic (some a) = ok a

abbrev pub assert : Bool → Outcome (Unit {0})
assert true = ok tt
assert false = panic

-- A call that succeeds has succeeded in each step.
pub bind-ok {ℓ κ} :
    {A : Type ℓ} {B : Type κ} (m : Outcome A) (f : A → Outcome B) (b : B)
    → (m >>= f) ≡ ok b
    → (a : A) × (m ≡ ok a) × (f a ≡ ok b)
bind-ok (ok a) f b h = (a, refl, h)
bind-ok (err e) f b h = absurd (no_value h)
  where
    no_value : err e ≡ ok b → ⊥
    no_value q = cc
bind-ok panic f b h = absurd (no_value h)
  where
    no_value : panic ≡ ok b → ⊥
    no_value q = cc

pub ok_inj {ℓ} : {A : Type ℓ} (a b : A) → ok a ≡ ok b → a ≡ b
ok_inj a b h = cc

-- A property of the value, where a call returns one.
abbrev pub Ends {ℓ κ} : {A : Type ℓ} → (A → Type κ) → Outcome A → Type κ
Ends P (ok a) = P a
Ends P (err e) = Unit
Ends P panic = Unit

pub Ends-bind {ℓ κ μ ν} :
    {A : Type ℓ} {B : Type κ} (Q : A → Type μ) (P : B → Type ν) (m : Outcome A) (f : A → Outcome B)
    → Ends Q m
    → ((a : A) → Q a → Ends P (f a))
    → Ends P (m >>= f)
Ends-bind Q P (ok a) f q h = h a q
Ends-bind Q P (err e) f q h = tt
Ends-bind Q P panic f q h = tt

pub Ends-any {ℓ κ ν} :
    {A : Type ℓ} {B : Type κ} (P : B → Type ν) (m : Outcome A) (f : A → Outcome B)
    → ((a : A) → Ends P (f a))
    → Ends P (m >>= f)
Ends-any P (ok a) f h = h a
Ends-any P (err e) f h = tt
Ends-any P panic f h = tt

pub Ends-ok {ℓ κ} :
    {A : Type ℓ} (P : A → Type κ) (m : Outcome A) (a : A) → m ≡ ok a → Ends P m → P a
Ends-ok P m a e h = subst (λ x. Ends P x) e h

pub Ends-if {ℓ κ} :
    {A : Type ℓ} (P : A → Type κ) (b : Bool) (m n : Outcome A)
    → Ends P m
    → Ends P n
    → Ends P (if b then m else n)
Ends-if P true m n h g = h
Ends-if P false m n h g = g
