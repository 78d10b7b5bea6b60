-- ===== src/Common/Options.antt =====
-- The chains of results that may be missing: a step that throws ends the chain.
use mathlib.Core.Path.{◌≡◌, refl}
use mathlib.Core.Bool.{Bool, true, false}
use mathlib.Core.Option.{Option, none, some}
use native.Mathlib.Omega.{arith}
use staminads.Common.Tests.{if◌then◌else◌}

infixl 5 ◌>>=◌
abbrev pub ◌>>=◌ {ℓ κ} : {A : Type ℓ} {B : Type κ} → Option A → (A → Option B) → Option B
none >>= f = none
some a >>= f = f a

-- A chain with a result has had one in its first step.
pub some_of_bind {ℓ κ} :
    {A : Type ℓ} {B : Type κ} (m : Option A) (f : A → Option B) (b : B)
    → (m >>= f) ≡ some b
    → (a : A) × ((m ≡ some a) × (f a ≡ some b))
some_of_bind none f b h = absurd (ground arith)
some_of_bind (some a) f b h = (a, (refl, h))

pub some_of_if {ℓ} :
    {A : Type ℓ} (b : Bool) (m : Option A) (a : A)
    → (if b then m else none) ≡ some a
    → (b ≡ true) × (m ≡ some a)
some_of_if true m a h = (refl, h)
some_of_if false m a h = absurd (ground arith)

pub some_inj {ℓ} : {A : Type ℓ} (a b : A) → some a ≡ some b → a ≡ b
some_inj a b h = ground arith

abbrev pub IsSome {ℓ} : {A : Type ℓ} → Option A → Type ℓ
IsSome {A = A} o = (a : A) × (o ≡ some a)

-- A chain has a result if its first step has one, and the rest has one after it.
pub bind-IsSome {ℓ κ} :
    {A : Type ℓ} {B : Type κ} (m : Option A) (f : A → Option B)
    → IsSome m
    → ((a : A) → m ≡ some a → IsSome (f a))
    → IsSome (m >>= f)
bind-IsSome m f (a, e) h = let (b, k) = h a e in (b, rw e k)
