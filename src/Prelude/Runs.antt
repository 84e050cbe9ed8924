-- ===== src/Prelude/Runs.antt =====
-- What running a piece of the C++ code can come to: a value, a read outside of the memory that
-- the code owns (undefined behaviour), an exception that leaves the function, or a model that ran
-- out of fuel (which theorems rule out).
use mathlib.Core.Path.{◌≡◌, refl, ap}
use mathlib.Core.Bool.{Bool, true, false}
use asio.Prelude.Tests.{if◌then◌else◌}

pub data Exec {ℓ} (A : Type ℓ) : Type ℓ where
  ok : A → Exec A
  overrun : Exec A
  thrown : Exec A
  out_of_fuel : Exec A

infixl 5 ◌>>=◌
abbrev pub ◌>>=◌ {ℓ κ} : {A : Type ℓ} {B : Type κ} → Exec A → (A → Exec B) → Exec B
ok a >>= f = f a
overrun >>= f = overrun
thrown >>= f = thrown
out_of_fuel >>= f = out_of_fuel

-- A predicate of the result, where there is one.
unfoldable pub Leaves : {A : Type 0} → (A → Type 0) → Exec A → Type 0
Leaves P (ok a) = P a
Leaves P overrun = Unit {0}
Leaves P thrown = Unit {0}
Leaves P out_of_fuel = Unit {0}

-- What both branches of a test answer.
pub if-same :
    {A B : Type 0} (f : A → B) (b : Bool) (x y : A) (z : B)
    → f x ≡ z
    → f y ≡ z
    → f (if b then x else y) ≡ z
if-same f true x y z h k = h
if-same f false x y z h k = k

pub Leaves-if :
    {A : Type 0} (P : A → Type 0) (b : Bool) (x y : Exec A)
    → Leaves P x
    → Leaves P y
    → Leaves P (if b then x else y)
Leaves-if P true x y h k = h
Leaves-if P false x y h k = k

pub Leaves->>= :
    {A B : Type 0} (P : B → Type 0) (x : Exec A) (f : A → Exec B)
    → ((a : A) → Leaves P (f a))
    → Leaves P (x >>= f)
unfolding Leaves
Leaves->>= P (ok a) f h = h a
Leaves->>= P overrun f h = tt
Leaves->>= P thrown f h = tt
Leaves->>= P out_of_fuel f h = tt

pub Leaves-then :
    {A B : Type 0} (Q : A → Type 0) (P : B → Type 0) (x : Exec A) (f : A → Exec B)
    → Leaves Q x
    → ((a : A) → Q a → Leaves P (f a))
    → Leaves P (x >>= f)
unfolding Leaves
Leaves-then Q P (ok a) f q h = h a q
Leaves-then Q P overrun f q h = tt
Leaves-then Q P thrown f q h = tt
Leaves-then Q P out_of_fuel f q h = tt

pub Leaves-ok : {A : Type 0} (P : A → Type 0) (a : A) → P a → Leaves P (ok a)
unfolding Leaves
Leaves-ok P a h = h

pub Leaves-map :
    {A B : Type 0} (Q : A → Type 0) (P : B → Type 0) (x : Exec A) (f : A → B)
    → Leaves Q x
    → ((a : A) → Q a → P (f a))
    → Leaves P (x >>= λ a. ok (f a))
unfolding Leaves
Leaves-map Q P (ok a) f q h = h a q
Leaves-map Q P overrun f q h = tt
Leaves-map Q P thrown f q h = tt
Leaves-map Q P out_of_fuel f q h = tt

pub Leaves-weaken :
    {A : Type 0} (Q P : A → Type 0) (x : Exec A) → Leaves Q x → ((a : A) → Q a → P a) → Leaves P x
unfolding Leaves
Leaves-weaken Q P (ok a) q h = h a q
Leaves-weaken Q P overrun q h = tt
Leaves-weaken Q P thrown q h = tt
Leaves-weaken Q P out_of_fuel q h = tt

-- Any result satisfies what every value does.
pub Leaves-any : {A : Type 0} (P : A → Type 0) (x : Exec A) → ((a : A) → P a) → Leaves P x
unfolding Leaves
Leaves-any P (ok a) h = h a
Leaves-any P overrun h = tt
Leaves-any P thrown h = tt
Leaves-any P out_of_fuel h = tt

-- Where a sequence returns, its parts do.
pub bind_ok :
    {A B : Type 0} (x : Exec A) (f : A → Exec B) (b : B)
    → (x >>= f) ≡ ok b
    → (a : A) × (x ≡ ok a) × (f a ≡ ok b)
bind_ok (ok a) f b e = (a, refl, e)
bind_ok overrun f b e = cc
bind_ok thrown f b e = cc
bind_ok out_of_fuel f b e = cc

abbrev value_or : {A : Type 0} → A → Exec A → A
value_or d (ok a) = a
value_or d other = d

pub ok_injective : {A : Type 0} {a b : A} → ◌≡◌ {A = Exec A} (ok a) (ok b) → a ≡ b
ok_injective {A} {a} {b} e = ap (value_or a) e
