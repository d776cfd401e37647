-- ===== src/Prelude/Results.antt =====
-- Calls that return, or end in the kernel's `panic` or a failed `assert`.
use fos_project.Prelude.Tests.{if◌then◌else◌}
use mathlib.Core.Bool.{Bool, true, false}

pub data Result {ℓ} (A : Type ℓ) : Type ℓ where
  panic : Result A
  ok : (value : A) → Result A

-- what the caller does with the value of a call that returned
infixl 6 ◌>>=◌
abbrev pub ◌>>=◌ {ℓ κ} : {V : Type ℓ} {W : Type κ} → Result V → (V → Result W) → Result W
panic >>= next = panic
ok value >>= next = next value

-- A call that returns gives a value with the property.
abbrev pub Returning {ℓ κ} : {V : Type ℓ} → (V → Type κ) → Result V → Type κ
Returning P panic = Unit
Returning P (ok value) = P value

pub then_Returning {ℓ κ} :
    {V : Type ℓ} {W : Type ℓ} (P : V → Type κ) (Q : W → Type κ) (call : Result V)
    (next : V → Result W)
    → Returning P call
    → ((value : V) → P value → Returning Q (next value))
    → Returning Q (call >>= next)
then_Returning P Q panic next h k = tt
then_Returning P Q (ok value) next h k = k value h

pub always_Returning {ℓ κ} :
    {V : Type ℓ} (P : V → Type κ) (call : Result V) → ((value : V) → P value) → Returning P call
always_Returning P panic h = tt
always_Returning P (ok value) h = h value

pub weaken_Returning {ℓ κ} :
    {V : Type ℓ} (P Q : V → Type κ) (call : Result V)
    → Returning P call
    → ((value : V) → P value → Q value)
    → Returning Q call
weaken_Returning P Q panic h k = tt
weaken_Returning P Q (ok value) h k = k value h

pub if_Returning {ℓ κ} :
    {V : Type ℓ} (P : V → Type κ) (b : Bool) (call other : Result V)
    → Returning P call
    → Returning P other
    → Returning P (if b then call else other)
if_Returning P true call other h k = h
if_Returning P false call other h k = k

-- A call returns, and the value has the property.
abbrev pub Returns {ℓ} : {V : Type ℓ} → (V → Type 0) → Result V → Type 0
Returns P panic = ⊥
Returns P (ok value) = P value

pub then_Returns {ℓ} :
    {V : Type ℓ} {W : Type ℓ} (P : V → Type 0) (Q : W → Type 0) (call : Result V)
    (next : V → Result W)
    → Returns P call
    → ((value : V) → P value → Returns Q (next value))
    → Returns Q (call >>= next)
then_Returns P Q panic next h k = h
then_Returns P Q (ok value) next h k = k value h
