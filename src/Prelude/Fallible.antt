-- ===== src/Prelude/Fallible.antt =====
-- Code that can stop: `none` is a failed CHECK, a throw that nothing catches, or a read out of
-- bounds.
use mathlib.Core.Path.{◌≡◌, refl}
use mathlib.Core.Option.{Option, none, some}
use mathlib.Core.Bool.{Bool, true, false}
use native.Mathlib.Omega.{arith}

infixl 5 ◌>>=◌ ◌>>◌
abbrev pub ◌>>=◌ {ℓ κ} : {A : Type ℓ} {B : Type κ} → Option A → (A → Option B) → Option B
none >>= f = none
some a >>= f = f a

abbrev pub ◌>>◌ {κ} : {B : Type κ} → Option (Unit {0}) → Option B → Option B
m >> k = m >>= λ _. k

-- `CHECK_EQ(true, b)`.
abbrev pub check : Bool → Option (Unit {0})
check true = some tt
check false = none

-- A chain that succeeds has a first step that succeeds.
pub >>=-eq-some {ℓ κ} :
    {A : Type ℓ} {B : Type κ} (m : Option A) (f : A → Option B) (b : B)
    → (m >>= f) ≡ some b
    → (a : A) × (m ≡ some a) × (f a ≡ some b)
>>=-eq-some none f b h = absurd (ground arith)
>>=-eq-some (some a) f b h = (a, refl, h)

pub check-eq-some : (t : Bool) → check t ≡ some tt → t ≡ true
check-eq-some true h = refl
check-eq-some false h = absurd (ground arith)
