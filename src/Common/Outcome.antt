-- ===== src/Common/Outcome.antt =====
-- How a piece of C code ends: with a result, at an access outside its memory, or not within the
-- fuel.
use mathlib.Core.Path.{◌≡◌, refl}
use mathlib.Core.Bool.{Bool, true, false}
use ztool_lib.Common.Tests.{if◌then◌else◌}

pub data Outcome {ℓ} (A : Type ℓ) : Type ℓ where
  done : A → Outcome A
  fault : Outcome A
  out_of_fuel : Outcome A

infixl 5 ◌>>=◌
abbrev pub ◌>>=◌ {ℓ κ} : {A : Type ℓ} {B : Type κ} → Outcome A → (A → Outcome B) → Outcome B
done a >>= k = k a
fault >>= k = fault
out_of_fuel >>= k = out_of_fuel

-- The code ends with a result that has the property.
pub data Ends {A : Type 0} (P : A → Type 0) : Outcome A → Type 0 where
  ends : {a : A} → P a → Ends P (done a)

module _ {A : Type 0} {P : A → Type 0} where
  pub Ends-bind :
      {B : Type 0} {Q : B → Type 0} {m : Outcome A} {k : A → Outcome B}
      → Ends P m
      → ((a : A) → P a → Ends Q (k a))
      → Ends Q (m >>= k)
  Ends-bind (ends p) f = f _ p

  pub Ends-weaken : {Q : A → Type 0} {m : Outcome A} → Ends P m → ((a : A) → P a → Q a) → Ends Q m
  Ends-weaken (ends p) f = ends (f _ p)

  pub Ends-if :
      {m n : Outcome A} (b : Bool)
      → (b ≡ true → Ends P m)
      → (b ≡ false → Ends P n)
      → Ends P (if b then m else n)
  Ends-if true f g = f refl
  Ends-if false f g = g refl

  pub Ends-result : {m : Outcome A} → Ends P m → (a : A) × (m ≡ done a) × P a
  Ends-result (ends p) = (_, refl, p)
