-- ===== src/Common/Outcome.antt =====
-- The outcome of a C function over memory: a value, an access outside the memory given, or (for a
-- loop that runs on fuel) no more fuel.
use Prim.Native.Nat.{ℕ}
use mathlib.Core.Path.{◌≡◌, refl}
use mathlib.Core.Bool.{Bool, true, false}
use mathlib.Core.List.{List}
use mathlib.Core.Option.{none, some}
use jelatine.Common.Tests.{ltb, if◌then◌else◌}
use jelatine.Common.Arrays.{length, get_elem?, set, replicate}

pub data Outcome {ℓ} (A : Type ℓ) : Type ℓ where
  ok : A → Outcome A
  fault : Outcome A
  stuck : Outcome A

infixl 5 ◌>>=◌
abbrev pub ◌>>=◌ {ℓ κ} : {A : Type ℓ} {B : Type κ} → Outcome A → (A → Outcome B) → Outcome B
ok a >>= f = f a
fault >>= f = fault
stuck >>= f = stuck

-- `src[i]`
abbrev pub read {ℓ} : {A : Type ℓ} → List A → ℕ → Outcome A
read src i = elim (get_elem? src i) [ none ↦ fault | some b ↦ ok b ]

-- `dst[i] = v`
unfoldable pub store {ℓ} : {A : Type ℓ} → List A → ℕ → A → Outcome (List A)
store dst i v = if ltb i (length dst) then ok (set dst i v) else fault

abbrev pub zeros : ℕ → List ℕ
zeros n = replicate n 0

module _ {ℓ} {A : Type ℓ} where
  abbrev pub is_ok : Outcome A → Bool
  is_ok (ok a) = true
  is_ok fault = false
  is_ok stuck = false

  pub ok_of_is_ok : (r : Outcome A) → is_ok r ≡ true → (a : A) × (r ≡ ok a)
  ok_of_is_ok (ok a) h = (a, refl)
  ok_of_is_ok fault h = cc
  ok_of_is_ok stuck h = cc
