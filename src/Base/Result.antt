-- ===== src/Base/Result.antt =====
-- `liba9n::result<T, E>` with its combinators, and `kernel_error` (kernel_result.hpp).
use mathlib.Core.Path.{◌≡◌, refl}
use mathlib.Core.Logic.{◌⊎◌, inl, inr}
use mathlib.Core.Bool.{Bool, true, false}

pub data Result {ℓ κ} (A : Type ℓ) (E : Type κ) : Type (ℓ ⊔ κ) where
  ok : A → Result A E
  err : E → Result A E

module _ {ℓ κ} {A : Type ℓ} {E : Type κ} where
  abbrev pub is_ok : Result A E → Bool
  is_ok (ok a) = true
  is_ok (err e) = false

  abbrev pub and_then {μ} : {B : Type μ} → Result A E → (A → Result B E) → Result B E
  and_then (ok a) f = f a
  and_then (err e) f = err e

  abbrev pub transform_error {μ} : {F : Type μ} → Result A E → (E → F) → Result A F
  transform_error (ok a) f = ok a
  transform_error (err e) f = err (f e)

  pub Result-cases : (r : Result A E) → ((a : A) × (r ≡ ok a)) ⊎ ((e : E) × (r ≡ err e))
  Result-cases (ok a) = inl (a, refl)
  Result-cases (err e) = inr (e, refl)

pub data KernelError : Type 0 where
  permission_denied illegal_argument illegal_device no_such_device no_such_address : KernelError
  unsupported try_again unexpected init_first hal_error : KernelError
