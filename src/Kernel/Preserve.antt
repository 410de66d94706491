-- ===== src/Kernel/Preserve.antt =====
-- Predicates of the state that an operation preserves, on success and on failure.
use a9n.Base.{Bool, true, false, if◌then◌else◌}
use a9n.Base.Result.{Result, ok, err, KernelError}
use a9n.Hal.{HalError}
use a9n.Kernel.{
  Kernel, M, bind, ◌>>=◌, ◌>>◌, return, fail, modify, or_else, or_else_result, convert_kernel,
  convert_hal_to_capability,
}

pub record Preserves (P : Kernel → Type 0) {E A : Type 0} (m : M E A) : Type 0 where
  pub hold : (k : Kernel) → P k → P (m k).1

module _ {P : Kernel → Type 0} where
  module _ {E A B : Type 0} where
    pub bind_hold :
        (out : Result A E × Kernel) (f : A → M E B)
        → P out.1
        → ((a : A) → Preserves P (f a))
        → P (bind out f).1
    bind_hold (ok a, k) f h kept = (kept a).hold k h
    bind_hold (err e, k) f h kept = h

    pub >>=-Preserves :
        {m : M E A} {f : A → M E B}
        → Preserves P m
        → ((a : A) → Preserves P (f a))
        → Preserves P (m >>= f)
    >>=-Preserves {m} {f} km kf = record { hold = λ k h. bind_hold (m k) f (km.hold k h) kf }

    pub >>-Preserves :
        {m : M E A} {n : M E B} → Preserves P m → Preserves P n → Preserves P (m >> n)
    >>-Preserves {m} {n} km kn = record {
      hold = λ k h. bind_hold (m k) (λ _. n) (km.hold k h) (λ _. kn);
    }

  module _ {E F A : Type 0} where
    pub or_else_hold :
        (out : Result A E × Kernel) (f : E → M F A)
        → P out.1
        → ((e : E) → Preserves P (f e))
        → P (or_else_result out f).1
    or_else_hold (ok a, k) f h kept = h
    or_else_hold (err e, k) f h kept = (kept e).hold k h

    pub or_else-Preserves :
        {m : M E A} {f : E → M F A}
        → Preserves P m
        → ((e : E) → Preserves P (f e))
        → Preserves P (or_else m f)
    or_else-Preserves {m} {f} km kf = record { hold = λ k h. or_else_hold (m k) f (km.hold k h) kf }

  module _ {E A : Type 0} where
    pub fail-Preserves : (e : E) → Preserves P {E = E} {A = A} (fail e)
    fail-Preserves e = record { hold = λ k h. h }

    pub return-Preserves : (a : A) → Preserves P {E = E} (return a)
    return-Preserves a = record { hold = λ k h. h }

    pub reading-Preserves :
        (m : Kernel → M E A) → ((k : Kernel) → P k → P (m k k).1) → Preserves P (λ k. m k k)
    reading-Preserves m km = record { hold = km }

    pub if-Preserves :
        (b : Bool) {m n : M E A} → Preserves P m → Preserves P n → Preserves P (if b then m else n)
    if-Preserves true km kn = km
    if-Preserves false km kn = kn

  pub modify-Preserves :
      {E : Type 0} (g : Kernel → Kernel)
      → ((k : Kernel) → P k → P (g k))
      → Preserves P {E = E} (modify g)
  modify-Preserves g e = record { hold = e }

  module _ {A : Type 0} where
    pub convert_kernel-Preserves :
        {m : M KernelError A} → Preserves P m → Preserves P (convert_kernel m)
    convert_kernel-Preserves km = or_else-Preserves km (λ e. fail-Preserves _)

    pub convert_hal_to_capability-Preserves :
        {m : M HalError A} → Preserves P m → Preserves P (convert_hal_to_capability m)
    convert_hal_to_capability-Preserves km = or_else-Preserves km (λ e. fail-Preserves _)

-- One branch or the other of an outcome.
pub if_hold :
    {E A : Type 0} (P : Kernel → Type 0) (b : Bool) (x y : Result A E × Kernel)
    → P x.1
    → P y.1
    → P (if b then x else y).1
if_hold P true x y hx hy = hx
if_hold P false x y hx hy = hy
