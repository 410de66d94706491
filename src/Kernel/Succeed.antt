-- ===== src/Kernel/Succeed.antt =====
-- Operations that succeed, in a chain.
use a9n.Base.{◌≡◌, ap, arith}
use a9n.Base.Result.{Result, ok, err}
use a9n.Kernel.{Kernel, M, bind, or_else_result}

ok_inj : {E A : Type 0} {a b : A} → Path (Result A E) (ok a) (ok b) → a ≡ b
ok_inj e = cc

pub bind-ok :
    {E A B : Type 0} (out : Result A E × Kernel) (a : A) (f : A → M E B)
    → out.0 ≡ ok a
    → bind out f ≡ f a out.1
bind-ok (ok b, k) a f e = ap (λ c. f c k) (ok_inj e)
bind-ok (err x, k) a f e = absurd (ground arith)

pub or_else-ok :
    {E F A : Type 0} (out : Result A E × Kernel) (a : A) (h : E → M F A)
    → out.0 ≡ ok a
    → or_else_result out h ≡ (ok a, out.1)
or_else-ok (ok b, k) a h e = ap (λ c. (ok c, k)) (ok_inj e)
or_else-ok (err x, k) a h e = absurd (ground arith)
