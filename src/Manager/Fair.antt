-- ===== src/Manager/Fair.antt =====
-- The fairness of `process_manager::yield` among the processes of one priority.
use a9n.Base.{ℕ, zero, suc, ◌≡◌, refl, ◌∙◌, some, write, write_self, List, [], ◌∷◌, ◌++◌, length}
use a9n.Base.Result.{ok, KernelError}
use a9n.Hal.{Hal}
use a9n.Kernel.{Kernel, M, bind}
use a9n.Kernel.Succeed.{bind-ok}
use a9n.Manager.{yield}
use a9n.Manager.Turns.{Runs, Turn, yield-Turn}
use a9n.Scheduler.Queues.{Ready}
use mathlib.Core.List.{append_assoc}

-- One yield after another, on core `c`.
abbrev pub yields : Hal → ℕ → ℕ → M KernelError (Unit {0})
yields hal c zero k = (ok tt, k)
yields hal c (suc n) k = bind (yield hal c k) (λ _. yields hal c n)

-- With the ready queues of the core in order, where nothing waits at a priority above the running one,
-- the hardware layer names the core and every context switch of it succeeds, the running process is not IDLE, and neither it nor IDLE is in a ready queue: of the
-- processes that wait at the running priority, the one behind `us` runs after one yield for each of
-- `us` and one more, with no other calls between.
pub yields-Runs :
    (hal : Hal) (c i p q : ℕ) (us vs : List ℕ) (r : Ready) (k : Kernel)
    → Runs hal c
    → Turn c i p r k
    → r i ≡ us ++ q ∷ vs
    → ((yields hal c (suc (length us)) k).0 ≡ ok tt)
      × (((yields hal c (suc (length us)) k).1.cpus c).current_process ≡ some q)
yields-Runs hal c i p q [] vs r k runs turn waits =
    let next = yield-Turn hal c i p q vs r k runs turn waits in
    rw (bind-ok (yield hal c k) tt (λ _. yields hal c zero) next.0) (refl, next.1.current)
yields-Runs hal c i p q (u ∷ us) vs r k runs turn waits =
    let next = yield-Turn hal c i p u (us ++ q ∷ vs) r k runs turn waits in
    let still = write_self r i ((us ++ q ∷ vs) ++ p ∷ []) ∙ append_assoc us (q ∷ vs) (p ∷ []) in
    rw (bind-ok (yield hal c k) tt (λ _. yields hal c (suc (length us))) next.0) (
      yields-Runs hal c i u q us (vs ++ p ∷ []) (write r i ((us ++ q ∷ vs) ++ p ∷ []))
        (yield hal c k).1 runs next.1 still)
