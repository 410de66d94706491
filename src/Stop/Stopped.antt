-- ===== src/Stop/Stopped.antt =====
-- `stop_process_for_reclamation` of kernel/process/reclamation.cpp: a process that is stopped runs on no core
-- and waits in no ready queue.
use a9n.Base.{ℕ, ◌≡◌, Bool, false, not, Option, some, if◌then◌else◌}
use a9n.Base.Result.{Result, ok, err, KernelError, illegal_argument}
use a9n.Hal.{Hal, HalError}
use a9n.Kernel.{Kernel}
use a9n.Stop.{KernelEntry, StopState, StopRequest, runs_on, stop_on}
use a9n.Stop.Calm.{IsCalm}

module _ (c p : ℕ) where
  -- The request's state and the kernel, after the switch.
  record IsRetired (k : Kernel) (out : StopState × Kernel) : Type 0 where
    calm : IsCalm c k out.1
    quiet : out.0 ≡ StopState.stopped → runs_on c p out.1 ≡ false

  module _ (smp : Bool) (hal : Hal) (entry : KernelEntry) where
    abbrev posted : StopRequest
    posted = record { target = p; state = StopState.pending }

    abbrev begun :
        ℕ → Kernel → ℕ → Bool → Result ℕ HalError → Option (Result (Unit {0}) KernelError × Kernel)
    begun fuel k a b h = if not b then some (err illegal_argument, k) else elim h [
      | err e ↦ some (err KernelError.hal_error, k)
      | ok l ↦ stop_on smp hal entry fuel a l p k
    ]
