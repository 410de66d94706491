-- ===== src/Stop.antt =====
-- kernel/process/reclamation.cpp: how a process is stopped, also where it runs on another core. A manager is
-- named by its core, and CPU_COUNT_MAX is 64. The requester holds the giant lock, and the core that
-- it asks serves the request while it waits for that lock, at the kernel entry `entry`: the wait
-- for the answer is that core's service.
pub mod Calm
pub mod Stopped
mod Examples
use a9n.Base.{
  ℕ, Bool, true, false, not, ◌&&◌, ◌||◌, Option, none, some, ltb, ◌==◌, if◌then◌else◌, points_to,
}
use a9n.Base.Result.{Result, ok, err, KernelError, illegal_argument, unexpected}
use a9n.Hal.{Hal}
use a9n.Kernel.{Kernel, set_cpu, set_registers}
use a9n.Manager.{mark_suspended, switch_to_idle}

abbrev pub cpu_count_max : ℕ
cpu_count_max = 64

-- kernel_entry_type.
pub data KernelEntry : Type 0 where
  interrupt syscall : KernelEntry

pub data StopState : Type 0 where
  idle pending stopped failed : StopState

pub record StopRequest : Type 0 where
  pub target : ℕ
  pub state : StopState

-- The process runs on core `c`.
abbrev pub runs_on : ℕ → ℕ → Kernel → Bool
runs_on c target k = points_to (k.cpus c).current_process target && not (k.cpus c).is_idle

abbrev pub forget_target : ℕ → ℕ → Kernel → Kernel
forget_target c target k =
    if points_to (k.cpus c).pending_reschedule_target target
    then set_cpu c (record (k.cpus c) { pending_reschedule_target = none }) k
    else k

abbrev pub completed : StopRequest → ℕ → StopState × Kernel → StopRequest × Kernel
completed request c (state, k) =
    (record request { state = state }, forget_target c request.target k)

module _ (hal : Hal) where
  -- A system call that has not begun is called again.
  answer : KernelEntry → ℕ → Result (Unit {0}) KernelError × Kernel → StopState × Kernel
  answer entry target (err e, k) = (StopState.failed, k)
  answer KernelEntry.interrupt target (ok _, k) = (StopState.stopped, k)
  answer KernelEntry.syscall target (ok _, k) =
      (StopState.stopped, set_registers (hal.restart_syscall target (k.procs.registers)) k)

  retire : KernelEntry → ℕ → ℕ → Kernel → StopState × Kernel
  unfolding answer
  retire entry c target k =
      if runs_on c target k
      then answer entry target (switch_to_idle hal c k)
      else (StopState.stopped, k)

  serve_on : KernelEntry → ℕ → StopRequest → Kernel → StopRequest × Kernel
  unfolding retire
  serve_on entry c request k = elim (request.state) [
    | StopState.pending ↦ completed request c (retire entry c request.target k)
    | _ ↦ (request, k)
  ]

  -- On the core that `hal.current_cpu` names.
  pub service_pending_stop_request : KernelEntry → StopRequest → Kernel → StopRequest × Kernel
  unfolding serve_on
  service_pending_stop_request entry request k = elim (hal.current_cpu) [
    | err e ↦ (request, k)
    | ok c ↦ serve_on entry c request k
  ]

  abbrev pub on_core : ℕ → Hal
  on_core c = record hal { current_cpu = ok c }

abbrev pub acknowledged : StopRequest × Kernel → Result (Unit {0}) KernelError × Kernel
acknowledged (request, k) = elim (request.state) [
  | StopState.stopped ↦ (ok tt, k)
  | _ ↦ (err unexpected, k)
]

module _ (smp : Bool) (hal : Hal) (entry : KernelEntry) where
  -- By core `c`, which runs the process.
  stop_remote : ℕ → ℕ → Kernel → Result (Unit {0}) KernelError × Kernel
  stop_remote c target k = elim (hal.send_ipi c) [
    | err e ↦ (err KernelError.hal_error, k)
    | ok _ ↦ acknowledged (
        service_pending_stop_request (on_core hal c) entry
          (record { target = target; state = StopState.pending }) k)
  ]

  -- Behind the removal from scheduling, on core `l`.
  pub stop_running : ℕ → ℕ → ℕ → Kernel → Result (Unit {0}) KernelError × Kernel
  unfolding stop_remote
  stop_running c l target k =
      if not (runs_on c target k)
      then (ok tt, k)
      else if c == l
      then switch_to_idle hal c k
      else if smp
      then stop_remote c target k
      else (err unexpected, k)

  abbrev pub after_suspend :
      ℕ → ℕ → ℕ → Result (Unit {0}) KernelError × Kernel → Result (Unit {0}) KernelError × Kernel
  after_suspend c l target (err e, k) = (err e, k)
  after_suspend c l target (ok _, k) = stop_running c l target (forget_target c target k)

  stop_on : ℕ → ℕ → ℕ → ℕ → Kernel → Option (Result (Unit {0}) KernelError × Kernel)
  unfolding stop_running
  stop_on fuel c l target k = elim (mark_suspended fuel c target k) [
    | none ↦ none
    | some out ↦ some (after_suspend c l target out)
  ]

  -- On the fuel of `mark_suspended`.
  pub stop_process_for_reclamation :
      ℕ → ℕ → Kernel → Option (Result (Unit {0}) KernelError × Kernel)
  unfolding stop_on
  stop_process_for_reclamation fuel target k =
      let c = k.procs.core_affinity target in
      if not (ltb c cpu_count_max) then some (err illegal_argument, k) else elim (hal.current_cpu) [
        | err e ↦ some (err KernelError.hal_error, k)
        | ok l ↦ stop_on fuel c l target k
      ]
