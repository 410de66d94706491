-- ===== src/Manager/Idle.antt =====
-- `process_manager::switch_to_idle` on the core that runs it.
use a9n.Base.{ℕ, ◌≡◌, refl, ap, Bool, true, false, some, if◌then◌else◌, write_self, arith}
use a9n.Base.Result.{Result, ok, err, KernelError}
use a9n.Hal.{Hal, HalError, Registers}
use a9n.Kernel.{Kernel, Cpu, bind, or_else_result, fail, modify, store_registers}
use a9n.Manager.{switch_to_idle, idle_on, previous_or_idle, set_current}
use a9n.Process.{Processes}

-- The processes without their registers.
abbrev pub unregistered : Processes → Processes
unregistered m = record m { registers = λ _ _. 0 }

-- Where it succeeds the core is idle. Nothing else changes but the registers and the current process.
pub record IsIdled (c : ℕ) (k : Kernel) (out : Result (Unit {0}) KernelError × Kernel)
    : Type 0 where
  pub idle : out.0 ≡ ok tt → (out.1.cpus c).is_idle ≡ true
  pub procs : unregistered (out.1.procs) ≡ unregistered (k.procs)
  pub scheduler : (out.1.cpus c).scheduler ≡ (k.cpus c).scheduler
  pub pending : (out.1.cpus c).pending_reschedule_target ≡ (k.cpus c).pending_reschedule_target

module _ (c : ℕ) (k : Kernel) where
  switched-IsIdled :
      (p : ℕ) (out : Result (Unit {0}) HalError × Registers)
      → IsIdled c k (
          bind
            (or_else_result (store_registers out k) (λ e. fail KernelError.hal_error))
            (λ _. modify (set_current c (some p) true)))
  switched-IsIdled p (ok _, r) =
      let written =
        write_self (k.cpus) c (record (k.cpus c) { current_process = some p; is_idle = true }) in
      record {
        idle = λ e. ap (λ (v : Cpu). v.is_idle) written;
        procs = refl;
        scheduler = ap (λ (v : Cpu). v.scheduler) written;
        pending = ap (λ (v : Cpu). v.pending_reschedule_target) written;
      }
  switched-IsIdled p (err x, r) = record {
    idle = λ e. absurd (ground (arith, e));
    procs = refl;
    scheduler = refl;
    pending = refl;
  }

  if-IsIdled :
      (b : Bool) (x : Result (Unit {0}) KernelError × Kernel)
      → (k.cpus c).is_idle ≡ b
      → IsIdled c k x
      → IsIdled c k (if b then (ok tt, k) else x)
  if-IsIdled true x e h = record { idle = λ _. e; procs = refl; scheduler = refl; pending = refl }
  if-IsIdled false x e h = h

  pub switch_to_idle-IsIdled :
      (hal : Hal) → hal.current_cpu ≡ ok c → IsIdled c k (switch_to_idle hal c k)
  unfolding switch_to_idle idle_on
  switch_to_idle-IsIdled hal here =
      let idle = (k.cpus c).idle_process in
      rw (here, switch_to_idle)
        (if-IsIdled (k.cpus c).is_idle _ refl (
          switched-IsIdled idle (
            hal.switch_context (previous_or_idle hal idle (k.cpus c).current_process) idle
              (k.procs.registers))))
