-- ===== src/RevokedWait/Keep.antt =====
-- What the end of a revoked wait leaves alone.
use a9n.Base.{ℕ, Bool, ◌≡◌, refl, false}
use a9n.CapabilityTypes.{CapabilityError}
use a9n.Hal.{Hal, HalError, Registers}
use a9n.Kernel.{
  Kernel, modify, convert_hal_to_capability, set_status, configure_message_register,
  store_registers,
}
use a9n.Base.Result.{Result}
use a9n.Manager.Frame.{
  outside, Keeps, change-Keeps, >>-Keeps, or_else-Keeps, fail-Keeps, return-Keeps, reading-Keeps,
}
use a9n.Manager.Route.Keep.{route_mark_scheduled-Keeps}
use a9n.Process.{ProcessStatus, FaultType}
use a9n.RevokedWait.{
  reschedule, resume_blocked, resume_fault, resume_revoked, complete_revoked_wait,
}

stored-outside :
    {A : Type 0} (out : Result A HalError × Registers) (k : Kernel)
    → outside (store_registers out k).1 ≡ outside k
stored-outside (r, registers) k = refl

module _ (smp : Bool) (hal : Hal) where
  configure-Keeps :
      (p index v : ℕ) → Keeps (convert_hal_to_capability (configure_message_register hal p index v))
  configure-Keeps p index v =
      or_else-Keeps
        (change-Keeps (configure_message_register hal p index v)
          (λ k. stored-outside (hal.configure_message_register p index v (k.procs.registers)) k))
        (λ e. fail-Keeps _)

  reschedule-Keeps : (target : ℕ) → Keeps (reschedule smp hal target)
  reschedule-Keeps target =
      or_else-Keeps (route_mark_scheduled-Keeps smp hal false target target) (λ e. fail-Keeps _)

  resume_blocked-Keeps : (target : ℕ) (s : ProcessStatus) → Keeps (resume_blocked smp hal target s)
  unfolding resume_blocked
  resume_blocked-Keeps target ProcessStatus.blocked_send = reschedule-Keeps target
  resume_blocked-Keeps target ProcessStatus.blocked_receive = reschedule-Keeps target
  resume_blocked-Keeps target ProcessStatus.blocked_reply = reschedule-Keeps target
  resume_blocked-Keeps target ProcessStatus.blocked_wait = reschedule-Keeps target
  resume_blocked-Keeps target ProcessStatus.unused = return-Keeps tt
  resume_blocked-Keeps target ProcessStatus.ready = return-Keeps tt
  resume_blocked-Keeps target ProcessStatus.blocked_suspend = return-Keeps tt
  resume_blocked-Keeps target ProcessStatus.blocked_fault = return-Keeps tt
  resume_blocked-Keeps target ProcessStatus.idle = return-Keeps tt

  suspended-Keeps :
      (target : ℕ)
      → Keeps {E = CapabilityError} (modify (set_status target ProcessStatus.blocked_suspend))
  suspended-Keeps target = change-Keeps _ (λ k. refl)

  resume_fault-Keeps :
      (target : ℕ) (s : ProcessStatus) (f : FaultType) → Keeps (resume_fault smp hal target s f)
  unfolding resume_fault
  resume_fault-Keeps target s FaultType.none = resume_blocked-Keeps target s
  resume_fault-Keeps target s FaultType.memory = suspended-Keeps target
  resume_fault-Keeps target s FaultType.memory_instruction_fetch = suspended-Keeps target
  resume_fault-Keeps target s FaultType.invalid_instruction = suspended-Keeps target
  resume_fault-Keeps target s FaultType.invalid_arithmetic = suspended-Keeps target
  resume_fault-Keeps target s FaultType.invalid_kernel_call = suspended-Keeps target
  resume_fault-Keeps target s FaultType.fatal = suspended-Keeps target
  resume_fault-Keeps target s FaultType.architecture = suspended-Keeps target

  resume_revoked-Keeps : (target : ℕ) → Keeps (resume_revoked smp hal target)
  unfolding resume_revoked
  resume_revoked-Keeps target =
      reading-Keeps _
        (λ k. resume_fault-Keeps target (k.procs.status target) (k.procs.fault_reason target))

  pub complete_revoked_wait-Keeps : (target : ℕ) → Keeps (complete_revoked_wait smp hal target)
  unfolding complete_revoked_wait
  complete_revoked_wait-Keeps target =
      >>-Keeps (>>-Keeps (configure-Keeps target 0 0) (configure-Keeps target 1 0))
        (resume_revoked-Keeps target)
