-- ===== src/RevokedWait.antt =====
-- kernel/capability/ipc_port.cpp: `complete_revoked_wait`, the end of a wait whose port is revoked.
pub mod Keep
use a9n.Base.{ℕ, Bool, false}
use a9n.CapabilityTypes.{CapabilityError}
use a9n.Hal.{Hal}
use a9n.Kernel.{
  Kernel, M, ◌>>◌, return, modify, convert_kernel, convert_hal_to_capability, set_status,
  configure_message_register,
}
use a9n.Manager.Route.{route_mark_scheduled}
use a9n.Process.{ProcessStatus, FaultType}

module _ (smp : Bool) (hal : Hal) where
  abbrev pub reschedule : ℕ → M CapabilityError (Unit {0})
  reschedule target = convert_kernel (route_mark_scheduled smp hal false target target)

  pub resume_blocked : ℕ → ProcessStatus → M CapabilityError (Unit {0})
  resume_blocked target ProcessStatus.blocked_send = reschedule target
  resume_blocked target ProcessStatus.blocked_receive = reschedule target
  resume_blocked target ProcessStatus.blocked_reply = reschedule target
  resume_blocked target ProcessStatus.blocked_wait = reschedule target
  resume_blocked target _ = return tt

  -- A process with a fault is suspended.
  resume_fault : ℕ → ProcessStatus → FaultType → M CapabilityError (Unit {0})
  unfolding resume_blocked
  resume_fault target s FaultType.none = resume_blocked target s
  resume_fault target s _ = modify (set_status target ProcessStatus.blocked_suspend)

  pub resume_revoked : ℕ → M CapabilityError (Unit {0})
  unfolding resume_fault
  resume_revoked target k =
      resume_fault target (k.procs.status target) (k.procs.fault_reason target) k

  -- RESULT_IS_SUCCESS is 0, RESULT_ERROR_CODE is 1, and ILLEGAL_OPERATION is the error 0.
  pub complete_revoked_wait : ℕ → M CapabilityError (Unit {0})
  unfolding resume_revoked
  complete_revoked_wait target =
      convert_hal_to_capability (configure_message_register hal target 0 0)
      >> convert_hal_to_capability (configure_message_register hal target 1 0)
      >> resume_revoked target
