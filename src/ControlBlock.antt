-- ===== src/ControlBlock.antt =====
-- kernel/capability/process_control_block.{hpp,cpp}: the operations on a process. `this` is the process, and
-- `remove_slot` the try_remove_and_init of a capability slot.
pub mod Configure
pub mod Detached
pub mod Cancelled
pub mod Written
mod Examples
use a9n.Base.{
  ℕ, zero, suc, ◌+◌, Bool, true, false, not, ◌&&◌, ◌||◌, Option, none, some, ltb, ◌==◌,
  if◌then◌else◌, is_some, write,
}
use a9n.Base.Result.{Result, ok, err, KernelError}
use a9n.CapabilityTypes.{CapabilityError, type_code, fatal, invalid_argument}
use a9n.Hal.{Hal}
use a9n.IpcPort.{is_faulted}
use a9n.IpcPort.Reply.{cancel_reply, is_call, set_register}
use a9n.IpcQueue.{remove_ipc_queue}
use a9n.Kernel.{
  Kernel, M, bind, ◌>>=◌, ◌>>◌, return, fail, modify, or_else_result, convert_kernel,
  convert_hal_to_capability, set_status, set_registers, get_message_register,
  configure_message_register,
}
use a9n.Manager.Route.{route_mark_scheduled}
use a9n.Notification.{unbind_process, remove_notification_queue}
use a9n.Process.{ProcessStatus, FaultType}
use a9n.Stop.{KernelEntry, runs_on, stop_process_for_reclamation}

-- `is_running_on_assigned_core`.
abbrev pub is_running_on_assigned_core : ℕ → Kernel → Bool
is_running_on_assigned_core target k = runs_on (k.procs.core_affinity target) target k

abbrev pub clear_fault : ℕ → Kernel → Kernel
clear_fault target k = record k {
  procs = record (k.procs) {
    fault_reason = write (k.procs.fault_reason) target FaultType.none;
    fault_code = write (k.procs.fault_code) target 0;
    arch_fault_code = write (k.procs.arch_fault_code) target 0;
    fault_address = write (k.procs.fault_address) target 0;
  };
}

-- The port of a process, if it waits at one.
abbrev pub leave : (ℕ → M KernelError (Unit {0})) → Option ℕ → M CapabilityError (Unit {0})
leave remove none = return tt
leave remove (some port) = convert_kernel (remove port)

pub detach_from_wait_queues : ℕ → M CapabilityError (Unit {0})
detach_from_wait_queues this =
    (λ k. leave (λ port. remove_ipc_queue port this) (k.procs.current_ipc_port this) k) >> (λ k.
      leave (λ port. remove_notification_queue port this) (k.procs.current_notification_port this)
        k)

-- A process whose status says that it waits in the kernel.
abbrev pub is_blocked : ProcessStatus → Bool
is_blocked ProcessStatus.blocked_send = true
is_blocked ProcessStatus.blocked_receive = true
is_blocked ProcessStatus.blocked_reply = true
is_blocked ProcessStatus.blocked_wait = true
is_blocked _ = false

abbrev pub is_native_wait : ℕ → Kernel → Bool
is_native_wait this k =
    not (is_faulted (k.procs.fault_reason this))
    && (is_some (k.procs.current_ipc_port this)
        || is_some (k.procs.current_notification_port this)
        || is_call (k.procs.source_reply_state this)
        || is_blocked (k.procs.status this))

-- The slot of the port that the process is bound to, if it has one. NOTIFICATION_PORT is the type 9.
abbrev pub bound_notification_port : ℕ → Kernel → Option ℕ
bound_notification_port this k =
    let slot = k.procs.binded_notification_port this in
    if type_code (k.slots.type slot) == 9 then k.slots.component slot else none

-- `unbind_process`, whose result is not looked at.
abbrev pub unbind : ℕ → Option ℕ → Kernel → Kernel
unbind this none k = k
unbind this (some port) k = (unbind_process port this k).1

-- An operation behind one that fuel limits.
abbrev pub after :
    {A B : Type 0}
    → Option (Result A CapabilityError × Kernel)
    → (A → M CapabilityError B)
    → Option (Result B CapabilityError × Kernel)
after none f = none
after (some out) f = some (bind out f)

module _ (smp : Bool) (hal : Hal) (this : ℕ) where
  pub cancel_own_wait : M CapabilityError (Unit {0})
  cancel_own_wait = detach_from_wait_queues this >> cancel_reply smp hal this false

  pub operation_resume : ℕ → M CapabilityError (Unit {0})
  operation_resume owner k =
      if is_running_on_assigned_core this k
      then (err invalid_argument, k)
      else (cancel_own_wait
            >> modify (λ k'. set_status this ProcessStatus.ready (clear_fault this k'))
            >> convert_kernel (route_mark_scheduled smp hal false owner this))
          k

module _ (hal : Hal) (this : ℕ) where
  -- `for (auto i = 0; …)`, over the registers left. REGISTER is the message register 3.
  read_rest : ℕ → ℕ → ℕ → M CapabilityError (Unit {0})
  read_rest zero owner i = return tt
  read_rest (suc n) owner i =
      (λ k.
        convert_hal_to_capability
          (configure_message_register hal owner (i + 3) (k.procs.registers this i)) k)
      >> read_rest n owner (suc i)

  write_rest : ℕ → ℕ → ℕ → M CapabilityError (Unit {0})
  write_rest zero owner i = return tt
  write_rest (suc n) owner i =
      convert_hal_to_capability (get_message_register hal owner (i + 3))
      >>= (λ value. modify (set_register this i value) >> write_rest n owner (suc i))

  -- REGISTER_COUNT is the message register 2.
  abbrev pub counted : ℕ → (ℕ → M CapabilityError (Unit {0})) → M CapabilityError (Unit {0})
  counted owner f = convert_hal_to_capability (get_message_register hal owner 2) >>= (λ count.
      if ltb (hal.hardware_context_size) count then fail invalid_argument else f count)

  pub operation_read_register : ℕ → M CapabilityError (Unit {0})
  unfolding read_rest
  operation_read_register owner = counted owner (λ count. read_rest count owner 0)

  pub operation_write_register : ℕ → M CapabilityError (Unit {0})
  unfolding write_rest
  operation_write_register owner = counted owner (λ count. write_rest count owner 0)

module _ (smp : Bool) (hal : Hal) (entry : KernelEntry) (this : ℕ) where
  -- On the fuel of `stop_process_for_reclamation`.
  abbrev pub stop : ℕ → Kernel → Option (Result (Unit {0}) CapabilityError × Kernel)
  stop fuel k = elim (stop_process_for_reclamation smp hal entry fuel this k) [
    | none ↦ none
    | some out ↦ some (or_else_result out (λ e. fail fatal))
  ]

  -- IS_SUCCESS is the register 0, ERROR_CODE is 1, and ILLEGAL_OPERATION is the error 0.
  refuse_wait : Bool → M CapabilityError (Unit {0})
  refuse_wait false = return tt
  refuse_wait true =
      convert_hal_to_capability (configure_message_register hal this 0 0)
      >> convert_hal_to_capability (configure_message_register hal this 1 0)

  -- The call of the kernel that a cancelled fault was about begins again.
  rewind : FaultType → M CapabilityError (Unit {0})
  rewind FaultType.invalid_kernel_call =
      modify (λ k. set_registers (hal.restart_syscall this (k.procs.registers)) k)
  rewind _ = return tt

  pub operation_suspend : ℕ → Kernel → Option (Result (Unit {0}) CapabilityError × Kernel)
  unfolding refuse_wait rewind
  operation_suspend fuel k = after (stop fuel k) (λ _.
      refuse_wait (is_native_wait this k)
      >> cancel_own_wait smp hal this
      >> rewind (k.procs.fault_reason this)
      >> modify (clear_fault this))

  module _ (remove_slot : ℕ → M KernelError (Unit {0})) where
    -- Whoever waits for the reply of this process goes on with an error.
    cancel_caller : M CapabilityError (Unit {0})
    cancel_caller k = elim (k.procs.destination_reply_target this) [
      | none ↦ (ok tt, k)
      | some client ↦ cancel_reply smp hal client true k
    ]

    abbrev pub remove_owned : (Kernel → ℕ) → M CapabilityError (Unit {0})
    remove_owned slot k = convert_kernel (remove_slot (slot k)) k

    -- The buffer is out of use even where the removal of its frame fails.
    abbrev pub without_buffer :
        Result (Unit {0}) CapabilityError × Kernel → Result (Unit {0}) CapabilityError × Kernel
    without_buffer (r, k) =
        (r, record k { procs = record (k.procs) { buffer = write (k.procs.buffer) this none } })

    remove_all : M CapabilityError (Unit {0})
    remove_all =
        remove_owned (λ k. k.procs.root_slot this)
        >> remove_owned (λ k. k.procs.root_address_space this)
        >> (λ k. without_buffer (remove_owned (λ k'. k'.procs.buffer_frame this) k))
        >> remove_owned (λ k. k.procs.resolver_port this)

    pub revoke : ℕ → Kernel → Option (Result (Unit {0}) CapabilityError × Kernel)
    unfolding cancel_caller remove_all
    revoke fuel k = after (stop fuel k) (λ _.
        detach_from_wait_queues this
        >> cancel_caller
        >> cancel_reply smp hal this false
        >> remove_all
        >> modify (λ k'. set_registers (hal.init_hardware_context this (k'.procs.registers)) k')
        >> modify (λ k'. unbind this (bound_notification_port this k') k')
        >> remove_owned (λ k'. k'.procs.binded_notification_port this))
