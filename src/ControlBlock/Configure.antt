-- ===== src/ControlBlock/Configure.antt =====
-- The CONFIGURE of kernel/capability/process_control_block.cpp, and the dispatch of the operations. `lookup` is
-- the traversal of a descriptor from the root slot of a process.
pub mod Settings
pub mod Bounds
use a9n.Base.{
  ℕ, ◌^◌, Bool, true, false, not, ◌&&◌, ◌||◌, Option, none, some, ltb, ◌==◌, if◌then◌else◌, write,
  bit_and, bit_or,
}
use a9n.Base.Int.{pos}
use a9n.Base.Result.{Result, ok, err, KernelError, init_first}
use a9n.CapabilityTypes.{
  CapabilityError, LookupError, type_code, fatal, illegal_operation, invalid_argument,
  invalid_descriptor,
}
use a9n.ControlBlock.{
  is_running_on_assigned_core, bound_notification_port, unbind, operation_read_register,
  operation_write_register, operation_resume, operation_suspend,
}
use a9n.Hal.{Hal, HalError, GeneralRegister}
use a9n.IpcPort.Transfer.{on_slots}
use a9n.Kernel.{
  Kernel, M, ◌>>=◌, ◌>>◌, return, fail, modify, or_else, convert_kernel, convert_hal_to_capability,
  get_message_register, store_registers,
}
use a9n.Notification.{bind_process}
use a9n.Scheduler.{is_ready, priority_max}
use a9n.Slot.{Slots, try_copy_capability_slot}
use a9n.Stop.{KernelEntry}

-- `configuration_info::contains`, of the flag `1 << bit`.
abbrev pub contains : ℕ → ℕ → Bool
contains flags bit = not (bit_and flags (2 ^ bit) == 0)

-- A null pointer is `none`.
abbrev pub pointer : ℕ → Option ℕ
pointer address = if address == 0 then none else some address

abbrev pub set_priority : ℕ → ℕ → Kernel → Kernel
set_priority p v k = record k {
  procs = record (k.procs) { priority = write (k.procs.priority) p (pos v) };
}

abbrev pub set_affinity : ℕ → ℕ → Kernel → Kernel
set_affinity p v k = record k {
  procs = record (k.procs) { core_affinity = write (k.procs.core_affinity) p v };
}

abbrev pub set_buffer : ℕ → Option ℕ → Kernel → Kernel
set_buffer p v k = record k { procs = record (k.procs) { buffer = write (k.procs.buffer) p v } }

-- A process that waits in a ready queue or runs stays on its core.
abbrev pub is_pinned : ℕ → Kernel → Bool
is_pinned p k = is_ready (k.procs.status p) || is_running_on_assigned_core p k

-- The errors of the copy of an address space.
abbrev pub copy_error : KernelError → CapabilityError
copy_error init_first = invalid_descriptor
copy_error KernelError.permission_denied = CapabilityError.permission_denied
copy_error _ = invalid_argument

abbrev pub no_descriptor : {A : Type 0} → Result A LookupError → M CapabilityError A
no_descriptor (ok a) = return a
no_descriptor (err e) = fail invalid_descriptor

module _ (hal : Hal) (lookup : Kernel → ℕ → ℕ → Result ℕ LookupError)
    (remove_slot : ℕ → M KernelError (Unit {0})) (this : ℕ) where
  -- The slot that a descriptor of the owner names, if its capability has the type.
  find : ℕ → ℕ → ℕ → M CapabilityError ℕ
  find code owner descriptor k =
      (no_descriptor (lookup k owner descriptor) >>= (λ slot k'.
          if type_code (k'.slots.type slot) == code
          then (ok slot, k')
          else (err invalid_descriptor, k')))
        k

  -- `try_remove_and_init` of the process's own slot, whose failure is FATAL.
  empty_own : (Kernel → ℕ) → M CapabilityError (Unit {0})
  empty_own own k = or_else (remove_slot (own k)) (λ e. fail fatal) k

  copy_own : (Kernel → ℕ) → ℕ → (KernelError → CapabilityError) → M CapabilityError (Unit {0})
  copy_own own slot error k =
      or_else (on_slots (λ s. try_copy_capability_slot s (own k) slot)) (λ e. fail (error e)) k

  replace : (Kernel → ℕ) → (KernelError → CapabilityError) → ℕ → M CapabilityError (Unit {0})
  unfolding empty_own copy_own
  replace own error slot = empty_own own >> copy_own own slot error

  -- ADDRESS_SPACE is the type 4.
  pub configure_address_space : ℕ → ℕ → M CapabilityError (Unit {0})
  unfolding find replace
  configure_address_space owner descriptor =
      find 4 owner descriptor >>= replace (λ k. k.procs.root_address_space this) copy_error

  -- NODE is the type 2.
  pub configure_root_node : ℕ → ℕ → M CapabilityError (Unit {0})
  unfolding find replace
  configure_root_node owner descriptor =
      find 2 owner descriptor >>= replace (λ k. k.procs.root_slot this) (λ e. fatal)

  -- FRAME is the type 6; the address of the frame is read before the copy.
  pub configure_frame_ipc_buffer : ℕ → ℕ → M CapabilityError (Unit {0})
  unfolding find empty_own copy_own
  configure_frame_ipc_buffer owner descriptor = do
    slot ← find 6 owner descriptor
    empty_own (λ k. k.procs.buffer_frame this)
    λ k.
        (copy_own (λ k'. k'.procs.buffer_frame this) slot (λ e. fatal)
            >> modify (
                set_buffer this
                  (pointer (bit_or (k.slots.local slot).word_0 hal.kernel_virtual_base))))
          k

  -- The process leaves the port that it was bound to, and is bound to `port`.
  rebind : ℕ → ℕ → M CapabilityError (Unit {0})
  unfolding empty_own copy_own
  rebind slot port = do
    modify (λ k. unbind this (bound_notification_port this k) k)
    empty_own (λ k. k.procs.binded_notification_port this)
    convert_kernel (bind_process port this)
    copy_own (λ k. k.procs.binded_notification_port this) slot (λ e. fatal)

  rebind_to : ℕ → Option ℕ → M CapabilityError (Unit {0})
  unfolding rebind
  rebind_to slot none = fail invalid_descriptor
  rebind_to slot (some port) = rebind slot port

  -- NOTIFICATION_PORT is the type 9.
  pub configure_notification_port : ℕ → ℕ → M CapabilityError (Unit {0})
  unfolding find rebind_to
  configure_notification_port owner descriptor = do
    slot ← find 9 owner descriptor
    λ k. rebind_to slot (k.slots.component slot) k

  -- IPC_PORT is the type 8.
  pub configure_ipc_port_resolver : ℕ → ℕ → M CapabilityError (Unit {0})
  unfolding find replace
  configure_ipc_port_resolver owner descriptor =
      find 8 owner descriptor >>= replace (λ k. k.procs.resolver_port this) (λ e. fatal)

  -- A setting that the flags select takes its word from the message register `index`.
  selected : ℕ → ℕ → ℕ → ℕ → (ℕ → M CapabilityError (Unit {0})) → M CapabilityError (Unit {0})
  selected flags bit index owner set =
      if contains flags bit
      then convert_hal_to_capability (get_message_register hal owner index) >>= set
      else return tt

  -- An invalid address is refused with the error.
  configure_register : GeneralRegister → CapabilityError → ℕ → M CapabilityError (Unit {0})
  configure_register register error value =
      if hal.is_valid_user_address value
      then convert_hal_to_capability (λ k.
        store_registers (hal.configure_general_register this register value (k.procs.registers)) k)
      else fail error

  configure_priority : ℕ → M CapabilityError (Unit {0})
  configure_priority value =
      if ltb value priority_max then modify (set_priority this value) else fail invalid_argument

  configure_affinity : ℕ → M CapabilityError (Unit {0})
  configure_affinity value k =
      if not (ltb value (hal.core_count))
      then (err invalid_argument, k)
      else if not (value == k.procs.core_affinity this) && is_pinned this k
      then (err invalid_argument, k)
      else (ok tt, set_affinity this value k)

  -- The settings before the core.
  configure_resources : ℕ → ℕ → M CapabilityError (Unit {0})
  unfolding selected configure_register configure_priority
  configure_resources owner flags =
      selected flags 0 3 owner (configure_address_space owner)
      >> selected flags 1 4 owner (configure_root_node owner)
      >> selected flags 2 5 owner (configure_frame_ipc_buffer owner)
      >> selected flags 3 6 owner (configure_notification_port owner)
      >> selected flags 4 7 owner (configure_ipc_port_resolver owner)
      >> selected flags 5 8 owner
          (configure_register GeneralRegister.instruction_pointer illegal_operation)
      >> selected flags 6 9 owner
          (configure_register GeneralRegister.stack_pointer illegal_operation)
      >> selected flags 7 10 owner (configure_register GeneralRegister.thread_local_base fatal)
      >> selected flags 8 11 owner configure_priority

  configure_all : ℕ → ℕ → M CapabilityError (Unit {0})
  unfolding configure_resources configure_affinity
  configure_all owner flags =
      configure_resources owner flags >> selected flags 9 12 owner configure_affinity

  -- CONFIGURATION_INFO is the message register 2.
  pub operation_configure : ℕ → M CapabilityError (Unit {0})
  unfolding configure_all
  operation_configure owner =
      convert_hal_to_capability (get_message_register hal owner 2) >>= configure_all owner

module _ (smp : Bool) (hal : Hal) (entry : KernelEntry)
    (lookup : Kernel → ℕ → ℕ → Result ℕ LookupError) (remove_slot : ℕ → M KernelError (Unit {0}))
    (this : ℕ) where
  abbrev pub operation_type : Result ℕ HalError → ℕ
  operation_type (ok n) = n
  operation_type (err e) = 0

  -- By the operation of the message register 1, on the fuel of the stop.
  perform : ℕ → ℕ → ℕ → Kernel → Option (Result (Unit {0}) CapabilityError × Kernel)
  perform fuel owner operation k =
      if operation == 1
      then some (operation_configure hal lookup remove_slot this owner k)
      else if operation == 2
      then some (operation_read_register hal this owner k)
      else if operation == 3
      then some (operation_write_register hal this owner k)
      else if operation == 4
      then some (operation_resume smp hal this owner k)
      else if operation == 5
      then operation_suspend smp hal entry this fuel k
      else some (err illegal_operation, k)

  pub execute : ℕ → ℕ → Kernel → Option (Result (Unit {0}) CapabilityError × Kernel)
  unfolding perform
  execute fuel owner k =
      perform fuel owner (operation_type (hal.get_message_register owner 1 (k.procs.registers))) k
