-- ===== src/Kernel.antt =====
-- The state that the kernel's operations share under its lock, and how they are composed. An operation
-- takes the state to a result and the state after it.
pub mod Preserve
pub mod Succeed
use a9n.Base.{ℕ, Bool, true, false, Option, write, if◌then◌else◌}
use a9n.Base.Result.{Result, ok, err, KernelError}
use a9n.CapabilityTypes.{CapabilityError, fatal}
use a9n.Hal.{Hal, HalError, Registers}
use a9n.Process.{Processes, ProcessStatus}
use a9n.Scheduler.{Scheduler}
use a9n.Node.{Node}
use a9n.Slot.{Slots}

-- kernel/process/cpu.hpp: the variables of a core with the process manager that they embed, whose
-- scheduler and idle process stand here.
pub record Cpu : Type 0 where
  pub scheduler : Scheduler
  pub idle_process : ℕ
  pub current_process : Option ℕ
  pub is_idle : Bool
  pub pending_reschedule_target : Option ℕ

-- kernel/ipc/notification.hpp and kernel/capability/notification_port.hpp.
pub data NotificationState : Type 0 where
  none has_flag : NotificationState

pub data NotificationPortState : Type 0 where
  wait ready_to_wake : NotificationPortState

-- The two ends of a port's wait queue.
pub record Ends : Type 0 where
  pub head : Option ℕ
  pub tail : Option ℕ

-- The ports by address, each field a map.
pub record NotificationPorts : Type 0 where
  pub current_state : ℕ → NotificationState
  pub flag : ℕ → ℕ
  pub queue : ℕ → Ends
  pub binded_process : ℕ → Option ℕ
  pub state : ℕ → NotificationPortState

-- kernel/capability/ipc_port.hpp.
pub data IpcPortState : Type 0 where
  wait ready_to_send ready_to_receive : IpcPortState

pub record IpcPorts : Type 0 where
  pub queue : ℕ → Ends
  pub state : ℕ → IpcPortState

-- kernel/ipc/ipc_buffer.hpp: what a buffer says of a transfer of capabilities.
pub record IpcBuffer : Type 0 where
  pub transfer_source_descriptors : ℕ → ℕ
  pub transfer_destination_node : ℕ
  pub transfer_destination_index : ℕ

-- Cores by number; ports, nodes and buffers by address.
pub record Kernel : Type 0 where
  pub procs : Processes
  pub cpus : ℕ → Cpu
  pub slots : Slots
  pub nodes : ℕ → Node
  pub notification_ports : NotificationPorts
  pub ipc_ports : IpcPorts
  pub ipc_buffers : ℕ → IpcBuffer

-- An operation that fails with an `E`.
abbrev pub M : Type 0 → Type 0 → Type 0
M E A = Kernel → Result A E × Kernel

abbrev pub bind : {E A B : Type 0} → Result A E × Kernel → (A → M E B) → Result B E × Kernel
bind (ok a, k) f = f a k
bind (err e, k) f = (err e, k)

-- `.and_then(…)`.
infixl 5 ◌>>=◌ ◌>>◌
abbrev pub ◌>>=◌ : {E A B : Type 0} → M E A → (A → M E B) → M E B
◌>>=◌ m f k = bind (m k) f

abbrev pub ◌>>◌ : {E A B : Type 0} → M E A → M E B → M E B
◌>>◌ m n k = bind (m k) (λ _. n)

abbrev pub return : {E A : Type 0} → A → M E A
return a k = (ok a, k)

abbrev pub fail : {E A : Type 0} → E → M E A
fail e k = (err e, k)

-- The state, and a change of it.
abbrev pub get : {E : Type 0} → M E Kernel
get k = (ok k, k)

abbrev pub modify : {E : Type 0} → (Kernel → Kernel) → M E (Unit {0})
modify f k = (ok tt, f k)

abbrev pub or_else_result :
    {E F A : Type 0} → Result A E × Kernel → (E → M F A) → Result A F × Kernel
or_else_result (ok a, k) f = (ok a, k)
or_else_result (err e, k) f = f e k

-- `.or_else(…)`.
abbrev pub or_else : {E F A : Type 0} → M E A → (E → M F A) → M F A
or_else m f k = or_else_result (m k) f

-- `.transform_error(convert_hal_to_kernel_error)` and `(convert_kernel_to_capability_error)`.
abbrev pub convert_hal : {A : Type 0} → M HalError A → M KernelError A
convert_hal m = or_else m (λ e. fail KernelError.hal_error)

abbrev pub convert_kernel : {A : Type 0} → M KernelError A → M CapabilityError A
convert_kernel m = or_else m (λ e. fail fatal)

abbrev pub convert_hal_to_capability : {A : Type 0} → M HalError A → M CapabilityError A
convert_hal_to_capability m = or_else m (λ e. fail fatal)

abbrev pub lift : {E A : Type 0} → Result A E → M E A
lift r k = (r, k)

-- The writes of one field of a process.
abbrev pub set_status : ℕ → ProcessStatus → Kernel → Kernel
set_status p v k = record k { procs = record (k.procs) { status = write (k.procs.status) p v } }

abbrev pub set_registers : Registers → Kernel → Kernel
set_registers r k = record k { procs = record (k.procs) { registers = r } }

abbrev pub set_cpu : ℕ → Cpu → Kernel → Kernel
set_cpu c v k = record k { cpus = write (k.cpus) c v }

-- A call of the hardware layer on the registers.
abbrev pub store_registers :
    {A : Type 0} → Result A HalError × Registers → Kernel → Result A HalError × Kernel
store_registers (r, registers) k = (r, set_registers registers k)

module _ (hal : Hal) where
  abbrev pub switch_context : ℕ → ℕ → M HalError (Unit {0})
  switch_context previous next k =
      store_registers (hal.switch_context previous next (k.procs.registers)) k

  abbrev pub get_message_register : ℕ → ℕ → M HalError ℕ
  get_message_register p index k = (hal.get_message_register p index (k.procs.registers), k)

  abbrev pub configure_message_register : ℕ → ℕ → ℕ → M HalError (Unit {0})
  configure_message_register p index value k =
      store_registers (hal.configure_message_register p index value (k.procs.registers)) k

  abbrev pub get_instruction_pointer : ℕ → M HalError ℕ
  get_instruction_pointer p k = (hal.get_instruction_pointer p (k.procs.registers), k)
