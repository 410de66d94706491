-- ===== src/Hal.antt =====
-- The hardware layer as the kernel calls it (src/hal/include/hal/interface): an interface. The
-- registers of the processes are its state: words by process and index, where the message buffer's
-- words follow the hardware context's.
use a9n.Base.{ℕ, Bool}
use a9n.Base.Result.{Result}

pub data HalError : Type 0 where
  permission_denied illegal_argument illegal_device no_such_device no_such_address : HalError
  unsupported try_again unexpected init_first timeout : HalError

-- `register_type`, as far as the kernel writes it.
pub data GeneralRegister : Type 0 where
  instruction_pointer stack_pointer thread_local_base : GeneralRegister

abbrev pub Registers : Type 0
Registers = ℕ → ℕ → ℕ

pub record Hal : Type 0 where
  -- The constants of the architecture.
  pub hardware_context_size : ℕ
  pub message_register_count : ℕ
  -- KERNEL_VIRTUAL_BASE.
  pub kernel_virtual_base : ℕ
  -- `current_local_variable`, as the number of the core.
  pub current_cpu : Result ℕ HalError
  -- From the previous process to the next.
  pub switch_context : ℕ → ℕ → Registers → Result (Unit {0}) HalError × Registers
  pub send_ipi : ℕ → Result (Unit {0}) HalError
  -- Of a process, by index.
  pub get_message_register : ℕ → ℕ → Registers → Result ℕ HalError
  pub configure_message_register : ℕ → ℕ → ℕ → Registers → Result (Unit {0}) HalError × Registers
  -- `get_general_register` of INSTRUCTION_POINTER.
  pub get_instruction_pointer : ℕ → Registers → Result ℕ HalError
  pub core_count : ℕ
  pub is_valid_user_address : ℕ → Bool
  pub configure_general_register :
      ℕ → GeneralRegister → ℕ → Registers → Result (Unit {0}) HalError × Registers
  -- In the mode USER.
  pub init_hardware_context : ℕ → Registers → Registers
  -- The process calls the kernel again where it goes on.
  pub restart_syscall : ℕ → Registers → Registers
