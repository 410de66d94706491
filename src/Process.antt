-- ===== src/Process.antt =====
-- kernel/process/process.hpp: the fields of the kernel's processes. A process is an address, and each
-- field is a map from addresses, so that a write of one field leaves the others as they are.
-- Capability slots that a process embeds are addresses in the slot store, and `registers` holds
-- the hardware context by index.
use a9n.Base.{ℕ, Bool, false, Option}
use a9n.Base.Int.{ℤ, pos}

abbrev pub quantum_max : ℕ
quantum_max = 10

pub data ProcessStatus : Type 0 where
  unused ready blocked_send blocked_receive blocked_reply blocked_wait : ProcessStatus
  blocked_suspend blocked_fault idle : ProcessStatus

pub data SourceReplyState : Type 0 where
  none wait : SourceReplyState

pub data DestinationReplyState : Type 0 where
  none ready_to_reply : DestinationReplyState

-- kernel/interrupt/fault.hpp.
pub data FaultType : Type 0 where
  none memory memory_instruction_fetch invalid_instruction invalid_arithmetic : FaultType
  invalid_kernel_call fatal architecture : FaultType

pub record Processes : Type 0 where
  pub registers : ℕ → ℕ → ℕ
  pub status : ℕ → ProcessStatus
  pub priority : ℕ → ℤ
  pub quantum : ℕ → ℤ
  pub core_affinity : ℕ → ℕ
  pub preview : ℕ → Option ℕ
  pub next : ℕ → Option ℕ
  pub is_in_ready_queue : ℕ → Bool
  pub fault_reason : ℕ → FaultType
  pub fault_code : ℕ → ℕ
  pub arch_fault_code : ℕ → ℕ
  pub fault_address : ℕ → ℕ
  pub root_slot : ℕ → ℕ
  pub root_address_space : ℕ → ℕ
  pub resolver_port : ℕ → ℕ
  pub buffer_frame : ℕ → ℕ
  pub binded_notification_port : ℕ → ℕ
  pub buffer : ℕ → Option ℕ
  pub next_ipc_queue : ℕ → Option ℕ
  pub preview_ipc_queue : ℕ → Option ℕ
  pub next_notification_queue : ℕ → Option ℕ
  pub preview_notification_queue : ℕ → Option ℕ
  pub current_ipc_port : ℕ → Option ℕ
  pub current_notification_port : ℕ → Option ℕ
  pub identifier_when_blocked : ℕ → ℕ
  pub source_reply_state : ℕ → SourceReplyState
  pub destination_reply_state : ℕ → DestinationReplyState
  pub source_reply_target : ℕ → Option ℕ
  pub destination_reply_target : ℕ → Option ℕ

-- The processes as constructed, over zeroed memory.
abbrev pub initial_processes : Processes
initial_processes = record {
  registers = λ _ _. 0;
  status = λ _. ProcessStatus.unused;
  priority = λ _. pos 0;
  quantum = λ _. pos 0;
  core_affinity = λ _. 0;
  preview = λ _. Option.none;
  next = λ _. Option.none;
  is_in_ready_queue = λ _. false;
  fault_reason = λ _. FaultType.none;
  fault_code = λ _. 0;
  arch_fault_code = λ _. 0;
  fault_address = λ _. 0;
  root_slot = λ _. 0;
  root_address_space = λ _. 0;
  resolver_port = λ _. 0;
  buffer_frame = λ _. 0;
  binded_notification_port = λ _. 0;
  buffer = λ _. Option.none;
  next_ipc_queue = λ _. Option.none;
  preview_ipc_queue = λ _. Option.none;
  next_notification_queue = λ _. Option.none;
  preview_notification_queue = λ _. Option.none;
  current_ipc_port = λ _. Option.none;
  current_notification_port = λ _. Option.none;
  identifier_when_blocked = λ _. 0;
  source_reply_state = λ _. SourceReplyState.none;
  destination_reply_state = λ _. DestinationReplyState.none;
  source_reply_target = λ _. Option.none;
  destination_reply_target = λ _. Option.none;
}
