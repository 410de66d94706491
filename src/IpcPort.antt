-- ===== src/IpcPort.antt =====
-- kernel/capability/ipc_port.{hpp,cpp}: message transfer between processes through IPC ports. `this` is the
-- port's address, `owner` the calling process and `self` the slot that it calls through. Registers
-- are named by number: OPERATION_TYPE is 1, MESSAGE_INFO (and IDENTIFIER_SOURCE) 2,
-- IDENTIFIER_DESTINATION 3, and PAYLOAD_START 4. `move_capabilities` is the transfer of capabilities
-- from a process to another, as an argument.
pub mod Quiet
pub mod Faults
pub mod Linked
pub mod Taken
pub mod Transfer
pub mod Reply
pub mod Operations
mod Examples
use a9n.Base.{
  ℕ, zero, suc, ◌+◌, ◌-◌, Bool, true, false, not, ◌&&◌, ◌||◌, Option, none, some, List, [], ◌∷◌,
  ◌++◌, ◌==◌, if◌then◌else◌, is_some, points_to, write,
}
use a9n.Base.Result.{Result, ok, err, KernelError}
use a9n.CapabilityTypes.{CapabilityError, fatal}
use a9n.Hal.{Hal, HalError}
use a9n.Kernel.{
  Kernel, IpcPortState, M, ◌>>=◌, ◌>>◌, return, fail, modify, or_else, or_else_result, convert_hal,
  convert_hal_to_capability, get_message_register, configure_message_register,
}
use a9n.IpcQueue.{set_state}
use a9n.MessageInfo.{message_length, transfer_count, message_info}
use a9n.Process.{Processes, FaultType, SourceReplyState, DestinationReplyState}

-- The value of the enumerator.
abbrev pub fault_code_of : FaultType → ℕ
fault_code_of FaultType.none = 0
fault_code_of FaultType.memory = 1
fault_code_of FaultType.memory_instruction_fetch = 2
fault_code_of FaultType.invalid_instruction = 3
fault_code_of FaultType.invalid_arithmetic = 4
fault_code_of FaultType.invalid_kernel_call = 5
fault_code_of FaultType.fatal = 6
fault_code_of FaultType.architecture = 7

abbrev pub is_faulted : FaultType → Bool
is_faulted f = not (fault_code_of f == 0)

-- Writes of the reply fields of a process.
abbrev pub set_source_reply : ℕ → SourceReplyState → Option ℕ → Kernel → Kernel
set_source_reply p s target k = record k {
  procs = record (k.procs) {
    source_reply_state = write (k.procs.source_reply_state) p s;
    source_reply_target = write (k.procs.source_reply_target) p target;
  };
}

abbrev pub set_destination_reply : ℕ → DestinationReplyState → Option ℕ → Kernel → Kernel
set_destination_reply p s target k = record k {
  procs = record (k.procs) {
    destination_reply_state = write (k.procs.destination_reply_state) p s;
    destination_reply_target = write (k.procs.destination_reply_target) p target;
  };
}

abbrev pub set_identifier : ℕ → ℕ → Kernel → Kernel
set_identifier p v k = record k {
  procs = record (k.procs) {
    identifier_when_blocked = write (k.procs.identifier_when_blocked) p v;
  };
}

abbrev pub set_fault : ℕ → FaultType → Kernel → Kernel
set_fault p f k = record k {
  procs = record (k.procs) { fault_reason = write (k.procs.fault_reason) p f };
}

-- A call whose result is not looked at.
abbrev pub ignore : {E F A : Type 0} → M E A → M F (Unit {0})
ignore {E} {F} {A} m = or_else (m >> return tt) (λ e. return tt)

-- `is_synchronized`.
pub is_synchronized : ℕ → Kernel → Bool × Kernel
is_synchronized this k = elim (k.ipc_ports.state this) [
  | IpcPortState.wait ↦ (true, k)
  | _ ↦
      if is_some (k.ipc_ports.queue this).head && is_some (k.ipc_ports.queue this).tail
      then (true, k)
      else (false, set_state this IpcPortState.wait k)
]

module _ (hal : Hal) where
  pub get_message_info : ℕ → M KernelError ℕ
  get_message_info owner = convert_hal (get_message_register hal owner 2)

  -- One word of the payload.
  copy_word : ℕ → ℕ → ℕ → M KernelError (Unit {0})
  copy_word destination from i = convert_hal (do
    v ← get_message_register hal from (i + 4)
    configure_message_register hal destination (i + 4) v)

  -- `for (i = …; i < message_length; i++)` behind the registers.
  copy_rest : ℕ → ℕ → ℕ → ℕ → M KernelError (Unit {0})
  unfolding copy_word
  copy_rest zero i destination from = return tt
  copy_rest (suc n) i destination from =
      copy_word destination from i >> copy_rest n (suc i) destination from

  -- The first loop, over the `rounds` registers left.
  copy_registers : ℕ → ℕ → ℕ → ℕ → ℕ → M KernelError (Unit {0})
  unfolding copy_rest
  copy_registers zero i length destination from = copy_rest (length - i) i destination from
  copy_registers (suc rounds) i length destination from =
      let further = copy_registers rounds (suc i) length destination from in
      if i == length then return tt else copy_word destination from i >> further

  pub copy_messages : ℕ → ℕ → ℕ → M KernelError (Unit {0})
  unfolding copy_registers
  copy_messages destination from length =
      copy_registers (hal.message_register_count - 4) 0 length destination from

  -- The message's information and the identifier, unchecked.
  write_header : ℕ → ℕ → ℕ → M CapabilityError (Unit {0})
  write_header receiver sender info k =
      (ignore (configure_message_register hal receiver 2 info) >> (λ k'.
          ignore
            (configure_message_register hal receiver 3 (k'.procs.identifier_when_blocked sender))
            k'))
        k

  module _ (move_capabilities : ℕ → ℕ → ℕ → M CapabilityError (Unit {0})) where
    -- A failed copy resets the port.
    reset_port : ℕ → KernelError → M CapabilityError (Unit {0})
    reset_port this e k = (err fatal, set_state this IpcPortState.wait k)

    pub transfer_message : ℕ → ℕ → ℕ → ℕ → M CapabilityError (Unit {0})
    unfolding write_header reset_port
    transfer_message this receiver sender info =
        if (message_length info == 0) && (transfer_count info == 0)
        then write_header receiver sender info
        else write_header receiver sender info
          >> or_else (copy_messages receiver sender (message_length info)) (reset_port this)
          >> move_capabilities receiver sender (transfer_count info)

    pub transfer_direct_message : ℕ → ℕ → ℕ → M CapabilityError (Unit {0})
    unfolding write_header
    transfer_direct_message receiver sender info =
        if (message_length info == 0) && (transfer_count info == 0)
        then write_header receiver sender info
        else write_header receiver sender info
          >> or_else (copy_messages receiver sender (message_length info)) (λ e. fail fatal)
          >> (if transfer_count info == 0
              then return tt
              else move_capabilities receiver sender (transfer_count info))

  -- `write_message_registers`.
  write_message_registers : ℕ → List (ℕ × ℕ) → M CapabilityError (Unit {0})
  write_message_registers p [] = return tt
  write_message_registers p ((i, v) ∷ rest) =
      convert_hal_to_capability (configure_message_register hal p i v)
      >> write_message_registers p rest

  -- IS_SUCCESS, ERROR_CODE, MESSAGE_INFO, IDENTIFIER and FAULT_REASON, then the payload of the fault.
  fault_words : ℕ → ℕ → ℕ → List (ℕ × ℕ) → List (ℕ × ℕ)
  fault_words length identifier reason payload =
      ((0, 1) ∷ (1, 0) ∷ (2, message_info false length 0 1) ∷ (3, identifier) ∷ (4, reason) ∷ [])
      ++ payload

  -- The registers of the faulting process, for an emulation of its kernel call.
  write_context : ℕ → ℕ → ℕ → ℕ → M CapabilityError (Unit {0})
  write_context zero i receiver sender k = (ok tt, k)
  write_context (suc n) i receiver sender k =
      (convert_hal_to_capability
            (configure_message_register hal receiver (7 + i) (k.procs.registers sender i))
          >> write_context n (suc i) receiver sender)
        k

  fault_message : ℕ → ℕ → ℕ → FaultType → M CapabilityError (Unit {0})
  unfolding write_message_registers fault_words write_context
  fault_message receiver sender pc f k =
      let identifier = k.procs.identifier_when_blocked sender in
      let reason = fault_code_of f in
      let arch = k.procs.arch_fault_code sender in
      let memory = (5, pc) ∷ (6, k.procs.fault_address sender) ∷ (7, arch) ∷ [] in
      let plain = (5, pc) ∷ (6, arch) ∷ [] in
      elim f [
        | FaultType.memory ↦
            write_message_registers receiver (fault_words 8 identifier reason memory) k
        | FaultType.memory_instruction_fetch ↦
            write_message_registers receiver (fault_words 8 identifier reason memory) k
        | FaultType.invalid_instruction ↦
            write_message_registers receiver (fault_words 7 identifier reason plain) k
        | FaultType.invalid_arithmetic ↦
            write_message_registers receiver (fault_words 7 identifier reason plain) k
        | FaultType.invalid_kernel_call ↦
            (write_message_registers receiver (
                  fault_words (7 + hal.hardware_context_size) identifier reason
                    ((5, pc) ∷ (6, k.procs.fault_code sender) ∷ []))
                >> write_context (hal.hardware_context_size) 0 receiver sender)
              k
        | FaultType.architecture ↦
            write_message_registers receiver (fault_words 7 identifier reason plain) k
        | _ ↦ (err fatal, k)
      ]

  abbrev program_counter : Result ℕ HalError → ℕ
  program_counter (ok v) = v
  program_counter (err e) = 0

  -- Behind `is_synchronized`.
  synchronized_fault : ℕ → ℕ → ℕ → Bool × Kernel → Result (Unit {0}) CapabilityError × Kernel
  unfolding fault_message
  synchronized_fault this receiver sender (false, k) = (err fatal, k)
  synchronized_fault this receiver sender (true, k) =
      let k1 =
        if is_some (k.ipc_ports.queue this).head then k else set_state this IpcPortState.wait k in
      fault_message receiver sender
        (program_counter (hal.get_instruction_pointer sender (k1.procs.registers)))
        (k1.procs.fault_reason sender) k1

  pub transfer_fault_message : ℕ → ℕ → ℕ → M CapabilityError (Unit {0})
  unfolding synchronized_fault
  transfer_fault_message this receiver sender k =
      synchronized_fault this receiver sender (is_synchronized this k)
