-- ===== src/IpcPort/Faults.antt =====
-- kernel/capability/ipc_port.cpp: the messages of faults leave the wait queues and the reply relation
-- alone.
use a9n.Base.{
  ℕ, zero, suc, ◌+◌, refl, Bool, true, false, List, [], ◌∷◌, is_some, if◌then◌else◌, ◌≡◌, ◌&&◌, ◌∙◌,
}
use a9n.Hal.{Hal}
use a9n.IpcPort.{
  is_synchronized, write_message_registers, write_context, fault_message, synchronized_fault,
  transfer_fault_message, fault_words, program_counter,
}
use a9n.IpcPort.Quiet.{
  relation, Quiet, change-Quiet, return-Quiet, reading-Quiet, >>-Quiet, converted-Quiet,
}
use a9n.IpcQueue.{set_state}
use a9n.Kernel.{Kernel, IpcPortState, ◌>>◌, convert_hal_to_capability, configure_message_register}
use a9n.Process.{FaultType}

abbrev if_synchronized : ℕ → Kernel → Bool → Bool × Kernel
if_synchronized this k b = if b then (true, k) else (false, set_state this IpcPortState.wait k)

one_or_other :
    (this : ℕ) (k : Kernel) (b : Bool) → relation (if_synchronized this k b).1 ≡ relation k
one_or_other this k true = refl
one_or_other this k false = refl

synchronized-relation :
    (this : ℕ) (k : Kernel) (s : IpcPortState)
    → k.ipc_ports.state this ≡ s
    → relation (is_synchronized this k).1 ≡ relation k
unfolding is_synchronized
synchronized-relation this k IpcPortState.wait e = rw (e, is_synchronized) refl
synchronized-relation this k IpcPortState.ready_to_send e =
    rw (e, is_synchronized)
      (one_or_other this k
        (is_some (k.ipc_ports.queue this).head && is_some (k.ipc_ports.queue this).tail))
synchronized-relation this k IpcPortState.ready_to_receive e =
    rw (e, is_synchronized)
      (one_or_other this k
        (is_some (k.ipc_ports.queue this).head && is_some (k.ipc_ports.queue this).tail))

module _ (hal : Hal) where
  write_message_registers-Quiet :
      (p : ℕ) (words : List (ℕ × ℕ)) → Quiet (write_message_registers hal p words)
  unfolding write_message_registers
  write_message_registers-Quiet p [] = return-Quiet tt
  write_message_registers-Quiet p ((i, v) ∷ rest) =
      >>-Quiet (converted-Quiet hal p i v) (write_message_registers-Quiet p rest)

  write_context-Quiet : (n i receiver sender : ℕ) → Quiet (write_context hal n i receiver sender)
  unfolding write_context
  write_context-Quiet zero i receiver sender = change-Quiet _ (λ k. refl)
  write_context-Quiet (suc n) i receiver sender =
      let rest = write_context-Quiet n (suc i) receiver sender in
      reading-Quiet
        (λ k.
          convert_hal_to_capability
            (configure_message_register hal receiver (7 + i) (k.procs.registers sender i))
          >> write_context hal n (suc i) receiver sender)
        (λ k. >>-Quiet (converted-Quiet hal receiver (7 + i) (k.procs.registers sender i)) rest)

  -- The state comes behind the words, which are read from it.
  written-relation :
      (p : ℕ) (words : List (ℕ × ℕ)) (k : Kernel)
      → relation (write_message_registers hal p words k).1 ≡ relation k
  written-relation p words k =
      ((write_message_registers-Quiet p words).keep (relation k)).hold k refl

  abbrev name : Kernel → ℕ → ℕ
  name k s = k.procs.identifier_when_blocked s

  abbrev memory_words : Kernel → ℕ → ℕ → List (ℕ × ℕ)
  memory_words k s pc = (5, pc) ∷ (6, k.procs.fault_address s) ∷ (7, k.procs.arch_fault_code s) ∷ []

  abbrev plain_words : Kernel → ℕ → ℕ → List (ℕ × ℕ)
  plain_words k s pc = (5, pc) ∷ (6, k.procs.arch_fault_code s) ∷ []

  fault_message-relation :
      (receiver sender pc : ℕ) (f : FaultType) (k : Kernel)
      → relation (fault_message hal receiver sender pc f k).1 ≡ relation k
  unfolding fault_message
  fault_message-relation r s pc FaultType.none k = refl
  fault_message-relation r s pc FaultType.memory k =
      written-relation r (fault_words hal 8 (name k s) 1 (memory_words k s pc)) k
  fault_message-relation r s pc FaultType.memory_instruction_fetch k =
      written-relation r (fault_words hal 8 (name k s) 2 (memory_words k s pc)) k
  fault_message-relation r s pc FaultType.invalid_instruction k =
      written-relation r (fault_words hal 7 (name k s) 3 (plain_words k s pc)) k
  fault_message-relation r s pc FaultType.invalid_arithmetic k =
      written-relation r (fault_words hal 7 (name k s) 4 (plain_words k s pc)) k
  fault_message-relation r s pc FaultType.invalid_kernel_call k =
      let payload = (5, pc) ∷ (6, k.procs.fault_code s) ∷ [] in
      ((>>-Quiet
            (write_message_registers-Quiet r
              (fault_words hal (7 + hal.hardware_context_size) (name k s) 5 payload))
            (write_context-Quiet (hal.hardware_context_size) 0 r s)).keep
          (relation k)).hold
        k refl
  fault_message-relation r s pc FaultType.fatal k = refl
  fault_message-relation r s pc FaultType.architecture k =
      written-relation r (fault_words hal 7 (name k s) 7 (plain_words k s pc)) k

  settled-relation :
      (this : ℕ) (b : Bool) (k : Kernel)
      → relation (if b then k else set_state this IpcPortState.wait k) ≡ relation k
  settled-relation this true k = refl
  settled-relation this false k = refl

  synchronized_fault-relation :
      (this receiver sender : ℕ) (out : Bool × Kernel)
      → relation (synchronized_fault hal this receiver sender out).1 ≡ relation out.1
  unfolding synchronized_fault
  synchronized_fault-relation this r s (false, k) = refl
  synchronized_fault-relation this r s (true, k) =
      let at_end = is_some (k.ipc_ports.queue this).head in
      let k1 = if at_end then k else set_state this IpcPortState.wait k in
      fault_message-relation r s
        (program_counter hal (hal.get_instruction_pointer s (k1.procs.registers)))
        (k1.procs.fault_reason s) k1
      ∙ settled-relation this at_end k

  pub transfer_fault_message-Quiet :
      (this receiver sender : ℕ) → Quiet (transfer_fault_message hal this receiver sender)
  unfolding transfer_fault_message
  transfer_fault_message-Quiet this r s = change-Quiet _ (λ k.
      synchronized_fault-relation this r s (is_synchronized this k)
      ∙ synchronized-relation this k (k.ipc_ports.state this) refl)
