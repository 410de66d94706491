-- ===== src/IpcPort/Reply.antt =====
-- kernel/capability/ipc_port.cpp: the reply relation between a caller and its server.
pub mod Keep
use a9n.Base.{
  ℕ, zero, suc, ◌+◌, Bool, true, false, not, Option, none, some, ltb, ◌==◌, if◌then◌else◌,
  points_to, write,
}
use a9n.Base.Result.{ok, err}
use a9n.CapabilityTypes.{CapabilityError, type_code, fatal, invalid_argument}
use a9n.Hal.{Hal}
use a9n.IpcPort.{
  is_faulted, fault_code_of, set_source_reply, set_destination_reply, set_fault, get_message_info,
  transfer_message, transfer_direct_message, transfer_fault_message,
}
use a9n.IpcQueue.{pop_ipc_queue}
use a9n.Kernel.{
  Kernel, IpcPortState, M, ◌>>=◌, ◌>>◌, return, modify, convert_kernel, convert_hal_to_capability,
  set_status, get_message_register, configure_message_register,
}
use a9n.Manager.Route.{route_mark_scheduled}
use a9n.MessageInfo.{message_length, message_info}
use a9n.Notification.{has_notification, consumed, set_ports}
use a9n.Process.{ProcessStatus, FaultType, SourceReplyState, DestinationReplyState}
use a9n.RevokedWait.{complete_revoked_wait}

-- The server forgets `client`, where it still has it.
abbrev pub detach_server : ℕ → Option ℕ → Kernel → Kernel
detach_server client none k = k
detach_server client (some server) k =
    if points_to (k.procs.destination_reply_target server) client
    then set_destination_reply server DestinationReplyState.none none k
    else k

abbrev pub detached : ℕ → Kernel → Kernel
detached client k =
    set_source_reply client SourceReplyState.none none
      (detach_server client (k.procs.source_reply_target client) k)

-- The accepted call of `sender` waits for the reply of `receiver`.
abbrev pub accept_call : ℕ → ℕ → Kernel → Kernel
accept_call receiver sender k =
    let k1 = set_destination_reply receiver DestinationReplyState.ready_to_reply (some sender) k in
    let k2 = set_status sender ProcessStatus.blocked_reply k1 in
    record k2 {
      procs = record (k2.procs) {
        source_reply_target = write (k2.procs.source_reply_target) sender (some receiver);
      };
    }

-- The caller goes on, and the server has nobody to reply to.
abbrev pub replied : ℕ → ℕ → Kernel → Kernel
replied owner client k = set_destination_reply owner DestinationReplyState.none none (
    set_fault client FaultType.none (
      set_source_reply client SourceReplyState.none none (set_status client ProcessStatus.ready k)))

abbrev pub is_call : SourceReplyState → Bool
is_call SourceReplyState.none = false
is_call SourceReplyState.wait = true

abbrev pub has_reply : DestinationReplyState → Bool
has_reply DestinationReplyState.none = false
has_reply DestinationReplyState.ready_to_reply = true

-- `registers[i] = value`.
abbrev pub set_register : ℕ → ℕ → ℕ → Kernel → Kernel
set_register p i v k = record k {
  procs = record (k.procs) {
    registers = write (k.procs.registers) p (write (k.procs.registers p) i v);
  };
}

module _ (smp : Bool) (hal : Hal) where
  -- `cancel_reply`; `resume` is RESUME_WITH_ERROR.
  pub cancel_reply : ℕ → Bool → M CapabilityError (Unit {0})
  cancel_reply client resume =
      modify (detached client)
      >> (if resume then complete_revoked_wait smp hal client else return tt)

  pub complete_fault_reply_without_message_transfer : ℕ → ℕ → M CapabilityError (Unit {0})
  complete_fault_reply_without_message_transfer owner client =
      modify (replied owner client)
      >> convert_kernel (route_mark_scheduled smp hal false owner client)

  -- The registers that the resolver gives, from `i` on.
  apply_registers : ℕ → ℕ → ℕ → ℕ → M CapabilityError (Unit {0})
  apply_registers zero i owner client = return tt
  apply_registers (suc n) i owner client =
      (do
        v ← convert_hal_to_capability (get_message_register hal owner (4 + i))
        modify (set_register client i v))
      >> apply_registers n (suc i) owner client

  pub apply_invalid_kernel_call_reply_context : ℕ → ℕ → ℕ → M CapabilityError (Unit {0})
  unfolding apply_registers
  apply_invalid_kernel_call_reply_context owner client info k =
      if not (fault_code_of (k.procs.fault_reason client) == 5)
      then (ok tt, k)
      else if ltb (hal.hardware_context_size) (message_length info)
      then (err invalid_argument, k)
      else apply_registers (message_length info) 0 owner client k

  pub reply_fault : ℕ → ℕ → ℕ → M CapabilityError (Unit {0})
  reply_fault owner client info =
      apply_invalid_kernel_call_reply_context owner client info
      >> complete_fault_reply_without_message_transfer owner client

  module _ (move_capabilities : ℕ → ℕ → ℕ → M CapabilityError (Unit {0})) where
    abbrev pub enqueue_caller : Bool → ℕ → ℕ → M CapabilityError (Unit {0})
    enqueue_caller true owner client =
        convert_kernel (route_mark_scheduled smp hal false owner client)
    enqueue_caller false owner client = return tt

    reply_to : Bool → ℕ → ℕ → Option ℕ → M CapabilityError (Unit {0})
    reply_to enqueue owner info none k = (err fatal, k)
    reply_to enqueue owner info (some client) k =
        if is_faulted (k.procs.fault_reason client)
        then reply_fault owner client info k
        else (transfer_direct_message hal move_capabilities client owner info
              >> modify (replied owner client)
              >> enqueue_caller enqueue owner client)
            k

    -- `complete_reply<enqueue>`.
    pub complete_reply : Bool → ℕ → ℕ → M CapabilityError (Unit {0})
    unfolding reply_to
    complete_reply enqueue owner info k =
        if has_reply (k.procs.destination_reply_state owner)
        then reply_to enqueue owner info (k.procs.destination_reply_target owner) k
        else (ok tt, k)

    -- The message of the sender `sender` that has left the queue.
    accept_faulted : ℕ → ℕ → ℕ → M CapabilityError (Unit {0})
    accept_faulted this receiver sender =
        transfer_fault_message hal this receiver sender >> modify (accept_call receiver sender)

    finish_send : ℕ → ℕ → M CapabilityError (Unit {0})
    finish_send receiver sender =
        modify (λ k.
          set_status sender ProcessStatus.ready
            (set_destination_reply receiver DestinationReplyState.none none k))
        >> convert_kernel (route_mark_scheduled smp hal false receiver sender)

    accept_message : ℕ → ℕ → ℕ → ℕ → M CapabilityError (Unit {0})
    unfolding finish_send
    accept_message this receiver sender info k =
        let call = is_call (k.procs.source_reply_state sender) in
        (transfer_message hal move_capabilities this receiver sender info
            >> (if call then modify (accept_call receiver sender) else finish_send receiver sender))
          k

    receive_from : ℕ → ℕ → ℕ → M CapabilityError (Unit {0})
    unfolding accept_faulted accept_message
    receive_from this receiver sender = convert_kernel (get_message_info hal sender) >>= (λ info k.
        if has_reply (k.procs.destination_reply_state receiver)
        then (err fatal, k)
        else if is_faulted (k.procs.fault_reason sender)
        then accept_faulted this receiver sender k
        else accept_message this receiver sender info k)

    abbrev pub is_sending : IpcPortState → Bool
    is_sending IpcPortState.ready_to_send = true
    is_sending _ = false

    pub try_receive_from_ready_sender : ℕ → ℕ → M CapabilityError (Unit {0})
    unfolding receive_from
    try_receive_from_ready_sender this receiver k =
        if is_sending (k.ipc_ports.state this)
        then (convert_kernel (pop_ipc_queue this) >>= receive_from this receiver) k
        else (err fatal, k)

  -- The port that `owner` is bound to, where its slot holds one. NOTIFICATION_PORT is the type 9.
  abbrev pub bound_port : Kernel → ℕ → Option ℕ
  bound_port k owner =
      let slot = k.procs.binded_notification_port owner in
      if type_code (k.slots.type slot) == 9 then k.slots.component slot else none

  abbrev pub pending_port : Kernel → Option ℕ → Option ℕ
  pending_port k none = none
  pending_port k (some port) =
      if has_notification (k.notification_ports) port then some port else none

  deliver_from : ℕ → Option ℕ → M CapabilityError Bool
  deliver_from owner none k = (ok false, k)
  deliver_from owner (some port) k =
      let identifier = k.notification_ports.flag port in
      (convert_hal_to_capability (configure_message_register hal owner 2 (message_info false 0 0 2))
          >> convert_hal_to_capability (configure_message_register hal owner 3 identifier)
          >> return true)
        (set_ports (consumed port (k.notification_ports)) k)

  -- `try_deliver_pending_binded_notification`, with whether it delivered.
  pub try_deliver_pending_binded_notification : ℕ → M CapabilityError Bool
  unfolding deliver_from
  try_deliver_pending_binded_notification owner k =
      deliver_from owner (pending_port k (bound_port k owner)) k
