-- ===== src/IpcPort/Operations.antt =====
-- kernel/capability/ipc_port.cpp: the operations of a port.
pub mod Emptied
pub mod Keep
pub mod Order
use a9n.Base.{
  ℕ, zero, suc, Bool, true, false, not, ◌&&◌, ◌||◌, Option, none, some, ◌==◌, if◌then◌else◌,
  is_some,
}
use a9n.Base.Result.{Result, ok, err, KernelError}
use a9n.CapabilityTypes.{
  CapabilityError, SlotData, illegal_operation, permission_denied, invalid_argument, fatal,
}
use a9n.Hal.{Hal}
use a9n.IpcPort.{
  is_faulted, set_source_reply, set_destination_reply, set_identifier, get_message_info,
  transfer_message, transfer_direct_message, transfer_fault_message,
}
use a9n.IpcPort.Reply.{
  cancel_reply, reply_fault, complete_reply, try_receive_from_ready_sender, has_reply, replied,
  try_deliver_pending_binded_notification, pending_port, bound_port,
}
use a9n.IpcQueue.{set_state, push_ipc_queue, pop_ipc_queue}
use a9n.Kernel.{
  Kernel, IpcPortState, M, ◌>>=◌, ◌>>◌, return, fail, modify, or_else, convert_kernel,
  convert_hal_to_capability, set_status, get_message_register,
}
use a9n.Manager.{direct_and_switch}
use a9n.Manager.Route.{
  route_mark_scheduled, try_schedule_and_switch, try_direct_schedule_and_switch,
}
use a9n.MessageInfo.{is_block, is_normal}
use a9n.Notification.{has_right, read_right, write_right, modify_right}
use a9n.Notification.Operations.{identify_with, or_zero}
use a9n.Process.{ProcessStatus, SourceReplyState, DestinationReplyState}
use a9n.RevokedWait.{complete_revoked_wait}

module _ (smp : Bool) (hal : Hal)
    (move_capabilities : ℕ → ℕ → ℕ → M CapabilityError (Unit {0})) where
  -- `convert_slot_data_to_identifier(self.data)`, kept in the caller.
  abbrev pub remember : ℕ → ℕ → Kernel → Kernel
  remember owner self k = set_identifier owner (k.slots.local self).word_0 k

  -- The caller at the end of the queue, and another process on its core.
  abbrev pub enter_queue : ℕ → ℕ → M CapabilityError (Unit {0})
  enter_queue this owner =
      convert_kernel (push_ipc_queue this owner >> try_schedule_and_switch smp hal owner)

  send_blocked : ℕ → ℕ → ℕ → M CapabilityError (Unit {0})
  send_blocked this owner self =
      modify (λ k.
        remember owner self (
          set_status owner ProcessStatus.blocked_send
            (set_state this IpcPortState.ready_to_send k)))
      >> enter_queue this owner

  send_to : ℕ → ℕ → ℕ → ℕ → ℕ → M CapabilityError (Unit {0})
  send_to this owner self info target =
      modify (λ k. remember owner self (set_status target ProcessStatus.ready k))
      >> transfer_message hal move_capabilities this target owner info
      >> convert_kernel (route_mark_scheduled smp hal false owner target)

  pub send_state : ℕ → ℕ → ℕ → ℕ → IpcPortState → M CapabilityError (Unit {0})
  unfolding send_blocked send_to
  send_state this owner self info IpcPortState.ready_to_receive =
      convert_kernel (pop_ipc_queue this) >>= send_to this owner self info
  send_state this owner self info _ =
      if is_block info then send_blocked this owner self else return tt

  pub operation_send : ℕ → ℕ → ℕ → ℕ → M CapabilityError (Unit {0})
  unfolding send_state
  operation_send this owner self info k =
      if has_right k self write_right
      then send_state this owner self info (k.ipc_ports.state this) k
      else (err permission_denied, k)

  -- A receiver that blocks.
  receive_blocked : ℕ → ℕ → M CapabilityError (Unit {0})
  receive_blocked this owner =
      modify (λ k.
        set_status owner ProcessStatus.blocked_receive
          (set_state this IpcPortState.ready_to_receive k))
      >> enter_queue this owner

  abbrev pub unless_delivered : M CapabilityError (Unit {0}) → Bool → M CapabilityError (Unit {0})
  unless_delivered m true = return tt
  unless_delivered m false = m

  -- Where no sender is ready.
  receive_waiting : ℕ → ℕ → ℕ → M CapabilityError (Unit {0})
  unfolding receive_blocked
  receive_waiting this owner info =
      try_deliver_pending_binded_notification smp hal owner
      >>= unless_delivered (if is_block info then receive_blocked this owner else return tt)

  pub receive_state : ℕ → ℕ → ℕ → IpcPortState → M CapabilityError (Unit {0})
  unfolding receive_waiting
  receive_state this owner info IpcPortState.ready_to_send =
      try_receive_from_ready_sender smp hal move_capabilities this owner
  receive_state this owner info _ = receive_waiting this owner info

  abbrev pub cancel_client : Option ℕ → M CapabilityError (Unit {0})
  cancel_client none = return tt
  cancel_client (some client) = cancel_reply smp hal client true

  -- The old caller is dropped.
  pub discard_reply : ℕ → M CapabilityError (Unit {0})
  discard_reply owner k =
      if has_reply (k.procs.destination_reply_state owner)
      then (cancel_client (k.procs.destination_reply_target owner)
            >> modify (set_destination_reply owner DestinationReplyState.none none))
          k
      else (ok tt, k)

  pub operation_receive : ℕ → ℕ → ℕ → ℕ → M CapabilityError (Unit {0})
  unfolding discard_reply receive_state
  operation_receive this owner self info k =
      if has_right k self read_right
      then (discard_reply owner
            >> (λ k'. receive_state this owner info (k'.ipc_ports.state this) k'))
          k
      else (err permission_denied, k)

  call_blocked : ℕ → ℕ → ℕ → M CapabilityError (Unit {0})
  call_blocked this owner self =
      modify (λ k.
        let k1 =
          set_status owner ProcessStatus.blocked_send
            (set_state this IpcPortState.ready_to_send k) in
        remember owner self
          (set_source_reply owner SourceReplyState.wait (k1.procs.source_reply_target owner) k1))
      >> enter_queue this owner

  -- The accepted call of `owner` to `target`.
  abbrev pub call_accepted : ProcessStatus → ℕ → ℕ → Kernel → Kernel
  call_accepted status owner target k = set_source_reply owner SourceReplyState.wait (some target) (
      set_status owner status
        (set_destination_reply target DestinationReplyState.ready_to_reply (some owner) k))

  abbrev pub switch_to_server : ℕ → ℕ → M CapabilityError (Unit {0})
  switch_to_server owner target =
      modify (set_status target ProcessStatus.ready)
      >> convert_kernel (try_direct_schedule_and_switch smp hal owner target)

  call_to : ℕ → ℕ → ℕ → ℕ → ℕ → M CapabilityError (Unit {0})
  call_to this owner self info target k =
      let k1 = remember owner self k in
      if has_reply (k1.procs.destination_reply_state target)
      then (err fatal, k1)
      else (transfer_message hal move_capabilities this target owner info
            >> switch_to_server owner target)
          (call_accepted ProcessStatus.blocked_reply owner target k1)

  pub call_state : ℕ → ℕ → ℕ → ℕ → IpcPortState → M CapabilityError (Unit {0})
  unfolding call_blocked call_to
  call_state this owner self info IpcPortState.ready_to_receive =
      convert_kernel (pop_ipc_queue this) >>= call_to this owner self info
  call_state this owner self info _ =
      if is_block info
      then try_deliver_pending_binded_notification smp hal owner
        >>= unless_delivered (call_blocked this owner self)
      else return tt

  pub operation_call : ℕ → ℕ → ℕ → ℕ → M CapabilityError (Unit {0})
  unfolding call_state
  operation_call this owner self info k =
      if has_right k self write_right
      then call_state this owner self info (k.ipc_ports.state this) k
      else (err permission_denied, k)

  -- The server stays on its core.
  abbrev pub continue_server : ℕ → M CapabilityError (Unit {0})
  continue_server owner =
      modify (set_status owner ProcessStatus.ready)
      >> convert_kernel (try_direct_schedule_and_switch smp hal owner owner)

  pub reply_client : ℕ → ℕ → Option ℕ → M CapabilityError (Unit {0})
  reply_client owner info none k = (err fatal, k)
  reply_client owner info (some client) k =
      if is_faulted (k.procs.fault_reason client)
      then (reply_fault smp hal owner client info >> continue_server owner) k
      else (transfer_direct_message hal move_capabilities client owner info
            >> modify (replied owner client)
            >> convert_kernel (route_mark_scheduled smp hal false owner client)
            >> continue_server owner)
          k

  -- `reply does not require any rights`.
  pub operation_reply : ℕ → ℕ → M CapabilityError (Unit {0})
  unfolding reply_client
  operation_reply owner info k =
      if has_reply (k.procs.destination_reply_state owner)
      then reply_client owner info (k.procs.destination_reply_target owner) k
      else (ok tt, k)

  -- `client && client->fault_reason == NONE && …core_affinity == …`.
  abbrev pub is_local_caller : Kernel → ℕ → Option ℕ → Bool
  is_local_caller k owner none = false
  is_local_caller k owner (some client) =
      not (is_faulted (k.procs.fault_reason client))
      && (not smp || (k.procs.core_affinity client == k.procs.core_affinity owner))

  abbrev pub is_receivable : IpcPortState → Bool
  is_receivable IpcPortState.ready_to_send = false
  is_receivable _ = true

  -- The direct reply, where the following receive blocks on this core.
  abbrev pub may_reply_directly : ℕ → ℕ → ℕ → Kernel → Bool
  may_reply_directly this owner info k =
      has_reply (k.procs.destination_reply_state owner)
      && is_local_caller k owner (k.procs.destination_reply_target owner)
      && is_block info
      && is_receivable (k.ipc_ports.state this)
      && not (is_some (pending_port smp hal k (bound_port smp hal k owner)))

  return_to : ℕ → Option ℕ → M KernelError (Unit {0})
  return_to owner none k = (ok tt, k)
  return_to owner (some client) k =
      let c = if smp then k.procs.core_affinity owner else 0 in direct_and_switch hal c client c k

  reply_directly : ℕ → ℕ → ℕ → Option ℕ → M CapabilityError (Unit {0})
  unfolding return_to
  reply_directly this owner info client =
      complete_reply smp hal move_capabilities false owner info
      >> modify (λ k.
        set_status owner ProcessStatus.blocked_receive
          (set_state this IpcPortState.ready_to_receive k))
      >> convert_kernel (push_ipc_queue this owner >> return_to owner client)

  pub operation_reply_receive : ℕ → ℕ → ℕ → ℕ → M CapabilityError (Unit {0})
  unfolding reply_directly receive_state
  operation_reply_receive this owner self info k =
      if not (has_right k self read_right)
      then (err permission_denied, k)
      else if may_reply_directly this owner info k
      then reply_directly this owner info (k.procs.destination_reply_target owner) k
      else (complete_reply smp hal move_capabilities true owner info
            >> (λ k'. receive_state this owner info (k'.ipc_ports.state this) k'))
          k

  pub operation_identify : SlotData → ℕ → ℕ → M CapabilityError (Unit {0})
  operation_identify unset owner self k =
      if has_right k self modify_right
      then (do
        v ← convert_hal_to_capability (get_message_register hal owner 2)
        modify (identify_with smp hal unset self v))
          k
      else (err permission_denied, k)

  -- The numbers of `operation_type`.
  perform : SlotData → ℕ → ℕ → ℕ → ℕ → ℕ → M CapabilityError (Unit {0})
  perform unset this owner self info operation =
      if operation == 1
      then operation_send this owner self info
      else if operation == 2
      then operation_receive this owner self info
      else if operation == 3
      then operation_call this owner self info
      else if operation == 4
      then operation_reply owner info
      else if operation == 5
      then operation_reply_receive this owner self info
      else if operation == 6
      then operation_identify unset owner self
      else fail illegal_operation

  pub execute : SlotData → ℕ → ℕ → ℕ → M CapabilityError (Unit {0})
  unfolding perform
  execute unset this owner self = convert_kernel (get_message_info hal owner) >>= (λ info k.
      if is_normal info
      then perform unset this owner self info
          (or_zero smp hal (hal.get_message_register owner 1 (k.procs.registers))) k
      else (err invalid_argument, k))

  -- A fault of `owner`, called from the fault dispatcher of the hardware layer.
  fault_blocked : ℕ → ℕ → M CapabilityError (Unit {0})
  fault_blocked this owner =
      modify (λ k.
        let k1 = set_status owner ProcessStatus.blocked_fault k in
        set_source_reply owner SourceReplyState.wait (k1.procs.source_reply_target owner) k1)
      >> enter_queue this owner

  fault_to : ℕ → ℕ → ℕ → M CapabilityError (Unit {0})
  unfolding fault_blocked
  fault_to this owner target k =
      if has_reply (k.procs.destination_reply_state target)
      then fault_blocked this owner k
      else (transfer_fault_message hal this target owner >> switch_to_server owner target)
          (call_accepted ProcessStatus.blocked_fault owner target k)

  pub fault_state : ℕ → ℕ → IpcPortState → M CapabilityError (Unit {0})
  unfolding fault_to
  fault_state this owner IpcPortState.ready_to_receive =
      convert_kernel (pop_ipc_queue this) >>= fault_to this owner
  fault_state this owner _ =
      modify (set_state this IpcPortState.ready_to_send) >> fault_blocked this owner

  pub operation_fault_call : ℕ → ℕ → ℕ → M CapabilityError (Unit {0})
  unfolding fault_state
  operation_fault_call this owner self k =
      if has_right k self write_right && has_right k self read_right
      then fault_state this owner (k.ipc_ports.state this) (remember owner self k)
      else (err permission_denied, set_status owner ProcessStatus.blocked_fault k)

  -- `revoke`, on fuel for its loop: `none` is an end of fuel.
  abbrev pub release_waiter : ℕ → M CapabilityError (Unit {0})
  release_waiter this = or_else (pop_ipc_queue this) (λ e. fail fatal) >>= (λ target.
      modify (set_source_reply target SourceReplyState.none none)
      >> complete_revoked_wait smp hal target)

  pub revoke :
      ℕ
      → ℕ
      → Result (Unit {0}) CapabilityError × Kernel
      → Option (Result (Unit {0}) CapabilityError × Kernel)
  revoke zero this out = none
  revoke (suc fuel) this (err e, k) = some (err e, k)
  revoke (suc fuel) this (ok _, k) =
      let further = revoke fuel this (release_waiter this k) in
      elim (k.ipc_ports.queue this).head [
        | none ↦ some (ok tt, set_state this IpcPortState.wait k)
        | some _ ↦ further
      ]
