-- ===== src/Notification/Operations.antt =====
-- kernel/capability/notification_port.cpp: the operations of a port. Registers are named by number:
-- OPERATION_TYPE is 1, NEW_IDENTIFIER and FLAG_WORD are 2.
pub mod Order
pub mod Ports
pub mod Gather
pub mod Deliver
use a9n.Base.{
  ℕ, Bool, true, false, not, ◌&&◌, Option, none, some, ◌==◌, if◌then◌else◌, is_some, write,
}
use a9n.Base.Result.{Result, ok, err, KernelError}
use a9n.CapabilityTypes.{CapabilityError, SlotData, illegal_operation, permission_denied, fatal}
use a9n.Hal.{Hal}
use a9n.IpcQueue.{remove_ipc_queue}
use a9n.Kernel.{
  Kernel, NotificationPortState, M, ◌>>=◌, ◌>>◌, return, fail, modify, convert_kernel,
  convert_hal_to_capability, set_status, get_message_register, configure_message_register,
}
use a9n.Manager.Route.{route_mark_scheduled, try_schedule_and_switch}
use a9n.Notification.{
  has_notification, notify, consumed, set_ports, set_state, push_notification_queue,
  pop_notification_queue, is_bound_elsewhere, has_right, read_right, write_right, modify_right,
}
use a9n.Process.{Processes, ProcessStatus}
use a9n.Slot.{set_local}

abbrev pub is_receiving : ProcessStatus → Bool
is_receiving ProcessStatus.blocked_receive = true
is_receiving _ = false

-- `set_current_ipc_port` and the like, of a woken process.
abbrev pub resumed : ℕ → Kernel → Kernel
resumed p k = record k {
  procs = record (k.procs) {
    status = write (k.procs.status) p ProcessStatus.ready;
    current_ipc_port = write (k.procs.current_ipc_port) p none;
    current_notification_port = write (k.procs.current_notification_port) p none;
  };
}

-- `message_info { false, 0, 0, NOTIFICATION }`, whose source field begins at bit 13.
abbrev pub notification_info : ℕ
notification_info = 16384

module _ (smp : Bool) (hal : Hal) where
  -- `configure_message_register(p, index, core.consume())`.
  abbrev pub consume_to : ℕ → ℕ → ℕ → M CapabilityError (Unit {0})
  consume_to this p index k =
      convert_hal_to_capability
        (configure_message_register hal p index (k.notification_ports.flag this))
        (set_ports (consumed this (k.notification_ports)) k)

  abbrev pub wake : ℕ → ℕ → M CapabilityError (Unit {0})
  wake owner target = convert_kernel (route_mark_scheduled smp hal true owner target)

  -- Of the first waiter. FLAG_WORD is 2.
  deliver : ℕ → ℕ → ℕ → M CapabilityError (Unit {0})
  deliver this owner target = consume_to this target 2 >> wake owner target

  wake_waiter : ℕ → ℕ → M CapabilityError (Unit {0})
  unfolding deliver
  wake_waiter this owner k =
      if is_some (k.notification_ports.queue this).head
      then (convert_kernel (pop_notification_queue this) >>= deliver this owner) k
      else (err fatal, k)

  -- The part of `try_wake_binded_process` behind the checks. MESSAGE_INFO is 2 and
  -- IDENTIFIER_DESTINATION 3.
  inform_binded : ℕ → ℕ → ℕ → M CapabilityError (Unit {0})
  inform_binded this current target k =
      let identifier = k.notification_ports.flag this in
      (convert_hal_to_capability (configure_message_register hal target 2 notification_info)
          >> convert_hal_to_capability (configure_message_register hal target 3 identifier)
          >> modify (resumed target)
          >> wake current target)
        (set_ports (consumed this (k.notification_ports)) k)

  wake_from : ℕ → ℕ → ℕ → Option ℕ → M CapabilityError (Unit {0})
  unfolding inform_binded
  wake_from this current target none = fail fatal
  wake_from this current target (some port) =
      convert_kernel (remove_ipc_queue port target) >> inform_binded this current target

  wake_binded : ℕ → ℕ → Option ℕ → M CapabilityError (Unit {0})
  unfolding wake_from
  wake_binded this current none k = (err fatal, k)
  wake_binded this current (some target) k =
      if is_receiving (k.procs.status target)
      then wake_from this current target (k.procs.current_ipc_port target) k
      else (err fatal, k)

  pub try_wake_binded_process : ℕ → ℕ → M CapabilityError (Unit {0})
  unfolding wake_binded
  try_wake_binded_process this current k =
      wake_binded this current (k.notification_ports.binded_process this) k

  -- `binded_process && binded_process->status == BLOCKED_RECEIVE`.
  abbrev pub is_bound_receiving : Kernel → Option ℕ → Bool
  is_bound_receiving k none = false
  is_bound_receiving k (some p) = is_receiving (k.procs.status p)

  notify_state : ℕ → ℕ → NotificationPortState → M CapabilityError (Unit {0})
  unfolding wake_waiter
  notify_state this owner NotificationPortState.wait = return tt
  notify_state this owner NotificationPortState.ready_to_wake = wake_waiter this owner

  -- Behind `core.notify(identifier)`.
  notified : ℕ → ℕ → M CapabilityError (Unit {0})
  unfolding notify_state
  notified this owner k =
      if is_bound_receiving k (k.notification_ports.binded_process this)
      then try_wake_binded_process this owner k
      else notify_state this owner (k.notification_ports.state this) k

  -- `convert_slot_data_to_identifier`.
  abbrev pub identifier : Kernel → ℕ → ℕ
  identifier k self = (k.slots.local self).word_0

  pub operation_notify : ℕ → ℕ → ℕ → M CapabilityError (Unit {0})
  unfolding notified
  operation_notify this owner self k =
      if has_right k self write_right
      then notified this owner
          (set_ports (notify this (identifier k self) (k.notification_ports)) k)
      else (err permission_denied, k)

  -- The caller at the end of the wait queue.
  block : ℕ → ℕ → M CapabilityError (Unit {0})
  block this owner =
      modify (λ k.
        set_status owner ProcessStatus.blocked_wait
          (set_state this NotificationPortState.ready_to_wake k))
      >> convert_kernel
          (push_notification_queue this owner >> try_schedule_and_switch smp hal owner)

  wait_state : ℕ → ℕ → NotificationPortState → M CapabilityError (Unit {0})
  unfolding block
  wait_state this owner NotificationPortState.ready_to_wake k = block this owner k
  wait_state this owner NotificationPortState.wait k =
      if has_notification (k.notification_ports) this
      then consume_to this owner 2 k
      else block this owner k

  pub operation_wait : ℕ → ℕ → ℕ → M CapabilityError (Unit {0})
  unfolding wait_state
  operation_wait this owner self k =
      if not (has_right k self read_right)
      then (err permission_denied, k)
      else if is_bound_elsewhere (k.notification_ports.binded_process this) owner
      then (err fatal, k)
      else wait_state this owner (k.notification_ports.state this) k

  pub operation_poll : ℕ → ℕ → ℕ → M CapabilityError (Unit {0})
  operation_poll this owner self k =
      if not (has_right k self read_right)
      then (err permission_denied, k)
      else if is_bound_elsewhere (k.notification_ports.binded_process this) owner
      then (err fatal, k)
      else if has_notification (k.notification_ports) this
      then consume_to this owner 2 k
      else convert_hal_to_capability (configure_message_register hal owner 2 0) k

  -- `unset` is what the words hold that `convert_identifier_to_slot_data` does not write.
  abbrev pub identify_with : SlotData → ℕ → ℕ → Kernel → Kernel
  identify_with unset self v k = record k {
    slots = set_local (k.slots) self (record unset { word_0 = v });
  }

  -- NEW_IDENTIFIER is 2.
  pub operation_identify : SlotData → ℕ → ℕ → M CapabilityError (Unit {0})
  operation_identify unset owner self k =
      if has_right k self modify_right
      then (do
        v ← convert_hal_to_capability (get_message_register hal owner 2)
        modify (identify_with unset self v))
          k
      else (err permission_denied, k)

  -- The numbers of `operation_type`; OPERATION_TYPE is the register 1.
  abbrev pub perform : SlotData → ℕ → ℕ → ℕ → ℕ → M CapabilityError (Unit {0})
  perform unset this owner self operation =
      if operation == 1
      then operation_notify this owner self
      else if operation == 2
      then operation_wait this owner self
      else if operation == 3
      then operation_poll this owner self
      else if operation == 4
      then operation_identify unset owner self
      else fail illegal_operation

  abbrev pub or_zero : {E : Type 0} → Result ℕ E → ℕ
  or_zero (ok v) = v
  or_zero (err e) = 0

  pub execute : SlotData → ℕ → ℕ → ℕ → M CapabilityError (Unit {0})
  execute unset this owner self k =
      perform unset this owner self (or_zero (hal.get_message_register owner 1 (k.procs.registers)))
        k
