-- ===== src/Notification/Operations/Order.antt =====
-- The invariant of the notification ports, through every operation.
use a9n.Base.{
  ℕ, ◌≡◌, refl, ap, ◌∙◌, Bool, true, false, Option, none, some, ◌==◌, arith, not, is_some,
  write_self, if◌then◌else◌,
}
use a9n.Base.Result.{Result, ok, err}
use a9n.CapabilityTypes.{CapabilityError, SlotData, fatal}
use a9n.Hal.{Hal}
use a9n.IpcQueue.{remove_ipc_queue}
use a9n.Kernel.{
  Kernel, NotificationPortState, NotificationState, M, bind, or_else_result, fail, modify,
  get_message_register, convert_hal_to_capability, configure_message_register,
}
use a9n.Kernel.Preserve.{
  Preserves, >>=-Preserves, >>-Preserves, return-Preserves, if_hold, modify-Preserves,
  convert_kernel-Preserves, convert_hal_to_capability-Preserves,
}
use a9n.IpcQueue.Leave.{remove_ipc_queue-without_ipc}
use a9n.Manager.Frame.{outside}
use a9n.Manager.Route.Keep.{route_mark_scheduled-Keeps, try_schedule_and_switch-Keeps}
use a9n.Notification.{
  has_right, read_right, write_right, modify_right, is_bound_elsewhere, has_notification, set_ports,
  consumed, notify, push_notification_queue,
}
use a9n.Notification.Operations.{
  consume_to, wake, deliver, wake_waiter, inform_binded, wake_from, wake_binded, resumed,
  try_wake_binded_process, notify_state, notified, operation_notify, block, wait_state,
  operation_wait, operation_poll, operation_identify, execute, is_receiving, is_bound_receiving,
  identify_with, or_zero, identifier, notification_info,
}
use a9n.Notification.Waiting.{
  IsOrdered, IsRunning, outside-IsOrdered, Keeps-IsOrdered, pop-IsOrdered, pushed-IsOrdered,
  stored-outside, remove_ipc-IsOrdered, resumed-IsOrdered,
}

perform_hold :
    (b : Bool) (m n : M CapabilityError (Unit {0})) (k : Kernel)
    → IsOrdered (m k).1
    → IsOrdered (n k).1
    → IsOrdered ((if b then m else n) k).1
perform_hold true m n k hm hn = hm
perform_hold false m n k hm hn = hn

module _ (smp : Bool) (hal : Hal) where
  -- What an operation needs of its port's flags is not part of the invariant.
  flags-IsOrdered :
      (k : Kernel) (f : ℕ → ℕ) (c : ℕ → NotificationState)
      → IsOrdered k
      → IsOrdered (set_ports (record (k.notification_ports) { flag = f; current_state = c }) k)
  flags-IsOrdered k f c old = record {
    waiters = old.waiters;
    waiting = record { represents = old.waiting.represents; state = old.waiting.state };
    exclusive = old.exclusive;
  }

  configure-IsOrdered :
      (p index v : ℕ) → Preserves IsOrdered (configure_message_register hal p index v)
  configure-IsOrdered p index v = record {
    hold = λ k old.
        outside-IsOrdered
          (stored-outside (hal.configure_message_register p index v (k.procs.registers)) k) old;
  }

  consume_to-IsOrdered : (this p index : ℕ) → Preserves IsOrdered (consume_to smp hal this p index)
  unfolding consumed
  consume_to-IsOrdered this p index = record {
    hold = λ k old.
        (convert_hal_to_capability-Preserves
            (configure-IsOrdered p index (k.notification_ports.flag this))).hold
          (set_ports (consumed this (k.notification_ports)) k) (flags-IsOrdered k _ _ old);
  }

  wake-IsOrdered : (owner target : ℕ) → Preserves IsOrdered (wake smp hal owner target)
  wake-IsOrdered owner target =
      convert_kernel-Preserves
        (Keeps-IsOrdered (route_mark_scheduled-Keeps smp hal true owner target))

  wake_waiter-IsOrdered : (this owner : ℕ) → Preserves IsOrdered (wake_waiter smp hal this owner)
  unfolding wake_waiter deliver
  wake_waiter-IsOrdered this owner = record {
    hold = λ k old.
        if_hold IsOrdered (is_some (k.notification_ports.queue this).head) _ _
          ((>>=-Preserves (convert_kernel-Preserves (pop-IsOrdered this)) (λ target.
              >>-Preserves (consume_to-IsOrdered this target 2) (wake-IsOrdered owner target))).hold
            k old)
          old;
  }

  block_hold :
      (this owner : ℕ) (k : Kernel)
      → IsOrdered k
      → IsRunning k owner
      → IsOrdered (block smp hal this owner k).1
  unfolding block push_notification_queue
  block_hold this owner k old free =
      (convert_kernel-Preserves
          (Keeps-IsOrdered (try_schedule_and_switch-Keeps smp hal owner))).hold
        _ (pushed-IsOrdered k this owner old free)

  -- The bound process wakes from its wait at an IPC port, where it is in no other queue.
  abbrev Woken : ℕ → Kernel → Type 0
  Woken target k = IsOrdered k × (k.procs.current_notification_port target ≡ none)

  outside-Woken :
      (target : ℕ) {k k' : Kernel} → outside k' ≡ outside k → Woken target k → Woken target k'
  outside-Woken target {k} {k'} e old = (
    outside-IsOrdered e old.0,
    ap (λ (a : Kernel). a.procs.current_notification_port target) e ∙ old.1,
  )

  configure-Woken :
      (target p index v : ℕ)
      → Preserves
          (Woken target)
          (convert_hal_to_capability (configure_message_register hal p index v))
  configure-Woken target p index v = convert_hal_to_capability-Preserves (record {
    hold = λ k old.
        outside-Woken target
          (stored-outside (hal.configure_message_register p index v (k.procs.registers)) k) old;
  })

  resumed-Woken :
      (target : ℕ) → Preserves (Woken target) {E = CapabilityError} (modify (resumed target))
  resumed-Woken target = modify-Preserves (resumed target) (λ k old. (
    resumed-IsOrdered target k old.0 old.1,
    write_self (k.procs.current_notification_port) target none,
  ))

  inform_binded_hold :
      (this current target : ℕ) (k : Kernel)
      → Woken target k
      → IsOrdered (inform_binded smp hal this current target k).1
  unfolding inform_binded consumed
  inform_binded_hold this current target k old =
      ((>>-Preserves
          (>>-Preserves
            (>>-Preserves (configure-Woken target target 2 notification_info)
              (configure-Woken target target 3 (k.notification_ports.flag this)))
            (resumed-Woken target))
          (convert_kernel-Preserves (record {
            hold = λ k' old'.
                outside-Woken target
                  (((route_mark_scheduled-Keeps smp hal true current target).keep k').same) old';
          }))).hold
        _ (flags-IsOrdered k _ _ old.0, old.1)).0

  removed-Woken :
      (port target : ℕ) (k : Kernel)
      → Woken target k
      → Woken target (remove_ipc_queue port target k).1
  removed-Woken port target k old = (
    (remove_ipc-IsOrdered port target).hold k old.0,
    ap (λ (a : Kernel). a.procs.current_notification_port target)
          (remove_ipc_queue-without_ipc port target k)
        ∙ old.1,
  )

  pub bind_after :
      {E F A B : Type 0} (P Q : Kernel → Type 0) (out : Result A E × Kernel) (g : E → F)
      (f : A → M F B)
      → P out.1
      → ((k : Kernel) → P k → Q k)
      → ((a : A) (k : Kernel) → P k → Q (f a k).1)
      → Q (bind (or_else_result out (λ e. fail (g e))) f).1
  bind_after P Q (ok a, k) g f h weaker step = step a k h
  bind_after P Q (err e, k) g f h weaker step = weaker k h

  wake_from_hold :
      (this current target : ℕ) (k : Kernel) (o : Option ℕ)
      → IsOrdered k
      → k.procs.current_ipc_port target ≡ o
      → IsOrdered (wake_from smp hal this current target o k).1
  unfolding wake_from
  wake_from_hold this current target k none old e = old
  wake_from_hold this current target k (some port) old e =
      let clear = old.exclusive target (λ h. absurd (ground (arith, h, e))) in
      bind_after (Woken target) IsOrdered (remove_ipc_queue port target k) (λ e'. fatal) _
        (removed-Woken port target k (old, clear)) (λ k' h. h.0)
        (λ _ k' h. inform_binded_hold this current target k' h)

  wake_binded_hold :
      (this current : ℕ) (k : Kernel) (o : Option ℕ)
      → IsOrdered k
      → IsOrdered (wake_binded smp hal this current o k).1
  unfolding wake_binded
  wake_binded_hold this current k none old = old
  wake_binded_hold this current k (some target) old =
      if_hold IsOrdered (is_receiving (k.procs.status target)) _ _
        (wake_from_hold this current target k (k.procs.current_ipc_port target) old refl) old

  pub try_wake-IsOrdered :
      (this current : ℕ) → Preserves IsOrdered (try_wake_binded_process smp hal this current)
  unfolding try_wake_binded_process
  try_wake-IsOrdered this current = record {
    hold = λ k old. wake_binded_hold this current k (k.notification_ports.binded_process this) old;
  }

  notify_state-IsOrdered :
      (this owner : ℕ) (s : NotificationPortState)
      → Preserves IsOrdered (notify_state smp hal this owner s)
  unfolding notify_state
  notify_state-IsOrdered this owner NotificationPortState.wait = return-Preserves tt
  notify_state-IsOrdered this owner NotificationPortState.ready_to_wake =
      wake_waiter-IsOrdered this owner

  pub operation_notify-IsOrdered :
      (this owner self : ℕ) → Preserves IsOrdered (operation_notify smp hal this owner self)
  unfolding operation_notify notified notify
  operation_notify-IsOrdered this owner self = record {
    hold = λ k old.
        let k1 = set_ports (notify this (identifier smp hal k self) (k.notification_ports)) k in
        let old1 =
          flags-IsOrdered k (k1.notification_ports.flag) (k1.notification_ports.current_state)
            old in
        if_hold IsOrdered (has_right k self write_right) _ _
          (if_hold IsOrdered
            (is_bound_receiving smp hal k1 (k1.notification_ports.binded_process this)) _ _
            ((try_wake-IsOrdered this owner).hold k1 old1)
            ((notify_state-IsOrdered this owner (k1.notification_ports.state this)).hold k1 old1))
          old;
  }

  module _ (this owner self : ℕ) where
    wait_state_hold :
        (k : Kernel) (s : NotificationPortState)
        → IsOrdered k
        → IsRunning k owner
        → IsOrdered (wait_state smp hal this owner s k).1
    unfolding wait_state
    wait_state_hold k NotificationPortState.wait old free =
        if_hold IsOrdered (has_notification (k.notification_ports) this) _ _
          ((consume_to-IsOrdered this owner 2).hold k old) (block_hold this owner k old free)
    wait_state_hold k NotificationPortState.ready_to_wake old free =
        block_hold this owner k old free

    operation_wait_hold :
        (k : Kernel)
        → IsOrdered k
        → IsRunning k owner
        → IsOrdered (operation_wait smp hal this owner self k).1
    unfolding operation_wait
    operation_wait_hold k old free = if_hold IsOrdered (not (has_right k self read_right)) _ _ old (
        if_hold IsOrdered (is_bound_elsewhere (k.notification_ports.binded_process this) owner) _ _
          old (wait_state_hold k (k.notification_ports.state this) old free))

    operation_poll_hold :
        (k : Kernel) → IsOrdered k → IsOrdered (operation_poll smp hal this owner self k).1
    unfolding operation_poll
    operation_poll_hold k old = if_hold IsOrdered (not (has_right k self read_right)) _ _ old (
        if_hold IsOrdered (is_bound_elsewhere (k.notification_ports.binded_process this) owner) _ _
          old
          (if_hold IsOrdered (has_notification (k.notification_ports) this) _ _
            ((consume_to-IsOrdered this owner 2).hold k old)
            ((convert_hal_to_capability-Preserves (configure-IsOrdered owner 2 0)).hold k old)))

    identified-IsOrdered :
        (unset : SlotData) (v : ℕ)
        → Preserves IsOrdered {E = CapabilityError} (modify (identify_with smp hal unset self v))
    identified-IsOrdered unset v = modify-Preserves _ (λ k old. record {
      waiters = old.waiters;
      waiting = record { represents = old.waiting.represents; state = old.waiting.state };
      exclusive = old.exclusive;
    })

    operation_identify_hold :
        (unset : SlotData) (k : Kernel)
        → IsOrdered k
        → IsOrdered (operation_identify smp hal unset owner self k).1
    unfolding operation_identify
    operation_identify_hold unset k old =
        if_hold IsOrdered (has_right k self modify_right) _ _
          ((>>=-Preserves
              (convert_hal_to_capability-Preserves {m = get_message_register hal owner 2}
                (record { hold = λ k' old'. old' }))
              (λ v. identified-IsOrdered unset v)).hold
            k old)
          old

    pub execute-IsOrdered :
        (unset : SlotData) (k : Kernel)
        → IsOrdered k
        → IsRunning k owner
        → IsOrdered (execute smp hal unset this owner self k).1
    unfolding execute
    execute-IsOrdered unset k old free =
        let operation = or_zero smp hal (hal.get_message_register owner 1 (k.procs.registers)) in
        perform_hold (operation == 1) (operation_notify smp hal this owner self) _ k
          ((operation_notify-IsOrdered this owner self).hold k old)
          (perform_hold (operation == 2) (operation_wait smp hal this owner self) _ k
            (operation_wait_hold k old free)
            (perform_hold (operation == 3) (operation_poll smp hal this owner self) _ k
              (operation_poll_hold k old)
              (perform_hold (operation == 4) (operation_identify smp hal unset owner self) _ k
                (operation_identify_hold unset k old) old)))
