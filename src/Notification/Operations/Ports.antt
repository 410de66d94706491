-- ===== src/Notification/Operations/Ports.antt =====
-- The operations of a notification port and the IPC ports, whose queues a notification to a bound process edits.
use a9n.Base.{
  ℕ, ◌≡◌, refl, sym, subst, Bool, true, false, Option, none, some, ◌==◌, not, is_some,
  if◌then◌else◌,
}
use a9n.Base.Result.{KernelError}
use a9n.CapabilityTypes.{CapabilityError, SlotData, fatal}
use a9n.ControlBlock.Detached.{AreOrdered, after_leave-same, removed-AreOrdered}
use a9n.Hal.{Hal}
use a9n.IpcPort.Linked.{InOrder, Linked, Leads, Quiet-Leads, >>-Leads, modify-Leads}
use a9n.IpcPort.Quiet.{
  Relation, relation, Quiet, change-Quiet, return-Quiet, fail-Quiet, Keeps-Quiet, if-Quiet,
  reading-Quiet, modify-Quiet, >>=-Quiet, >>-Quiet, or_else-Quiet, converted-Quiet, read-Quiet,
}
use a9n.IpcQueue.{remove_ipc_queue}
use a9n.IpcQueue.Leave.{remove_ipc_queue-free}
use a9n.Kernel.{Kernel, NotificationPortState, M, convert_kernel}
use a9n.Kernel.Preserve.{if_hold}
use a9n.Manager.Route.Keep.{route_mark_scheduled-Keeps, try_schedule_and_switch-Keeps}
use a9n.Notification.{
  has_right, read_right, write_right, modify_right, is_bound_elsewhere, has_notification, set_ports,
  consumed, notify, pointers, pop_notification_queue, push_notification_queue,
}
use a9n.Notification.Operations.{
  consume_to, wake, deliver, wake_waiter, inform_binded, wake_from, wake_binded, resumed,
  try_wake_binded_process, notify_state, notified, operation_notify, block, wait_state,
  operation_wait, operation_poll, operation_identify, execute, perform, is_receiving,
  is_bound_receiving, identify_with, or_zero, identifier, notification_info,
}
use a9n.Notification.Operations.Order.{bind_after, execute-IsOrdered}
use a9n.Notification.Waiting.{IsRunning, write_same}
use a9n.WaitQueue.{pop}

-- A branch on the state.
branch-Quiet :
    {E A : Type 0} (b : Kernel → Bool) {m n : M E A}
    → Quiet m
    → Quiet n
    → Quiet (λ k. if b k then m k else n k)
branch-Quiet b {m} {n} km kn = record {
  keep = λ v. record {
    hold = λ k e.
        if_hold (λ k'. relation k' ≡ v) (b k) (m k) (n k) ((km.keep v).hold k e)
          ((kn.keep v).hold k e);
  };
}

converted_kernel-Quiet : {A : Type 0} {m : M KernelError A} → Quiet m → Quiet (convert_kernel m)
converted_kernel-Quiet km = or_else-Quiet km (λ e. fail-Quiet _)

pop-Quiet : (n : ℕ) → Quiet (pop_notification_queue n)
unfolding pop_notification_queue
pop-Quiet n = change-Quiet _ (λ k. (after_leave-same k n (pop (pointers k) n)).0)

push-Quiet : (n p : ℕ) → Quiet (push_notification_queue n p)
unfolding push_notification_queue
push-Quiet n p = change-Quiet _ (λ k. refl)

-- A process that waits at no IPC port, with these in order.
abbrev Away : ℕ → Relation → Type 0
Away target v = Linked v × (v.queues.port target ≡ none)

resumed-Away :
    (target : ℕ) (k : Kernel) → Away target (relation k) → Linked (relation (resumed target k))
resumed-Away target k old =
    subst
      (λ (f : ℕ → Option ℕ).
        Linked (record (relation k) { queues = record ((relation k).queues) { port = f } }))
      (sym (write_same ((relation k).queues.port) target (old.1))) (old.0)

module _ (smp : Bool) (hal : Hal) where
  consume_to-Quiet : (this p index : ℕ) → Quiet (consume_to smp hal this p index)
  unfolding consumed
  consume_to-Quiet this p index = record {
    keep = λ v. record {
      hold = λ k e.
          ((converted-Quiet hal p index (k.notification_ports.flag this)).keep v).hold
            (set_ports (consumed this (k.notification_ports)) k) e;
    };
  }

  wake-Quiet : (owner target : ℕ) → Quiet (wake smp hal owner target)
  wake-Quiet owner target =
      converted_kernel-Quiet (Keeps-Quiet (route_mark_scheduled-Keeps smp hal true owner target))

  wake_waiter-Quiet : (this owner : ℕ) → Quiet (wake_waiter smp hal this owner)
  unfolding wake_waiter deliver
  wake_waiter-Quiet this owner =
      branch-Quiet (λ k. is_some (k.notification_ports.queue this).head)
        (>>=-Quiet (converted_kernel-Quiet (pop-Quiet this))
          (λ target. >>-Quiet (consume_to-Quiet this target 2) (wake-Quiet owner target)))
        (fail-Quiet fatal)

  notify_state-Quiet :
      (this owner : ℕ) (s : NotificationPortState) → Quiet (notify_state smp hal this owner s)
  unfolding notify_state
  notify_state-Quiet this owner NotificationPortState.wait = return-Quiet tt
  notify_state-Quiet this owner NotificationPortState.ready_to_wake = wake_waiter-Quiet this owner

  block-Quiet : (this owner : ℕ) → Quiet (block smp hal this owner)
  unfolding block
  block-Quiet this owner = >>-Quiet (modify-Quiet _ (λ k. refl)) (
      converted_kernel-Quiet (
        >>-Quiet (push-Quiet this owner)
          (Keeps-Quiet (try_schedule_and_switch-Keeps smp hal owner))))

  inform_binded-Away :
      (this current target : ℕ)
      → Leads (Away target) Linked (inform_binded smp hal this current target)
  unfolding inform_binded consumed
  inform_binded-Away this current target = record {
    lead = λ k old.
        (>>-Leads {R = Linked}
            (>>-Leads {R = Away target}
              (Quiet-Leads (
                >>-Quiet (converted-Quiet hal target 2 notification_info)
                  (converted-Quiet hal target 3 (k.notification_ports.flag this))))
              (λ v h. h.0) (modify-Leads (resumed target) (resumed-Away target)))
            (λ v h. h) (Quiet-Leads (wake-Quiet current target))).lead
          (set_ports (consumed this (k.notification_ports)) k) old;
  }

  module _ (this current target : ℕ) where
    wake_from-AreOrdered :
        (k : Kernel) (o : Option ℕ)
        → AreOrdered k
        → k.procs.current_ipc_port target ≡ o
        → InOrder (wake_from smp hal this current target o k).1
    unfolding wake_from
    wake_from-AreOrdered k none old e = old.ipc
    wake_from-AreOrdered k (some port) old e =
        bind_after smp hal (λ k'. Away target (relation k')) InOrder
          (remove_ipc_queue port target k) (λ e'. fatal) _
          ((removed-AreOrdered target k port old e).ipc, remove_ipc_queue-free port target k e)
          (λ k' h. h.0) (λ _ k' h. (inform_binded-Away this current target).lead k' h)

  wake_binded-InOrder :
      (this current : ℕ) (k : Kernel) (o : Option ℕ)
      → AreOrdered k
      → InOrder (wake_binded smp hal this current o k).1
  unfolding wake_binded
  wake_binded-InOrder this current k none old = old.ipc
  wake_binded-InOrder this current k (some target) old =
      if_hold InOrder (is_receiving (k.procs.status target)) _ _
        (wake_from-AreOrdered this current target k (k.procs.current_ipc_port target) old refl)
        old.ipc

  module _ (this owner self : ℕ) where
    operation_notify-InOrder :
        (k : Kernel) → AreOrdered k → InOrder (operation_notify smp hal this owner self k).1
    unfolding operation_notify notified notify try_wake_binded_process
    operation_notify-InOrder k old =
        let k1 = set_ports (notify this (identifier smp hal k self) (k.notification_ports)) k in
        let old1 : AreOrdered k1 = record {
          ipc = old.ipc;
          notification = record {
            waiters = old.notification.waiters;
            waiting = record {
              represents = old.notification.waiting.represents;
              state = old.notification.waiting.state;
            };
            exclusive = old.notification.exclusive;
          };
        } in
        if_hold InOrder (has_right k self write_right) _ _
          (if_hold InOrder
            (is_bound_receiving smp hal k1 (k1.notification_ports.binded_process this)) _ _
            (wake_binded-InOrder this owner k1 (k1.notification_ports.binded_process this) old1)
            ((Quiet-Leads {P = Linked}
                (notify_state-Quiet this owner (k1.notification_ports.state this))).lead
              k1 (old.ipc)))
          old.ipc

    wait_state-Quiet : (s : NotificationPortState) → Quiet (wait_state smp hal this owner s)
    unfolding wait_state
    wait_state-Quiet NotificationPortState.wait =
        branch-Quiet (λ k. has_notification (k.notification_ports) this)
          (consume_to-Quiet this owner 2) (block-Quiet this owner)
    wait_state-Quiet NotificationPortState.ready_to_wake = block-Quiet this owner

    operation_wait-Quiet : Quiet (operation_wait smp hal this owner self)
    unfolding operation_wait
    operation_wait-Quiet =
        branch-Quiet (λ k. not (has_right k self read_right)) (fail-Quiet _)
          (branch-Quiet (λ k. is_bound_elsewhere (k.notification_ports.binded_process this) owner)
            (fail-Quiet _)
            (reading-Quiet _ (λ k. wait_state-Quiet (k.notification_ports.state this))))

    operation_poll-Quiet : Quiet (operation_poll smp hal this owner self)
    unfolding operation_poll
    operation_poll-Quiet =
        branch-Quiet (λ k. not (has_right k self read_right)) (fail-Quiet _)
          (branch-Quiet (λ k. is_bound_elsewhere (k.notification_ports.binded_process this) owner)
            (fail-Quiet _)
            (branch-Quiet (λ k. has_notification (k.notification_ports) this)
              (consume_to-Quiet this owner 2) (converted-Quiet hal owner 2 0)))

    operation_identify-Quiet :
        (unset : SlotData) → Quiet (operation_identify smp hal unset owner self)
    unfolding operation_identify
    operation_identify-Quiet unset =
        branch-Quiet (λ k. has_right k self modify_right)
          (>>=-Quiet (or_else-Quiet (read-Quiet hal owner 2) (λ e. fail-Quiet _))
            (λ v. modify-Quiet (identify_with smp hal unset self v) (λ k'. refl)))
          (fail-Quiet _)

    perform-InOrder :
        (unset : SlotData) (operation : ℕ) (k : Kernel)
        → AreOrdered k
        → InOrder (perform smp hal unset this owner self operation k).1
    perform-InOrder unset operation k old =
        if_apply (operation == 1) (operation_notify smp hal this owner self) _
          (operation_notify-InOrder k old)
          (quiet (
            if-Quiet (operation == 2) operation_wait-Quiet (
              if-Quiet (operation == 3) operation_poll-Quiet
                (if-Quiet (operation == 4) (operation_identify-Quiet unset) (fail-Quiet _)))))
      where
        quiet : {m : M CapabilityError (Unit {0})} → Quiet m → InOrder (m k).1
        quiet km = (Quiet-Leads {P = Linked} km).lead k (old.ipc)

        if_apply :
            (b : Bool) (m n : M CapabilityError (Unit {0}))
            → InOrder (m k).1
            → InOrder (n k).1
            → InOrder ((if b then m else n) k).1
        if_apply true m n hm hn = hm
        if_apply false m n hm hn = hn

    -- Every operation of a running process, with whatever result, leaves the queues of all notification
    -- ports and of all IPC ports intact, every notification port in the state that says whether someone
    -- waits, no process at both kinds of port, and the reply relation in order: the process that a
    -- server owes a reply waits for that server, and a process that waits at an IPC port has no server.
    pub execute-AreOrdered :
        (unset : SlotData) (k : Kernel)
        → AreOrdered k
        → IsRunning k owner
        → AreOrdered (execute smp hal unset this owner self k).1
    unfolding execute
    execute-AreOrdered unset k old free = record {
      ipc =
          perform-InOrder unset
            (or_zero smp hal (hal.get_message_register owner 1 (k.procs.registers))) k old;
      notification = execute-IsOrdered smp hal this owner self unset k old.notification free;
    }
